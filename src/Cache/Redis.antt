-- ===== src/Cache/Redis.antt =====
-- `L2RedisClient` of app/api/core/cache.py: get, set and delete behind the circuit breaker. Nothing
-- that the client or the server raises leaves these functions.
use crucible_ai.Pipeline.Runtime.{Act, Exception, Result, ok, raise}
use crucible_ai.Cache.Service.{Service, Tiers, inc_metric, present_time, tick}
use crucible_ai.Cache.Breaker.{can_attempt, record_failure, record_success}
use crucible_ai.Prelude.{Bool, Option, String, false, if◌then◌else◌, ltb, none, not, true, ℕ, ◌&&◌}

module _ {V B W : Type 0} (sv : Service V B W) where
  unfoldable pub note_failure : Tiers V W → Tiers V W
  unfolding record_failure
  note_failure s = record (tick s) { circuit = record_failure (present_time sv s).mono s.circuit }

  abbrev note_success : Tiers V W → Tiers V W
  note_success s = record s { circuit = record_success s.circuit }

  unfoldable pub connected_by : Result (Unit {0}) × W → Tiers V W → Bool × Tiers V W
  unfolding note_failure inc_metric
  connected_by (ok _, w) s = (true, record s { connected = true; world = w })
  connected_by (raise e, w) s =
      (false, inc_metric "cache_l2_error" (note_failure (record s { world = w })))

  -- `_get_client`
  unfoldable pub get_client : Tiers V W → Bool × Tiers V W
  unfolding connected_by
  get_client s =
      if not (sv.configured && (sv.redis_enabled && sv.redis_installed))
      then (false, s)
      else if s.connected
      then (true, s)
      else connected_by (sv.connect s.world) s

  -- `on_error`, where the operation reports its errors
  unfoldable pub report_error : Bool → Exception → Tiers V W → Tiers V W
  unfolding inc_metric
  report_error true e s =
      inc_metric (if sv.is_timeout e then "cache_l2_timeout" else "cache_l2_error") s
  report_error false e s = s

  module _ {A R : Type 0} (reports : Bool) (answer : A → R) (default : R) where
    unfoldable pub conclude_call : Result A × W → Tiers V W → R × Tiers V W
    unfolding note_failure report_error
    conclude_call (ok a, w) s = (answer a, note_success (record s { world = w }))
    conclude_call (raise e, w) s =
        (default, report_error reports e (note_failure (record s { world = w })))

    unfoldable pub with_client : Act W A → Bool × Tiers V W → R × Tiers V W
    unfolding conclude_call
    with_client act (false, s) = (default, s)
    with_client act (true, s) = conclude_call (act s.world) s

    -- An operation on the server: nothing while the circuit refuses or where there is no client.
    unfoldable pub guarded : Act W A → Tiers V W → R × Tiers V W
    unfolding with_client get_client can_attempt
    guarded act s =
        let (allowed, circuit) = can_attempt (present_time sv s).mono s.circuit in
        let t = record (tick s) { circuit = circuit } in
        if allowed then with_client act (get_client t) else (default, t)

  -- `get`
  unfoldable pub l2_get : String → Tiers V W → Option String × Tiers V W
  unfolding guarded
  l2_get key s = guarded true (λ (a : Option String). a) none (sv.server_get key) s

  -- `set`
  unfoldable pub l2_set : String → String → ℕ → Tiers V W → Bool × Tiers V W
  unfolding guarded
  l2_set key value ex_seconds s =
      guarded true (λ _. true) false
        (sv.server_set key value (if ltb ex_seconds 1 then 1 else ex_seconds)) s

  -- `delete`
  unfoldable pub l2_delete : String → Tiers V W → Bool × Tiers V W
  unfolding guarded
  l2_delete key s = guarded false (λ _. true) false (sv.server_delete key) s
