-- ===== src/Cache/Tiered.antt =====
-- The public interface of `TieredCacheManager` in app/api/core/cache.py, but the invalidation by
-- patterns: get, set, delete and `get_or_set` with its refresh in the background, which is an
-- operation of its own. A thread is not interrupted within an operation.
use crucible_ai.Pipeline.Runtime.{Act, Result, raise, ok}
use crucible_ai.Cache.Manager.{Hit, populate, read_l1, read_l2, stamps_of, write_l1}
use crucible_ai.Cache.L1.{miss, hit, Lookup, delete_entry, type_error}
use crucible_ai.Cache.Service.{Service, Tiers, inc_metric, not_supported, present_time, tick}
use crucible_ai.Cache.Redis.{l2_delete}
use crucible_ai.Cache.Flights.{acquire_flight, release_flight}
use crucible_ai.Prelude.{
  Bool, Option, String, any, false, get_or, if◌then◌else◌, keep, ltb, none, not, some, true, ℕ, ◌+◌,
  ◌==◌, ◌||◌, ◌∷◌,
}

abbrev pub min : ℕ → ℕ → ℕ
min a b = if ltb b a then b else a

-- The arguments of `get_or_set` but the producer.
pub record CacheRequest : Type 0 where
  pub key : String
  pub ttl : ℕ
  pub l1_ttl : Option ℕ
  pub allow_stale : Bool
  pub stale_max_seconds : Option ℕ

module _ {V W : Type 0} where
  -- `_schedule_swr_refresh`, without the thread that it starts
  unfoldable pub schedule_swr_refresh : String → Tiers V W → Bool × Tiers V W
  unfolding inc_metric
  schedule_swr_refresh key s = if any (λ k. k == key) s.refreshing then (false, s) else (
    true,
    inc_metric "cache_stale_refresh_started" (record s { refreshing = key ∷ s.refreshing }),
  )

module _ {V B W : Type 0} (sv : Service V B W) where
  abbrev pub window : Option ℕ → ℕ
  window stale_max_seconds = get_or stale_max_seconds sv.stale_max_seconds

  abbrev pub l1_ttl_of : CacheRequest → ℕ
  l1_ttl_of r = get_or r.l1_ttl (min r.ttl sv.l1_ttl_default)

  unfoldable pub serve_l2 :
      String → Result (Option (Hit V)) × Tiers V W → Result (Option V) × Tiers V W
  unfolding inc_metric write_l1
  serve_l2 key (raise e, s) = (raise e, s)
  serve_l2 key (ok none, s) = (ok none, inc_metric "cache_l2_miss" s)
  serve_l2 key (ok (some h), s) = (
    ok (some h.value),
    write_l1 sv key h.value sv.l1_ttl_default (stamps_of h.envelope)
        (inc_metric (if h.is_stale then "cache_stale_served" else "cache_l2_hit") s),
  )

  unfoldable pub serve_l1 : String → Bool → Lookup V × Tiers V W → Result (Option V) × Tiers V W
  unfolding read_l2 serve_l2 inc_metric
  serve_l1 key allow_stale (miss, s) =
      serve_l2 key (read_l2 sv key allow_stale (inc_metric "cache_l1_miss" s))
  serve_l1 key allow_stale (type_error, s) = (raise not_supported, s)
  serve_l1 key allow_stale (hit stale v _, s) =
      (ok (some v), inc_metric (if stale then "cache_stale_served" else "cache_l1_hit") s)

  -- `get`; `none` where there is nothing
  unfoldable pub get_value : String → Bool → Tiers V W → Result (Option V) × Tiers V W
  unfolding read_l1 serve_l1
  get_value key allow_stale s = serve_l1 key allow_stale (read_l1 sv key allow_stale s)

  -- `set`
  unfoldable pub write_value :
      String → V → Option ℕ → Bool → Option ℕ → Tiers V W → Bool × Tiers V W
  unfolding populate
  write_value key value ttl allow_stale stale_max_seconds s =
      let effective = get_or ttl sv.ttl_default in
      populate sv key value effective (min effective sv.l1_ttl_default) allow_stale
        (window stale_max_seconds) none "cache_write_error" s

  -- `delete`
  unfoldable pub delete_value : String → Tiers V W → Bool × Tiers V W
  unfolding delete_entry l2_delete inc_metric
  delete_value key s =
      let (first, after) = delete_entry key s.l1 in
      let (second, t) = l2_delete sv key (record s { l1 = after }) in
      (first || second, inc_metric "cache_invalidation" t)

  -- A produced value is written to both tiers, whatever comes of the writes.
  unfoldable pub store_produced : CacheRequest → Result V × W → Tiers V W → Result V × Tiers V W
  unfolding populate
  store_produced r (raise e, w) s = (raise e, record s { world = w })
  store_produced r (ok v, w) s = (
    ok v,
    (populate sv r.key v r.ttl (l1_ttl_of r) r.allow_stale (window r.stale_max_seconds)
        (some (present_time sv s).epoch) "cache_write_error" (tick (record s { world = w }))).1,
  )

  unfoldable pub produce : CacheRequest → Act W V → Tiers V W → Result V × Tiers V W
  unfolding store_produced inc_metric
  produce r producer s = store_produced r (producer s.world) (inc_metric "cache_producer_call" s)

  abbrev pub prevented : String → Tiers V W → Tiers V W
  prevented metric s = inc_metric metric (
      inc_metric "cache_stampede_prevented"
        (record s { stampedes_prevented = s.stampedes_prevented + 1 }))

  unfoldable pub recheck_l2 :
      CacheRequest → Act W V → Result (Option (Hit V)) × Tiers V W → Result V × Tiers V W
  unfolding produce write_l1 inc_metric
  recheck_l2 r producer (raise e, s) = (raise e, s)
  recheck_l2 r producer (ok none, s) = produce r producer s
  recheck_l2 r producer (ok (some h), s) = (
    ok h.value,
    write_l1 sv r.key h.value (l1_ttl_of r) (stamps_of h.envelope) (prevented "cache_l2_hit" s),
  )

  -- Under the lock: the two tiers once more, for a fresh value only, and then the producer.
  unfoldable pub recheck_l1 : CacheRequest → Act W V → Lookup V × Tiers V W → Result V × Tiers V W
  unfolding recheck_l2 read_l2 inc_metric
  recheck_l1 r producer (hit false v _, s) = (ok v, prevented "cache_l1_hit" s)
  recheck_l1 r producer (type_error, s) = (raise not_supported, s)
  recheck_l1 r producer (_, s) = recheck_l2 r producer (read_l2 sv r.key false s)

  unfoldable pub fly : CacheRequest → Act W V → Tiers V W → Result V × Tiers V W
  unfolding recheck_l1 read_l1 acquire_flight release_flight
  fly r producer s =
      let (result, t) =
        recheck_l1 r producer
          (read_l1 sv r.key false (record s { flights = acquire_flight r.key s.flights })) in
      (result, record t { flights = release_flight r.key t.flights })

  unfoldable pub answer_l2 :
      CacheRequest → Act W V → Result (Option (Hit V)) × Tiers V W → Result V × Tiers V W
  unfolding fly write_l1 schedule_swr_refresh inc_metric
  answer_l2 r producer (raise e, s) = (raise e, s)
  answer_l2 r producer (ok none, s) = fly r producer (inc_metric "cache_l2_miss" s)
  answer_l2 r producer (ok (some h), s) =
      let t =
        write_l1 sv r.key h.value (l1_ttl_of r) (stamps_of h.envelope)
          (inc_metric (if h.is_stale then "cache_stale_served" else "cache_l2_hit") s) in
      (ok h.value, if h.is_stale then (schedule_swr_refresh r.key t).1 else t)

  unfoldable pub answer_l1 : CacheRequest → Act W V → Lookup V × Tiers V W → Result V × Tiers V W
  unfolding answer_l2 read_l2 schedule_swr_refresh inc_metric
  answer_l1 r producer (miss, s) =
      answer_l2 r producer (read_l2 sv r.key r.allow_stale (inc_metric "cache_l1_miss" s))
  answer_l1 r producer (type_error, s) = (raise not_supported, s)
  answer_l1 r producer (hit true v _, s) =
      (ok v, (schedule_swr_refresh r.key (inc_metric "cache_stale_served" s)).1)
  answer_l1 r producer (hit false v _, s) = (ok v, inc_metric "cache_l1_hit" s)

  abbrev pub uncached : Result V × W → Tiers V W → Result V × Tiers V W
  uncached (r, w) s = (r, record s { world = w })

  -- `get_or_set`
  unfoldable pub get_or_set : CacheRequest → Act W V → Tiers V W → Result V × Tiers V W
  unfolding answer_l1 read_l1
  get_or_set r producer s =
      if sv.enabled
      then answer_l1 r producer (read_l1 sv r.key r.allow_stale s)
      else uncached (producer s.world) s

  unfoldable pub finish_refresh : CacheRequest → Result V × W → Tiers V W → Tiers V W
  unfolding populate inc_metric
  finish_refresh r (raise e, w) s = inc_metric "cache_stale_refresh_error" (record s { world = w })
  finish_refresh r (ok v, w) s =
      let (written, t) =
        populate sv r.key v r.ttl (l1_ttl_of r) r.allow_stale (window r.stale_max_seconds)
          (some (present_time sv s).epoch) "cache_stale_refresh_error"
          (tick (record s { world = w })) in
      if written then inc_metric "cache_stale_refresh_completed" t else t

  -- `_refresh_worker`
  unfoldable pub refresh_worker : CacheRequest → Act W V → Tiers V W → Tiers V W
  unfolding finish_refresh acquire_flight release_flight inc_metric
  refresh_worker r producer s =
      let t = finish_refresh r (producer s.world) (
        inc_metric "cache_producer_call" (record s { flights = acquire_flight r.key s.flights })) in
      record t {
        flights = release_flight r.key t.flights;
        refreshing = keep (λ k. not (k == r.key)) t.refreshing;
      }
