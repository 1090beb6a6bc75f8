-- ===== src/Cache/Landings.antt =====
-- What `get_or_set` and the refresh in the background leave as it was.
use mathlib.Core.Path.{subst}
use crucible_ai.Cache.L1.{miss, hit, Lookup, type_error}
use crucible_ai.Pipeline.Runtime.{Act, Result, raise, ok}
use crucible_ai.Cache.Tiered.{
  CacheRequest, answer_l1, answer_l2, finish_refresh, get_or_set, l1_ttl_of, recheck_l1,
  refresh_worker, fly, window,
}
use crucible_ai.Cache.Manager.{Hit, stamps_of, populate, read_l1, read_l2}
use crucible_ai.Cache.Tidy.{
  Neat, populate-Neat, read_l1-Neat, read_l2-Neat, recheck_l1-Neat, schedule-Neat, write_l1-Neat,
  Calm,
}
use crucible_ai.Cache.Locks.{Positive, release-acquire}
use crucible_ai.Cache.Service.{Service, Tiers, inc_metric, present_time}
use crucible_ai.Cache.Flights.{acquire_flight, release_flight}
use crucible_ai.Cache.Service.{tick}
use crucible_ai.Prelude.{
  List, Option, String, ap, false, if_split, if◌then◌else◌, inr, none, refl, some, sym, true, ℕ,
  ◌∙◌,
}

module _ {V B W : Type 0} (sv : Service V B W) where
  -- Under an acquired lock, what keeps the table keeps the one before it, once it is released.
  landed :
      (key : String) (s t : Tiers V W)
      → Positive s.flights
      → Neat (acquire_flight key s.flights) t
      → Neat s.flights (record t { flights = release_flight key t.flights })
  landed key s t p h = (ap (release_flight key) h.0 ∙ release-acquire key s.flights p, h.1)

  fly-Neat :
      (r : CacheRequest) (producer : Act W V) (s : Tiers V W)
      → Calm s
      → Neat s.flights (fly sv r producer s).1
  unfolding fly
  fly-Neat r producer s c =
      let m = acquire_flight r.key s.flights in
      let u : Tiers V W = record s { flights = m } in
      landed r.key s (recheck_l1 sv r producer (read_l1 sv r.key false u)).1 c.0 (
        recheck_l1-Neat sv m r producer (read_l1 sv r.key false u)
          (read_l1-Neat sv m r.key false u (refl, c.1)))

  fly_on :
      (m : List (String × ℕ)) (r : CacheRequest) (producer : Act W V) (t : Tiers V W)
      → Positive m
      → Neat m t
      → Neat m (fly sv r producer t).1
  fly_on m r producer t p h =
      let (f, w) = fly-Neat r producer t (subst Positive (sym h.0) p, h.1) in (f ∙ h.0, w)

  answer_l2-Neat :
      (m : List (String × ℕ)) (r : CacheRequest) (producer : Act W V)
      (x : Result (Option (Hit V)) × Tiers V W)
      → Positive m
      → Neat m x.1
      → Neat m (answer_l2 sv r producer x).1
  unfolding answer_l2 inc_metric
  answer_l2-Neat m r producer (raise e, t) p h = h
  answer_l2-Neat m r producer (ok none, t) p h =
      fly_on m r producer (inc_metric "cache_l2_miss" t) p h
  answer_l2-Neat m r producer (ok (some x), t) p h =
      let u = inc_metric (if x.is_stale then "cache_stale_served" else "cache_l2_hit") t in
      let k = write_l1-Neat sv m r.key x.value (l1_ttl_of sv r) (stamps_of x.envelope) u h in
      if_split (Neat m) x.is_stale (λ _. schedule-Neat m r.key _ k) (λ _. k)

  answer_l1-Neat :
      (m : List (String × ℕ)) (r : CacheRequest) (producer : Act W V) (x : Lookup V × Tiers V W)
      → Positive m
      → Neat m x.1
      → Neat m (answer_l1 sv r producer x).1
  unfolding answer_l1 inc_metric
  answer_l1-Neat m r producer (miss, t) p h =
      let u = inc_metric "cache_l1_miss" t in
      answer_l2-Neat m r producer (read_l2 sv r.key r.allow_stale u) p
        (read_l2-Neat sv m r r.allow_stale u (inr refl) h)
  answer_l1-Neat m r producer (type_error, t) p h = h
  answer_l1-Neat m r producer (hit true v g, t) p h =
      schedule-Neat m r.key (inc_metric "cache_stale_served" t) h
  answer_l1-Neat m r producer (hit false v g, t) p h = h

  pub get_or_set-Neat :
      (r : CacheRequest) (producer : Act W V) (s : Tiers V W)
      → Calm s
      → Neat s.flights (get_or_set sv r producer s).1
  unfolding get_or_set
  get_or_set-Neat r producer s c =
      if_split (λ (x : Result V × Tiers V W). Neat s.flights x.1) sv.enabled
        (λ _.
          answer_l1-Neat s.flights r producer (read_l1 sv r.key r.allow_stale s) c.0
            (read_l1-Neat sv s.flights r.key r.allow_stale s (refl, c.1)))
        (λ _. (refl, c.1))

  finish_refresh-Neat :
      (m : List (String × ℕ)) (r : CacheRequest) (x : Result V × W) (t : Tiers V W)
      → Neat m t
      → Neat m (finish_refresh sv r x t)
  unfolding finish_refresh inc_metric
  finish_refresh-Neat m r (raise e, w) t h = h
  finish_refresh-Neat m r (ok v, w) t h =
      let u : Tiers V W = record t { world = w } in
      let y =
        populate sv r.key v r.ttl (l1_ttl_of sv r) r.allow_stale (window sv r.stale_max_seconds)
          (some (present_time sv u).epoch) "cache_stale_refresh_error" (tick u) in
      let k =
        populate-Neat sv m r.key v r.ttl (l1_ttl_of sv r) r.allow_stale
          (window sv r.stale_max_seconds) (some (present_time sv u).epoch)
          "cache_stale_refresh_error" (tick u) h in
      if_split (Neat m) y.0 (λ _. k) (λ _. k)

  pub refresh_worker-Neat :
      (r : CacheRequest) (producer : Act W V) (s : Tiers V W)
      → Calm s
      → Neat s.flights (refresh_worker sv r producer s)
  unfolding refresh_worker inc_metric
  refresh_worker-Neat r producer s c =
      let m = acquire_flight r.key s.flights in
      let u = inc_metric "cache_producer_call" (record s { flights = m }) in
      landed r.key s (finish_refresh sv r (producer s.world) u) c.0
        (finish_refresh-Neat m r (producer s.world) u (refl, c.1))
