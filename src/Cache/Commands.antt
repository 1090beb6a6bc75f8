-- ===== src/Cache/Commands.antt =====
-- The manager under any sequence of its operations, one at a time.
use crucible_ai.Cache.L1.{miss, hit, Lookup, delete_entry, new_cache, type_error}
use mathlib.Core.Path.{subst}
use crucible_ai.Cache.Calls.{delete, run_call-IsWell}
use crucible_ai.Pipeline.Runtime.{Act, Result, ok, raise}
use crucible_ai.Cache.Breaker.{Breaker}
use crucible_ai.Cache.Tiered.{
  CacheRequest, delete_value, get_or_set, get_value, refresh_worker, serve_l1, serve_l2,
  write_value, min, window,
}
use crucible_ai.Cache.Landings.{get_or_set-Neat, refresh_worker-Neat}
use crucible_ai.Cache.Manager.{Hit, stamps_of, read_l1, read_l2}
use crucible_ai.Cache.Tidy.{
  Neat, Aside-Neat, populate-Neat, read_l1-Neat, read_l2-Neat, write_l1-Neat,
}
use crucible_ai.Cache.Locks.{Positive}
use crucible_ai.Cache.Service.{Service, Tiers, inc_metric}
use crucible_ai.Cache.Redis.{l2_delete}
use crucible_ai.Cache.Tidy.{Calm}
use crucible_ai.Cache.Reads.{guarded-Answered}
use crucible_ai.Prelude.{
  Bool, List, Option, String, [], arith, false, get_or, if◌then◌else◌, inr, none, refl, some, sym,
  true, ℕ, ◌∙◌, ◌∷◌,
}

-- An operation of the manager; one with a producer brings it along.
pub data Command (V W : Type 0) : Type 0 where
  read : String → Bool → Command V W
  write : String → V → Option ℕ → Bool → Option ℕ → Command V W
  remove : String → Command V W
  fetch refresh : CacheRequest → Act W V → Command V W

-- `TieredCacheManager(...)` with a first tier of some size
unfoldable pub new_tiers : {V W : Type 0} → ℕ → ℕ → Breaker → W → Tiers V W
new_tiers max_entries default_ttl breaker world = record {
  l1 = new_cache max_entries default_ttl;
  circuit = breaker;
  connected = false;
  flights = [];
  stampedes_prevented = 0;
  refreshing = [];
  metrics = [];
  readings = 0;
  world = world;
}

module _ {V B W : Type 0} (sv : Service V B W) where
  abbrev pub obey : Command V W → Tiers V W → Tiers V W
  obey (read key allow) s = (get_value sv key allow s).1
  obey (write key v ttl allow stale) s = (write_value sv key v ttl allow stale s).1
  obey (remove key) s = (delete_value sv key s).1
  obey (fetch r producer) s = (get_or_set sv r producer s).1
  obey (refresh r producer) s = refresh_worker sv r producer s

  abbrev pub obey_all : List (Command V W) → Tiers V W → Tiers V W
  obey_all [] s = s
  obey_all (x ∷ xs) s = obey_all xs (obey x s)

  -- A request that stands for a read alone.
  abbrev reading : String → Bool → CacheRequest
  reading key allow = record {
    key = key;
    ttl = 0;
    l1_ttl = none;
    allow_stale = allow;
    stale_max_seconds = none;
  }

  serve_l2-Neat :
      (m : List (String × ℕ)) (key : String) (x : Result (Option (Hit V)) × Tiers V W)
      → Neat m x.1
      → Neat m (serve_l2 sv key x).1
  unfolding serve_l2 inc_metric
  serve_l2-Neat m key (raise e, t) h = h
  serve_l2-Neat m key (ok none, t) h = h
  serve_l2-Neat m key (ok (some x), t) h =
      write_l1-Neat sv m key x.value sv.l1_ttl_default (stamps_of x.envelope)
        (inc_metric (if x.is_stale then "cache_stale_served" else "cache_l2_hit") t) h

  serve_l1-Neat :
      (m : List (String × ℕ)) (key : String) (allow : Bool) (x : Lookup V × Tiers V W)
      → Neat m x.1
      → Neat m (serve_l1 sv key allow x).1
  unfolding serve_l1 inc_metric
  serve_l1-Neat m key allow (miss, t) h =
      let u = inc_metric "cache_l1_miss" t in
      serve_l2-Neat m key (read_l2 sv key allow u)
        (read_l2-Neat sv m (reading key allow) allow u (inr refl) h)
  serve_l1-Neat m key allow (type_error, t) h = h
  serve_l1-Neat m key allow (hit stale v g, t) h = h

  delete_value-Neat :
      (key : String) (s : Tiers V W) → Calm s → Neat s.flights (delete_value sv key s).1
  unfolding delete_value l2_delete inc_metric
  delete_value-Neat key s c =
      let u : Tiers V W = record s { l1 = (delete_entry key s.l1).1 } in
      Aside-Neat s.flights u (l2_delete sv key u).1
        (guarded-Answered sv false (λ _. true) false (sv.server_delete key) u).1
        (refl, run_call-IsWell (delete key) s.l1 c.1)

  obey-Neat : (x : Command V W) (s : Tiers V W) → Calm s → Neat s.flights (obey x s)
  unfolding get_value write_value
  obey-Neat (read key allow) s c =
      serve_l1-Neat s.flights key allow (read_l1 sv key allow s)
        (read_l1-Neat sv s.flights key allow s (refl, c.1))
  obey-Neat (write key v ttl allow stale) s c =
      let t = get_or ttl sv.ttl_default in
      populate-Neat sv s.flights key v t (min t sv.l1_ttl_default) allow (window sv stale) none
        "cache_write_error" s (refl, c.1)
  obey-Neat (remove key) s c = delete_value-Neat key s c
  obey-Neat (fetch r producer) s c = get_or_set-Neat sv r producer s c
  obey-Neat (refresh r producer) s c = refresh_worker-Neat sv r producer s c

  obey_all-Neat :
      (xs : List (Command V W)) (s : Tiers V W) → Calm s → Neat s.flights (obey_all xs s)
  obey_all-Neat [] s c = (refl, c.1)
  obey_all-Neat (x ∷ xs) s c =
      let (f, w) = obey-Neat x s c in
      let (g, v) = obey_all-Neat xs (obey x s) (subst Positive (sym f) c.0, w) in (g ∙ f, v)

  -- After any operations on a new manager, whatever the server, the codecs and the producers do, and
  -- also where they raise, or where the read of an entry raises because a timestamp of it is no number,
  -- no lock of a flight is left behind, and the first tier stores no key twice and is within its bound.
  pub obey_all_tidy :
      (xs : List (Command V W)) (max_entries default_ttl : ℕ) (breaker : Breaker) (world : W)
      → Neat [] (obey_all xs (new_tiers max_entries default_ttl breaker world))
  unfolding new_tiers
  obey_all_tidy xs max_entries default_ttl breaker world =
      obey_all-Neat xs (new_tiers max_entries default_ttl breaker world)
        (tt, record { distinct = tt; bounded = omega arith })
