-- ===== src/Cache/Tidy.antt =====
-- What the operations of the manager leave as it was: the table of flights and the bounds of the
-- first tier.
use mathlib.Core.Path.{subst}
use crucible_ai.Cache.Reads.{Aside, guarded-Answered}
use crucible_ai.Cache.Tiered.{
  CacheRequest, schedule_swr_refresh, produce, recheck_l1, recheck_l2, store_produced, l1_ttl_of,
  prevented, window,
}
use crucible_ai.Cache.Sources.{Fetched, read_l2-Fetched}
use crucible_ai.Cache.Manager.{
  Hit, stamps_of, populate, read_l1, read_l2, write_both, write_l1, write_l2, encode,
}
use crucible_ai.Cache.Service.{Service, Tiers, inc_metric, present_time, tick}
use crucible_ai.Cache.L1.{Stamps, get_detailed, Lookup, hit}
use crucible_ai.Cache.Bounds.{examine-IsWell, set-IsWell, IsWell}
use crucible_ai.Pipeline.Model.{get_key}
use crucible_ai.Cache.Redis.{l2_set}
use crucible_ai.Cache.Codec.{serialize_cache_value}
use crucible_ai.Pipeline.Runtime.{Act, Result, raise, ok}
use crucible_ai.Cache.L1.{miss, type_error}
use crucible_ai.Cache.Locks.{Positive}
use crucible_ai.Prelude.{
  Bool, Bool-cases, List, Option, Option-cases, String, any, false, if_split, if◌then◌else◌, inl,
  inr, none, refl, some, sym, true, ℕ, ◌+◌, ◌==◌, ◌∙◌, ◌≡◌, ◌⊎◌,
}

module _ {V W : Type 0} where
  -- The table of flights is a given one, and the first tier is well-formed.
  abbrev pub Neat : List (String × ℕ) → Tiers V W → Type 0
  Neat m t = (t.flights ≡ m) × IsWell t.l1

  -- The table of flights is positive, and the first tier is well-formed.
  abbrev pub Calm : Tiers V W → Type 0
  Calm t = Positive t.flights × IsWell t.l1

  pub Aside-Neat : (m : List (String × ℕ)) (t u : Tiers V W) → Aside t u → Neat m t → Neat m u
  Aside-Neat m t u a h = (a.1 ∙ h.0, subst (λ c. IsWell c) (sym a.0) h.1)

  pub schedule-Neat :
      (m : List (String × ℕ)) (key : String) (t : Tiers V W)
      → Neat m t
      → Neat m (schedule_swr_refresh key t).1
  unfolding schedule_swr_refresh inc_metric
  schedule-Neat m key t h =
      if_split (λ (x : Bool × Tiers V W). Neat m x.1) (any (λ k. k == key) t.refreshing) (λ _. h)
        (λ _. h)

module _ {V B W : Type 0} (sv : Service V B W) (m : List (String × ℕ)) where
  pub read_l1-Neat :
      (key : String) (allow : Bool) (t : Tiers V W) → Neat m t → Neat m (read_l1 sv key allow t).1
  unfolding read_l1 get_detailed
  read_l1-Neat key allow t h =
      (h.0, examine-IsWell key allow (present_time sv t) (get_key key t.l1.store) t.l1 h.1)

  pub write_l1-Neat :
      (key : String) (v : V) (ttl : ℕ) (g : Stamps) (t : Tiers V W)
      → Neat m t
      → Neat m (write_l1 sv key v ttl g t)
  unfolding write_l1
  write_l1-Neat key v ttl g t h = (h.0, set-IsWell key v (some ttl) g (present_time sv t) t.l1 h.1)

  pub read_l2-Neat :
      (r : CacheRequest) (allow : Bool) (t : Tiers V W)
      → (allow ≡ false) ⊎ (allow ≡ r.allow_stale)
      → Neat m t
      → Neat m (read_l2 sv r.key allow t).1
  read_l2-Neat r allow t a h =
      Aside-Neat m t (read_l2 sv r.key allow t).1
        (fetched (read_l2 sv r.key allow t) (read_l2-Fetched sv t r allow a)) h
    where
      fetched : (x : Result (Option (Hit V)) × Tiers V W) → Fetched sv t r x → Aside t x.1
      fetched (ok none, u) f = f
      fetched (ok (some _), u) f = f.1
      fetched (raise _, u) f = f.1

  write_l2-Neat :
      (key text : String) (ttl : ℕ) (t : Tiers V W)
      → Neat m t
      → Neat m (write_l2 sv key text ttl t).1
  unfolding write_l2 l2_set
  write_l2-Neat key text ttl t h =
      if_split (λ (x : Bool × Tiers V W). Neat m x.1) sv.configured
        (λ _.
          Aside-Neat m t (l2_set sv key text ttl t).1
            (guarded-Answered sv true (λ _. true) false _ t).1 h)
        (λ _. h)

  encode-Neat :
      (v : V) (ttl : ℕ) (allow : Bool) (stale : ℕ) (created : Option ℕ) (t : Tiers V W)
      → Neat m t
      → Neat m (encode sv v ttl allow stale created t).1
  unfolding encode inc_metric
  encode-Neat v ttl allow stale created t h =
      elim (Option-cases (serialize_cache_value sv.codec v sv.compression_threshold)) [
        | inl e ↦ rw (encode, e) h
        | inr (p, e) ↦ rw (encode, e) (elim (Bool-cases p.1) [ inl q ↦ rw q h | inr q ↦ rw q h ])
      ]

  write_both-Neat :
      (key : String) (v : V) (ttl ttl2 : ℕ) (trouble : String)
      (x : Option (String × Stamps) × Tiers V W)
      → Neat m x.1
      → Neat m (write_both sv key v ttl ttl2 trouble x).1
  unfolding write_both inc_metric
  write_both-Neat key v ttl ttl2 trouble (none, t) h = h
  write_both-Neat key v ttl ttl2 trouble (some (text, g), t) h =
      write_l1-Neat key v ttl g (write_l2 sv key text ttl2 t).1 (write_l2-Neat key text ttl2 t h)

  pub populate-Neat :
      (key : String) (v : V) (ttl l1 : ℕ) (allow : Bool) (stale : ℕ) (created : Option ℕ)
      (trouble : String) (t : Tiers V W)
      → Neat m t
      → Neat m (populate sv key v ttl l1 allow stale created trouble t).1
  unfolding populate
  populate-Neat key v ttl l1 allow stale created trouble t h =
      write_both-Neat key v l1 (ttl + (if allow then stale else 0)) trouble
        (encode sv v ttl allow stale created t) (encode-Neat v ttl allow stale created t h)

  store_produced-Neat :
      (r : CacheRequest) (x : Result V × W) (t : Tiers V W)
      → Neat m t
      → Neat m (store_produced sv r x t).1
  unfolding store_produced
  store_produced-Neat r (raise e, w) t h = h
  store_produced-Neat r (ok v, w) t h =
      populate-Neat r.key v r.ttl (l1_ttl_of sv r) r.allow_stale (window sv r.stale_max_seconds)
        (some (present_time sv (record t { world = w })).epoch) "cache_write_error"
        (tick (record t { world = w })) h

  recheck_l2-Neat :
      (r : CacheRequest) (producer : Act W V) (x : Result (Option (Hit V)) × Tiers V W)
      → Neat m x.1
      → Neat m (recheck_l2 sv r producer x).1
  unfolding recheck_l2 produce inc_metric
  recheck_l2-Neat r producer (raise e, t) h = h
  recheck_l2-Neat r producer (ok none, t) h =
      store_produced-Neat r (producer t.world) (inc_metric "cache_producer_call" t) h
  recheck_l2-Neat r producer (ok (some x), t) h =
      write_l1-Neat r.key x.value (l1_ttl_of sv r) (stamps_of x.envelope)
        (prevented sv "cache_l2_hit" t) h

  pub recheck_l1-Neat :
      (r : CacheRequest) (producer : Act W V) (x : Lookup V × Tiers V W)
      → Neat m x.1
      → Neat m (recheck_l1 sv r producer x).1
  unfolding recheck_l1 inc_metric
  recheck_l1-Neat r producer (hit false v g, t) h = h
  recheck_l1-Neat r producer (hit true v g, t) h =
      recheck_l2-Neat r producer (read_l2 sv r.key false t) (read_l2-Neat r false t (inl refl) h)
  recheck_l1-Neat r producer (type_error, t) h = h
  recheck_l1-Neat r producer (miss, t) h =
      recheck_l2-Neat r producer (read_l2 sv r.key false t) (read_l2-Neat r false t (inl refl) h)
