-- ===== src/Cache/Reads.antt =====
-- What a read of either tier yields, and what it leaves alone.
use mathlib.Core.Bool.{false≢true}
use crucible_ai.Pipeline.Runtime.{Act, Result, ok, raise, Exception}
use crucible_ai.Cache.Items.{Distinct, get-has, remove-Distinct}
use crucible_ai.Cache.L1.{
  miss, hit, L1Cache, L1Entry, Lookup, Moment, count_miss, examine_entry, is_fresh, is_servable,
  found, expire, type_error, Timestamp, number, incomparable, is_number, is_unordered,
}
use crucible_ai.Cache.Service.{Service, Tiers, inc_metric, present_time, tick}
use crucible_ai.Cache.Redis.{conclude_call}
use crucible_ai.Cache.Redis.{
  get_client, note_failure, report_error, connected_by, with_client, guarded,
}
use crucible_ai.Pipeline.Model.{get_key}
use crucible_ai.Cache.Dicts.{has_key, remove_key}
use crucible_ai.Cache.Breaker.{can_attempt}
use crucible_ai.Prelude.{
  Bool, List, Option, Option-cases, String, ap, arith, false, if_split, inl, inr, is_some, none,
  not, refl, some, sym, true, ◌&&◌, ◌||◌, ◌∙◌, ◌≡◌, ◌⊎◌,
}

-- Neither the first tier nor the table of flights is touched.
abbrev pub Aside : {V W : Type 0} → Tiers V W → Tiers V W → Type 0
Aside s t = (t.l1 ≡ s.l1) × (t.flights ≡ s.flights)

is_unordered_lem :
    (allow : Bool) (t : Timestamp)
    → (allow && not (is_number t)) ≡ true
    → (allow ≡ true) × (t ≡ incomparable)
is_unordered_lem false t h = absurd (false≢true h)
is_unordered_lem true (number n) h = absurd (false≢true h)
is_unordered_lem true incomparable h = (refl, refl)

module _ {V : Type 0} where
  -- A lookup of a key in a store: a hit is its entry, in time; after a miss there is none;
  -- and where it raises there is one that cannot be compared.
  abbrev pub Looked :
      (key : String) (allow : Bool) (now : Moment)
      → Option (L1Entry V)
      → Lookup V × L1Cache V
      → Type 0
  Looked key allow now o (miss, c) = get_key key c.store ≡ none
  Looked key allow now o (type_error, c) =
      (e : L1Entry V) × (o ≡ some e) × (allow ≡ true) × (e.stale_until_epoch ≡ incomparable)
  Looked key allow now o (hit stale v m, c) =
      (e : L1Entry V) × (o ≡ some e)
      × (e.value ≡ v)
      × ((is_fresh now e || is_servable allow now e) ≡ true)

  get-absent :
      (key : String) (m : List (String × L1Entry V)) → has_key key m ≡ false → get_key key m ≡ none
  get-absent key m h = elim (Option-cases (get_key key m)) [
    | inl e ↦ e
    | inr (v, e) ↦ absurd (false≢true (sym h ∙ (get-has key m ∙ ap is_some e)))
  ]

  pub examine-Looked :
      (key : String) (allow : Bool) (now : Moment) (o : Option (L1Entry V)) (c : L1Cache V)
      → Distinct c.store
      → get_key key c.store ≡ o
      → Looked key allow now o (examine_entry key allow now o c)
  unfolding examine_entry found expire count_miss
  examine-Looked key allow now none c d h = h
  examine-Looked key allow now (some e) c d h =
      if_split (Looked key allow now (some e)) (is_fresh now e)
        (λ q. (e, refl, refl, ground (arith, q)))
        (λ q.
          if_split (Looked key allow now (some e)) (is_unordered allow e)
            (λ u. let (x, y) = is_unordered_lem allow e.stale_until_epoch u in (e, refl, x, y))
            (λ u.
              if_split (Looked key allow now (some e)) (is_servable allow now e)
                (λ r. (e, refl, refl, ground (arith, r)))
                (λ r. get-absent key (remove_key key c.store) (remove-Distinct key c.store d).0)))

module _ {V B W : Type 0} (sv : Service V B W) where
  note_failure-Aside : (s : Tiers V W) → Aside s (note_failure sv s)
  unfolding note_failure
  note_failure-Aside s = (refl, refl)

  inc-Aside : (name : String) (s t : Tiers V W) → Aside s t → Aside s (inc_metric name t)
  unfolding inc_metric
  inc-Aside name s t h = h

  connected_by-Aside : (m : Result (Unit {0}) × W) (s : Tiers V W) → Aside s (connected_by sv m s).1
  unfolding connected_by inc_metric note_failure
  connected_by-Aside (ok _, w) s = (refl, refl)
  connected_by-Aside (raise e, w) s = (refl, refl)

  get_client-Aside : (s : Tiers V W) → Aside s (get_client sv s).1
  unfolding get_client
  get_client-Aside s =
      if_split (λ (m : Bool × Tiers V W). Aside s m.1)
        (not (sv.configured && (sv.redis_enabled && sv.redis_installed))) (λ _. (refl, refl))
        (λ _.
          if_split (λ (m : Bool × Tiers V W). Aside s m.1) s.connected (λ _. (refl, refl))
            (λ _. connected_by-Aside (sv.connect s.world) s))

  module _ {A R : Type 0} (reports : Bool) (answer : A → R) (default : R) (act : Act W A) where
    -- The answer is the default or that of the server.
    abbrev pub Answered : Tiers V W → R × Tiers V W → Type 0
    Answered s (x, t) =
        ((x ≡ default) ⊎ ((a : A) × (w : W) × (w' : W) × (act w ≡ (ok a, w')) × (x ≡ answer a)))
        × Aside s t

    report_error-Aside :
        (b : Bool) (e : Exception) (s : Tiers V W) → Aside s (report_error sv b e s)
    unfolding report_error inc_metric
    report_error-Aside true e s = (refl, refl)
    report_error-Aside false e s = (refl, refl)

    conclude_call-Answered :
        (w : W) (m : Result A × W) (s : Tiers V W)
        → act w ≡ m
        → Answered s (conclude_call sv reports answer default m s)
    unfolding conclude_call note_failure
    conclude_call-Answered w (ok a, w') s h = (inr (a, w, w', h, refl), (refl, refl))
    conclude_call-Answered w (raise e, w') s h =
        (inl refl, report_error-Aside reports e (note_failure sv (record s { world = w' })))

    with_client-Answered :
        (m : Bool × Tiers V W) (s : Tiers V W)
        → Aside s m.1
        → Answered s (with_client sv reports answer default act m)
    unfolding with_client
    with_client-Answered (false, t) s h = (inl refl, h)
    with_client-Answered (true, t) s h =
        let (x, (p, q)) = conclude_call-Answered t.world (act t.world) t refl in
        (x, (p ∙ h.0, q ∙ h.1))

    pub guarded-Answered : (s : Tiers V W) → Answered s (guarded sv reports answer default act s)
    unfolding guarded
    guarded-Answered s =
        let t = record (tick s) { circuit = (can_attempt (present_time sv s).mono s.circuit).1 } in
        if_split (Answered s) (can_attempt (present_time sv s).mono s.circuit).0
          (λ _. with_client-Answered (get_client sv t) s (get_client-Aside t))
          (λ _. (inl refl, (refl, refl)))
