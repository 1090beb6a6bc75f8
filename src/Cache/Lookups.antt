-- ===== src/Cache/Lookups.antt =====
-- What a lookup in the process-local cache finds.
use crucible_ai.Cache.L1.{
  L1Cache, L1Entry, Moment, Stamps, evict_over, examine_entry, get_detailed, is_fresh, new_entry,
  set_entry, found,
}
use crucible_ai.Cache.Items.{get-append, remove-Distinct}
use crucible_ai.Pipeline.Model.{get_key}
use crucible_ai.Cache.Dicts.{has_key, pop_first, remove_key}
use crucible_ai.Cache.Bounds.{set_store-lem, IsWell}
use crucible_ai.Prelude.{
  Bool, Bool-cases, List, Option, String, [], ap, arith, false, inl, inr, length, length-append,
  ltb, refl, some, true, ℕ, ◌++◌, ◌∷◌, ◌≡◌, ◌≤◌,
}

module _ {V : Type 0} where
  pop-append :
      (k : String) (x : L1Entry V) (m : List (String × L1Entry V))
      → 1 ≤ length m
      → pop_first (m ++ (k, x) ∷ []) ≡ pop_first m ++ (k, x) ∷ []
  pop-append k x [] h = absurd (ground (arith, h))
  pop-append k x (p ∷ m) h = refl

  has-pop :
      (k : String) (m : List (String × L1Entry V))
      → has_key k m ≡ false
      → has_key k (pop_first m) ≡ false
  unfolding has_key
  has-pop k [] h = refl
  has-pop k (p ∷ m) h = ground (arith, h)

  get-evict :
      (k : String) (x : L1Entry V) (m : List (String × L1Entry V)) (c : L1Cache V)
      → c.store ≡ m ++ (k, x) ∷ []
      → has_key k m ≡ false
      → 1 ≤ c.max_entries
      → get_key k (evict_over c).store ≡ some x
  unfolding evict_over
  get-evict k x m c e h n = elim (Bool-cases (ltb c.max_entries (length c.store))) [
    | inl q ↦
        rw
          (
            q,
            e,
            pop-append k x m (ground (arith, n, q, ap length e, length-append m ((k, x) ∷ []))),
          )
          (get-append k x (pop_first m) (has-pop k m h))
    | inr q ↦ rw (q, e) (get-append k x m h)
  ]

  -- An entry that was just stored is found, as long as neither of its two clocks has reached its
  -- expiry, whatever else the cache holds and whether or not a stale value would do; the cache must
  -- be well-formed and made for at least one entry.
  pub get-set :
      (k : String) (v : V) (ttl : Option ℕ) (g : Stamps) (now later : Moment) (allow : Bool)
      (c : L1Cache V)
      → IsWell c
      → 1 ≤ c.max_entries
      → is_fresh later (new_entry v ttl g c.default_ttl now) ≡ true
      → (get_detailed k allow later (set_entry k v ttl g now c)).0
        ≡ found (new_entry v ttl g c.default_ttl now) false
  unfolding get_detailed set_entry examine_entry
  get-set k v ttl g now later allow c w n f =
      let x = new_entry v ttl g c.default_ttl now in
      rw
        (
          set_store-lem k x c.store w.distinct,
          get-evict k x (remove_key k c.store)
              (record c { store = remove_key k c.store ++ (k, x) ∷ [] }) refl
              (remove-Distinct k c.store w.distinct).0 n,
          f,
        )
        refl
