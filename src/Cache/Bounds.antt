-- ===== src/Cache/Bounds.antt =====
-- The bound of the process-local cache, and what a lookup finds after a store.
use crucible_ai.Cache.Items.{
  Distinct, append-Distinct, length-remove, remove-Distinct, get-has, put-append, remove-absent,
}
use crucible_ai.Cache.L1.{
  L1Cache, L1Entry, Lookup, Moment, Stamps, count_miss, evict_over, examine_entry, is_fresh,
  is_servable, is_unordered, new_entry, set_entry, touch, expire, remove_all,
}
use crucible_ai.Pipeline.Model.{get_key}
use crucible_ai.Cache.Dicts.{has_key, move_to_end, put_key, remove_key, pop_first}
use crucible_ai.Prelude.{
  Bool, Bool-cases, List, Option, Option-cases, String, [], ap, arith, if_split, if◌then◌else◌, inl,
  inr, is_some, length, length-append, ltb, none, refl, some, true, ℕ, ◌++◌, ◌+◌, ◌-◌, ◌∙◌, ◌∷◌,
  ◌≡◌, ◌≤◌, ◌⊎◌,
}

module _ {V : Type 0} where
  -- No key occurs twice, and there are at most `max_entries` entries.
  pub record IsWell (c : L1Cache V) : Type 0 where
    pub distinct : Distinct c.store
    pub bounded : length c.store ≤ c.max_entries

  move-cases :
      (k : String) (m : List (String × L1Entry V))
      → (move_to_end k m ≡ m)
        ⊎ ((v : L1Entry V) × (has_key k m ≡ true)
            × (move_to_end k m ≡ remove_key k m ++ (k, v) ∷ []))
  unfolding move_to_end
  move-cases k m = elim (Option-cases (get_key k m)) [
    | inl e ↦ inl (rw (e, move_to_end) refl)
    | inr (v, e) ↦ inr (v, get-has k m ∙ ap is_some e, rw (e, move_to_end) refl)
  ]

  appended-Distinct :
      (k : String) (x : L1Entry V) (m : List (String × L1Entry V))
      → Distinct m
      → Distinct (remove_key k m ++ (k, x) ∷ [])
  appended-Distinct k x m d =
      append-Distinct k x (remove_key k m) (remove-Distinct k m d).0 (remove-Distinct k m d).1

  length-appended :
      (k : String) (x : L1Entry V) (m : List (String × L1Entry V))
      → length (remove_key k m ++ (k, x) ∷ []) + (if has_key k m then 1 else 0) ≡ length m + 1
  length-appended k x m =
      omega (arith, length-append (remove_key k m) ((k, x) ∷ []), length-remove k m)

  move-Distinct :
      (k : String) (m : List (String × L1Entry V))
      → Distinct m
      → Distinct (move_to_end k m) × (length (move_to_end k m) ≤ length m)
  move-Distinct k m d = elim (move-cases k m) [
    | inl e ↦ rw e (d, omega arith)
    | inr (v, h, e) ↦ rw e (appended-Distinct k v m d, ground (arith, length-appended k v m, h))
  ]

  -- What `set` stores before it evicts: the entry at the end, and the rest without its key.
  pub set_store-lem :
      (k : String) (x : L1Entry V) (m : List (String × L1Entry V))
      → Distinct m
      → put_key k x (if has_key k m then move_to_end k m else m) ≡ remove_key k m ++ (k, x) ∷ []
  unfolding move_to_end
  set_store-lem k x m d = elim (Option-cases (get_key k m)) [
    | inl e ↦
        (let h = get-has k m ∙ ap is_some e in rw (h, remove-absent k m h) (put-append k x x m h).0)
    | inr (v, e) ↦ rw (get-has k m ∙ ap is_some e) (
        ap (put_key k x) (ap (λ o. elim o [ none ↦ m | some w ↦ remove_key k m ++ (k, w) ∷ [] ]) e)
        ∙ (put-append k x v (remove_key k m) (remove-Distinct k m d).0).1)
  ]

  pop-Distinct : (m : List (String × L1Entry V)) → Distinct m → Distinct (pop_first m)
  pop-Distinct [] d = tt
  pop-Distinct (p ∷ m) d = d.1

  length-pop : (m : List (String × L1Entry V)) → length (pop_first m) ≡ length m - 1
  length-pop [] = omega arith
  length-pop (p ∷ m) = omega arith

  evict-IsWell :
      (c : L1Cache V)
      → Distinct c.store
      → length c.store ≤ c.max_entries + 1
      → IsWell (evict_over c)
  unfolding evict_over
  evict-IsWell c d h = elim (Bool-cases (ltb c.max_entries (length c.store))) [
    | inl q ↦
        rw q (record {
          distinct = pop-Distinct c.store d;
          bounded = ground (arith, length-pop c.store);
        })
    | inr q ↦ rw q (record { distinct = d; bounded = ground arith })
  ]

  pub set-IsWell :
      (k : String) (v : V) (ttl : Option ℕ) (g : Stamps) (now : Moment) (c : L1Cache V)
      → IsWell c
      → IsWell (set_entry k v ttl g now c)
  unfolding set_entry
  set-IsWell k v ttl g now c h =
      let x = new_entry v ttl g c.default_ttl now in
      rw (set_store-lem k x c.store h.distinct) (
        evict-IsWell (record c { store = remove_key k c.store ++ (k, x) ∷ [] })
          (appended-Distinct k x c.store h.distinct)
          (omega (arith, length-appended k x c.store, h.bounded)))

  pub examine-IsWell :
      (k : String) (allow : Bool) (now : Moment) (o : Option (L1Entry V)) (c : L1Cache V)
      → IsWell c
      → IsWell (examine_entry k allow now o c).1
  unfolding examine_entry touch expire count_miss
  examine-IsWell k allow now none c h = record { distinct = h.distinct; bounded = h.bounded }
  examine-IsWell k allow now (some e) c h =
      let (d, b) = move-Distinct k c.store h.distinct in
      let moved : IsWell (touch k c) = record {
        distinct = d;
        bounded = omega (arith, b, h.bounded);
      } in
      if_split (λ (m : Lookup V × L1Cache V). IsWell m.1) (is_fresh now e) (λ _. moved)
        (λ _.
          if_split (λ (m : Lookup V × L1Cache V). IsWell m.1) (is_unordered allow e) (λ _. h)
            (λ _.
              if_split (λ (m : Lookup V × L1Cache V). IsWell m.1) (is_servable allow now e)
                (λ _. moved)
                (λ _. record {
                  distinct = (remove-Distinct k c.store h.distinct).1;
                  bounded = omega (arith, length-remove k c.store, h.bounded);
                })))

  pub remove_all-Distinct :
      (ks : List String) (m : List (String × L1Entry V))
      → Distinct m
      → Distinct (remove_all ks m) × (length (remove_all ks m) ≤ length m)
  remove_all-Distinct [] m d = (d, omega arith)
  remove_all-Distinct (k ∷ ks) m d =
      let (e, h) = remove_all-Distinct ks (remove_key k m) (remove-Distinct k m d).1 in
      (e, omega (arith, h, length-remove k m))
