-- ===== src/Cache/Calls.antt =====
-- The process-local cache under any sequence of calls.
use crucible_ai.Prelude.{
  Bool, List, Option, String, [], arith, if_split, keep, length, none, refl, some, ℕ, ◌∙◌, ◌∷◌, ◌≡◌,
  ◌≤◌,
}
use crucible_ai.Cache.L1.{
  L1Cache, L1Entry, Moment, Stamps, clear_entries, count_miss, delete_entry, delete_matching,
  evict_over, examine_entry, get_detailed, new_cache, set_entry, touch, expire,
}
use crucible_ai.Cache.Bounds.{examine-IsWell, remove_all-Distinct, set-IsWell, IsWell}
use crucible_ai.Cache.Dicts.{has_key, keys}
use crucible_ai.Cache.Items.{length-remove, remove-Distinct}
use crucible_ai.Pipeline.Model.{get_key}

-- A call of the cache; the times are the readings of the clocks.
pub data Call (V : Type 0) : Type 0 where
  lookup : String → Bool → Moment → Call V
  store : String → V → Option ℕ → Stamps → Moment → Call V
  delete : String → Call V
  delete_pattern : (String → Bool) → Call V
  clear : Call V

module _ {V : Type 0} where
  abbrev pub run_call : Call V → L1Cache V → L1Cache V
  run_call (lookup k allow now) c = (get_detailed k allow now c).1
  run_call (store k v ttl g now) c = set_entry k v ttl g now c
  run_call (delete k) c = (delete_entry k c).1
  run_call (delete_pattern p) c = (delete_matching p c).1
  run_call clear c = clear_entries c

  abbrev pub run_calls : List (Call V) → L1Cache V → L1Cache V
  run_calls [] c = c
  run_calls (x ∷ xs) c = run_calls xs (run_call x c)

  pub run_call-IsWell : (x : Call V) (c : L1Cache V) → IsWell c → IsWell (run_call x c)
  unfolding get_detailed delete_entry delete_matching
  run_call-IsWell (lookup k allow now) c h = examine-IsWell k allow now (get_key k c.store) c h
  run_call-IsWell (store k v ttl g now) c h = set-IsWell k v ttl g now c h
  run_call-IsWell (delete k) c h =
      if_split (λ (m : Bool × L1Cache V). IsWell m.1) (has_key k c.store)
        (λ _. record {
          distinct = (remove-Distinct k c.store h.distinct).1;
          bounded = omega (arith, length-remove k c.store, h.bounded);
        })
        (λ _. h)
  run_call-IsWell (delete_pattern p) c h =
      let (d, b) = remove_all-Distinct (keep p (keys c.store)) c.store h.distinct in
      record { distinct = d; bounded = omega (arith, b, h.bounded) }
  run_call-IsWell clear c h = record { distinct = tt; bounded = omega arith }

  examine-max_entries :
      (k : String) (allow : Bool) (now : Moment) (o : Option (L1Entry V)) (c : L1Cache V)
      → (examine_entry k allow now o c).1.max_entries ≡ c.max_entries
  unfolding examine_entry touch expire count_miss
  examine-max_entries k allow now none c = refl
  examine-max_entries k allow now (some e) c = ground arith

  run_call-max_entries : (x : Call V) (c : L1Cache V) → (run_call x c).max_entries ≡ c.max_entries
  unfolding get_detailed set_entry evict_over delete_entry delete_matching
  run_call-max_entries (lookup k allow now) c =
      examine-max_entries k allow now (get_key k c.store) c
  run_call-max_entries (store k v ttl g now) c = ground arith
  run_call-max_entries (delete k) c = ground arith
  run_call-max_entries (delete_pattern p) c = refl
  run_call-max_entries clear c = refl

  run_calls_keep :
      (xs : List (Call V)) (c : L1Cache V)
      → IsWell c
      → IsWell (run_calls xs c) × ((run_calls xs c).max_entries ≡ c.max_entries)
  run_calls_keep [] c h = (h, refl)
  run_calls_keep (x ∷ xs) c h =
      let (i, e) = run_calls_keep xs (run_call x c) (run_call-IsWell x c h) in
      (i, e ∙ run_call-max_entries x c)

  -- After any calls on a new cache, no key is stored twice, and there are at most as many entries as
  -- the cache was made for, none where that is 0.
  pub run_calls-IsWell :
      (xs : List (Call V)) (max_entries default_ttl : ℕ)
      → IsWell (run_calls xs (new_cache max_entries default_ttl))
        × (length (run_calls xs (new_cache max_entries default_ttl)).store ≤ max_entries)
  run_calls-IsWell xs max_entries default_ttl =
      let (h, e) =
        run_calls_keep xs (new_cache max_entries default_ttl)
          (record { distinct = tt; bounded = omega arith }) in
      (h, omega (arith, h.bounded, e))
