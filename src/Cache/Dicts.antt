-- ===== src/Cache/Dicts.antt =====
-- The operations of `collections.OrderedDict` that the cache uses, on the list of its items in their
-- order.
use crucible_ai.Pipeline.Model.{get_key}
use crucible_ai.Prelude.{
  Bool, List, String, [], false, if◌then◌else◌, map, none, some, ◌++◌, ◌==◌, ◌||◌, ◌∷◌,
}

module _ {ℓ} {V : Type ℓ} where
  -- `k in d`
  unfoldable pub has_key : String → List (String × V) → Bool
  has_key k [] = false
  has_key k ((j, v) ∷ m) = j == k || has_key k m

  -- `del d[k]`, and nothing where there is no such key
  unfoldable pub remove_key : String → List (String × V) → List (String × V)
  remove_key k [] = []
  remove_key k ((j, v) ∷ m) = let rest = remove_key k m in if j == k then m else (j, v) ∷ rest

  -- `d[k] = v`: a key that is there keeps its place
  unfoldable pub put_key : String → V → List (String × V) → List (String × V)
  put_key k v [] = (k, v) ∷ []
  put_key k v ((j, w) ∷ m) =
      let rest = put_key k v m in if j == k then (k, v) ∷ m else (j, w) ∷ rest

  -- `d.move_to_end(k)`
  unfoldable pub move_to_end : String → List (String × V) → List (String × V)
  unfolding get_key remove_key
  move_to_end k m = elim (get_key k m) [ none ↦ m | some v ↦ remove_key k m ++ (k, v) ∷ [] ]

  -- `d.popitem(last=False)`
  abbrev pub pop_first : List (String × V) → List (String × V)
  pop_first [] = []
  pop_first (_ ∷ m) = m

  abbrev pub keys : List (String × V) → List String
  keys m = map (λ (p : String × V). p.0) m
