-- ===== src/Cache/Flights.antt =====
-- `SingleFlightManager` of app/api/core/cache.py: for each key in flight, how many callers hold or
-- wait for its lock. Pool lock and locks are not modelled.
use crucible_ai.Pipeline.Model.{get_key}
use crucible_ai.Cache.Dicts.{put_key, remove_key}
use crucible_ai.Prelude.{List, String, if◌then◌else◌, leb, none, some, ℕ, ◌+◌, ◌-◌}

-- `acquire_flight`
unfoldable pub acquire_flight : String → List (String × ℕ) → List (String × ℕ)
unfolding get_key put_key
acquire_flight key locks = elim (get_key key locks) [
  | none ↦ put_key key 1 locks
  | some count ↦ put_key key (count + 1) locks
]

-- `release_flight`
unfoldable pub release_flight : String → List (String × ℕ) → List (String × ℕ)
unfolding get_key put_key remove_key
release_flight key locks = elim (get_key key locks) [
  | none ↦ locks
  | some count ↦ if leb count 1 then remove_key key locks else put_key key (count - 1) locks
]
