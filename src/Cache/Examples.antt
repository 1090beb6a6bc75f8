-- ===== src/Cache/Examples.antt =====
-- The theorems on the cache at concrete data: values are numbers, bytes are texts, and the server
-- fails at every call.
use crucible_ai.Cache.Breaker.{
  closed, opened, half_open, Breaker, can_attempt, new_breaker, record_failure, enter,
}
use crucible_ai.Cache.Calls.{lookup, store, run_calls-IsWell, Call, run_calls}
use crucible_ai.Cache.Trips.{failures, failures-opened, react_all}
use crucible_ai.Pipeline.Runtime.{Act, Exception, ok, raise}
use crucible_ai.Cache.Tiered.{CacheRequest, get_or_set}
use crucible_ai.Cache.Codec.{
  Codec, compression_name, deserialize_cache_value, serialize_cache_value,
}
use crucible_ai.Cache.Items.{Distinct}
use crucible_ai.Cache.L1.{
  Moment, Stamps, evict_over, examine_entry, get_detailed, is_fresh, new_cache, new_entry,
  set_entry, found,
}
use crucible_ai.Cache.Tidy.{Neat}
use crucible_ai.Cache.Service.{Service, Tiers}
use crucible_ai.Cache.Sources.{Sourced, get_or_set-Sourced}
use crucible_ai.Cache.RoundTrip.{deserialize-serialize, deserialize_oversized, IsLossless, reread}
use crucible_ai.Cache.Lookups.{get-set}
use crucible_ai.Cache.Commands.{new_tiers, obey_all, obey_all_tidy, fetch, read}
use crucible_ai.Cache.L1.{L1Cache}
use crucible_ai.Cache.Bounds.{IsWell}
use crucible_ai.Cache.Dicts.{keys}
use crucible_ai.Prelude.{
  Bool, List, String, [], arith, false, if◌then◌else◌, leb, length, none, refl, some, suc, true, ℕ,
  ◌+◌, ◌∷◌, ◌≡◌, ◌≤◌,
}

abbrev numbers : Codec ℕ String
numbers = record {
  dumps = λ _. some "7";
  loads = λ _. some 7;
  encode_text = λ s. s;
  decode_text = some;
  size = λ _. 1;
  compress = λ b. b;
  decompress = some;
  b64encode = λ b. b;
  b64decode = some;
}

-- Every text is 10 MB and one byte.
abbrev bulky : Codec ℕ String
bulky = record numbers { size = λ _. 10485761 }

numbers_lossless : IsLossless numbers
numbers_lossless = record { text = λ _. refl; bytes = λ _. refl; base64 = λ _. refl }

bulky_lossless : IsLossless bulky
bulky_lossless = record { text = λ _. refl; bytes = λ _. refl; base64 = λ _. refl }

deserialize-serialize_example : reread numbers 7 25600 ≡ some 7
deserialize-serialize_example =
    deserialize-serialize numbers 7 "7" 25600 numbers_lossless refl refl (omega arith)

deserialize_oversized_example :
    (p : String × Bool) × (serialize_cache_value bulky 7 25600 ≡ some p)
    × (deserialize_cache_value bulky p.0 (compression_name p.1) ≡ none)
deserialize_oversized_example =
    deserialize_oversized bulky 7 "7" 25600 bulky_lossless refl (omega arith) (omega arith)

abbrev down : Exception
down = record { type_name = "ConnectionError"; message = "refused" }

abbrev instant : ℕ → Moment
instant n = record { mono = n; epoch = 100 + n }

abbrev no_stamps : Stamps
no_stamps = record { created = none; expires = none; stale_until = none }

abbrev service : Service ℕ String ℕ
service = record {
  codec = numbers;
  dump_envelope = λ _. "{}";
  load_document = λ _. none;
  enabled = true;
  redis_enabled = true;
  redis_installed = true;
  configured = true;
  schema_version = 1;
  compression_threshold = 25600;
  l1_ttl_default = 10;
  ttl_default = 60;
  stale_max_seconds = 300;
  clock = instant;
  is_timeout = λ _. false;
  connect = λ w. (ok tt, w + 1);
  server_get = λ _ w. (raise down, w + 1);
  server_set = λ _ _ _ w. (raise down, w + 1);
  server_delete = λ _ w. (raise down, w + 1);
}

abbrev breaker : Breaker
breaker = new_breaker 3 30 0

abbrev tiers : Tiers ℕ ℕ
tiers = new_tiers 2 10 breaker 0

abbrev fleet : CacheRequest
fleet = record {
  key = "fleet";
  ttl = 15;
  l1_ttl = some 5;
  allow_stale = true;
  stale_max_seconds = some 30;
}

abbrev compute : Act ℕ ℕ
compute w = (ok 7, w + 1)

tiers-Distinct : Distinct tiers.l1.store
unfolding new_tiers
tiers-Distinct = tt

get_or_set-Sourced_example :
    Sourced service tiers fleet compute (get_or_set service fleet compute tiers)
get_or_set-Sourced_example = get_or_set-Sourced service compute fleet tiers tiers-Distinct

obey_all_tidy_example :
    Neat [] (
      obey_all service (fetch fleet compute ∷ (read "fleet" false ∷ [])) (new_tiers 2 10 breaker 0))
obey_all_tidy_example =
    obey_all_tidy service (fetch fleet compute ∷ (read "fleet" false ∷ [])) 2 10 breaker 0

abbrev calls : List (Call ℕ)
calls =
    store "a" 1 none no_stamps (instant 1)
    ∷ (store "b" 2 none no_stamps (instant 2)
        ∷ (lookup "a" false (instant 3) ∷ (store "c" 3 none no_stamps (instant 4) ∷ [])))

run_calls-IsWell_example :
    IsWell (run_calls calls (new_cache 2 10))
    × (length (run_calls calls (new_cache 2 10)).store ≤ 2)
run_calls-IsWell_example = run_calls-IsWell calls 2 10

-- "b" is the least recent of the two.
run_calls_order : keys (run_calls calls (new_cache 2 10)).store ≡ "a" ∷ ("c" ∷ [])
unfolding get_detailed examine_entry set_entry evict_over
run_calls_order = refl

abbrev empty : L1Cache ℕ
empty = new_cache 2 10

empty-IsWell : IsWell empty
empty-IsWell = record { distinct = tt; bounded = omega arith }

abbrev item : ℕ
item = 1

abbrev times : List ℕ
times = 1 ∷ (2 ∷ [])

still_fresh : is_fresh (instant 9) (new_entry item none no_stamps 10 (instant 1)) ≡ true
unfolding is_fresh new_entry
still_fresh = refl

get-set_example :
    (get_detailed "a" false (instant 9) (set_entry "a" item none no_stamps (instant 1) empty)).0
    ≡ found (new_entry item none no_stamps 10 (instant 1)) false
get-set_example =
    get-set "a" item none no_stamps (instant 1) (instant 9) false empty empty-IsWell (omega arith)
      still_fresh

closed_at_first : breaker.state ≡ closed
unfolding new_breaker
closed_at_first = refl

two_and_one : breaker.failure_count + suc (length times) ≡ breaker.failure_threshold
unfolding new_breaker
two_and_one = refl

failures-opened_example :
    ((record_failure 3 (react_all (failures times) breaker)).state ≡ opened)
    × (can_attempt 40 (record_failure 3 (react_all (failures times) breaker)) ≡ (
        if leb (3 + breaker.cooldown) 40
        then (true, enter half_open 40 (record_failure 3 (react_all (failures times) breaker)))
        else (false, record_failure 3 (react_all (failures times) breaker))))
failures-opened_example = failures-opened times 3 40 breaker closed_at_first two_and_one
