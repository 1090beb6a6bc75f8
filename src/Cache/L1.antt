-- ===== src/Cache/L1.antt =====
-- `L1Entry` and `L1Cache` of app/api/core/cache.py. Times are ticks of the two clocks, which an
-- operation reads once; the lock makes it atomic. Whether a key matches a pattern is a parameter.
use crucible_ai.Pipeline.Model.{get_key}
use crucible_ai.Cache.Dicts.{has_key, move_to_end, pop_first, put_key, remove_key, keys}
use crucible_ai.Prelude.{
  Bool, List, Option, String, [], false, get_or, if◌then◌else◌, keep, length, ltb, none, not, some,
  suc, true, ℕ, ◌&&◌, ◌+◌, ◌∷◌,
}

-- A timestamp that is a number of seconds, or one that cannot be compared with a number.
pub data Timestamp : Type 0 where
  number : ℕ → Timestamp
  incomparable : Timestamp

pub record L1Entry (V : Type 0) : Type 0 where
  pub value : V
  pub expires_at_mono : ℕ
  pub created_at_mono : ℕ
  pub created_at_epoch : ℕ
  pub expires_at_epoch : ℕ
  pub stale_until_epoch : Timestamp

pub record L1Cache (V : Type 0) : Type 0 where
  pub max_entries : ℕ
  pub default_ttl : ℕ
  pub store : List (String × L1Entry V)
  pub hits : ℕ
  pub misses : ℕ
  pub evictions : ℕ
  pub expirations : ℕ

-- `time.monotonic()` and `time.time()`
pub record Moment : Type 0 where
  pub mono : ℕ
  pub epoch : ℕ

-- The timestamps that a caller gives, or that a hit has as its meta data.
pub record Stamps : Type 0 where
  pub created : Option ℕ
  pub expires : Option ℕ
  pub stale_until : Option Timestamp

-- The result (hit, is_stale, value, meta) of a lookup: nothing, or a value, whether it is stale, and
-- its timestamps; or that it raises a TypeError.
pub data Lookup (V : Type 0) : Type 0 where
  miss type_error : Lookup V
  hit : Bool → V → Stamps → Lookup V

abbrev pub is_before : ℕ → Timestamp → Bool
is_before now (number n) = ltb now n
is_before now incomparable = false

abbrev pub is_number : Timestamp → Bool
is_number (number n) = true
is_number incomparable = false

module _ {V : Type 0} where
  unfoldable pub found : L1Entry V → Bool → Lookup V
  found e stale = hit stale e.value (record {
    created = some e.created_at_epoch;
    expires = some e.expires_at_epoch;
    stale_until = some e.stale_until_epoch;
  })

  unfoldable pub is_fresh : Moment → L1Entry V → Bool
  is_fresh now e = ltb now.epoch e.expires_at_epoch && ltb now.mono e.expires_at_mono

  unfoldable pub is_servable : Bool → Moment → L1Entry V → Bool
  is_servable allow_stale now e = allow_stale && is_before now.epoch e.stale_until_epoch

  -- The comparison with the end of the stale window raises.
  abbrev pub is_unordered : Bool → L1Entry V → Bool
  is_unordered allow_stale e = allow_stale && not (is_number e.stale_until_epoch)

  unfoldable pub count_miss : L1Cache V → L1Cache V
  count_miss c = record c { misses = suc c.misses }

  -- A hit makes the key the most recent.
  unfoldable pub touch : String → L1Cache V → L1Cache V
  unfolding move_to_end
  touch key c = record c { store = move_to_end key c.store; hits = suc c.hits }

  unfoldable pub expire : String → L1Cache V → L1Cache V
  unfolding remove_key
  expire key c = record c {
    store = remove_key key c.store;
    expirations = suc c.expirations;
    misses = suc c.misses;
  }

  unfoldable pub examine_entry :
      String → Bool → Moment → Option (L1Entry V) → L1Cache V → Lookup V × L1Cache V
  unfolding touch expire count_miss is_fresh is_servable found
  examine_entry key allow_stale now none c = (miss, count_miss c)
  examine_entry key allow_stale now (some e) c =
      if is_fresh now e
      then (found e false, touch key c)
      else if is_unordered allow_stale e
      then (type_error, c)
      else if is_servable allow_stale now e
      then (found e true, touch key c)
      else (miss, expire key c)

  -- `get_detailed`
  unfoldable pub get_detailed : String → Bool → Moment → L1Cache V → Lookup V × L1Cache V
  unfolding examine_entry get_key
  get_detailed key allow_stale now c = examine_entry key allow_stale now (get_key key c.store) c

  abbrev fresh_value : Lookup V → Bool × Option V
  fresh_value miss = (false, none)
  fresh_value type_error = (false, none)
  fresh_value (hit stale v _) = (not stale, some v)

  -- `get`, which does not ask for a stale value and hence cannot raise
  unfoldable pub get_fresh : String → Moment → L1Cache V → (Bool × Option V) × L1Cache V
  unfolding get_detailed
  get_fresh key now c = let (l, after) = get_detailed key false now c in (fresh_value l, after)

  unfoldable pub new_entry : V → Option ℕ → Stamps → ℕ → Moment → L1Entry V
  new_entry value ttl given default_ttl now =
      let duration = get_or ttl default_ttl in
      let expires = get_or given.expires (now.epoch + duration) in
      record {
        value = value;
        expires_at_mono = now.mono + duration;
        created_at_mono = now.mono;
        created_at_epoch = get_or given.created now.epoch;
        expires_at_epoch = expires;
        stale_until_epoch = get_or given.stale_until (number expires);
      }

  unfoldable pub evict_over : L1Cache V → L1Cache V
  evict_over c =
      if ltb c.max_entries (length c.store)
      then record c { store = pop_first c.store; evictions = suc c.evictions }
      else c

  -- `set`
  unfoldable pub set_entry : String → V → Option ℕ → Stamps → Moment → L1Cache V → L1Cache V
  unfolding new_entry evict_over put_key move_to_end has_key
  set_entry key value ttl given now c =
      let moved = if has_key key c.store then move_to_end key c.store else c.store in
      evict_over
        (record c { store = put_key key (new_entry value ttl given c.default_ttl now) moved })

  -- `delete`
  unfoldable pub delete_entry : String → L1Cache V → Bool × L1Cache V
  unfolding has_key remove_key
  delete_entry key c =
      if has_key key c.store
      then (true, record c { store = remove_key key c.store })
      else (false, c)

  abbrev pub remove_all : List String → List (String × L1Entry V) → List (String × L1Entry V)
  remove_all [] store = store
  remove_all (k ∷ ks) store = remove_all ks (remove_key k store)

  -- `delete_pattern`
  unfoldable pub delete_matching : (String → Bool) → L1Cache V → ℕ × L1Cache V
  unfolding remove_key
  delete_matching matches c =
      let doomed = keep matches (keys c.store) in
      (length doomed, record c { store = remove_all doomed c.store })

  -- `clear`
  abbrev pub clear_entries : L1Cache V → L1Cache V
  clear_entries c = record c { store = [] }

-- `L1Cache(max_entries, default_ttl)`
abbrev pub new_cache : {V : Type 0} → ℕ → ℕ → L1Cache V
new_cache max_entries default_ttl = record {
  max_entries = max_entries;
  default_ttl = default_ttl;
  store = [];
  hits = 0;
  misses = 0;
  evictions = 0;
  expirations = 0;
}
