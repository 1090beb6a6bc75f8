-- ===== src/Cache/Manager.antt =====
-- `TieredCacheManager` of app/api/core/cache.py: the shared primitives and the reads and writes of
-- both tiers.
use crucible_ai.Cache.Service.{
  Document, Envelope, Service, Tiers, inc_metric, not_dict, not_supported, present_time, tick, dict,
}
use crucible_ai.Pipeline.Runtime.{Result, ok, raise}
use crucible_ai.Cache.L1.{Lookup, Stamps, Timestamp, get_detailed, number, set_entry}
use crucible_ai.Cache.Codec.{
  and_then, compression_name, deserialize_cache_value, serialize_cache_value,
}
use crucible_ai.Cache.Redis.{l2_delete, l2_get, l2_set}
use crucible_ai.Prelude.{
  Bool, Option, String, false, get_or, if◌then◌else◌, is_some, leb, ltb, none, some, true, ℕ, ◌&&◌,
  ◌+◌, ◌||◌,
}

-- What a read of the second tier found.
pub record Hit (V : Type 0) : Type 0 where
  pub is_stale : Bool
  pub value : V
  pub envelope : Envelope

-- The timestamps of an envelope with their defaults, as numbers; `none` where a comparison raises.
abbrev numeric : Option Timestamp → Option ℕ
numeric (some (number n)) = some n
numeric _ = none

abbrev expiry : Envelope → Option Timestamp
expiry e = get_or e.expires (some (number 0))

abbrev pub fresh_until : Envelope → Option ℕ
fresh_until e = numeric (expiry e)

abbrev pub stale_until : Envelope → Option ℕ
stale_until e = numeric (get_or e.stale_until (expiry e))

abbrev pub is_within : ℕ → Option ℕ → Bool
is_within now none = false
is_within now (some n) = ltb now n

abbrev pub is_current : Bool → ℕ → Envelope → Bool
is_current allow_stale now e =
    is_within now (fresh_until e) || (allow_stale && is_within now (stale_until e))

-- What `_write_l1` takes over from an envelope; its expiry is a number or missing by then.
abbrev pub stamps_of : Envelope → Stamps
stamps_of e = record {
  created = e.created;
  expires = and_then e.expires numeric;
  stale_until = get_or e.stale_until none;
}

module _ {V B W : Type 0} (sv : Service V B W) where
  -- `_encode`; `none` where the value cannot be serialized
  unfoldable pub encode :
      V → ℕ → Bool → ℕ → Option ℕ → Tiers V W → Option (String × Stamps) × Tiers V W
  unfolding serialize_cache_value inc_metric
  encode value ttl allow_stale stale_window created s =
      elim (serialize_cache_value sv.codec value sv.compression_threshold) [
        | none ↦ (none, s)
        | some p ↦
            (let t = if p.1 then inc_metric "cache_compression" s else s in
              let c_epoch = get_or created (present_time sv t).epoch in
              let e_epoch = c_epoch + ttl in
              let stamps : Stamps = record {
                created = some c_epoch;
                expires = some e_epoch;
                stale_until = some (number (e_epoch + (if allow_stale then stale_window else 0)));
              } in
              (
                some (
                  sv.dump_envelope (record {
                    schema_version = some sv.schema_version;
                    compression = some (compression_name p.1);
                    payload = some p.0;
                    created = some c_epoch;
                    expires = some (some (number e_epoch));
                    stale_until = some stamps.stale_until;
                  }),
                  stamps,
                ),
                tick t,
              ))
      ]

  -- `_validate_envelope`
  unfoldable pub validate_envelope : Document → Bool
  validate_envelope not_dict = false
  validate_envelope (dict e) = is_some e.payload && elim e.schema_version [
    | none ↦ false
    | some v ↦ leb v sv.schema_version && leb sv.schema_version v
  ]

  unfoldable pub decode_document : Document → Option (V × Envelope)
  unfolding validate_envelope deserialize_cache_value
  decode_document not_dict = none
  decode_document (dict e) =
      if validate_envelope (dict e)
      then and_then e.payload (λ p.
        and_then (deserialize_cache_value sv.codec p (get_or e.compression "none"))
          (λ v. some (v, e)))
      else none

  abbrev pub decode_envelope : String → Option (V × Envelope)
  decode_envelope raw = and_then (sv.load_document raw) decode_document

  -- `_read_l1`
  unfoldable pub read_l1 : String → Bool → Tiers V W → Lookup V × Tiers V W
  unfolding get_detailed
  read_l1 key allow_stale s =
      let (l, after) = get_detailed key allow_stale (present_time sv s) s.l1 in
      (l, record (tick s) { l1 = after })

  -- `_write_l1`
  unfoldable pub write_l1 : String → V → ℕ → Stamps → Tiers V W → Tiers V W
  unfolding set_entry
  write_l1 key value l1_ttl stamps s = record (tick s) {
    l1 = set_entry key value (some l1_ttl) stamps (present_time sv s) s.l1;
  }

  abbrev hit_of : Bool → V × Envelope → Hit V
  hit_of stale p = record { is_stale = stale; value = p.0; envelope = p.1 }

  abbrev pub judge_stale : Bool → ℕ → Option ℕ → V × Envelope → Result (Option (Hit V))
  judge_stale false now until p = ok none
  judge_stale true now none p = raise not_supported
  judge_stale true now (some n) p = if ltb now n then ok (some (hit_of true p)) else ok none

  abbrev pub judge_fresh : Bool → ℕ → Option ℕ → V × Envelope → Result (Option (Hit V))
  judge_fresh allow_stale now none p = raise not_supported
  judge_fresh allow_stale now (some n) p =
      if ltb now n
      then ok (some (hit_of false p))
      else judge_stale allow_stale now (stale_until p.1) p

  -- The end of `_read_l2`, which raises where it compares a timestamp that is no number
  unfoldable pub judge_envelope :
      Bool → V × Envelope → Tiers V W → Result (Option (Hit V)) × Tiers V W
  judge_envelope allow_stale p s =
      (judge_fresh allow_stale (present_time sv s).epoch (fresh_until p.1) p, tick s)

  unfoldable pub read_decoded :
      String → Bool → Option (V × Envelope) → Tiers V W → Result (Option (Hit V)) × Tiers V W
  unfolding l2_delete judge_envelope inc_metric
  read_decoded key allow_stale none s =
      (ok none, (l2_delete sv key (inc_metric "cache_deserialize_error" s)).1)
  read_decoded key allow_stale (some p) s = judge_envelope allow_stale p s

  unfoldable pub read_raw :
      String → Bool → Option String × Tiers V W → Result (Option (Hit V)) × Tiers V W
  unfolding read_decoded decode_document
  read_raw key allow_stale (none, s) = (ok none, s)
  read_raw key allow_stale (some raw, s) = read_decoded key allow_stale (decode_envelope raw) s

  -- `_read_l2`, with `_decode`
  unfoldable pub read_l2 : String → Bool → Tiers V W → Result (Option (Hit V)) × Tiers V W
  unfolding read_raw l2_get
  read_l2 key allow_stale s =
      if sv.configured then read_raw key allow_stale (l2_get sv key s) else (ok none, s)

  -- `_write_l2`
  unfoldable pub write_l2 : String → String → ℕ → Tiers V W → Bool × Tiers V W
  unfolding l2_set
  write_l2 key envelope l2_ttl s =
      if sv.configured then l2_set sv key envelope l2_ttl s else (false, s)

  unfoldable pub write_both :
      String → V → ℕ → ℕ → String → Option (String × Stamps) × Tiers V W → Bool × Tiers V W
  unfolding write_l2 write_l1 inc_metric
  write_both key value l1_ttl l2_ttl trouble (none, s) = (false, inc_metric trouble s)
  write_both key value l1_ttl l2_ttl trouble (some (text, stamps), s) =
      (true, write_l1 key value l1_ttl stamps (write_l2 key text l2_ttl s).1)

  -- The writes of both tiers, and the metric of the trouble where the value cannot be serialized.
  unfoldable pub populate :
      String → V → ℕ → ℕ → Bool → ℕ → Option ℕ → String → Tiers V W → Bool × Tiers V W
  unfolding encode write_both
  populate key value ttl l1_ttl allow_stale stale_window created trouble s =
      write_both key value l1_ttl (ttl + (if allow_stale then stale_window else 0)) trouble
        (encode value ttl allow_stale stale_window created s)
