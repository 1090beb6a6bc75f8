-- ===== src/Cache/Codec.antt =====
-- The serialization engine of app/api/core/cache.py. `json`, `zlib`, `base64` and the encoding of
-- texts are parameters; where one of them raises, so do the functions, with `none`.
use crucible_ai.Prelude.{Bool, Option, String, false, if◌then◌else◌, ltb, none, some, true, ℕ, ◌==◌}

-- `json.dumps` with the defaults of the source, for a value; `json.loads` of such a text; `B` is the
-- type of byte strings.
pub record Codec (V B : Type 0) : Type 0 where
  pub dumps : V → Option String
  pub loads : String → Option V
  pub encode_text : String → B
  pub decode_text : B → Option String
  pub size : B → ℕ
  pub compress : B → B
  pub decompress : B → Option B
  pub b64encode : B → String
  pub b64decode : String → Option B

-- `MAX_DECOMPRESSED_BYTES`
abbrev pub max_decompressed_bytes : ℕ
max_decompressed_bytes = 10485760

abbrev pub compression_name : Bool → String
compression_name true = "zlib"
compression_name false = "none"

abbrev pub and_then {ℓ ℓ'} : {A : Type ℓ} {B : Type ℓ'} → Option A → (A → Option B) → Option B
and_then none f = none
and_then (some a) f = f a

module _ {V B : Type 0} (codec : Codec V B) where
  unfoldable pub pack : ℕ → String → String × Bool
  pack compression_threshold raw =
      let raw_bytes = codec.encode_text raw in
      if ltb compression_threshold (codec.size raw_bytes)
      then (codec.b64encode (codec.compress raw_bytes), true)
      else (raw, false)

  -- `serialize_cache_value`
  unfoldable pub serialize_cache_value : V → ℕ → Option (String × Bool)
  unfolding pack
  serialize_cache_value value compression_threshold =
      and_then (codec.dumps value) (λ raw. some (pack compression_threshold raw))

  unfoldable pub load_limited : B → Option V
  load_limited bytes =
      if ltb max_decompressed_bytes (codec.size bytes)
      then none
      else and_then (codec.decode_text bytes) codec.loads

  -- `deserialize_cache_value`
  unfoldable pub deserialize_cache_value : String → String → Option V
  unfolding load_limited
  deserialize_cache_value payload compression =
      if compression == "zlib"
      then and_then (codec.b64decode payload) (λ b. and_then (codec.decompress b) load_limited)
      else if compression == "none"
      then codec.loads payload
      else none
