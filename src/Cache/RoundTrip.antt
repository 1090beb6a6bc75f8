-- ===== src/Cache/RoundTrip.antt =====
-- What becomes of a value that is serialized for the cache and read back.
use crucible_ai.Cache.Codec.{
  Codec, and_then, compression_name, deserialize_cache_value, load_limited, max_decompressed_bytes,
  serialize_cache_value, pack,
}
use crucible_ai.Prelude.{
  Bool, Bool-cases, Option, String, arith, false, inl, inr, ltb, none, refl, some, true, ℕ, ◌<◌,
  ◌∙◌, ◌≡◌, ◌≤◌,
}

module _ {V B : Type 0} (codec : Codec V B) where
  -- What the two compressions and the encoding of texts are documented to do.
  pub record IsLossless : Type 0 where
    pub text : (s : String) → codec.decode_text (codec.encode_text s) ≡ some s
    pub bytes : (b : B) → codec.decompress (codec.compress b) ≡ some b
    pub base64 : (b : B) → codec.b64decode (codec.b64encode b) ≡ some b

  unpack :
      (h : IsLossless) (raw : String)
      → deserialize_cache_value codec
          (codec.b64encode (codec.compress (codec.encode_text raw)))
          "zlib"
        ≡ load_limited codec (codec.encode_text raw)
  unfolding deserialize_cache_value
  unpack h raw = let b = codec.encode_text raw in rw (h.base64 (codec.compress b), h.bytes b) refl

  load_small :
      (h : IsLossless) (raw : String) (value : V)
      → codec.loads raw ≡ some value
      → codec.size (codec.encode_text raw) ≤ max_decompressed_bytes
      → load_limited codec (codec.encode_text raw) ≡ some value
  unfolding load_limited
  load_small h raw value l n =
      let q : ltb max_decompressed_bytes (codec.size (codec.encode_text raw)) ≡ false =
        ground (arith, n) in
      rw (q, h.text raw) l

  load_large :
      (raw : String)
      → max_decompressed_bytes < codec.size (codec.encode_text raw)
      → load_limited codec (codec.encode_text raw) ≡ none
  unfolding load_limited
  load_large raw n =
      let q : ltb max_decompressed_bytes (codec.size (codec.encode_text raw)) ≡ true =
        ground (arith, n) in
      rw q refl

  abbrev pub reread : V → ℕ → Option V
  reread value threshold =
      and_then (serialize_cache_value codec value threshold)
        (λ p. deserialize_cache_value codec p.0 (compression_name p.1))

  -- A value is read back as it was written, compressed or not, where `json` reads back the text that
  -- it writes for it and that text has at most 10 MB.
  pub deserialize-serialize :
      (value : V) (raw : String) (threshold : ℕ)
      → IsLossless
      → codec.dumps value ≡ some raw
      → codec.loads raw ≡ some value
      → codec.size (codec.encode_text raw) ≤ max_decompressed_bytes
      → reread value threshold ≡ some value
  unfolding serialize_cache_value pack deserialize_cache_value load_limited
  deserialize-serialize value raw threshold h d l n =
      rw d (elim (Bool-cases (ltb threshold (codec.size (codec.encode_text raw)))) [
        | inl q ↦ rw q (unpack h raw ∙ load_small h raw value l n)
        | inr q ↦ rw q l
      ])

  -- Where zlib and base64 are lossless: a value whose text has more than 10 MB is serialized all the
  -- same, where it is over the threshold, which the default one is, but what is written for it cannot
  -- be read back.
  pub deserialize_oversized :
      (value : V) (raw : String) (threshold : ℕ)
      → IsLossless
      → codec.dumps value ≡ some raw
      → threshold < codec.size (codec.encode_text raw)
      → max_decompressed_bytes < codec.size (codec.encode_text raw)
      → (p : String × Bool) × (serialize_cache_value codec value threshold ≡ some p)
        × (deserialize_cache_value codec p.0 (compression_name p.1) ≡ none)
  unfolding serialize_cache_value pack deserialize_cache_value load_limited
  deserialize_oversized value raw threshold h d t n =
      let q : ltb threshold (codec.size (codec.encode_text raw)) ≡ true = ground (arith, t) in
      (
        (codec.b64encode (codec.compress (codec.encode_text raw)), true),
        rw (d, q) refl,
        unpack h raw ∙ load_large raw n,
      )
