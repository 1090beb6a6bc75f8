-- ===== src/Cache/Service.antt =====
-- What the cache manager of app/api/core/cache.py runs on, as parameters: the settings, the clocks,
-- `json`, `zlib` and `base64`, and the Redis server; and the state that its objects hold. A duration
-- or a timestamp is a number of seconds. An envelope is read with a
-- time of creation, which nothing compares, that is a number or absent; latencies are not recorded.
use crucible_ai.Pipeline.Runtime.{Act, Exception}
use crucible_ai.Cache.Breaker.{Breaker}
use crucible_ai.Cache.Codec.{Codec}
use crucible_ai.Cache.L1.{L1Cache, Moment, Timestamp}
use crucible_ai.Prelude.{Bool, List, Option, String, [], if◌then◌else◌, ℕ, ◌+◌, ◌==◌, ◌∷◌}

-- The dictionary that a text of the second tier is the JSON of, with the keys that are read; `some
-- none` is a null.
pub record Envelope : Type 0 where
  pub schema_version : Option ℕ
  pub compression : Option String
  pub payload : Option String
  pub created : Option ℕ
  pub expires : Option (Option Timestamp)
  pub stale_until : Option (Option Timestamp)

-- What `json.loads` gives for a text of the second tier.
pub data Document : Type 0 where
  not_dict : Document
  dict : Envelope → Document

pub record Service (V B W : Type 0) : Type 0 where
  pub codec : Codec V B
  pub dump_envelope : Envelope → String
  pub load_document : String → Option Document
  pub enabled : Bool
  pub redis_enabled : Bool
  pub redis_installed : Bool
  pub configured : Bool
  pub schema_version : ℕ
  pub compression_threshold : ℕ
  pub l1_ttl_default : ℕ
  pub ttl_default : ℕ
  pub stale_max_seconds : ℕ
  pub clock : ℕ → Moment
  pub is_timeout : Exception → Bool
  pub connect : Act W (Unit {0})
  pub server_get : String → Act W (Option String)
  pub server_set : String → String → ℕ → Act W (Unit {0})
  pub server_delete : String → Act W (Unit {0})

-- The manager with its parts, how many readings of the clocks were made, and the rest of the world,
-- in which the server is.
pub record Tiers (V W : Type 0) : Type 0 where
  pub l1 : L1Cache V
  pub circuit : Breaker
  pub connected : Bool
  pub flights : List (String × ℕ)
  pub stampedes_prevented : ℕ
  pub refreshing : List String
  pub metrics : List (String × ℕ)
  pub readings : ℕ
  pub world : W

-- What a comparison of a number with a null or a text raises; the message is shortened.
abbrev pub not_supported : Exception
not_supported = record { type_name = "TypeError"; message = "'<' not supported" }

-- The present moment
abbrev pub present_time : {V B W : Type 0} → Service V B W → Tiers V W → Moment
present_time sv s = sv.clock s.readings

abbrev bump : String → List (String × ℕ) → List (String × ℕ)
bump name [] = []
bump name ((k, n) ∷ m) =
    let rest = bump name m in if k == name then (k, n + 1) ∷ m else (k, n) ∷ rest

module _ {V W : Type 0} where
  -- The state in which the clocks have been read once more.
  abbrev pub tick : Tiers V W → Tiers V W
  tick s = record s { readings = s.readings + 1 }

  -- `_inc_metric`
  unfoldable pub inc_metric : String → Tiers V W → Tiers V W
  inc_metric name s = record s { metrics = bump name s.metrics }
