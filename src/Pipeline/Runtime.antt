-- ===== src/Pipeline/Runtime.antt =====
-- What the pipeline and the recovery code run on: exceptions, the nodes' own code, Python objects,
-- the clock, `uuid4`, `json`, `hashlib` and the file system. None of it is code of the repository,
-- so it is a parameter, a `Runtime`; the state is what the repository's objects hold.
use crucible_ai.Prelude.{Bool, List, Option, String, ℕ, ◌+◌}
use crucible_ai.Pipeline.Model.{Metadata, Checkpoint, PipelineExecution}

-- `type(exc).__name__` and `str(exc)`
pub record Exception : Type 0 where
  pub type_name : String
  pub message : String

pub data Result (A : Type 0) : Type 0 where
  ok : A → Result A
  raise : Exception → Result A

-- Foreign code: it may change the world, and return or raise.
abbrev pub Act : Type 0 → Type 0 → Type 0
Act W A = W → Result A × W

-- `getattr(x, name, None)` put to use: `unusable` where the conversion raises TypeError, `raises`
-- where reading it raises anything else.
pub data Attribute (A : Type 0) : Type 0 where
  absent unusable : Attribute A
  raises : Exception → Attribute A
  present : A → Attribute A

-- A pipeline node. An attribute that is absent or not callable is `none`; the provider gives
-- `none` where it returns no dictionary, and the validator gives false where it returns `False`.
pub record Node (V W : Type 0) : Type 0 where
  pub node_id : Option String
  pub name : Option String
  pub class_name : String
  pub version : Option String
  pub input_metadata : Option (V → Act W (Option Metadata))
  pub run : Option (V → Act W V)
  pub call : Option (V → Act W V)
  pub validate_output : Option (V → Act W Bool)

-- The files `<id>.json` and `<id>.metadata.json` of the checkpoint directory.
pub data FileName : Type 0 where
  artifact_file metadata_file : String → FileName

-- `V` is the type of object references, `W` the rest of the world.
pub record Runtime (V W : Type 0) : Type 0 where
  pub none_value : V
  pub is_none : V → Bool
  pub same : V → V → Bool
  pub type_name : V → String
  pub shape : V → W → Attribute (List ℕ)
  pub columns : V → W → Attribute (List String)
  pub set_value : V → Option (V → Act W (Unit {0}))
  pub has_value : V → W → Bool
  -- `none` where the assignment raises
  pub assign_value : V → V → W → Option W
  pub is_native : V → Bool
  -- `json.dumps(x, sort_keys=True, default=str)`; `none` where it raises TypeError or ValueError
  pub dumps : V → W → Option String
  pub is_dataclass : V → Bool
  pub as_dict : V → W → Option V
  pub to_dict : V → W → Option V
  pub object_dict : V → W → Option V
  -- `json.dumps(repr(x))`
  pub dumps_repr : V → W → String
  pub loads : String → Option V
  pub sha256 : String → String
  -- what `open` or `json.load` raises where an existing file cannot be opened or holds no JSON
  pub load_error : FileName → W → Option Exception
  -- whether a file can be opened for writing
  pub writable : FileName → W → Bool
  -- the n-th reading of the clock and the n-th identifier drawn
  pub now : ℕ → ℕ
  pub uuid4 : ℕ → String

-- What the checkpoint manager and the executor hold, the files of the checkpoint directory (each
-- the JSON value that it stores), and how many readings and identifiers were drawn.
pub record State (V W : Type 0) : Type 0 where
  pub world : W
  pub readings : ℕ
  pub drawn : ℕ
  pub checkpoints : List Checkpoint
  pub artifacts : List (String × V)
  pub metadata_files : List String
  pub history : List PipelineExecution

-- The repository's code: it returns or raises, and what it wrote before it raised stays written.
abbrev pub Exec : Type 0 → Type 0 → Type 0
Exec S A = S → Result A × S

module _ {S A : Type 0} where
  abbrev pub pure : A → Exec S A
  pure a s = (ok a, s)

  abbrev pub throw : Exception → Exec S A
  throw e s = (raise e, s)

module _ {V W A : Type 0} where
  abbrev pub foreign : Act W A → Exec (State V W) A
  foreign m s = let (r, w) = m s.world in (r, record s { world = w })

module _ {S A B : Type 0} where
  abbrev pub continue : Result A × S → (A → Exec S B) → Result B × S
  continue (ok a, s) f = f a s
  continue (raise e, s) f = (raise e, s)

  infixl 5 ◌>>=◌ ◌>>◌
  abbrev pub ◌>>=◌ : Exec S A → (A → Exec S B) → Exec S B
  ◌>>=◌ m f s = continue (m s) f

  abbrev pub ◌>>◌ : Exec S A → Exec S B → Exec S B
  ◌>>◌ m k s = continue (m s) (λ _. k)

-- What holds of the value that an action returns, where it returns one.
abbrev pub Returns : {S A : Type 0} → (A → S → Type 0) → Result A × S → Type 0
Returns P (ok a, s) = P a s
Returns P (raise e, s) = Unit

-- That an action returns a value, and what holds of it.
abbrev pub Delivers : {S A : Type 0} → (A → S → Type 0) → Result A × S → Type 0
Delivers P (ok a, s) = P a s
Delivers P (raise e, s) = ⊥

module _ {S A B : Type 0} where
  pub Returns-continue :
      (P : B → S → Type 0) (Q : A → S → Type 0) (m : Result A × S) (f : A → Exec S B)
      → Returns Q m
      → ((a : A) (s : S) → Q a s → Returns P (f a s))
      → Returns P (continue m f)
  Returns-continue P Q (ok a, s) f h k = k a s h
  Returns-continue P Q (raise e, s) f h k = tt

  -- Where the rest ends well from every state, so does the whole.
  pub Returns-each :
      (P : B → S → Type 0) (m : Result A × S) (f : A → Exec S B)
      → ((a : A) (s : S) → Returns P (f a s))
      → Returns P (continue m f)
  Returns-each P (ok a, s) f k = k a s
  Returns-each P (raise e, s) f k = tt

module _ {V W : Type 0} (rt : Runtime V W) where
  unfoldable pub read_clock : Exec (State V W) ℕ
  read_clock s = (ok (rt.now s.readings), record s { readings = s.readings + 1 })

  unfoldable pub draw_uuid : Exec (State V W) String
  draw_uuid s = (ok (rt.uuid4 s.drawn), record s { drawn = s.drawn + 1 })
