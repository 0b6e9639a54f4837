-- ===== src/Wire.antt =====
-- What goes over the wire: bytes, replies and codes. `github.com/google/uuid` is a parameter.
use high_load_ledger.Prelude.{ℕ, ◌≡◌, Option, some, List}
use high_load_ledger.Entity.{Uuid}

abbrev pub Bytes : Type 0
Bytes = List ℕ

pub record UuidLib : Type 0 where
  -- `uuid.FromBytes`, none for its error
  pub from_bytes : Bytes → Option Uuid
  -- `id[:]`
  pub bytes : Uuid → Bytes
  -- `id.String()`
  pub to_string : Uuid → Bytes
  -- `uuid.Parse`, none for its error
  pub parse : Bytes → Option Uuid

-- The two forms of an id are read back.
pub record IsFaithful (lib : UuidLib) : Type 0 where
  pub of_bytes : (id : Uuid) → lib.from_bytes (lib.bytes id) ≡ some id
  pub of_string : (id : Uuid) → lib.parse (lib.to_string id) ≡ some id

pub data Code : Type 0 where
  invalid_argument failed_precondition not_found aborted internal : Code

-- What a call of a handler Ends in: a response, an error with a code, `nil, nil`, or a panic. gRPC
-- sends `nil, nil` to the client as an OK with an empty response.
pub data Reply (A : Type 0) : Type 0 where
  replied : A → Reply A
  failed : Code → Reply A
  nothing panicked : Reply A
