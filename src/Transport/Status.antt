-- ===== src/Transport/Status.antt =====
-- `IdempotencyStatus`, a text, and `IdempotencyRepository`, the Redis instance that holds one for
-- each key. A text is the list of its bytes; the time to live is not modelled.
use high_load_ledger.Prelude.{
  Bool, true, false, Option, none, some, List, [], ◌∷◌, ◌++◌, ◌==◌, ◌&&◌, if◌then◌else◌,
}
use high_load_ledger.Entity.{Uuid, driver}
use high_load_ledger.Result.{Result, ok, err}
use high_load_ledger.World.{Env, World, tick, Fault, fine, refused, lost}
use high_load_ledger.Wire.{Bytes, UuidLib}

-- "unspecified"
abbrev pub status_unspecified : Bytes
status_unspecified = 117 ∷ 110 ∷ 115 ∷ 112 ∷ 101 ∷ 99 ∷ 105 ∷ 102 ∷ 105 ∷ 101 ∷ 100 ∷ []

-- "in process"
abbrev pub in_process : Bytes
in_process = 105 ∷ 110 ∷ 32 ∷ 112 ∷ 114 ∷ 111 ∷ 99 ∷ 101 ∷ 115 ∷ 115 ∷ []

-- "completed:"
abbrev pub completed_prefix : Bytes
completed_prefix = 99 ∷ 111 ∷ 109 ∷ 112 ∷ 108 ∷ 101 ∷ 116 ∷ 101 ∷ 100 ∷ 58 ∷ []

unfoldable pub same_text : Bytes → Bytes → Bool
same_text [] [] = true
same_text [] (y ∷ ys) = false
same_text (x ∷ xs) [] = false
same_text (x ∷ xs) (y ∷ ys) = x == y && same_text xs ys

-- `strings.HasPrefix` and `strings.TrimPrefix`: what follows the prefix, if it is there
unfoldable pub after_prefix : Bytes → Bytes → Option Bytes
after_prefix [] text = some text
after_prefix (p ∷ ps) [] = none
after_prefix (p ∷ ps) (c ∷ cs) = if p == c then after_prefix ps cs else none

-- `completedStatus`
unfoldable pub completed_status : UuidLib → Uuid → Bytes
completed_status lib id = completed_prefix ++ lib.to_string id

-- `parseCompleted`
unfoldable pub parse_completed : UuidLib → Bytes → Option Uuid
unfolding after_prefix
parse_completed lib status = elim (after_prefix completed_prefix status) [
  | none ↦ none
  | some text ↦ lib.parse text
]

unfoldable pub status_of : Uuid → List (Uuid × Bytes) → Option Bytes
status_of key [] = none
status_of key ((k, s) ∷ rest) = if k == key then some s else status_of key rest

unfoldable pub without : Uuid → List (Uuid × Bytes) → List (Uuid × Bytes)
without key [] = []
without key ((k, s) ∷ rest) =
    let others = without key rest in if k == key then others else (k, s) ∷ others

-- The process with the statuses in Redis, and the updates that wait in their goroutines.
pub record Server : Type 0 where
  pub world : World
  pub statuses : List (Uuid × Bytes)
  pub pending : List (Uuid × Bytes)

-- A status is set to a value, or removed.
abbrev pub put_status : Uuid → Bytes → List (Uuid × Bytes) → List (Uuid × Bytes)
put_status key status statuses = (key, status) ∷ without key statuses

-- SET … NX GET: claimed, or the status that stands there
abbrev pub claim : Uuid → Option Bytes → List (Uuid × Bytes) → (Bool × Bytes) × List (Uuid × Bytes)
claim key none statuses = ((true, in_process), put_status key in_process statuses)
claim key (some status) statuses = ((false, status), statuses)

abbrev pub claiming : Uuid → Fault → Server → Result (Bool × Bytes) × Server
claiming key fine s =
    let (r, statuses) = claim key (status_of key s.statuses) s.statuses in
    (ok r, record s { statuses = statuses })
claiming key (refused e) s = (err (driver e), s)
claiming key (lost e) s =
    let (r, statuses) = claim key (status_of key s.statuses) s.statuses in
    (err (driver e), record s { statuses = statuses })

abbrev pub changing :
    (List (Uuid × Bytes) → List (Uuid × Bytes)) → Fault → Server → Result (Unit {0}) × Server
changing f fine s = (ok tt, record s { statuses = f s.statuses })
changing f (refused e) s = (err (driver e), s)
changing f (lost e) s = (err (driver e), record s { statuses = f s.statuses })

module _ (env : Env) where
  abbrev pub ticked : Server → Server
  unfolding tick
  ticked s = record s { world = tick env s.world }

  -- `CheckOrLock`
  unfoldable pub check_or_lock : Uuid → Server → Result (Bool × Bytes) × Server
  unfolding ticked status_of without
  check_or_lock key s = claiming key (env.fault s.world.clock) (ticked s)

  -- `UpdateIdempotencyStatus`
  unfoldable pub update_idempotency_status : Uuid → Bytes → Server → Result (Unit {0}) × Server
  unfolding ticked without
  update_idempotency_status key status s =
      changing (put_status key status) (env.fault s.world.clock) (ticked s)

  -- `DeleteIdempotency`
  unfoldable pub delete_idempotency : Uuid → Server → Result (Unit {0}) × Server
  unfolding ticked without
  delete_idempotency key s = changing (without key) (env.fault s.world.clock) (ticked s)
