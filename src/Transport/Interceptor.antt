-- ===== src/Transport/Interceptor.antt =====
-- `UnaryIdempotencyInterceptor`. The goroutine that writes the final status is seen up to its
-- start; `run_update` is its later step.
use high_load_ledger.Prelude.{
  Bool, true, false, Option, none, some, List, [], ◌∷◌, ◌==◌, if◌then◌else◌,
}
use high_load_ledger.Entity.{Uuid, uuid_nil}
use high_load_ledger.Result.{Result, ok, err}
use high_load_ledger.Wire.{panicked, aborted}
use high_load_ledger.World.{Env, World}
use high_load_ledger.Wire.{aborted, nothing, replied, internal, failed, Bytes, UuidLib, Reply}
use high_load_ledger.Transport.Status.{
  in_process, update_idempotency_status, delete_idempotency, parse_completed, check_or_lock,
  completed_status, Server, same_text,
}

abbrev pub Handling : Type 0
Handling = World → Reply Bytes × World

-- The handler runs on the process, and the statuses stay.
abbrev pub handled : Handling → Server → Reply Bytes × Server
handled handler s = let (r, w) = handler s.world in (r, record s { world = w })

-- `handleDuplicate`
unfoldable pub handle_duplicate : UuidLib → Bytes → Reply Bytes
unfolding same_text parse_completed
handle_duplicate lib status =
    if same_text status in_process
    then failed aborted
    else elim (parse_completed lib status) as (λ _. Reply Bytes) [
      | some id ↦ replied (lib.bytes id)
      | none ↦ failed internal
    ]

module _ (env : Env) where
  -- `_ = idem.DeleteIdempotency(ctx, key)`
  unfoldable pub released : Uuid → Server → Server
  unfolding delete_idempotency
  released key s = (delete_idempotency env key s).1

  unfoldable pub write_first : List (Uuid × Bytes) → Server → Server
  unfolding update_idempotency_status
  write_first [] s = s
  write_first ((key, status) ∷ rest) s =
      (update_idempotency_status env key status (record s { pending = rest })).1

  -- A goroutine writes the status of the update that waits the longest.
  unfoldable pub run_update : Server → Server
  unfolding write_first
  run_update s = write_first s.pending s

module _ (env : Env) (lib : UuidLib) where
  -- `resp.(*ledger.TransferResponse)` with its id, or an error
  unfoldable pub complete : Uuid → Bytes → Option Uuid → Server → Reply Bytes × Server
  unfolding released completed_status
  complete key out none s = (failed internal, released env key s)
  complete key out (some id) s =
      (replied out, record s { pending = (key, completed_status lib id) ∷ s.pending })

  -- After the handler. The recovered panic assigns to `err`, which is not a result of the
  -- function: it returns nil, nil, as after a handler that has returned these.
  unfoldable pub settle_reply : Uuid → Reply Bytes × Server → Reply Bytes × Server
  unfolding complete
  settle_reply key (replied out, s) = complete key out (lib.from_bytes out) s
  settle_reply key (failed code, s) = (failed code, released env key s)
  settle_reply key (nothing, s) = (nothing, released env key s)
  settle_reply key (panicked, s) = (nothing, released env key s)

  -- What follows `CheckOrLock`.
  unfoldable pub decide : Uuid → Handling → Result (Bool × Bytes) × Server → Reply Bytes × Server
  unfolding settle_reply handle_duplicate
  decide key handler (err e, s) = handled handler s
  decide key handler (ok (false, status), s) = (handle_duplicate lib status, s)
  decide key handler (ok (true, status), s) = settle_reply key (handled handler s)

  unfoldable pub guarded : Uuid → Handling → Server → Reply Bytes × Server
  unfolding check_or_lock decide
  guarded key handler s =
      if key == uuid_nil then handled handler s else decide key handler (check_or_lock env key s)

  -- `UnaryIdempotencyInterceptor`: whether the method is Transfer, and the bytes of the key
  unfoldable pub intercept : Bool → Bytes → Handling → Server → Reply Bytes × Server
  unfolding guarded
  intercept is_transfer key_bytes handler s =
      if is_transfer
      then elim (lib.from_bytes key_bytes) as (λ _. Reply Bytes × Server) [
        | none ↦ handled handler s
        | some key ↦ guarded key handler s
      ]
      else handled handler s
