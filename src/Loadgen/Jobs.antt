-- ===== src/Loadgen/Jobs.antt =====
-- `CoreService`: the accounts that are made first, the jobs that the workers handle, and the ids of
-- recent transactions.
use high_load_ledger.Prelude.{
  ℕ, zero, suc, ◌*◌, ◌/◌, Bool, true, false, not, ◌&&◌, Option, none, some, List, [], ◌∷◌, ◌++◌,
  length, ltb, ◌==◌, if◌then◌else◌,
}
use high_load_ledger.Prelude.Int.{ℤ, pos, eq_ℤ}
use high_load_ledger.Entity.{Uuid, uuid_nil, Currency, currency_unspecified}
use high_load_ledger.Wire.{UuidLib, Code}
use high_load_ledger.Loadgen.Pool.{
  AccountPool, ExistingAccount, new_account_pool, add, total, rollback_valid, nth,
}
use high_load_ledger.Loadgen.Builder.{Rng, draw, TransferJob, stream_valid, stream_stats}
use high_load_ledger.Loadgen.Counters.{LoadStats, record_completed, new_load_stats}
use high_load_ledger.Loadgen.Calls.{
  Answer, answered, rejected, status, TxManager, Gateway, create_tx, get_transaction_call, Opener,
  create_accounts,
}

-- `completed_total`: the stream, and the code of the error if there is one. An error that is no
-- status counts as `Unknown`.
pub data Outcome : Type 0 where
  succeeded unknown_error : Outcome
  status_error : Code → Outcome

-- The service with the pool and the connections of its workers.
pub record CoreService : Type 0 where
  pub pool : AccountPool
  pub tx : TxManager
  pub stats : LoadStats
  -- newest first
  pub completed : List (ℕ × Outcome)
  pub recent_tx_ids : List Uuid

-- `NewCoreService`, with the pool that the bootstrap has made
abbrev pub new_core_service : AccountPool → TxManager → CoreService
new_core_service p tx = record {
  pool = p;
  tx = tx;
  stats = new_load_stats;
  completed = [];
  recent_tx_ids = [];
}

-- `GetValidCurrencies`, of the values of the generated enum
unfoldable pub valid_currencies : List ℤ → List Currency
valid_currencies [] = []
valid_currencies (c ∷ cs) =
    let rest = valid_currencies cs in if eq_ℤ c currency_unspecified then rest else c ∷ rest

unfoldable pub add_all : List ExistingAccount → AccountPool → AccountPool
unfolding add
add_all [] p = p
add_all (acc ∷ accs) p = add_all accs (add acc p)

-- A round of the loop that waits: the context is done, the call fails, or it works.
pub data Probe : Type 0 where
  cancelled unavailable available : Probe

unfoldable pub wait_ready : List Probe → Bool
wait_ready [] = false
wait_ready (cancelled ∷ ps) = false
wait_ready (unavailable ∷ ps) = wait_ready ps
wait_ready (available ∷ ps) = true

module _ (lib : UuidLib) where
  -- The loop over the currencies: what cannot be made is logged, what was made is kept.
  unfoldable pub open_currencies :
      (Currency → Opener) → ℕ → ℤ → ℤ → List Currency → AccountPool → AccountPool
  unfolding create_accounts add_all
  open_currencies opener workers per_currency max_error_pct [] p = p
  open_currencies opener workers per_currency max_error_pct (c ∷ cs) p =
      open_currencies opener workers per_currency max_error_pct cs
        (add_all (create_accounts lib (opener c) workers c per_currency max_error_pct).0 p)

  abbrev pub per_currency_of : ℕ → ℕ → ℤ
  per_currency_of users n = if users / n == 0 then pos 1 else pos (users / n)

  -- The accounts of all currencies; no account at all is an error.
  unfoldable pub open_pool : (Currency → Opener) → ℕ → ℕ → ℤ → List Currency → Option AccountPool
  unfolding open_currencies total
  open_pool opener workers users max_error_pct currencies =
      let p =
        open_currencies opener workers (per_currency_of users (length currencies)) max_error_pct
          currencies new_account_pool in
      if total p == 0 then none else some p

  -- `bootstrapAccounts`: none is its error, or that it still waits for the gateway
  unfoldable pub bootstrap_accounts :
      List Probe → (Currency → Opener) → ℕ → ℕ → ℤ → List Currency → Option AccountPool
  unfolding wait_ready open_pool
  bootstrap_accounts probes opener workers users max_error_pct [] = none
  bootstrap_accounts probes opener workers users max_error_pct (c ∷ cs) =
      if wait_ready probes then open_pool opener workers users max_error_pct (c ∷ cs) else none

-- `workers` and `queueSize` of `runLoad`; what the rates ask for is a parameter
unfoldable pub worker_count : ℕ → ℕ → ℕ
worker_count tx_workers asked =
    let least = if ltb asked 256 then 256 else asked in
    if ltb tx_workers least then least else tx_workers

unfoldable pub queue_size : ℕ → ℕ
queue_size workers = if ltb (workers * 2) 8192 then 8192 else workers * 2

unfoldable pub drop_first : {A : Type 0} → ℕ → List A → List A
drop_first zero l = l
drop_first (suc n) [] = []
drop_first (suc n) (x ∷ l) = drop_first n l

-- The id of a transfer is remembered; of more than 10000 the first 1000 go.
unfoldable pub remember : Uuid → List Uuid → List Uuid
unfolding drop_first
remember id ids = let l = ids ++ (id ∷ []) in if ltb 10000 (length l) then drop_first 1000 l else l

abbrev pub outcome_of : {A : Type 0} → Answer A → Outcome
outcome_of (answered a) = succeeded
outcome_of (rejected (status c)) = status_error c
outcome_of (rejected _) = unknown_error

abbrev pub is_answered : {A : Type 0} → Answer A → Bool
is_answered (answered a) = true
is_answered (rejected e) = false

-- `c.stats.RecordCompleted(err)` and `c.metrics.RecordCompleted(job.Kind, err)`
unfoldable pub complete_job : {A : Type 0} → ℕ → Answer A → TxManager → CoreService → CoreService
unfolding record_completed
complete_job kind a tx s = record s {
  tx = tx;
  stats = record_completed (is_answered a) s.stats;
  completed = (kind, outcome_of a) ∷ s.completed;
}

module _ (lib : UuidLib) where
  -- The two ids are read from the bytes of the job, and the reservation is taken back.
  unfoldable pub return_reserved : TransferJob → AccountPool → Option AccountPool
  unfolding rollback_valid
  return_reserved job p =
      elim (lib.from_bytes (lib.bytes job.from_id)) as (λ _. Option AccountPool) [
        | none ↦ some p
        | some from_id ↦ elim (lib.from_bytes (lib.bytes job.to_id)) as (λ _. Option AccountPool) [
          | none ↦ some p
          | some to_id ↦ rollback_valid from_id to_id job.amount p
        ]
      ]

  -- `dropReserved`
  unfoldable pub drop_reserved : TransferJob → AccountPool → Option AccountPool
  unfolding return_reserved
  drop_reserved job p = if job.reserved then return_reserved job p else some p

  abbrev with_pool : Option AccountPool → CoreService → Option CoreService
  with_pool none s = none
  with_pool (some p) s = some (record s { pool = p })

  -- What is done for a reserved job once the answer is there.
  unfoldable pub settle_job : TransferJob → Answer Uuid → CoreService → Option CoreService
  unfolding return_reserved remember
  settle_job job (rejected e) s =
      if job.reserved then with_pool (return_reserved job s.pool) s else some s
  settle_job job (answered id) s =
      if job.reserved && (job.kind == stream_valid && not (id == uuid_nil))
      then some (record s { recent_tx_ids = remember id s.recent_tx_ids })
      else some s

  -- `handleJob`, with what `uuid.NewV7` gives; none is a panic
  unfoldable pub handle_job : Gateway → Option Uuid → TransferJob → CoreService → Option CoreService
  unfolding get_transaction_call create_tx complete_job settle_job
  handle_job gateway ik job s =
      if job.kind == stream_stats
      then elim (get_transaction_call lib gateway job.tx_id s.tx) as (λ _. Option CoreService) [
        | none ↦ none
        | some at ↦ some (complete_job job.kind at.0 at.1 s)
      ]
      else elim (create_tx lib gateway ik job.currency (lib.bytes job.from_id) (lib.bytes job.to_id)
            job.amount s.tx)
          as (λ _. Option CoreService) [
            | none ↦ none
            | some at ↦ settle_job job at.0 (complete_job job.kind at.0 at.1 s)
          ]

-- `buildStats`
unfoldable pub build_stats : CoreService → Rng → Option TransferJob × Rng
unfolding draw nth
build_stats s rng =
    if length s.recent_tx_ids == 0
    then (none, rng)
    else (let (k, r) = draw (length s.recent_tx_ids) rng in
        elim (nth k s.recent_tx_ids) as (λ _. Option TransferJob × Rng) [
          | none ↦ (none, r)
          | some id ↦ (
            some (record {
              kind = stream_stats;
              currency = pos 0;
              from_id = uuid_nil;
              to_id = uuid_nil;
              amount = pos 0;
              tx_id = id;
              reserved = false;
            }),
            r,
          )
        ])

-- How `LoadGenWorker` Ends before it puts load on the gateway, or the pool that it does so with.
pub data Start : Type 0 where
  disabled bootstrap_failed too_few_accounts : Start
  running : AccountPool → Start

unfoldable pub load_gen_worker : Bool → Option AccountPool → Start
unfolding total
load_gen_worker false p = disabled
load_gen_worker true none = bootstrap_failed
load_gen_worker true (some p) = if ltb (total p) 2 then too_few_accounts else running p
