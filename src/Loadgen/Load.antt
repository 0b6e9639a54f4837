-- ===== src/Loadgen/Load.antt =====
-- `runLoad`: the goroutines of the streams and of the workers around the channel of jobs, as steps
-- that may come in any order. A call of the gateway and what follows its answer are one step.
use high_load_ledger.Prelude.{
  ℕ, suc, ◌<◌, ◌≡◌, Bool, true, false, Option, none, some, List, [], ◌∷◌, ◌++◌, map, length,
  if◌then◌else◌,
}
use high_load_ledger.Prelude.Int.{pos}
use high_load_ledger.Entity.{Uuid}
use high_load_ledger.Wire.{UuidLib}
use high_load_ledger.Loadgen.Pool.{ExistingAccount, AccountPool, reserve_valid}
use high_load_ledger.Loadgen.Builder.{TransferJob, reserved_job}
use high_load_ledger.Loadgen.Counters.{record_dispatched}
use high_load_ledger.Loadgen.Calls.{Gateway}
use high_load_ledger.Loadgen.Jobs.{CoreService, drop_reserved, handle_job}

-- Where a stream is in its loop: before `build`, at the `select` with a job, or after the channel
-- has taken one and before it is counted.
pub data StreamAt : Type 0 where
  building : ℕ → StreamAt
  sending : TransferJob → StreamAt
  recording : ℕ → StreamAt

pub record Load : Type 0 where
  pub service : CoreService
  -- `dispatched_total`, by stream
  pub dispatched : List ℕ
  pub streams : List StreamAt
  -- the channel, oldest first
  pub jobs : List TransferJob
  pub capacity : ℕ
  pub closed : Bool
  -- the jobs that workers have taken, the workers that wait for one, and those that have returned
  pub busy : List TransferJob
  pub idle : ℕ
  pub exited : ℕ
  -- the context is done
  pub stopped : Bool
  pub panicked : Bool

-- The state in which the goroutines are started, with the kinds of the streams whose rate is
-- positive.
abbrev pub start_load : CoreService → List ℕ → ℕ → ℕ → Load
start_load service kinds workers capacity = record {
  service = service;
  dispatched = [];
  streams = map building kinds;
  jobs = [];
  capacity = capacity;
  closed = false;
  busy = [];
  idle = workers;
  exited = 0;
  stopped = false;
  panicked = false;
}

-- What a builder has picked. Other goroutines may change the pool between its operations, so the
-- accounts and the amount are those of any earlier pool.
pub data Pick : Type 0 where
  nothing : Pick
  unreserved : TransferJob → Pick
  funded : ExistingAccount → ExistingAccount → ℕ → Pick

abbrev pub in_pool :
    CoreService
    → Option (Option TransferJob × AccountPool)
    → Option (Option TransferJob × CoreService)
in_pool s none = none
in_pool s (some (o, p)) = some (o, record s { pool = p })

-- `build`: a job or none; or a panic
unfoldable pub build : Pick → CoreService → Option (Option TransferJob × CoreService)
unfolding reserve_valid
build nothing s = some (none, s)
build (unreserved job) s = some (some (record job { reserved = false }), s)
build (funded a b amount) s =
    in_pool s (reserved_job a b amount (reserve_valid a.id b.id (pos amount) s.pool))

abbrev pub with_service : Option CoreService → Load → Load
with_service none s = record s { panicked = true }
with_service (some v) s = record s { service = v }

-- A stream that gets no job tries again.
abbrev pub after_build :
    ℕ → List StreamAt → List StreamAt → Option (Option TransferJob × CoreService) → Load → Load
after_build kind before after none s = record s { panicked = true }
after_build kind before after (some (none, v)) s = record s { service = v }
after_build kind before after (some (some job, v)) s = record s {
  service = v;
  streams = before ++ (sending (record job { kind = kind }) ∷ after);
}

-- `jobs <- job`, which panics on a closed channel
abbrev pub send_job : List StreamAt → List StreamAt → TransferJob → Load → Load
send_job before after job s =
    if s.closed
    then record s { panicked = true }
    else record s { streams = before ++ (recording job.kind ∷ after); jobs = s.jobs ++ (job ∷ []) }

-- after `drop`
abbrev pub drop_job : List StreamAt → List StreamAt → Option AccountPool → Load → Load
drop_job before after none s = record s { panicked = true }
drop_job before after (some p) s = record s {
  service = record s.service { pool = p };
  streams = before ++ after;
}

abbrev pub record_job : List StreamAt → List StreamAt → ℕ → Load → Load
record_job before after kind s = record s {
  service = record s.service { stats = record_dispatched kind s.service.stats };
  dispatched = kind ∷ s.dispatched;
  streams = before ++ (building kind ∷ after);
}

pub data Step (lib : UuidLib) (s : Load) : Load → Type 0 where
  -- a stream builds a job or fails to
  builds :
      (kind : ℕ) (pick : Pick) (before after : List StreamAt)
      → s.streams ≡ before ++ (building kind ∷ after)
      → Step lib s (after_build kind before after (build pick s.service) s)
  -- a stream returns while it waits
  returns :
      (kind : ℕ) (before after : List StreamAt)
      → s.streams ≡ before ++ (building kind ∷ after)
      → s.stopped ≡ true
      → Step lib s (record s { streams = before ++ after })
  sends :
      (job : TransferJob) (before after : List StreamAt)
      → s.streams ≡ before ++ (sending job ∷ after)
      → length s.jobs < s.capacity
      → Step lib s (send_job before after job s)
  -- a stream drops its job and returns
  drops :
      (job : TransferJob) (before after : List StreamAt)
      → s.streams ≡ before ++ (sending job ∷ after)
      → s.stopped ≡ true
      → Step lib s (drop_job before after (drop_reserved lib job s.service.pool) s)
  records :
      (kind : ℕ) (before after : List StreamAt)
      → s.streams ≡ before ++ (recording kind ∷ after)
      → Step lib s (record_job before after kind s)
  cancels : Step lib s (record s { stopped = true })
  -- a worker receives a job
  takes :
      (job : TransferJob) (rest : List TransferJob) (others : ℕ)
      → s.jobs ≡ job ∷ rest
      → s.idle ≡ suc others
      → Step lib s (record s { jobs = rest; busy = job ∷ s.busy; idle = others })
  -- a worker has handled its job
  handles :
      (job : TransferJob) (before after : List TransferJob) (gateway : Gateway) (ik : Option Uuid)
      → s.busy ≡ before ++ (job ∷ after)
      → Step lib s (
          with_service
            (handle_job lib gateway ik job s.service)
            (record s { busy = before ++ after; idle = suc s.idle }))
  -- all streams have returned
  closes :
      s.stopped ≡ true → s.streams ≡ [] → s.closed ≡ false → Step lib s (record s { closed = true })
  -- a worker finds the channel closed and empty
  exits :
      (others : ℕ)
      → s.closed ≡ true
      → s.jobs ≡ []
      → s.idle ≡ suc others
      → Step lib s (record s { idle = others; exited = suc s.exited })

-- The states that a run comes to.
pub data Runs (lib : UuidLib) (s : Load) : Load → Type 0 where
  unmoved : Runs lib s s
  moved : {v u : Load} → Runs lib s v → Step lib v u → Runs lib s u

-- `runLoad` returns: the channel is closed and every worker has returned.
pub record IsFinished (s : Load) : Type 0 where
  pub closed : s.closed ≡ true
  pub none_waits : s.idle ≡ 0
  pub none_works : s.busy ≡ []
