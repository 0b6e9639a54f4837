-- ===== src/Loadgen/LoadTests.antt =====
-- A run of `runLoad` with one stream and one worker: the worker has the job before the stream has
-- counted it, and the context is done before the answer is there.
use high_load_ledger.Prelude.{ℕ, ◌≤◌, ◌≡◌, refl, true, false, none, some, [], ◌∷◌, arith}
use high_load_ledger.Prelude.Int.{pos}
use high_load_ledger.Samples.{sample_lib}
use high_load_ledger.Loadgen.Builder.{stream_valid}
use high_load_ledger.Loadgen.Load.{
  build, recording, Load, start_load, funded, Runs, unmoved, moved, builds, sending, sends, takes,
  records, cancels, handles, returns, closes, exits, IsFinished,
}
use high_load_ledger.Loadgen.Pool.{ExistingAccount}
use high_load_ledger.Loadgen.Tests.{reserved, reserving}
use high_load_ledger.Loadgen.RunTests.{sample_job, service, service-IsSound, refusing}
use high_load_ledger.Loadgen.Service.{IsSound}
use high_load_ledger.Loadgen.Running.{count_dispatched, count_completed}
use high_load_ledger.Loadgen.Drained.{run_load_safe, run_load_completes}
use high_load_ledger.Loadgen.Ending.{run_load_ends}
use high_load_ledger.Loadgen.Jobs.{handle_job, CoreService}
use high_load_ledger.Loadgen.Counters.{record_dispatched}

abbrev account : ℕ → ExistingAccount
account id = record { id = id; currency = pos 1; balance = pos 100 }

abbrev started : Load
started = start_load service (stream_valid ∷ []) 1 8192

abbrev has_built : Load
has_built = record started {
  service = record service { pool = reserved };
  streams = sending sample_job ∷ [];
}

has_built_run : Runs sample_lib started has_built
unfolding build reserving reserved
has_built_run = moved unmoved (builds stream_valid (funded (account 11) (account 12) 30) [] [] refl)

-- The worker has the job, and the stream has not counted it.
abbrev has_sent : Load
has_sent = record has_built {
  streams = recording stream_valid ∷ [];
  busy = sample_job ∷ [];
  idle = 0;
}

has_sent_run : Runs sample_lib started has_sent
has_sent_run =
    moved (moved has_built_run (sends sample_job [] [] refl (omega arith)))
      (takes sample_job [] 0 refl refl)

abbrev answered_service : CoreService
answered_service =
    elim (handle_job sample_lib refusing (some 5) sample_job has_sent.service)
      as (λ _. CoreService) [ none ↦ service | some v ↦ v ]

abbrev has_handled : Load
has_handled = record has_sent { service = answered_service; busy = []; idle = 1 }

has_handled_run : Runs sample_lib started has_handled
unfolding handle_job high_load_ledger.Loadgen.Pool.ref_of reserved
has_handled_run = moved has_sent_run (handles sample_job [] [] refusing (some 5) refl)

abbrev has_finished : Load
has_finished = record has_handled {
  service = record answered_service {
    stats = record_dispatched stream_valid answered_service.stats;
  };
  dispatched = stream_valid ∷ [];
  streams = [];
  closed = true;
  idle = 0;
  exited = 1;
  stopped = true;
}

has_finished_run : Runs sample_lib started has_finished
has_finished_run =
    moved
      (moved
        (moved (moved (moved has_handled_run (records stream_valid [] [] refl)) cancels)
          (returns stream_valid [] [] refl refl))
        (closes refl refl refl))
      (exits 0 refl refl refl)

run_load_safe_example : (has_finished.panicked ≡ false) × IsSound has_finished.service × (0 ≤ 8192)
run_load_safe_example =
    run_load_safe sample_lib service (stream_valid ∷ []) 1 8192 service-IsSound refl (omega arith)
      has_finished has_finished_run

run_load_completes_example :
    (has_finished.jobs ≡ [])
    × ((k : ℕ)
        → count_dispatched k (stream_valid ∷ []) ≡ count_completed k has_finished.service.completed)
run_load_completes_example =
    run_load_completes sample_lib service (stream_valid ∷ []) 1 8192 service-IsSound refl
      (omega arith) has_finished has_finished_run
      (record { closed = refl; none_waits = refl; none_works = refl })

run_load_ends_example : (u : Load) × Runs sample_lib has_sent u × IsFinished u
run_load_ends_example =
    run_load_ends sample_lib service (stream_valid ∷ []) 1 8192 refusing has_sent service-IsSound
      refl (omega arith) has_sent_run
