-- ===== src/Loadgen/RunTests.antt =====
-- A load generator with two accounts and three connections.
use high_load_ledger.Prelude.{
  ◌*◌, ◌⊎◌, ◌+◌, ◌-◌, ◌≤◌, ◌≡◌, refl, Bool, true, false, Option, none, some, List, [], ◌∷◌, length,
  arith,
}
use high_load_ledger.Prelude.Int.{pos, ◌+ℤ◌, ◌≤ℤ◌}
use high_load_ledger.Entity.{Uuid}
use high_load_ledger.Wire.{internal}
use high_load_ledger.Samples.{sample_lib, sample_lib-IsFaithful}
use high_load_ledger.Loadgen.Pool.{
  total_of, add, AccountPool, ExistingAccount, balance_of, total, ref_of, at_ref, nth, accounts_of,
}
use high_load_ledger.Loadgen.Builder.{TransferJob, stream_valid}
use high_load_ledger.Loadgen.Counters.{new_load_stats}
use high_load_ledger.Loadgen.Calls.{
  TxManager, new_tx_manager, Gateway, answered, rejected, status, Opener, create_accounts, open_all,
  open_one, max_errors,
}
use high_load_ledger.Loadgen.Jobs.{
  add_all, open_currencies, CoreService, new_core_service, handle_job, return_reserved,
  bootstrap_accounts, available, unavailable,
}
use high_load_ledger.Loadgen.Stream.{Round, Stream, stream_of, run_rounds, next_time, max_catch_up}
use high_load_ledger.Loadgen.Index.{IsIndexed}
use high_load_ledger.Loadgen.Returned.{return_reserved-restores, HasInt64}
use high_load_ledger.Loadgen.Opening.{create_accounts_ok}
use high_load_ledger.Loadgen.Rounds.{next_time-bounds, run_rounds-Settled, Settled, built_jobs}
use high_load_ledger.Loadgen.Service.{IsSound, handle_job-IsSound}
use high_load_ledger.Loadgen.Tests.{two, two-IsIndexed, reserved, reserved_30}
use high_load_ledger.Prelude.Words.{to_int64, low_bits}

abbrev pub sample_job : TransferJob
sample_job = record {
  kind = stream_valid;
  currency = pos 1;
  from_id = 11;
  to_id = 12;
  amount = pos 30;
  tx_id = 0;
  reserved = true;
}

two-HasInt64 : HasInt64 two
unfolding two balance_of ref_of at_ref nth accounts_of
two-HasInt64 x y h = ground arith

return_reserved-restores_example :
    (v : AccountPool) × (return_reserved sample_lib sample_job reserved ≡ some v)
    × IsIndexed v
    × ((x : Uuid) → balance_of x v ≡ balance_of x two)
return_reserved-restores_example =
    return_reserved-restores sample_lib sample_job two reserved sample_lib-IsFaithful two-IsIndexed
      two-HasInt64 (λ e. ground (arith, e)) reserved_30

abbrev three : TxManager
three = new_tx_manager (7 ∷ 8 ∷ 9 ∷ [])

abbrev pub service : CoreService
service = new_core_service two three

-- The transfer is refused with a status.
abbrev pub refusing : Gateway
refusing = record {
  transfer = λ c req. rejected (status internal);
  get_transaction = λ c id. answered tt;
}

pub service-IsSound : IsSound service
unfolding to_int64 low_bits
service-IsSound = record {
  indexed = two-IsIndexed;
  connected = omega arith;
  bounded = omega arith;
  ok_counted = refl;
  error_counted = refl;
}

handle_job-IsSound_example :
    (v : CoreService) × (handle_job sample_lib refusing (some 5) sample_job service ≡ some v)
    × IsSound v
    × (length v.completed ≡ 1)
handle_job-IsSound_example =
    handle_job-IsSound sample_lib refusing (some 5) sample_job service service-IsSound

-- Two accounts for each of two currencies; the gateway fails at first.
abbrev opener : Opener
opener = record {
  create_account = λ n c. answered ((100 + n) ∷ []);
  get_balance = λ n id requester. answered (pos 500);
}

unfoldable opening : List ExistingAccount × Bool
unfolding create_accounts open_all open_one max_errors
opening = create_accounts sample_lib opener 4 (pos 1) (pos 3) (pos 10)

create_accounts_ok_example :
    (length opening.0 ≤ 3) × ((3 ≤ length opening.0 + 1) ⊎ ((3 - length opening.0) * 100 ≤ 30))
unfolding opening to_int64
create_accounts_ok_example =
    create_accounts_ok sample_lib opener (pos 1) 4 3 10 opening.0 (omega arith) (omega arith) refl

unfoldable bootstrapped : Option AccountPool
unfolding bootstrap_accounts opening open_currencies add_all add total total_of
bootstrapped =
    bootstrap_accounts sample_lib (unavailable ∷ available ∷ []) (λ c. opener) 4 5 (pos 10)
      (pos 1 ∷ pos 2 ∷ [])

abbrev first_pool : AccountPool
unfolding bootstrapped
first_pool = elim bootstrapped as (λ _. AccountPool) [ none ↦ two | some p ↦ p ]

next_time-bounds_example :
    pos 900000000 ≤ℤ next_time (pos 100) (pos 50) (pos 900000000) (pos 900000010) +ℤ max_catch_up
next_time-bounds_example =
    next_time-bounds (pos 100) (pos 50) (pos 900000000) (pos 900000010) (omega arith)

abbrev sample_round : Bool → Round
sample_round done = record {
  now = pos 5;
  done_waiting = false;
  built = some sample_job;
  done_building = false;
  done_sending = done;
  delay = pos 3;
  since = pos 6;
  reset = pos 6;
}

abbrev idle : Stream
idle = record {
  queued = [];
  dropped = [];
  dispatched = [];
  stats = new_load_stats;
  next_at = pos 4;
}

run_rounds-Settled_example :
    Settled stream_valid idle
      (stream_of (run_rounds stream_valid (sample_round false ∷ sample_round true ∷ []) idle))
      (built_jobs stream_valid (sample_round false ∷ sample_round true ∷ []) idle)
run_rounds-Settled_example =
    run_rounds-Settled stream_valid (sample_round false ∷ sample_round true ∷ []) idle
