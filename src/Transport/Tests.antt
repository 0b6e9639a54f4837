-- ===== src/Transport/Tests.antt =====
-- A transfer is sent twice under the key 77.
use high_load_ledger.Prelude.{◌++◌, ◌≡◌, refl, [], ◌∷◌, none, true}
use high_load_ledger.Samples.{
  calm-NeverLoses, calm-IsQuiet, machinery, sample_lib-IsFaithful, calm, first_world, sample_lib,
}
use high_load_ledger.Transport.Status.{
  ticked, completed_status, in_process, completed_prefix, status_of, Server,
}
use high_load_ledger.Transport.Interceptor.{run_update, intercept, Handling}
use high_load_ledger.Wire.{
  Bytes, Reply, failed_precondition, aborted, internal, failed, replied, panicked,
}
use high_load_ledger.Transport.Results.{
  intercept_once, intercept_in_progress, intercept_replays, intercept_recovers, intercept_releases,
}
use high_load_ledger.World.{World}
use high_load_ledger.Transport.Handlers.{TransferRequest, transfer_handler}
use high_load_ledger.Transfer.{
  write_transfer, validate_transfer_currencies, validate_request, transfer_status, transfer_in_tx,
  record_transfer, publish, finish_transfer, balance_ops, apply_op, fill_currency,
  complete_currencies, transfer, transaction, TransferUseCase,
}
use high_load_ledger.Transport.Failures.{transfer_handler_failed}
use high_load_ledger.Prelude.Int.{pos}
use high_load_ledger.Entity.{is_valid}

abbrev server : Server
server = record { world = first_world; statuses = []; pending = [] }

abbrev one_reply : Handling
one_reply w = (replied (900 ∷ []), w)

abbrev no_reply : Handling
no_reply w = (failed internal, w)

abbrev crash : Handling
crash w = (panicked, w)

intercept_once_example :
    let s1 = (intercept calm sample_lib true (77 ∷ []) one_reply server).1 in
    ((intercept calm sample_lib true (77 ∷ []) one_reply server).0 ≡ replied (900 ∷ []))
    × (intercept calm sample_lib true (77 ∷ []) no_reply s1 ≡ (failed aborted, ticked calm s1))
    × (intercept calm sample_lib true (77 ∷ []) no_reply (run_update calm s1)
        ≡ (replied (900 ∷ []), ticked calm (run_update calm s1)))
unfolding status_of
intercept_once_example =
    intercept_once calm sample_lib 77 (77 ∷ []) (λ _. refl) refl refl one_reply no_reply server 900
      (ticked calm server).world sample_lib-IsFaithful refl refl refl

abbrev busy : Server
busy = record server { statuses = (77, in_process) ∷ [] }

intercept_in_progress_example :
    intercept calm sample_lib true (77 ∷ []) one_reply busy ≡ (failed aborted, ticked calm busy)
unfolding status_of
intercept_in_progress_example =
    intercept_in_progress calm sample_lib 77 (77 ∷ []) (λ _. refl) refl refl one_reply busy refl

abbrev done : Server
done = record server { statuses = (77, completed_prefix ++ (900 ∷ [])) ∷ [] }

intercept_replays_example :
    intercept calm sample_lib true (77 ∷ []) no_reply done ≡ (replied (900 ∷ []), ticked calm done)
unfolding status_of completed_status
intercept_replays_example =
    intercept_replays calm sample_lib 77 (77 ∷ []) (λ _. refl) refl refl no_reply done 900
      sample_lib-IsFaithful refl

intercept_releases_example :
    ((intercept calm sample_lib true (77 ∷ []) no_reply server).0 ≡ failed internal)
    × (status_of 77 (intercept calm sample_lib true (77 ∷ []) no_reply server).1.statuses ≡ none)
unfolding status_of
intercept_releases_example =
    intercept_releases calm sample_lib 77 (77 ∷ []) (λ _. refl) refl refl no_reply server internal
      (ticked calm server).world refl refl

intercept_recovers_example :
    (intercept calm sample_lib true
      (77 ∷ [])
      one_reply
      (intercept calm sample_lib true (77 ∷ []) crash server).1).0
    ≡ replied (900 ∷ [])
unfolding status_of
intercept_recovers_example =
    intercept_recovers calm sample_lib 77 (77 ∷ []) (λ _. refl) refl refl crash one_reply server 900
      (ticked calm server).world
      (ticked calm (intercept calm sample_lib true (77 ∷ []) crash server).1).world
      sample_lib-IsFaithful refl refl refl

-- Account 12 has 50, and 60 are asked for.
abbrev large_request : TransferRequest
large_request = record {
  idempotency_key = 77 ∷ [];
  user_from_id = 12 ∷ [];
  user_to_id = 11 ∷ [];
  amount = pos 60;
  currency = pos 1;
}

abbrev use_case : TransferUseCase
use_case = record { has_publisher = true; has_metrics = true }

unfoldable handled_large : World → Reply Bytes × World
unfolding machinery transfer_handler transaction transfer complete_currencies fill_currency apply_op
    balance_ops finish_transfer publish record_transfer transfer_in_tx transfer_status
    validate_request validate_transfer_currencies write_transfer is_valid
handled_large w = transfer_handler calm sample_lib use_case large_request w

abbrev large_after : World
unfolding handled_large
large_after = (handled_large first_world).1

large_run :
    transfer_handler calm sample_lib use_case large_request first_world
    ≡ (failed failed_precondition, large_after)
unfolding handled_large
large_run = refl

transfer_handler_failed_example : (large_after.db ≡ first_world.db) × (large_after.published ≡ [])
transfer_handler_failed_example =
    transfer_handler_failed calm sample_lib use_case first_world large_after calm-IsQuiet
      calm-NeverLoses large_request failed_precondition large_run
