-- ===== src/Transport/Handlers.antt =====
-- `Handler`: transaction.go, account.go and stats.go.
use high_load_ledger.Prelude.{Option, none, some}
use high_load_ledger.Prelude.Int.{ℤ}
use high_load_ledger.Prelude.Words.{to_int16}
use high_load_ledger.Entity.{Uuid, TransactionRequest, Error}
use high_load_ledger.Result.{Result, ok, err}
use high_load_ledger.World.{Env, World}
use high_load_ledger.Accounts.{create_account, get_balance}
use high_load_ledger.Stats.{get_transaction}
use high_load_ledger.Entity.{
  insufficient_funds, currency_mismatch, account_not_found, invalid_amount, same_account_transfer,
  empty_idempotency_key, invalid_currency, transaction_not_found,
}
use high_load_ledger.Wire.{
  invalid_argument, replied, not_found, failed_precondition, failed, internal, Bytes, UuidLib,
  Reply, Code,
}
use high_load_ledger.Transfer.{transaction, TransferUseCase}

-- `TransferRequest` of the protocol; its currency is an int32.
pub record TransferRequest : Type 0 where
  pub idempotency_key : Bytes
  pub user_from_id : Bytes
  pub user_to_id : Bytes
  pub amount : ℤ
  pub currency : ℤ

pub record BalanceResponse : Type 0 where
  pub balance : ℤ
  pub currency : ℤ

pub record TransactionResponse : Type 0 where
  pub id : Bytes
  pub user_from : Bytes
  pub user_to : Bytes
  pub amount : ℤ
  pub currency : ℤ

-- The `switch` of `Transfer` on the error.
unfoldable pub transfer_code : Error → Code
transfer_code insufficient_funds = failed_precondition
transfer_code currency_mismatch = failed_precondition
transfer_code account_not_found = not_found
transfer_code invalid_amount = invalid_argument
transfer_code same_account_transfer = invalid_argument
transfer_code empty_idempotency_key = invalid_argument
transfer_code invalid_currency = invalid_argument
transfer_code _ = internal

unfoldable pub balance_code : Error → Code
balance_code account_not_found = not_found
balance_code _ = internal

unfoldable pub transaction_code : Error → Code
transaction_code transaction_not_found = not_found
transaction_code _ = internal

abbrev pub code_of_create : Error → Code
code_of_create _ = internal

abbrev pub domain_request : TransferRequest → Uuid → Uuid → Uuid → TransactionRequest
domain_request req ik from_id to_id = record {
  idempotency_key = ik;
  from_account_id = from_id;
  to_account_id = to_id;
  currency = to_int16 req.currency;
  amount = req.amount;
}

-- `if err != nil { return nil, status.Error(…) }` and the response.
abbrev pub reply_with :
    {A B : Type 0} → (A → B) → (Error → Code) → Result A × World → Reply B × World
reply_with f code (ok a, w) = (replied (f a), w)
reply_with f code (err e, w) = (failed (code e), w)

-- `uuid.FromBytes` of a field of the request, or InvalidArgument
abbrev pub with_id :
    {B : Type 0} → Option Uuid → (Uuid → World → Reply B × World) → World → Reply B × World
with_id none k w = (failed invalid_argument, w)
with_id (some id) k w = k id w

module _ (env : Env) (lib : UuidLib) where
  -- `Handler.Transfer`
  unfoldable pub transfer_handler : TransferUseCase → TransferRequest → World → Reply Bytes × World
  unfolding transfer_code to_int16
  transfer_handler uc req = with_id (lib.from_bytes req.idempotency_key) λ ik.
      with_id (lib.from_bytes req.user_from_id) λ from_id.
        with_id (lib.from_bytes req.user_to_id) λ to_id w.
          reply_with lib.bytes transfer_code
            (transaction env uc (domain_request req ik from_id to_id) w)

  -- `Handler.CreateAccount`
  unfoldable pub create_account_handler : ℤ → World → Reply Bytes × World
  unfolding to_int16
  create_account_handler currency w =
      reply_with lib.bytes code_of_create (create_account env (to_int16 currency) w)

  -- `Handler.GetBalance`
  unfoldable pub get_balance_handler : Bytes → World → Reply BalanceResponse × World
  unfolding balance_code
  get_balance_handler account_id = with_id (lib.from_bytes account_id) λ id w.
      reply_with (λ a. record { balance = a.balance; currency = a.currency }) balance_code
        (get_balance env id w)

  -- `Handler.GetTransaction`
  unfoldable pub get_transaction_handler : Bytes → World → Reply TransactionResponse × World
  unfolding transaction_code
  get_transaction_handler transaction_id = with_id (lib.from_bytes transaction_id) λ id w.
      reply_with
        (λ t. record {
          id = lib.bytes t.id;
          user_from = lib.bytes t.from_account_id;
          user_to = lib.bytes t.to_account_id;
          amount = t.amount;
          currency = t.currency;
        })
        transaction_code (get_transaction env id w)
