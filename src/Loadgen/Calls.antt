-- ===== src/Loadgen/Calls.antt =====
-- `TxManager` and `AccountService.CreateAccounts`: the calls of the gateway. The generated gRPC
-- clients and google/uuid are parameters.
use high_load_ledger.Prelude.Words.{to_int64}
use high_load_ledger.Prelude.{
  ℕ, zero, suc, ◌+◌, ◌*◌, ◌/◌, ◌%◌, ◌^◌, Bool, true, Option, none, some, List, [], ◌∷◌, length, ltb,
  leb, ◌==◌, if◌then◌else◌,
}
use high_load_ledger.Prelude.Int.{ℤ, pos, negsuc, ◌-ℤ◌}
use high_load_ledger.Entity.{Uuid, Currency}
use high_load_ledger.Wire.{Bytes, UuidLib, Code}
use high_load_ledger.Loadgen.Pool.{ExistingAccount, nth}

-- The error of a call: a status, or that of `uuid.NewV7` or `uuid.FromBytes` with a text around it.
pub data CallError : Type 0 where
  status : Code → CallError
  no_key no_id : CallError

pub data Answer (A : Type 0) : Type 0 where
  answered : A → Answer A
  rejected : CallError → Answer A

-- A connection is its place in the list that the manager was made with.
pub record TxManager : Type 0 where
  pub conns : List ℕ
  pub rr : ℕ

-- `NewTxManager`
abbrev pub new_tx_manager : List ℕ → TxManager
new_tx_manager conns = record { conns = conns; rr = 0 }

-- `conn`: one connection is taken as it is, of several the next; none is the panic of an empty list.
-- The counter is a `uint64`.
unfoldable pub conn : TxManager → Option ℕ × TxManager
unfolding nth
conn t =
    if length t.conns == 1
    then (nth 0 t.conns, t)
    else (nth (t.rr % length t.conns) t.conns, record t { rr = (t.rr + 1) % 2 ^ 64 })

pub record TransferCall : Type 0 where
  pub idempotency_key : Bytes
  pub user_from_id : Bytes
  pub user_to_id : Bytes
  pub amount : ℤ
  pub currency : Currency

-- What the gateway answers to the calls of one job, by connection.
pub record Gateway : Type 0 where
  pub transfer : ℕ → TransferCall → Answer Bytes
  pub get_transaction : ℕ → Bytes → Answer (Unit {0})

module _ (lib : UuidLib) (gateway : Gateway) where
  -- the end of `CreateTx`, with the answer to the call
  unfoldable pub transaction_of : Answer Bytes → Answer Uuid
  transaction_of (rejected e) = rejected e
  transaction_of (answered raw) = elim (lib.from_bytes raw) as (λ _. Answer Uuid) [
    | none ↦ rejected no_id
    | some id ↦ answered id
  ]

  abbrev over : {A : Type 0} → Option ℕ → (ℕ → Answer A) → TxManager → Option (Answer A × TxManager)
  over none call t = none
  over (some c) call t = some (call c, t)

  -- `CreateTx`, with what `uuid.NewV7` gives
  unfoldable pub create_tx :
      Option Uuid → Currency → Bytes → Bytes → ℤ → TxManager → Option (Answer Uuid × TxManager)
  unfolding conn transaction_of
  create_tx none currency user_from user_to amount t = some (rejected no_key, t)
  create_tx (some ik) currency user_from user_to amount t =
      let req : TransferCall = record {
        idempotency_key = lib.bytes ik;
        user_from_id = user_from;
        user_to_id = user_to;
        amount = amount;
        currency = currency;
      } in
      let (c, t') = conn t in over c (λ k. transaction_of (gateway.transfer k req)) t'

  -- `GetTransaction`
  unfoldable pub get_transaction_call : Uuid → TxManager → Option (Answer (Unit {0}) × TxManager)
  unfolding conn
  get_transaction_call id t =
      let (c, t') = conn t in over c (λ k. gateway.get_transaction k (lib.bytes id)) t'

-- What the gateway answers to the n-th job of `CreateAccounts`.
pub record Opener : Type 0 where
  pub create_account : ℕ → Currency → Answer Bytes
  pub get_balance : ℕ → Bytes → Bytes → Answer ℤ

-- `amount * maxErrorPct`, as an int64 holds it
abbrev allowed_product : ℕ → ℤ → ℤ
allowed_product amount (pos p) = to_int64 (pos (amount * p))
allowed_product amount (negsuc p) = to_int64 (pos 0 -ℤ pos (amount * suc p))

abbrev pub at_least_one : ℤ → ℕ
at_least_one (negsuc _) = 1
at_least_one (pos product) = if ltb (product / 100) 1 then 1 else product / 100

-- `maxErrors`
unfoldable pub max_errors : ℕ → ℤ → ℕ
max_errors amount pct = at_least_one (allowed_product amount pct)

module _ (lib : UuidLib) (opener : Opener) where
  -- One round of a worker: an account for `results`, or none for a token in `errorsCh`.
  unfoldable pub open_one : Currency → ℕ → Option ExistingAccount
  open_one curr n = elim (opener.create_account n curr) as (λ _. Option ExistingAccount) [
    | rejected e ↦ none
    | answered raw ↦ elim (lib.from_bytes raw) as (λ _. Option ExistingAccount) [
      | none ↦ none
      | some id ↦
          elim (opener.get_balance n (lib.bytes id) (lib.bytes id))
            as (λ _. Option ExistingAccount) [
              | rejected e ↦ none
              | answered balance ↦ some (record { id = id; currency = curr; balance = balance })
            ]
    ]
  ]

  -- The jobs n, n + 1, … of the workers: what lies in the two channels at the end,
  -- in the order of the jobs.
  unfoldable pub open_all : Currency → ℕ → ℕ → List ExistingAccount × ℕ
  unfolding open_one
  open_all curr n zero = ([], zero)
  open_all curr n (suc left) =
      let (created, errors) = open_all curr (suc n) left in
      elim (open_one curr n) as (λ _. List ExistingAccount × ℕ) [
        | none ↦ (created, suc errors)
        | some acc ↦ (acc ∷ created, errors)
      ]

  -- `CreateAccounts`: the accounts, and whether the error is nil. Without workers no job is done.
  unfoldable pub create_accounts : ℕ → Currency → ℤ → ℤ → List ExistingAccount × Bool
  unfolding open_all max_errors
  create_accounts workers curr (negsuc _) max_error_pct = ([], true)
  create_accounts workers curr (pos amount) max_error_pct =
      if amount == 0
      then ([], true)
      else (let (created, errors) = open_all curr 0 (if workers == 0 then 0 else amount) in
          (created, leb errors (max_errors amount max_error_pct)))
