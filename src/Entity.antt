-- ===== src/Entity.antt =====
-- internal/domain/entity: the types that all layers share, and the errors they return.
--
-- A `uuid.UUID` is the number that its 16 bytes spell, the first byte the highest, so that
-- `bytes.Compare` of two ids is the order of the numbers and `uuid.Nil` is 0. A `time.Time` is a
-- number too. An error that is only wrapped by `fmt.Errorf("…: %w", err)` is `err` itself, since
-- the code looks at errors through `errors.Is` and `errors.As` alone.
use high_load_ledger.Prelude.{ℕ, Bool, ◌||◌}
use high_load_ledger.Prelude.Int.{ℤ, pos, eq_ℤ}

abbrev pub Uuid : Type 0
Uuid = ℕ

abbrev pub uuid_nil : Uuid
uuid_nil = 0

abbrev pub Time : Type 0
Time = ℕ

-- `type Currency int16`: any value can come from the wire or from a row.
abbrev pub Currency : Type 0
Currency = ℤ

abbrev pub currency_unspecified : Currency
currency_unspecified = pos 0

abbrev pub currency_usd : Currency
currency_usd = pos 1

abbrev pub currency_eur : Currency
currency_eur = pos 2

abbrev pub currency_rub : Currency
currency_rub = pos 3

abbrev pub currency_byn : Currency
currency_byn = pos 4

-- `Currency.IsValid`
unfoldable pub is_valid : Currency → Bool
is_valid c =
    eq_ℤ c currency_usd || eq_ℤ c currency_eur || eq_ℤ c currency_rub || eq_ℤ c currency_byn

pub record Account : Type 0 where
  pub id : Uuid
  pub balance : ℤ
  pub currency : Currency
  pub latest_posting_id : ℕ
  pub updated_at : Time

pub record Posting : Type 0 where
  pub id : ℕ
  pub transaction_id : Uuid
  pub account_id : Uuid
  pub amount : ℤ

pub record Transaction : Type 0 where
  pub id : Uuid
  pub from_account_id : Uuid
  pub to_account_id : Uuid
  pub currency : Currency
  pub amount : ℤ
  pub idempotency_key : Uuid
  pub created_at : Time

pub record TransactionRequest : Type 0 where
  pub idempotency_key : Uuid
  pub from_account_id : Uuid
  pub to_account_id : Uuid
  pub currency : Currency
  pub amount : ℤ

-- What a driver reports: the cancelled context, the Postgres conditions that the statements can
-- meet, and all else.
pub data DriverError : Type 0 where
  canceled unique_violation foreign_key_violation check_violation out_of_range : DriverError
  tx_closed tx_aborted : DriverError
  other : ℕ → DriverError

-- The sentinels of errors.go, a driver's error, and the errors that carry a text alone.
pub data Error : Type 0 where
  account_not_found transaction_not_found invalid_tx_type invalid_amount : Error
  same_account_transfer invalid_currency empty_idempotency_key invalid_uuid : Error
  insufficient_funds currency_mismatch idempotency_conflict idempotency_in_progress : Error
  driver : DriverError → Error
  random_failed missing_posting_id decode_failed empty_transaction_id worker_name_required : Error
