-- ===== src/Redis/Cache.antt =====
-- The methods of `CacheRepo`: Balance.go, Currency.go and Transaction.go.
use high_load_ledger.Prelude.{Option, none, some}
use high_load_ledger.Prelude.Int.{ℤ, pos}
use high_load_ledger.Prelude.Words.{to_int16}
use high_load_ledger.Entity.{Uuid, Currency, currency_unspecified, Transaction, decode_failed}
use high_load_ledger.Result.{Result, ok, err}
use high_load_ledger.World.{
  Env, M, ◌>>=◌, lift, balance_key, currency_key, transaction_key, CacheValue, decimal, json,
  unreadable,
}
use high_load_ledger.Redis.Client.{redis_get, redis_set, redis_del}

-- `.Int64()` of the reply; no entry is 0
abbrev pub as_balance : Option CacheValue → Result ℤ
as_balance none = ok (pos 0)
as_balance (some (decimal n)) = ok n
as_balance (some (json t)) = err decode_failed
as_balance (some unreadable) = err decode_failed

-- No entry, and a text that `strconv.Atoi` refuses, count as a miss.
abbrev pub as_currency : Option CacheValue → Currency
as_currency none = currency_unspecified
as_currency (some (decimal n)) = to_int16 n
as_currency (some (json t)) = currency_unspecified
as_currency (some unreadable) = currency_unspecified

-- `json.Unmarshal`
abbrev pub as_transaction : Option CacheValue → Result (Option Transaction)
as_transaction none = ok none
as_transaction (some (json t)) = ok (some t)
as_transaction (some (decimal n)) = err decode_failed
as_transaction (some unreadable) = err decode_failed

module _ (env : Env) where
  unfoldable pub set_balance : Uuid → ℤ → M (Unit {0})
  set_balance id amount = redis_set env (balance_key id) (decimal amount)

  unfoldable pub get_balance : Uuid → M ℤ
  get_balance id = do found ← redis_get env (balance_key id); lift (as_balance found)

  unfoldable pub delete_balance : Uuid → M (Unit {0})
  delete_balance id = redis_del env (balance_key id)

  unfoldable pub set_account_currency : Uuid → Currency → M (Unit {0})
  set_account_currency id c = redis_set env (currency_key id) (decimal c)

  unfoldable pub get_account_currency : Uuid → M Currency
  get_account_currency id = do
    found ← redis_get env (currency_key id)
    lift (ok (as_currency found))

  unfoldable pub set_transaction : Transaction → M (Unit {0})
  set_transaction tx = redis_set env (transaction_key tx.id) (json tx)

  unfoldable pub get_transaction : Uuid → M (Option Transaction)
  get_transaction id = do found ← redis_get env (transaction_key id); lift (as_transaction found)
