-- ===== src/Samples.antt =====
-- Sample environments and tables for the tests.
use high_load_ledger.Prelude.{false, Option, List, arith, ℕ, ◌+◌, refl, some, none, [], ◌∷◌}
use high_load_ledger.Prelude.Int.{◌-ℤ◌, ◌+ℤ◌, pos}
use high_load_ledger.Entity.{Transaction, Uuid, Account, Posting}
use high_load_ledger.World.{tick, now, new_v7, Env, Fault, fine, World, closed, IsQuiet, NeverLoses}
use high_load_ledger.Store.Rows.{
  put_account, has_transaction, has_posting, has_key, has_account, find_transaction, latest_posting,
  postings_sum, find_account,
}
use high_load_ledger.World.Rely.{Respects}
use high_load_ledger.Redis.{
  redis_set, cache_set, cache_get, set_account_currency, redis_get, get_account_currency,
}
use high_load_ledger.Store.{Tables}
use high_load_ledger.Postgres.{
  create_account, or_rollback, rollback_tx, posting_ids, number_postings, lookup_id, debit_balance,
  credit_balance, create_postings, commit_tx, rollback, in_tx, commit, as_conflict, cast_tx,
  create_transaction, begin, begin_tx, currencies_of, lookup_currency, on_pool, get_currencies,
}
use high_load_ledger.Store.Ledger.{IsConsistent}
use high_load_ledger.Prelude.Words.{to_int16, low_bits}
use high_load_ledger.Store.Statements.{
  update_account, insert_transaction, insert_postings, insert_posting, greatest, debit, credit,
}
use high_load_ledger.Wire.{IsFaithful, UuidLib}
use high_load_ledger.World.Sure.{IsReliable}

abbrev pub env_with : (ℕ → Fault) → Env
env_with f = record {
  fault = f;
  others = λ _ t. t;
  nextval = λ n k. 100 + n + k;
  new_v7 = λ n. some (1000 + n);
  now = λ n. n;
  intn = λ n bound. 7;
  context_error = λ _. none;
  expired = λ _ _. false;
}

-- Every call works.
abbrev pub calm : Env
calm = env_with λ _. fine

abbrev pub account_row : Uuid → ℕ → ℕ → Account
account_row id balance latest = record {
  id = id;
  balance = pos balance;
  currency = pos 1;
  latest_posting_id = latest;
  updated_at = 0;
}

abbrev opening : ℕ → Uuid → ℕ → Posting
opening id account amount = record {
  id = id;
  transaction_id = 0;
  account_id = account;
  amount = pos amount;
}

abbrev pub two_accounts : Tables
two_accounts = record {
  accounts = account_row 11 100 1 ∷ account_row 12 50 2 ∷ [];
  transactions = [];
  postings = opening 2 12 50 ∷ opening 1 11 100 ∷ [];
  cursors = [];
}

abbrev pub first_world : World
first_world = record {
  db = two_accounts;
  session = closed;
  cache = [];
  published = [];
  transfers = [];
  corrections = 0;
  clock = 0;
}

-- What a run of the repositories computes with.
unfoldable pub machinery : Unit {0}
unfolding get_account_currency redis_get get_currencies on_pool lookup_currency currencies_of
    find_account begin_tx begin new_v7 now create_transaction cast_tx as_conflict commit in_tx
    rollback commit_tx create_postings credit_balance debit_balance lookup_id number_postings
    posting_ids rollback_tx ◌+ℤ◌ ◌-ℤ◌ low_bits to_int16 set_account_currency cache_get cache_set
    redis_set find_transaction has_account has_key has_posting has_transaction put_account credit
    debit greatest insert_posting insert_postings insert_transaction update_account or_rollback tick
    create_account
machinery = tt

pub calm-IsQuiet : IsQuiet calm
calm-IsQuiet = record { alone = λ _ _. refl }

pub calm-NeverLoses : NeverLoses calm
calm-NeverLoses = record { answered = λ _ e h. cc }

pub calm-IsReliable : IsReliable calm
calm-IsReliable = record {
  works = λ n. refl;
  quiet = calm-IsQuiet;
  makes_id = λ n. (1000 + n, refl);
}

pub two_accounts-IsConsistent : IsConsistent two_accounts
unfolding find_account postings_sum latest_posting ◌+ℤ◌
two_accounts-IsConsistent = record {
  balanced = λ id row f. ground arith;
  recorded = λ id row f. ground arith;
  not_negative = λ id row f. ground arith;
  unposted = λ id f. (ground arith, ground arith);
}

pub calm-Respects : (f : ℕ → Fault) → Respects (env_with f)
calm-Respects f = record { keeps = λ _ _ _ _ l. l }

abbrev pub sample_transaction : Transaction
sample_transaction = record {
  id = 900;
  from_account_id = 12;
  to_account_id = 11;
  currency = pos 1;
  amount = pos 5;
  idempotency_key = 41;
  created_at = 3;
}

abbrev pub head : List ℕ → Option ℕ
head [] = none
head (x ∷ xs) = some x

-- Ids as one number.
abbrev pub sample_lib : UuidLib
sample_lib = record {
  from_bytes = head;
  bytes = λ id. id ∷ [];
  to_string = λ id. id ∷ [];
  parse = head;
}

pub sample_lib-IsFaithful : IsFaithful sample_lib
sample_lib-IsFaithful = record { of_bytes = λ _. refl; of_string = λ _. refl }
