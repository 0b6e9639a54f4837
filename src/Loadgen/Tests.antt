-- ===== src/Loadgen/Tests.antt =====
-- A pool of two accounts.
use high_load_ledger.Prelude.{
  none, Option, arith, Option, ◌≢◌, ◌<◌, ℕ, ◌≡◌, refl, Bool, true, some, [], ◌∷◌,
}
use high_load_ledger.Prelude.Int.{◌+ℤ◌, ◌-ℤ◌, ◌≤ℤ◌, ℤ, pos}
use high_load_ledger.Loadgen.Pool.{
  put_accounts, accounts_of, set_nth, nth, set_balance_at, at_ref, add_at, sub_at, reserve_at,
  balance_of, reserve_valid, new_account_pool, AccountPool, add, ExistingAccount, ref_of,
}
use high_load_ledger.Loadgen.Index.{IsIndexed}
use high_load_ledger.Loadgen.Reserve.{reserve_valid_ok}
use high_load_ledger.Loadgen.Adding.{add-IsIndexed}
use high_load_ledger.Loadgen.Builder.{random_distinct_indexes}
use high_load_ledger.Loadgen.Draws.{random_distinct_indexes-ok}
use high_load_ledger.Prelude.Words.{to_int64, low_bits}

abbrev first_account : ExistingAccount
first_account = record { id = 11; currency = pos 1; balance = pos 100 }

abbrev second_account : ExistingAccount
second_account = record { id = 12; currency = pos 1; balance = pos 50 }

empty-IsIndexed : IsIndexed new_account_pool
unfolding ref_of
empty-IsIndexed = record { placed = λ id r f. absurd (cc f) }

unfoldable pub two : AccountPool
unfolding add
two = add second_account (add first_account new_account_pool)

pub two-IsIndexed : IsIndexed two
unfolding two
two-IsIndexed =
    add-IsIndexed second_account (add first_account new_account_pool)
      (add-IsIndexed first_account new_account_pool empty-IsIndexed)

unfoldable pub reserving : ℕ → Option (Bool × AccountPool)
unfolding two reserve_valid ref_of reserve_at sub_at add_at at_ref set_balance_at to_int64 low_bits
    ◌+ℤ◌ ◌-ℤ◌ nth set_nth accounts_of put_accounts
reserving amount = reserve_valid 11 12 (pos amount) two

unfoldable pub reserved : AccountPool
unfolding reserving
reserved = elim (reserving 30) as (λ _. AccountPool) [ none ↦ two | some o ↦ o.1 ]

pub reserved_30 : reserve_valid 11 12 (pos 30) two ≡ some (true, reserved)
unfolding reserving reserved
reserved_30 = refl

reserve_valid_ok_example :
    (x : ℤ) × (y : ℤ) × (balance_of 11 two ≡ some (x, true))
    × (balance_of 12 two ≡ some (y, true))
    × (pos 30 ≤ℤ x)
    × (balance_of 11 reserved ≡ some (to_int64 (x -ℤ pos 30), true))
    × (balance_of 12 reserved ≡ some (to_int64 (y +ℤ pos 30), true))
reserve_valid_ok_example =
    reserve_valid_ok 11 12 (pos 30) two reserved two-IsIndexed (λ e. ground (arith, e)) reserved_30

random_distinct_indexes-ok_example :
    let ij = (random_distinct_indexes (5 ∷ 9 ∷ []) 4).0 in (ij.0 < 4) × (ij.1 < 4) × (ij.0 ≢ ij.1)
random_distinct_indexes-ok_example = random_distinct_indexes-ok (5 ∷ 9 ∷ []) 4 (omega arith)
