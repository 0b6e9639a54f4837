-- ===== src/Loadgen/Pool.antt =====
-- `AccountPool`: the accounts of each currency, and where each id stands. An index out of range,
-- which panics, is none.
use high_load_ledger.Prelude.{
  ℕ, zero, suc, ◌+◌, Bool, true, false, Option, none, some, List, [], ◌∷◌, ◌++◌, length, leb, ◌==◌,
  if◌then◌else◌,
}
use high_load_ledger.Prelude.Int.{ℤ, pos, ◌+ℤ◌, ◌-ℤ◌, ltb_ℤ, eq_ℤ}
use high_load_ledger.Prelude.Words.{to_int64}
use high_load_ledger.Entity.{Uuid, Currency}

pub record ExistingAccount : Type 0 where
  pub id : Uuid
  pub currency : Currency
  pub balance : ℤ

pub record AccountRef : Type 0 where
  pub currency : Currency
  pub idx : ℕ

pub record AccountPool : Type 0 where
  pub accounts : List (Currency × List ExistingAccount)
  pub index : List (Uuid × AccountRef)

-- `NewAccountPool`
abbrev pub new_account_pool : AccountPool
new_account_pool = record { accounts = []; index = [] }

-- `accounts[c]`, the empty list for a missing key
unfoldable pub accounts_of :
    Currency → List (Currency × List ExistingAccount) → List ExistingAccount
accounts_of c [] = []
accounts_of c ((d, held) ∷ rest) = if eq_ℤ d c then held else accounts_of c rest

unfoldable pub put_accounts :
    Currency
    → List ExistingAccount
    → List (Currency × List ExistingAccount)
    → List (Currency × List ExistingAccount)
put_accounts c held [] = (c, held) ∷ []
put_accounts c held ((d, bs) ∷ rest) =
    if eq_ℤ d c then (d, held) ∷ rest else (d, bs) ∷ put_accounts c held rest

unfoldable pub ref_of : Uuid → List (Uuid × AccountRef) → Option AccountRef
ref_of id [] = none
ref_of id ((k, r) ∷ rest) = if k == id then some r else ref_of id rest

unfoldable pub nth : {A : Type 0} → ℕ → List A → Option A
nth n [] = none
nth zero (x ∷ xs) = some x
nth (suc n) (x ∷ xs) = nth n xs

unfoldable pub set_nth : {A : Type 0} → ℕ → A → List A → List A
set_nth n a [] = []
set_nth zero a (x ∷ xs) = a ∷ xs
set_nth (suc n) a (x ∷ xs) = x ∷ set_nth n a xs

-- `Add`
unfoldable pub add : ExistingAccount → AccountPool → AccountPool
unfolding accounts_of put_accounts
add acc p =
    let list = accounts_of acc.currency p.accounts in
    record {
      accounts = put_accounts acc.currency (list ++ (acc ∷ [])) p.accounts;
      index = (acc.id, record { currency = acc.currency; idx = length list }) ∷ p.index;
    }

-- `Total`
unfoldable pub total_of : List (Currency × List ExistingAccount) → ℕ
total_of [] = 0
total_of ((c, held) ∷ rest) = length held + total_of rest

unfoldable pub total : AccountPool → ℕ
unfolding total_of
total p = total_of p.accounts

-- `CurrenciesWithMinAccounts`; `CurrenciesWithAccounts` is the same with 1
unfoldable pub currencies_with : ℕ → List (Currency × List ExistingAccount) → List Currency
currencies_with min [] = []
currencies_with min ((c, held) ∷ rest) =
    let others = currencies_with min rest in if leb min (length held) then c ∷ others else others

-- `p.accounts[ref.currency][ref.idx]`
unfoldable pub at_ref : AccountRef → AccountPool → Option ExistingAccount
unfolding accounts_of nth
at_ref r p = nth r.idx (accounts_of r.currency p.accounts)

-- An account that has been read at a place is written back with another balance.
unfoldable pub set_balance_at : AccountRef → ExistingAccount → ℤ → AccountPool → AccountPool
unfolding accounts_of put_accounts set_nth
set_balance_at r acc balance p = record p {
  accounts =
      put_accounts r.currency
        (set_nth r.idx (record acc { balance = balance }) (accounts_of r.currency p.accounts))
        p.accounts;
}

-- `p.accounts[ref.currency][ref.idx].Balance += amount`
unfoldable pub add_at : AccountRef → ℤ → AccountPool → Option AccountPool
add_at r amount p = elim (at_ref r p) as (λ _. Option AccountPool) [
  | none ↦ none
  | some acc ↦ some (set_balance_at r acc (to_int64 (acc.balance +ℤ amount)) p)
]

unfoldable pub sub_at : AccountRef → ℤ → AccountPool → Option AccountPool
sub_at r amount p = elim (at_ref r p) as (λ _. Option AccountPool) [
  | none ↦ none
  | some acc ↦ some (set_balance_at r acc (to_int64 (acc.balance -ℤ amount)) p)
]

abbrev pub then_pool : {A : Type 0} → Option AccountPool → (AccountPool → Option A) → Option A
then_pool none f = none
then_pool (some p) f = f p

-- The two places are read through pointers, which may be the same.
unfoldable pub reserve_at : AccountRef → AccountRef → ℤ → AccountPool → Option (Bool × AccountPool)
reserve_at from_ref to_ref amount p =
    elim (at_ref from_ref p) as (λ _. Option (Bool × AccountPool)) [
      | none ↦ none
      | some acc ↦ elim (at_ref to_ref p) as (λ _. Option (Bool × AccountPool)) [
        | none ↦ none
        | some _ ↦
            if ltb_ℤ acc.balance amount
            then some (false, p)
            else then_pool (sub_at from_ref amount p)
                (λ q. then_pool (add_at to_ref amount q) (λ v. some (true, v)))
      ]
    ]

-- `ReserveValid`
unfoldable pub reserve_valid : Uuid → Uuid → ℤ → AccountPool → Option (Bool × AccountPool)
reserve_valid from_id to_id amount p =
    elim (ref_of from_id p.index) as (λ _. Option (Bool × AccountPool)) [
      | none ↦ some (false, p)
      | some from_ref ↦ elim (ref_of to_id p.index) as (λ _. Option (Bool × AccountPool)) [
        | none ↦ some (false, p)
        | some to_ref ↦ reserve_at from_ref to_ref amount p
      ]
    ]

-- `if ref, ok := p.index[id]; ok { … }`
abbrev pub if_indexed :
    Option AccountRef
    → (AccountRef → AccountPool → Option AccountPool)
    → AccountPool
    → Option AccountPool
if_indexed none f p = some p
if_indexed (some r) f p = f r p

-- `RollbackValid`
unfoldable pub rollback_valid : Uuid → Uuid → ℤ → AccountPool → Option AccountPool
rollback_valid from_id to_id amount p =
    then_pool (if_indexed (ref_of from_id p.index) (λ r. add_at r amount) p)
      (λ q. if_indexed (ref_of to_id q.index) (λ r. sub_at r amount) q)

-- `BalanceOf`: the balance and whether there is one
unfoldable pub balance_of : Uuid → AccountPool → Option (ℤ × Bool)
balance_of id p = elim (ref_of id p.index) as (λ _. Option (ℤ × Bool)) [
  | none ↦ some (pos 0, false)
  | some r ↦ elim (at_ref r p) as (λ _. Option (ℤ × Bool)) [
    | none ↦ none
    | some acc ↦ some (acc.balance, true)
  ]
]
