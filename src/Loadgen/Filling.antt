-- ===== src/Loadgen/Filling.antt =====
-- The accounts of one currency go into the pool.
use mathlib.Core.List.{append_assoc, append-nil}
use high_load_ledger.Prelude.{
  All, All, ◌++◌, ℕ, zero, suc, ◌+◌, ◌≡◌, sym, ap, subst, ◌∙◌, Bool, true, false, some, List, [],
  ◌∷◌, length, ◌==◌, if◌then◌else◌, inl, inr, Bool-cases, Option-cases, arith, length-append,
}
use high_load_ledger.Prelude.Int.{negsuc, eq_of_eq_ℤ, ℤ, pos, eq_ℤ}
use high_load_ledger.Entity.{Currency}
use high_load_ledger.Wire.{UuidLib}
use high_load_ledger.Loadgen.Pool.{
  AccountPool, ExistingAccount, add, total, total_of, accounts_of, put_accounts,
}
use high_load_ledger.Loadgen.Index.{accounts_of-put_ne, accounts_of-put_self, IsIndexed}
use high_load_ledger.Loadgen.Adding.{add-IsIndexed}
use high_load_ledger.Loadgen.Calls.{Opener, open_one, open_all, create_accounts}
use high_load_ledger.Loadgen.Jobs.{add_all}

-- An account that was made has the currency that was asked for.
open_one-currency :
    (lib : UuidLib) (opener : Opener) (c : Currency) (n : ℕ) (acc : ExistingAccount)
    → open_one lib opener c n ≡ some acc
    → acc.currency ≡ c
unfolding open_one
open_one-currency lib opener c n acc h = ground (arith, h)

open_all-currency :
    (lib : UuidLib) (opener : Opener) (c : Currency) (n amount : ℕ)
    → All (λ acc. acc.currency ≡ c) (open_all lib opener c n amount).0
unfolding open_all
open_all-currency lib opener c n zero = tt
open_all-currency lib opener c n (suc amount) = elim (Option-cases (open_one lib opener c n)) [
  | inl failed ↦ rw (failed, open_all) (open_all-currency lib opener c (suc n) amount)
  | inr (acc, one) ↦
      rw (one, open_all)
        (open_one-currency lib opener c n acc one, open_all-currency lib opener c (suc n) amount)
]

pub created-currency :
    (lib : UuidLib) (opener : Opener) (workers : ℕ) (c : Currency) (amount max_error_pct : ℤ)
    → All (λ acc. acc.currency ≡ c) (create_accounts lib opener workers c amount max_error_pct).0
unfolding create_accounts
created-currency lib opener workers c (negsuc _) max_error_pct = tt
created-currency lib opener workers c (pos amount) max_error_pct = elim (Bool-cases (amount == 0)) [
  | inl nothing ↦ rw nothing tt
  | inr some_amount ↦ rw some_amount (open_all-currency lib opener c 0 _)
]

-- What the pool holds of a currency after an account has been added.
accounts_of-add :
    (x : Currency) (acc : ExistingAccount) (p : AccountPool)
    → accounts_of x (add acc p).accounts
      ≡ accounts_of x p.accounts ++ (if eq_ℤ acc.currency x then acc ∷ [] else [])
unfolding add
accounts_of-add x acc p =
    let held = accounts_of acc.currency p.accounts in
    elim (Bool-cases (eq_ℤ acc.currency x)) [
      | inl same ↦
          let e = eq_of_eq_ℤ acc.currency x same in
          rw same (
            subst
              (λ d.
                accounts_of d (put_accounts acc.currency (held ++ (acc ∷ [])) p.accounts)
                ≡ accounts_of d p.accounts ++ (acc ∷ []))
              e (accounts_of-put_self acc.currency (held ++ (acc ∷ [])) p.accounts))
      | inr differs ↦ rw differs (
          accounts_of-put_ne acc.currency x (held ++ (acc ∷ [])) p.accounts differs
          ∙ sym (append-nil (accounts_of x p.accounts)))
    ]

if_append :
    (b : Bool) (acc : ExistingAccount) (accs l : List ExistingAccount)
    → (l ++ (if b then acc ∷ [] else [])) ++ (if b then accs else [])
      ≡ l ++ (if b then acc ∷ accs else [])
if_append true acc accs l = append_assoc l (acc ∷ []) accs
if_append false acc accs l = append-nil (l ++ [])

pub accounts_of-add_all :
    (x c : Currency) (accs : List ExistingAccount) (p : AccountPool)
    → All (λ acc. acc.currency ≡ c) accs
    → accounts_of x (add_all accs p).accounts
      ≡ accounts_of x p.accounts ++ (if eq_ℤ c x then accs else [])
unfolding add_all
accounts_of-add_all x c [] p all = by_currency (eq_ℤ c x)
  where
    by_currency :
        (b : Bool) → accounts_of x p.accounts ≡ accounts_of x p.accounts ++ (if b then [] else [])
    by_currency true = sym (append-nil (accounts_of x p.accounts))
    by_currency false = sym (append-nil (accounts_of x p.accounts))
accounts_of-add_all x c (acc ∷ accs) p (here, all) =
    accounts_of-add_all x c accs (add acc p) all
    ∙ ap (λ l. l ++ (if eq_ℤ c x then accs else []))
        (accounts_of-add x acc p
          ∙ ap (λ d. accounts_of x p.accounts ++ (if eq_ℤ d x then acc ∷ [] else [])) here)
    ∙ if_append (eq_ℤ c x) acc accs (accounts_of x p.accounts)

-- A list in the place of that of one currency.
total_of-put :
    (c : Currency) (held : List ExistingAccount) (m : List (Currency × List ExistingAccount))
    → total_of (put_accounts c held m) + length (accounts_of c m) ≡ length held + total_of m
unfolding total_of put_accounts accounts_of
total_of-put c held [] = omega arith
total_of-put c held ((d, bs) ∷ m) = elim (Bool-cases (eq_ℤ d c)) [
  | inl e ↦ rw e (omega arith)
  | inr e ↦ rw e (omega (arith, total_of-put c held m))
]

total-add : (acc : ExistingAccount) (p : AccountPool) → total (add acc p) ≡ suc (total p)
unfolding total add
total-add acc p =
    let held = accounts_of acc.currency p.accounts in
    omega (
      arith,
      total_of-put acc.currency (held ++ (acc ∷ [])) p.accounts,
      length-append held (acc ∷ []),
    )

pub add_all-grows :
    (accs : List ExistingAccount) (p : AccountPool)
    → IsIndexed p
    → IsIndexed (add_all accs p) × (total (add_all accs p) ≡ length accs + total p)
unfolding add_all
add_all-grows [] p ix = (ix, omega arith)
add_all-grows (acc ∷ accs) p ix =
    let (i, e) = add_all-grows accs (add acc p) (add-IsIndexed acc p ix) in
    (i, omega (arith, e, total-add acc p))
