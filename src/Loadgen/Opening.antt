-- ===== src/Loadgen/Opening.antt =====
-- How many accounts the load generator starts with.
use high_load_ledger.Prelude.{
  ◌/◌, ltb, ◌⊎◌, ◌^◌, ◌<◌, ◌*◌, ◌++◌, ℕ, zero, suc, ◌+◌, ◌-◌, ◌≤◌, ◌≡◌, refl, sym, ap, ◌∙◌, true,
  false, List, [], ◌∷◌, length, leb, ◌==◌, if◌then◌else◌, inl, inr, Bool-cases, Option-cases, arith,
}
use high_load_ledger.Prelude.Int.{ℤ, pos, eq_ℤ}
use high_load_ledger.Entity.{Currency}
use high_load_ledger.Wire.{UuidLib}
use high_load_ledger.Loadgen.Pool.{AccountPool, ExistingAccount, total, accounts_of}
use high_load_ledger.Loadgen.Index.{IsIndexed}
use high_load_ledger.Loadgen.Calls.{
  Opener, open_one, open_all, max_errors, at_least_one, create_accounts,
}
use high_load_ledger.Loadgen.Jobs.{per_currency_of}
use high_load_ledger.Prelude.Words.{to_int64}
use high_load_ledger.Prelude.Wrap.{to_int64_fits}

module _ (lib : UuidLib) (opener : Opener) (curr : Currency) where
  -- Each job leaves an account or an error.
  each_job :
      (n amount : ℕ)
      → length (open_all lib opener curr n amount).0 + (open_all lib opener curr n amount).1
        ≡ amount
  unfolding open_all
  each_job n zero = refl
  each_job n (suc amount) = elim (Option-cases (open_one lib opener curr n)) [
    | inl failed ↦ rw (failed, open_all) (omega (arith, each_job (suc n) amount))
    | inr (acc, made) ↦ rw (made, open_all) (omega (arith, each_job (suc n) amount))
  ]

  few_missing :
      (l e n p : ℕ)
      → n * p < 2 ^ 63
      → l + e ≡ n
      → leb e (max_errors n (pos p)) ≡ true
      → (n ≤ l + 1) ⊎ ((n - l) * 100 ≤ n * p)
  unfolding max_errors
  few_missing l e n p small h k =
      let fits : to_int64 (pos (n * p)) ≡ pos (n * p) =
        to_int64_fits (pos (n * p)) (ground (arith, small)) in
      let allowed : leb e (if ltb (n * p / 100) 1 then 1 else n * p / 100) ≡ true =
        sym (ap (λ x. leb e (at_least_one x)) fits) ∙ k in
      elim (Bool-cases (ltb (n * p / 100) 1)) [
        | inl under_one ↦ inl (ground (arith, h, allowed, under_one))
        | inr over ↦ inr (ground (arith, h, allowed, over))
      ]

  no_amount :
      (workers n : ℕ) (max_error_pct : ℤ)
      → (n == 0) ≡ true
      → create_accounts lib opener workers curr (pos n) max_error_pct ≡ ([], true)
  unfolding create_accounts
  no_amount workers n max_error_pct h = rw (h, create_accounts) refl

  all_done :
      (workers n : ℕ) (max_error_pct : ℤ)
      → (n == 0) ≡ false
      → (workers == 0) ≡ false
      → create_accounts lib opener workers curr (pos n) max_error_pct ≡ (
        (open_all lib opener curr 0 n).0,
        leb (open_all lib opener curr 0 n).1 (max_errors n max_error_pct),
      )
  unfolding create_accounts
  all_done workers n max_error_pct h k = rw (h, k, create_accounts) refl

  -- If at least one worker makes accounts, of which there are to be n, with p percent of errors
  -- allowed, and no error is returned, then at most n have been made, and one is missing at most, or
  -- not more than p percent of n are; if an int64 holds n times p.
  pub create_accounts_ok :
      (workers n p : ℕ) (created : List ExistingAccount)
      → 1 ≤ workers
      → n * p < 2 ^ 63
      → create_accounts lib opener workers curr (pos n) (pos p) ≡ (created, true)
      → (length created ≤ n) × ((n ≤ length created + 1) ⊎ ((n - length created) * 100 ≤ n * p))
  create_accounts_ok workers n p created busy small h = elim (Bool-cases (n == 0)) [
    | inl nothing ↦
        let e = sym (no_amount workers n (pos p) nothing) ∙ h in
        let l = ap (λ o. length o.0) e in (omega (arith, l), inl (ground (arith, nothing)))
    | inr some_n ↦
        let e = sym (all_done workers n (pos p) some_n (ground (arith, busy))) ∙ h in
        let l = ap (λ o. length o.0) e in
        let few = ap (λ o. o.1) e in
        let all = each_job 0 n in
        (
          omega (arith, all, l),
          few_missing (length created) (open_all lib opener curr 0 n).1 n p small
              (omega (arith, all, l)) few,
        )
  ]

module _ (lib : UuidLib) (opener : Currency → Opener) (workers : ℕ)
    (per_currency max_error_pct : ℤ) where
  -- The accounts that `CreateAccounts` returns for the currencies, with an error or without.
  abbrev pub opened : List Currency → ℕ
  opened [] = 0
  opened (c ∷ cs) =
      length (create_accounts lib (opener c) workers c per_currency max_error_pct).0 + opened cs

  -- Those that are made for one currency.
  abbrev pub made : Currency → List Currency → List ExistingAccount
  made x [] = []
  made x (c ∷ cs) =
      (if eq_ℤ c x
        then (create_accounts lib (opener c) workers c per_currency max_error_pct).0
        else [])
      ++ made x cs

module _ (lib : UuidLib) (opener : Currency → Opener) (workers users : ℕ) (max_error_pct : ℤ) where
  -- The pool of a bootstrap on these currencies.
  pub record IsOpened (cs : List Currency) (p : AccountPool) : Type 0 where
    pub indexed : IsIndexed p
    pub counted :
        total p ≡ opened lib opener workers (per_currency_of lib users (length cs)) max_error_pct cs
    pub some_account : 1 ≤ total p
    pub held :
        (x : Currency)
        → accounts_of x p.accounts
          ≡ made lib opener workers (per_currency_of lib users (length cs)) max_error_pct x cs
