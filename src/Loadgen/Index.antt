-- ===== src/Loadgen/Index.antt =====
-- The index of the pool points to the accounts, through every operation.
use high_load_ledger.Prelude.{
  eq_of_==, eq_of_some, if◌then◌else◌, ◌==◌, ℕ, zero, suc, false, ◌≡◌, ◌≢◌, refl, sym, ap, subst,
  ◌∙◌, some, List, [], ◌∷◌, ◌++◌, length, arith, inl, inr, Bool-cases,
}
use high_load_ledger.Prelude.Int.{eq_of_eq_ℤ, eq_ℤ_self, ℤ, eq_ℤ}
use high_load_ledger.Entity.{Uuid, Currency}
use high_load_ledger.Loadgen.Pool.{
  set_balance_at, at_ref, set_nth, ref_of, put_accounts, nth, ExistingAccount, AccountPool,
  accounts_of, AccountRef,
}

-- Each indexed id stands where the index says.
pub record IsIndexed (p : AccountPool) : Type 0 where
  pub placed :
      (id : Uuid) (r : AccountRef)
      → ref_of id p.index ≡ some r
      → (acc : ExistingAccount) × (at_ref r p ≡ some acc) × (acc.id ≡ id)

abbrev Accounts : Type 0
Accounts = List (Currency × List ExistingAccount)

pub accounts_of-put_self :
    (c : Currency) (held : List ExistingAccount) (m : Accounts)
    → accounts_of c (put_accounts c held m) ≡ held
unfolding accounts_of put_accounts
accounts_of-put_self c held [] = rw (eq_ℤ_self c) refl
accounts_of-put_self c held ((d, bs) ∷ m) = elim (Bool-cases (eq_ℤ d c)) [
  | inl e ↦ rw (e, e) refl
  | inr e ↦ rw (e, e) (accounts_of-put_self c held m)
]

pub accounts_of-put_ne :
    (c x : Currency) (held : List ExistingAccount) (m : Accounts)
    → eq_ℤ c x ≡ false
    → accounts_of x (put_accounts c held m) ≡ accounts_of x m
unfolding accounts_of put_accounts
accounts_of-put_ne c x held [] ne = rw ne refl
accounts_of-put_ne c x held ((d, bs) ∷ m) ne = elim (Bool-cases (eq_ℤ d c)) [
  | inl e ↦ rw (e, eq_of_eq_ℤ d c e, ne) refl
  | inr e ↦ rw e (ap (λ z. if eq_ℤ d x then bs else z) (accounts_of-put_ne c x held m ne))
]

module _ {A : Type 0} where
  nth-set_self : (n : ℕ) (a x : A) (l : List A) → nth n l ≡ some x → nth n (set_nth n a l) ≡ some a
  unfolding nth set_nth
  nth-set_self zero a x [] h = cc
  nth-set_self (suc n) a x [] h = cc
  nth-set_self zero a x (y ∷ l) h = refl
  nth-set_self (suc n) a x (y ∷ l) h = nth-set_self n a x l h

  nth-set_ne : (n m : ℕ) (a : A) (l : List A) → (n == m) ≡ false → nth m (set_nth n a l) ≡ nth m l
  unfolding nth set_nth
  nth-set_ne n m a [] ne = refl
  nth-set_ne zero zero a (y ∷ l) ne = absurd (ground (arith, ne))
  nth-set_ne zero (suc m) a (y ∷ l) ne = refl
  nth-set_ne (suc n) zero a (y ∷ l) ne = refl
  nth-set_ne (suc n) (suc m) a (y ∷ l) ne = nth-set_ne n m a l (ground (arith, ne))

  pub nth-append : (n : ℕ) (x : A) (l ys : List A) → nth n l ≡ some x → nth n (l ++ ys) ≡ some x
  unfolding nth
  nth-append zero x [] ys h = absurd (cc h)
  nth-append (suc n) x [] ys h = absurd (cc h)
  nth-append zero x (y ∷ l) ys h = h
  nth-append (suc n) x (y ∷ l) ys h = nth-append n x l ys h

  pub nth-last : (x : A) (l : List A) → nth (length l) (l ++ (x ∷ [])) ≡ some x
  unfolding nth
  nth-last x [] = refl
  nth-last x (y ∷ l) = nth-last x l

-- A balance is written: what is read at any place afterwards.
module _ (r : AccountRef) (acc : ExistingAccount) (balance : ℤ) (p : AccountPool)
    (there : at_ref r p ≡ some acc) where
  pub set_self : at_ref r (set_balance_at r acc balance p) ≡ some (record acc { balance = balance })
  unfolding at_ref set_balance_at
  set_self =
      ap (nth r.idx) (accounts_of-put_self r.currency _ p.accounts)
      ∙ nth-set_self r.idx (record acc { balance = balance }) acc
          (accounts_of r.currency p.accounts) there

  moved : {x : AccountRef} → r.currency ≡ x.currency → r.idx ≡ x.idx → at_ref x p ≡ some acc
  unfolding at_ref
  moved {x} c i =
      subst (λ d. nth x.idx (accounts_of d p.accounts) ≡ some acc) c
        (subst (λ k. nth k (accounts_of r.currency p.accounts) ≡ some acc) i there)

  apart_other :
      (x : AccountRef) (b : ExistingAccount)
      → at_ref x p ≡ some b
      → r.currency ≡ x.currency
      → (r.idx == x.idx) ≡ false
      → at_ref x (set_balance_at r acc balance p) ≡ some b
  unfolding at_ref set_balance_at
  apart_other x b h c apart =
      let held =
        set_nth r.idx (record acc { balance = balance }) (accounts_of r.currency p.accounts) in
      let before = subst (λ d. nth x.idx (accounts_of d p.accounts) ≡ some b) (sym c) h in
      subst (λ d. nth x.idx (accounts_of d (put_accounts r.currency held p.accounts)) ≡ some b) c
        (ap (nth x.idx) (accounts_of-put_self r.currency held p.accounts)
          ∙ nth-set_ne r.idx x.idx (record acc { balance = balance })
              (accounts_of r.currency p.accounts) apart
          ∙ before)

  pub set_other :
      (x : AccountRef) (b : ExistingAccount)
      → b.id ≢ acc.id
      → at_ref x p ≡ some b
      → at_ref x (set_balance_at r acc balance p) ≡ some b
  unfolding at_ref set_balance_at
  set_other x b ne h = elim (Bool-cases (eq_ℤ r.currency x.currency)) [
    | inr differs ↦
        ap (nth x.idx) (accounts_of-put_ne r.currency x.currency _ p.accounts differs) ∙ h
    | inl same ↦ elim (Bool-cases (r.idx == x.idx)) [
      | inl place ↦ absurd (
          ne (
            ap (λ a. a.id)
              (sym
                (eq_of_some acc b (sym (moved (eq_of_eq_ℤ _ _ same) (eq_of_== _ _ place)) ∙ h)))))
      | inr apart ↦ apart_other x b h (eq_of_eq_ℤ _ _ same) apart
    ]
  ]

  -- What stood at any place stands there with the same id.
  pub set_kept :
      (x : AccountRef) (b : ExistingAccount)
      → at_ref x p ≡ some b
      → (c : ExistingAccount) × (at_ref x (set_balance_at r acc balance p) ≡ some c) × (c.id ≡ b.id)
  unfolding at_ref set_balance_at
  set_kept x b h = elim (Bool-cases (eq_ℤ r.currency x.currency)) [
    | inr differs ↦ (
      b,
      ap (nth x.idx) (accounts_of-put_ne r.currency x.currency _ p.accounts differs) ∙ h,
      refl,
    )
    | inl same ↦ elim (Bool-cases (r.idx == x.idx)) [
      | inr apart ↦ (b, apart_other x b h (eq_of_eq_ℤ _ _ same) apart, refl)
      | inl place ↦
          let c = eq_of_eq_ℤ r.currency x.currency same in
          let i = eq_of_== r.idx x.idx place in
          (
            record acc { balance = balance },
            subst
                (λ d.
                  at_ref (record { currency = d; idx = x.idx }) (set_balance_at r acc balance p)
                  ≡ some (record acc { balance = balance }))
                c
                (subst
                  (λ k.
                    at_ref (record { currency = r.currency; idx = k })
                      (set_balance_at r acc balance p)
                    ≡ some (record acc { balance = balance }))
                  i set_self),
            ap (λ a. a.id) (eq_of_some acc b (sym (moved c i) ∙ h)),
          )
    ]
  ]

  pub set-IsIndexed : IsIndexed p → IsIndexed (set_balance_at r acc balance p)
  unfolding set_balance_at
  set-IsIndexed ix = record {
    placed = λ id x f.
        let (b, h, e) = ix.placed id x f in let (c, g, d) = set_kept x b h in (c, g, d ∙ e);
  }
