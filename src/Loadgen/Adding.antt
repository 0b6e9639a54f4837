-- ===== src/Loadgen/Adding.antt =====
-- What adding an account does to the index.
use high_load_ledger.Prelude.{
  eq_of_==, eq_of_some, true, false, ◌≡◌, refl, sym, ap, subst, ◌∙◌, some, [], ◌∷◌, ◌++◌, length,
  inl, inr, Bool-cases, ◌==◌,
}
use high_load_ledger.Prelude.Int.{eq_of_eq_ℤ, eq_ℤ}
use high_load_ledger.Entity.{Uuid}
use high_load_ledger.Loadgen.Pool.{
  put_accounts, accounts_of, nth, add, ref_of, at_ref, AccountRef, AccountPool, ExistingAccount,
}
use high_load_ledger.Loadgen.Index.{
  nth-append, nth-last, accounts_of-put_self, accounts_of-put_ne, IsIndexed,
}

-- Adding an account keeps the index right.
module _ (acc : ExistingAccount) (p : AccountPool) where
  added_new :
      at_ref
        (record { currency = acc.currency; idx = length (accounts_of acc.currency p.accounts) })
        (add acc p)
      ≡ some acc
  unfolding at_ref add
  added_new =
      ap (nth (length (accounts_of acc.currency p.accounts)))
        (accounts_of-put_self acc.currency _ p.accounts)
      ∙ nth-last acc (accounts_of acc.currency p.accounts)

  added_old :
      (r : AccountRef) (b : ExistingAccount) → at_ref r p ≡ some b → at_ref r (add acc p) ≡ some b
  unfolding at_ref add
  added_old r b h = elim (Bool-cases (eq_ℤ acc.currency r.currency)) [
    | inr differs ↦
        ap (nth r.idx) (accounts_of-put_ne acc.currency r.currency _ p.accounts differs) ∙ h
    | inl same ↦
        let c = eq_of_eq_ℤ acc.currency r.currency same in
        let held = accounts_of acc.currency p.accounts in
        subst
          (λ d.
            nth r.idx (accounts_of d (put_accounts acc.currency (held ++ (acc ∷ [])) p.accounts))
            ≡ some b)
          c
          (ap (nth r.idx) (accounts_of-put_self acc.currency (held ++ (acc ∷ [])) p.accounts)
            ∙ nth-append r.idx b held (acc ∷ [])
                (subst (λ d. nth r.idx (accounts_of d p.accounts) ≡ some b) (sym c) h))
  ]

  new_ref :
      (id : Uuid)
      → (acc.id == id) ≡ true
      → ref_of id (add acc p).index
        ≡ some
            (record { currency = acc.currency; idx = length (accounts_of acc.currency p.accounts) })
  unfolding ref_of add
  new_ref id e = rw e refl

  old_ref : (id : Uuid) → (acc.id == id) ≡ false → ref_of id (add acc p).index ≡ ref_of id p.index
  unfolding ref_of add
  old_ref id e = rw e refl

  -- If the index of a pool is right, it is right after an account has been added, whatever its
  -- id and currency.
  pub add-IsIndexed : IsIndexed p → IsIndexed (add acc p)
  add-IsIndexed ix = record {
    placed = λ id r f. elim (Bool-cases (acc.id == id)) [
      | inl same ↦
          let e = eq_of_some _ r (sym (new_ref id same) ∙ f) in
          (acc, subst (λ z. at_ref z (add acc p) ≡ some acc) e added_new, eq_of_== acc.id id same)
      | inr differs ↦
          let (b, h, d) = ix.placed id r (sym (old_ref id differs) ∙ f) in (b, added_old r b h, d)
    ];
  }
