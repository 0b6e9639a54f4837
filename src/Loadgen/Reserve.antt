-- ===== src/Loadgen/Reserve.antt =====
-- What the operations of the pool do to its balances.
use high_load_ledger.Prelude.Words.{to_int64}
use high_load_ledger.Prelude.{
  Bool, true, false, ◌≡◌, ◌≢◌, refl, sym, ap, subst, ◌∙◌, Option, none, some, arith, inl, inr,
  Bool-cases, Option-cases,
}
use high_load_ledger.Prelude.Int.{ℤ, ltb_ℤ, ◌+ℤ◌, ◌-ℤ◌, ◌≤ℤ◌}
use high_load_ledger.Entity.{Uuid}
use high_load_ledger.Loadgen.Pool.{
  balance_of, then_pool, set_balance_at, reserve_at, ref_of, reserve_valid, at_ref, AccountRef,
  AccountPool, add_at, ExistingAccount, sub_at,
}
use high_load_ledger.Loadgen.Index.{set_self, set_other, set-IsIndexed, set_kept, IsIndexed}

pub sub_at_eq :
    (r : AccountRef) (a : ℤ) (p : AccountPool) (acc : ExistingAccount)
    → at_ref r p ≡ some acc
    → sub_at r a p ≡ some (set_balance_at r acc (to_int64 (acc.balance -ℤ a)) p)
unfolding sub_at
sub_at_eq r a p acc h = rw (h, sub_at) refl

pub add_at_eq :
    (r : AccountRef) (a : ℤ) (p : AccountPool) (acc : ExistingAccount)
    → at_ref r p ≡ some acc
    → add_at r a p ≡ some (set_balance_at r acc (to_int64 (acc.balance +ℤ a)) p)
unfolding add_at
add_at_eq r a p acc h = rw (h, add_at) refl

-- A reservation that goes through: the pool after both writes.
module _ (from_ref to_ref : AccountRef) (amount : ℤ) (p : AccountPool) (a b : ExistingAccount)
    (at_from : at_ref from_ref p ≡ some a) (at_to : at_ref to_ref p ≡ some b) where
  abbrev taken : AccountPool
  taken = set_balance_at from_ref a (to_int64 (a.balance -ℤ amount)) p

  pub reserve_refused :
      ltb_ℤ a.balance amount ≡ true → reserve_at from_ref to_ref amount p ≡ some (false, p)
  unfolding reserve_at
  reserve_refused short = rw (at_from, at_to, short, reserve_at) refl

  pub reserve_made :
      (c : ExistingAccount)
      → ltb_ℤ a.balance amount ≡ false
      → at_ref to_ref taken ≡ some c
      → reserve_at from_ref to_ref amount p
        ≡ some (true, set_balance_at to_ref c (to_int64 (c.balance +ℤ amount)) taken)
  unfolding reserve_at
  reserve_made c enough h =
      rw (at_from, at_to, enough, reserve_at)
        (ap (λ o. then_pool o (λ q. then_pool (add_at to_ref amount q) (λ v. some (true, v))))
            (sub_at_eq from_ref amount p a at_from)
          ∙ ap (λ o. then_pool o (λ v. some (true, v))) (add_at_eq to_ref amount taken c h))

  reserve_at-IsIndexed :
      IsIndexed p
      → (o : Bool × AccountPool) × (reserve_at from_ref to_ref amount p ≡ some o) × IsIndexed o.1
  reserve_at-IsIndexed ix = elim (Bool-cases (ltb_ℤ a.balance amount)) [
    | inl short ↦ ((false, p), reserve_refused short, ix)
    | inr enough ↦
        let (c, h, _) =
          set_kept from_ref a (to_int64 (a.balance -ℤ amount)) p at_from to_ref b at_to in
        let ix1 = set-IsIndexed from_ref a (to_int64 (a.balance -ℤ amount)) p at_from ix in
        (
          _,
          reserve_made c enough h,
          set-IsIndexed to_ref c (to_int64 (c.balance +ℤ amount)) taken h ix1,
        )
  ]

module _ (from_id to_id : Uuid) (amount : ℤ) (p : AccountPool) where
  pub unknown_from :
      ref_of from_id p.index ≡ none → reserve_valid from_id to_id amount p ≡ some (false, p)
  unfolding reserve_valid
  unknown_from f = rw (f, reserve_valid) refl

  pub unknown_to :
      (r : AccountRef)
      → ref_of from_id p.index ≡ some r
      → ref_of to_id p.index ≡ none
      → reserve_valid from_id to_id amount p ≡ some (false, p)
  unfolding reserve_valid
  unknown_to r f t = rw (f, t, reserve_valid) refl

  pub both_known :
      (r s : AccountRef)
      → ref_of from_id p.index ≡ some r
      → ref_of to_id p.index ≡ some s
      → reserve_valid from_id to_id amount p ≡ reserve_at r s amount p
  unfolding reserve_valid
  both_known r s f t = rw (f, t, reserve_valid) refl

  -- On a pool whose index is right, a reservation never panics, and the index stays right: for
  -- any ids, known or not, equal or not, and any amount.
  pub reserve_valid-IsIndexed :
      IsIndexed p
      → (o : Bool × AccountPool) × (reserve_valid from_id to_id amount p ≡ some o) × IsIndexed o.1
  reserve_valid-IsIndexed ix = elim (Option-cases (ref_of from_id p.index)) [
    | inl f ↦ ((false, p), unknown_from f, ix)
    | inr (r, f) ↦ elim (Option-cases (ref_of to_id p.index)) [
      | inl t ↦ ((false, p), unknown_to r f t, ix)
      | inr (s, t) ↦
          let (a, ha, _) = ix.placed from_id r f in
          let (b, hb, _) = ix.placed to_id s t in
          let (o, e, i) = reserve_at-IsIndexed r s amount p a b ha hb ix in
          (o, both_known r s f t ∙ e, i)
    ]
  ]

pub never :
    (from_id to_id : Uuid) (amount : ℤ) (p q : AccountPool)
    → reserve_valid from_id to_id amount p ≡ some (false, p)
    → reserve_valid from_id to_id amount p ≡ some (true, q)
    → ⊥
never from_id to_id amount p q f t = cc

pub found_balance :
    (id : Uuid) (r : AccountRef) (p : AccountPool) (a : ExistingAccount)
    → ref_of id p.index ≡ some r
    → at_ref r p ≡ some a
    → balance_of id p ≡ some (a.balance, true)
unfolding balance_of
found_balance id r p a f h = rw (f, h, balance_of) refl

kept_index :
    (r s : AccountRef) (a b : ExistingAccount) (x y : ℤ) (p : AccountPool) (id : Uuid)
    → ref_of id (set_balance_at s b y (set_balance_at r a x p)).index ≡ ref_of id p.index
unfolding set_balance_at
kept_index r s a b x y p id = refl

pub no_both :
    (o : Option (Bool × AccountPool)) (p q : AccountPool)
    → o ≡ some (false, p)
    → o ≡ some (true, q)
    → ⊥
no_both o p q f t = cc

pub pool_eq :
    (o : Option (Bool × AccountPool)) (p q : AccountPool)
    → o ≡ some (true, p)
    → o ≡ some (true, q)
    → p ≡ q
pool_eq o p q f t = cc

reserved_balances :
    (r s : AccountRef) (amount : ℤ) (p q : AccountPool) (a b : ExistingAccount)
    → at_ref r p ≡ some a
    → at_ref s p ≡ some b
    → a.id ≢ b.id
    → (from_id to_id : Uuid) → ref_of from_id p.index ≡ some r
    → ref_of to_id p.index ≡ some s
    → reserve_at r s amount p ≡ some (true, q)
    → (x : ℤ) × (y : ℤ) × (balance_of from_id p ≡ some (x, true))
      × (balance_of to_id p ≡ some (y, true))
      × (amount ≤ℤ x)
      × (balance_of from_id q ≡ some (to_int64 (x -ℤ amount), true))
      × (balance_of to_id q ≡ some (to_int64 (y +ℤ amount), true))
reserved_balances r s amount p q a b ha hb ne from_id to_id f t h =
    elim (Bool-cases (ltb_ℤ a.balance amount)) [
      | inl short ↦
          absurd
            (no_both (reserve_at r s amount p) p q (reserve_refused r s amount p a b ha hb short) h)
      | inr enough ↦
          let x' = to_int64 (a.balance -ℤ amount) in
          let y' = to_int64 (b.balance +ℤ amount) in
          let p1 = set_balance_at r a x' p in
          let h1 = set_other r a x' p ha s b (λ e. ne (sym e)) hb in
          let made = reserve_made r s amount p a b ha hb b enough h1 in
          let e = pool_eq (reserve_at r s amount p) (set_balance_at s b y' p1) q made h in
          let from_after =
            set_other s b y' p1 h1 r (record a { balance = x' }) ne (set_self r a x' p ha) in
          let to_after = set_self s b y' p1 h1 in
          (
            a.balance,
            b.balance,
            found_balance from_id r p a f ha,
            found_balance to_id s p b t hb,
            ground arith,
            subst (λ z. balance_of from_id z ≡ some (x', true)) e
                (found_balance from_id r (set_balance_at s b y' p1) (record a { balance = x' })
                  (kept_index r s a b x' y' p from_id ∙ f) from_after),
            subst (λ z. balance_of to_id z ≡ some (y', true)) e
                (found_balance to_id s (set_balance_at s b y' p1) (record b { balance = y' })
                  (kept_index r s a b x' y' p to_id ∙ t) to_after),
          )
    ]

-- On a pool whose index is right, a reservation that goes through between two different ids
-- takes the amount, which was there, from the one account and gives it to the other, each as an
-- int64 holds it.
pub reserve_valid_ok :
    (from_id to_id : Uuid) (amount : ℤ) (p q : AccountPool)
    → IsIndexed p
    → from_id ≢ to_id
    → reserve_valid from_id to_id amount p ≡ some (true, q)
    → (x : ℤ) × (y : ℤ) × (balance_of from_id p ≡ some (x, true))
      × (balance_of to_id p ≡ some (y, true))
      × (amount ≤ℤ x)
      × (balance_of from_id q ≡ some (to_int64 (x -ℤ amount), true))
      × (balance_of to_id q ≡ some (to_int64 (y +ℤ amount), true))
reserve_valid_ok from_id to_id amount p q ix ne h = elim (Option-cases (ref_of from_id p.index)) [
  | inl f ↦ absurd (never from_id to_id amount p q (unknown_from from_id to_id amount p f) h)
  | inr (r, f) ↦ elim (Option-cases (ref_of to_id p.index)) [
    | inl t ↦ absurd (never from_id to_id amount p q (unknown_to from_id to_id amount p r f t) h)
    | inr (s, t) ↦
        let (a, ha, ia) = ix.placed from_id r f in
        let (b, hb, ib) = ix.placed to_id s t in
        reserved_balances r s amount p q a b ha hb (λ e. ne (sym ia ∙ e ∙ ib)) from_id to_id f t
          (sym (both_known from_id to_id amount p r s f t) ∙ h)
  ]
]
