-- ===== src/Loadgen/Returned.antt =====
-- A reservation that is returned at once leaves no trace: `RollbackValid` after `ReserveValid`.
use high_load_ledger.Prelude.Words.{to_int64}
use high_load_ledger.Prelude.{
  Bool, true, false, ◌≡◌, ◌≢◌, refl, sym, ap, subst, ◌∙◌, some, ◌==◌, eq_of_==, if◌then◌else◌, inl,
  inr, Bool-cases, Option-cases,
}
use high_load_ledger.Prelude.Int.{ℤ, ◌+ℤ◌, ◌-ℤ◌, fits_int64, ltb_ℤ}
use high_load_ledger.Entity.{Uuid}
use high_load_ledger.Wire.{UuidLib, IsFaithful}
use high_load_ledger.Loadgen.Pool.{
  AccountPool, ref_of, balance_of, reserve_valid, rollback_valid, sub_at, if_indexed, then_pool,
}
use high_load_ledger.Loadgen.Index.{IsIndexed}
use high_load_ledger.Loadgen.Reserve.{
  never, no_both, pool_eq, reserve_refused, reserve_made, unknown_from, unknown_to, both_known,
}
use high_load_ledger.Loadgen.Balances.{
  Held, held_of, write, write-IsIndexed, written, unwritten, Held-balance, balance_of-write,
  add_indexed, sub_indexed,
}
use high_load_ledger.Prelude.Wrap.{undo_sub, undo_add}
use high_load_ledger.Loadgen.Builder.{TransferJob}
use high_load_ledger.Loadgen.Jobs.{return_reserved}

if_false : {A : Type 0} (b : Bool) (x y : A) → b ≡ false → (if b then x else y) ≡ y
if_false b x y h = rw h refl

-- Two different accounts of a pool whose index is right.
module _ {p : AccountPool} (ix : IsIndexed p) {from_id to_id : Uuid} (a : Held from_id p)
    (b : Held to_id p) (ne : from_id ≢ to_id) (amount : ℤ) where
  abbrev less : ℤ
  less = to_int64 (a.account.balance -ℤ amount)

  abbrev more : ℤ
  more = to_int64 (b.account.balance +ℤ amount)

  -- The account `to_id` once the first write is done.
  abbrev second : Held to_id (write a less)
  second = unwritten ix a less ne b

  abbrev reserved : AccountPool
  reserved = write second more

  abbrev after_first : IsIndexed (write a less)
  after_first = write-IsIndexed a less ix

  reserved-IsIndexed : IsIndexed reserved
  reserved-IsIndexed = write-IsIndexed second more after_first

  pub reserve-eq-reserved :
      (q : AccountPool) → reserve_valid from_id to_id amount p ≡ some (true, q) → reserved ≡ q
  reserve-eq-reserved q h =
      let at = both_known from_id to_id amount p a.place b.place a.indexed b.indexed in
      elim (Bool-cases (ltb_ℤ a.account.balance amount)) [
        | inl short ↦ absurd (
            no_both (reserve_valid from_id to_id amount p) p q
              (at
                ∙ reserve_refused a.place b.place amount p a.account b.account a.there b.there
                    short)
              h)
        | inr enough ↦
            pool_eq (reserve_valid from_id to_id amount p) reserved q
              (at
                ∙ reserve_made a.place b.place amount p a.account b.account a.there b.there
                    b.account enough second.there)
              h
      ]

  -- The accounts of the reserved pool.
  abbrev taken : Held from_id reserved
  taken = unwritten after_first second more (λ e. ne (sym e)) (written ix a less)

  abbrev given : Held to_id reserved
  given = written after_first second more

  abbrev back : ℤ
  back = to_int64 (less +ℤ amount)

  abbrev given_after : Held to_id (write taken back)
  given_after = unwritten reserved-IsIndexed taken back ne given

  abbrev returned : AccountPool
  returned = write given_after (to_int64 (more -ℤ amount))

  rollback-eq-returned : rollback_valid from_id to_id amount reserved ≡ some returned
  unfolding rollback_valid
  rollback-eq-returned =
      ap (λ o. then_pool o (λ q. if_indexed (ref_of to_id q.index) (λ r. sub_at r amount) q))
        (add_indexed taken amount)
      ∙ sub_indexed given_after amount

  returned-IsIndexed : IsIndexed returned
  returned-IsIndexed =
      write-IsIndexed given_after (to_int64 (more -ℤ amount))
        (write-IsIndexed taken back reserved-IsIndexed)

  module _ (fits_a : fits_int64 a.account.balance ≡ true)
      (fits_b : fits_int64 b.account.balance ≡ true) where
    returned_to : balance_of to_id returned ≡ balance_of to_id p
    returned_to =
        Held-balance (written (write-IsIndexed taken back reserved-IsIndexed) given_after _)
        ∙ ap (λ y. some (y, true)) (undo_add b.account.balance amount fits_b)
        ∙ sym (Held-balance b)

    returned_from : balance_of from_id returned ≡ balance_of from_id p
    returned_from =
        Held-balance (
          unwritten (write-IsIndexed taken back reserved-IsIndexed) given_after
            (to_int64 (more -ℤ amount)) (λ e. ne (sym e)) (written reserved-IsIndexed taken back))
        ∙ ap (λ y. some (y, true)) (undo_sub a.account.balance amount fits_a)
        ∙ sym (Held-balance a)

    returned_balances : (x : Uuid) → balance_of x returned ≡ balance_of x p
    returned_balances x = elim (Bool-cases (to_id == x)) [
      | inl same ↦
          subst (λ z. balance_of z returned ≡ balance_of z p) (eq_of_== to_id x same) returned_to
      | inr t ↦ elim (Bool-cases (from_id == x)) [
        | inl same ↦
            subst (λ z. balance_of z returned ≡ balance_of z p) (eq_of_== from_id x same)
              returned_from
        | inr f ↦
            balance_of-write (write-IsIndexed taken back reserved-IsIndexed) given_after _ x
            ∙ if_false _ _ _ t
            ∙ balance_of-write reserved-IsIndexed taken back x
            ∙ if_false _ _ _ f
            ∙ balance_of-write after_first second more x
            ∙ if_false _ _ _ t
            ∙ balance_of-write ix a less x
            ∙ if_false _ _ _ f
      ]
    ]

-- The balances are of the type `int64`.
abbrev pub HasInt64 : AccountPool → Type 0
HasInt64 p = (x : Uuid) (y : ℤ) → balance_of x p ≡ some (y, true) → fits_int64 y ≡ true

known :
    (from_id to_id : Uuid) (amount : ℤ) (p q : AccountPool)
    → IsIndexed p
    → reserve_valid from_id to_id amount p ≡ some (true, q)
    → Held from_id p × Held to_id p
known from_id to_id amount p q ix h = elim (Option-cases (ref_of from_id p.index)) [
  | inl f ↦ absurd (never from_id to_id amount p q (unknown_from from_id to_id amount p f) h)
  | inr (r, f) ↦ elim (Option-cases (ref_of to_id p.index)) [
    | inl t ↦ absurd (never from_id to_id amount p q (unknown_to from_id to_id amount p r f t) h)
    | inr (s, t) ↦ (held_of from_id r p ix f, held_of to_id s p ix t)
  ]
]

read_back :
    (lib : UuidLib) (job : TransferJob) (p : AccountPool)
    → IsFaithful lib
    → return_reserved lib job p ≡ rollback_valid job.from_id job.to_id job.amount p
unfolding return_reserved
read_back lib job p faithful =
    rw (faithful.of_bytes job.from_id, faithful.of_bytes job.to_id, return_reserved) refl

-- A job that was reserved between two different accounts and is returned with no other operation on
-- the pool in between leaves every balance as it was before the reservation, also if an int64 wrapped
-- round meanwhile: for a pool whose index is right, with balances that are int64, if an id is read
-- back from its bytes.
pub return_reserved-restores :
    (lib : UuidLib) (job : TransferJob) (p q : AccountPool)
    → IsFaithful lib
    → IsIndexed p
    → HasInt64 p
    → job.from_id ≢ job.to_id
    → reserve_valid job.from_id job.to_id job.amount p ≡ some (true, q)
    → (v : AccountPool) × (return_reserved lib job q ≡ some v)
      × IsIndexed v
      × ((x : Uuid) → balance_of x v ≡ balance_of x p)
return_reserved-restores lib job p q faithful ix fits ne h =
    let (a, b) = known job.from_id job.to_id job.amount p q ix h in
    let e = reserve-eq-reserved ix a b ne job.amount q h in
    (
      returned ix a b ne job.amount,
      read_back lib job q faithful
          ∙ ap (rollback_valid job.from_id job.to_id job.amount) (sym e)
          ∙ rollback-eq-returned ix a b ne job.amount,
      returned-IsIndexed ix a b ne job.amount,
      returned_balances ix a b ne job.amount (fits job.from_id _ (Held-balance a))
          (fits job.to_id _ (Held-balance b)),
    )
