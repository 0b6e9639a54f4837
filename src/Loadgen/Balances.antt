-- ===== src/Loadgen/Balances.antt =====
-- The pool as a map from ids to balances: what each write does to it, and that a reservation that
-- is returned leaves no trace.
use high_load_ledger.Prelude.Words.{to_int64}
use high_load_ledger.Prelude.{
  true, false, ◌≡◌, ◌≢◌, refl, sym, subst, ◌∙◌, none, some, ◌==◌, eq_of_==, ==_self, if◌then◌else◌,
  inl, inr, Bool-cases, Option-cases,
}
use high_load_ledger.Prelude.Int.{ℤ, pos, ◌+ℤ◌, ◌-ℤ◌}
use high_load_ledger.Entity.{Uuid}
use high_load_ledger.Loadgen.Pool.{
  AccountPool, AccountRef, ExistingAccount, ref_of, at_ref, set_balance_at, balance_of, add_at,
  sub_at, if_indexed,
}
use high_load_ledger.Loadgen.Index.{IsIndexed, set_self, set_other, set-IsIndexed}
use high_load_ledger.Loadgen.Reserve.{found_balance, add_at_eq, sub_at_eq}

pub unknown_balance :
    (x : Uuid) (p : AccountPool) → ref_of x p.index ≡ none → balance_of x p ≡ some (pos 0, false)
unfolding balance_of
unknown_balance x p n = rw (n, balance_of) refl

-- An indexed account, and where it stands.
pub record Held (id : Uuid) (p : AccountPool) : Type 0 where
  pub place : AccountRef
  pub account : ExistingAccount
  pub indexed : ref_of id p.index ≡ some place
  pub there : at_ref place p ≡ some account
  pub same_id : account.id ≡ id

abbrev pub held_of :
    (id : Uuid) (r : AccountRef) (p : AccountPool)
    → IsIndexed p
    → ref_of id p.index ≡ some r
    → Held id p
held_of id r p ix f =
    let (a, h, e) = ix.placed id r f in
    record { place = r; account = a; indexed = f; there = h; same_id = e }

abbrev pub write : {id : Uuid} {p : AccountPool} → Held id p → ℤ → AccountPool
write {id} {p} a y = set_balance_at a.place a.account y p

pub write-index :
    {id : Uuid} {p : AccountPool} (a : Held id p) (y : ℤ) (x : Uuid)
    → ref_of x (write a y).index ≡ ref_of x p.index
unfolding set_balance_at
write-index a y x = refl

pub write-IsIndexed :
    {id : Uuid} {p : AccountPool} (a : Held id p) (y : ℤ) → IsIndexed p → IsIndexed (write a y)
write-IsIndexed {id} {p} a y ix = set-IsIndexed a.place a.account y p a.there ix

module _ {p : AccountPool} (ix : IsIndexed p) {id : Uuid} (a : Held id p) (y : ℤ) where
  -- The same account after the write.
  abbrev pub written : Held id (write a y)
  written = record {
    place = a.place;
    account = record a.account { balance = y };
    indexed = write-index a y id ∙ a.indexed;
    there = set_self a.place a.account y p a.there;
    same_id = a.same_id;
  }

  -- Another account after the write.
  abbrev pub unwritten : {x : Uuid} → id ≢ x → Held x p → Held x (write a y)
  unwritten {x} ne b = record {
    place = b.place;
    account = b.account;
    indexed = write-index a y x ∙ b.indexed;
    there =
        set_other a.place a.account y p a.there b.place b.account
          (λ e. ne (sym a.same_id ∙ sym e ∙ b.same_id)) b.there;
    same_id = b.same_id;
  }

pub Held-balance :
    {id : Uuid} {p : AccountPool} (a : Held id p) → balance_of id p ≡ some (a.account.balance, true)
Held-balance {id} {p} a = found_balance id a.place p a.account a.indexed a.there

module _ {p : AccountPool} (ix : IsIndexed p) {id : Uuid} (a : Held id p) (y : ℤ) where
  other_balance : (x : Uuid) → id ≢ x → balance_of x (write a y) ≡ balance_of x p
  other_balance x ne = elim (Option-cases (ref_of x p.index)) [
    | inl n ↦ unknown_balance x (write a y) (write-index a y x ∙ n) ∙ sym (unknown_balance x p n)
    | inr (s, f) ↦
        let b = held_of x s p ix f in Held-balance (unwritten ix a y ne b) ∙ sym (Held-balance b)
  ]

  -- A write at the place of one id changes the balance of this id, and no other.
  pub balance_of-write :
      (x : Uuid) → balance_of x (write a y) ≡ (if id == x then some (y, true) else balance_of x p)
  balance_of-write x = elim (Bool-cases (id == x)) [
    | inl same ↦ rw same (
        subst (λ z. balance_of z (write a y) ≡ some (y, true)) (eq_of_== id x same)
          (Held-balance (written ix a y)))
    | inr differs ↦ rw differs (other_balance x (λ e. cc (differs, ==_self id, e)))
  ]

module _ {p : AccountPool} {id : Uuid} (a : Held id p) (amount : ℤ) where
  pub add_indexed :
      if_indexed (ref_of id p.index) (λ r. add_at r amount) p
      ≡ some (write a (to_int64 (a.account.balance +ℤ amount)))
  add_indexed = rw a.indexed (add_at_eq a.place amount p a.account a.there)

  pub sub_indexed :
      if_indexed (ref_of id p.index) (λ r. sub_at r amount) p
      ≡ some (write a (to_int64 (a.account.balance -ℤ amount)))
  sub_indexed = rw a.indexed (sub_at_eq a.place amount p a.account a.there)
