-- ===== src/Store/Opening.antt =====
-- A new account in a consistent ledger.
use high_load_ledger.Prelude.{false, ◌≤◌, ◌≡◌, sym, subst, ◌∙◌, some, ◌∷◌, arith, inl, inr}
use high_load_ledger.Prelude.Int.{pos, ◌≤ℤ◌, +ℤ_zero}
use high_load_ledger.Entity.{Uuid, Account}
use high_load_ledger.Result.{ok}
use high_load_ledger.Store.{Tables}
use high_load_ledger.Store.Rows.{find_account, has_account, postings_sum, latest_posting}
use high_load_ledger.Store.Statements.{insert_account}
use high_load_ledger.Store.Laws.{
  find_account-has_false, find_account-cons_none, find_account-cons, insert_account_ok,
}
use high_load_ledger.Store.Ledger.{nothing_ahead, nothing_owed, Ledger}

-- A new account has no postings yet, so it may begin with nothing owed only.
module _ (a : Account) (t : Tables) (z : a.balance ≡ pos 0)
    (fresh : has_account a.id t.accounts ≡ false) (l : Ledger nothing_owed nothing_ahead t) where
  opened_row :
      (id : Uuid) (row : Account)
      → find_account id (a ∷ t.accounts) ≡ some row
      → (row.balance ≡ postings_sum id t.postings)
        × (latest_posting id t.postings ≤ row.latest_posting_id)
        × (pos 0 ≤ℤ row.balance)
  opened_row id row f = elim (find_account-cons a id t.accounts row f) [
    | inl (same, new) ↦
        let (s, p) = l.unposted a.id (find_account-has_false a.id t.accounts fresh) in
        rw (same, new) (z ∙ sym s, omega (arith, p), ground arith)
    | inr old ↦ (
      sym (+ℤ_zero row.balance) ∙ l.balanced id row old,
      omega (arith, l.recorded id row old),
      l.not_negative id row old,
    )
  ]

  opened_Ledger : Ledger nothing_owed nothing_ahead (record t { accounts = a ∷ t.accounts })
  opened_Ledger = record {
    balanced = λ id row f. +ℤ_zero row.balance ∙ (opened_row id row f).0;
    recorded = λ id row f. omega (arith, (opened_row id row f).1);
    not_negative = λ id row f. (opened_row id row f).2;
    unposted = λ id f. l.unposted id (find_account-cons_none a id t.accounts f);
  }

pub insert_account-Ledger :
    (a : Account) (t t' : Tables)
    → a.balance ≡ pos 0
    → insert_account a t ≡ ok t'
    → Ledger nothing_owed nothing_ahead t
    → Ledger nothing_owed nothing_ahead t'
insert_account-Ledger a t t' z h l =
    let (fresh, _, rows) = insert_account_ok a t t' h in
    subst (Ledger nothing_owed nothing_ahead) (sym rows) (opened_Ledger a t z fresh l)
