-- ===== src/Store/Laws.antt =====
-- Laws of the rows and of the statements: what a statement that succeeded has checked and changed.
use high_load_ledger.Prelude.{
  ℕ, true, false, ◌≡◌, refl, ◌≢◌, sym, ap, subst, ◌∙◌, ◌⊎◌, inl, inr, Option-cases, Bool-cases,
  eq_of_==, eq_of_some, none, some, List, [], ◌∷◌, arith, ◌==◌,
}
use high_load_ledger.Prelude.Int.{ℤ, pos, ◌+ℤ◌, ◌-ℤ◌, ◌≤ℤ◌}
use high_load_ledger.Entity.{Uuid, Time, Account, Posting, Transaction}
use high_load_ledger.Result.{ok}
use high_load_ledger.Store.{Tables}
use high_load_ledger.Store.Rows.{
  find_account, put_account, has_account, has_transaction, has_key, has_posting, latest_posting,
}
use high_load_ledger.Store.Statements.{
  stored_row, insert_account, insert_transaction, insert_posting, insert_postings, debit, credit,
  correct, greatest,
}

pub find_account-id :
    (id : Uuid) (rs : List Account) (r : Account) → find_account id rs ≡ some r → r.id ≡ id
unfolding find_account
find_account-id id [] r h = cc
find_account-id id (x ∷ rs) r h = ground (arith, find_account-id id rs r)

pub find_account-put_self :
    (row old : Account) (rs : List Account)
    → find_account row.id rs ≡ some old
    → find_account row.id (put_account row rs) ≡ some row
unfolding find_account put_account
find_account-put_self row old [] h = cc
find_account-put_self row old (x ∷ rs) h = ground (arith, find_account-put_self row old rs)

pub find_account-put_ne :
    (id : Uuid) (row : Account) (rs : List Account)
    → id ≢ row.id
    → find_account id (put_account row rs) ≡ find_account id rs
unfolding find_account put_account
find_account-put_ne id row [] h = refl
find_account-put_ne id row (x ∷ rs) h = ground (arith, find_account-put_ne id row rs h)

pub record InsertsTransaction (tr : Transaction) (t t' : Tables) : Type 0 where
  pub positive : pos 1 ≤ℤ tr.amount
  pub new_id : has_transaction tr.id t.transactions ≡ false
  pub new_key : has_key tr.idempotency_key t.transactions ≡ false
  pub from_known : has_account tr.from_account_id t.accounts ≡ true
  pub to_known : has_account tr.to_account_id t.accounts ≡ true
  pub rows : t' ≡ record t { transactions = stored_row tr ∷ t.transactions }

pub insert_transaction_ok :
    (tr : Transaction) (t t' : Tables)
    → insert_transaction tr t ≡ ok t'
    → InsertsTransaction tr t t'
unfolding insert_transaction
insert_transaction_ok tr t t' h = record {
  positive = ground arith;
  new_id = ground arith;
  new_key = ground arith;
  from_known = ground arith;
  to_known = ground arith;
  rows = ground arith;
}

pub insert_posting_ok :
    (p : Posting) (t t' : Tables)
    → insert_posting p t ≡ ok t'
    → (has_posting p.id t.postings ≡ false)
      × (has_transaction p.transaction_id t.transactions ≡ true)
      × (has_account p.account_id t.accounts ≡ true)
      × (t' ≡ record t { postings = p ∷ t.postings })
unfolding insert_posting
insert_posting_ok p t t' h = (ground arith, ground arith, ground arith, ground arith)

pub insert_account_ok :
    (a : Account) (t t' : Tables)
    → insert_account a t ≡ ok t'
    → (has_account a.id t.accounts ≡ false)
      × (pos 0 ≤ℤ a.balance)
      × (t' ≡ record t { accounts = a ∷ t.accounts })
unfolding insert_account
insert_account_ok a t t' h = (ground arith, ground arith, ground arith)

-- A balance update that changed a row.
pub record UpdatesRow (id : Uuid) (amount : ℤ) (latest : ℕ) (at : Time) (row : Account)
    (t t' : Tables) : Type 0 where
  pub found : find_account id t.accounts ≡ some row
  pub not_negative : pos 0 ≤ℤ amount
  pub rows : t' ≡ record t {
    accounts =
        put_account
          (record row { balance = amount; latest_posting_id = latest; updated_at = at })
          t.accounts;
  }

pub debit_ok :
    (id : Uuid) (amount : ℤ) (posting_id : ℕ) (at : Time) (n : ℕ) (t t' : Tables)
    → debit id amount posting_id at t ≡ ok (n, t')
    → (n == 0) ≡ false
    → (row : Account) × UpdatesRow id
        (row.balance -ℤ amount)
        (greatest row.latest_posting_id posting_id)
        at
        row
        t
        t'
      × (amount ≤ℤ row.balance)
unfolding debit
debit_ok id amount posting_id at n t t' h z = elim (Option-cases (find_account id t.accounts)) [
  | inl missing ↦ absurd (ground arith)
  | inr (row, found) ↦ (
    row,
    record { found = found; not_negative = ground arith; rows = ground arith },
    ground arith,
  )
]

pub credit_ok :
    (id : Uuid) (amount : ℤ) (posting_id : ℕ) (at : Time) (n : ℕ) (t t' : Tables)
    → credit id amount posting_id at t ≡ ok (n, t')
    → (n == 0) ≡ false
    → (row : Account) × UpdatesRow id
        (row.balance +ℤ amount)
        (greatest row.latest_posting_id posting_id)
        at
        row
        t
        t'
unfolding credit
credit_ok id amount posting_id at n t t' h z = elim (Option-cases (find_account id t.accounts)) [
  | inl missing ↦ absurd (ground arith)
  | inr (row, found) ↦
      (row, record { found = found; not_negative = ground arith; rows = ground arith })
]

-- A correction writes the amount and the largest posting id, or finds no row.
pub correct_ok :
    (id : Uuid) (amount : ℤ) (at : Time) (n : ℕ) (t t' : Tables)
    → correct id amount at t ≡ ok (n, t')
    → ((find_account id t.accounts ≡ none) × (t' ≡ t))
      ⊎ ((row : Account) × UpdatesRow id amount (latest_posting id t.postings) at row t t')
unfolding correct
correct_ok id amount at n t t' h = elim (Option-cases (find_account id t.accounts)) [
  | inl missing ↦ inl (missing, ground arith)
  | inr (row, found) ↦
      inr (row, record { found = found; not_negative = ground arith; rows = ground arith })
]

-- The row as an update leaves it.
abbrev pub updated_row : Account → ℤ → ℕ → Time → Account
updated_row row amount latest at = record row {
  balance = amount;
  latest_posting_id = latest;
  updated_at = at;
}

module _ {id : Uuid} {amount : ℤ} {latest : ℕ} {at : Time} {row : Account} {t t' : Tables}
    (u : UpdatesRow id amount latest at row t t') where
  pub UpdatesRow-find_self : find_account id t'.accounts ≡ some (updated_row row amount latest at)
  UpdatesRow-find_self =
      let row' = updated_row row amount latest at in
      let e = find_account-id id t.accounts row u.found in
      subst (λ v. find_account id v.accounts ≡ some row') (sym u.rows)
        (subst (λ k. find_account k (put_account row' t.accounts) ≡ some row') e
          (find_account-put_self row' row t.accounts
            (subst (λ k. find_account k t.accounts ≡ some row) (sym e) u.found)))

  pub UpdatesRow-find_ne :
      (x : Uuid) → x ≢ id → find_account x t'.accounts ≡ find_account x t.accounts
  UpdatesRow-find_ne x ne =
      subst (λ v. find_account x v.accounts ≡ find_account x t.accounts) (sym u.rows)
        (find_account-put_ne x (updated_row row amount latest at) t.accounts
          (λ e. ne (e ∙ find_account-id id t.accounts row u.found)))

  -- A row that is found afterwards is the updated one, or was found before.
  pub UpdatesRow-cases :
      (x : Uuid) (r : Account)
      → find_account x t'.accounts ≡ some r
      → ((x ≡ id) × ((id == x) ≡ true) × (r ≡ updated_row row amount latest at))
        ⊎ ((x ≢ id) × ((id == x) ≡ false) × (find_account x t.accounts ≡ some r))
  UpdatesRow-cases x r f = elim (Bool-cases (id == x)) [
    | inl same ↦
        let e = sym (eq_of_== id x same) in
        inl (
          e,
          same,
          eq_of_some _ _ (sym f ∙ ap (λ k. find_account k t'.accounts) e ∙ UpdatesRow-find_self),
        )
    | inr differs ↦
        let ne : x ≢ id = λ e. ground (arith, e) in
        inr (ne, differs, sym (UpdatesRow-find_ne x ne) ∙ f)
  ]

  pub UpdatesRow-missing :
      (x : Uuid) → find_account x t'.accounts ≡ none → find_account x t.accounts ≡ none
  UpdatesRow-missing x f = elim (Bool-cases (id == x)) [
    | inl same ↦ let e = eq_of_== id x same in let g = UpdatesRow-find_self in absurd (cc (e, f, g))
    | inr differs ↦ sym (UpdatesRow-find_ne x (λ e. ground (arith, e))) ∙ f
  ]

  pub UpdatesRow-rest :
      (t'.transactions ≡ t.transactions) × (t'.postings ≡ t.postings) × (t'.cursors ≡ t.cursors)
  UpdatesRow-rest =
      (ap (λ v. v.transactions) u.rows, ap (λ v. v.postings) u.rows, ap (λ v. v.cursors) u.rows)

pub insert_two_postings_ok :
    (p q : Posting) (t t' : Tables)
    → insert_postings (p ∷ q ∷ []) t ≡ ok t'
    → t' ≡ record t { postings = q ∷ p ∷ t.postings }
unfolding insert_postings insert_posting
insert_two_postings_ok p q t t' h = ground arith

-- What is found in a table with one row more.
pub find_account-cons :
    (a : Account) (id : Uuid) (rs : List Account) (row : Account)
    → find_account id (a ∷ rs) ≡ some row
    → ((id ≡ a.id) × (row ≡ a)) ⊎ (find_account id rs ≡ some row)
unfolding find_account
find_account-cons a id rs row f = elim (Bool-cases (a.id == id)) [
  | inl e ↦ inl (sym (eq_of_== a.id id e), ground arith)
  | inr e ↦ inr (ground arith)
]

pub find_account-cons_none :
    (a : Account) (id : Uuid) (rs : List Account)
    → find_account id (a ∷ rs) ≡ none
    → find_account id rs ≡ none
unfolding find_account
find_account-cons_none a id rs f = ground arith

pub find_account-has_false :
    (id : Uuid) (rs : List Account) → has_account id rs ≡ false → find_account id rs ≡ none
unfolding has_account
find_account-has_false id rs h = ground arith
