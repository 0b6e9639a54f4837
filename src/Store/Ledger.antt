-- ===== src/Store/Ledger.antt =====
-- When the tables are a consistent ledger: the journal explains every balance.
--
-- In the middle of a transaction it does not, so the invariant carries what is pending: an amount
-- that the journal has and the balance has not yet, and a posting id that the account has not
-- recorded yet.
use Prim.Native.Nat.{max}
use high_load_ledger.Prelude.{
  ℕ, Bool, true, false, ◌≤◌, ◌≡◌, sym, ap, subst, ◌∙◌, none, some, List, [], ◌∷◌, arith, ◌==◌, leb,
  if◌then◌else◌, inl, inr,
}
use high_load_ledger.Prelude.Int.{ℤ, pos, ◌+ℤ◌, ◌-ℤ◌, ◌≤ℤ◌, int_laws, +ℤ_zero, +ℤ_assoc}
use high_load_ledger.Entity.{Uuid, Time, Account, Posting, Transaction}
use high_load_ledger.Result.{ok, >>=-eq-ok}
use high_load_ledger.Store.{Tables}
use high_load_ledger.Store.Rows.{find_account, has_account, postings_sum, latest_posting}
use high_load_ledger.Store.Statements.{
  insert_transaction, insert_posting, insert_postings, debit, credit, greatest,
}
use high_load_ledger.Store.Laws.{
  insert_transaction_ok, insert_posting_ok, UpdatesRow, UpdatesRow-rest, UpdatesRow-cases,
  UpdatesRow-missing, debit_ok, credit_ok,
}

-- Every balance is the sum of the account's postings and not negative, `latest_posting_id` is no
-- smaller than any of their ids, and nothing is posted to an account that does not exist.
pub record IsConsistent (t : Tables) : Type 0 where
  pub balanced :
      (id : Uuid) (row : Account)
      → find_account id t.accounts ≡ some row
      → row.balance ≡ postings_sum id t.postings
  pub recorded :
      (id : Uuid) (row : Account)
      → find_account id t.accounts ≡ some row
      → latest_posting id t.postings ≤ row.latest_posting_id
  pub not_negative :
      (id : Uuid) (row : Account) → find_account id t.accounts ≡ some row → pos 0 ≤ℤ row.balance
  pub unposted :
      (id : Uuid)
      → find_account id t.accounts ≡ none
      → (postings_sum id t.postings ≡ pos 0) × (latest_posting id t.postings ≡ 0)

-- The same with `owed id` still to be added to a balance, and ids up to `ahead id` still to be
-- recorded.
pub record Ledger (owed : Uuid → ℤ) (ahead : Uuid → ℕ) (t : Tables) : Type 0 where
  pub balanced :
      (id : Uuid) (row : Account)
      → find_account id t.accounts ≡ some row
      → row.balance +ℤ owed id ≡ postings_sum id t.postings
  pub recorded :
      (id : Uuid) (row : Account)
      → find_account id t.accounts ≡ some row
      → latest_posting id t.postings ≤ max row.latest_posting_id (ahead id)
  pub not_negative :
      (id : Uuid) (row : Account) → find_account id t.accounts ≡ some row → pos 0 ≤ℤ row.balance
  pub unposted :
      (id : Uuid)
      → find_account id t.accounts ≡ none
      → (postings_sum id t.postings ≡ pos 0) × (latest_posting id t.postings ≡ 0)

abbrev pub nothing_owed : Uuid → ℤ
nothing_owed id = pos 0

abbrev pub nothing_ahead : Uuid → ℕ
nothing_ahead id = 0

pub IsConsistent-Ledger : (t : Tables) → IsConsistent t → Ledger nothing_owed nothing_ahead t
IsConsistent-Ledger t c = record {
  balanced = λ id row f. +ℤ_zero row.balance ∙ c.balanced id row f;
  recorded = λ id row f. omega (arith, c.recorded id row f);
  not_negative = c.not_negative;
  unposted = c.unposted;
}

pub Ledger-IsConsistent :
    (owed : Uuid → ℤ) (ahead : Uuid → ℕ) (t : Tables)
    → ((id : Uuid) → owed id ≡ pos 0)
    → ((id : Uuid) → ahead id ≡ 0)
    → Ledger owed ahead t
    → IsConsistent t
Ledger-IsConsistent owed ahead t d p l = record {
  balanced = λ id row f.
      sym (ap (λ z. row.balance +ℤ z) (d id) ∙ +ℤ_zero row.balance) ∙ l.balanced id row f;
  recorded = λ id row f. omega (arith, l.recorded id row f, p id);
  not_negative = l.not_negative;
  unposted = l.unposted;
}

-- What is pending may be described in other words, and with more ids ahead.
pub Ledger-weaken :
    (owed owed' : Uuid → ℤ) (ahead ahead' : Uuid → ℕ) (t : Tables)
    → ((id : Uuid) → owed id ≡ owed' id)
    → ((id : Uuid) → ahead id ≤ ahead' id)
    → Ledger owed ahead t
    → Ledger owed' ahead' t
Ledger-weaken owed owed' ahead ahead' t d p l = record {
  balanced = λ id row f. ap (λ z. row.balance +ℤ z) (sym (d id)) ∙ l.balanced id row f;
  recorded = λ id row f. ground (arith, l.recorded id row f, p id);
  not_negative = l.not_negative;
  unposted = l.unposted;
}

-- After a posting: its amount is owed, and its id is ahead.
abbrev pub owe : Uuid → ℤ → (Uuid → ℤ) → Uuid → ℤ
owe a v owed x = if a == x then v +ℤ owed x else owed x

abbrev pub advance : Uuid → ℕ → (Uuid → ℕ) → Uuid → ℕ
advance a n ahead x = if a == x then max (ahead x) n else ahead x

-- After a balance update that records the id n.
abbrev pub record_id : Uuid → ℕ → (Uuid → ℕ) → Uuid → ℕ
record_id a n ahead x = if a == x then (if leb (ahead x) n then 0 else ahead x) else ahead x

not_known :
    (a x : Uuid) (t : Tables)
    → has_account a t.accounts ≡ true
    → find_account x t.accounts ≡ none
    → (a == x) ≡ false
unfolding has_account
not_known a x t h f = ground arith

owe_step :
    (b : Bool) (r a o s : ℤ)
    → r +ℤ o ≡ s
    → r +ℤ (if b then a +ℤ o else o) ≡ (if b then a +ℤ s else s)
owe_step true r a o s h = rw (← h) (omega int_laws)
owe_step false r a o s h = h

module _ {owed : Uuid → ℤ} {ahead : Uuid → ℕ} where
  pub insert_transaction-Ledger :
      (tr : Transaction) (t t' : Tables)
      → insert_transaction tr t ≡ ok t'
      → Ledger owed ahead t
      → Ledger owed ahead t'
  insert_transaction-Ledger tr t t' h l =
      subst (Ledger owed ahead) (sym (insert_transaction_ok tr t t' h).rows) (record {
        balanced = l.balanced;
        recorded = l.recorded;
        not_negative = l.not_negative;
        unposted = l.unposted;
      })

  pub insert_posting-Ledger :
      (q : Posting) (t t' : Tables)
      → insert_posting q t ≡ ok t'
      → Ledger owed ahead t
      → Ledger (owe q.account_id q.amount owed) (advance q.account_id q.id ahead) t'
  unfolding postings_sum latest_posting
  insert_posting-Ledger q t t' h l =
      let (_, _, exists, rows) = insert_posting_ok q t t' h in
      subst (Ledger (owe q.account_id q.amount owed) (advance q.account_id q.id ahead)) (sym rows)
        (record {
          balanced = λ id row f. owe_step (q.account_id == id) _ _ _ _ (l.balanced id row f);
          recorded = λ id row f. ground (arith, l.recorded id row f);
          not_negative = l.not_negative;
          unposted = λ id f.
              let other = not_known q.account_id id t exists f in ground (arith, l.unposted id f);
        })

-- An update that takes `change` off what is owed.
module _ (posting_id : ℕ) {owed : Uuid → ℤ} {ahead : Uuid → ℕ} {id : Uuid} {amount : ℤ} {at : Time}
    {row : Account} {t t' : Tables}
    (u : UpdatesRow id amount (greatest row.latest_posting_id posting_id) at row t t')
    (l : Ledger owed ahead t) where
  still_balanced :
      (change : ℤ) (x : Uuid) (r : Account)
      → amount +ℤ change ≡ row.balance
      → find_account x t'.accounts ≡ some r
      → r.balance +ℤ owe id change owed x ≡ postings_sum x t.postings
  still_balanced change x r e f = elim (UpdatesRow-cases u x r f) [
    | inl (same, test, new) ↦
        rw (new, test)
          (sym (+ℤ_assoc amount change (owed x))
            ∙ ap (λ z. z +ℤ owed x) e
            ∙ l.balanced x row
                (subst (λ k. find_account k t.accounts ≡ some row) (sym same) u.found))
    | inr (_, test, old) ↦ rw test (l.balanced x r old)
  ]

  still_recorded :
      (x : Uuid) (r : Account)
      → find_account x t'.accounts ≡ some r
      → latest_posting x t.postings ≤ max r.latest_posting_id (record_id id posting_id ahead x)
  unfolding greatest
  still_recorded x r f = elim (UpdatesRow-cases u x r f) [
    | inl (same, test, new) ↦
        let before =
          l.recorded x row (subst (λ k. find_account k t.accounts ≡ some row) (sym same) u.found) in
        ground (arith, before)
    | inr (_, test, old) ↦ ground (arith, l.recorded x r old)
  ]

  update-Ledger :
      (change : ℤ)
      → amount +ℤ change ≡ row.balance
      → Ledger (owe id change owed) (record_id id posting_id ahead) t'
  update-Ledger change e =
      let same_postings = (UpdatesRow-rest u).1 in
      record {
        balanced = λ x r f. still_balanced change x r e f ∙ ap (postings_sum x) (sym same_postings);
        recorded = λ x r f. rw same_postings (still_recorded x r f);
        not_negative = λ x r f. elim (UpdatesRow-cases u x r f) [
          | inl (_, _, new) ↦ rw new u.not_negative
          | inr (_, _, old) ↦ l.not_negative x r old
        ];
        unposted = λ x f. rw same_postings (l.unposted x (UpdatesRow-missing u x f));
      }

module _ {owed : Uuid → ℤ} {ahead : Uuid → ℕ} where
  pub debit-Ledger :
      (id : Uuid) (amount : ℤ) (posting_id : ℕ) (at : Time) (n : ℕ) (t t' : Tables)
      → debit id amount posting_id at t ≡ ok (n, t')
      → (n == 0) ≡ false
      → Ledger owed ahead t
      → Ledger (owe id amount owed) (record_id id posting_id ahead) t'
  debit-Ledger id amount posting_id at n t t' h z l =
      let (row, u, _) = debit_ok id amount posting_id at n t t' h z in
      update-Ledger posting_id u l amount (omega int_laws)

  pub credit-Ledger :
      (id : Uuid) (amount : ℤ) (posting_id : ℕ) (at : Time) (n : ℕ) (t t' : Tables)
      → credit id amount posting_id at t ≡ ok (n, t')
      → (n == 0) ≡ false
      → Ledger owed ahead t
      → Ledger (owe id (pos 0 -ℤ amount) owed) (record_id id posting_id ahead) t'
  credit-Ledger id amount posting_id at n t t' h z l =
      let (row, u) = credit_ok id amount posting_id at n t t' h z in
      update-Ledger posting_id u l (pos 0 -ℤ amount) (omega int_laws)

abbrev pub owe_all : List Posting → (Uuid → ℤ) → Uuid → ℤ
owe_all [] owed = owed
owe_all (p ∷ ps) owed = owe_all ps (owe p.account_id p.amount owed)

abbrev pub advance_all : List Posting → (Uuid → ℕ) → Uuid → ℕ
advance_all [] ahead = ahead
advance_all (p ∷ ps) ahead = advance_all ps (advance p.account_id p.id ahead)

pub insert_postings-Ledger :
    (ps : List Posting) (t t' : Tables) (owed : Uuid → ℤ) (ahead : Uuid → ℕ)
    → insert_postings ps t ≡ ok t'
    → Ledger owed ahead t
    → Ledger (owe_all ps owed) (advance_all ps ahead) t'
unfolding insert_postings
insert_postings-Ledger [] t t' owed ahead h l = subst (Ledger owed ahead) (ground arith) l
insert_postings-Ledger (p ∷ ps) t t' owed ahead h l =
    let (u, e, g) = >>=-eq-ok (insert_posting p t) (insert_postings ps) t' h in
    insert_postings-Ledger ps u t' _ _ g (insert_posting-Ledger p t u e l)
