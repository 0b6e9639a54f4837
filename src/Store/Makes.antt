-- ===== src/Store/Makes.antt =====
-- When the statements of a transfer succeed.
use high_load_ledger.Prelude.{
  ℕ, ◌≡◌, ◌≢◌, refl, ap, ◌∙◌, true, false, some, List, [], ◌∷◌, ◌==◌, arith,
}
use high_load_ledger.Prelude.Int.{ℤ, pos, ◌+ℤ◌, ◌-ℤ◌, ◌≤ℤ◌, leb_ℤ, ltb_ℤ, fits_int64}
use high_load_ledger.Entity.{Uuid, Time, Account, Posting, Transaction}
use high_load_ledger.Result.{ok, ◌>>=◌}
use high_load_ledger.Store.{Tables}
use high_load_ledger.Store.Rows.{find_account, has_account, has_transaction, has_key, has_posting}
use high_load_ledger.Store.Statements.{
  stored_row, insert_transaction, insert_posting, insert_postings, debit, credit, update_account,
}

pub has_account_found :
    (id : Uuid) (rs : List Account) (row : Account)
    → find_account id rs ≡ some row
    → has_account id rs ≡ true
unfolding has_account
has_account_found id rs row h = rw (h, has_account) refl

pub insert_transaction_makes :
    (tr : Transaction) (t : Tables)
    → pos 1 ≤ℤ tr.amount
    → has_transaction tr.id t.transactions ≡ false
    → has_key tr.idempotency_key t.transactions ≡ false
    → has_account tr.from_account_id t.accounts ≡ true
    → has_account tr.to_account_id t.accounts ≡ true
    → insert_transaction tr t ≡ ok (record t { transactions = stored_row tr ∷ t.transactions })
unfolding insert_transaction
insert_transaction_makes tr t p i k a b =
    let positive : leb_ℤ tr.amount (pos 0) ≡ false = ground (arith, p) in
    rw (positive, i, k, a, b) refl

insert_posting_makes :
    (p : Posting) (t : Tables)
    → has_posting p.id t.postings ≡ false
    → has_transaction p.transaction_id t.transactions ≡ true
    → has_account p.account_id t.accounts ≡ true
    → insert_posting p t ≡ ok (record t { postings = p ∷ t.postings })
unfolding insert_posting
insert_posting_makes p t new tr acc = rw (new, tr, acc, insert_posting) refl

still_new :
    (p q : Posting) (ps : List Posting)
    → has_posting q.id ps ≡ false
    → p.id ≢ q.id
    → has_posting q.id (p ∷ ps) ≡ false
unfolding has_posting
still_new p q ps new ne = let apart : (p.id == q.id) ≡ false = ground (arith, ne) in rw apart new

pub insert_two_postings_make :
    (p q : Posting) (t : Tables)
    → has_posting p.id t.postings ≡ false
    → has_posting q.id t.postings ≡ false
    → p.id ≢ q.id
    → has_transaction p.transaction_id t.transactions ≡ true
    → has_transaction q.transaction_id t.transactions ≡ true
    → has_account p.account_id t.accounts ≡ true
    → has_account q.account_id t.accounts ≡ true
    → insert_postings (p ∷ q ∷ []) t ≡ ok (record t { postings = q ∷ p ∷ t.postings })
unfolding insert_postings
insert_two_postings_make p q t new_p new_q ne tp tq known_p known_q =
    let t' = record t { postings = p ∷ t.postings } in
    ap (λ r. r >>= insert_postings (q ∷ [])) (insert_posting_makes p t new_p tp known_p)
    ∙ ap (λ r. r >>= insert_postings [])
        (insert_posting_makes q t' (still_new p q t.postings new_q ne) tq known_q)

in_range :
    (b a : ℤ)
    → fits_int64 b ≡ true
    → pos 1 ≤ℤ a
    → a ≤ℤ b
    → (fits_int64 (b -ℤ a) ≡ true) × (ltb_ℤ (b -ℤ a) (pos 0) ≡ false) × (leb_ℤ a b ≡ true)
unfolding ◌-ℤ◌
in_range b a f p l = (ground (arith, f, p, l), ground (arith, f, p, l), ground (arith, l))

above : (b a : ℤ) → pos 0 ≤ℤ b → pos 1 ≤ℤ a → ltb_ℤ (b +ℤ a) (pos 0) ≡ false
unfolding ◌+ℤ◌
above b a p q = ground (arith, p, q)

pub debit_makes :
    (id : Uuid) (amount : ℤ) (posting_id : ℕ) (at : Time) (row : Account) (t : Tables)
    → find_account id t.accounts ≡ some row
    → fits_int64 row.balance ≡ true
    → pos 1 ≤ℤ amount
    → amount ≤ℤ row.balance
    → (u : Tables) × (debit id amount posting_id at t ≡ ok (1, u))
unfolding debit update_account
debit_makes id amount posting_id at row t found f p l =
    let (fits, not_negative, covered) = in_range row.balance amount f p l in
    rw (found, covered, fits, not_negative, debit, update_account) (_, refl)

pub credit_makes :
    (id : Uuid) (amount : ℤ) (posting_id : ℕ) (at : Time) (row : Account) (t : Tables)
    → find_account id t.accounts ≡ some row
    → fits_int64 (row.balance +ℤ amount) ≡ true
    → pos 0 ≤ℤ row.balance
    → pos 1 ≤ℤ amount
    → (u : Tables) × (credit id amount posting_id at t ≡ ok (1, u))
unfolding credit update_account
credit_makes id amount posting_id at row t found fits p q =
    rw (found, fits, above row.balance amount p q, credit, update_account) (_, refl)
