-- ===== src/Store/Rows.antt =====
-- Rows by key: what a WHERE clause on a primary key, a foreign key or a SUM needs of a table.
use high_load_ledger.Prelude.{
  ℕ, zero, suc, Bool, true, false, ◌||◌, ◌&&◌, Option, none, some, List, [], ◌∷◌, leb, ltb, ◌==◌,
  if◌then◌else◌,
}
use high_load_ledger.Prelude.Int.{ℤ, pos, ◌+ℤ◌}
use high_load_ledger.Entity.{Uuid, Account, Posting, Transaction}

-- WHERE user_id = id, the primary key of ledger.accounts
unfoldable pub find_account : Uuid → List Account → Option Account
find_account id [] = none
find_account id (r ∷ rs) = if r.id == id then some r else find_account id rs

-- the row with the key of `row` gets its columns
unfoldable pub put_account : Account → List Account → List Account
put_account row [] = []
put_account row (r ∷ rs) = if r.id == row.id then row ∷ rs else r ∷ put_account row rs

unfoldable pub has_account : Uuid → List Account → Bool
unfolding find_account
has_account id rs = elim (find_account id rs) [ none ↦ false | some _ ↦ true ]

-- WHERE id = id, the primary key of ledger.transactions
unfoldable pub find_transaction : Uuid → List Transaction → Option Transaction
find_transaction id [] = none
find_transaction id (t ∷ ts) = if t.id == id then some t else find_transaction id ts

unfoldable pub has_transaction : Uuid → List Transaction → Bool
unfolding find_transaction
has_transaction id ts = elim (find_transaction id ts) [ none ↦ false | some _ ↦ true ]

-- the UNIQUE column of ledger.transactions
unfoldable pub has_key : Uuid → List Transaction → Bool
has_key k [] = false
has_key k (t ∷ ts) = t.idempotency_key == k || has_key k ts

unfoldable pub has_posting : ℕ → List Posting → Bool
has_posting id [] = false
has_posting id (p ∷ ps) = p.id == id || has_posting id ps

-- SELECT COALESCE(SUM(amount), 0) … WHERE account_id = id
unfoldable pub postings_sum : Uuid → List Posting → ℤ
postings_sum id [] = pos 0
postings_sum id (p ∷ ps) =
    if p.account_id == id then p.amount +ℤ postings_sum id ps else postings_sum id ps

-- … AND id <= limit
unfoldable pub postings_sum_to : Uuid → ℕ → List Posting → ℤ
postings_sum_to id limit [] = pos 0
postings_sum_to id limit (p ∷ ps) =
    if p.account_id == id && leb p.id limit
    then p.amount +ℤ postings_sum_to id limit ps
    else postings_sum_to id limit ps

-- SELECT COALESCE(MAX(id), 0) FROM ledger.postings WHERE account_id = id
unfoldable pub latest_posting : Uuid → List Posting → ℕ
latest_posting id [] = 0
latest_posting id (p ∷ ps) =
    let rest = latest_posting id ps in if p.account_id == id && ltb rest p.id then p.id else rest

-- SELECT COALESCE(MAX(id), 0) FROM ledger.postings
unfoldable pub max_posting : List Posting → ℕ
max_posting [] = 0
max_posting (p ∷ ps) = let rest = max_posting ps in if ltb rest p.id then p.id else rest

-- SELECT DISTINCT account_id … WHERE id > lo AND id <= hi ORDER BY account_id
unfoldable pub insert_distinct : Uuid → List Uuid → List Uuid
insert_distinct a [] = a ∷ []
insert_distinct a (b ∷ bs) =
    if a == b then b ∷ bs else (if ltb a b then a ∷ b ∷ bs else b ∷ insert_distinct a bs)

unfoldable pub active_accounts : ℕ → ℕ → List Posting → List Uuid
active_accounts lo hi [] = []
active_accounts lo hi (p ∷ ps) =
    let rest = active_accounts lo hi ps in
    if ltb lo p.id && leb p.id hi then insert_distinct p.account_id rest else rest

unfoldable pub find_cursor : ℕ → List (ℕ × ℕ) → Option ℕ
find_cursor name [] = none
find_cursor name ((n, position) ∷ cs) = if n == name then some position else find_cursor name cs

-- INSERT … ON CONFLICT (worker_name) DO UPDATE SET position = EXCLUDED.position
unfoldable pub put_cursor : ℕ → ℕ → List (ℕ × ℕ) → List (ℕ × ℕ)
put_cursor name position [] = (name, position) ∷ []
put_cursor name position ((n, old) ∷ cs) =
    if n == name then (n, position) ∷ cs else (n, old) ∷ put_cursor name position cs

-- … WHERE account_id = id ORDER BY id DESC
unfoldable pub insert_by_id : Posting → List Posting → List Posting
insert_by_id p [] = p ∷ []
insert_by_id p (q ∷ qs) = if ltb p.id q.id then q ∷ insert_by_id p qs else p ∷ q ∷ qs

unfoldable pub postings_of : Uuid → List Posting → List Posting
unfolding insert_by_id
postings_of id [] = []
postings_of id (p ∷ ps) =
    let rest = postings_of id ps in if p.account_id == id then insert_by_id p rest else rest

-- LIMIT limit OFFSET offset
unfoldable pub page : ℕ → ℕ → List Posting → List Posting
page limit offset [] = []
page zero zero (p ∷ ps) = []
page (suc limit) zero (p ∷ ps) = p ∷ page limit zero ps
page limit (suc offset) (p ∷ ps) = page limit offset ps
