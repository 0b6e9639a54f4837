-- ===== src/Accounts/Results.antt =====
-- What the caller of `AccountUseCase.CreateAccount` may conclude from its result.
use high_load_ledger.Prelude.{
  eq_of_==, ◌==◌, eq_of_some, Bool-cases, some, List, ℕ, false, ◌≡◌, ◌≢◌, refl, sym, ap, subst, ◌∙◌,
  ◌∷◌, ◌⊎◌, inl, inr, arith,
}
use high_load_ledger.Prelude.Int.{int_laws, ◌+ℤ◌, ltb_ℤ, pos}
use high_load_ledger.World.{NeverLoses, World, IsQuiet, Env}
use high_load_ledger.Entity.{Error, Posting, Transaction, Time, Account, Uuid, Currency}
use high_load_ledger.Store.Rows.{has_account, find_account}
use high_load_ledger.Store.{Tables}
use high_load_ledger.Store.Statements.{stored_row, insert_account}
use high_load_ledger.Accounts.{create_account, opening_posting, opening_transaction, empty_account}
use high_load_ledger.Result.{err, ok}
use high_load_ledger.Accounts.Opened.{Opened, Funded}
use high_load_ledger.Store.Laws.{
  UpdatesRow-rest, UpdatesRow-find_ne, UpdatesRow-find_self, insert_posting_ok,
  insert_transaction_ok, credit_ok, insert_account_ok,
}
use high_load_ledger.World.Frame.{Wp, Evolves-quiet}
use high_load_ledger.Postgres.Block.{Saved}
use high_load_ledger.Accounts.Created.{create_account-Wp, NotCreated, Created}

-- The account `id` is new, holds `n`, and no other account has changed; one posting says where
-- the money came from, unless it is 0.
pub record AccountOpened (c : Currency) (id : Uuid) (n : ℕ) (t u : Tables) : Type 0 where
  pub was_new : has_account id t.accounts ≡ false
  pub row :
      (r : Account) × (find_account id u.accounts ≡ some r) × (r.balance ≡ pos n) × (r.currency ≡ c)
  pub others : (x : Uuid) → x ≢ id → find_account x u.accounts ≡ find_account x t.accounts
  pub journal :
      ((n ≡ 0) × (u.postings ≡ t.postings) × (u.transactions ≡ t.transactions))
      ⊎ ((p : Posting) × (p.account_id ≡ id) × (p.amount ≡ pos n) × (u.postings ≡ p ∷ t.postings))

find_added : (a : Account) (rs : List Account) → find_account a.id (a ∷ rs) ≡ some a
unfolding find_account
find_added a rs = ground arith

find_unadded :
    (a : Account) (x : Uuid) (rs : List Account)
    → x ≢ a.id
    → find_account x (a ∷ rs) ≡ find_account x rs
unfolding find_account
find_unadded a x rs ne = elim (Bool-cases (a.id == x)) [
  | inl e ↦ absurd (ne (sym (eq_of_== a.id x e)))
  | inr e ↦ ground arith
]

module _ {env : Env} (quiet : IsQuiet env) (id : Uuid) (c : Currency) (at : Time) (n : ℕ) where
  abbrev acc : Account
  acc = empty_account id c at

  opened_empty :
      (t u : Tables)
      → insert_account acc t ≡ ok u
      → ltb_ℤ (pos 0) (pos n) ≡ false
      → AccountOpened c id n t u
  opened_empty t u h z =
      let (fresh, _, rows) = insert_account_ok acc t u h in
      let zero_n : (n ≡ 0) = ground arith in
      subst (AccountOpened c id n t) (sym rows) (record {
        was_new = fresh;
        row = (acc, find_added acc t.accounts, ap pos (sym zero_n), refl);
        others = λ x ne. find_unadded acc x t.accounts ne;
        journal = inl (zero_n, refl, refl);
      })

  -- The tables when the posting is there.
  posted_rows :
      (t s u : Tables) (trx : Transaction)
      → insert_account acc t ≡ ok s
      → (f : Funded env trx s u)
      → f.posted ≡ record t {
        accounts = acc ∷ t.accounts;
        transactions = stored_row trx ∷ t.transactions;
        postings = record (opening_posting trx) { id = f.posting_id } ∷ t.postings;
      }
  posted_rows t s u trx h f =
      let added = (insert_account_ok acc t s h).2 in
      let before = Evolves-quiet quiet f.seen in
      let headed = (insert_transaction_ok trx f.before f.headed f.inserted).rows in
      let between = Evolves-quiet quiet f.seen_between in
      let p : Posting = record (opening_posting trx) { id = f.posting_id } in
      let posted = (insert_posting_ok p f.between f.posted f.journal).3 in
      posted
      ∙ ap {A = Tables} (λ v. record v { postings = p ∷ v.postings })
          (between
            ∙ headed
            ∙ ap {A = Tables} (λ v. record v { transactions = stored_row trx ∷ v.transactions })
                (before ∙ added))

  opened-Funded :
      (t s u : Tables) (key trx_id : Uuid) (trx_at : Time)
      → insert_account acc t ≡ ok s
      → Funded env (opening_transaction acc (pos n) key trx_id trx_at) s u
      → AccountOpened c id n t u
  opened-Funded t s u key trx_id trx_at h f =
      let trx = opening_transaction acc (pos n) key trx_id trx_at in
      let fresh = (insert_account_ok acc t s h).0 in
      let there = posted_rows t s u trx h f in
      let seen = Evolves-quiet quiet f.credited.seen ∙ there in
      let (r, up) =
        credit_ok id (pos n) f.posting_id f.credited.at f.credited.rows f.credited.before u
          f.credited.result f.credited.changed in
      let found =
        sym up.found ∙ ap (λ v. find_account id v.accounts) seen ∙ find_added acc t.accounts in
      let same = eq_of_some r acc found in
      record {
        was_new = fresh;
        row = (
          _,
          UpdatesRow-find_self up,
          ap (λ a. a.balance +ℤ pos n) same ∙ omega int_laws,
          ap (λ a. a.currency) same,
        );
        others = λ x ne.
            UpdatesRow-find_ne up x ne
            ∙ ap (λ v. find_account x v.accounts) seen
            ∙ find_unadded acc x t.accounts ne;
        journal = inr (_, refl, refl, (UpdatesRow-rest up).1 ∙ ap (λ v. v.postings) seen);
      }

  Created-Opened :
      (t u : Tables) → Saved env (Opened env acc (pos n)) t u → AccountOpened c id n t u
  Created-Opened t u x =
      let o = x.wrote in
      let whole = λ (v : Tables).
        subst (λ v'. AccountOpened c id n v' v)
          (Evolves-quiet quiet o.seen ∙ Evolves-quiet quiet x.seen) in
      subst (AccountOpened c id n t) (sym (Evolves-quiet quiet x.kept)) (
        whole x.after (elim o.funded [
          | inl (z, e) ↦
              subst (AccountOpened c id n o.before) (sym e)
                (opened_empty o.before o.added o.inserted z)
          | inr (_, (key, trx_id, trx_at, f)) ↦
              opened-Funded o.before o.added x.after key trx_id trx_at o.inserted f
        ]))

module _ (env : Env) (c : Currency) (w v : World) where
  -- An account that is created while no other session writes is a new one. It holds the number
  -- that was drawn, in the currency asked for, its one posting says so, unless the number is 0,
  -- no other account has changed, and nothing is published.
  pub create_account_ok :
      (id : Uuid)
      → IsQuiet env
      → create_account env c w ≡ (ok id, v)
      → (call : ℕ) × AccountOpened c id (env.intn call 100_000_000) w.db v.db
        × (v.published ≡ w.published)
  unfolding Wp
  create_account_ok id quiet h =
      let x =
        subst (Wp (λ i u. Created env c i w u) (λ u. NotCreated env c w u)) h
          (create_account-Wp env c w) in
      (
        x.call,
        Created-Opened quiet id c x.at (env.intn x.call 100_000_000) w.db v.db x.saved.saved,
        x.saved.published,
      )

  -- A creation that returns an error, while no other session writes and no answer is lost, has
  -- changed no table and published nothing.
  pub create_account_error :
      (e : Error)
      → IsQuiet env
      → NeverLoses env
      → create_account env c w ≡ (err e, v)
      → (v.db ≡ w.db) × (v.published ≡ w.published)
  unfolding Wp
  create_account_error e quiet sure h =
      elim (subst (Wp (λ i u. Created env c i w u) (λ u. NotCreated env c w u)) h
        (create_account-Wp env c w)) [
          | inl g ↦ (Evolves-quiet quiet g.db, g.published)
          | inr (n, x, f, _) ↦ absurd (sure.answered n x f)
        ]
