-- ===== src/Worker/Sums.antt =====
-- The part of an account's postings that the worker looks at, and the accounts of a batch.
use high_load_ledger.Prelude.{
  All, ◌<◌, true, inl, inr, Bool-cases, ◌&&◌, false, ◌||◌, ℕ, ◌≤◌, ◌≡◌, refl, Bool, List, [], ◌∷◌,
  ◌==◌, ltb, leb, arith,
}
use high_load_ledger.Entity.{Uuid, Posting}
use high_load_ledger.Store.Rows.{
  postings_sum, postings_sum_to, latest_posting, insert_distinct, active_accounts,
}

-- A limit that no posting of the account exceeds leaves none out.
pub postings_sum_to-eq :
    (id : Uuid) (limit : ℕ) (ps : List Posting)
    → latest_posting id ps ≤ limit
    → postings_sum_to id limit ps ≡ postings_sum id ps
unfolding postings_sum postings_sum_to latest_posting
postings_sum_to-eq id limit [] h = refl
postings_sum_to-eq id limit (p ∷ ps) h = ground (arith, postings_sum_to-eq id limit ps)

-- The list has the account.
unfoldable pub has_user : Uuid → List Uuid → Bool
has_user a [] = false
has_user a (b ∷ bs) = a == b || has_user a bs

-- A posting of the account is in the batch (lo, hi].
unfoldable pub is_active : Uuid → ℕ → ℕ → List Posting → Bool
is_active a lo hi [] = false
is_active a lo hi (p ∷ ps) =
    (a == p.account_id && (ltb lo p.id && leb p.id hi)) || is_active a lo hi ps

has_user-insert :
    (a b : Uuid) (bs : List Uuid) → has_user a (insert_distinct b bs) ≡ (a == b || has_user a bs)
unfolding has_user insert_distinct
has_user-insert a b [] = refl
has_user-insert a b (c ∷ cs) = ground (arith, has_user-insert a b cs)

pub active_accounts-has_user :
    (a : Uuid) (lo hi : ℕ) (ps : List Posting)
    → has_user a (active_accounts lo hi ps) ≡ is_active a lo hi ps
unfolding active_accounts has_user is_active
active_accounts-has_user a lo hi [] = refl
active_accounts-has_user a lo hi (p ∷ ps) = ground (
  arith,
  active_accounts-has_user a lo hi ps,
  has_user-insert a p.account_id (active_accounts lo hi ps),
)

-- Ids in ascending order, each once.
abbrev pub IsAscending : List Uuid → Type 0
IsAscending [] = Unit
IsAscending (a ∷ l) = All (λ b. a < b) l × IsAscending l

above_insert :
    (x b : Uuid) (l : List Uuid)
    → x < b
    → All (λ c. x < c) l
    → All (λ c. x < c) (insert_distinct b l)
unfolding insert_distinct
above_insert x b [] h all = (h, tt)
above_insert x b (c ∷ cs) h (k, all) = elim (Bool-cases (b == c)) [
  | inl same ↦ rw same (k, all)
  | inr differs ↦ elim (Bool-cases (ltb b c)) [
    | inl before ↦ rw (differs, before) (h, (k, all))
    | inr behind ↦ rw (differs, behind) (k, above_insert x b cs h all)
  ]
]

above_trans : (x b : Uuid) (l : List Uuid) → x < b → All (λ c. b < c) l → All (λ c. x < c) l
above_trans x b [] h all = tt
above_trans x b (c ∷ cs) h (k, all) = (omega (arith, h, k), above_trans x b cs h all)

insert_distinct-IsAscending :
    (b : Uuid) (l : List Uuid) → IsAscending l → IsAscending (insert_distinct b l)
unfolding insert_distinct
insert_distinct-IsAscending b [] h = (tt, tt)
insert_distinct-IsAscending b (c ∷ cs) (all, h) = elim (Bool-cases (b == c)) [
  | inl same ↦ rw same (all, h)
  | inr differs ↦ elim (Bool-cases (ltb b c)) [
    | inl before ↦
        let less : b < c = ground (arith, before) in
        rw (differs, before) ((less, above_trans b c cs less all), (all, h))
    | inr behind ↦
        rw (differs, behind)
          (
            above_insert c b cs (ground (arith, differs, behind)) all,
            insert_distinct-IsAscending b cs h,
          )
  ]
]

pub active_accounts-IsAscending :
    (lo hi : ℕ) (ps : List Posting) → IsAscending (active_accounts lo hi ps)
unfolding active_accounts
active_accounts-IsAscending lo hi [] = tt
active_accounts-IsAscending lo hi (p ∷ ps) = elim (Bool-cases (ltb lo p.id && leb p.id hi)) [
  | inl taken ↦
      rw taken (insert_distinct-IsAscending p.account_id _ (active_accounts-IsAscending lo hi ps))
  | inr left_out ↦ rw left_out (active_accounts-IsAscending lo hi ps)
]

-- No posting is in an empty batch.
pub is_active-empty :
    (a : Uuid) (lo hi : ℕ) (ps : List Posting) → leb hi lo ≡ true → is_active a lo hi ps ≡ false
unfolding is_active
is_active-empty a lo hi [] h = refl
is_active-empty a lo hi (p ∷ ps) h = ground (arith, h, is_active-empty a lo hi ps h)
