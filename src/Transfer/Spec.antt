-- ===== src/Transfer/Spec.antt =====
-- What the transfer service promises, without tables, calls and clocks: a book of balances, and
-- what a caller may see of a request.
use high_load_ledger.Prelude.{
  subst, ◌≡◌, ◌≢◌, refl, sym, ◌∙◌, Bool, true, false, ◌||◌, ◌==◌, ==_self, Option, some, List, [],
  ◌∷◌, All, ◌⊎◌, inl, inr,
}
use mathlib.Core.List.{Memᴰ}
use high_load_ledger.Prelude.Int.{ℤ, pos, ◌+ℤ◌, ◌-ℤ◌, ◌≤ℤ◌}
use high_load_ledger.Entity.{Uuid, Error, TransactionRequest}
use high_load_ledger.Result.{Result, ok, err}

-- The balance of each account that exists, and the keys of the requests that were carried out.
pub record Book : Type 0 where
  pub balance : Uuid → Option ℤ
  pub used : Uuid → Bool

-- The request is carried out: its amount goes from one account to the other, and its key is used.
pub record Applied (req : TransactionRequest) (b c : Book) : Type 0 where
  pub had : ℤ
  pub target_had : ℤ
  pub positive : pos 1 ≤ℤ req.amount
  pub covered : req.amount ≤ℤ had
  pub source : b.balance req.from_account_id ≡ some had
  pub target : b.balance req.to_account_id ≡ some target_had
  pub source_after : c.balance req.from_account_id ≡ some (had -ℤ req.amount)
  pub target_after : c.balance req.to_account_id ≡ some (target_had +ℤ req.amount)
  pub others :
      (x : Uuid) → x ≢ req.from_account_id → x ≢ req.to_account_id → c.balance x ≡ b.balance x
  pub new_key : b.used req.idempotency_key ≡ false
  pub keys : (k : Uuid) → c.used k ≡ (req.idempotency_key == k || b.used k)

-- One request: carried out and answered, refused with no effect, or, only if the answer of its
-- commit was lost, carried out and not answered.
pub data Step (req : TransactionRequest) (lost : Bool) (b : Book)
    : Result Uuid → Book → Type 0 where
  accepted : {c : Book} (id : Uuid) → Applied req b c → Step req lost b (ok id) c
  rejected : (e : Error) → Step req lost b (err e) b
  unanswered : {c : Book} (e : Error) → lost ≡ true → Applied req b c → Step req lost b (err e) c

-- Requests one after the other, with the answers that were lost.
pub data Steps : Book → List (TransactionRequest × Result Uuid) → List Bool → Book → Type 0 where
  none_left : {b : Book} → Steps b [] [] b
  and_then :
      {b c d : Book} {req : TransactionRequest} {r : Result Uuid}
      {l : List (TransactionRequest × Result Uuid)} {lost : Bool} {losses : List Bool}
      → Step req lost b r c
      → Steps c l losses d
      → Steps b ((req, r) ∷ l) (lost ∷ losses) d

abbrev pub HasKey : Uuid → TransactionRequest × Result Uuid → Type 0
HasKey k (req, r) = req.idempotency_key ≡ k

Applied-used :
    {req : TransactionRequest} {b c : Book} (k : Uuid)
    → Applied req b c
    → req.idempotency_key ≡ k
    → (b.used k ≡ false) × (c.used k ≡ true)
Applied-used {req} {b} {c} k a e =
    rw (← e) (a.new_key, a.keys req.idempotency_key ∙ rw (==_self req.idempotency_key) refl)

-- Once a key is used, requests with it change nothing, and none is accepted.
pub used_key_idle :
    {b d : Book} {l : List (TransactionRequest × Result Uuid)} {losses : List Bool} (k : Uuid)
    → Steps b l losses d
    → All (HasKey k) l
    → b.used k ≡ true
    → d ≡ b
used_key_idle k none_left all used = refl
used_key_idle k (and_then (accepted id a) rest) (key, all) used =
    absurd (cc (used, (Applied-used k a key).0))
used_key_idle k (and_then (rejected e) rest) (key, all) used = used_key_idle k rest all used
used_key_idle k (and_then (unanswered e _ a) rest) (key, all) used =
    absurd (cc (used, (Applied-used k a key).0))

-- Of requests with one key, one at most is carried out.
pub one_key_once :
    {b d : Book} {l : List (TransactionRequest × Result Uuid)} {losses : List Bool} (k : Uuid)
    → Steps b l losses d
    → All (HasKey k) l
    → (d ≡ b) ⊎ ((req : TransactionRequest) × (r : Result Uuid) × Memᴰ (req, r) l × Applied req b d)
one_key_once k none_left all = inl refl
one_key_once {b} {d} k (and_then (accepted id a) rest) (key, all) =
    let same = used_key_idle k rest all (Applied-used k a key).1 in
    inr (_, ok id, Memᴰ.head refl, subst (Applied _ b) (sym same) a)
one_key_once {b} {d} k (and_then (unanswered e _ a) rest) (key, all) =
    let same = used_key_idle k rest all (Applied-used k a key).1 in
    inr (_, err e, Memᴰ.head refl, subst (Applied _ b) (sym same) a)
one_key_once k (and_then (rejected e) rest) (key, all) = elim (one_key_once k rest all) [
  | inl same ↦ inl same
  | inr (req, r, there, a) ↦ inr (req, r, Memᴰ.tail there, a)
]
