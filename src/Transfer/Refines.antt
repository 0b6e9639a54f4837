-- ===== src/Transfer/Refines.antt =====
-- `TransferUseCase.Transaction` keeps the promise of the book, for requests that come one after
-- the other.
use high_load_ledger.Prelude.{
  arith, true, suc, false, ◌+◌, ◌-◌, ℕ, Bool, ◌≡◌, sym, ap, subst, ◌∙◌, Option, none, some, List,
  [], ◌∷◌, All, ◌⊎◌, inl, inr,
}
use mathlib.Core.List.{Memᴰ}
use high_load_ledger.Prelude.Int.{ℤ}
use high_load_ledger.Entity.{DriverError, Uuid, Time, Account, TransactionRequest}
use high_load_ledger.Result.{Result, ok, err}
use high_load_ledger.Store.{Tables}
use high_load_ledger.Store.Rows.{find_account, has_key}
use high_load_ledger.World.{Fault, fine, refused, lost, Env, World, IsQuiet}
use high_load_ledger.World.Frame.{Evolves-quiet}
use high_load_ledger.Transfer.Defs.{TransferUseCase, transaction}
use high_load_ledger.Transfer.Effect.{Transferred, Committed-Transferred}
use high_load_ledger.Transfer.Counted.{Outcome, transaction-Outcome}
use high_load_ledger.Transfer.Spec.{
  Book, Applied, Step, accepted, rejected, unanswered, Steps, none_left, and_then, HasKey,
  one_key_once,
}

abbrev pub balance_of_row : Option Account → Option ℤ
balance_of_row none = none
balance_of_row (some row) = some row.balance

-- What the tables say of balances and keys.
abbrev pub book : Tables → Book
book t = record {
  balance = λ id. balance_of_row (find_account id t.accounts);
  used = λ k. has_key k t.transactions;
}

Transferred-Applied :
    (req : TransactionRequest) (id : Uuid) (at : Time) (t u : Tables)
    → Transferred req id at t u
    → Applied req (book t) (book u)
unfolding has_key
Transferred-Applied req id at t u x =
    let (a, found_a, after_a) = x.source_after in
    let (b, found_b, after_b) = x.target_after in
    record {
      had = x.source.balance;
      target_had = x.target.balance;
      positive = x.positive;
      covered = x.covered;
      source = ap balance_of_row x.source_found;
      target = ap balance_of_row x.target_found;
      source_after = ap balance_of_row found_a ∙ ap some after_a;
      target_after = ap balance_of_row found_b ∙ ap some after_b;
      others = λ z na nb. ap balance_of_row (x.others z na nb);
      new_key = x.new_key;
      keys = λ k. ap (has_key k) x.transactions;
    }

abbrev pub is_lost : Fault → Bool
is_lost fine = false
is_lost (refused e) = false
is_lost (lost e) = true

module _ (env : Env) (uc : TransferUseCase) where
  -- The answer of the call before the last was lost: after a commit the deferred rollback follows.
  abbrev pub answer_lost : World → Bool
  answer_lost v = is_lost (env.fault (v.clock - 2))

  was_lost :
      (v : World) (n : ℕ) (x : DriverError)
      → v.clock ≡ 1 + suc n
      → env.fault n ≡ lost x
      → answer_lost v ≡ true
  was_lost v n x last h =
      ap (λ k. is_lost (env.fault k)) {x = v.clock - 2} {y = n} (omega (arith, last)) ∙ ap is_lost h

  Outcome-Step :
      (req : TransactionRequest) (w v : World) (r : Result Uuid)
      → IsQuiet env
      → Outcome env uc req w (r, v)
      → Step req (answer_lost v) (book w.db) r (book v.db)
  Outcome-Step req w v (ok id) quiet (at, c, _, _) =
      accepted id (
        Transferred-Applied req id at w.db v.db (Committed-Transferred quiet req id at w.db v.db c))
  Outcome-Step req w v (err e) quiet (inl k, _, _) =
      subst (λ t. Step req (answer_lost v) (book w.db) (err e) (book t))
        (sym (Evolves-quiet quiet k)) (rejected e)
  Outcome-Step req w v (err e) quiet (inr (l, last), _, _) =
      unanswered e (was_lost v l.call l.error last l.fault) (
        Transferred-Applied req l.id l.at w.db v.db
          (Committed-Transferred quiet req l.id l.at w.db v.db l.committed))

  -- The requests are handled one after the other: the results, and the state at the end.
  unfoldable pub run_all :
      List TransactionRequest → World → List (TransactionRequest × Result Uuid) × World
  run_all [] w = ([], w)
  run_all (req ∷ reqs) w =
      let (r, w1) = transaction env uc req w in let (l, w2) = run_all reqs w1 in ((req, r) ∷ l, w2)

  -- For each of them, whether the answer of its commit was lost.
  unfoldable pub losses : List TransactionRequest → World → List Bool
  losses [] w = []
  losses (req ∷ reqs) w = let (r, w1) = transaction env uc req w in answer_lost w1 ∷ losses reqs w1

  -- Refinement: while no other session writes, any sequence of transfers does to the tables, seen
  -- as a book, what the promise allows for the results that the callers get. Each is carried out
  -- and answered, or refused with no effect; it may be carried out and reported as an error only if
  -- the answer of its call before the last was lost, which is then the commit before the rollback.
  pub run_all-refines :
      (reqs : List TransactionRequest) (w : World)
      → IsQuiet env
      → let (l, v) = run_all reqs w in Steps (book w.db) l (losses reqs w) (book v.db)
  unfolding run_all losses
  run_all-refines [] w quiet = none_left
  run_all-refines (req ∷ reqs) w quiet =
      let (r, w1) = transaction env uc req w in
      and_then (Outcome-Step req w w1 r quiet (transaction-Outcome env uc req w))
        (run_all-refines reqs w1 quiet)

  same_keys :
      (k : Uuid) (reqs : List TransactionRequest) (w : World)
      → All (λ req. req.idempotency_key ≡ k) reqs
      → All (HasKey k) (run_all reqs w).0
  unfolding run_all
  same_keys k [] w all = tt
  same_keys k (req ∷ reqs) w (key, all) = (key, same_keys k reqs (transaction env uc req w).1 all)

  -- Retrying is safe: of any number of requests with one idempotency key, sent one after the other
  -- because answers were lost or calls have failed, one at most is carried out, once; otherwise the
  -- balances and the used keys are what they were. No other session writes meanwhile.
  pub run_all-moves_once :
      (k : Uuid) (reqs : List TransactionRequest) (w : World)
      → IsQuiet env
      → All (λ req. req.idempotency_key ≡ k) reqs
      → let (l, v) = run_all reqs w in
        (book v.db ≡ book w.db)
        ⊎ ((req : TransactionRequest) × (r : Result Uuid) × Memᴰ (req, r) l
            × Applied req (book w.db) (book v.db))
  run_all-moves_once k reqs w quiet all =
      one_key_once k (run_all-refines reqs w quiet) (same_keys k reqs w all)
