-- ===== src/Worker/Uncanceled.antt =====
-- While nothing fails, no call of a validation reports that its context was cancelled.
use high_load_ledger.Prelude.{
  ℕ, zero, suc, Bool, true, false, not, ltb, ◌≡◌, refl, Option, none, some, if◌then◌else◌, inl, inr,
  Bool-cases, Option-cases,
}
use high_load_ledger.Prelude.Int.{ℤ, pos, eq_ℤ, fits_int64, ltb_ℤ}
use high_load_ledger.Entity.{Uuid, Time, Account, account_not_found}
use high_load_ledger.Result.{Result, ok, err, or_error}
use high_load_ledger.Store.{Tables}
use high_load_ledger.Store.Rows.{latest_posting, find_account, postings_sum, postings_sum_to}
use high_load_ledger.Store.Statements.{correct, update_account}
use high_load_ledger.World.{
  Env, World, Session, closed, aborted, active, M, ◌>>=◌, pure, lift, now, fine, tick,
}
use high_load_ledger.World.Sure.{IsReliable}
use high_load_ledger.Postgres.{
  Querier, pool_querier, tx_querier, query, reading, scan_sum, in_tx, on_pool, begin, commit,
  rollback, run_in, settle, store, finish, get_postings_sum, get_account_balance_snapshot,
  apply_balance_correction, update_balance_from_context, read_write,
}
use high_load_ledger.Worker.Defs.{
  PostingWorker, is_canceled, context_err, record_balance_correction, correction, correct_balance,
  version_steps, validate_balance,
}

abbrev pub uncanceled : {A : Type 0} → Result A → Bool
uncanceled (ok a) = true
uncanceled (err e) = not (is_canceled e)

-- A call that never reports it.
abbrev pub Uncanceled : {A : Type 0} → M A → Type 0
Uncanceled m = (w : World) → uncanceled (m w).0 ≡ true

Uncanceled-bind :
    {A B : Type 0} (m : M A) (f : A → M B)
    → Uncanceled m
    → ((a : A) → Uncanceled (f a))
    → Uncanceled (m >>= f)
Uncanceled-bind {A} {B} m f h k w = split (m w) (h w)
  where
    split :
        (o : Result A × World)
        → uncanceled o.0 ≡ true
        → uncanceled
            (elim o.0 as (λ _. Result B × World) [ ok a ↦ f a o.1 | err e ↦ (err e, o.1) ]).0
          ≡ true
    split (ok a, v) e = k a v
    split (err x, v) e = e

-- The statements of a validation are refused for other reasons.
abbrev Honest : {A : Type 0} → (Tables → Result (A × Tables)) → Type 0
Honest f = (t : Tables) → uncanceled (f t) ≡ true

module _ {env : Env} (reliable : IsReliable env) where
  settled :
      {A : Type 0} (r : Result (A × Tables)) (w : World)
      → uncanceled r ≡ true
      → uncanceled (settle r w).0 ≡ true
  settled (ok (a, t)) w h = refl
  settled (err e) w h = h

  stored :
      {A : Type 0} (r : Result (A × Tables)) (w : World)
      → uncanceled r ≡ true
      → uncanceled (store r w).0 ≡ true
  stored (ok (a, t)) w h = refl
  stored (err e) w h = h

  ran :
      {A : Type 0} (f : Tables → Result (A × Tables)) (s : Session) (w : World)
      → Honest f
      → uncanceled (run_in s fine f w).0 ≡ true
  ran f closed w h = refl
  ran f aborted w h = refl
  ran f (active t) w h = settled (f t) w (h t)

  query-Uncanceled :
      {A : Type 0} (q : Querier) (f : Tables → Result (A × Tables))
      → Honest f
      → Uncanceled (query env q f)
  unfolding in_tx on_pool
  query-Uncanceled tx_querier f h w = rw (reliable.works w.clock) (ran f _ (tick env w) h)
  query-Uncanceled pool_querier f h w =
      rw (reliable.works w.clock) (stored (f (tick env w).db) (tick env w) (h _))

  reading-Uncanceled :
      {A : Type 0} (q : Querier) (f : Tables → A) → Uncanceled (query env q (reading f))
  reading-Uncanceled q f = query-Uncanceled q (reading f) (λ t. refl)

  found-Uncanceled : {A : Type 0} (o : Option A) → uncanceled (or_error o account_not_found) ≡ true
  found-Uncanceled none = refl
  found-Uncanceled (some a) = refl

  scanned-Uncanceled : (s : ℤ) → uncanceled (scan_sum s) ≡ true
  scanned-Uncanceled s = elim (Bool-cases (fits_int64 s)) [
    | inl fits ↦ rw fits refl
    | inr large ↦ rw large refl
  ]

  sum-Uncanceled :
      (q : Querier) (id : Uuid) (limit : ℕ) → Uncanceled (get_postings_sum env q id limit)
  unfolding get_postings_sum
  sum-Uncanceled q id limit =
      Uncanceled-bind
        (query env q (
          reading (λ t.
            if ltb 0 limit
            then postings_sum_to id limit t.postings
            else postings_sum id t.postings)))
        (λ s. lift (scan_sum s)) (reading-Uncanceled q _) (λ s w. scanned-Uncanceled s)

  snapshot-Uncanceled :
      (q : Querier) (id : Uuid) → Uncanceled (get_account_balance_snapshot env q id)
  unfolding get_account_balance_snapshot
  snapshot-Uncanceled q id =
      let k2 = λ (row : Account). pure (row.balance, row.latest_posting_id) in
      let k1 = λ (o : Option Account). lift (or_error o account_not_found) >>= k2 in
      Uncanceled-bind (query env q (reading (λ t. find_account id t.accounts))) k1
        (reading-Uncanceled q _)
        (λ o.
          Uncanceled-bind (lift (or_error o account_not_found)) k2 (λ w. found-Uncanceled o)
            (λ row w. refl))

  update_account-uncanceled :
      (row : Account) (amount : ℤ) (latest : ℕ) (at : Time) (t : Tables)
      → uncanceled (update_account row amount latest at t) ≡ true
  unfolding update_account
  update_account-uncanceled row amount latest at t = elim (Bool-cases (fits_int64 amount)) [
    | inr large ↦ rw large refl
    | inl fits ↦ elim (Bool-cases (ltb_ℤ amount (pos 0))) [
      | inl negative ↦ rw (fits, negative) refl
      | inr fine_amount ↦ rw (fits, fine_amount) refl
    ]
  ]

  correct-Honest : (id : Uuid) (amount : ℤ) (at : Time) → Honest (correct id amount at)
  unfolding correct
  correct-Honest id amount at t = elim (Option-cases (find_account id t.accounts)) [
    | inl missing ↦ rw (missing, correct) refl
    | inr (row, found) ↦
        rw (found, correct)
          (update_account-uncanceled row amount (latest_posting id t.postings) at t)
  ]

  update-Uncanceled :
      (q : Querier) (id : Uuid) (amount : ℤ)
      → Uncanceled (update_balance_from_context env q id amount)
  unfolding update_balance_from_context now
  update-Uncanceled q id amount =
      let k1 = λ (at : Time). query env q (correct id amount at) >>= λ _. pure tt in
      Uncanceled-bind (now env) k1 (now-Uncanceled) (λ at.
        Uncanceled-bind (query env q (correct id amount at)) (λ _. pure tt)
          (query-Uncanceled q _ (correct-Honest id amount at)) (λ _ w. refl))
    where
      now-Uncanceled : Uncanceled (now env)
      now-Uncanceled w = refl

  correction-Uncanceled : (b : Bool) (id : Uuid) → Uncanceled (correction env b id)
  unfolding correction apply_balance_correction record_balance_correction
  correction-Uncanceled b id =
      let k2 = λ (_ : Unit {0}). record_balance_correction b in
      let k1 = λ (s : ℤ). update_balance_from_context env tx_querier id s >>= k2 in
      Uncanceled-bind (get_postings_sum env tx_querier id 0) k1 (sum-Uncanceled tx_querier id 0)
        (λ s.
          Uncanceled-bind (update_balance_from_context env tx_querier id s) k2
            (update-Uncanceled tx_querier id s) (λ _. counted b))
    where
      counted : (b : Bool) → Uncanceled (record_balance_correction b)
      counted true w = refl
      counted false w = refl

  committed : (s : Session) (w : World) → uncanceled (finish s fine w).0 ≡ true
  committed closed w = refl
  committed aborted w = refl
  committed (active t) w = refl

  commit-Uncanceled : Uncanceled (commit env)
  unfolding commit
  commit-Uncanceled w = rw (reliable.works w.clock) (committed _ (tick env w))

  begin-Uncanceled : Uncanceled (begin env)
  unfolding begin
  begin-Uncanceled w = rw (reliable.works w.clock) refl

  correct_balance-Uncanceled : (b : Bool) (id : Uuid) → Uncanceled (correct_balance env b id)
  unfolding correct_balance read_write
  correct_balance-Uncanceled b id =
      let body = λ (w : World).
        let (r, w') = correction env b id w in
        elim r as (λ _. Result (Unit {0}) × World) [
          | ok _ ↦ commit env w'
          | err e ↦ (err e, (rollback env w').1)
        ] in
      Uncanceled-bind (begin env) (λ _. body) begin-Uncanceled
        (λ _ w. ended (correction env b id w) (correction-Uncanceled b id w))
    where
      ended :
          (o : Result (Unit {0}) × World)
          → uncanceled o.0 ≡ true
          → uncanceled
              (elim o.0 as (λ _. Result (Unit {0}) × World) [
                | ok _ ↦ commit env o.1
                | err e ↦ (err e, (rollback env o.1).1)
              ]).0
            ≡ true
      ended (ok a, v) h = commit-Uncanceled v
      ended (err e, v) h = h

  -- The context is never done.
  module _ (open_context : (n : ℕ) → env.context_error n ≡ none) where
    context_err-Uncanceled : Uncanceled (context_err env)
    unfolding context_err
    context_err-Uncanceled w = rw (open_context w.clock) refl

    decided-Uncanceled :
        (b : Bool) (m n : M (Unit {0}))
        → Uncanceled m
        → Uncanceled n
        → Uncanceled (if b then m else n)
    decided-Uncanceled true m n h k = h
    decided-Uncanceled false m n h k = k

    version_steps-Uncanceled :
        (b : Bool) (id : Uuid) (steps limit : ℕ) → Uncanceled (version_steps env b id steps limit)
    unfolding version_steps
    version_steps-Uncanceled b id zero limit = correct_balance-Uncanceled b id
    version_steps-Uncanceled b id (suc steps) limit =
        let snap = get_account_balance_snapshot env pool_querier id in
        let more = λ (upper : ℕ) (refreshed : ℤ × ℕ).
          (let again = version_steps env b id steps refreshed.1 in
            if ltb upper refreshed.1 then again else correct_balance env b id) in
        let compared = λ (snapshot : ℤ × ℕ) (upper : ℕ) (postings_sum : ℤ).
          if eq_ℤ postings_sum snapshot.0 then pure tt else (snap >>= more upper) in
        let upper_of = λ (snapshot : ℤ × ℕ). if ltb limit snapshot.1 then snapshot.1 else limit in
        let summed = λ (snapshot : ℤ × ℕ).
          get_postings_sum env pool_querier id (upper_of snapshot)
          >>= compared snapshot (upper_of snapshot) in
        Uncanceled-bind (context_err env) (λ _. snap >>= summed) context_err-Uncanceled
          λ _. Uncanceled-bind snap summed (snapshot-Uncanceled pool_querier id) λ snapshot.
            Uncanceled-bind (get_postings_sum env pool_querier id (upper_of snapshot))
              (compared snapshot (upper_of snapshot)) (sum-Uncanceled pool_querier id _)
              λ s.
                decided-Uncanceled (eq_ℤ s snapshot.0) (pure tt) (snap >>= more (upper_of snapshot))
                  (λ w. refl)
                  (Uncanceled-bind snap (more (upper_of snapshot))
                    (snapshot-Uncanceled pool_querier id)
                    λ refreshed.
                      decided-Uncanceled (ltb (upper_of snapshot) refreshed.1) _ _
                        (version_steps-Uncanceled b id steps refreshed.1)
                        (correct_balance-Uncanceled b id))

    pub validate_balance-Uncanceled :
        (pw : PostingWorker) (id : Uuid) (limit : ℕ) → Uncanceled (validate_balance env pw id limit)
    unfolding validate_balance
    validate_balance-Uncanceled pw id limit = version_steps-Uncanceled pw.has_metrics id 8 limit
