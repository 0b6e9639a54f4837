-- ===== src/Loadgen/Service.antt =====
-- What holds of the load generator's service between two jobs, and that a job keeps it.
use high_load_ledger.Prelude.Words.{to_int64}
use high_load_ledger.Prelude.{
  ◌-◌, ℕ, suc, ◌≤◌, ◌≡◌, refl, ap, ◌∙◌, false, not, ◌&&◌, Option, none, some, List, [], ◌∷◌, length,
  ◌==◌, inl, inr, Bool-cases, Option-cases, arith,
}
use high_load_ledger.Prelude.Int.{ℤ, pos, int_laws}
use high_load_ledger.Entity.{Uuid, uuid_nil, Currency}
use high_load_ledger.Wire.{Bytes, UuidLib}
use high_load_ledger.Loadgen.Pool.{
  AccountPool, ref_of, rollback_valid, add_at, sub_at, if_indexed, then_pool,
}
use high_load_ledger.Loadgen.Builder.{TransferJob, stream_valid, stream_stats}
use high_load_ledger.Loadgen.Index.{IsIndexed}
use high_load_ledger.Loadgen.Balances.{held_of, write-IsIndexed, add_indexed, sub_indexed}
use high_load_ledger.Prelude.Wrap.{succ_wrap}
use high_load_ledger.Loadgen.Turns.{conn-some, remember-bounds}
use high_load_ledger.Loadgen.Counters.{record_completed, increment}
use high_load_ledger.Loadgen.Calls.{
  status, Answer, answered, rejected, status, no_key, no_id, TxManager, Gateway, conn, create_tx,
  get_transaction_call,
}
use high_load_ledger.Loadgen.Jobs.{
  unknown_error, status_error, CoreService, Outcome, succeeded, complete_job, settle_job,
  handle_job, return_reserved, remember,
}

-- The number of jobs that succeeded.
abbrev pub successes : List (ℕ × Outcome) → ℕ
successes [] = 0
successes ((kind, succeeded) ∷ l) = suc (successes l)
successes ((kind, _) ∷ l) = successes l

-- The pool's index is right, there is a connection, no more than 10000 ids are remembered, and the
-- two counters, as an int64 holds them, are the numbers of the jobs that have succeeded and failed.
pub record IsSound (s : CoreService) : Type 0 where
  pub indexed : IsIndexed s.pool
  pub connected : 1 ≤ length s.tx.conns
  pub bounded : length s.recent_tx_ids ≤ 10000
  pub ok_counted : s.stats.completed_ok ≡ to_int64 (pos (successes s.completed))
  pub error_counted :
      s.stats.completed_error ≡ to_int64 (pos (length s.completed - successes s.completed))

module _ (p : AccountPool) (amount : ℤ) (ix : IsIndexed p) where
  added :
      (id : Uuid)
      → (q : AccountPool) × (if_indexed (ref_of id p.index) (λ r. add_at r amount) p ≡ some q)
        × IsIndexed q
  added id = elim (Option-cases (ref_of id p.index)) [
    | inl n ↦ (p, rw n refl, ix)
    | inr (r, f) ↦ let a = held_of id r p ix f in (_, add_indexed a amount, write-IsIndexed a _ ix)
  ]

  subtracted :
      (id : Uuid)
      → (q : AccountPool) × (if_indexed (ref_of id p.index) (λ r. sub_at r amount) p ≡ some q)
        × IsIndexed q
  subtracted id = elim (Option-cases (ref_of id p.index)) [
    | inl n ↦ (p, rw n refl, ix)
    | inr (r, f) ↦ let a = held_of id r p ix f in (_, sub_indexed a amount, write-IsIndexed a _ ix)
  ]

rollback_valid-IsIndexed :
    (from_id to_id : Uuid) (amount : ℤ) (p : AccountPool)
    → IsIndexed p
    → (v : AccountPool) × (rollback_valid from_id to_id amount p ≡ some v) × IsIndexed v
unfolding rollback_valid
rollback_valid-IsIndexed from_id to_id amount p ix =
    let (q, e, iq) = added p amount ix from_id in
    let (v, f, iv) = subtracted q amount iq to_id in
    (
      v,
      ap (λ o. then_pool o (λ q. if_indexed (ref_of to_id q.index) (λ r. sub_at r amount) q)) e ∙ f,
      iv,
    )

pub return_reserved-IsIndexed :
    (lib : UuidLib) (job : TransferJob) (p : AccountPool)
    → IsIndexed p
    → (v : AccountPool) × (return_reserved lib job p ≡ some v) × IsIndexed v
unfolding return_reserved
return_reserved-IsIndexed lib job p ix =
    elim (Option-cases (lib.from_bytes (lib.bytes job.from_id))) [
      | inl n ↦ rw (n, return_reserved) (p, refl, ix)
      | inr (a, e) ↦ elim (Option-cases (lib.from_bytes (lib.bytes job.to_id))) [
        | inl n ↦ rw (e, n, return_reserved) (p, refl, ix)
        | inr (b, f) ↦ rw (e, f, return_reserved) (rollback_valid-IsIndexed a b job.amount p ix)
      ]
    ]

successes-length : (l : List (ℕ × Outcome)) → successes l ≤ length l
successes-length [] = omega arith
successes-length ((kind, succeeded) ∷ l) = omega (arith, successes-length l)
successes-length ((kind, unknown_error) ∷ l) = omega (arith, successes-length l)
successes-length ((kind, status_error c) ∷ l) = omega (arith, successes-length l)

increment_counted : (n m : ℕ) → m ≡ suc n → increment (to_int64 (pos n)) ≡ to_int64 (pos m)
unfolding increment
increment_counted n m h = succ_wrap (pos n) ∙ ap to_int64 {y = pos m} (omega (int_laws, h))

failure :
    (s : CoreService) (tx : TxManager) (kind : ℕ) (o : Outcome)
    → successes ((kind, o) ∷ s.completed) ≡ successes s.completed
    → 1 ≤ length tx.conns
    → IsSound s
    → IsSound (record s {
      tx = tx;
      stats = record_completed false s.stats;
      completed = (kind, o) ∷ s.completed;
    })
unfolding record_completed
failure s tx kind o h c i = record {
  indexed = i.indexed;
  connected = c;
  bounded = i.bounded;
  ok_counted = rw h i.ok_counted;
  error_counted =
      ap increment i.error_counted
      ∙ increment_counted _ _ (omega (arith, h, successes-length s.completed));
}

complete_job-IsSound :
    {A : Type 0} (kind : ℕ) (a : Answer A) (tx : TxManager) (s : CoreService)
    → 1 ≤ length tx.conns
    → IsSound s
    → IsSound (complete_job kind a tx s)
unfolding complete_job record_completed
complete_job-IsSound kind (answered a) tx s c i = record {
  indexed = i.indexed;
  connected = c;
  bounded = i.bounded;
  ok_counted = ap increment i.ok_counted ∙ increment_counted _ _ refl;
  error_counted = i.error_counted ∙ ap (λ n. to_int64 (pos n)) (omega arith);
}
complete_job-IsSound kind (rejected (status code)) tx s c i =
    failure s tx kind (status_error code) refl c i
complete_job-IsSound kind (rejected no_key) tx s c i = failure s tx kind unknown_error refl c i
complete_job-IsSound kind (rejected no_id) tx s c i = failure s tx kind unknown_error refl c i

module _ (lib : UuidLib) where
  settle_job-IsSound :
      (job : TransferJob) (a : Answer Uuid) (s : CoreService)
      → IsSound s
      → (v : CoreService) × (settle_job lib job a s ≡ some v)
        × IsSound v
        × (v.completed ≡ s.completed)
  unfolding settle_job
  settle_job-IsSound job (rejected e) s i = elim (Bool-cases job.reserved) [
    | inr not_reserved ↦ rw (not_reserved, settle_job) (s, refl, i, refl)
    | inl reserved ↦
        let (p, e, ix) = return_reserved-IsIndexed lib job s.pool i.indexed in
        rw (reserved, e, settle_job)
          (
            record s { pool = p },
            refl,
            record {
              indexed = ix;
              connected = i.connected;
              bounded = i.bounded;
              ok_counted = i.ok_counted;
              error_counted = i.error_counted;
            },
            refl,
          )
  ]
  settle_job-IsSound job (answered id) s i =
      elim (Bool-cases (job.reserved && (job.kind == stream_valid && not (id == uuid_nil)))) [
        | inr other ↦ rw (other, settle_job) (s, refl, i, refl)
        | inl wanted ↦
            rw (wanted, settle_job)
              (
                record s { recent_tx_ids = remember id s.recent_tx_ids },
                refl,
                record {
                  indexed = i.indexed;
                  connected = i.connected;
                  bounded = remember-bounds id s.recent_tx_ids i.bounded;
                  ok_counted = i.ok_counted;
                  error_counted = i.error_counted;
                },
                refl,
              )
      ]

  abbrev Called : {A : Type 0} → Option (Answer A × TxManager) → Type 0
  Called {A} o = (a : Answer A) × (t : TxManager) × (o ≡ some (a, t)) × (1 ≤ length t.conns)

  create_tx-Called :
      (gateway : Gateway) (ik : Option Uuid) (currency : Currency) (user_from user_to : Bytes)
      (amount : ℤ) (t : TxManager)
      → 1 ≤ length t.conns
      → Called (create_tx lib gateway ik currency user_from user_to amount t)
  unfolding create_tx
  create_tx-Called gateway none currency user_from user_to amount t h = (_, t, refl, h)
  create_tx-Called gateway (some ik) currency user_from user_to amount t h =
      let (c, e, same) = conn-some t h in rw (e, create_tx) (_, (conn t).1, refl, rw same h)

  get_transaction_call-Called :
      (gateway : Gateway) (id : Uuid) (t : TxManager)
      → 1 ≤ length t.conns
      → Called (get_transaction_call lib gateway id t)
  unfolding get_transaction_call
  get_transaction_call-Called gateway id t h =
      let (c, e, same) = conn-some t h in
      rw (e, get_transaction_call) (_, (conn t).1, refl, rw same h)

  -- What a worker leaves: a sound service, and one more entry for its job.
  pub handle_job-Handled :
      (gateway : Gateway) (ik : Option Uuid) (job : TransferJob) (s : CoreService)
      → IsSound s
      → (v : CoreService) × (o : Outcome) × (handle_job lib gateway ik job s ≡ some v)
        × IsSound v
        × (v.completed ≡ (job.kind, o) ∷ s.completed)
  unfolding handle_job complete_job
  handle_job-Handled gateway ik job s i = elim (Bool-cases (job.kind == stream_stats)) [
    | inl reading ↦
        let (a, t, e, c) = get_transaction_call-Called gateway job.tx_id s.tx i.connected in
        rw (reading, e, handle_job) (_, _, refl, complete_job-IsSound job.kind a t s c i, refl)
    | inr writing ↦
        let (a, t, e, c) =
          create_tx-Called gateway ik job.currency (lib.bytes job.from_id) (lib.bytes job.to_id)
            job.amount s.tx i.connected in
        let (v, f, iv, same) =
          settle_job-IsSound job a (complete_job job.kind a t s)
            (complete_job-IsSound job.kind a t s c i) in
        rw (writing, e, handle_job) (v, _, f, iv, same)
  ]

  -- A worker handles any job, whatever the gateway answers, without a panic, counts it exactly
  -- once, and leaves a sound service: the index of the pool is right, at most 10000 ids are
  -- remembered, and the two counters are the numbers of jobs that succeeded and failed.
  pub handle_job-IsSound :
      (gateway : Gateway) (ik : Option Uuid) (job : TransferJob) (s : CoreService)
      → IsSound s
      → (v : CoreService) × (handle_job lib gateway ik job s ≡ some v)
        × IsSound v
        × (length v.completed ≡ suc (length s.completed))
  handle_job-IsSound gateway ik job s i =
      let (v, o, e, iv, same) = handle_job-Handled gateway ik job s i in (v, e, iv, ap length same)
