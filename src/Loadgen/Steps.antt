-- ===== src/Loadgen/Steps.antt =====
-- That every step of a run keeps what holds in its states.
use high_load_ledger.Prelude.{
  length-append, ℕ, suc, ◌<◌, ◌≡◌, refl, sym, ap, subst, ◌∙◌, Option, none, some, List, [], ◌∷◌,
  ◌++◌, length, inl, inr, Bool-cases, arith,
}
use high_load_ledger.Wire.{UuidLib}
use high_load_ledger.Loadgen.Builder.{TransferJob}
use high_load_ledger.Loadgen.Jobs.{Outcome, CoreService}
use high_load_ledger.Loadgen.Service.{IsSound, handle_job-Handled}
use high_load_ledger.Loadgen.Load.{
  with_service, drop_job, StreamAt, building, sending, recording, Load, after_build, send_job, Step,
  builds, returns, sends, drops, records, cancels, takes, handles, closes, exits, Runs, unmoved,
  moved,
}
use high_load_ledger.Loadgen.Running.{
  count_jobs-append, not_empty, count_jobs, count_recording, IsRunning,
}
use high_load_ledger.Loadgen.Moves.{
  pool-IsSound, dispatch-IsSound, build-Kept, drop_reserved-Indexed, moved_count, left_count,
}

module _ (lib : UuidLib) (s : Load) (i : IsRunning s) where
  builds-IsRunning :
      (kind : ℕ) (before after : List StreamAt)
      → s.streams ≡ before ++ (building kind ∷ after)
      → (job : Option TransferJob) (v : CoreService) → IsSound v
      → v.completed ≡ s.service.completed
      → IsRunning (after_build kind before after (some (job, v)) s)
  builds-IsRunning kind before after at none v iv same = record {
    sound = iv;
    calm = i.calm;
    conserved = λ k. rw same (i.conserved k);
    bounded = i.bounded;
    senders = i.senders;
    emptied = i.emptied;
    staffed = i.staffed;
  }
  builds-IsRunning kind before after at (some job) v iv same = record {
    sound = iv;
    calm = i.calm;
    conserved = λ k. rw same (
        omega (
          arith,
          i.conserved k,
          moved_count k (building kind) (sending (record job { kind = kind })) before after
              s.streams at,
        ));
    bounded = i.bounded;
    senders = λ c. not_empty _ before after _ (sym at ∙ i.senders c);
    emptied = i.emptied;
    staffed = i.staffed;
  }

  leaves-IsRunning :
      (x : StreamAt) (before after : List StreamAt) (v : CoreService)
      → s.streams ≡ before ++ (x ∷ after)
      → ((k : ℕ) → count_recording k (x ∷ []) ≡ 0)
      → IsSound v
      → v.completed ≡ s.service.completed
      → IsRunning (record s { service = v; streams = before ++ after })
  leaves-IsRunning x before after v at uncounted iv same = record {
    sound = iv;
    calm = i.calm;
    conserved = λ k.
        rw same
          (omega (arith, i.conserved k, uncounted k, left_count k x before after s.streams at));
    bounded = i.bounded;
    senders = λ c. not_empty _ before after _ (sym at ∙ i.senders c);
    emptied = i.emptied;
    staffed = i.staffed;
  }

  sends-IsRunning :
      (job : TransferJob) (before after : List StreamAt)
      → s.streams ≡ before ++ (sending job ∷ after)
      → length s.jobs < s.capacity
      → IsRunning (send_job before after job s)
  sends-IsRunning job before after at room = elim (Bool-cases s.closed) [
    | inl c ↦ not_empty _ before after _ (sym at ∙ i.senders c)
    | inr open_yet ↦ rw open_yet (record {
      sound = i.sound;
      calm = i.calm;
      conserved = λ k. omega (
        arith,
        i.conserved k,
        count_jobs-append k s.jobs (job ∷ []),
        moved_count k (sending job) (recording job.kind) before after s.streams at,
      );
      bounded = omega (arith, room, length-append s.jobs (job ∷ []));
      senders = λ c. cc c;
      emptied = λ h. not_empty _ before after _ (sym at ∙ i.senders (i.emptied h).0);
      staffed = i.staffed;
    })
  ]

  handles-IsRunning :
      (job : TransferJob) (before after : List TransferJob) (v : CoreService) (o : Outcome)
      → s.busy ≡ before ++ (job ∷ after)
      → IsSound v
      → v.completed ≡ (job.kind, o) ∷ s.service.completed
      → IsRunning (record s { service = v; busy = before ++ after; idle = suc s.idle })
  handles-IsRunning job before after v o at iv same = record {
    sound = iv;
    calm = i.calm;
    conserved = λ k.
        let before_it = i.conserved k in
        let all = ap (count_jobs k) at ∙ count_jobs-append k before (job ∷ after) in
        rw same (omega (arith, before_it, all, count_jobs-append k before after));
    bounded = i.bounded;
    senders = i.senders;
    emptied = i.emptied;
    staffed = omega (
      arith,
      i.staffed,
      length-append before after,
      length-append before (job ∷ after),
      ap length at,
    );
  }

  pub Step-IsRunning : (v : Load) → Step lib s v → IsRunning v
  Step-IsRunning v (builds kind pick before after at) =
      let (job, u, e, iu, same) = build-Kept pick s.service i.sound in
      subst (λ z. IsRunning (after_build kind before after z s)) (sym e)
        (builds-IsRunning kind before after at job u iu same)
  Step-IsRunning v (returns kind before after at done) =
      leaves-IsRunning _ before after s.service at (λ k. refl) i.sound refl
  Step-IsRunning v (sends job before after at room) = sends-IsRunning job before after at room
  Step-IsRunning v (drops job before after at done) =
      let (p, e, ix) = drop_reserved-Indexed lib job s.service.pool i.sound.indexed in
      subst (λ z. IsRunning (drop_job before after z s)) (sym e)
        (leaves-IsRunning _ before after (record s.service { pool = p }) at (λ k. refl)
          (pool-IsSound s.service p ix i.sound) refl)
  Step-IsRunning v (records kind before after at) = record {
    sound = dispatch-IsSound s.service kind i.sound;
    calm = i.calm;
    conserved = λ k. omega (
      arith,
      i.conserved k,
      moved_count k (recording kind) (building kind) before after s.streams at,
    );
    bounded = i.bounded;
    senders = λ c. not_empty _ before after _ (sym at ∙ i.senders c);
    emptied = i.emptied;
    staffed = i.staffed;
  }
  Step-IsRunning v cancels = record {
    sound = i.sound;
    calm = i.calm;
    conserved = i.conserved;
    bounded = i.bounded;
    senders = i.senders;
    emptied = i.emptied;
    staffed = i.staffed;
  }
  Step-IsRunning v (takes job rest others at waits) = record {
    sound = i.sound;
    calm = i.calm;
    conserved = λ k. omega (arith, i.conserved k, ap (count_jobs k) at);
    bounded = omega (arith, i.bounded, ap length at);
    senders = i.senders;
    emptied = λ h. not_empty job [] rest _ (sym at ∙ (i.emptied h).1);
    staffed = omega (arith, i.staffed, waits);
  }
  Step-IsRunning v (handles job before after gateway ik at) =
      let (u, o, e, iu, same) = handle_job-Handled lib gateway ik job s.service i.sound in
      subst
        (λ z. IsRunning (with_service z (record s { busy = before ++ after; idle = suc s.idle })))
        (sym e) (handles-IsRunning job before after u o at iu same)
  Step-IsRunning v (closes done left was_open) = record {
    sound = i.sound;
    calm = i.calm;
    conserved = i.conserved;
    bounded = i.bounded;
    senders = λ c. left;
    emptied = λ h. (refl, (i.emptied h).1);
    staffed = i.staffed;
  }
  Step-IsRunning v (exits others c empty waits) = record {
    sound = i.sound;
    calm = i.calm;
    conserved = i.conserved;
    bounded = i.bounded;
    senders = i.senders;
    emptied = λ h. (c, empty);
    staffed = omega (arith, waits);
  }

pub Runs-IsRunning : (lib : UuidLib) (s v : Load) → Runs lib s v → IsRunning s → IsRunning v
Runs-IsRunning lib s v unmoved i = i
Runs-IsRunning lib s v (moved {v = u} run step) i =
    Step-IsRunning lib u (Runs-IsRunning lib s u run i) v step
