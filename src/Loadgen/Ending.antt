-- ===== src/Loadgen/Ending.antt =====
-- That a run of `runLoad` can return from each of its states.
use high_load_ledger.Prelude.{
  some, Option, ℕ, zero, suc, ◌+◌, ◌≤◌, ◌≡◌, refl, sym, ap, subst, ◌∙◌, true, none, List, [], ◌∷◌,
  length, inl, inr, Bool-cases, arith,
}
use high_load_ledger.Wire.{UuidLib}
use high_load_ledger.Loadgen.Builder.{TransferJob}
use high_load_ledger.Loadgen.Calls.{Gateway}
use high_load_ledger.Loadgen.Jobs.{CoreService}
use high_load_ledger.Loadgen.Load.{
  record_job, StreamAt, building, sending, recording, Load, start_load, IsFinished, drop_job,
  with_service, Step, returns, drops, records, cancels, takes, handles, closes, exits, Runs,
  unmoved, moved,
}
use high_load_ledger.Loadgen.Service.{IsSound, handle_job-Handled}
use high_load_ledger.Loadgen.Running.{IsRunning, start_load-IsRunning, not_empty}
use high_load_ledger.Loadgen.Moves.{drop_reserved-Indexed}
use high_load_ledger.Loadgen.Steps.{Step-IsRunning, Runs-IsRunning}

some_waits : (n m : ℕ) → 1 ≤ n + m → (1 ≤ m → (k : ℕ) × (n ≡ suc k)) → (k : ℕ) × (n ≡ suc k)
some_waits zero m h f = f (omega (arith, h))
some_waits (suc k) m h f = (k, refl)

served :
    (P : Load → Type 0) (s : Load) (r : Option CoreService) (u : CoreService)
    → r ≡ some u
    → P (record s { service = u })
    → P (with_service r s)
served P s r u e h = subst (λ z. P (with_service z s)) (sym e) h

module _ (lib : UuidLib) where
  Runs-trans : {s v u : Load} → Runs lib s v → Runs lib v u → Runs lib s u
  Runs-trans run unmoved = run
  Runs-trans run (moved later step) = moved (Runs-trans run later) step

  -- A state that is stopped.
  record Stopping (s : Load) : Type 0 where
    stop : s.stopped ≡ true
    running : IsRunning s

  record Silent (s : Load) : Type 0 where
    stop : s.stopped ≡ true
    running : IsRunning s
    returned : s.streams ≡ []

  abbrev Reaches : (Load → Type 0) → Load → Type 0
  Reaches P s = (u : Load) × Runs lib s u × P u

  after : (P : Load → Type 0) (s v : Load) → Step lib s v → Reaches P v → Reaches P s
  after P s v step (u, run, p) = (u, Runs-trans (moved unmoved step) run, p)

  streams_return : (l : List StreamAt) (s : Load) → s.streams ≡ l → Stopping s → Reaches Silent s
  streams_return [] s at h =
      (s, unmoved, record { stop = h.stop; running = h.running; returned = at })
  streams_return (building kind ∷ l) s at h =
      let step = returns kind [] l at h.stop in
      after Silent s _ step (
        streams_return l _ refl
          (record { stop = h.stop; running = Step-IsRunning lib s h.running _ step }))
  streams_return (sending job ∷ l) s at h =
      let (p, e, ix) = drop_reserved-Indexed lib job s.service.pool h.running.sound.indexed in
      let step : Step lib s _ = drops job [] l at h.stop in
      let left = subst (λ z. (drop_job [] l z s).streams ≡ l) (sym e) refl in
      let stop = subst (λ z. (drop_job [] l z s).stopped ≡ true) (sym e) h.stop in
      after Silent s _ step (
        streams_return l _ left
          (record { stop = stop; running = Step-IsRunning lib s h.running _ step }))
  streams_return (recording kind ∷ l) s at h =
      let step : Step lib s _ = records kind [] l at in
      let counted = Step-IsRunning lib s h.running _ step in
      let again : Step lib (record_job [] l kind s) _ = returns kind [] l refl h.stop in
      after Silent s _ step (
        after Silent _ _ again (
          streams_return l _ refl
            (record { stop = h.stop; running = Step-IsRunning lib _ counted _ again })))

  module _ (gateway : Gateway) where
    -- No worker is busy.
    record Waiting (s : Load) : Type 0 where
      silent : Silent s
      none_works : s.busy ≡ []

    handled_step :
        (job : TransferJob) (l : List TransferJob) (s : Load)
        → s.busy ≡ job ∷ l
        → Silent s
        → (v : Load) × Step lib s v × Silent v × (v.busy ≡ l) × (v.jobs ≡ s.jobs)
    handled_step job l s at h =
        let (u, o, e, iu, same) =
          handle_job-Handled lib gateway none job s.service h.running.sound in
        let step : Step lib s _ = handles job [] l gateway none at in
        (
          _,
          step,
          record {
            stop = served (λ z. z.stopped ≡ true) _ _ u e h.stop;
            running = Step-IsRunning lib s h.running _ step;
            returned = served (λ z. z.streams ≡ []) _ _ u e h.returned;
          },
          served (λ z. z.busy ≡ l) _ _ u e refl,
          served (λ z. z.jobs ≡ s.jobs) _ _ u e refl,
        )

    workers_finish : (l : List TransferJob) (s : Load) → s.busy ≡ l → Silent s → Reaches Waiting s
    workers_finish [] s at h = (s, unmoved, record { silent = h; none_works = at })
    workers_finish (job ∷ l) s at h =
        let (v, step, hv, left, _) = handled_step job l s at h in
        after Waiting s v step (workers_finish l v left hv)

    one_waits :
        (job : TransferJob) (l : List TransferJob) (s : Load)
        → s.jobs ≡ job ∷ l
        → Waiting s
        → (others : ℕ) × (s.idle ≡ suc others)
    one_waits job l s at h =
        some_waits s.idle s.exited (omega (arith, h.silent.running.staffed, ap length h.none_works))
          (λ x. not_empty job [] l _ (sym at ∙ (h.silent.running.emptied x).1))

    -- The channel is empty too.
    record Emptied (s : Load) : Type 0 where
      waiting : Waiting s
      none_left : s.jobs ≡ []

    channel_drains : (l : List TransferJob) (s : Load) → s.jobs ≡ l → Waiting s → Reaches Emptied s
    channel_drains [] s at h = (s, unmoved, record { waiting = h; none_left = at })
    channel_drains (job ∷ l) s at h =
        let (others, waits) = one_waits job l s at h in
        let step : Step lib s _ = takes job l others at waits in
        let taken : Silent (record s { jobs = l; busy = job ∷ s.busy; idle = others }) = record {
          stop = h.silent.stop;
          running = Step-IsRunning lib s h.silent.running _ step;
          returned = h.silent.returned;
        } in
        let (v, second, hv, left, rest) = handled_step job s.busy _ refl taken in
        after Emptied s _ step (
          after Emptied _ v second
            (channel_drains l v rest (record { silent = hv; none_works = left ∙ h.none_works })))

    workers_exit :
        (n : ℕ) (s : Load)
        → s.idle ≡ n
        → s.closed ≡ true
        → s.busy ≡ []
        → s.jobs ≡ []
        → Reaches IsFinished s
    workers_exit zero s at c busy jobs =
        (s, unmoved, record { closed = c; none_waits = at; none_works = busy })
    workers_exit (suc n) s at c busy jobs =
        after IsFinished s _ (exits n c jobs at) (workers_exit n _ refl c busy jobs)

    closes_then_exits : (s : Load) → Emptied s → Reaches IsFinished s
    closes_then_exits s h = elim (Bool-cases s.closed) [
      | inl c ↦ workers_exit s.idle s refl c h.waiting.none_works h.none_left
      | inr was_open ↦
          after IsFinished s _ (closes h.waiting.silent.stop h.waiting.silent.returned was_open)
            (workers_exit s.idle _ refl refl h.waiting.none_works h.none_left)
    ]

    then_reaches :
        (P Q : Load → Type 0) (s : Load)
        → Reaches P s
        → ((u : Load) → P u → Reaches Q u)
        → Reaches Q s
    then_reaches P Q s (u, run, p) f = let (v, more, q) = f u p in (v, Runs-trans run more, q)

    ends : (s : Load) → IsRunning s → Reaches IsFinished s
    ends s i =
        let stop : Step lib s _ = cancels in
        let stopping : Stopping (record s { stopped = true }) = record {
          stop = refl;
          running = Step-IsRunning lib s i _ stop;
        } in
        after IsFinished s _ stop (
          then_reaches Silent IsFinished _ (streams_return s.streams _ refl stopping) (λ u hu.
            then_reaches Waiting IsFinished u (workers_finish u.busy u refl hu) (λ v hv.
              then_reaches Emptied IsFinished v (channel_drains v.jobs v refl hv)
                closes_then_exits)))

-- From every state of a run the load can return: once the context is done, the streams can leave
-- their loops, the workers can handle all that is left in the channel, and all of them can return,
-- whatever the gateway answers. There is no deadlock. The run starts from a sound service that has
-- completed nothing, with at least one worker.
pub run_load_ends :
    (lib : UuidLib) (service : CoreService) (kinds : List ℕ) (workers capacity : ℕ)
    (gateway : Gateway) (v : Load)
    → IsSound service
    → service.completed ≡ []
    → 1 ≤ workers
    → Runs lib (start_load service kinds workers capacity) v
    → (u : Load) × Runs lib v u × IsFinished u
run_load_ends lib service kinds workers capacity gateway v sound none_completed staffed run =
    ends lib gateway v (
      Runs-IsRunning lib (start_load service kinds workers capacity) v run
        (start_load-IsRunning service kinds workers capacity sound none_completed staffed))
