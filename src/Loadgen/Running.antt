-- ===== src/Loadgen/Running.antt =====
-- What holds of a run of `runLoad` in every state, whatever the order of its steps.
use high_load_ledger.Prelude.{
  ℕ, ◌+◌, ◌≤◌, ◌≡◌, refl, Bool, true, false, List, [], ◌∷◌, ◌++◌, map, length, ◌==◌, if◌then◌else◌,
  arith,
}
use high_load_ledger.Loadgen.Builder.{TransferJob}
use high_load_ledger.Loadgen.Jobs.{Outcome, CoreService}
use high_load_ledger.Loadgen.Service.{IsSound}
use high_load_ledger.Loadgen.Load.{StreamAt, building, sending, recording, Load, start_load}

abbrev one_if : Bool → ℕ
one_if b = if b then 1 else 0

-- The number of jobs of a kind: in `dispatched_total`, with workers or in the channel, in
-- `completed_total`, and about to be counted by their streams.
abbrev pub count_dispatched : ℕ → List ℕ → ℕ
count_dispatched k [] = 0
count_dispatched k (x ∷ l) = one_if (x == k) + count_dispatched k l

abbrev pub count_jobs : ℕ → List TransferJob → ℕ
count_jobs k [] = 0
count_jobs k (job ∷ l) = one_if (job.kind == k) + count_jobs k l

abbrev pub count_completed : ℕ → List (ℕ × Outcome) → ℕ
count_completed k [] = 0
count_completed k ((kind, o) ∷ l) = one_if (kind == k) + count_completed k l

abbrev pub count_recording : ℕ → List StreamAt → ℕ
count_recording k [] = 0
count_recording k (building kind ∷ l) = count_recording k l
count_recording k (sending job ∷ l) = count_recording k l
count_recording k (recording kind ∷ l) = one_if (kind == k) + count_recording k l

pub count_jobs-append :
    (k : ℕ) (l m : List TransferJob) → count_jobs k (l ++ m) ≡ count_jobs k l + count_jobs k m
count_jobs-append k [] m = omega arith
count_jobs-append k (job ∷ l) m = omega (arith, count_jobs-append k l m)

pub count_recording-append :
    (k : ℕ) (l m : List StreamAt)
    → count_recording k (l ++ m) ≡ count_recording k l + count_recording k m
count_recording-append k [] m = omega arith
count_recording-append k (building kind ∷ l) m = count_recording-append k l m
count_recording-append k (sending job ∷ l) m = count_recording-append k l m
count_recording-append k (recording kind ∷ l) m = omega (arith, count_recording-append k l m)

pub not_empty :
    {A : Type 0} (x : A) (before after : List A) (C : Type 0) → before ++ (x ∷ after) ≡ [] → C
not_empty x [] after C h = cc h
not_empty x (y ∷ before) after C h = cc h

-- The service is sound, nothing has panicked, each job that a stream has sent is in one place, a
-- closed channel has no senders, and a worker returns only once it is closed and empty.
pub record IsRunning (s : Load) : Type 0 where
  pub sound : IsSound s.service
  pub calm : s.panicked ≡ false
  pub conserved :
      (k : ℕ)
      → count_dispatched k s.dispatched + count_recording k s.streams
        ≡ count_jobs k s.jobs + count_jobs k s.busy + count_completed k s.service.completed
  pub bounded : length s.jobs ≤ s.capacity
  pub senders : s.closed ≡ true → s.streams ≡ []
  pub emptied : 1 ≤ s.exited → (s.closed ≡ true) × (s.jobs ≡ [])
  pub staffed : 1 ≤ s.idle + length s.busy + s.exited

count_recording-start : (k : ℕ) (kinds : List ℕ) → count_recording k (map building kinds) ≡ 0
count_recording-start k [] = refl
count_recording-start k (kind ∷ kinds) = count_recording-start k kinds

pub start_load-IsRunning :
    (service : CoreService) (kinds : List ℕ) (workers capacity : ℕ)
    → IsSound service
    → service.completed ≡ []
    → 1 ≤ workers
    → IsRunning (start_load service kinds workers capacity)
start_load-IsRunning service kinds workers capacity sound none_completed some_worker = record {
  sound = sound;
  calm = refl;
  conserved = λ k. rw (none_completed, count_recording-start k kinds) refl;
  bounded = omega arith;
  senders = λ h. cc h;
  emptied = λ h. absurd (omega (arith, h));
  staffed = omega (arith, some_worker);
}
