-- ===== src/Loadgen/Drained.antt =====
-- What a run of `runLoad` has done when it returns, and that it can return once it is stopped.
use high_load_ledger.Prelude.{ℕ, ◌≤◌, ◌≡◌, ap, false, List, [], length, arith}
use high_load_ledger.Wire.{UuidLib}
use high_load_ledger.Loadgen.Jobs.{CoreService}
use high_load_ledger.Loadgen.Load.{Load, start_load, IsFinished, Runs}
use high_load_ledger.Loadgen.Service.{IsSound}
use high_load_ledger.Loadgen.Running.{
  count_recording, count_jobs, IsRunning, start_load-IsRunning, count_dispatched, count_completed,
}
use high_load_ledger.Loadgen.Steps.{Runs-IsRunning}

module _ (lib : UuidLib) (service : CoreService) (kinds : List ℕ) (workers capacity : ℕ)
    (sound : IsSound service) (none_completed : service.completed ≡ [])
    (staffed : 1 ≤ workers) where
  reached : (v : Load) → Runs lib (start_load service kinds workers capacity) v → IsRunning v
  reached v run =
      Runs-IsRunning lib (start_load service kinds workers capacity) v run
        (start_load-IsRunning service kinds workers capacity sound none_completed staffed)

  -- In whatever order the streams, the workers and the cancellation take their steps, and whatever
  -- the gateway answers and the builders pick: if the service is sound and has completed nothing
  -- when the goroutines start, and there is a worker, then nothing panics (no job is sent on the
  -- closed channel, no lookup in the pool fails), the service stays sound, and the channel holds no
  -- more jobs than its capacity.
  pub run_load_safe :
      (v : Load)
      → Runs lib (start_load service kinds workers capacity) v
      → (v.panicked ≡ false) × IsSound v.service × (length v.jobs ≤ v.capacity)
  run_load_safe v run = let i = reached v run in (i.calm, i.sound, i.bounded)

  -- When the load returns, the channel is empty and each stream has as many completed jobs as it
  -- has dispatched. It starts from a sound service that has
  -- completed nothing, with at least one worker; the order of the steps, the gateway and the
  -- builders are arbitrary.
  pub run_load_completes :
      (v : Load)
      → Runs lib (start_load service kinds workers capacity) v
      → IsFinished v
      → (v.jobs ≡ [])
        × ((k : ℕ) → count_dispatched k v.dispatched ≡ count_completed k v.service.completed)
  run_load_completes v run f =
      let i = reached v run in
      let none_left =
        (i.emptied (omega (arith, i.staffed, f.none_waits, ap length f.none_works))).1 in
      (
        none_left,
        λ k. omega (
          arith,
          i.conserved k,
          ap (count_jobs k) none_left,
          ap (count_jobs k) f.none_works,
          ap (count_recording k) (i.senders f.closed),
        ),
      )
