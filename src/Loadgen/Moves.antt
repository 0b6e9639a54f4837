-- ===== src/Loadgen/Moves.antt =====
-- What the parts of a step of a run keep: the service, and the number of jobs to be counted.
use high_load_ledger.Prelude.{
  ℕ, ◌+◌, ◌≡◌, refl, ap, ◌∙◌, Bool, true, false, Option, none, some, List, [], ◌∷◌, ◌++◌, inl, inr,
  Bool-cases, arith,
}
use high_load_ledger.Wire.{UuidLib}
use high_load_ledger.Loadgen.Pool.{AccountPool}
use high_load_ledger.Loadgen.Builder.{TransferJob, reserved_job}
use high_load_ledger.Loadgen.Counters.{record_dispatched}
use high_load_ledger.Loadgen.Jobs.{CoreService, drop_reserved}
use high_load_ledger.Loadgen.Index.{IsIndexed}
use high_load_ledger.Loadgen.Reserve.{reserve_valid-IsIndexed}
use high_load_ledger.Loadgen.Service.{IsSound, return_reserved-IsIndexed}
use high_load_ledger.Loadgen.Load.{StreamAt, Pick, nothing, unreserved, funded, in_pool, build}
use high_load_ledger.Loadgen.Running.{count_recording-append, count_recording}

pub pool-IsSound :
    (s : CoreService) (p : AccountPool) → IsIndexed p → IsSound s → IsSound (record s { pool = p })
pool-IsSound s p ix i = record {
  indexed = ix;
  connected = i.connected;
  bounded = i.bounded;
  ok_counted = i.ok_counted;
  error_counted = i.error_counted;
}

pub dispatch-IsSound :
    (s : CoreService) (kind : ℕ)
    → IsSound s
    → IsSound (record s { stats = record_dispatched kind s.stats })
unfolding record_dispatched
dispatch-IsSound s kind i = record {
  indexed = i.indexed;
  connected = i.connected;
  bounded = i.bounded;
  ok_counted = i.ok_counted;
  error_counted = i.error_counted;
}

abbrev pub Kept : CoreService → Option (Option TransferJob × CoreService) → Type 0
Kept s o =
    (job : Option TransferJob) × (v : CoreService) × (o ≡ some (job, v))
    × IsSound v
    × (v.completed ≡ s.completed)

in_pool-Kept :
    (s : CoreService) (job : TransferJob) (r : Option (Bool × AccountPool))
    → (o : Bool × AccountPool) × (r ≡ some o) × IsIndexed o.1
    → (wrap : Option (Bool × AccountPool) → Option (Option TransferJob × AccountPool))
    → ((q : AccountPool) → wrap (some (true, q)) ≡ some (some job, q))
    → ((q : AccountPool) → wrap (some (false, q)) ≡ some (none, q))
    → IsSound s
    → Kept s (in_pool s (wrap r))
in_pool-Kept s job r ((true, q), e, ix) wrap reserved refused i = (
  some job,
  record s { pool = q },
  ap (λ z. in_pool s (wrap z)) e ∙ ap (in_pool s) (reserved q),
  pool-IsSound s q ix i,
  refl,
)
in_pool-Kept s job r ((false, q), e, ix) wrap reserved refused i = (
  none,
  record s { pool = q },
  ap (λ z. in_pool s (wrap z)) e ∙ ap (in_pool s) (refused q),
  pool-IsSound s q ix i,
  refl,
)

pub build-Kept : (pick : Pick) (s : CoreService) → IsSound s → Kept s (build pick s)
unfolding build
build-Kept nothing s i = (none, s, refl, i, refl)
build-Kept (unreserved job) s i = (some _, s, refl, i, refl)
build-Kept (funded a b amount) s i =
    in_pool-Kept s _ _ (reserve_valid-IsIndexed _ _ _ s.pool i.indexed) (reserved_job a b amount)
      (λ q. refl) (λ q. refl) i

pub drop_reserved-Indexed :
    (lib : UuidLib) (job : TransferJob) (p : AccountPool)
    → IsIndexed p
    → (q : AccountPool) × (drop_reserved lib job p ≡ some q) × IsIndexed q
unfolding drop_reserved
drop_reserved-Indexed lib job p ix = elim (Bool-cases job.reserved) [
  | inl held ↦ rw (held, drop_reserved) (return_reserved-IsIndexed lib job p ix)
  | inr free ↦ rw (free, drop_reserved) (p, refl, ix)
]

-- A stream that goes from one place of its loop to another, or leaves it, moves what it counts.
pub moved_count :
    (k : ℕ) (x y : StreamAt) (before after streams : List StreamAt)
    → streams ≡ before ++ (x ∷ after)
    → count_recording k (before ++ (y ∷ after)) + count_recording k (x ∷ [])
      ≡ count_recording k streams + count_recording k (y ∷ [])
moved_count k x y before after streams at = rw at (
    omega (
      arith,
      count_recording-append k before (x ∷ after),
      count_recording-append k (x ∷ []) after,
      count_recording-append k before (y ∷ after),
      count_recording-append k (y ∷ []) after,
    ))

pub left_count :
    (k : ℕ) (x : StreamAt) (before after streams : List StreamAt)
    → streams ≡ before ++ (x ∷ after)
    → count_recording k (before ++ after) + count_recording k (x ∷ []) ≡ count_recording k streams
left_count k x before after streams at = rw at (
    omega (
      arith,
      count_recording-append k before (x ∷ after),
      count_recording-append k (x ∷ []) after,
      count_recording-append k before after,
    ))
