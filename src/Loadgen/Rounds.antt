-- ===== src/Loadgen/Rounds.antt =====
-- What a stream does with the jobs that it builds, and how far it falls behind.
use high_load_ledger.Prelude.{
  subst, Option-cases, length-append, ◌&&◌, ℕ, ◌+◌, ◌≤◌, ◌≡◌, refl, sym, ap, ◌∙◌, false, none, some,
  List, [], ◌∷◌, ◌++◌, length, if◌then◌else◌, inl, inr, Bool-cases, arith,
}
use mathlib.Core.List.{append_assoc}
use high_load_ledger.Prelude.Int.{ℤ, ◌+ℤ◌, ◌-ℤ◌, ◌≤ℤ◌, ltb_ℤ, int_laws}
use high_load_ledger.Loadgen.Builder.{TransferJob}
use high_load_ledger.Loadgen.Counters.{record_dispatched}
use high_load_ledger.Loadgen.Stream.{
  Round, Stream, Next, returned, going_on, stream_of, next_time, max_catch_up, send, run_round,
  run_rounds,
}
use high_load_ledger.Loadgen.Counted.{
  count_times, count_times_add, CountsFor, count_times-CountsFor,
}

le_of_not_lt : (a b : ℤ) → ltb_ℤ a b ≡ false → b ≤ℤ a
le_of_not_lt a b h = ground arith

-- The time of the next job is not more than the catch-up before the clock, read when the lag was
-- measured, if the clock does not go back between this reading and the next.
pub next_time-bounds :
    (next_at delay since reset : ℤ)
    → since ≤ℤ reset
    → since ≤ℤ next_time next_at delay since reset +ℤ max_catch_up
unfolding next_time
next_time-bounds next_at delay since reset forward =
    elim (Bool-cases (ltb_ℤ max_catch_up (since -ℤ (next_at +ℤ delay)))) [
      | inl late ↦ rw late (omega (int_laws, forward))
      | inr early ↦
          rw early (omega (int_laws, le_of_not_lt max_catch_up (since -ℤ (next_at +ℤ delay)) early))
    ]

-- The job that `build` returns in a round, with the kind of the stream, if it comes to that.
unfoldable pub built_in : ℕ → Round → Stream → List TransferJob
built_in kind r s =
    if ltb_ℤ r.now s.next_at && r.done_waiting
    then []
    else elim r.built as (λ _. List TransferJob) [
      | none ↦ []
      | some job ↦ record job { kind = kind } ∷ []
    ]

-- Those of the rounds that take place, newest first.
unfoldable pub built_jobs : ℕ → List Round → Stream → List TransferJob
unfolding built_in run_round
built_jobs kind [] s = []
built_jobs kind (r ∷ rs) s =
    let later = elim (run_round kind r s) as (λ _. List TransferJob) [
      | returned s' ↦ []
      | going_on s' ↦ built_jobs kind rs s'
    ] in
    later ++ built_in kind r s

-- What became of the jobs, with the counters in the words of the code that counts.
record Tracked (kind : ℕ) (s v : Stream) (built : List TransferJob) : Type 0 where
  sent : List TransferJob
  lost : List TransferJob
  each : lost ++ sent ≡ built
  at_most_one : length lost ≤ 1
  queued : v.queued ≡ sent ++ s.queued
  dropped : v.dropped ≡ lost ++ s.dropped
  counted : v.stats.dispatched ≡ count_times (length sent) kind s.stats.dispatched

abbrev Sent : ℕ → Stream → Stream → List TransferJob → Type 0
Sent kind s v built =
    (v.queued ≡ built ++ s.queued)
    × (v.dropped ≡ s.dropped)
    × (v.stats.dispatched ≡ count_times (length built) kind s.stats.dispatched)

Sent-Tracked :
    (kind : ℕ) (s v : Stream) (built : List TransferJob)
    → Sent kind s v built
    → Tracked kind s v built
Sent-Tracked kind s v built (q, d, c) = record {
  sent = built;
  lost = [];
  each = refl;
  at_most_one = omega arith;
  queued = q;
  dropped = d;
  counted = c;
}

Tracked-after :
    (kind : ℕ) (s u v : Stream) (b built : List TransferJob)
    → Sent kind s u b
    → Tracked kind u v built
    → Tracked kind s v (built ++ b)
Tracked-after kind s u v b built (q, d, c) x = record {
  sent = x.sent ++ b;
  lost = x.lost;
  each = sym (append_assoc x.lost x.sent b) ∙ ap (λ l. l ++ b) x.each;
  at_most_one = x.at_most_one;
  queued = x.queued ∙ ap (λ l. x.sent ++ l) q ∙ sym (append_assoc x.sent b s.queued);
  dropped = x.dropped ∙ ap (λ l. x.lost ++ l) d;
  counted =
      x.counted
      ∙ ap (count_times (length x.sent) kind) c
      ∙ count_times_add (length b) (length x.sent) kind s.stats.dispatched
      ∙ ap (λ n. count_times n kind s.stats.dispatched) {x = length b + length x.sent}
          (omega (arith, length-append x.sent b));
}

-- A round settles the job that it builds; a stream that goes on has sent it.
abbrev RoundResult : ℕ → Stream → List TransferJob → Next → Type 0
RoundResult kind s built (returned v) = Tracked kind s v built
RoundResult kind s built (going_on v) = Sent kind s v built

nothing_built : (kind : ℕ) (s : Stream) → Sent kind s s []
unfolding count_times
nothing_built kind s = (refl, refl, refl)

send-result :
    (kind : ℕ) (r : Round) (job : TransferJob) (s : Stream)
    → RoundResult kind s (record job { kind = kind } ∷ []) (send kind r job s)
unfolding send record_dispatched count_times
send-result kind r job s = elim (Bool-cases r.done_sending) [
  | inl stopped ↦
      rw (stopped, send)
        (record {
          sent = [];
          lost = record job { kind = kind } ∷ [];
          each = refl;
          at_most_one = omega arith;
          queued = refl;
          dropped = refl;
          counted = refl;
        })
  | inr ready ↦ rw (ready, send) (refl, refl, refl)
]

run_round-result :
    (kind : ℕ) (r : Round) (s : Stream)
    → RoundResult kind s (built_in kind r s) (run_round kind r s)
unfolding run_round built_in
run_round-result kind r s = elim (Bool-cases (ltb_ℤ r.now s.next_at && r.done_waiting)) [
  | inl stopped ↦
      rw (stopped, run_round, built_in) (Sent-Tracked kind s s [] (nothing_built kind s))
  | inr waited ↦ elim (Option-cases r.built) [
    | inl nothing ↦ elim (Bool-cases r.done_building) [
      | inl stopped ↦
          rw (waited, nothing, stopped, run_round, built_in)
            (Sent-Tracked kind s s [] (nothing_built kind s))
      | inr again ↦ rw (waited, nothing, again, run_round, built_in) (nothing_built kind s)
    ]
    | inr (job, built) ↦ rw (waited, built, run_round, built_in) (send-result kind r job s)
  ]
]

Tracked-rest :
    (kind : ℕ) (rs : List Round) (s : Stream) (o : Next) (b : List TransferJob)
    → RoundResult kind s b o
    → ((v : Stream) → Tracked kind v (stream_of (run_rounds kind rs v)) (built_jobs kind rs v))
    → Tracked kind s
        (stream_of (elim o as (λ _. Next) [
          | returned s' ↦ returned s'
          | going_on s' ↦ run_rounds kind rs s'
        ]))
        ((elim o as (λ _. List TransferJob) [
          | returned s' ↦ []
          | going_on s' ↦ built_jobs kind rs s'
        ])
          ++ b)
Tracked-rest kind rs s (returned v) b h rest = h
Tracked-rest kind rs s (going_on v) b h rest =
    Tracked-after kind s v _ b (built_jobs kind rs v) h (rest v)

run_rounds-Tracked :
    (kind : ℕ) (rs : List Round) (s : Stream)
    → Tracked kind s (stream_of (run_rounds kind rs s)) (built_jobs kind rs s)
unfolding run_rounds built_jobs
run_rounds-Tracked kind [] s = Sent-Tracked kind s s [] (nothing_built kind s)
run_rounds-Tracked kind (r ∷ rs) s =
    Tracked-rest kind rs s (run_round kind r s) (built_in kind r s) (run_round-result kind r s)
      (run_rounds-Tracked kind rs)

-- What became of the jobs that were built between two states of a stream.
pub record Settled (kind : ℕ) (s v : Stream) (built : List TransferJob) : Type 0 where
  pub sent : List TransferJob
  pub lost : List TransferJob
  pub each : lost ++ sent ≡ built
  pub at_most_one : length lost ≤ 1
  pub queued : v.queued ≡ sent ++ s.queued
  pub dropped : v.dropped ≡ lost ++ s.dropped
  pub counted : CountsFor kind (length sent) s.stats.dispatched v.stats.dispatched

-- Every job that `build` returns is either put into the channel or dropped, and the counter of the
-- stream, of the four that there are, is counted up once for each job that is put there, as an int64
-- counts; nothing else is put there, counted or dropped, and no more than one job is dropped, which
-- is the last. This holds for any rounds: whatever the clock, the context and the channel do.
pub run_rounds-Settled :
    (kind : ℕ) (rs : List Round) (s : Stream)
    → Settled kind s (stream_of (run_rounds kind rs s)) (built_jobs kind rs s)
run_rounds-Settled kind rs s =
    let t = run_rounds-Tracked kind rs s in
    record {
      sent = t.sent;
      lost = t.lost;
      each = t.each;
      at_most_one = t.at_most_one;
      queued = t.queued;
      dropped = t.dropped;
      counted =
          subst (CountsFor kind (length t.sent) s.stats.dispatched) (sym t.counted)
            (count_times-CountsFor (length t.sent) kind s.stats.dispatched);
    }
