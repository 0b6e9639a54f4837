-- ===== src/Loadgen/Stream.antt =====
-- `runPoissonStream`. What the clock, the timers, the context and the channel do in a round is an
-- argument; times are in nanoseconds.
use high_load_ledger.Prelude.{
  ℕ, ◌*◌, ◌^◌, ◌&&◌, Bool, Option, none, some, List, [], ◌∷◌, if◌then◌else◌,
}
use high_load_ledger.Prelude.Int.{ℤ, pos, ◌+ℤ◌, ◌-ℤ◌, ltb_ℤ}
use high_load_ledger.Loadgen.Builder.{TransferJob}
use high_load_ledger.Loadgen.Counters.{LoadStats, record_dispatched}

-- 250 ms
abbrev pub max_catch_up : ℤ
max_catch_up = pos (250 * 10 ^ 6)

-- A round of the loop, as far as the stream does not decide it.
pub record Round : Type 0 where
  -- `time.Now()` in `time.Until`, and whether the context is done before the timer fires
  pub now : ℤ
  pub done_waiting : Bool
  -- what `build` returns, and whether the context is done after it has failed
  pub built : Option TransferJob
  pub done_building : Bool
  -- the context is done before the channel takes the job
  pub done_sending : Bool
  -- `poissonDelay`, and `time.Now()` in `time.Since` and at the reset
  pub delay : ℤ
  pub since : ℤ
  pub reset : ℤ

-- The channel, newest first, what was dropped, and the counters.
pub record Stream : Type 0 where
  pub queued : List TransferJob
  pub dropped : List TransferJob
  -- `dispatched_total`, by stream
  pub dispatched : List ℕ
  pub stats : LoadStats
  pub next_at : ℤ

pub data Next : Type 0 where
  returned going_on : Stream → Next

abbrev pub stream_of : Next → Stream
stream_of (returned s) = s
stream_of (going_on s) = s

-- The next time, which a stream that lags behind does not let fall back too far.
unfoldable pub next_time : ℤ → ℤ → ℤ → ℤ → ℤ
next_time next_at delay since reset =
    let after = next_at +ℤ delay in
    if ltb_ℤ max_catch_up (since -ℤ after) then reset -ℤ max_catch_up else after

-- A job of this stream, with the channel ready or the context done.
unfoldable pub send : ℕ → Round → TransferJob → Stream → Next
unfolding record_dispatched next_time
send kind r job s =
    let job' = record job { kind = kind } in
    if r.done_sending
    then returned (record s { dropped = job' ∷ s.dropped })
    else going_on (record s {
      queued = job' ∷ s.queued;
      dispatched = kind ∷ s.dispatched;
      stats = record_dispatched kind s.stats;
      next_at = next_time s.next_at r.delay r.since r.reset;
    })

unfoldable pub run_round : ℕ → Round → Stream → Next
unfolding send
run_round kind r s =
    if ltb_ℤ r.now s.next_at && r.done_waiting then returned s else elim r.built as (λ _. Next) [
      | none ↦ if r.done_building then returned s else going_on s
      | some job ↦ send kind r job s
    ]

-- The loop, for as many rounds as there are; `wanted` is rps > 0.
unfoldable pub run_rounds : ℕ → List Round → Stream → Next
unfolding run_round
run_rounds kind [] s = going_on s
run_rounds kind (r ∷ rs) s = elim (run_round kind r s) as (λ _. Next) [
  | returned s' ↦ returned s'
  | going_on s' ↦ run_rounds kind rs s'
]

unfoldable pub run_poisson_stream : ℕ → Bool → List Round → Stream → Next
unfolding run_rounds
run_poisson_stream kind wanted rs s = if wanted then run_rounds kind rs s else returned s
