-- ===== src/Loadgen/Counters.antt =====
-- `LoadStats` and `ValidateAchieved`: what the load generator counts, and the rates that it reports.
-- Floating-point numbers are a parameter.
use high_load_ledger.Prelude.Words.{to_int64}
use high_load_ledger.Prelude.{ℕ, ◌^◌, Bool, true, false, ◌&&◌, ◌==◌, if◌then◌else◌}
use high_load_ledger.Prelude.Int.{ℤ, pos, ◌+ℤ◌, ◌-ℤ◌, eq_ℤ}
use high_load_ledger.Loadgen.Builder.{
  stream_valid, stream_invalid_balance, stream_invalid_currency, stream_stats,
}

-- One `int64` for each stream.
pub record PerStream : Type 0 where
  pub valid : ℤ
  pub invalid_balance : ℤ
  pub invalid_currency : ℤ
  pub stats : ℤ

abbrev pub no_dispatches : PerStream
no_dispatches = record {
  valid = pos 0;
  invalid_balance = pos 0;
  invalid_currency = pos 0;
  stats = pos 0;
}

pub record LoadStats : Type 0 where
  pub dispatched : PerStream
  pub completed_ok : ℤ
  pub completed_error : ℤ
  pub last_dispatched : PerStream
  pub last_tick : ℤ

abbrev pub new_load_stats : LoadStats
new_load_stats = record {
  dispatched = no_dispatches;
  completed_ok = pos 0;
  completed_error = pos 0;
  last_dispatched = no_dispatches;
  last_tick = pos 0;
}

-- `x.Add(1)` of an `atomic.Int64`
unfoldable pub increment : ℤ → ℤ
unfolding to_int64
increment x = to_int64 (x +ℤ pos 1)

-- The `switch` of `RecordDispatched`, on the four counters; any other kind is not counted.
unfoldable pub count_kind : ℕ → PerStream → PerStream
unfolding increment
count_kind kind d =
    if kind == stream_valid
    then record d { valid = increment d.valid }
    else (if kind == stream_invalid_balance
        then record d { invalid_balance = increment d.invalid_balance }
        else (if kind == stream_invalid_currency
            then record d { invalid_currency = increment d.invalid_currency }
            else (if kind == stream_stats then record d { stats = increment d.stats } else d)))

-- `RecordDispatched`
unfoldable pub record_dispatched : ℕ → LoadStats → LoadStats
unfolding count_kind
record_dispatched kind s = record s { dispatched = count_kind kind s.dispatched }

-- `RecordCompleted`; the flag says whether err is nil
unfoldable pub record_completed : Bool → LoadStats → LoadStats
unfolding increment
record_completed true s = record s { completed_ok = increment s.completed_ok }
record_completed false s = record s { completed_error = increment s.completed_error }

-- What the code uses of `float64`.
pub record Floats : Type 1 where
  pub F : Type 0
  pub of_int : ℤ → F
  pub minus : F → F → F
  pub times : F → F → F
  pub divide : F → F → F
  pub less : F → F → Bool
  pub at_most : F → F → Bool

module _ (fl : Floats) where
  pub record Rates : Type 0 where
    pub valid : fl.F
    pub invalid_balance : fl.F
    pub invalid_currency : fl.F
    pub stats : fl.F

  abbrev pub no_rates : Rates
  no_rates =
      let z = fl.of_int (pos 0) in
      record { valid = z; invalid_balance = z; invalid_currency = z; stats = z }

  -- `float64(cur - last) / elapsed`
  abbrev pub rate_of : fl.F → ℤ → ℤ → fl.F
  rate_of elapsed current last = fl.divide (fl.of_int (to_int64 (current -ℤ last))) elapsed

  -- `float64(now - prev) / float64(time.Second)`
  unfoldable pub elapsed_seconds : ℤ → ℤ → fl.F
  elapsed_seconds at prev = fl.divide (fl.of_int (to_int64 (at -ℤ prev))) (fl.of_int (pos (10 ^ 9)))

  abbrev pub tick_at : ℤ → LoadStats → LoadStats
  tick_at at s = record s { last_dispatched = s.dispatched; last_tick = at }

  -- `rates` at a time in nanoseconds: the first call only sets the mark.
  unfoldable pub rates : ℤ → LoadStats → Rates × LoadStats
  unfolding elapsed_seconds
  rates at s =
      if eq_ℤ s.last_tick (pos 0)
      then (no_rates, tick_at at s)
      else (let elapsed = elapsed_seconds at s.last_tick in
          if fl.at_most elapsed (fl.of_int (pos 0)) then (no_rates, s) else (
            record {
              valid = rate_of elapsed s.dispatched.valid s.last_dispatched.valid;
              invalid_balance =
                  rate_of elapsed s.dispatched.invalid_balance s.last_dispatched.invalid_balance;
              invalid_currency =
                  rate_of elapsed s.dispatched.invalid_currency s.last_dispatched.invalid_currency;
              stats = rate_of elapsed s.dispatched.stats s.last_dispatched.stats;
            },
            tick_at at s,
          ))

  -- `ValidateAchieved`: whether it returns nil
  unfoldable pub validate_achieved : fl.F → fl.F → fl.F → Bool
  validate_achieved target achieved tolerance =
      if fl.at_most target (fl.of_int (pos 0))
      then true
      else (if fl.less achieved (fl.times target (fl.minus (fl.of_int (pos 1)) tolerance))
          then false
          else true)

  -- `logFinal`: whether the last line, that the rates are within the tolerance, is logged
  unfoldable pub log_final : Rates → fl.F → ℤ → LoadStats → Bool × LoadStats
  unfolding rates validate_achieved
  log_final target tolerance at s =
      let (r, s') = rates at s in
      (
        validate_achieved target.valid r.valid tolerance
            && validate_achieved target.invalid_balance r.invalid_balance tolerance
            && validate_achieved target.invalid_currency r.invalid_currency tolerance
            && validate_achieved target.stats r.stats tolerance,
        s',
      )
