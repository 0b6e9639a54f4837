-- ===== src/Loadgen/Counted.antt =====
-- What `RecordDispatched` makes of the four counters when it is called many times.
use high_load_ledger.Prelude.{
  true, Bool, ◌==◌, ℕ, zero, suc, ◌+◌, ◌≡◌, refl, ap, ◌∙◌, false, if◌then◌else◌, arith,
}
use high_load_ledger.Prelude.Int.{pos, ℤ, ◌+ℤ◌}
use high_load_ledger.Loadgen.Builder.{
  stream_stats, stream_invalid_currency, stream_invalid_balance, stream_valid,
}
use high_load_ledger.Loadgen.Counters.{increment, PerStream, count_kind}
use high_load_ledger.Prelude.Words.{to_int64}

unfoldable pub count_times : ℕ → ℕ → PerStream → PerStream
unfolding count_kind
count_times zero kind d = d
count_times (suc n) kind d = count_times n kind (count_kind kind d)

pub count_times_add :
    (m n kind : ℕ) (d : PerStream)
    → count_times n kind (count_times m kind d) ≡ count_times (m + n) kind d
unfolding count_times
count_times_add zero n kind d = ap (λ k. count_times k kind d) {x = n} {y = 0 + n} (omega arith)
count_times_add (suc m) n kind d =
    count_times_add m n kind (count_kind kind d)
    ∙ ap (λ k. count_times k kind d) {x = suc (m + n)} {y = suc m + n} (omega arith)

-- An int64 that has been counted up n times.
abbrev pub bumped : ℕ → ℤ → ℤ
bumped zero x = x
bumped (suc n) x = bumped n (to_int64 (x +ℤ pos 1))

-- Of the four counters the one of the stream has been counted up n times.
pub record CountsFor (kind n : ℕ) (d e : PerStream) : Type 0 where
  pub valid : e.valid ≡ bumped (if kind == stream_valid then n else 0) d.valid
  pub invalid_balance :
      e.invalid_balance ≡ bumped (if kind == stream_invalid_balance then n else 0) d.invalid_balance
  pub invalid_currency :
      e.invalid_currency
      ≡ bumped (if kind == stream_invalid_currency then n else 0) d.invalid_currency
  pub stats : e.stats ≡ bumped (if kind == stream_stats then n else 0) d.stats

bumped_if :
    (b : Bool) (n : ℕ) (x : ℤ)
    → bumped (if b then n else 0) (if b then to_int64 (x +ℤ pos 1) else x)
      ≡ bumped (if b then suc n else 0) x
bumped_if true n x = refl
bumped_if false n x = refl

not_bumped : (b : Bool) (x : ℤ) → x ≡ bumped (if b then 0 else 0) x
not_bumped true x = refl
not_bumped false x = refl

count_kind-counts :
    (kind : ℕ) (d : PerStream)
    → let e = count_kind kind d in
      (e.valid ≡ (if kind == stream_valid then to_int64 (d.valid +ℤ pos 1) else d.valid))
      × (e.invalid_balance ≡ (
          if kind == stream_invalid_balance
          then to_int64 (d.invalid_balance +ℤ pos 1)
          else d.invalid_balance))
      × (e.invalid_currency ≡ (
          if kind == stream_invalid_currency
          then to_int64 (d.invalid_currency +ℤ pos 1)
          else d.invalid_currency))
      × (e.stats ≡ (if kind == stream_stats then to_int64 (d.stats +ℤ pos 1) else d.stats))
unfolding count_kind increment
count_kind-counts kind d = (ground arith, ground arith, ground arith, ground arith)

pub count_times-CountsFor : (n kind : ℕ) (d : PerStream) → CountsFor kind n d (count_times n kind d)
unfolding count_times
count_times-CountsFor zero kind d = record {
  valid = not_bumped (kind == stream_valid) d.valid;
  invalid_balance = not_bumped (kind == stream_invalid_balance) d.invalid_balance;
  invalid_currency = not_bumped (kind == stream_invalid_currency) d.invalid_currency;
  stats = not_bumped (kind == stream_stats) d.stats;
}
count_times-CountsFor (suc n) kind d =
    let c = count_times-CountsFor n kind (count_kind kind d) in
    let (a, b, u, v) = count_kind-counts kind d in
    record {
      valid =
          c.valid
          ∙ ap (bumped (if kind == stream_valid then n else 0)) a
          ∙ bumped_if (kind == stream_valid) n d.valid;
      invalid_balance =
          c.invalid_balance
          ∙ ap (bumped (if kind == stream_invalid_balance then n else 0)) b
          ∙ bumped_if (kind == stream_invalid_balance) n d.invalid_balance;
      invalid_currency =
          c.invalid_currency
          ∙ ap (bumped (if kind == stream_invalid_currency then n else 0)) u
          ∙ bumped_if (kind == stream_invalid_currency) n d.invalid_currency;
      stats =
          c.stats
          ∙ ap (bumped (if kind == stream_stats then n else 0)) v
          ∙ bumped_if (kind == stream_stats) n d.stats;
    }
