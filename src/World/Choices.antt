-- ===== src/World/Choices.antt =====
-- The choices of the environment, by the number of the call.
use high_load_ledger.Prelude.{ℕ, Bool, ◌≡◌, ◌≢◌, Option}
use high_load_ledger.Entity.{Uuid, Time, DriverError}
use high_load_ledger.Store.{Tables}
use high_load_ledger.World.State.{CacheKey}

-- How the network treats a call: it works, it fails with no effect, or it takes effect and the
-- answer is lost.
pub data Fault : Type 0 where
  fine : Fault
  refused lost : DriverError → Fault

pub record Env : Type 0 where
  pub fault : ℕ → Fault
  -- what other sessions have committed when call n reaches the database
  pub others : ℕ → Tables → Tables
  -- the value that the sequence of ledger.postings.id gives to a row of call n
  pub nextval : ℕ → ℕ → ℕ
  -- `uuid.NewV7()`, none for its error
  pub new_v7 : ℕ → Option Uuid
  -- `time.Now()`
  pub now : ℕ → Time
  -- `rand.Intn(bound)`
  pub intn : ℕ → ℕ → ℕ
  -- `ctx.Err()` before call n
  pub context_error : ℕ → Option DriverError
  -- whether the entry of a key is gone from Redis when call n reads it, its time to live being over
  pub expired : ℕ → CacheKey → Bool

-- No other session writes.
pub record IsQuiet (env : Env) : Type 0 where
  pub alone : (n : ℕ) (t : Tables) → env.others n t ≡ t

-- No answer is lost: a call that reports an error has had no effect.
pub record NeverLoses (env : Env) : Type 0 where
  pub answered : (n : ℕ) (e : DriverError) → env.fault n ≢ lost e
