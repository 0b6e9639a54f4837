-- ===== src/World/Monad.antt =====
-- A call that can fail, on the state. The state comes back after an error too, since what was done
-- stays done.
use high_load_ledger.Prelude.{ℕ, suc, Bool}
use high_load_ledger.Entity.{Error, random_failed, Time, Uuid}
use high_load_ledger.Result.{Result, ok, err, refuse_if, or_error}
use high_load_ledger.Store.{Tables}
use high_load_ledger.World.Choices.{Env}
use high_load_ledger.World.State.{World, Session, closed, aborted, active}

abbrev pub M : Type 0 → Type 0
M A = World → Result A × World

infixl 5 ◌>>=◌ ◌>>◌
abbrev pub ◌>>=◌ : {A B : Type 0} → M A → (A → M B) → M B
◌>>=◌ m f w = let (r, w') = m w in elim r [ ok a ↦ f a w' | err e ↦ (err e, w') ]

abbrev pub ◌>>◌ : {B : Type 0} → M (Unit {0}) → M B → M B
m >> k = m >>= λ _. k

module _ {A : Type 0} where
  abbrev pub pure : A → M A
  pure a w = (ok a, w)

  abbrev pub raise : Error → M A
  raise e w = (err e, w)

  abbrev pub lift : Result A → M A
  lift r w = (r, w)

  -- `_ = call(…)`: the error is dropped.
  abbrev pub ignore : M A → M (Unit {0})
  ignore m w = (ok tt, (m w).1)

abbrev pub guard : Bool → Error → M (Unit {0})
guard test e w = (refuse_if test e, w)

-- The session after another one's commit: READ COMMITTED shows it to the next statement.
abbrev pub see : (Tables → Tables) → Session → Session
see f (active t) = active (f t)
see f closed = closed
see f aborted = aborted

module _ (env : Env) where
  -- A call begins: the clock advances, and the commits of others are there.
  unfoldable pub tick : World → World
  tick w = record w {
    db = env.others w.clock w.db;
    session = see (env.others w.clock) w.session;
    clock = suc w.clock;
  }

  unfoldable pub now : M Time
  now w = (ok (env.now w.clock), record w { clock = suc w.clock })

  unfoldable pub intn : ℕ → M ℕ
  intn bound w = (ok (env.intn w.clock bound), record w { clock = suc w.clock })

  unfoldable pub new_v7 : M Uuid
  new_v7 w = (or_error (env.new_v7 w.clock) random_failed, record w { clock = suc w.clock })
