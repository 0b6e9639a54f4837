-- ===== src/Postgres/Driver.antt =====
-- pgx.Tx and pgxpool.Pool, as far as the repository uses them.
use high_load_ledger.Entity.{driver, tx_closed, tx_aborted}
use high_load_ledger.Result.{Result, ok, err}
use high_load_ledger.Store.{Tables}
use high_load_ledger.World.{
  Env, Fault, fine, refused, lost, World, Session, closed, aborted, active, M, tick, CustomTx,
  pgx_tx,
}

-- The outcome of a statement in the open transaction.
abbrev pub settle : {A : Type 0} → Result (A × Tables) → World → Result A × World
settle (ok (a, t)) w = (ok a, record w { session = active t })
settle (err e) w = (err e, record w { session = aborted })

abbrev pub run_in :
    {A : Type 0} → Session → Fault → (Tables → Result (A × Tables)) → World → Result A × World
run_in closed fault f w = (err (driver tx_closed), w)
run_in aborted fault f w = (err (driver tx_aborted), w)
run_in (active t) fine f w = settle (f t) w
run_in (active t) (refused e) f w = (err (driver e), record w { session = aborted })
run_in (active t) (lost e) f w = (err (driver e), record w { session = aborted })

-- A statement that commits by itself.
abbrev pub store : {A : Type 0} → Result (A × Tables) → World → Result A × World
store (ok (a, t)) w = (ok a, record w { db = t })
store (err e) w = (err e, w)

abbrev pub run_alone :
    {A : Type 0} → Fault → (Tables → Result (A × Tables)) → World → Result A × World
run_alone fine f w = store (f w.db) w
run_alone (refused e) f w = (err (driver e), w)
run_alone (lost e) f w = (err (driver e), (store (f w.db) w).1)

abbrev pub start : Fault → World → Result CustomTx × World
start fine w = (ok pgx_tx, record w { session = active w.db })
start (refused e) w = (err (driver e), w)
start (lost e) w = (err (driver e), w)

abbrev pub finish : Session → Fault → World → Result (Unit {0}) × World
finish closed fault w = (err (driver tx_closed), w)
finish aborted fault w = (err (driver tx_aborted), record w { session = closed })
finish (active t) fine w = (ok tt, record w { db = t; session = closed })
finish (active t) (refused e) w = (err (driver e), record w { session = closed })
finish (active t) (lost e) w = (err (driver e), record w { db = t; session = closed })

-- The connection is dropped if ROLLBACK does not reach the server, which has the same effect.
abbrev pub abandon : Session → World → Result (Unit {0}) × World
abandon closed w = (err (driver tx_closed), w)
abandon aborted w = (ok tt, record w { session = closed })
abandon (active t) w = (ok tt, record w { session = closed })

module _ (env : Env) where
  -- `tx.Exec`, `tx.Query`, `tx.QueryRow`
  unfoldable pub in_tx : {A : Type 0} → (Tables → Result (A × Tables)) → M A
  unfolding tick
  in_tx f w = let w' = tick env w in run_in w'.session (env.fault w.clock) f w'

  -- `pool.Exec`, `pool.Query`, `pool.QueryRow`
  unfoldable pub on_pool : {A : Type 0} → (Tables → Result (A × Tables)) → M A
  unfolding tick
  on_pool f w = run_alone (env.fault w.clock) f (tick env w)

  -- `pool.Begin`
  unfoldable pub begin : M CustomTx
  unfolding tick
  begin w = start (env.fault w.clock) (tick env w)

  -- `tx.Commit`
  unfoldable pub commit : M (Unit {0})
  unfolding tick
  commit w = let w' = tick env w in finish w'.session (env.fault w.clock) w'

  -- `tx.Rollback`
  unfoldable pub rollback : M (Unit {0})
  unfolding tick
  rollback w = let w' = tick env w in abandon w'.session w'
