-- ===== src/Worker/Active.antt =====
-- `GetActiveAccounts`: the accounts that a batch is about.
use high_load_ledger.Prelude.{ℕ, ◌≡◌, List}
use high_load_ledger.Entity.{Uuid}
use high_load_ledger.World.{Env, World, IsQuiet}
use high_load_ledger.Worker.Sums.{has_user, is_active, IsAscending}

module _ (env : Env) (lo hi : ℕ) (w : World) (quiet : IsQuiet env) where
  abbrev Lists : List Uuid → Type 0
  Lists users =
      ((a : Uuid) → has_user a users ≡ is_active a lo hi w.db.postings) × IsAscending users
