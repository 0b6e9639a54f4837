-- ===== src/World/Rely.antt =====
-- What the other sessions are relied on: they change a balance together with the journal.
use high_load_ledger.Prelude.{ℕ, refl}
use high_load_ledger.Prelude.Int.{ℤ}
use high_load_ledger.Entity.{Uuid}
use high_load_ledger.Store.{Tables}
use high_load_ledger.Store.Ledger.{
  IsConsistent-Ledger, nothing_ahead, nothing_owed, Ledger-IsConsistent, IsConsistent, Ledger,
}
use high_load_ledger.World.Choices.{Env}
use high_load_ledger.World.Frame.{Evolves, Evolves-keeps}

-- A commit of another session leaves the difference between each balance and the account's postings
-- as it is, and records the ids of the postings that it adds.
pub record Respects (env : Env) : Type 0 where
  pub keeps :
      (owed : Uuid → ℤ) (ahead : Uuid → ℕ) (n : ℕ) (t : Tables)
      → Ledger owed ahead t
      → Ledger owed ahead (env.others n t)

pub Evolves-Ledger :
    {env : Env} (respects : Respects env) {owed : Uuid → ℤ} {ahead : Uuid → ℕ} {t u : Tables}
    → Evolves env t u
    → Ledger owed ahead t
    → Ledger owed ahead u
Evolves-Ledger respects {owed} {ahead} =
    Evolves-keeps (Ledger owed ahead) (respects.keeps owed ahead)

module _ {env : Env} (respects : Respects env) where
  pub Evolves-IsConsistent : {t u : Tables} → Evolves env t u → IsConsistent t → IsConsistent u
  Evolves-IsConsistent {t} {u} e h =
      Ledger-IsConsistent nothing_owed nothing_ahead u (λ _. refl) (λ _. refl)
        (Evolves-Ledger respects e (IsConsistent-Ledger t h))
