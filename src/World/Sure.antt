-- ===== src/World/Sure.antt =====
-- Runs in which nothing fails: every call is answered, no other session writes, and ids can be made.
use high_load_ledger.Prelude.{ℕ, ◌≡◌, refl, some}
use high_load_ledger.Entity.{Error, Uuid}
use high_load_ledger.Result.{Result, ok, err}
use high_load_ledger.World.Choices.{Env, IsQuiet, fine}
use high_load_ledger.World.State.{World}
use high_load_ledger.World.Monad.{M, ◌>>=◌, now, new_v7}
use high_load_ledger.World.Frame.{Wp, Wp-bind}

pub record IsReliable (env : Env) : Type 0 where
  pub works : (n : ℕ) → env.fault n ≡ fine
  pub quiet : IsQuiet env
  pub makes_id : (n : ℕ) → (id : Uuid) × (env.new_v7 n ≡ some id)

-- A call that returns a value, for which `Q` holds.
abbrev pub Sure : {A : Type 0} → (A → World → Type 0) → Result A × World → Type 0
Sure Q o = Wp Q (λ _. ⊥) o

module _ {A : Type 0} where
  pub Sure-value :
      (Q : A → World → Type 0) (o : Result A × World)
      → Sure Q o
      → (a : A) × (v : World) × (o ≡ (ok a, v)) × Q a v
  unfolding Wp
  Sure-value Q (ok a, v) h = (a, v, refl, h)
  Sure-value Q (err e, v) h = absurd h

  pub Sure-bind :
      {B : Type 0} {P : A → World → Type 0} (Q : B → World → Type 0) (m : M A) (f : A → M B)
      (w : World)
      → Sure P (m w)
      → ((a : A) (v : World) → P a v → Sure Q (f a v))
      → Sure Q ((m >>= f) w)
  Sure-bind Q m f w h k = Wp-bind Q (λ _. ⊥) m f w h k

module _ {env : Env} (reliable : IsReliable env) where
  pub now-Sure : (w : World) → Sure (λ _ v. (v.session ≡ w.session) × (v.db ≡ w.db)) (now env w)
  unfolding Wp now
  now-Sure w = (refl, refl)

  pub new_v7-Sure :
      (w : World)
      → Sure
          (λ id v. (env.new_v7 w.clock ≡ some id) × (v.session ≡ w.session) × (v.db ≡ w.db))
          (new_v7 env w)
  unfolding Wp new_v7
  new_v7-Sure w = let (id, e) = reliable.makes_id w.clock in rw (e, new_v7) (refl, refl, refl)

-- A result is looked at: only the case of a value counts.
pub Sure-elim :
    {A B : Type 0} (Q : A → World → Type 0) (R : B × World → Type 0) (o : Result A × World)
    (f : A → World → B × World) (g : Error → World → B × World)
    → Sure Q o
    → ((a : A) (v : World) → Q a v → R (f a v))
    → R (elim o.0 as (λ _. B × World) [ ok a ↦ f a o.1 | err e ↦ g e o.1 ])
unfolding Wp
Sure-elim Q R (ok a, v) f g h k = k a v h
Sure-elim Q R (err e, v) f g h k = absurd h
