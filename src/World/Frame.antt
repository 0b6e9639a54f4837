-- ===== src/World/Frame.antt =====
-- What a call leaves alone, and how facts about the calls of a `do` block join.
use high_load_ledger.Prelude.{arith, none, some, Option, ℕ, Bool, true, false, ◌≡◌, refl, ◌∙◌}
use high_load_ledger.Entity.{Error}
use high_load_ledger.Result.{or_error, Result, ok, err}
use high_load_ledger.Store.{Tables}
use high_load_ledger.World.Choices.{Env, IsQuiet}
use high_load_ledger.World.State.{World}
use high_load_ledger.World.Monad.{tick, new_v7, now, M, ◌>>=◌, guard}

-- Tables that differ by commits of other sessions.
pub data Evolves (env : Env) (t : Tables) : Tables → Type 0 where
  still : Evolves env t t
  more : {u : Tables} (n : ℕ) → Evolves env t u → Evolves env t (env.others n u)

module _ {env : Env} where
  pub Evolves-trans : {t u v : Tables} → Evolves env t u → Evolves env u v → Evolves env t v
  Evolves-trans p still = p
  Evolves-trans p (more n q) = more n (Evolves-trans p q)

  -- What each commit of another session keeps is kept.
  pub Evolves-keeps :
      (P : Tables → Type 0)
      → ((n : ℕ) (t : Tables) → P t → P (env.others n t))
      → {t u : Tables} → Evolves env t u
      → P t
      → P u
  Evolves-keeps P keep still h = h
  Evolves-keeps P keep (more n q) h = keep n _ (Evolves-keeps P keep q h)

  pub Evolves-quiet : IsQuiet env → {t u : Tables} → Evolves env t u → u ≡ t
  Evolves-quiet quiet still = refl
  Evolves-quiet quiet (more n q) = quiet.alone n _ ∙ Evolves-quiet quiet q

-- A call that commits nothing, publishes nothing and counts nothing.
pub record Frame (env : Env) (w w' : World) : Type 0 where
  pub db : Evolves env w.db w'.db
  pub published : w'.published ≡ w.published
  pub transfers : w'.transfers ≡ w.transfers

module _ {env : Env} where
  pub Frame-refl : (w : World) → Frame env w w
  Frame-refl w = record { db = still; published = refl; transfers = refl }

  pub Frame-trans : {u v w : World} → Frame env u v → Frame env v w → Frame env u w
  Frame-trans f g = record {
    db = Evolves-trans f.db g.db;
    published = g.published ∙ f.published;
    transfers = g.transfers ∙ f.transfers;
  }

-- What holds after a call: `Q` if it returns a value, `E` if it returns an error.
unfoldable pub Wp :
    {A : Type 0} → (A → World → Type 0) → (World → Type 0) → Result A × World → Type 0
Wp Q E (ok a, w) = Q a w
Wp Q E (err e, w) = E w

pub Wp-bind :
    {A B : Type 0} {P : A → World → Type 0} (Q : B → World → Type 0) (E : World → Type 0)
    → (m : M A) (f : A → M B) (w : World) → Wp P E (m w)
    → ((a : A) (w' : World) → P a w' → Wp Q E (f a w'))
    → Wp Q E ((m >>= f) w)
unfolding Wp
Wp-bind {A} {B} {P} Q E m f w h k = split (m w) h
  where
    split :
        (o : Result A × World)
        → Wp P E o
        → Wp Q E (elim o.0 [ ok a ↦ f a o.1 | err e ↦ (err e, o.1) ])
    split (ok a, w') p = k a w' p
    split (err e, w') p = p

pub Wp-weaken :
    {A : Type 0} {P : A → World → Type 0} (Q : A → World → Type 0) {D : World → Type 0}
    → (E : World → Type 0) (o : Result A × World) → Wp P D o
    → ((a : A) (w : World) → P a w → Q a w)
    → ((w : World) → D w → E w)
    → Wp Q E o
unfolding Wp
Wp-weaken Q E (ok a, w) h f g = f a w h
Wp-weaken Q E (err e, w) h f g = g w h

pub Wp-pure :
    {A : Type 0} (Q : A → World → Type 0) (E : World → Type 0) (a : A) (w : World)
    → Q a w
    → Wp Q E (ok a, w)
unfolding Wp
Wp-pure Q E a w h = h

pub guard-Wp :
    (Q : Unit {0} → World → Type 0) (E : World → Type 0) (test : Bool) (e : Error) (w : World)
    → (test ≡ false → Q tt w)
    → (test ≡ true → E w)
    → Wp Q E (guard test e w)
unfolding Wp
guard-Wp Q E true e w f g = g refl
guard-Wp Q E false e w f g = f refl

pub Wp-lift :
    {A : Type 0} (Q : A → World → Type 0) (E : World → Type 0) (r : Result A) (w : World)
    → ((a : A) → r ≡ ok a → Q a w)
    → E w
    → Wp Q E (r, w)
unfolding Wp
Wp-lift Q E (ok a) w f g = f a refl
Wp-lift Q E (err e) w f g = g

pub some_of_or_error :
    {A : Type 0} (o : Option A) (e : Error) (a : A) → or_error o e ≡ ok a → o ≡ some a
some_of_or_error none e a h = cc
some_of_or_error (some b) e a h = ground arith

-- One step of a block that began at `u`: its errors leave a frame, as those of the block do.
pub Wp-step :
    {A B : Type 0} {env : Env} {P : A → World → Type 0} (Q : B → World → Type 0)
    → (m : M A) (f : A → M B) {u w : World} → Frame env u w
    → Wp P (λ v. Frame env w v) (m w)
    → ((a : A) (v : World) → P a v → Wp Q (λ v'. Frame env u v') (f a v))
    → Wp Q (λ v. Frame env u v) ((m >>= f) w)
Wp-step {P = P} Q m f {u} {w} fr h k =
    Wp-bind Q _ m f w (Wp-weaken P _ (m w) h (λ a v p. p) (λ v g. Frame-trans fr g)) k

-- A call that leaves a frame, however it Ends.
abbrev pub Keeps : {A : Type 0} → Env → M A → Type 0
Keeps env m = (w : World) → Frame env w (m w).1

module _ (env : Env) where
  pub tick-Frame : (w : World) → Frame env w (tick env w)
  unfolding tick
  tick-Frame w = record { db = more w.clock still; published = refl; transfers = refl }

  pub Keeps-bind :
      {A B : Type 0} (m : M A) (f : A → M B)
      → Keeps env m
      → ((a : A) → Keeps env (f a))
      → Keeps env (m >>= f)
  Keeps-bind {A} {B} m f h k w = split (m w) (h w)
    where
      split :
          (o : Result A × World)
          → Frame env w o.1
          → Frame env w
              (elim o.0 as (λ _. Result B × World) [ ok a ↦ f a o.1 | err e ↦ (err e, o.1) ]).1
      split (ok a, w') fr = Frame-trans fr (k a w')
      split (err e, w') fr = fr

  pub Keeps-Wp :
      {A : Type 0} (m : M A) (w : World)
      → Keeps env m
      → Wp (λ _ v. Frame env w v) (λ v. Frame env w v) (m w)
  unfolding Wp
  Keeps-Wp {A} m w h = split (m w) (h w)
    where
      split :
          (o : Result A × World)
          → Frame env w o.1
          → Wp (λ _ v. Frame env w v) (λ v. Frame env w v) o
      split (ok a, v) fr = fr
      split (err e, v) fr = fr

  -- What the process asks of its own machine leaves the session alone too.
  pub now-Wp :
      (w : World)
      → Wp (λ _ v. (v.session ≡ w.session) × Frame env w v) (λ v. Frame env w v) (now env w)
  unfolding Wp now
  now-Wp w = (refl, record { db = still; published = refl; transfers = refl })

  or_error-Wp :
      {A : Type 0} (o : Option A) (e : Error) (w v : World)
      → v.session ≡ w.session
      → Frame env w v
      → Wp (λ _ u. (u.session ≡ w.session) × Frame env w u) (λ u. Frame env w u) (or_error o e, v)
  unfolding Wp
  or_error-Wp none e w v s fr = fr
  or_error-Wp (some a) e w v s fr = (s, fr)

  pub new_v7-Wp :
      (w : World)
      → Wp (λ _ v. (v.session ≡ w.session) × Frame env w v) (λ v. Frame env w v) (new_v7 env w)
  unfolding new_v7
  new_v7-Wp w =
      or_error-Wp (env.new_v7 w.clock) _ w _ refl
        (record { db = still; published = refl; transfers = refl })

  -- A check that calls nothing.
  pub lifted-Wp :
      (r : Result (Unit {0})) (w : World)
      → Wp (λ _ v. (r ≡ ok tt) × Frame env w v) (λ v. Frame env w v) (r, w)
  unfolding Wp
  lifted-Wp (ok tt) w = (refl, Frame-refl w)
  lifted-Wp (err e) w = Frame-refl w

  -- A result that is there already.
  pub lift-Wp :
      {A : Type 0} (r : Result A) (w : World)
      → Wp (λ a v. (r ≡ ok a) × (v.session ≡ w.session) × Frame env w v) (λ v. Frame env w v) (r, w)
  unfolding Wp
  lift-Wp (ok a) w = (refl, refl, Frame-refl w)
  lift-Wp (err e) w = Frame-refl w
