-- ===== src/Accounts/Created.antt =====
-- What `AccountUseCase.CreateAccount` leaves behind, on every branch.
use high_load_ledger.Prelude.{ℕ, ◌≡◌, refl, ◌⊎◌, inl, inr}
use high_load_ledger.World.{new_v7, lift, now, lost, pure, ignore, M, intn, World, Env, ◌>>=◌, ◌>>◌}
use high_load_ledger.Accounts.{write_account, empty_account, create_account, save_account}
use high_load_ledger.Entity.{
  invalid_currency, currency_unspecified, DriverError, Time, Account, Uuid, Currency,
}
use high_load_ledger.World.Frame.{
  now-Wp, new_v7-Wp, lift-Wp, Wp-weaken, Frame-trans, Wp-pure, Wp-bind, Keeps, still, Frame, Wp,
}
use high_load_ledger.Prelude.Int.{eq_ℤ, pos, ℤ}
use high_load_ledger.Postgres.Block.{IsSaved-after, IsSaved-then, IsSaved-Wp, Unsaved, IsSaved}
use high_load_ledger.Accounts.Opened.{write_account-Writes, Opened}
use high_load_ledger.Redis.{set_account_currency}
use high_load_ledger.Redis.Specs.{set_account_currency-Keeps}
use high_load_ledger.Result.{refuse_if}

-- The account `id` has been saved, with a balance that the random numbers gave.
pub record Created (env : Env) (c : Currency) (id : Uuid) (w v : World) : Type 0 where
  pub call : ℕ
  pub at : Time
  pub saved : IsSaved env (Opened env (empty_account id c at) (pos (env.intn call 100_000_000))) w v

-- An error: nothing happened, or the account was saved and the answer to the commit was lost.
abbrev pub NotCreated : Env → Currency → World → World → Type 0
NotCreated env c w v =
    Frame env w v
    ⊎ ((n : ℕ) × (e : DriverError) × (env.fault n ≡ lost e) × ((id : Uuid) × Created env c id w v))

module _ (env : Env) where
  intn-Wp :
      (bound : ℕ) (w : World)
      → Wp
          (λ n v. (n ≡ env.intn w.clock bound) × (v.session ≡ w.session) × Frame env w v)
          (λ v. Frame env w v)
          (intn env bound w)
  unfolding Wp intn
  intn-Wp bound w = (refl, refl, record { db = still; published = refl; transfers = refl })

  save_account-Wp :
      (acc : Account) (balance : ℤ) (w : World)
      → Wp
          (λ _ v. IsSaved env (Opened env acc balance) w v)
          (λ v. Unsaved env (Opened env acc balance) w v)
          (save_account env acc balance w)
  unfolding save_account
  save_account-Wp acc balance w =
      IsSaved-Wp env (Opened env acc balance) (λ tx. write_account env tx acc balance) w
        (write_account-Writes env acc balance)

  ignored-Wp :
      (E : World → Type 0) (m : M (Unit {0})) (w : World)
      → Keeps env m
      → Wp (λ _ v. Frame env w v) E (ignore m w)
  unfolding Wp
  ignored-Wp E m w h = h w

  module _ (c : Currency) (id : Uuid) where
    Created-then : (w v v' : World) → Created env c id w v → Frame env v v' → Created env c id w v'
    Created-then w v v' x fr = record {
      call = x.call;
      at = x.at;
      saved = IsSaved-then env _ w v v' x.saved fr;
    }

    ending-Wp :
        (w v : World)
        → Created env c id w v
        → Wp
            (λ i u. Created env c i w u)
            (λ u. NotCreated env c w u)
            ((ignore (set_account_currency env id c) >> pure id) v)
    ending-Wp w v x =
        Wp-bind _ _ (ignore (set_account_currency env id c)) (λ _. pure id) v
          (ignored-Wp _ (set_account_currency env id c) v (set_account_currency-Keeps env id c))
          λ _ u f. Wp-pure _ _ id u (Created-then w v u x f)

  unsaved :
      (c : Currency) (id : Uuid) (at : Time) (call : ℕ) (w w1 v : World)
      → Frame env w w1
      → Unsaved env (Opened env (empty_account id c at) (pos (env.intn call 100_000_000))) w1 v
      → NotCreated env c w v
  unsaved c id at call w w1 v fr (inl g) = inl (Frame-trans fr g)
  unsaved c id at call w w1 v fr (inr (n, e, f, s)) =
      inr (n, e, f, (id, record { call = call; at = at; saved = IsSaved-after env _ w w1 v fr s }))

  -- From the moment that the random number `n` of the call `call` is there.
  saving-Wp :
      (c : Currency) (id : Uuid) (at : Time) (call : ℕ) (w w1 : World)
      → Frame env w w1
      → Wp
          (λ i u. Created env c i w u)
          (λ u. NotCreated env c w u)
          ((save_account env (empty_account id c at) (pos (env.intn call 100_000_000))
              >> (ignore (set_account_currency env id c) >> pure id))
            w1)
  saving-Wp c id at call w w1 fr =
      let acc = empty_account id c at in
      let n = env.intn call 100_000_000 in
      Wp-bind _ _ (save_account env acc (pos n))
        (λ _. ignore (set_account_currency env id c) >> pure id) w1
        (Wp-weaken _ _ _ (save_account-Wp acc (pos n) w1)
          (λ _ v s. record { call = call; at = at; saved = IsSaved-after env _ w w1 v fr s })
          (λ v u. unsaved c id at call w w1 v fr u))
        λ _ v x. ending-Wp c id w v x

  pub create_account-Wp :
      (c : Currency) (w : World)
      → Wp (λ id v. Created env c id w v) (λ v. NotCreated env c w v) (create_account env c w)
  unfolding create_account
  create_account-Wp c w =
      let end = λ (id : Uuid). ignore (set_account_currency env id c) >> pure id in
      let k3 = λ (id : Uuid) (n : ℕ) (at : Time).
        save_account env (empty_account id c at) (pos n) >> end id in
      let k2 = λ (id : Uuid) (n : ℕ). now env >>= k3 id n in
      let k1 = λ (id : Uuid). intn env 100_000_000 >>= k2 id in
      let checked = refuse_if (eq_ℤ c currency_unspecified) invalid_currency in
      Wp-bind _ _ (lift checked) (λ _. new_v7 env >>= k1) w
        (Wp-weaken _ _ _ (lift-Wp env checked w) (λ _ _ p. p) (λ _. inl))
        λ _ w0 (_, _, f0).
          Wp-bind _ _ (new_v7 env) k1 w0
            (Wp-weaken _ _ _ (new_v7-Wp env w0) (λ _ _ p. p) (λ _ g. inl (Frame-trans f0 g)))
            λ id w1 (_, f1).
              Wp-bind _ _ (intn env 100_000_000) (k2 id) w1
                (Wp-weaken _ _ _ (intn-Wp 100_000_000 w1) (λ _ _ p. p)
                  (λ _ g. inl (Frame-trans f0 (Frame-trans f1 g))))
                λ n w2 (e, _, f2).
                  let f = Frame-trans f0 (Frame-trans f1 f2) in
                  Wp-bind _ _ (now env) (k3 id n) w2
                    (Wp-weaken _ _ _ (now-Wp env w2) (λ _ _ p. p) (λ _ g. inl (Frame-trans f g)))
                    λ at w3 (_, f3). rw e (saving-Wp c id at w1.clock w w3 (Frame-trans f f3))
