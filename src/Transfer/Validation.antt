-- ===== src/Transfer/Validation.antt =====
-- The checks before the transaction: what they accept, and that they change nothing but the cache.
use high_load_ledger.Prelude.{
  Bool, true, false, none, some, Option, List, [], ◌∷◌, ◌++◌, if◌then◌else◌, not, ◌&&◌,
}
use high_load_ledger.Prelude.Int.{eq_ℤ}
use high_load_ledger.Entity.{
  Uuid, Currency, currency_unspecified, account_not_found, currency_mismatch,
}
use high_load_ledger.World.{Env, World, M, ◌>>=◌, ◌>>◌, pure, raise, ignore, guard}
use high_load_ledger.World.Frame.{Frame, Frame-refl, Keeps, Keeps-bind}
use high_load_ledger.Postgres.{get_currencies, lookup_currency}
use high_load_ledger.Postgres.Calls.{get_currencies-Keeps}
use high_load_ledger.Redis.{get_account_currency, set_account_currency}
use high_load_ledger.Redis.Specs.{get_account_currency-Keeps, set_account_currency-Keeps}
use high_load_ledger.Result.{Result, ok, err}
use high_load_ledger.Transfer.Defs.{
  or_default, is_unspecified, missing_id, fill_currency, complete_currencies,
  validate_transfer_currencies,
}

module _ (env : Env) where
  or_default-Keeps : {A : Type 0} (a : A) (m : M A) → Keeps env m → Keeps env (or_default a m)
  or_default-Keeps {A} a m h w = split (m w) (h w)
    where
      split :
          (o : Result A × World)
          → Frame env w o.1
          → Frame env w
              (elim o.0 as (λ _. Result A × World) [ ok b ↦ (ok b, o.1) | err e ↦ (ok a, o.1) ]).1
      split (ok b, v) fr = fr
      split (err e, v) fr = fr

  fill-Keeps :
      (id : Uuid) (current : Currency) (test : Bool) (found : Option Currency)
      → Keeps env (
          if test
          then elim found as (λ _. M Currency) [
            | some c ↦ ignore (set_account_currency env id c) >> pure c
            | none ↦ raise account_not_found
          ]
          else pure current)
  fill-Keeps id current true none w = Frame-refl w
  fill-Keeps id current true (some c) w = set_account_currency-Keeps env id c w
  fill-Keeps id current false found w = Frame-refl w

  fill_currency-Keeps :
      (id : Uuid) (c : Currency) (cs : List (Uuid × Currency))
      → Keeps env (fill_currency env id c cs)
  unfolding fill_currency
  fill_currency-Keeps id c cs = fill-Keeps id c (is_unspecified c) (lookup_currency id cs)

  complete_currencies-Keeps :
      (ids : List Uuid) (a b : Uuid) (c d : Currency)
      → Keeps env (complete_currencies env ids a b c d)
  unfolding complete_currencies
  complete_currencies-Keeps [] a b c d = λ w. Frame-refl w
  complete_currencies-Keeps (id ∷ ids) a b c d =
      let k2 = λ (c' : Currency) (d' : Currency). pure (c', d') in
      let k1 =
        λ (cs : List (Uuid × Currency)) (c' : Currency). fill_currency env b d cs >>= k2 c' in
      Keeps-bind env (get_currencies env (id ∷ ids)) (λ cs. fill_currency env a c cs >>= k1 cs)
        (get_currencies-Keeps env (id ∷ ids))
        λ cs. Keeps-bind env (fill_currency env a c cs) (k1 cs) (fill_currency-Keeps a c cs) λ c'.
          Keeps-bind env (fill_currency env b d cs) (k2 c') (fill_currency-Keeps b d cs)
            λ d' w. Frame-refl w

  pub validate_transfer_currencies-Keeps :
      (a b : Uuid) (c : Currency) → Keeps env (validate_transfer_currencies env a b c)
  unfolding validate_transfer_currencies
  validate_transfer_currencies-Keeps a b c =
      let read = λ (id : Uuid). or_default currency_unspecified (get_account_currency env id) in
      let all = λ (c' : Currency) (d' : Currency).
        complete_currencies env (missing_id a c' ++ missing_id b d') a b c' d' in
      let k3 = λ (found : Currency × Currency).
        guard (not (eq_ℤ found.0 c && eq_ℤ found.1 c)) currency_mismatch in
      let k2 = λ (c' : Currency) (d' : Currency). all c' d' >>= k3 in
      let k1 = λ (c' : Currency). read b >>= k2 c' in
      let kept = λ (id : Uuid).
        or_default-Keeps currency_unspecified (get_account_currency env id)
          (get_account_currency-Keeps env id) in
      Keeps-bind env (read a) k1 (kept a) λ c'. Keeps-bind env (read b) (k2 c') (kept b) λ d'.
        Keeps-bind env (all c' d') k3 (complete_currencies-Keeps _ a b c' d')
          λ found w. Frame-refl w
