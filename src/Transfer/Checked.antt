-- ===== src/Transfer/Checked.antt =====
-- The checks of the currencies accept a transfer between two accounts that have the request's
-- currency, if nothing fails.
use high_load_ledger.Prelude.{
  true, false, not, ◌&&◌, ◌≡◌, ◌≢◌, refl, sym, ap, subst, ◌∙◌, some, List, [], ◌∷◌, ◌++◌, ◌==◌,
  ==_self, ◌⊎◌, inl, inr, Bool-cases, arith,
}
use high_load_ledger.Prelude.Int.{eq_ℤ, eq_ℤ_self}
use high_load_ledger.Entity.{Uuid, Currency, Account, currency_unspecified, currency_mismatch}
use high_load_ledger.Result.{Result, ok, err}
use high_load_ledger.Store.Rows.{find_account}
use high_load_ledger.World.{currency_key, Env, World, M, ◌>>=◌, pure, ignore, guard}
use high_load_ledger.World.Frame.{Wp, guard-Wp}
use high_load_ledger.World.Sure.{IsReliable, Sure, Sure-bind}
use high_load_ledger.Postgres.{get_currencies, currencies_of, lookup_currency}
use high_load_ledger.Postgres.Sure.{reading-Sure}
use high_load_ledger.Redis.{cache_get, as_currency, get_account_currency, set_account_currency}
use high_load_ledger.Redis.Sure.{
  IsRead, cached_currency, get_account_currency-Sure, set_account_currency-Sure,
}
use high_load_ledger.Transfer.Defs.{
  or_default, is_unspecified, missing_id, fill_currency, complete_currencies,
  validate_transfer_currencies,
}

-- The cache has no currency of the account, or the right one.
abbrev pub IsCoherent : Uuid → Currency → World → Type 0
IsCoherent id c w = (is_unspecified (cached_currency id w) ≡ true) ⊎ (cached_currency id w ≡ c)

-- A currency that is known is the right one.
abbrev Right : Currency → Currency → Type 0
Right c d = is_unspecified d ≡ false → d ≡ c

Right-of :
    (id : Uuid) (c : Currency) (w : World) → IsCoherent id c w → Right c (cached_currency id w)
Right-of id c w (inl h) k = absurd (cc (h, k))
Right-of id c w (inr h) k = h

Right-read :
    (id : Uuid) (c d : Currency) (w : World) → IsCoherent id c w → IsRead id w d → Right c d
Right-read id c d w h (inl e) k = absurd (cc (ap is_unspecified (sym e) ∙ k))
Right-read id c d w h (inr e) k = subst (Right c) (sym e) (Right-of id c w h) k

module _ {env : Env} (reliable : IsReliable env) where
  or_default-Sure :
      {A : Type 0} (a : A) (m : M A) (Q : A → World → Type 0) (w : World)
      → Sure Q (m w)
      → Sure Q (or_default a m w)
  unfolding Wp
  or_default-Sure {A} a m Q w h = kept (m w) h
    where
      kept :
          (o : Result A × World)
          → Sure Q o
          → Sure Q
              (elim o.0 as (λ _. Result A × World) [ ok b ↦ (ok b, o.1) | err e ↦ (ok a, o.1) ])
      kept (ok b, v) q = q
      kept (err e, v) q = absurd q

  fill_currency-Sure :
      (id : Uuid) (c d : Currency) (cs : List (Uuid × Currency)) (w : World)
      → Right c d
      → (is_unspecified d ≡ true → lookup_currency id cs ≡ some c)
      → Sure (λ e v. (e ≡ c) × (v.db ≡ w.db)) (fill_currency env id d cs w)
  unfolding Wp fill_currency
  fill_currency-Sure id c d cs w right found = elim (Bool-cases (is_unspecified d)) [
    | inr known ↦ rw (known, fill_currency) (right known, refl)
    | inl missing ↦
        rw (missing, found missing, fill_currency)
          (Sure-bind (λ e v. (e ≡ c) × (v.db ≡ w.db)) (ignore (set_account_currency env id c))
            (λ _. pure c) w (set_account_currency-Sure reliable id c w) (λ _ v e. (refl, e)))
  ]

  complete_read-Sure :
      (a b : Uuid) (c d e : Currency) (id : Uuid) (ids : List Uuid) (w : World)
      → Right c d
      → Right c e
      → (is_unspecified d ≡ true
          → lookup_currency a (currencies_of (id ∷ ids) w.db.accounts) ≡ some c)
      → (is_unspecified e ≡ true
          → lookup_currency b (currencies_of (id ∷ ids) w.db.accounts) ≡ some c)
      → Sure
          (λ found v. (found ≡ (c, c)) × (v.db ≡ w.db))
          (complete_currencies env (id ∷ ids) a b d e w)
  unfolding Wp complete_currencies get_currencies
  complete_read-Sure a b c d e id ids w right_d right_e found_d found_e =
      let Q = λ (found : Currency × Currency) (v : World). (found ≡ (c, c)) × (v.db ≡ w.db) in
      let k2 = λ (c' d' : Currency). pure (c', d') in
      let k1 =
        λ (cs : List (Uuid × Currency)) (c' : Currency). fill_currency env b e cs >>= k2 c' in
      Sure-bind Q (get_currencies env (id ∷ ids)) (λ cs. fill_currency env a d cs >>= k1 cs) w
        (reading-Sure reliable (λ t. currencies_of (id ∷ ids) t.accounts) w)
        λ cs w1 (read, e1).
          Sure-bind Q (fill_currency env a d cs) (k1 cs) w1
            (fill_currency-Sure a c d cs w1 right_d (λ h. ap (lookup_currency a) read ∙ found_d h))
            λ c' w2 (is_c, e2).
              Sure-bind Q (fill_currency env b e cs) (k2 c') w2
                (fill_currency-Sure b c e cs w2 right_e
                  (λ h. ap (lookup_currency b) read ∙ found_e h))
                λ d' w3 (is_d, e3). (cc (is_c, is_d), e3 ∙ e2 ∙ e1)

currency_found :
    (id : Uuid) (ids : List Uuid) (row : Account) (accounts : List Account)
    → find_account id accounts ≡ some row
    → currencies_of (id ∷ ids) accounts ≡ (id, row.currency) ∷ currencies_of ids accounts
unfolding currencies_of
currency_found id ids row accounts h = rw (h, currencies_of) refl

-- What is read of the accounts whose currency is missing.
module _ (a : Uuid) (c : Currency) (row : Account) (accounts : List Account)
    (found : find_account a accounts ≡ some row) (same : row.currency ≡ c) where
  lookup_first : (ids : List Uuid) → lookup_currency a (currencies_of (a ∷ ids) accounts) ≡ some c
  unfolding lookup_currency
  lookup_first ids =
      ap (lookup_currency a) (currency_found a ids row accounts found)
      ∙ rw (==_self a) (ap some same)

  lookup_second :
      (b : Uuid) (other : Account)
      → find_account b accounts ≡ some other
      → b ≢ a
      → lookup_currency a (currencies_of (b ∷ a ∷ []) accounts) ≡ some c
  unfolding lookup_currency
  lookup_second b other found_b ne =
      let differs : (b == a) ≡ false = ground (arith, ne) in
      ap (lookup_currency a) (currency_found b (a ∷ []) other accounts found_b)
      ∙ rw differs (lookup_first [])

matching :
    (c : Currency) (found : Currency × Currency)
    → found ≡ (c, c)
    → not (eq_ℤ found.0 c && eq_ℤ found.1 c) ≡ false
matching c found e = rw (e, eq_ℤ_self c) refl

module _ {env : Env} (reliable : IsReliable env) (a b : Uuid) (c : Currency) (ne : a ≢ b) where
  abbrev Both : World → Type 0
  Both w =
      (row_a row_b : Account) × (find_account a w.db.accounts ≡ some row_a)
      × (find_account b w.db.accounts ≡ some row_b)
      × (row_a.currency ≡ c)
      × (row_b.currency ≡ c)

  complete_currencies-Sure :
      (d e : Currency) (w : World)
      → Both w
      → Right c d
      → Right c e
      → Sure
          (λ found v. (found ≡ (c, c)) × (v.db ≡ w.db))
          (complete_currencies env (missing_id a d ++ missing_id b e) a b d e w)
  unfolding Wp complete_currencies
  complete_currencies-Sure d e w (row_a, row_b, fa, fb, sa, sb) right_d right_e =
      elim (Bool-cases (is_unspecified d)) [
        | inl no_d ↦ elim (Bool-cases (is_unspecified e)) [
          | inl no_e ↦
              rw (no_d, no_e)
                (complete_read-Sure reliable a b c d e a (b ∷ []) w right_d right_e
                  (λ _. lookup_first a c row_a w.db.accounts fa sa (b ∷ []))
                  (λ _. lookup_second b c row_b w.db.accounts fb sb a row_a fa ne))
          | inr has_e ↦
              rw (no_d, has_e)
                (complete_read-Sure reliable a b c d e a [] w right_d right_e
                  (λ _. lookup_first a c row_a w.db.accounts fa sa [])
                  (λ h. absurd (cc (h, has_e))))
        ]
        | inr has_d ↦ elim (Bool-cases (is_unspecified e)) [
          | inl no_e ↦
              rw (has_d, no_e)
                (complete_read-Sure reliable a b c d e b [] w right_d right_e
                  (λ h. absurd (cc (h, has_d)))
                  (λ _. lookup_first b c row_b w.db.accounts fb sb []))
          | inr has_e ↦ rw (has_d, has_e) (cc (right_d has_d, right_e has_e), refl)
        ]
      ]

  pub validate_transfer_currencies-Sure :
      (w : World)
      → Both w
      → IsCoherent a c w
      → IsCoherent b c w
      → Sure (λ _ v. v.db ≡ w.db) (validate_transfer_currencies env a b c w)
  unfolding Wp validate_transfer_currencies
  validate_transfer_currencies-Sure w both coherent_a coherent_b =
      let Q = λ (_ : Unit {0}) (v : World). v.db ≡ w.db in
      let read = λ (id : Uuid). or_default currency_unspecified (get_account_currency env id) in
      let all =
        λ (d e : Currency). complete_currencies env (missing_id a d ++ missing_id b e) a b d e in
      let k3 = λ (found : Currency × Currency).
        guard (not (eq_ℤ found.0 c && eq_ℤ found.1 c)) currency_mismatch in
      let k2 = λ (d e : Currency). all d e >>= k3 in
      let k1 = λ (d : Currency). read b >>= k2 d in
      Sure-bind Q (read a) k1 w
        (or_default-Sure reliable currency_unspecified (get_account_currency env a) _ w
          (get_account_currency-Sure reliable a w))
        λ d w1 (is_d, e1, c1).
          Sure-bind Q (read b) (k2 d) w1
            (or_default-Sure reliable currency_unspecified (get_account_currency env b) _ w1
              (get_account_currency-Sure reliable b w1))
            λ e w2 (is_e, e2, c2).
              Sure-bind Q (all d e) k3 w2
                (complete_currencies-Sure d e w2
                  (subst (λ t. Both (record w { db = t })) (sym (e2 ∙ e1)) both)
                  (Right-read a c d w coherent_a is_d)
                  (Right-read b c e w coherent_b (
                    subst
                      (λ l.
                        (e ≡ currency_unspecified)
                        ⊎ (e ≡ as_currency (cache_get (currency_key b) l)))
                      c1 is_e)))
                λ found w3 (is_c, e3).
                  guard-Wp Q (λ _. ⊥) _ currency_mismatch w3 (λ _. e3 ∙ e2 ∙ e1)
                    (λ z. cc (z, matching c found is_c))
