-- ===== src/Stats/Found.antt =====
-- What a reader gets for an id while the cache agrees with the table.
use high_load_ledger.Prelude.{
  ◌*◌, eq_of_==, if◌then◌else◌, ◌/◌, arith, Bool-cases, true, false, ◌≡◌, refl, ap, sym, subst, ◌∙◌,
  Option, none, some, [], ◌∷◌, ◌==◌, inl, inr, ◌⊎◌,
}
use high_load_ledger.Entity.{transaction_not_found, Uuid, Transaction}
use high_load_ledger.Result.{or_error, ok}
use high_load_ledger.Redis
use high_load_ledger.Stats.Defs.{get_transaction}
use high_load_ledger.World.{
  IsQuiet, fine, refused, lost, pure, lift, currency_key, balance_key, CacheValue, json, tick,
  Fault, transaction_key, CacheKey, Env, World, M,
}
use high_load_ledger.Redis.{
  as_transaction, redis_get, redis_set, set_transaction, answer, alter, cache_set, same_key,
  Entries, cache_get, live,
}
use high_load_ledger.Redis.Specs.{live-cases}
use high_load_ledger.Store.Rows.{find_transaction}
use high_load_ledger.Postgres.{reading, on_pool, get_transaction_by_id}
use high_load_ledger.World.Frame.{
  some_of_or_error, Wp-lift, Frame-refl, Evolves-quiet, Wp-weaken, Wp-pure, Wp-step, tick-Frame,
  Wp-bind, Frame, Wp,
}
use high_load_ledger.Postgres.Specs.{reading-Wp}
use high_load_ledger.Store.Statements.{stored_row}
use high_load_ledger.Store.{Tables}

-- Every transaction in the cache is the committed one, but for the part of its time that the table
-- does not keep.
pub record IsCoherent (w : World) : Type 0 where
  pub coherent :
      (id : Uuid) (trx : Transaction)
      → cache_get (transaction_key id) w.cache ≡ some (json trx)
      → find_transaction id w.db.transactions ≡ some (stored_row trx)

stored_row-again : (trx : Transaction) → stored_row (stored_row trx) ≡ stored_row trx
stored_row-again trx =
    ap (λ at. record trx { created_at = at }) {x = trx.created_at / 1000 * 1000 / 1000 * 1000}
      (ground arith)

-- The transaction is the row with this id, to the microsecond.
abbrev pub Read : Uuid → Tables → Transaction → Type 0
Read id t trx =
    (row : Transaction) × (find_transaction id t.transactions ≡ some row)
    × (stored_row trx ≡ stored_row row)

same_transaction_key :
    (a : Uuid) (x : CacheKey) → same_key (transaction_key a) x ≡ true → x ≡ transaction_key a
same_transaction_key a (balance_key b) h = absurd (cc h)
same_transaction_key a (currency_key b) h = absurd (cc h)
same_transaction_key a (transaction_key b) h = ap transaction_key (sym (eq_of_== a b h))

pub cache_get-set_ne :
    (a b : Uuid) (v : CacheValue) (c : Entries)
    → (b == a) ≡ false
    → cache_get (transaction_key b) (cache_set (transaction_key a) v c)
      ≡ cache_get (transaction_key b) c
unfolding cache_get cache_set
cache_get-set_ne a b v [] h = rw h refl
cache_get-set_ne a b v ((x, u) ∷ c) h = elim (Bool-cases (same_key (transaction_key a) x)) [
  | inl e ↦
      let other : same_key (transaction_key b) x ≡ false =
        ap (same_key (transaction_key b)) (same_transaction_key a x e) ∙ h in
      rw (e, other, h) refl
  | inr e ↦
      rw e (
        ap (λ z. if same_key (transaction_key b) x then some u else z) (cache_get-set_ne a b v c h))
]

module _ (env : Env) where
  answer-Wp :
      (f : Entries → Option CacheValue) (w w' : World) (fault : Fault)
      → Frame env w w'
      → Wp (λ o v. (o ≡ f w'.cache) × Frame env w v) (λ v. Frame env w v) (answer fault f w')
  unfolding Wp
  answer-Wp f w w' fine fr = (refl, fr)
  answer-Wp f w w' (refused e) fr = fr
  answer-Wp f w w' (lost e) fr = fr

  redis_get-Wp :
      (k : CacheKey) (w : World)
      → Wp
          (λ o v. ((o ≡ none) ⊎ (o ≡ cache_get k w.cache)) × Frame env w v)
          (λ v. Frame env w v)
          (redis_get env k w)
  unfolding redis_get tick
  redis_get-Wp k w =
      Wp-weaken _ _ _
        (answer-Wp (live env w.clock k) w (tick env w) (env.fault w.clock) (tick-Frame env w))
        (λ o v (e, fr). (
          subst (λ x. (x ≡ none) ⊎ (x ≡ cache_get k w.cache)) (sym e)
              (live-cases env w.clock k w.cache),
          fr,
        ))
        (λ v fr. fr)

  as_transaction-eq :
      (o : Option CacheValue) (trx : Transaction)
      → as_transaction o ≡ ok (some trx)
      → o ≡ some (json trx)
  as_transaction-eq o trx h = ground arith

  from_entry :
      (found entry : Option CacheValue) (trx : Transaction)
      → (found ≡ none) ⊎ (found ≡ entry)
      → found ≡ some (json trx)
      → entry ≡ some (json trx)
  from_entry found entry trx (inl e) h = absurd (cc (e, h))
  from_entry found entry trx (inr e) h = sym e ∙ h

  found-Wp :
      (id : Uuid) (w : World)
      → Wp
          (λ trx v. (find_transaction id v.db.transactions ≡ some trx) × Frame env w v)
          (λ v. Frame env w v)
          (get_transaction_by_id env id w)
  unfolding get_transaction_by_id
  found-Wp id w =
      Wp-step _ (on_pool env (reading (λ t. find_transaction id t.transactions)))
        (λ found. lift (or_error found transaction_not_found)) (Frame-refl w)
        (reading-Wp env (λ t. find_transaction id t.transactions) w)
        λ found v (e, fr).
          Wp-lift _ _ (or_error found transaction_not_found) v
            (λ trx h. (sym e ∙ some_of_or_error found transaction_not_found trx h, fr)) fr

  module _ (quiet : IsQuiet env) (id : Uuid) (w : World) (c : IsCoherent w) where
    abbrev IsFound : Transaction → Type 0
    IsFound trx = Read id w.db trx

    cached-Wp :
        Wp
          (λ o v. ((trx : Transaction) → o ≡ some trx → IsFound trx) × Frame env w v)
          (λ v. Frame env w v)
          (Redis.get_transaction env id w)
    unfolding Redis.get_transaction
    cached-Wp =
        Wp-step _ (redis_get env (transaction_key id)) (λ found. lift (as_transaction found))
          (Frame-refl w) (redis_get-Wp (transaction_key id) w)
          λ found v (e, fr).
            Wp-lift _ _ (as_transaction found) v
              (λ o h. (
                λ trx same. (
                  stored_row trx,
                  c.coherent id trx (
                      from_entry found (cache_get (transaction_key id) w.cache) trx e
                        (as_transaction-eq found trx (h ∙ ap ok same))),
                  sym (stored_row-again trx),
                ),
                fr,
              ))
              fr

    chosen-Wp :
        (o : Option Transaction) (v : World)
        → ((trx : Transaction) → o ≡ some trx → IsFound trx)
        → Frame env w v
        → Wp
            (λ trx _. IsFound trx)
            (λ _. Unit {0})
            ((elim o as (λ _. M Transaction) [
              | some tx ↦ pure tx
              | none ↦ get_transaction_by_id env id
            ])
              v)
    chosen-Wp (some tx) v f fr = Wp-pure _ _ tx v (f tx refl)
    chosen-Wp none v f fr =
        Wp-weaken _ _ _ (found-Wp id v)
          (λ trx u (h, g). (
            trx,
            subst (λ t. find_transaction id t.transactions ≡ some trx)
                (Evolves-quiet quiet g.db ∙ Evolves-quiet quiet fr.db) h,
            refl,
          ))
          (λ _ _. tt)

    pub read-Wp : Wp (λ trx _. IsFound trx) (λ _. Unit {0}) (get_transaction env id w)
    unfolding get_transaction
    read-Wp =
        Wp-bind _ _ (Redis.get_transaction env id)
          (λ o. elim o as (λ _. M Transaction) [
            | some tx ↦ pure tx
            | none ↦ get_transaction_by_id env id
          ])
          w (Wp-weaken _ _ _ cached-Wp (λ _ _ p. p) (λ _ _. tt)) λ o v (f, fr). chosen-Wp o v f fr
