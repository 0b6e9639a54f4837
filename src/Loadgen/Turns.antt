-- ===== src/Loadgen/Turns.antt =====
-- The connections take turns, and the recent ids stay few.
use high_load_ledger.Prelude.{
  map, ℕ, zero, suc, ◌+◌, ◌%◌, ◌^◌, ◌≤◌, ◌<◌, ◌≡◌, refl, sym, ap, ◌∙◌, false, Option, some, List,
  [], ◌∷◌, ◌++◌, length, length-append, ltb, ◌==◌, inl, inr, Bool-cases, arith,
}
use native.Mathlib.Nat.{mod-add-mod, mod-lt, mod-eq_of_lt}
use high_load_ledger.Entity.{Uuid}
use high_load_ledger.Loadgen.Pool.{nth}
use high_load_ledger.Loadgen.Calls.{TxManager, conn}
use high_load_ledger.Loadgen.Jobs.{CoreService, build_stats, remember, drop_first}
use high_load_ledger.Loadgen.Builder.{TransferJob, Rng, draw}

module _ {A : Type 0} where
  pub nth-some : (n : ℕ) (l : List A) → n < length l → (x : A) × (nth n l ≡ some x)
  unfolding nth
  nth-some n [] h = absurd (omega (arith, h))
  nth-some zero (x ∷ l) h = (x, refl)
  nth-some (suc n) (x ∷ l) h = nth-some n l (omega (arith, h))

  length-drop : (n : ℕ) (l : List A) → length (drop_first n l) ≤ length l
  unfolding drop_first
  length-drop zero l = omega arith
  length-drop (suc n) [] = omega arith
  length-drop (suc n) (x ∷ l) = omega (arith, length-drop n l)

  drop-shorter : (n : ℕ) (l : List A) → n ≤ length l → length (drop_first n l) + n ≡ length l
  unfolding drop_first
  drop-shorter zero l h = omega arith
  drop-shorter (suc n) [] h = absurd (omega (arith, h))
  drop-shorter (suc n) (x ∷ l) h = omega (arith, drop-shorter n l (omega (arith, h)))

pub remember-bounds :
    (id : Uuid) (ids : List Uuid) → length ids ≤ 10000 → length (remember id ids) ≤ 10000
unfolding remember
remember-bounds id ids h = elim (Bool-cases (ltb 10000 (length (ids ++ (id ∷ []))))) [
  | inl many ↦ rw many (
      omega (
        arith,
        h,
        length-append ids (id ∷ []),
        drop-shorter 1000 (ids ++ (id ∷ [])) (ground (arith, many)),
      ))
  | inr few ↦ rw few (ground (arith, few))
]

-- A call of `conn` with at least one connection.
pub conn-some :
    (t : TxManager)
    → 1 ≤ length t.conns
    → (c : ℕ) × ((conn t).0 ≡ some c) × ((conn t).1.conns ≡ t.conns)
unfolding conn
conn-some t h = elim (Bool-cases (length t.conns == 1)) [
  | inl one ↦ let (c, e) = nth-some 0 t.conns h in rw (one, conn) (c, e, refl)
  | inr several ↦
      let (c, e) = nth-some (t.rr % length t.conns) t.conns (mod-lt t.rr h) in
      rw (several, conn) (c, e, refl)
]

-- The connections that the next n calls get.
unfoldable pub conns_of : ℕ → TxManager → List (Option ℕ)
unfolding conn
conns_of zero t = []
conns_of (suc n) t = (conn t).0 ∷ conns_of n (conn t).1

-- `nth` of k, k + 1, … for n places.
unfoldable pub places : ℕ → ℕ → List ℕ → List (Option ℕ)
unfolding nth
places zero k l = []
places (suc n) k l = nth k l ∷ places n (suc k) l

conn_next :
    (conns : List ℕ) (rr : ℕ)
    → 2 ≤ length conns
    → rr + 1 < 2 ^ 64
    → conn (record { conns = conns; rr = rr })
      ≡ (nth (rr % length conns) conns, record { conns = conns; rr = rr + 1 })
unfolding conn
conn_next conns rr several small =
    let e : (length conns == 1) ≡ false = ground (arith, several) in
    let next = mod-eq_of_lt small in rw (e, next, conn) refl

next_place : (rr k n : ℕ) → rr % n ≡ k → suc k < n → (rr + 1) % n ≡ suc k
next_place rr k n h small =
    sym (mod-add-mod rr n 1)
    ∙ ap (λ z. (z + 1) % n) h
    ∙ mod-eq_of_lt {n = k + 1} {m = n} (omega (arith, small))
    ∙ omega arith

conns_of-places :
    (n k : ℕ) (conns : List ℕ) (rr : ℕ)
    → 2 ≤ length conns
    → rr + n < 2 ^ 64
    → k + n ≤ length conns
    → (1 ≤ n → rr % length conns ≡ k)
    → conns_of n (record { conns = conns; rr = rr }) ≡ places n k conns
unfolding conns_of places
conns_of-places zero k conns rr several small fits at = refl
conns_of-places (suc n) k conns rr several small fits at =
    let e = conn_next conns rr several (omega (arith, small)) in
    let rest =
      conns_of-places n (suc k) conns (rr + 1) several (omega (arith, small)) (omega (arith, fits))
        (λ more. next_place rr k (length conns) (at (omega arith)) (omega (arith, more, fits))) in
    rw (e, at (omega arith)) (ap (λ l. nth k conns ∷ l) rest)

places_tail : (n k x : ℕ) (l : List ℕ) → places n (suc k) (x ∷ l) ≡ places n k l
unfolding places
places_tail zero k x l = refl
places_tail (suc n) k x l = ap (λ r. nth k l ∷ r) (places_tail n (suc k) x l)

all_places : (l : List ℕ) → places (length l) 0 l ≡ map some l
unfolding places
all_places [] = refl
all_places (x ∷ l) = ap (λ r. some x ∷ r) (places_tail (length l) 0 x l ∙ all_places l)

-- With several connections, a round of calls that begins with the first of them uses each exactly
-- once, in their order; the next round begins with the first again. The counter is supposed not to
-- wrap round meanwhile.
pub conns_of-turn :
    (t : TxManager)
    → 2 ≤ length t.conns
    → t.rr + length t.conns < 2 ^ 64
    → t.rr % length t.conns ≡ 0
    → conns_of (length t.conns) t ≡ map some t.conns
conns_of-turn t several small start =
    conns_of-places (length t.conns) 0 t.conns t.rr several small (omega arith) (λ _. start)
    ∙ all_places t.conns

draw-lt : (bound : ℕ) (rng : Rng) → 1 ≤ bound → (draw bound rng).0 < bound
unfolding draw
draw-lt bound [] h = omega (arith, h)
draw-lt bound (x ∷ rng) h = mod-lt x (omega (arith, h))

-- Once a transfer is remembered, the stream of reads always has a job, and it asks for a
-- transaction whose id is remembered.
pub build_stats_ok :
    (s : CoreService) (rng : Rng)
    → 1 ≤ length s.recent_tx_ids
    → (job : TransferJob) × ((build_stats s rng).0 ≡ some job)
      × ((k : ℕ) × (nth k s.recent_tx_ids ≡ some job.tx_id))
unfolding build_stats
build_stats_ok s rng h =
    let (id, e) =
      nth-some (draw (length s.recent_tx_ids) rng).0 s.recent_tx_ids
        (draw-lt (length s.recent_tx_ids) rng h) in
    let some_id : (length s.recent_tx_ids == 0) ≡ false = ground (arith, h) in
    rw (some_id, e, build_stats) (_, refl, ((draw (length s.recent_tx_ids) rng).0, e))
