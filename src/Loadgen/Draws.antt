-- ===== src/Loadgen/Draws.antt =====
-- What the builders draw.
use high_load_ledger.Prelude.{
  ◌==◌, ℕ, ◌+◌, ◌-◌, ◌<◌, ◌≤◌, true, ◌≡◌, ◌≢◌, [], ◌∷◌, arith, inl, inr, Bool-cases,
}
use high_load_ledger.Prelude.Int.{pos_part, ℤ, pos, ◌≤ℤ◌, ltb_ℤ}
use native.Mathlib.Nat.{mod-lt}
use high_load_ledger.Loadgen.Builder.{
  Rng, pick_amount, draw, distinct_index, random_distinct_indexes,
}

draw-lt : (bound : ℕ) (rng : Rng) → 0 < bound → (draw bound rng).0 < bound
unfolding draw
draw-lt bound [] h = h
draw-lt bound (x ∷ rng) h = mod-lt x h

distinct_index-ok :
    (i j size : ℕ)
    → j < size - 1
    → i < size
    → (distinct_index i j < size) × (i ≢ distinct_index i j)
unfolding distinct_index
distinct_index-ok i j size h k = (ground arith, ground arith)

-- Of two accounts or more, two different ones are drawn, and none out of range.
pub random_distinct_indexes-ok :
    (rng : Rng) (size : ℕ)
    → 2 ≤ size
    → let ij = (random_distinct_indexes rng size).0 in (ij.0 < size) × (ij.1 < size) × (ij.0 ≢ ij.1)
unfolding random_distinct_indexes
random_distinct_indexes-ok rng size h =
    let i = draw-lt size rng (omega (arith, h)) in
    let j = draw-lt (size - 1) (draw size rng).1 (omega (arith, h)) in
    let (below, apart) =
      distinct_index-ok (draw size rng).0 (draw (size - 1) (draw size rng).1).0 size j i in
    (i, below, apart)

positive : (b : ℤ) → ltb_ℤ (pos 1) b ≡ true → 0 < pos_part b - 1
positive b h = ground arith

in_one : (b : ℤ) → ltb_ℤ (pos 1) b ≡ true → pos 1 ≤ℤ b
in_one b h = ground arith

in_range :
    (b : ℤ) (a : ℕ) → ltb_ℤ (pos 1) b ≡ true → a < pos_part b - 1 → (1 ≤ a + 1) × (pos (a + 1) ≤ℤ b)
in_range b a h k = (omega arith, ground arith)

-- The amount of a valid transfer is at least 1, and not more than the balance of an account that
-- has something.
pub pick_amount-bounds :
    (balance : ℤ) (rng : Rng)
    → pos 1 ≤ℤ balance
    → (1 ≤ (pick_amount balance rng).0) × (pos (pick_amount balance rng).0 ≤ℤ balance)
unfolding pick_amount
pick_amount-bounds balance rng h = elim (Bool-cases (ltb_ℤ (pos 1) balance)) [
  | inr small ↦ rw small (omega arith, omega (arith, h))
  | inl large ↦ elim (Bool-cases ((draw 4 rng).0 == 0)) [
    | inr usual ↦ rw (large, usual) (omega arith, in_one balance large)
    | inl drawn ↦
        rw (large, drawn)
          (in_range balance _ large
            (draw-lt (pos_part balance - 1) (draw 4 rng).1 (positive balance large)))
  ]
]
