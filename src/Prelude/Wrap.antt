-- ===== src/Prelude/Wrap.antt =====
-- What `to_int64` makes of a sum that leaves the range.
use high_load_ledger.Prelude.{
  ◌-◌, inr, ◌/◌, inl, ◌%◌, ltb, Bool-cases, ℕ, ◌+◌, ◌*◌, ◌^◌, ◌≡◌, true, arith,
}
use high_load_ledger.Prelude.Int.{
  ℤ, pos, negsuc, pos_part, neg_part, ◌+ℤ◌, ◌-ℤ◌, fits_int64, int_laws,
}
use high_load_ledger.Prelude.Words.{to_int64, low_bits}

-- An integer that fits stays as it is.
pub to_int64_fits : (x : ℤ) → fits_int64 x ≡ true → to_int64 x ≡ x
unfolding to_int64 low_bits
to_int64_fits (pos n) h = ground arith
to_int64_fits (negsuc n) h = ground arith

pub to_int64-fits : (x : ℤ) → fits_int64 (to_int64 x) ≡ true
unfolding to_int64 low_bits
to_int64-fits (pos n) = ground arith
to_int64-fits (negsuc n) = ground arith

-- Two integers that differ by a multiple of 2 ^ 64.
pub record Congruent (x y : ℤ) : Type 0 where
  pub up : ℕ
  pub down : ℕ
  pub even : pos_part x + neg_part y + up * 2 ^ 64 ≡ pos_part y + neg_part x + down * 2 ^ 64

abbrev half : ℕ
half = 2 ^ 63

to_int64-Congruent : (x : ℤ) → Congruent x (to_int64 x)
unfolding to_int64 low_bits
to_int64-Congruent (pos n) = elim (Bool-cases (ltb (n % 2 ^ 64) half)) [
  | inl small ↦ record { up = 0; down = n / 2 ^ 64; even = ground arith }
  | inr large ↦ record { up = 0; down = n / 2 ^ 64 + 1; even = ground arith }
]
to_int64-Congruent (negsuc n) = elim (Bool-cases (ltb (2 ^ 64 - 1 - n % 2 ^ 64) half)) [
  | inl small ↦ record { up = n / 2 ^ 64 + 1; down = 0; even = ground arith }
  | inr large ↦ record { up = n / 2 ^ 64; down = 0; even = ground arith }
]

-- Of the integers that fit there is one in each class.
Congruent-eq : (x y : ℤ) → Congruent x y → fits_int64 x ≡ true → fits_int64 y ≡ true → x ≡ y
Congruent-eq x y c f g = let e = c.even in ground arith

-- A class is known by what it fits.
pub wrap_unique : (x y : ℤ) → Congruent x y → fits_int64 x ≡ true → to_int64 y ≡ x
wrap_unique x y c f =
    let d = to_int64-Congruent y in
    Congruent-eq (to_int64 y) x
      (record { up = d.down + c.down; down = c.up + d.up; even = omega (arith, c.even, d.even) })
      (to_int64-fits y) f

-- Taking back what was added, or adding what was taken, gives the old value, whether or not the
-- range was left meanwhile.
pub undo_sub : (x a : ℤ) → fits_int64 x ≡ true → to_int64 (to_int64 (x -ℤ a) +ℤ a) ≡ x
undo_sub x a f =
    let d = to_int64-Congruent (x -ℤ a) in
    wrap_unique x (to_int64 (x -ℤ a) +ℤ a)
      (record { up = d.up; down = d.down; even = omega (int_laws, d.even) }) f

pub undo_add : (x a : ℤ) → fits_int64 x ≡ true → to_int64 (to_int64 (x +ℤ a) -ℤ a) ≡ x
undo_add x a f =
    let d = to_int64-Congruent (x +ℤ a) in
    wrap_unique x (to_int64 (x +ℤ a) -ℤ a)
      (record { up = d.up; down = d.down; even = omega (int_laws, d.even) }) f

pub succ_wrap : (x : ℤ) → to_int64 (to_int64 x +ℤ pos 1) ≡ to_int64 (x +ℤ pos 1)
succ_wrap x =
    let c = to_int64-Congruent x in
    let d = to_int64-Congruent (x +ℤ pos 1) in
    wrap_unique (to_int64 (x +ℤ pos 1)) (to_int64 x +ℤ pos 1)
      (record { up = d.down + c.up; down = d.up + c.down; even = omega (int_laws, c.even, d.even) })
      (to_int64-fits (x +ℤ pos 1))
