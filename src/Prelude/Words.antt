-- ===== src/Prelude/Words.antt =====
-- Conversions between machine integers, which keep the low bits.
use high_load_ledger.Prelude.{ℕ, ◌-◌, ◌%◌, ◌^◌, ltb, if◌then◌else◌}
use high_load_ledger.Prelude.Int.{ℤ, pos, negsuc}

-- The low w bits of an integer: of -(n + 1) they are the complement of those of n.
unfoldable pub low_bits : ℕ → ℤ → ℕ
low_bits w (pos n) = n % 2 ^ w
low_bits w (negsuc n) = 2 ^ w - 1 - n % 2 ^ w

-- `int16(x)`: the low 16 bits as a signed number
unfoldable pub to_int16 : ℤ → ℤ
unfolding low_bits
to_int16 x = let b = low_bits 16 x in if ltb b (2 ^ 15) then pos b else negsuc (2 ^ 16 - 1 - b)

-- What the low 64 bits of an integer stand for, as a signed number.
unfoldable pub to_int64 : ℤ → ℤ
unfolding low_bits
to_int64 x = let b = low_bits 64 x in if ltb b (2 ^ 63) then pos b else negsuc (2 ^ 64 - 1 - b)
