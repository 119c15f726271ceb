-- ===== src/Base/Int.antt =====
-- Signed integers over the native numbers, under the library's names: the values of an `i32`, an
-- `i16` and an `i64`.
use protun.Base.{ℕ, suc, ◌+◌, ◌-◌, ◌%◌, ◌^◌, ◌≤◌, ◌<◌, Bool, ltb, if◌then◌else◌}

-- `negsuc n` is -(n + 1).
pub data ℤ : Type 0 where
  pos : ℕ → ℤ
  negsuc : ℕ → ℤ

abbrev pub pos_part : ℤ → ℕ
pos_part (pos n) = n
pos_part (negsuc n) = 0

abbrev pub neg_part : ℤ → ℕ
neg_part (pos n) = 0
neg_part (negsuc n) = suc n

infix 50 ◌≤ℤ◌ ◌<ℤ◌
abbrev pub ◌≤ℤ◌ : ℤ → ℤ → Type 0
a ≤ℤ b = pos_part a + neg_part b ≤ pos_part b + neg_part a

abbrev pub ◌<ℤ◌ : ℤ → ℤ → Type 0
a <ℤ b = pos_part a + neg_part b < pos_part b + neg_part a

abbrev pub ltb_ℤ : ℤ → ℤ → Bool
ltb_ℤ a b = ltb (pos_part a + neg_part b) (pos_part b + neg_part a)

-- The low sixteen bits of the two's complement.
pub low_16_bits : ℤ → ℕ
low_16_bits (pos n) = n % 65536
low_16_bits (negsuc n) = 65535 - n % 65536

-- The `as i16` cast of a wider integer: its low sixteen bits, read as a signed number.
unfoldable pub to_i16 : ℤ → ℤ
unfolding low_16_bits
to_i16 a = let r = low_16_bits a in if ltb r 32768 then pos r else negsuc (65535 - r)

-- `n as i64`, for an `n` that is not negative.
unfoldable pub to_i64 : ℕ → ℤ
to_i64 n = let m = n % 2 ^ 64 in if ltb m (2 ^ 63) then pos m else negsuc (2 ^ 64 - m - 1)
