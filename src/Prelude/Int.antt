-- ===== src/Prelude/Int.antt =====
-- Signed integers over the native numbers, with the wrap of the `int16` and `int32` casts.
use Prim.Native.Nat.{ℕ, suc, ◌+◌, ◌-◌, ◌*◌, ◌/◌, ◌%◌, ◌≤◌, ◌<◌}
use mathlib.Core.Path.{◌≡◌}
use mathlib.Core.Bool.{Bool, true}
use native.Mathlib.Omega.{arith}
use cpp_game_frame.Prelude.Tests.{ltb, leb, ◌==◌, if◌then◌else◌}

-- `negsuc n` is -(n + 1).
pub data ℤ : Type 0 where
  pos : ℕ → ℤ
  negsuc : ℕ → ℤ

abbrev pub pos_part : ℤ → ℕ
pos_part (pos n) = n
pos_part (negsuc n) = 0

abbrev pub neg_part : ℤ → ℕ
neg_part (pos n) = 0
neg_part (negsuc n) = suc n

-- a - b, as an integer.
abbrev pub sub_ℕ : ℕ → ℕ → ℤ
sub_ℕ a b = if leb b a then pos (a - b) else negsuc (b - a - 1)

infixl 65 ◌+ℤ◌ ◌-ℤ◌
infixl 70 ◌*ℤ◌
infix 50 ◌≤ℤ◌ ◌<ℤ◌
unfoldable pub ◌+ℤ◌ : ℤ → ℤ → ℤ
a +ℤ b = sub_ℕ (pos_part a + pos_part b) (neg_part a + neg_part b)

unfoldable pub ◌-ℤ◌ : ℤ → ℤ → ℤ
a -ℤ b = sub_ℕ (pos_part a + neg_part b) (neg_part a + pos_part b)

unfoldable pub ◌*ℤ◌ : ℤ → ℤ → ℤ
a *ℤ b =
    sub_ℕ (pos_part a * pos_part b + neg_part a * neg_part b)
      (pos_part a * neg_part b + neg_part a * pos_part b)

-- Division as in C++: the quotient is cut off towards zero.
unfoldable pub quot_ℤ : ℤ → ℕ → ℤ
quot_ℤ (pos n) d = pos (n / d)
quot_ℤ (negsuc n) d = sub_ℕ 0 (suc n / d)

abbrev pub ◌≤ℤ◌ : ℤ → ℤ → Type 0
a ≤ℤ b = pos_part a + neg_part b ≤ pos_part b + neg_part a

abbrev pub ◌<ℤ◌ : ℤ → ℤ → Type 0
a <ℤ b = pos_part a + neg_part b < pos_part b + neg_part a

abbrev pub ltb_ℤ : ℤ → ℤ → Bool
ltb_ℤ a b = ltb (pos_part a + neg_part b) (pos_part b + neg_part a)

abbrev pub leb_ℤ : ℤ → ℤ → Bool
leb_ℤ a b = leb (pos_part a + neg_part b) (pos_part b + neg_part a)

abbrev pub eqb_ℤ : ℤ → ℤ → Bool
eqb_ℤ a b = (pos_part a + neg_part b) == (pos_part b + neg_part a)

-- The integer that a bit pattern of 16 or 32 bits stands for.
abbrev pub signed16 : ℕ → ℤ
signed16 p = if ltb p 32768 then pos p else negsuc (65535 - p)

abbrev pub signed32 : ℕ → ℤ
signed32 p = if ltb p 2147483648 then pos p else negsuc (4294967295 - p)

-- The bit pattern of an integer cut to 16 or 32 bits.
abbrev pub bits16 : ℤ → ℕ
bits16 (pos n) = n % 65536
bits16 (negsuc n) = 65535 - n % 65536

abbrev pub bits32 : ℤ → ℕ
bits32 (pos n) = n % 4294967296
bits32 (negsuc n) = 4294967295 - n % 4294967296

-- `static_cast<int16>` and `static_cast<int32>`.
abbrev pub to_int16 : ℤ → ℤ
to_int16 a = signed16 (bits16 a)

abbrev pub to_int32 : ℤ → ℤ
to_int32 a = signed32 (bits32 a)

pub eqb_ℤ→eq : (a b : ℤ) → eqb_ℤ a b ≡ true → a ≡ b
eqb_ℤ→eq a b h = ground arith

pub eqb_ℤ-refl : (a : ℤ) → eqb_ℤ a a ≡ true
eqb_ℤ-refl a = ground arith

-- A cast changes nothing in range.
pub to_int32_in_range : (a : ℤ) → negsuc 2147483647 ≤ℤ a → a ≤ℤ pos 2147483647 → to_int32 a ≡ a
to_int32_in_range (pos n) lo hi = ground arith
to_int32_in_range (negsuc n) lo hi = ground arith

pub to_int16_in_range : (a : ℤ) → negsuc 32767 ≤ℤ a → a ≤ℤ pos 32767 → to_int16 a ≡ a
to_int16_in_range (pos n) lo hi = ground arith
to_int16_in_range (negsuc n) lo hi = ground arith
