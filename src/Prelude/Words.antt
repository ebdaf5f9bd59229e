-- ===== src/Prelude/Words.antt =====
-- Unsigned machine words: `size_t` arithmetic, and the bytes of a word in the order of the host,
-- which is little-endian.
use Prim.Native.Nat.{ℕ, ◌+◌, ◌-◌, ◌*◌, ◌/◌, ◌%◌, ◌<◌}
use mathlib.Core.Path.{◌≡◌}
use mathlib.Core.List.{List, [], ◌∷◌, ◌++◌}
use mathlib.Core.Option.{Option, none, some}
use native.Mathlib.Omega.{arith}

abbrev pub u16 : ℕ → ℕ
u16 n = n % 65536

abbrev pub u32 : ℕ → ℕ
u32 n = n % 4294967296

-- `size_t` addition and subtraction.
abbrev pub add_size : ℕ → ℕ → ℕ
add_size a b = (a + b) % 18446744073709551616

abbrev pub sub_size : ℕ → ℕ → ℕ
sub_size a b = (a + 18446744073709551616 - b) % 18446744073709551616

-- What `memcpy` of a 16 or 32 bit word writes.
abbrev pub bytes16 : ℕ → List ℕ
bytes16 x = x % 256 ∷ x / 256 % 256 ∷ []

abbrev pub bytes32 : ℕ → List ℕ
bytes32 x = x % 256 ∷ x / 256 % 256 ∷ x / 65536 % 256 ∷ x / 16777216 % 256 ∷ []

-- What `memcpy` into a word reads off the bytes at hand; `none` if they are too few.
abbrev pub word16 : List ℕ → Option ℕ
word16 [] = none
word16 (a ∷ []) = none
word16 (a ∷ b ∷ _) = some (a + 256 * b)

abbrev pub word32 : List ℕ → Option ℕ
word32 [] = none
word32 (a ∷ []) = none
word32 (a ∷ b ∷ []) = none
word32 (a ∷ b ∷ c ∷ []) = none
word32 (a ∷ b ∷ c ∷ d ∷ _) = some (a + 256 * b + 65536 * c + 16777216 * d)

join16 : (x : ℕ) → x < 65536 → x % 256 + 256 * (x / 256 % 256) ≡ x
join16 x h = omega arith

join32 :
    (x : ℕ)
    → x < 4294967296
    → x % 256 + 256 * (x / 256 % 256) + 65536 * (x / 65536 % 256) + 16777216 * (x / 16777216 % 256)
      ≡ x
join32 x h = omega arith

pub word16-bytes16 : (x : ℕ) (rest : List ℕ) → x < 65536 → word16 (bytes16 x ++ rest) ≡ some x
word16-bytes16 x rest h = ground (arith, join16 x h)

pub word32-bytes32 : (x : ℕ) (rest : List ℕ) → x < 4294967296 → word32 (bytes32 x ++ rest) ≡ some x
word32-bytes32 x rest h = ground (arith, join32 x h)
