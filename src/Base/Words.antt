-- ===== src/Base/Words.antt =====
-- Machine words: an unsigned word of w bits is a number below 2 ^ w, and a C integer with a sign
-- that a function returns is a `ℤ`.
use Prim.Native.Nat.{◌<◌, ℕ, ◌+◌, ◌-◌, ◌%◌, ◌^◌}
use mathlib.Core.Path.{◌≡◌, refl}
use blackhv.Base.Tests.{ltb, lt→ltb, if◌then◌else◌}

-- `negsuc n` is -(n + 1).
pub data ℤ : Type 0 where
  pos : ℕ → ℤ
  negsuc : ℕ → ℤ

abbrev pub minus_one : ℤ
minus_one = negsuc 0

-- `(s64)n` of a word.
unfoldable pub s64_of : ℕ → ℤ
s64_of n = if ltb n (2 ^ 63) then pos n else negsuc (2 ^ 64 - n - 1)

-- Addition and subtraction of two words of 64 bits.
abbrev pub add_u64 : ℕ → ℕ → ℕ
add_u64 a b = (a + b) % 2 ^ 64

abbrev pub sub_u64 : ℕ → ℕ → ℕ
sub_u64 a b = (a + 2 ^ 64 - b) % 2 ^ 64

pub s64_of_small : (n : ℕ) → n < 2 ^ 63 → s64_of n ≡ pos n
unfolding s64_of
s64_of_small n small = rw (lt→ltb n (2 ^ 63) small) refl
