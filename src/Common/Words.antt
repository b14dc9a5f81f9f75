-- ===== src/Common/Words.antt =====
-- 64-bit words. A std::int64_t and a std::uint64_t are both the bit pattern, a number below
-- 2 ^ 64, so that a conversion between the two types is the identity, as in two's complement.
use Prim.Native.Nat.{ℕ, ◌+◌, ◌-◌, ◌%◌, ◌^◌}
use mathlib.Core.Bool.{Bool, not}
use asyncflow_cpp.Common.Tests.{ltb, leb, ◌==◌}

abbrev pub word_mod : ℕ
word_mod = 2 ^ 64

abbrev pub sign_bit : ℕ
sign_bit = 2 ^ 63

-- std::numeric_limits<std::int64_t>::max() and <std::uint64_t>::max(); -1 has the latter's pattern.
abbrev pub int64_max : ℕ
int64_max = 2 ^ 63 - 1

abbrev pub uint64_max : ℕ
uint64_max = 2 ^ 64 - 1

-- fetch_add and fetch_sub wrap.
abbrev pub add64 : ℕ → ℕ → ℕ
add64 a b = (a + b) % word_mod

abbrev pub sub64 : ℕ → ℕ → ℕ
sub64 a b = (a + word_mod - b) % word_mod

-- `a < b` where both are std::int64_t: the order of the patterns with the sign bit flipped.
abbrev pub slt : ℕ → ℕ → Bool
slt a b = ltb ((a + sign_bit) % word_mod) ((b + sign_bit) % word_mod)

abbrev pub sle : ℕ → ℕ → Bool
sle a b = leb ((a + sign_bit) % word_mod) ((b + sign_bit) % word_mod)

-- The template parameter T of the queues: T(), and the conversion to bool in `if(obj)`.
pub record Item {ℓ} (A : Type ℓ) : Type ℓ where
  pub default : A
  pub truthy : A → Bool

-- A pointer is its address; 0 is the null pointer.
abbrev pub Ptr : Type 0
Ptr = ℕ

abbrev pub null : Ptr
null = 0

instance abbrev pub ptr_item : Item ℕ
ptr_item = record { default = 0; truthy = λ p. not (p == 0) }
