-- ===== src/Prelude/Word.antt =====
-- Go's fixed-width integers: an int64 is an integer in range, a uint64 a natural below 2 ^ 64, and
-- each operation wraps around.
use Prim.Native.Nat.{ℕ, ◌+◌, ◌-◌, ◌*◌, ◌%◌, ◌≤◌, ◌<◌}
use mathlib.Core.Path.{◌≡◌}
use native.Mathlib.Omega.{arith}
use meta_pulse.Prelude.Tests.{ltb, if◌then◌else◌}
use meta_pulse.Prelude.Int.{ℤ, pos, negsuc, pos_part, neg_part, ◌+ℤ◌, ◌-ℤ◌}

abbrev pub two63 : ℕ
two63 = 9223372036854775808

abbrev pub two64 : ℕ
two64 = 18446744073709551616

abbrev pub max_uint64 : ℕ
max_uint64 = 18446744073709551615

abbrev pub max_int64 : ℤ
max_int64 = pos 9223372036854775807

abbrev pub min_int64 : ℤ
min_int64 = negsuc 9223372036854775807

-- The integer is one that an int64 holds.
abbrev pub IsInt64 : ℤ → Type 0
IsInt64 a = (pos_part a < two63 + neg_part a) × (neg_part a ≤ two63 + pos_part a)

-- The number is one that a uint64 holds.
abbrev pub IsUint64 : ℕ → Type 0
IsUint64 n = n < two64

-- Two's complement reduction modulo 2 ^ 64.
pub wrap64 : ℤ → ℤ
wrap64 (pos n) = if ltb (n % two64) two63 then pos (n % two64) else negsuc (two64 - n % two64 - 1)
wrap64 (negsuc n) =
    if ltb (n % two64) two63 then negsuc (n % two64) else pos (two64 - 1 - n % two64)

unfoldable pub add_int64 : ℤ → ℤ → ℤ
unfolding wrap64 ◌+ℤ◌
add_int64 a b = wrap64 (a +ℤ b)

unfoldable pub sub_int64 : ℤ → ℤ → ℤ
unfolding wrap64 ◌-ℤ◌
sub_int64 a b = wrap64 (a -ℤ b)

abbrev pub add_uint64 : ℕ → ℕ → ℕ
add_uint64 a b = (a + b) % two64

abbrev pub mul_uint64 : ℕ → ℕ → ℕ
mul_uint64 a b = (a * b) % two64

-- Reduction changes nothing in range, and always lands in range.
pub wrap64_in_range : (a : ℤ) → IsInt64 a → wrap64 a ≡ a
unfolding wrap64
wrap64_in_range (pos n) h = ground arith
wrap64_in_range (negsuc n) h = ground arith

pub wrap64-IsInt64 : (a : ℤ) → IsInt64 (wrap64 a)
unfolding wrap64
wrap64-IsInt64 (pos n) = ground arith
wrap64-IsInt64 (negsuc n) = ground arith

pub add_int64_exact : (a b : ℤ) → IsInt64 (a +ℤ b) → add_int64 a b ≡ a +ℤ b
unfolding add_int64
add_int64_exact a b h = wrap64_in_range (a +ℤ b) h

pub sub_int64_exact : (a b : ℤ) → IsInt64 (a -ℤ b) → sub_int64 a b ≡ a -ℤ b
unfolding sub_int64
sub_int64_exact a b h = wrap64_in_range (a -ℤ b) h
