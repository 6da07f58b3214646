-- ===== src/Prelude/Words.antt =====
-- The fixed-width unsigned integers of C: a value is a number, and each operation that can wrap is
-- reduced by hand. `-` on ℕ stops at 0, so a subtraction adds the modulus first.
use Prim.Native.Nat.{ℕ, ◌+◌, ◌-◌, ◌%◌, ◌^◌}
use mathlib.Core.Bool.{Bool}
use ea_x.Prelude.Tests.{ltb, leb}

abbrev pub u8 : ℕ → ℕ
u8 n = n % 2 ^ 8

abbrev pub u16 : ℕ → ℕ
u16 n = n % 2 ^ 16

abbrev pub u32 : ℕ → ℕ
u32 n = n % 2 ^ 32

abbrev pub u64 : ℕ → ℕ
u64 n = n % 2 ^ 64

-- `a - b` on uint32_t.
abbrev pub sub32 : ℕ → ℕ → ℕ
sub32 a b = u32 (a + 2 ^ 32 - b)

-- `a < b` and `a <= b` on int, whose value is a word of 32 bits in two's complement.
abbrev pub ltb_int : ℕ → ℕ → Bool
ltb_int a b = ltb (u32 (a + 2 ^ 31)) (u32 (b + 2 ^ 31))

abbrev pub leb_int : ℕ → ℕ → Bool
leb_int a b = leb (u32 (a + 2 ^ 31)) (u32 (b + 2 ^ 31))
