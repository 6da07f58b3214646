-- ===== src/Stdlib.antt =====
-- stdlib.c: the C library of the system.
--
-- `ram` is the memory, a byte at each address, and a pointer is an address; NULL is 0. The build is for
-- a 32-bit machine by gcc, so that `size_t` and `long` have 32 bits and `char` is signed. An `int` is
-- its bit pattern, a number below 2^32. A loop that runs until it meets a byte takes fuel, one for each
-- test of its condition, and has no result, `none`, if the fuel ends first.
pub mod Blocks
pub mod Strings
pub mod Numerals
pub mod Alloc
pub mod Chars
pub mod Stubs
mod Tests
use ea_x.Prelude.{
  ℕ, zero, suc, ◌+◌, ◌-◌, ◌^◌, ◌<◌, ◌≡◌, Bool, List, [], ◌∷◌, Array, leb, ltb, if◌then◌else◌,
}

-- The `int` that a `char` is in an expression.
abbrev pub int_of_char : ℕ → ℕ
int_of_char c = if ltb c 128 then c else c + (2 ^ 32 - 2 ^ 8)

abbrev pub is_negative : ℕ → Bool
is_negative n = leb (2 ^ 31) n

-- A C string: the characters at an address, up to the terminator.
abbrev pub Text : Array ℕ → ℕ → List ℕ → Type 0
Text ram p [] = ram p ≡ 0
Text ram p (c ∷ cs) = (ram p ≡ c) × (0 < c) × Text ram (suc p) cs
