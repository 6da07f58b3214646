-- ===== src/Stdlib/Numerals.antt =====
-- stdlib.c: atoi and strtol.
--
-- The result of a signed computation is reduced to its bit pattern where C leaves an overflow undefined.
pub mod Digits
pub mod Read
use ea_x.Prelude.{
  ℕ, zero, suc, ◌+◌, ◌-◌, ◌*◌, ◌^◌, Bool, ◌&&◌, ◌||◌, true, false, Option, none, some, Array, u32,
  ltb, leb, ◌==◌, if◌then◌else◌,
}
use ea_x.Stdlib.{is_negative}

-- `while (...) s++;`, on a test of the character.
unfoldable pub skip_while : (ℕ → Bool) → ℕ → Array ℕ → ℕ → Option ℕ
skip_while test zero ram s = none
skip_while test (suc fuel) ram s = elim (test (ram s)) [
  | true ↦ skip_while test fuel ram (suc s)
  | false ↦ some s
]

-- What `atoi` skips, and what `strtol` skips.
abbrev pub is_space : ℕ → Bool
is_space c = c == b' '

abbrev pub is_blank : ℕ → Bool
is_blank c = (c == b' ') || (c == 9)

-- Whether there is a minus, and the pointer past the sign, if there is one.
unfoldable pub read_sign : Array ℕ → ℕ → Bool × ℕ
read_sign ram s =
    if ram s == b'-' then (true, suc s) else if ram s == b'+' then (false, suc s) else (false, s)

abbrev pub is_decimal : ℕ → Bool
is_decimal c = leb b'0' c && leb c b'9'

unfoldable pub atoi_digits : ℕ → Array ℕ → ℕ → ℕ → Option ℕ
atoi_digits zero ram s result = none
atoi_digits (suc fuel) ram s result = elim (is_decimal (ram s)) [
  | true ↦ atoi_digits fuel ram (suc s) (u32 (result * 10 + (ram s - b'0')))
  | false ↦ some result
]

-- `-n` on an `int`.
abbrev pub negated : ℕ → ℕ
negated n = u32 (2 ^ 32 - n)

unfoldable pub atoi : ℕ → Array ℕ → ℕ → Option ℕ
unfolding skip_while atoi_digits
atoi fuel ram s = elim (skip_while is_space fuel ram s) [
  | none ↦ none
  | some p ↦
      let (negative, q) = read_sign ram p in
      elim (atoi_digits fuel ram q 0) [
        | none ↦ none
        | some result ↦ some (if negative then negated result else result)
      ]
]

-- The base and the pointer to the digits.
unfoldable pub read_base : Array ℕ → ℕ → ℕ → ℕ × ℕ
read_base ram s base =
    if base == 0
    then (if (ram s == b'0') && ((ram (suc s) == b'x') || (ram (suc s) == b'X'))
        then (16, s + 2)
        else if ram s == b'0'
        then (8, suc s)
        else (10, s))
    else (base, s)

-- The value of a digit; `none` ends the loop.
abbrev pub digit_of : ℕ → Option ℕ
digit_of c =
    if leb b'0' c && leb c b'9'
    then some (c - b'0')
    else if leb b'a' c && leb c b'f'
    then some (c - b'a' + 10)
    else if leb b'A' c && leb c b'F'
    then some (c - b'A' + 10)
    else none

-- A digit of the base: `digit >= base` on an `int` is also true of every negative base.
abbrev pub digit_in : ℕ → ℕ → Option ℕ
digit_in base c = elim (digit_of c) [
  | none ↦ none
  | some digit ↦ if is_negative base || leb base digit then none else some digit
]

-- The result and the pointer to the first character that is no digit. The terminator is none.
unfoldable pub strtol_digits : ℕ → Array ℕ → ℕ → ℕ → ℕ → Option (ℕ × ℕ)
strtol_digits zero ram s base result = none
strtol_digits (suc fuel) ram s base result = elim (digit_in base (ram s)) [
  | none ↦ some (result, s)
  | some digit ↦ strtol_digits fuel ram (suc s) base (u32 (result * base + digit))
]

-- The value returned, and what is written through `endptr` unless that is NULL.
unfoldable pub strtol : ℕ → Array ℕ → ℕ → ℕ → Option (ℕ × ℕ)
unfolding skip_while strtol_digits
strtol fuel ram nptr base = elim (skip_while is_blank fuel ram nptr) [
  | none ↦ none
  | some p ↦
      let (negative, q) = read_sign ram p in
      let (b, digits) = read_base ram q base in
      elim (strtol_digits fuel ram digits b 0) [
        | none ↦ none
        | some (result, end) ↦ some (if negative then negated result else result, end)
      ]
]
