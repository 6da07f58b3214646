-- ===== src/Stdlib/Chars.antt =====
-- stdlib.c: the tests and conversions of characters, abs and labs, and the random numbers.
--
-- An `int` that is negative has a bit pattern above every character, so that the comparisons with
-- characters are those of the patterns.
use ea_x.Prelude.{
  ℕ, ◌+◌, ◌-◌, ◌*◌, ◌/◌, ◌^◌, ◌≤◌, ◌<◌, ◌≡◌, Bool, true, false, ◌&&◌, ◌||◌, u32, leb, ◌==◌,
  if◌then◌else◌, bit_and, arith,
}
use ea_x.Prelude.Bits.{bit_and-le}
use ea_x.Stdlib.{is_negative}

-- What an `int` is as a condition.
abbrev pub not_zero : ℕ → Bool
not_zero n = if n == 0 then false else true

unfoldable pub isdigit : ℕ → ℕ
isdigit c = if leb b'0' c && leb c b'9' then 1 else 0

unfoldable pub isalpha : ℕ → ℕ
isalpha c = if (leb b'a' c && leb c b'z') || (leb b'A' c && leb c b'Z') then 1 else 0

unfoldable pub isalnum : ℕ → ℕ
unfolding isalpha isdigit
isalnum c = if not_zero (isalpha c) || not_zero (isdigit c) then 1 else 0

unfoldable pub isspace : ℕ → ℕ
isspace c = if (c == b' ') || (c == 9) || (c == 10) || (c == 13) then 1 else 0

unfoldable pub isupper : ℕ → ℕ
isupper c = if leb b'A' c && leb c b'Z' then 1 else 0

unfoldable pub islower : ℕ → ℕ
islower c = if leb b'a' c && leb c b'z' then 1 else 0

unfoldable pub tolower : ℕ → ℕ
unfolding isupper
tolower c = if not_zero (isupper c) then u32 (c + 32) else c

unfoldable pub toupper : ℕ → ℕ
unfolding islower
toupper c = if not_zero (islower c) then c - 32 else c

-- `abs` and `labs`: -j overflows on the least number, and is then modelled as that number.
unfoldable pub abs : ℕ → ℕ
abs j = if is_negative j then u32 (2 ^ 32 - j) else j

unfoldable pub labs : ℕ → ℕ
labs j = if is_negative j then u32 (2 ^ 32 - j) else j

-- The value and the new seed.
unfoldable pub rand : ℕ → ℕ × ℕ
rand seed = let seed' = u32 (seed * 1103515245 + 12345) in (bit_and (seed' / 2 ^ 16) 0x7fff, seed')

-- The seed that is given is not used.
unfoldable pub srand : ℕ → ℕ → ℕ
srand seed s = seed

-- On every `int` the conversions change letters only, and into letters, either one undoes the other's
-- choice of case, and the tests agree: a character is a letter just when it is upper or lower case, and
-- then it is no digit and no space.
tolower-toupper :
    (c : ℕ)
    → c < 2 ^ 32
    → (tolower (toupper c) ≡ tolower c)
      × (toupper (tolower c) ≡ toupper c)
      × (isalpha (tolower c) ≡ isalpha c)
      × (isalpha (toupper c) ≡ isalpha c)
      × (isupper (tolower c) ≡ 0)
      × (islower (toupper c) ≡ 0)
      × (isalpha c ≡ isupper c + islower c)
      × (isalnum c ≡ isalpha c + isdigit c)
      × (isspace c + isalnum c ≤ 1)
unfolding tolower toupper isalpha isalnum isdigit isupper islower isspace
tolower-toupper c h = ground arith

-- A random number is below 2^15.
pub rand-lt : (seed : ℕ) → (rand seed).0 < 2 ^ 15
unfolding rand
rand-lt seed = omega (arith, bit_and-le (u32 (seed * 1103515245 + 12345) / 2 ^ 16) 0x7fff)
