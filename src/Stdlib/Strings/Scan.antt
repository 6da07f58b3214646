-- ===== src/Stdlib/Strings/Scan.antt =====
-- The functions that walk a string: they end at its terminator, and find what a list would show.
use ea_x.Prelude.{
  ℕ, zero, suc, ◌+◌, ◌^◌, ◌<◌, ◌≡◌, true, false, Option, none, some, List, [], ◌∷◌, Array, length,
  u32, ◌==◌, if◌then◌else◌, arith,
}
use ea_x.Stdlib.{Text, int_of_char}
use ea_x.Stdlib.Strings.{strlen, count_chars, strchr, strrchr, last_char, find_end}

count_chars_lem :
    (cs : List ℕ) (fuel : ℕ) (ram : Array ℕ) (s len : ℕ)
    → Text ram s cs
    → length cs < fuel
    → len + length cs < 2 ^ 32
    → count_chars fuel ram s len ≡ some (len + length cs)
unfolding count_chars
count_chars_lem cs zero ram s len t h small = absurd (omega arith)
count_chars_lem [] (suc fuel) ram s len t h small = ground arith
count_chars_lem (c ∷ cs) (suc fuel) ram s len (first, pos, rest) h small =
    ground (arith, count_chars_lem cs fuel ram (suc s) (u32 (len + 1)) rest)

-- `strlen` ends on every string, after one test for each character and one for the terminator, and
-- returns the number of characters, if that is below 2^32.
pub strlen_lem :
    (cs : List ℕ) (fuel : ℕ) (ram : Array ℕ) (s : ℕ)
    → Text ram s cs
    → length cs < fuel
    → length cs < 2 ^ 32
    → strlen fuel ram s ≡ some (length cs)
unfolding strlen
strlen_lem cs fuel ram s t h small = ground (arith, count_chars_lem cs fuel ram s 0 t)

pub find_end_lem :
    (cs : List ℕ) (fuel : ℕ) (ram : Array ℕ) (s : ℕ)
    → Text ram s cs
    → length cs < fuel
    → find_end fuel ram s ≡ some (s + length cs)
unfolding find_end
find_end_lem cs zero ram s t h = absurd (omega arith)
find_end_lem [] (suc fuel) ram s t h = ground arith
find_end_lem (c ∷ cs) (suc fuel) ram s (first, pos, rest) h =
    ground (arith, find_end_lem cs fuel ram (suc s) rest)

-- The position of the first, and of the last, character that is a given `int`.
unfoldable pub first_index : ℕ → List ℕ → Option ℕ
first_index c [] = none
first_index c (x ∷ xs) = elim (int_of_char x == c) [
  | true ↦ some 0
  | false ↦ elim (first_index c xs) [ none ↦ none | some i ↦ some (suc i) ]
]

unfoldable pub last_index : ℕ → List ℕ → Option ℕ
last_index c [] = none
last_index c (x ∷ xs) = elim (last_index c xs) [
  | none ↦ if int_of_char x == c then some 0 else none
  | some i ↦ some (suc i)
]

-- The pointer to a position of the string at `s`, or NULL.
abbrev pub pointer : ℕ → Option ℕ → ℕ
pointer s none = 0
pointer s (some i) = s + i

strchr-first_index :
    (cs : List ℕ) (fuel : ℕ) (ram : Array ℕ) (s c : ℕ)
    → Text ram s cs
    → length cs < fuel
    → strchr fuel ram s c ≡ some (pointer s (first_index c cs))
unfolding strchr first_index
strchr-first_index cs zero ram s c t h = absurd (omega arith)
strchr-first_index [] (suc fuel) ram s c t h = ground arith
strchr-first_index (x ∷ cs) (suc fuel) ram s c (first, pos, rest) h =
    ground (arith, strchr-first_index cs fuel ram (suc s) c rest)

abbrev pub pointer_or : ℕ → ℕ → Option ℕ → ℕ
pointer_or last s none = last
pointer_or last s (some i) = s + i

last_char_lem :
    (cs : List ℕ) (fuel : ℕ) (ram : Array ℕ) (s c last : ℕ)
    → Text ram s cs
    → length cs < fuel
    → last_char fuel ram s c last ≡ some (pointer_or last s (last_index c cs))
unfolding last_char last_index
last_char_lem cs zero ram s c last t h = absurd (omega arith)
last_char_lem [] (suc fuel) ram s c last t h = ground arith
last_char_lem (x ∷ cs) (suc fuel) ram s c last (first, pos, rest) h =
    ground (
      arith,
      last_char_lem cs fuel ram (suc s) c (if int_of_char (ram s) == c then s else last) rest,
    )

-- `strchr` and `strrchr` end on every string. They return the pointer to the first, and to the last,
-- character that is the `int` given, compared as signed characters, and NULL where there is none: so
-- too for 0, where C wants the pointer to the terminator.
strchr-strrchr :
    (cs : List ℕ) (fuel : ℕ) (ram : Array ℕ) (s c : ℕ)
    → Text ram s cs
    → length cs < fuel
    → (strchr fuel ram s c ≡ some (pointer s (first_index c cs)))
      × (strrchr fuel ram s c ≡ some (pointer s (last_index c cs)))
unfolding strrchr
strchr-strrchr cs fuel ram s c t h =
    (strchr-first_index cs fuel ram s c t h, ground (arith, last_char_lem cs fuel ram s c 0 t h))
