-- ===== src/Stdlib/Strings.antt =====
-- stdlib.c: the functions on strings.
pub mod Scan
pub mod Copy
pub mod Order
pub mod Same
use ea_x.Prelude.{
  ℕ, zero, suc, ◌+◌, ◌-◌, ◌^◌, Bool, ◌&&◌, true, false, not, Option, none, some, Array, update, u32,
  sub32, ltb, leb, ◌==◌, if◌then◌else◌,
}
use ea_x.Stdlib.{int_of_char}

-- `*s1 - *s2`, on two characters.
unfoldable pub char_diff : ℕ → ℕ → ℕ
char_diff c d = sub32 (int_of_char c) (int_of_char d)

-- `while ((*dest++ = *src++));`: the pointer past the terminator, and the memory.
unfoldable pub copy_text : ℕ → Array ℕ → ℕ → ℕ → Option (ℕ × Array ℕ)
copy_text zero ram dest src = none
copy_text (suc fuel) ram dest src =
    let ram' = update ram dest (ram src) in
    elim (ram src == 0) [
      | true ↦ some (suc dest, ram')
      | false ↦ copy_text fuel ram' (suc dest) (suc src)
    ]

unfoldable pub strcpy : ℕ → Array ℕ → ℕ → ℕ → Option (ℕ × Array ℕ)
unfolding copy_text
strcpy fuel ram dest src = copy_text fuel ram dest src

-- The two loops of `strncpy`, each with `n - i` rounds left.
unfoldable pub pad : Array ℕ → ℕ → ℕ → ℕ → Array ℕ
pad ram dest i zero = ram
pad ram dest i (suc rounds) = pad (update ram (dest + i) 0) dest (suc i) rounds

unfoldable pub copy_prefix : Array ℕ → ℕ → ℕ → ℕ → ℕ → Array ℕ
unfolding pad
copy_prefix ram dest src i zero = ram
copy_prefix ram dest src i (suc rounds) = elim (ram (src + i) == 0) [
  | true ↦ pad ram dest i (suc rounds)
  | false ↦ copy_prefix (update ram (dest + i) (ram (src + i))) dest src (suc i) rounds
]

unfoldable pub strncpy : Array ℕ → ℕ → ℕ → ℕ → ℕ × Array ℕ
unfolding copy_prefix
strncpy ram dest src n = (dest, copy_prefix ram dest src 0 n)

-- The loop of `strlen`, with the count so far.
unfoldable pub count_chars : ℕ → Array ℕ → ℕ → ℕ → Option ℕ
count_chars zero ram s len = none
count_chars (suc fuel) ram s len = elim (ram s == 0) [
  | true ↦ some len
  | false ↦ count_chars fuel ram (suc s) (u32 (len + 1))
]

unfoldable pub strlen : ℕ → Array ℕ → ℕ → Option ℕ
unfolding count_chars
strlen fuel ram s = count_chars fuel ram s 0

unfoldable pub strcmp : ℕ → Array ℕ → ℕ → ℕ → Option ℕ
strcmp zero ram s1 s2 = none
strcmp (suc fuel) ram s1 s2 = elim (not (ram s1 == 0) && (ram s1 == ram s2)) [
  | true ↦ strcmp fuel ram (suc s1) (suc s2)
  | false ↦ some (char_diff (ram s1) (ram s2))
]

-- The loop's test subtracts 1 from `n` before it looks at the characters, also when `n` is 0, where it
-- then wraps. The loop ends with what is left of `n` and the two pointers.
unfoldable pub strncmp : Array ℕ → ℕ → ℕ → ℕ → ℕ
strncmp ram s1 s2 zero = let n = sub32 0 1 in if n == 0 then 0 else char_diff (ram s1) (ram s2)
strncmp ram s1 s2 (suc n) =
    let rest = strncmp ram (suc s1) (suc s2) n in
    if not (ram s1 == 0) && (ram s1 == ram s2)
    then rest
    else if n == 0
    then 0
    else char_diff (ram s1) (ram s2)

-- A pointer, or NULL.
unfoldable pub strchr : ℕ → Array ℕ → ℕ → ℕ → Option ℕ
strchr zero ram s c = none
strchr (suc fuel) ram s c = elim (ram s == 0) [
  | true ↦ some 0
  | false ↦ elim (int_of_char (ram s) == c) [ true ↦ some s | false ↦ strchr fuel ram (suc s) c ]
]

-- The loop of `strrchr`, with the pointer to the last occurrence so far.
unfoldable pub last_char : ℕ → Array ℕ → ℕ → ℕ → ℕ → Option ℕ
last_char zero ram s c last = none
last_char (suc fuel) ram s c last = elim (ram s == 0) [
  | true ↦ some last
  | false ↦ last_char fuel ram (suc s) c (if int_of_char (ram s) == c then s else last)
]

unfoldable pub strrchr : ℕ → Array ℕ → ℕ → ℕ → Option ℕ
unfolding last_char
strrchr fuel ram s c = last_char fuel ram s c 0

-- `while (*dest) dest++;`
unfoldable pub find_end : ℕ → Array ℕ → ℕ → Option ℕ
find_end zero ram p = none
find_end (suc fuel) ram p = elim (ram p == 0) [ true ↦ some p | false ↦ find_end fuel ram (suc p) ]

unfoldable pub strcat : ℕ → Array ℕ → ℕ → ℕ → Option (ℕ × Array ℕ)
unfolding find_end copy_text
strcat fuel ram dest src = elim (find_end fuel ram dest) [
  | none ↦ none
  | some end ↦ copy_text fuel ram end src
]
