-- ===== src/Stdlib/Tests.antt =====
-- stdlib.c at concrete inputs.
use ea_x.Prelude.{
  ℕ, suc, ◌+◌, ◌-◌, ◌^◌, ◌<◌, ◌≡◌, refl, inl, inr, some, List, [], ◌∷◌, ◌++◌, Array, ◌==◌,
  if◌then◌else◌, arith,
}
use ea_x.Stdlib.{Text}
use ea_x.Stdlib.Blocks.{memmove}
use ea_x.Stdlib.Blocks.Copy.{copied, memmove_lem}
use ea_x.Stdlib.Blocks.Order.{compare_lists, order_of}
use ea_x.Stdlib.Strings.{strcpy, strlen, strcmp, strncmp, strcat}
use ea_x.Stdlib.Strings.Scan.{strlen_lem}
use ea_x.Stdlib.Strings.Order.{ranks, strcmp-compare_lists}
use ea_x.Stdlib.Strings.Copy.{strcat_lem}
use ea_x.Stdlib.Strings.Same.{strcmp-strcpy}
use ea_x.Stdlib.Numerals.{strtol, read_base, read_sign}
use ea_x.Stdlib.Alloc.{Heap, heap_size}
use ea_x.Stdlib.Alloc.Blocks.{blocks, Apart, blocks-Apart}
use ea_x.Stdlib.Chars.{abs, labs, rand, srand}
use ea_x.Stdlib.Stubs.{
  printf, sprintf, snprintf, vsprintf, vsnprintf, puts, putchar, fputc, fread, fwrite, fopen,
  fclose, fseek, ftell, qsort_compare, qsort, bsearch, rewind,
}

-- A list of bytes at an address, and 0 elsewhere.
abbrev stored : List ℕ → ℕ → Array ℕ
stored [] p a = 0
stored (c ∷ cs) p a = if p == a then c else stored cs (suc p) a

-- "ab", 0, "abz" from address 100 on.
abbrev ab : List ℕ
ab = b'a' ∷ b'b' ∷ []

abbrev abz : List ℕ
abz = b'a' ∷ b'b' ∷ b'z' ∷ []

abbrev two_texts : Array ℕ
two_texts = stored (b'a' ∷ b'b' ∷ 0 ∷ b'a' ∷ b'b' ∷ b'z' ∷ []) 100

two_texts-lt : (a : ℕ) → two_texts a < 256
two_texts-lt a = ground arith

ab-Text : Text two_texts 100 ab
ab-Text = omega arith

abz-Text : Text two_texts 103 abz
abz-Text = omega arith

-- Up by one, where the two blocks overlap.
memmove_lem_example :
    let (r, ram') = memmove two_texts 101 100 4 in
    (r ≡ 101) × ((a : ℕ) → ram' a ≡ copied two_texts 101 100 4 a)
memmove_lem_example = memmove_lem two_texts 101 100 4

strlen_lem_example : strlen 4 two_texts 103 ≡ some 3
strlen_lem_example = strlen_lem abz 4 two_texts 103 abz-Text (omega arith) (omega arith)

-- The second text lies behind the room that the first needs.
abbrev apart_texts : Array ℕ
apart_texts = stored (b'a' ∷ b'b' ∷ 0 ∷ 0 ∷ 0 ∷ 0 ∷ b'a' ∷ b'b' ∷ b'z' ∷ []) 100

strcat_lem_example :
    (ram' : Array ℕ) × (strcat 4 apart_texts 100 106 ≡ some (106, ram'))
    × Text ram' 100 (ab ++ abz)
    × Text ram' 106 abz
strcat_lem_example =
    strcat_lem ab abz 4 apart_texts 100 106 (omega arith) (omega arith) (omega arith) (omega arith)
      (inl (omega arith))

-- "abz", behind itself.
strcmp-strcpy_example :
    (end : ℕ) × (ram' : Array ℕ) × (strcpy 4 two_texts 200 103 ≡ some (end, ram'))
    × (strcmp 4 ram' 200 103 ≡ some 0)
    × (strcmp 4 ram' 103 200 ≡ some 0)
    × (strlen 4 ram' 200 ≡ some 3)
    × (strlen 4 ram' 103 ≡ some 3)
strcmp-strcpy_example =
    strcmp-strcpy abz 4 two_texts 200 103 abz-Text (omega arith) (omega arith) (inr (omega arith))

strcmp-compare_lists_example :
    (r : ℕ) × (strcmp 3 two_texts 100 103 ≡ some r)
    × (order_of r ≡ compare_lists (ranks ab) (ranks abz))
strcmp-compare_lists_example =
    strcmp-compare_lists ab abz 3 two_texts 100 103 two_texts-lt ab-Text abz-Text (omega arith)

-- "ab" and "abz" differ in the third character, and are found to be equal.
strncmp_misses : strncmp two_texts 100 103 3 ≡ 0
unfolding strncmp
strncmp_misses = refl

-- " -42;"
abbrev minus_42 : Array ℕ
minus_42 = stored (b' ' ∷ b'-' ∷ b'4' ∷ b'2' ∷ b';' ∷ []) 100

-- "0x2Ag"
abbrev hex_2a : Array ℕ
hex_2a = stored (b'0' ∷ b'x' ∷ b'2' ∷ b'A' ∷ b'g' ∷ []) 100

-- With the base given, the prefix is not skipped: the number ends behind its 0.
hex_prefix : strtol 3 hex_2a 100 16 ≡ some (0, 101)
unfolding strtol read_base read_sign
hex_prefix = refl

-- Ten bytes of the heap at 4096 are in use.
abbrev used : Heap
used = record { heap = 4096; heap_used = 10; ram = two_texts }

blocks-Apart_example :
    Apart (4096 + 10) (blocks used (16 ∷ 0 ∷ 16777216 ∷ 8 ∷ [])) (4096 + heap_size)
blocks-Apart_example =
    blocks-Apart (16 ∷ 0 ∷ 16777216 ∷ 8 ∷ []) used (omega arith) (omega arith) (omega arith)

-- The first random number, and the same again after `srand`.
seeded : (rand (srand 1 7)).0 ≡ (rand 1).0
unfolding srand
seeded = refl

-- -5
absolute : (abs (2 ^ 32 - 5) ≡ 5) × (labs (2 ^ 32 - 5) ≡ 5)
unfolding abs labs
absolute = (refl, refl)

-- Output, files and formats do nothing.
stubs :
    (printf 1 + sprintf 1 2 + snprintf 1 2 3 + vsprintf 1 2 3 + vsnprintf 1 2 3 4 + puts 1 ≡ 0)
    × (putchar 65 ≡ 65)
    × (fputc 65 1 ≡ 65)
    × (fread 1 2 3 4 ≡ 0)
    × (fwrite 1 2 3 4 ≡ 3)
    × (fopen 1 2 + fclose 1 + fseek 1 2 3 + ftell 1 ≡ 0)
    × (qsort_compare 1 2 (λ a b. a + b) ≡ 3)
    × (qsort two_texts 100 3 1 (λ a b. 0) ≡ two_texts)
    × (bsearch two_texts 103 100 3 1 (λ a b. 0) ≡ 0)
    × (rewind two_texts 1 ≡ two_texts)
stubs = (refl, refl, refl, refl, refl, refl, refl, refl, refl, refl)
