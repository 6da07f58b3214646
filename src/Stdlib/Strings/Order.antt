-- ===== src/Stdlib/Strings/Order.antt =====
-- The order that `strcmp` and `strncmp` give.
use native.Mathlib.Decide.{ℕ_discrete}
use ea_x.Prelude.{
  ℕ, zero, suc, ◌+◌, ◌%◌, ◌<◌, ◌≡◌, ◌&&◌, not, some, List, [], ◌∷◌, Array, length, ◌==◌,
  if◌then◌else◌, arith,
}
use ea_x.Stdlib.{Text}
use ea_x.Stdlib.Blocks.Order.{compare_lists, order_of}
use ea_x.Stdlib.Strings.{strcmp, strncmp, char_diff}

-- The place of a byte among the signed characters.
abbrev pub rank : ℕ → ℕ
rank c = (c + 128) % 256

-- The ranks of the characters of a string and of its terminator.
unfoldable pub ranks : List ℕ → List ℕ
ranks [] = rank 0 ∷ []
ranks (c ∷ cs) = rank c ∷ ranks cs

-- `strcmp` ends on every two strings of bytes, with fuel above the length of the first, and its sign
-- is the lexicographic order of the two, by signed characters: the bytes from 128 on come before the
-- terminator, where C wants them after all others.
pub strcmp-compare_lists :
    (cs : List ℕ) (ds : List ℕ) (fuel : ℕ) (ram : Array ℕ) (s1 s2 : ℕ)
    → ((a : ℕ) → ram a < 256)
    → Text ram s1 cs
    → Text ram s2 ds
    → length cs < fuel
    → (r : ℕ) × (strcmp fuel ram s1 s2 ≡ some r)
      × (order_of r ≡ compare_lists (ranks cs) (ranks ds))
unfolding strcmp compare_lists ranks char_diff
strcmp-compare_lists cs ds zero ram s1 s2 b t1 t2 h = absurd (omega arith)
strcmp-compare_lists [] [] (suc fuel) ram s1 s2 b t1 t2 h =
    (char_diff (ram s1) (ram s2), ground arith, ground arith)
strcmp-compare_lists [] (d ∷ ds) (suc fuel) ram s1 s2 b t1 (t2, pos, rest) h =
    (char_diff (ram s1) (ram s2), ground arith, ground (arith, b s2))
strcmp-compare_lists (c ∷ cs) [] (suc fuel) ram s1 s2 b (t1, pos, rest) t2 h =
    (char_diff (ram s1) (ram s2), ground arith, ground (arith, b s1))
strcmp-compare_lists (c ∷ cs) (d ∷ ds) (suc fuel) ram s1 s2 b (t1, pos1, rest1) (t2, pos2, rest2)
      h =
    elim (ℕ_discrete c d) [
      | yes same ↦
          let (r, e, o) =
            strcmp-compare_lists cs ds fuel ram (suc s1) (suc s2) b rest1 rest2 (omega arith) in
          (r, ground arith, ground arith)
      | no other ↦ (char_diff (ram s1) (ram s2), ground arith, ground (arith, b s1, b s2))
    ]

-- How many of the first `n` characters agree and are not the terminator.
unfoldable pub common : Array ℕ → ℕ → ℕ → ℕ → ℕ
common ram s1 s2 zero = 0
common ram s1 s2 (suc n) =
    let rest = common ram (suc s1) (suc s2) n in
    if not (ram s1 == 0) && (ram s1 == ram s2) then suc rest else 0

-- `strncmp` compares the characters at the first position that ends the two strings or tells them
-- apart, with two mistakes: where all of the first `n` characters agree it compares the next ones,
-- which it should not look at, and where the first difference is at the last of the `n` it returns 0.
strncmp-common :
    (n : ℕ) (ram : Array ℕ) (s1 s2 : ℕ)
    → let k = common ram s1 s2 n in
      strncmp ram s1 s2 n ≡ (if k + 1 == n then 0 else char_diff (ram (s1 + k)) (ram (s2 + k)))
unfolding strncmp common
strncmp-common zero ram s1 s2 = ground arith
strncmp-common (suc n) ram s1 s2 = ground (arith, strncmp-common n ram (suc s1) (suc s2))
