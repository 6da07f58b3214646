-- ===== src/Stdlib/Strings/Same.antt =====
-- Copies compared with what they were copied from.
use ea_x.Prelude.{
  ℕ, zero, suc, ◌+◌, ◌≤◌, ◌<◌, ◌^◌, ◌≡◌, refl, ◌⊎◌, some, List, [], ◌∷◌, Array, length, arith,
}
use ea_x.Stdlib.{Text}
use ea_x.Stdlib.Blocks.{memmove, memcmp}
use ea_x.Stdlib.Blocks.Copy.{memmove_lem}
use ea_x.Stdlib.Strings.{strcpy, strcmp, strlen, char_diff}
use ea_x.Stdlib.Strings.Scan.{strlen_lem}
use ea_x.Stdlib.Strings.Copy.{Text-moved, strcpy_lem}

strcmp-same :
    (cs : List ℕ) (fuel : ℕ) (ram : Array ℕ) (s1 s2 : ℕ)
    → Text ram s1 cs
    → Text ram s2 cs
    → length cs < fuel
    → strcmp fuel ram s1 s2 ≡ some 0
unfolding strcmp char_diff
strcmp-same cs zero ram s1 s2 t1 t2 h = absurd (omega arith)
strcmp-same [] (suc fuel) ram s1 s2 t1 t2 h = ground arith
strcmp-same (c ∷ cs) (suc fuel) ram s1 s2 (t1, pos1, rest1) (t2, pos2, rest2) h =
    ground (arith, strcmp-same cs fuel ram (suc s1) (suc s2) rest1 rest2 (omega arith))

-- After `strcpy` of a string to a place where the two do not meet, `strcmp` of the copy and the string
-- is 0 either way round, and `strlen` of both is the length of the string: with fuel above that length,
-- if it is below 2^32.
pub strcmp-strcpy :
    (cs : List ℕ) (fuel : ℕ) (ram : Array ℕ) (dest src : ℕ)
    → Text ram src cs
    → length cs < fuel
    → length cs < 2 ^ 32
    → (dest + length cs < src) ⊎ (src + length cs < dest)
    → (end : ℕ) × (ram' : Array ℕ) × (strcpy fuel ram dest src ≡ some (end, ram'))
      × (strcmp fuel ram' dest src ≡ some 0)
      × (strcmp fuel ram' src dest ≡ some 0)
      × (strlen fuel ram' dest ≡ some (length cs))
      × (strlen fuel ram' src ≡ some (length cs))
strcmp-strcpy cs fuel ram dest src t enough small apart =
    let (ram', ran, copy, same) = strcpy_lem cs fuel ram dest src t enough (ground arith) in
    let kept = Text-moved cs ram ram' src src t (λ k h. ground (arith, same (src + k))) in
    (
      dest + suc (length cs),
      ram',
      ran,
      strcmp-same cs fuel ram' dest src copy kept enough,
      strcmp-same cs fuel ram' src dest kept copy enough,
      strlen_lem cs fuel ram' dest copy enough small,
      strlen_lem cs fuel ram' src kept enough small,
    )

memcmp-same :
    (n : ℕ) (ram : Array ℕ) (p q : ℕ)
    → ((k : ℕ) → k < n → ram (p + k) ≡ ram (q + k))
    → memcmp ram p q n ≡ 0
unfolding memcmp
memcmp-same zero ram p q same = refl
memcmp-same (suc n) ram p q same =
    ground (arith, same 0, memcmp-same n ram (suc p) (suc q) λ k h. ground (arith, same (suc k)))

-- After `memmove` between two blocks that do not meet, `memcmp` of them is 0.
memcmp-memmove :
    (ram : Array ℕ) (dest src n : ℕ)
    → (dest + n ≤ src) ⊎ (src + n ≤ dest)
    → memcmp (memmove ram dest src n).1 dest src n ≡ 0
memcmp-memmove ram dest src n apart =
    let same = (memmove_lem ram dest src n).1 in
    memcmp-same n (memmove ram dest src n).1 dest src
      λ k h. ground (arith, same (dest + k), same (src + k))
