-- ===== src/Stdlib/Strings/Copy.antt =====
-- What the copying functions leave at the destination.
use ea_x.Prelude.{
  ℕ, zero, suc, ◌+◌, ◌-◌, ◌≤◌, ◌<◌, ◌≡◌, refl, ◌⊎◌, ◌&&◌, some, List, [], ◌∷◌, ◌++◌, Array, update,
  length, ltb, leb, if◌then◌else◌, arith,
}
use ea_x.Stdlib.{Text}
use ea_x.Stdlib.Blocks.{copy_up}
use ea_x.Stdlib.Blocks.Copy.{copied, copy_up-copied}
use ea_x.Stdlib.Strings.{copy_text, strcpy, pad, copy_prefix, strncpy, strcat}
use ea_x.Stdlib.Strings.Scan.{find_end_lem}

Text-update :
    (cs : List ℕ) (ram : Array ℕ) (p a v : ℕ)
    → (a < p) ⊎ (p + length cs < a)
    → Text ram p cs
    → Text (update ram a v) p cs
Text-update [] ram p a v h t = ground arith
Text-update (c ∷ cs) ram p a v h (first, pos, rest) =
    (ground arith, pos, Text-update cs ram (suc p) a v (ground arith) rest)

-- The same bytes at another place are the same string.
pub Text-moved :
    (cs : List ℕ) (ram ram' : Array ℕ) (p q : ℕ)
    → Text ram p cs
    → ((k : ℕ) → k ≤ length cs → ram' (q + k) ≡ ram (p + k))
    → Text ram' q cs
Text-moved [] ram ram' p q t same = ground (arith, same 0)
Text-moved (c ∷ cs) ram ram' p q (first, pos, rest) same = (
  ground (arith, same 0),
  pos,
  Text-moved cs ram ram' (suc p) (suc q) rest λ k h. ground (arith, same (suc k)),
)

-- Two strings one behind the other, the terminator of the first gone.
Text-append :
    (ds cs : List ℕ) (ram ram' : Array ℕ) (p : ℕ)
    → Text ram p ds
    → ((k : ℕ) → k < length ds → ram' (p + k) ≡ ram (p + k))
    → Text ram' (p + length ds) cs
    → Text ram' p (ds ++ cs)
Text-append [] cs ram ram' p t same u = let e : p + 0 ≡ p = omega arith in rw e at u
Text-append (d ∷ ds) cs ram ram' p (first, pos, rest) same u = (
  ground (arith, same 0),
  pos,
  Text-append ds cs ram ram' (suc p) rest (λ k h. ground (arith, same (suc k)))
      (let e : p + suc (length ds) ≡ suc p + length ds = omega arith in rw e at u),
)

copy_text_lem :
    (cs : List ℕ) (fuel : ℕ) (ram : Array ℕ) (dest src : ℕ)
    → Text ram src cs
    → length cs < fuel
    → (dest ≤ src) ⊎ (src + length cs < dest)
    → copy_text fuel ram dest src
      ≡ some (dest + suc (length cs), copy_up ram dest src (suc (length cs)))
unfolding copy_text copy_up
copy_text_lem cs zero ram dest src t h apart = absurd (omega arith)
copy_text_lem [] (suc fuel) ram dest src t h apart = ground arith
copy_text_lem (c ∷ cs) (suc fuel) ram dest src (first, pos, rest) h apart = ground (
  arith,
  copy_text_lem cs fuel (update ram dest (ram src)) (suc dest) (suc src)
      (Text-update cs ram (suc src) dest (ram src) (ground arith) rest),
)

-- `strcpy` ends on every string that the copy does not run into. It puts the string at the destination,
-- leaves every byte outside the copy alone, and returns the pointer past the terminator of the copy,
-- where C wants the destination.
pub strcpy_lem :
    (cs : List ℕ) (fuel : ℕ) (ram : Array ℕ) (dest src : ℕ)
    → Text ram src cs
    → length cs < fuel
    → (dest ≤ src) ⊎ (src + length cs < dest)
    → (ram' : Array ℕ) × (strcpy fuel ram dest src ≡ some (dest + suc (length cs), ram'))
      × Text ram' dest cs
      × ((a : ℕ) → ram' a ≡ copied ram dest src (suc (length cs)) a)
unfolding strcpy
strcpy_lem cs fuel ram dest src t h apart =
    let ram' = copy_up ram dest src (suc (length cs)) in
    let same = λ (a : ℕ). copy_up-copied (suc (length cs)) ram dest src a (ground arith) in
    (
      ram',
      copy_text_lem cs fuel ram dest src t h apart,
      Text-moved cs ram ram' src dest t (λ k lt. ground (arith, same (dest + k))),
      same,
    )

-- `strcat` ends, with fuel above the length of each, on two strings where the longer one that it
-- makes does not run into the second. It leaves the one string behind the other at the destination,
-- and returns the pointer past the terminator, where C wants the destination.
pub strcat_lem :
    (ds cs : List ℕ) (fuel : ℕ) (ram : Array ℕ) (dest src : ℕ)
    → Text ram dest ds
    → Text ram src cs
    → length ds < fuel
    → length cs < fuel
    → (dest + length ds + length cs < src) ⊎ (src + length cs < dest)
    → (ram' : Array ℕ) × (strcat fuel ram dest src
        ≡ some (dest + length ds + suc (length cs), ram'))
      × Text ram' dest (ds ++ cs)
      × Text ram' src cs
unfolding strcat
strcat_lem ds cs fuel ram dest src u t hd hc apart =
    let end = dest + length ds in
    let ram' = copy_up ram end src (suc (length cs)) in
    let same = λ (a : ℕ). copy_up-copied (suc (length cs)) ram end src a (ground arith) in
    let copy = copy_text_lem cs fuel ram end src t hc (ground arith) in
    (
      ram',
      rw (find_end_lem ds fuel ram dest u hd, strcat) copy,
      Text-append ds cs ram ram' dest u (λ k lt. ground (arith, same (dest + k)))
          (Text-moved cs ram ram' src end t (λ k lt. ground (arith, same (end + k)))),
      Text-moved cs ram ram' src src t (λ k lt. ground (arith, same (src + k))),
    )

pad-at :
    (n : ℕ) (ram : Array ℕ) (dest i a : ℕ)
    → pad ram dest i n a ≡ (if leb (dest + i) a && ltb a (dest + i + n) then 0 else ram a)
unfolding pad
pad-at zero ram dest i a = ground arith
pad-at (suc n) ram dest i a = ground (arith, pad-at n (update ram (dest + i) 0) dest (suc i) a)

-- What stands at a place of the copy of a string that is filled up with 0.
abbrev pub padded : Array ℕ → ℕ → List ℕ → ℕ → ℕ
padded ram src cs k = if ltb k (length cs) then ram (src + k) else 0

copy_prefix-at :
    (cs : List ℕ) (n : ℕ) (ram : Array ℕ) (dest src i a : ℕ)
    → Text ram (src + i) cs
    → (dest ≤ src) ⊎ (src + i + length cs < dest + i)
    → copy_prefix ram dest src i n a ≡ (
        if leb (dest + i) a && ltb a (dest + i + n)
        then padded ram (src + i) cs (a - (dest + i))
        else ram a)
unfolding copy_prefix
copy_prefix-at cs zero ram dest src i a t apart = ground arith
copy_prefix-at [] (suc n) ram dest src i a t apart = ground (arith, pad-at (suc n) ram dest i a)
copy_prefix-at (c ∷ cs) (suc n) ram dest src i a (first, pos, rest) apart =
    let ram' = update ram (dest + i) (ram (src + i)) in
    let next : suc (src + i) ≡ src + suc i = omega arith in
    let after = Text-update cs ram (suc (src + i)) (dest + i) (ram (src + i)) (ground arith) rest in
    ground (arith, copy_prefix-at cs n ram' dest src (suc i) a (rw next at after) (ground arith))

-- `strncpy` returns the destination, and leaves there the first `n` characters of a string, filled up
-- with 0 if it has fewer, and every other byte as it was, if the copy does not run into the string. With
-- `n` characters or more no terminator is written.
strncpy_lem :
    (cs : List ℕ) (ram : Array ℕ) (dest src n : ℕ)
    → Text ram src cs
    → (dest ≤ src) ⊎ (src + length cs < dest)
    → let (r, ram') = strncpy ram dest src n in
      (r ≡ dest)
      × ((a : ℕ)
          → ram' a
            ≡ (if leb dest a && ltb a (dest + n) then padded ram src cs (a - dest) else ram a))
unfolding strncpy
strncpy_lem cs ram dest src n t apart =
    let e : src + 0 ≡ src = omega arith in
    (refl, λ a. ground (arith, copy_prefix-at cs n ram dest src 0 a (rw e t)))
