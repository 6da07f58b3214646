-- ===== src/Stdlib/Blocks/Order.antt =====
-- `memcmp` as a comparison of lists of bytes.
use Prim.Native.Nat.{compare, Ordering, lt, eq, gt}
use ea_x.Prelude.{ℕ, zero, suc, ◌<◌, ◌≡◌, refl, List, [], ◌∷◌, Array, ◌==◌, if◌then◌else◌, arith}
use ea_x.Stdlib.{is_negative}
use ea_x.Stdlib.Blocks.{memcmp}

-- The lexicographic order.
unfoldable pub compare_lists : List ℕ → List ℕ → Ordering
compare_lists [] [] = eq
compare_lists [] (y ∷ ys) = lt
compare_lists (x ∷ xs) [] = gt
compare_lists (x ∷ xs) (y ∷ ys) =
    let rest = compare_lists xs ys in if x == y then rest else compare x y

-- What the sign of an `int` says.
abbrev pub order_of : ℕ → Ordering
order_of n = if n == 0 then eq else if is_negative n then lt else gt

unfoldable pub bytes : Array ℕ → ℕ → ℕ → List ℕ
bytes ram p zero = []
bytes ram p (suc n) = ram p ∷ bytes ram (suc p) n

-- On memory that holds bytes, the sign of `memcmp` is the lexicographic order of the two blocks.
pub memcmp-compare_lists :
    (n : ℕ) (ram : Array ℕ) (p q : ℕ)
    → ((a : ℕ) → ram a < 256)
    → order_of (memcmp ram p q n) ≡ compare_lists (bytes ram p n) (bytes ram q n)
unfolding memcmp compare_lists bytes
memcmp-compare_lists zero ram p q h = refl
memcmp-compare_lists (suc n) ram p q h =
    ground (arith, h p, h q, memcmp-compare_lists n ram (suc p) (suc q) h)
