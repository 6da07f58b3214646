-- ===== src/Prelude/Arrays.antt =====
-- A C array is a function of the index, so that a write is seen at one index and nowhere else. The
-- bound of the array is no part of it: where the code does not test an index, the model does.
use Prim.Native.Nat.{ℕ, zero, suc}
use mathlib.Core.Path.{◌≡◌}
use mathlib.Core.Logic.{◌≢◌}
use mathlib.Core.Bool.{true, false}
use mathlib.Core.List.{List, [], ◌∷◌}
use native.Mathlib.Omega.{arith}
use ea_x.Prelude.Tests.{◌==◌, if◌then◌else◌}

abbrev pub Array {ℓ} : Type ℓ → Type ℓ
Array A = ℕ → A

-- `a[i] = v`
abbrev pub update {ℓ} : {A : Type ℓ} → Array A → ℕ → A → Array A
update a i v j = if i == j then v else a j

module _ {ℓ} {A : Type ℓ} where
  pub update_self : (a : Array A) (i : ℕ) (v : A) → update a i v i ≡ v
  update_self a i v = ground arith

  pub update_ne : (a : Array A) (i j : ℕ) (v : A) → i ≢ j → update a i v j ≡ a j
  update_ne a i j v h = ground arith

module _ {ℓ} {A : Type ℓ} where
  abbrev pub length : List A → ℕ
  length [] = 0
  length (x ∷ xs) = suc (length xs)

-- `for (i = from; i < from + rounds; i++) { dst[i] = src[i]; if (src[i] == 0) break; }`
unfoldable pub copy_from : Array ℕ → ℕ → ℕ → Array ℕ → Array ℕ
copy_from src zero i dst = dst
copy_from src (suc rounds) i dst = elim (src i == 0) [
  | true ↦ update dst i (src i)
  | false ↦ copy_from src rounds (suc i) (update dst i (src i))
]

-- A C string is copied into a buffer of `size` bytes up to its terminator, or cut at the end.
unfoldable pub copy_string : ℕ → Array ℕ → Array ℕ → Array ℕ
unfolding copy_from
copy_string size src dst = copy_from src size 0 dst

-- The string in a buffer of `rounds` bytes from index `i` on, without its terminator, if it has one.
unfoldable pub string_from : Array ℕ → (rounds i : ℕ) → List ℕ
string_from a zero i = []
string_from a (suc rounds) i =
    let rest = string_from a rounds (suc i) in if a i == 0 then [] else a i ∷ rest
