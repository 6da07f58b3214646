-- ===== src/Prelude/Members.antt =====
-- Lists of numbers: what is in them, and what is taken out.
use ea_x.Prelude.{
  ℕ, suc, ◌≡◌, ◌≢◌, refl, ap, inl, inr, true, false, ◌||◌, Bool, List, [], ◌∷◌, ◌==◌, length,
  if◌then◌else◌, arith, Bool-cases,
}

unfoldable pub has : ℕ → List ℕ → Bool
has x [] = false
has x (y ∷ ys) = let rest = has x ys in (x == y) || rest

unfoldable pub without : ℕ → List ℕ → List ℕ
without x [] = []
without x (y ∷ ys) = let rest = without x ys in if x == y then rest else y ∷ rest

pub has-without : (x y : ℕ) (xs : List ℕ) → x ≢ y → has x (without y xs) ≡ has x xs
unfolding has without
has-without x y [] other = refl
has-without x y (z ∷ xs) other = ground (arith, has-without x y xs other)

-- No number is there twice.
abbrev pub IsDistinct : List ℕ → Type 0
IsDistinct [] = Unit {0}
IsDistinct (x ∷ xs) = (has x xs ≡ false) × IsDistinct xs

has-without-false : (x y : ℕ) (xs : List ℕ) → has x xs ≡ false → has x (without y xs) ≡ false
unfolding has without
has-without-false x y [] h = refl
has-without-false x y (z ∷ xs) h = ground (arith, has-without-false x y xs)

pub without-IsDistinct : (y : ℕ) (xs : List ℕ) → IsDistinct xs → IsDistinct (without y xs)
unfolding without
without-IsDistinct y [] v = tt
without-IsDistinct y (x ∷ xs) (apart, v) =
    let rest = without-IsDistinct y xs v in
    elim (Bool-cases (y == x)) [
      | inl same ↦ rw same rest
      | inr other ↦ rw other (has-without-false x y xs apart, rest)
    ]

without-missing : (y : ℕ) (xs : List ℕ) → has y xs ≡ false → without y xs ≡ xs
unfolding has without
without-missing y [] h = refl
without-missing y (x ∷ xs) h = ground (arith, without-missing y xs)

pub length-without :
    (y : ℕ) (xs : List ℕ)
    → IsDistinct xs
    → has y xs ≡ true
    → suc (length (without y xs)) ≡ length xs
unfolding has without
length-without y [] v h = ground (arith, h)
length-without y (x ∷ xs) (apart, v) h = elim (Bool-cases (y == x)) [
  | inl same ↦
      let e : y ≡ x = ground arith in
      let gone : without y xs ≡ xs = without-missing y xs (rw e apart) in rw (same, gone) refl
  | inr other ↦ rw other (ap suc (length-without y xs v (rw other at h)))
]
