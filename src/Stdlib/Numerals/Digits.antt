-- ===== src/Stdlib/Numerals/Digits.antt =====
-- The number that digits denote, and the loops that read them.
use native.Mathlib.Nat.{pow-suc, pow-zero}
use ea_x.Prelude.{
  ℕ, zero, suc, ◌+◌, ◌*◌, ◌^◌, ◌≤◌, ◌<◌, ◌≡◌, refl, sym, ap, ◌∙◌, ◌⊎◌, none, some, List, [], ◌∷◌,
  ◌++◌, Array, length, u32, arith,
}
use ea_x.Stdlib.{Text}
use ea_x.Stdlib.Numerals.{atoi_digits, strtol_digits, digit_of, digit_in}

abbrev pub digit_value : ℕ → ℕ
digit_value c = elim (digit_of c) [ none ↦ 0 | some digit ↦ digit ]

-- By the weight of each place.
unfoldable pub value : ℕ → List ℕ → ℕ
value b [] = 0
value b (c ∷ cs) = digit_value c * b ^ length cs + value b cs

abbrev pub AllDigits : ℕ → List ℕ → Type 0
AllDigits b [] = Unit {0}
AllDigits b (c ∷ cs) = ((v : ℕ) × (digit_of c ≡ some v) × (v < b)) × AllDigits b cs

-- What follows the digits does not go on with one.
abbrev pub Stops : ℕ → List ℕ → Type 0
Stops b [] = Unit {0}
Stops b (c ∷ cs) = (digit_of c ≡ none) ⊎ ((v : ℕ) × (digit_of c ≡ some v) × (b ≤ v))

pow-pos : (b n : ℕ) → 0 < b → 0 < b ^ n
pow-pos b zero h = omega (arith, pow-zero b)
pow-pos b (suc n) h = rw (pow-suc b n) (grind (arith, pow-pos b n h))

-- One more digit, at the front.
shift_in : (acc b d v n : ℕ) → acc * b ^ suc n + (d * b ^ n + v) ≡ (acc * b + d) * b ^ n + v
shift_in acc b d v n = rw (pow-suc b n) (grind arith)

shift_in-le : (acc b d v n : ℕ) → 0 < b → acc * b + d ≤ (acc * b + d) * b ^ n + v
shift_in-le acc b d v n h = grind (arith, pow-pos b n h)

-- What the loops hold once they have read the digits.
abbrev pub read_on : ℕ → ℕ → List ℕ → ℕ
read_on b acc ds = acc * b ^ length ds + value b ds

read_on-cons :
    (b acc c : ℕ) (cs : List ℕ) → read_on b acc (c ∷ cs) ≡ read_on b (acc * b + digit_value c) cs
unfolding value
read_on-cons b acc c cs = shift_in acc b (digit_value c) (value b cs) (length cs)

read_on-nil : (b acc : ℕ) → read_on b acc [] ≡ acc
unfolding value
read_on-nil b acc = omega (arith, ap (λ (t : ℕ). acc * t) (pow-zero b))

-- The digits read so far are at most the whole.
read_on-le : (b acc c : ℕ) (cs : List ℕ) → 0 < b → acc * b + digit_value c ≤ read_on b acc (c ∷ cs)
read_on-le b acc c cs h =
    rw (read_on-cons b acc c cs) (shift_in-le acc b (digit_value c) (value b cs) (length cs) h)

-- One round of each loop.
strtol_digits-step :
    (fuel : ℕ) (ram : Array ℕ) (s b acc v : ℕ)
    → digit_in b (ram s) ≡ some v
    → strtol_digits (suc fuel) ram s b acc ≡ strtol_digits fuel ram (suc s) b (u32 (acc * b + v))
unfolding strtol_digits
strtol_digits-step fuel ram s b acc v e = ground arith

atoi_digits-step :
    (fuel : ℕ) (ram : Array ℕ) (s acc v : ℕ)
    → digit_of (ram s) ≡ some v
    → v < 10
    → atoi_digits (suc fuel) ram s acc ≡ atoi_digits fuel ram (suc s) (u32 (acc * 10 + v))
unfolding atoi_digits
atoi_digits-step fuel ram s acc v e lt = ground arith

digit_value-some : (c v : ℕ) → digit_of c ≡ some v → digit_value c ≡ v
digit_value-some c v e = ground arith

digit_in-some : (b c v : ℕ) → digit_of c ≡ some v → v < b → b < 2 ^ 31 → digit_in b c ≡ some v
digit_in-some b c v e lt small = ground arith

pub strtol_digits_lem :
    (ds rest : List ℕ) (fuel : ℕ) (ram : Array ℕ) (s b acc : ℕ)
    → Text ram s (ds ++ rest)
    → length ds < fuel
    → 0 < b
    → b < 2 ^ 31
    → AllDigits b ds
    → Stops b rest
    → read_on b acc ds < 2 ^ 32
    → strtol_digits fuel ram s b acc ≡ some (read_on b acc ds, s + length ds)
unfolding strtol_digits
strtol_digits_lem ds rest zero ram s b acc t h pos small all stop fits = absurd (omega arith)
strtol_digits_lem [] [] (suc fuel) ram s b acc t h pos small all stop fits =
    ground (arith, read_on-nil b acc)
strtol_digits_lem [] (c ∷ rest) (suc fuel) ram s b acc t h pos small all stop fits =
    ground (arith, read_on-nil b acc)
strtol_digits_lem (c ∷ cs) rest (suc fuel) ram s b acc (first, nonzero, t) h pos small
      ((v, e, lt), all) stop fits =
    let bound = read_on-le b acc c cs pos in
    let kept : u32 (acc * b + v) ≡ acc * b + digit_value c =
      omega (arith, digit_value-some c v e, ap (λ (x : ℕ). acc * b + x) (digit_value-some c v e)) in
    let ih =
      strtol_digits_lem cs rest fuel ram (suc s) b (acc * b + digit_value c) t (omega arith) pos
        small all stop (rw (read_on-cons b acc c cs) at fits) in
    let moved : suc s + length cs ≡ s + suc (length cs) = omega arith in
    strtol_digits-step fuel ram s b acc v (rw (← first) at (digit_in-some b c v e lt small))
    ∙ ap (strtol_digits fuel ram (suc s) b) kept
    ∙ ih
    ∙ rw (read_on-cons b acc c cs, moved) refl

pub atoi_digits_lem :
    (ds rest : List ℕ) (fuel : ℕ) (ram : Array ℕ) (s acc : ℕ)
    → Text ram s (ds ++ rest)
    → length ds < fuel
    → AllDigits 10 ds
    → Stops 10 rest
    → read_on 10 acc ds < 2 ^ 32
    → atoi_digits fuel ram s acc ≡ some (read_on 10 acc ds)
unfolding atoi_digits
atoi_digits_lem ds rest zero ram s acc t h all stop fits = absurd (omega arith)
atoi_digits_lem [] [] (suc fuel) ram s acc t h all stop fits = ground (arith, read_on-nil 10 acc)
atoi_digits_lem [] (c ∷ rest) (suc fuel) ram s acc t h all stop fits =
    ground (arith, read_on-nil 10 acc)
atoi_digits_lem (c ∷ cs) rest (suc fuel) ram s acc (first, nonzero, t) h ((v, e, lt), all) stop
      fits =
    let bound = read_on-le 10 acc c cs (omega arith) in
    let kept : u32 (acc * 10 + v) ≡ acc * 10 + digit_value c =
      omega (arith, digit_value-some c v e) in
    let ih =
      atoi_digits_lem cs rest fuel ram (suc s) (acc * 10 + digit_value c) t (omega arith) all stop
        (rw (read_on-cons 10 acc c cs) at fits) in
    atoi_digits-step fuel ram s acc v (rw (← first) at e) lt
    ∙ ap (atoi_digits fuel ram (suc s)) kept
    ∙ ih
    ∙ sym (ap some (read_on-cons 10 acc c cs))
