-- ===== src/Stdlib/Numerals/Read.antt =====
-- `atoi` and `strtol` read the number that a text writes.
use ea_x.Prelude.{
  ℕ, zero, suc, ◌+◌, ◌^◌, ◌<◌, ◌≡◌, refl, ap, ◌∙◌, ◌⊎◌, Bool, true, false, some, List, [], ◌∷◌,
  ◌++◌, Array, length, if◌then◌else◌, arith,
}
use ea_x.Stdlib.{Text}
use ea_x.Stdlib.Numerals.{skip_while, is_space, read_sign, atoi_digits, atoi, negated, digit_of}
use ea_x.Stdlib.Numerals.Digits.{value, AllDigits, Stops, read_on, atoi_digits_lem}

pub data Sign : Type 0 where
  plain plus minus : Sign

abbrev pub signed : Sign → List ℕ → List ℕ
signed plain t = t
signed plus t = b'+' ∷ t
signed minus t = b'-' ∷ t

abbrev pub sign_length : Sign → ℕ
sign_length plain = 0
sign_length plus = 1
sign_length minus = 1

abbrev sign_is_minus : Sign → Bool
sign_is_minus plain = false
sign_is_minus plus = false
sign_is_minus minus = true

-- The number with its sign, as the bit pattern of an `int`.
abbrev pub number : Sign → ℕ → ℕ
number plain n = n
number plus n = n
number minus n = negated n

-- A text behind `k` spaces.
abbrev pub spaces : ℕ → List ℕ → List ℕ
spaces zero t = t
spaces (suc k) t = b' ' ∷ spaces k t

-- A text that begins with a digit of a base.
abbrev StartsWithDigit : List ℕ → Type 0
StartsWithDigit [] = ⊥
StartsWithDigit (c ∷ cs) = (v : ℕ) × (digit_of c ≡ some v)

-- The test is true of a space, and of nothing that starts a number.
abbrev SkipsSpaces : (ℕ → Bool) → Type 0
SkipsSpaces test = (test b' ' ≡ true) × ((c : ℕ) → test c ≡ true → (c ≡ b' ') ⊎ (c ≡ 9))

skips-digit : (test : ℕ → Bool) (c v : ℕ) → SkipsSpaces test → digit_of c ≡ some v → test c ≡ false
skips-digit test c v skips e = ground (arith, skips.1 c)

module _ (test : ℕ → Bool) (skips : SkipsSpaces test) where
  stays :
      (fuel : ℕ) (ram : Array ℕ) (s : ℕ) (t : List ℕ)
      → Text ram s t
      → test (ram s) ≡ false
      → (skip_while test (suc fuel) ram s ≡ some (s + 0)) × Text ram (s + 0) t
  unfolding skip_while
  stays fuel ram s t text e = (ground arith, let same : s + 0 ≡ s = omega arith in rw same text)

  skip_while_lem :
      (k fuel : ℕ) (ram : Array ℕ) (s : ℕ) (sg : Sign) (t : List ℕ)
      → Text ram s (spaces k (signed sg t))
      → StartsWithDigit t
      → k < fuel
      → (skip_while test fuel ram s ≡ some (s + k)) × Text ram (s + k) (signed sg t)
  unfolding skip_while
  skip_while_lem k zero ram s sg t text starts h = absurd (omega arith)
  skip_while_lem zero (suc fuel) ram s sg [] text starts h = absurd starts
  skip_while_lem zero (suc fuel) ram s plain (c ∷ cs) text (v, e) h =
      stays fuel ram s (c ∷ cs) text (ground (arith, skips-digit test c v skips e))
  skip_while_lem zero (suc fuel) ram s plus (c ∷ cs) text starts h =
      stays fuel ram s (b'+' ∷ c ∷ cs) text (ground (arith, skips.1 b'+'))
  skip_while_lem zero (suc fuel) ram s minus (c ∷ cs) text starts h =
      stays fuel ram s (b'-' ∷ c ∷ cs) text (ground (arith, skips.1 b'-'))
  skip_while_lem (suc k) (suc fuel) ram s sg t (first, pos, text) starts h =
      let (e, u) = skip_while_lem k fuel ram (suc s) sg t text starts (omega arith) in
      let same : suc s + k ≡ s + suc k = omega arith in (ground arith, rw same at u)

read_sign_lem :
    (ram : Array ℕ) (p : ℕ) (sg : Sign) (t : List ℕ)
    → Text ram p (signed sg t)
    → StartsWithDigit t
    → (read_sign ram p ≡ (sign_is_minus sg, p + sign_length sg)) × Text ram (p + sign_length sg) t
unfolding read_sign
read_sign_lem ram p sg [] text starts = absurd starts
read_sign_lem ram p plain (c ∷ cs) text (v, e) =
    (ground arith, let same : p + 0 ≡ p = omega arith in rw same text)
read_sign_lem ram p plus (c ∷ cs) (first, pos, text) starts =
    (ground arith, let same : p + 1 ≡ suc p = omega arith in rw same text)
read_sign_lem ram p minus (c ∷ cs) (first, pos, text) starts =
    (ground arith, let same : p + 1 ≡ suc p = omega arith in rw same text)

-- The first digit is there.
starts_lem :
    (b : ℕ) (ds rest : List ℕ) → 0 < length ds → AllDigits b ds → StartsWithDigit (ds ++ rest)
starts_lem b [] rest pos all = absurd (omega arith)
starts_lem b (c ∷ cs) rest pos ((v, e, lt), all) = (v, e)

read_on-zero : (b : ℕ) (ds : List ℕ) → read_on b 0 ds ≡ value b ds
read_on-zero b ds = grind arith

number-if : (sg : Sign) (n : ℕ) → (if sign_is_minus sg then negated n else n) ≡ number sg n
number-if plain n = refl
number-if plus n = refl
number-if minus n = refl

atoi-steps :
    (fuel : ℕ) (ram : Array ℕ) (s p q n : ℕ) (sg : Sign)
    → skip_while is_space fuel ram s ≡ some p
    → read_sign ram p ≡ (sign_is_minus sg, q)
    → atoi_digits fuel ram q 0 ≡ some n
    → atoi fuel ram s ≡ some (number sg n)
unfolding atoi
atoi-steps fuel ram s p q n sg e1 e2 e3 = rw (e1, atoi, e2, e3) (rw e2 (ap some (number-if sg n)))

-- `atoi` ends on every text that is spaces, at most one sign, decimal digits, and then anything that does
-- not begin with another digit: it returns the number that the digits denote by their places, with the
-- sign, if that fits.
atoi_lem :
    (k : ℕ) (sg : Sign) (ds rest : List ℕ) (fuel : ℕ) (ram : Array ℕ) (s : ℕ)
    → Text ram s (spaces k (signed sg (ds ++ rest)))
    → 0 < length ds
    → AllDigits 10 ds
    → Stops 10 rest
    → k < fuel
    → length ds < fuel
    → value 10 ds < 2 ^ 31
    → atoi fuel ram s ≡ some (number sg (value 10 ds))
atoi_lem k sg ds rest fuel ram s text pos all stop hk hd fits =
    let starts = starts_lem 10 ds rest pos all in
    let (e1, t1) =
      skip_while_lem is_space (refl, λ c h. ground arith) k fuel ram s sg (ds ++ rest) text starts
        hk in
    let (e2, t2) = read_sign_lem ram (s + k) sg (ds ++ rest) t1 starts in
    let e3 =
      atoi_digits_lem ds rest fuel ram (s + k + sign_length sg) 0 t2 hd all stop
        (rw (read_on-zero 10 ds) (omega arith)) in
    atoi-steps fuel ram s (s + k) (s + k + sign_length sg) (read_on 10 0 ds) sg e1 e2 e3
    ∙ ap (λ n. some (number sg n)) (read_on-zero 10 ds)

-- How the base is given: as the argument, or by a prefix where the argument is 0.
pub data Radix : Type 0 where
  given : (base : ℕ) → Radix
  hex : Radix

abbrev pub radix : Radix → ℕ
radix (given base) = base
radix hex = 16

abbrev pub base_argument : Radix → ℕ
base_argument (given base) = base
base_argument hex = 0

abbrev pub prefixed : Radix → List ℕ → List ℕ
prefixed (given base) t = t
prefixed hex t = b'0' ∷ b'x' ∷ t

abbrev pub prefix_length : Radix → ℕ
prefix_length (given base) = 0
prefix_length hex = 2
