-- ===== src/Prelude/Bits.antt =====
-- The bits of a number under `&` and `|`.
use Prim.Native.Nat.{digits, bit_and-bitwise, bit_or-bitwise, min, max}
use native.Mathlib.Nat.{pow-suc}
use ea_x.Prelude.{
  ℕ, zero, suc, ◌+◌, ◌*◌, ◌/◌, ◌%◌, ◌≤◌, ◌≡◌, refl, sym, ap, ◌∙◌, bit_and, bit_or, arith, ◌^◌, ◌-◌,
  ◌<◌, ◌==◌, if◌then◌else◌,
}

-- `(n >> k) & 1`
unfoldable pub bit : ℕ → ℕ → ℕ
bit n zero = n % 2
bit n (suc k) = bit (n / 2) k

-- The recursion that the native operations on digits stand for: `end` continues past the last digit
-- of the first number.
module _ (end : ℕ → ℕ) (op : ℕ → ℕ → ℕ) where
  digits-zero : (fuel b : ℕ) → digits end op fuel 0 b ≡ end b
  digits-zero zero b = refl
  digits-zero (suc fuel) b = refl

  -- Fuel beyond the number of digits changes nothing.
  digits_enough : (n m a b : ℕ) → a ≤ n → a ≤ m → digits end op n a b ≡ digits end op m a b
  digits_enough n m zero b p q = digits-zero n b ∙ sym (digits-zero m b)
  digits_enough zero m (suc a) b p q = absurd (omega arith)
  digits_enough (suc n) zero (suc a) b p q = absurd (omega arith)
  digits_enough (suc n) (suc m) (suc a) b p q =
      omega (arith, digits_enough n m (suc a / 2) (b / 2) (omega arith) (omega arith))

  digits_step :
      ((b : ℕ) → end b ≡ end (b / 2) * 2 + op 0 (b % 2))
      → (a b : ℕ)
      → digits end op a a b ≡ digits end op (a / 2) (a / 2) (b / 2) * 2 + op (a % 2) (b % 2)
  digits_step law zero b = law b
  digits_step law (suc a) b =
      omega (arith, digits_enough a (suc a / 2) (suc a / 2) (b / 2) (omega arith) (omega arith))

bit_and_step : (a b : ℕ) → bit_and a b ≡ bit_and (a / 2) (b / 2) * 2 + min (a % 2) (b % 2)
bit_and_step a b = omega (
  arith,
  bit_and-bitwise a b,
  bit_and-bitwise (a / 2) (b / 2),
  digits_step (λ b. zero) min (λ b. omega arith) a b,
)

bit_or_step : (a b : ℕ) → bit_or a b ≡ bit_or (a / 2) (b / 2) * 2 + max (a % 2) (b % 2)
bit_or_step a b = omega (
  arith,
  bit_or-bitwise a b,
  bit_or-bitwise (a / 2) (b / 2),
  digits_step (λ b. b) max (λ b. omega arith) a b,
)

-- `&` takes the lesser and `|` the greater of two bits.
pub bit-bit_and : (a b k : ℕ) → bit (bit_and a b) k ≡ min (bit a k) (bit b k)
unfolding bit
bit-bit_and a b zero = omega (arith, bit_and_step a b)
bit-bit_and a b (suc k) =
    let half : bit_and a b / 2 ≡ bit_and (a / 2) (b / 2) = omega (arith, bit_and_step a b) in
    rw half (bit-bit_and (a / 2) (b / 2) k)

pub bit-bit_or : (a b k : ℕ) → bit (bit_or a b) k ≡ max (bit a k) (bit b k)
unfolding bit
bit-bit_or a b zero = omega (arith, bit_or_step a b)
bit-bit_or a b (suc k) =
    let half : bit_or a b / 2 ≡ bit_or (a / 2) (b / 2) = omega (arith, bit_or_step a b) in
    rw half (bit-bit_or (a / 2) (b / 2) k)

bit-zero : (k : ℕ) → bit 0 k ≡ 0
unfolding bit
bit-zero zero = refl
bit-zero (suc k) = bit-zero k

-- The bits of `1 << k`.
pub bit-pow : (k j : ℕ) → bit (2 ^ k) j ≡ (if k == j then 1 else 0)
unfolding bit
bit-pow zero zero = refl
bit-pow zero (suc j) = ground (arith, bit-zero j)
bit-pow (suc k) zero = ground (arith, pow-suc 2 k)
bit-pow (suc k) (suc j) =
    let half : 2 ^ suc k / 2 ≡ 2 ^ k = omega (arith, pow-suc 2 k) in
    rw half (ground (arith, bit-pow k j))

pub bit-le : (n k : ℕ) → bit n k ≤ 1
unfolding bit
bit-le n zero = omega arith
bit-le n (suc k) = bit-le (n / 2) k

-- `~x` on w bits.
pub bit-complement : (w x j : ℕ) → x < 2 ^ w → j < w → bit (2 ^ w - 1 - x) j ≡ 1 - bit x j
unfolding bit
bit-complement zero x j h lt = absurd (omega arith)
bit-complement (suc w) x zero h lt = omega (arith, pow-suc 2 w)
bit-complement (suc w) x (suc j) h lt =
    let half : (2 ^ suc w - 1 - x) / 2 ≡ 2 ^ w - 1 - x / 2 = omega (arith, pow-suc 2 w) in
    rw half (bit-complement w (x / 2) j (omega (arith, pow-suc 2 w)) (omega arith))

bit_and_bound : (fuel a b : ℕ) → a ≤ fuel → (bit_and a b ≤ a) × (bit_and a b ≤ b)
bit_and_bound zero zero b h = omega (arith, bit_and-bitwise 0 b)
bit_and_bound zero (suc a) b h = absurd (omega arith)
bit_and_bound (suc fuel) zero b h = omega (arith, bit_and-bitwise 0 b)
bit_and_bound (suc fuel) (suc a) b h =
    omega (arith, bit_and_step (suc a) b, bit_and_bound fuel (suc a / 2) (b / 2) (omega arith))

pub bit_and-le : (a b : ℕ) → (bit_and a b ≤ a) × (bit_and a b ≤ b)
bit_and-le a b = bit_and_bound a a b (omega arith)

-- Testing one bit by a mask.
pub bit_and-pow : (n k : ℕ) → bit_and n (2 ^ k) ≡ bit n k * 2 ^ k
unfolding bit
bit_and-pow n zero = omega (arith, bit_and_step n 1, bit_and-le (n / 2) 0)
bit_and-pow n (suc k) =
    let half : 2 ^ suc k / 2 ≡ 2 ^ k = omega (arith, pow-suc 2 k) in
    omega (
      arith,
      rw half at (bit_and_step n (2 ^ suc k)),
      bit_and-pow (n / 2) k,
      pow-suc 2 k,
      ap (λ (t : ℕ). bit (n / 2) k * t) (pow-suc 2 k),
    )
