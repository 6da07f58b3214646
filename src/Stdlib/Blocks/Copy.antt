-- ===== src/Stdlib/Blocks/Copy.antt =====
-- Where the bytes of a copy come from.
use mathlib.Core.Path.{fun_ext}
use ea_x.Prelude.{
  ℕ, zero, suc, ◌+◌, ◌-◌, ◌≤◌, ◌<◌, ◌≡◌, refl, ◌⊎◌, inl, inr, ◌&&◌, Array, update, u8, ltb, leb,
  if◌then◌else◌, arith, Bool-cases,
}
use ea_x.Stdlib.Blocks.{copy_up, copy_down, fill, memcpy, memset, memmove}

-- The memory with the `n` bytes from `s` on, as they were, at `d`.
abbrev pub copied : Array ℕ → ℕ → ℕ → ℕ → Array ℕ
copied ram d s n a = if leb d a && ltb a (d + n) then ram (s + (a - d)) else ram a

-- Upwards, a byte is right that is not read after the copy has come by, and each is that lies
-- less than `d - s` behind `d`.
pub copy_up-at :
    (n : ℕ) (ram : Array ℕ) (d s a : ℕ)
    → (d ≤ s) ⊎ (a < d + (d - s))
    → copy_up ram d s n a ≡ copied ram d s n a
unfolding copy_up
copy_up-at zero ram d s a h = ground arith
copy_up-at (suc n) ram d s a h =
    ground (arith, copy_up-at n (update ram d (ram s)) (suc d) (suc s) a)

copy_down-at :
    (n : ℕ) (ram : Array ℕ) (d s a : ℕ) → s ≤ d → copy_down ram d s n a ≡ copied ram d s n a
unfolding copy_down
copy_down-at zero ram d s a h = ground arith
copy_down-at (suc n) ram d s a h =
    ground (arith, copy_down-at n (update ram (d + n) (ram (s + n))) d s a)

-- `memmove` returns the destination and copies the block as it was before the call, however the two
-- blocks overlap, and leaves every other byte alone.
pub memmove_lem :
    (ram : Array ℕ) (dest src n : ℕ)
    → let (r, ram') = memmove ram dest src n in
      (r ≡ dest) × ((a : ℕ) → ram' a ≡ copied ram dest src n a)
unfolding memmove
memmove_lem ram dest src n =
    (refl, λ a. ground (arith, copy_up-at n ram dest src a, copy_down-at n ram dest src a))

pub copy_up-beyond : (n : ℕ) (ram : Array ℕ) (d s a : ℕ) → d + n ≤ a → copy_up ram d s n a ≡ ram a
unfolding copy_up
copy_up-beyond zero ram d s a h = refl
copy_up-beyond (suc n) ram d s a h =
    ground (arith, copy_up-beyond n (update ram d (ram s)) (suc d) (suc s) a)

-- The two blocks are apart, or the copy runs ahead of the source.
pub copy_up-copied :
    (n : ℕ) (ram : Array ℕ) (d s a : ℕ)
    → (d ≤ s) ⊎ (s + n ≤ d)
    → copy_up ram d s n a ≡ copied ram d s n a
copy_up-copied n ram d s a h = ground (arith, copy_up-at n ram d s a, copy_up-beyond n ram d s a)

-- `memcpy` does what `memmove` does unless the destination starts within the source.
memcpy-memmove :
    (ram : Array ℕ) (dest src n : ℕ)
    → (dest ≤ src) ⊎ (src + n ≤ dest)
    → memcpy ram dest src n ≡ memmove ram dest src n
unfolding memcpy memmove
memcpy-memmove ram dest src n h = elim (Bool-cases (ltb dest src)) [
  | inl below ↦ rw below refl
  | inr above ↦
      let same : copy_up ram dest src n ≡ copy_down ram dest src n =
        fun_ext
          λ a. ground (arith, copy_up-copied n ram dest src a h, copy_down-at n ram dest src a) in
      rw (above, same) refl
]

pub fill-at :
    (n : ℕ) (ram : Array ℕ) (p byte a : ℕ)
    → fill ram p byte n a ≡ (if leb p a && ltb a (p + n) then byte else ram a)
unfolding fill
fill-at zero ram p byte a = ground arith
fill-at (suc n) ram p byte a = ground (arith, fill-at n (update ram p byte) (suc p) byte a)

-- `memset` returns its first argument, writes the low byte of the second to the `n` bytes there, and
-- leaves every other byte alone.
pub memset_lem :
    (ram : Array ℕ) (s c n : ℕ)
    → let (r, ram') = memset ram s c n in
      (r ≡ s) × ((a : ℕ) → ram' a ≡ (if leb s a && ltb a (s + n) then u8 c else ram a))
unfolding memset
memset_lem ram s c n = (refl, fill-at n ram s (u8 c))
