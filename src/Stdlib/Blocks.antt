-- ===== src/Stdlib/Blocks.antt =====
-- stdlib.c: memcpy, memset, memmove and memcmp.
pub mod Copy
pub mod Order
use ea_x.Prelude.{ℕ, zero, suc, ◌+◌, ◌%◌, ◌^◌, Array, update, u8, sub32, ltb, ◌==◌, if◌then◌else◌}

-- `while (n--) *d++ = *s++;`
unfoldable pub copy_up : Array ℕ → ℕ → ℕ → ℕ → Array ℕ
copy_up ram d s zero = ram
copy_up ram d s (suc n) = copy_up (update ram d (ram s)) (suc d) (suc s) n

-- `while (n--) *--d = *--s;`, from the ends `d + n` and `s + n`.
unfoldable pub copy_down : Array ℕ → ℕ → ℕ → ℕ → Array ℕ
copy_down ram d s zero = ram
copy_down ram d s (suc n) = copy_down (update ram (d + n) (ram (s + n))) d s n

-- Each function returns its first argument, beside the new memory.
unfoldable pub memcpy : Array ℕ → ℕ → ℕ → ℕ → ℕ × Array ℕ
unfolding copy_up
memcpy ram dest src n = (dest, copy_up ram dest src n)

unfoldable pub fill : Array ℕ → ℕ → ℕ → ℕ → Array ℕ
fill ram p byte zero = ram
fill ram p byte (suc n) = fill (update ram p byte) (suc p) byte n

unfoldable pub memset : Array ℕ → ℕ → ℕ → ℕ → ℕ × Array ℕ
unfolding fill
memset ram s c n = (s, fill ram s (u8 c) n)

unfoldable pub memmove : Array ℕ → ℕ → ℕ → ℕ → ℕ × Array ℕ
unfolding copy_up copy_down
memmove ram dest src n =
    (dest, if ltb dest src then copy_up ram dest src n else copy_down ram dest src n)

unfoldable pub memcmp : Array ℕ → ℕ → ℕ → ℕ → ℕ
memcmp ram p q zero = 0
memcmp ram p q (suc n) =
    let rest = memcmp ram (suc p) (suc q) n in
    if ram p == ram q then rest else sub32 (ram p) (ram q)
