-- ===== src/Kernel/Bytes.antt =====
-- kernel.c: its own memcpy and memset.
--
-- stdlib.c defines both too, so that the two files could not be linked together.
use ea_x.Prelude.{ℕ, zero, suc, ◌≡◌, refl, ap, Array, update, u8}
use ea_x.Stdlib.Blocks

-- `while (n--) *d++ = *s++;`
unfoldable pub copy_bytes : Array ℕ → (d s n : ℕ) → Array ℕ
copy_bytes ram d s zero = ram
copy_bytes ram d s (suc n) = copy_bytes (update ram d (ram s)) (suc d) (suc s) n

unfoldable pub memcpy : Array ℕ → (dest src n : ℕ) → ℕ × Array ℕ
unfolding copy_bytes
memcpy ram dest src n = (dest, copy_bytes ram dest src n)

-- `while (n--) *p++ = (uint8_t)c;`
unfoldable pub set_bytes : Array ℕ → (p c n : ℕ) → Array ℕ
set_bytes ram p c zero = ram
set_bytes ram p c (suc n) = set_bytes (update ram p (u8 c)) (suc p) c n

unfoldable pub memset : Array ℕ → (s c n : ℕ) → ℕ × Array ℕ
unfolding set_bytes
memset ram s c n = (s, set_bytes ram s c n)

copy_bytes-copy_up :
    (n : ℕ) (ram : Array ℕ) (d s : ℕ) → copy_bytes ram d s n ≡ Blocks.copy_up ram d s n
unfolding copy_bytes Blocks.copy_up
copy_bytes-copy_up zero ram d s = refl
copy_bytes-copy_up (suc n) ram d s = copy_bytes-copy_up n (update ram d (ram s)) (suc d) (suc s)

set_bytes-fill :
    (n : ℕ) (ram : Array ℕ) (p c : ℕ) → set_bytes ram p c n ≡ Blocks.fill ram p (u8 c) n
unfolding set_bytes Blocks.fill
set_bytes-fill zero ram p c = refl
set_bytes-fill (suc n) ram p c = set_bytes-fill n (update ram p (u8 c)) (suc p) c

-- On every memory and with every argument, `memcpy` and `memset` of kernel.c do what those of stdlib.c
-- do.
memcpy-memset :
    (ram : Array ℕ) (dest src c n : ℕ)
    → (memcpy ram dest src n ≡ Blocks.memcpy ram dest src n)
      × (memset ram dest c n ≡ Blocks.memset ram dest c n)
unfolding memcpy memset Blocks.memcpy Blocks.memset
memcpy-memset ram dest src c n = (
  ap (λ (m : Array ℕ). (dest, m)) (copy_bytes-copy_up n ram dest src),
  ap (λ (m : Array ℕ). (dest, m)) (set_bytes-fill n ram dest c),
)
