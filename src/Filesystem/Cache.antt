-- ===== src/Filesystem/Cache.antt =====
-- What the block cache keeps of a block that is stored.
use ea_x.Prelude.{
  ℕ, zero, suc, ◌+◌, ◌<◌, ◌≡◌, refl, ◌∙◌, ◌≢◌, inl, inr, Option, some, Array, update, u32, ◌==◌,
  arith, Option-cases,
}
use ea_x.Prelude.Search.{find-some, find-lt, find-before}
use ea_x.Filesystem.{Filesystem, Block, cache_size, block_size}
use ea_x.Filesystem.Blocks.{
  fs_get_block_data, fs_set_block_data, cache_slot, store_byte, store_bytes,
}

-- A slot in use is never written.
store_byte-used :
    (b i byte : ℕ) (cache : Array Block) (j : ℕ)
    → (cache j).block_number ≢ 0
    → store_byte b i byte cache j ≡ cache j
unfolding store_byte
store_byte-used b i byte cache j used = elim (Option-cases (cache_slot cache 0)) [
  | inl e ↦ rw (e, store_byte) refl
  | inr (k, e) ↦
      rw (e, store_byte) (ground (arith, find-lt (λ i. (cache i).block_number == 0) cache_size e))
]

store_bytes-used :
    (b : ℕ) (buffer : Array ℕ) (rounds i : ℕ) (cache : Array Block) (j : ℕ)
    → (cache j).block_number ≢ 0
    → store_bytes b buffer rounds i cache j ≡ cache j
unfolding store_bytes
store_bytes-used b buffer zero i cache j used = refl
store_bytes-used b buffer (suc rounds) i cache j used =
    let once = store_byte-used b i (buffer i) cache j used in
    store_bytes-used b buffer rounds (suc i) (store_byte b i (buffer i) cache) j (rw once used)
    ∙ once

get-slot :
    (s : Filesystem) (b i : ℕ)
    → cache_slot s.block_cache b ≡ some i
    → fs_get_block_data s b
      ≡ (block_size, some (s.block_cache i).bytes, record s { cache_hits = u32 (s.cache_hits + 1) })
unfolding fs_get_block_data
get-slot s b i e = rw (e, fs_get_block_data) refl

-- What `fs_get_block_data` writes to its buffer.
abbrev pub read : Filesystem → ℕ → Option (Array ℕ)
read s b = (fs_get_block_data s b).1

-- Storing a block that the cache holds changes nothing that is read of it, if the slots before its own
-- are in use: with its slot in use too, the new bytes go elsewhere.
fs_get_block_data-set_cached :
    (s : Filesystem) (b i : ℕ) (buffer : Array ℕ)
    → b ≢ 0
    → cache_slot s.block_cache b ≡ some i
    → ((j : ℕ) → j < i → (s.block_cache j).block_number ≢ 0)
    → read (fs_set_block_data s b buffer) b ≡ read s b
unfolding fs_set_block_data
fs_get_block_data-set_cached s b i buffer ne e used =
    let holds = λ (j : ℕ). (s.block_cache j).block_number == b in
    let (within, hit) = find-lt holds cache_size e in
    let kept = store_bytes-used b buffer block_size 0 s.block_cache in
    let still : cache_slot (fs_set_block_data s b buffer).block_cache b ≡ some i =
      find-some _ cache_size i within (rw (kept i (ground arith)) hit)
        (λ j lt. rw (kept j (used j lt)) (find-before holds cache_size e j lt)) in
    ground (
      arith,
      get-slot s b i e,
      get-slot (fs_set_block_data s b buffer) b i still,
      kept i (ground arith),
    )

-- The first byte takes a free slot 0, and the other bytes do not find it free.
first_byte :
    (b n : ℕ) (buffer : Array ℕ) (cache : Array Block)
    → b ≢ 0
    → (cache 0).block_number ≡ 0
    → store_bytes b buffer (suc n) 0 cache 0 ≡ record (cache 0) {
      block_number = b;
      dirty = 1;
      bytes = update (cache 0).bytes 0 (buffer 0);
    }
unfolding store_bytes store_byte
first_byte b n buffer cache ne free =
    let slot : cache_slot cache 0 ≡ some 0 =
      find-some _ cache_size 0 (omega arith) (ground arith) (λ j lt. absurd (omega arith)) in
    let stored : store_byte b 0 (buffer 0) cache 0 ≡ record (cache 0) {
      block_number = b;
      dirty = 1;
      bytes = update (cache 0).bytes 0 (buffer 0);
    } =
      rw (slot, store_byte) refl in
    store_bytes-used b buffer n 1 (store_byte b 0 (buffer 0) cache) 0 (rw stored ne) ∙ stored

-- With slot 0 free, storing a block, other than block 0, and reading it back gives the first byte
-- that was stored, and what the slot held before in place of all the others.
fs_get_block_data-set :
    (s : Filesystem) (b : ℕ) (buffer : Array ℕ)
    → b ≢ 0
    → (s.block_cache 0).block_number ≡ 0
    → read (fs_set_block_data s b buffer) b ≡ some (update (s.block_cache 0).bytes 0 (buffer 0))
unfolding fs_set_block_data
fs_get_block_data-set s b buffer ne free =
    let first = first_byte b 4095 buffer s.block_cache ne free in
    let slot : cache_slot (fs_set_block_data s b buffer).block_cache b ≡ some 0 =
      find-some _ cache_size 0 (omega arith) (rw first (ground arith))
        (λ j lt. absurd (omega arith)) in
    ground (arith, get-slot (fs_set_block_data s b buffer) b 0 slot, first)
