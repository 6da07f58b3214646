-- ===== src/Filesystem/Blocks.antt =====
-- filesystem.c: blocks and the block cache.
use ea_x.Prelude.{
  ℕ, zero, suc, ◌+◌, Option, none, some, Array, update, u32, sub32, ◌==◌, if◌then◌else◌,
}
use ea_x.Prelude.Search.{find}
use ea_x.Filesystem.{Filesystem, Block, cache_size, block_size}

unfoldable pub fs_allocate_block : Filesystem → ℕ × Filesystem
fs_allocate_block s = if s.superblock.free_blocks == 0 then (0, s) else (
  s.next_block_number,
  record s {
    next_block_number = u32 (s.next_block_number + 1);
    superblock = record s.superblock { free_blocks = sub32 s.superblock.free_blocks 1 };
  },
)

unfoldable pub fs_free_block : Filesystem → ℕ → Filesystem
fs_free_block s block_number = record s {
  superblock = record s.superblock { free_blocks = u32 (s.superblock.free_blocks + 1) };
}

-- The slot of the cache that holds a block: the loop over `block_cache`.
abbrev pub cache_slot : Array Block → ℕ → Option ℕ
cache_slot cache block_number = find (λ i. (cache i).block_number == block_number) cache_size

-- The value returned, the bytes written to the buffer, if any, and the new counts.
unfoldable pub fs_get_block_data : Filesystem → ℕ → ℕ × Option (Array ℕ) × Filesystem
fs_get_block_data s block_number = elim (cache_slot s.block_cache block_number) [
  | none ↦ (0, none, record s { cache_misses = u32 (s.cache_misses + 1) })
  | some i ↦
      (block_size, some (s.block_cache i).bytes, record s { cache_hits = u32 (s.cache_hits + 1) })
]

-- The inner loop of `fs_set_block_data`: byte `i` goes to the first slot that holds block 0.
unfoldable pub store_byte : ℕ → ℕ → ℕ → Array Block → Array Block
store_byte block_number i byte cache = elim (cache_slot cache 0) [
  | none ↦ cache
  | some j ↦ update cache j (record (cache j) {
    block_number = block_number;
    dirty = 1;
    bytes = update (cache j).bytes i byte;
  })
]

-- The outer loop, `rounds` bytes from byte `i` on.
unfoldable pub store_bytes : ℕ → Array ℕ → ℕ → ℕ → Array Block → Array Block
store_bytes block_number buffer zero i cache = cache
store_bytes block_number buffer (suc rounds) i cache =
    store_bytes block_number buffer rounds (suc i) (store_byte block_number i (buffer i) cache)

unfoldable pub fs_set_block_data : Filesystem → ℕ → Array ℕ → Filesystem
fs_set_block_data s block_number buffer = record s {
  block_cache = store_bytes block_number buffer block_size 0 s.block_cache;
}
