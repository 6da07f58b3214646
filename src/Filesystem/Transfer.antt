-- ===== src/Filesystem/Transfer.antt =====
-- What `fs_read_file` and `fs_write_file` transfer.
use Prim.Native.Nat.{min}
use ea_x.Prelude.{ℕ, ◌+◌, ◌-◌, ◌*◌, ◌^◌, ◌≤◌, ◌<◌, ◌≡◌, ◌≢◌, arith}
use ea_x.Filesystem.{Filesystem, max_open_files, max_blocks, block_size}
use ea_x.Filesystem.Files.{fs_read_file, fs_write_file, inode_of, blocks_needed}
use ea_x.Filesystem.Positions.{IsWithin}

-- A descriptor that the operations accept.
pub record IsOpen (s : Filesystem) (fd : ℕ) : Type 0 where
  pub within : fd < max_open_files
  pub flag : (s.file_descriptors fd).is_open ≢ 0

module _ (s : Filesystem) (fd : ℕ) (h : IsOpen s fd) where
  -- On an open descriptor, where no file is above 2^28 bytes and no position beyond the end of its
  -- file, a read whose end does not wrap gives what is left of the file, at most the bytes asked
  -- for, and moves the position by as many.
  pub fs_read_file_lem :
      (size : ℕ)
      → IsWithin s
      → (s.file_descriptors fd).file_position + size < 2 ^ 32
      → let (n, s') = fs_read_file s fd size in
        (n ≡ min size ((inode_of s fd).size - (s.file_descriptors fd).file_position))
        × ((s'.file_descriptors fd).file_position ≡ (s.file_descriptors fd).file_position + n)
  unfolding fs_read_file
  fs_read_file_lem size v fits = (
    ground (arith, h.within, h.flag, v.sizes (s.file_descriptors fd).inode_number, v.positions fd),
    ground (arith, h.within, h.flag, v.sizes (s.file_descriptors fd).inode_number, v.positions fd),
  )

  -- On an open descriptor, where no file is above 2^28 bytes and no position beyond the end of its
  -- file, a read whose end wraps past 2^32 passes the test: it returns all the bytes asked for,
  -- more than the file has, and the position moves back.
  fs_read_file-wraps :
      (size : ℕ)
      → IsWithin s
      → size < 2 ^ 32
      → 2 ^ 32 ≤ (s.file_descriptors fd).file_position + size
      → let (n, s') = fs_read_file s fd size in
        (n ≡ size)
        × ((inode_of s fd).size < n)
        × ((s'.file_descriptors fd).file_position < (s.file_descriptors fd).file_position)
  unfolding fs_read_file
  fs_read_file-wraps size v small wraps =
      ground (arith, h.within, h.flag, v.sizes (s.file_descriptors fd).inode_number, v.positions fd)

  -- On an open descriptor, where no file is above 2^28 bytes and no position beyond the end of its
  -- file, a write that fits the largest file and the free blocks makes the file longer by its size,
  -- moves the position by as much, and takes the least number of blocks that hold it.
  pub fs_write_file_lem :
      (size : ℕ)
      → IsWithin s
      → (inode_of s fd).size + size ≤ max_blocks * block_size
      → blocks_needed size ≤ s.superblock.free_blocks
      → s.superblock.free_blocks < 2 ^ 32
      → let (n, s') = fs_write_file s fd size in
        (n ≡ size)
        × ((inode_of s' fd).size ≡ (inode_of s fd).size + size)
        × ((s'.file_descriptors fd).file_position ≡ (s.file_descriptors fd).file_position + size)
        × (s'.superblock.free_blocks + blocks_needed size ≡ s.superblock.free_blocks)
        × (size ≤ blocks_needed size * block_size)
        × (blocks_needed size * block_size < size + block_size)
  unfolding fs_write_file
  fs_write_file_lem size v fits room small =
      ground (arith, h.within, h.flag, v.sizes (s.file_descriptors fd).inode_number, v.positions fd)

  -- On an open descriptor, where no file is above 2^28 bytes and no position beyond the end of its
  -- file, a write of 2^32 - k bytes, for k above 0, below the size of a block and at most the
  -- file's, passes both tests: it returns that size, takes no block, and makes the file k bytes
  -- shorter.
  fs_write_file-wraps :
      (k : ℕ)
      → IsWithin s
      → 0 < k
      → k < block_size
      → k ≤ (inode_of s fd).size
      → s.superblock.free_blocks < 2 ^ 32
      → let (n, s') = fs_write_file s fd (2 ^ 32 - k) in
        (n ≡ 2 ^ 32 - k)
        × ((inode_of s' fd).size + k ≡ (inode_of s fd).size)
        × (s'.superblock.free_blocks ≡ s.superblock.free_blocks)
  unfolding fs_write_file
  fs_write_file-wraps k v pos small held few =
      ground (arith, h.within, h.flag, v.sizes (s.file_descriptors fd).inode_number)
