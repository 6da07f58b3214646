-- ===== src/Filesystem/Tests.antt =====
-- filesystem.c at concrete inputs.
use ea_x.Prelude.{ℕ, ◌+◌, ◌*◌, ◌<◌, ◌≤◌, ◌≡◌, some, List, [], ◌∷◌, Array, arith}
use ea_x.Filesystem.Alive
use ea_x.Filesystem.Alive.{Op, create, delete, HasAlive, creations, run-HasAlive}
use ea_x.Filesystem.{
  Inode, Block, FileDescriptor, Filesystem, block_size, max_inodes, filesystem_init,
}
use ea_x.Filesystem.Files.{fs_read_file, fs_write_file, inode_of, blocks_needed}
use ea_x.Filesystem.Positions.{
  IsWithin, Call, close_file, read_file, write_file, seek_file, run, run-IsWithin,
}
use ea_x.Filesystem.Transfer.{IsOpen, fs_read_file_lem, fs_write_file_lem}

abbrev zeros : Array ℕ
zeros i = 0

abbrev no_inode : Inode
no_inode = record {
  inode_number = 0;
  file_type = 0;
  permissions = 0;
  size = 0;
  owner_uid = 0;
  owner_gid = 0;
  created_time = 0;
  modified_time = 0;
  accessed_time = 0;
  hard_links = 0;
  block_ptrs = zeros;
  indirect_block_ptr = 0;
  double_indirect_ptr = 0;
  triple_indirect_ptr = 0;
}

abbrev no_block : Block
no_block = record { block_number = 0; bytes = zeros; dirty = 0; ref_count = 0 }

abbrev no_fd : FileDescriptor
no_fd = record {
  fd = 0;
  inode_number = 0;
  file_position = 0;
  file_type = 0;
  access_mode = 0;
  is_open = 0;
}

-- The static variable before any call.
abbrev zeroed : Filesystem
zeroed = record {
  superblock = record {
    superblock = zeros;
    total_blocks = 0;
    total_inodes = 0;
    free_blocks = 0;
    free_inodes = 0;
    block_size = 0;
    inode_size = 0;
    creation_time = 0;
    mount_time = 0;
    last_write_time = 0;
    mount_count = 0;
  };
  inode_table = λ i. no_inode;
  block_cache = λ i. no_block;
  file_descriptors = λ i. no_fd;
  next_inode_number = 0;
  next_block_number = 0;
  next_fd = 0;
  cache_hits = 0;
  cache_misses = 0;
}

-- Every inode has 10000 bytes, and every descriptor is open on inode 0 at position 5000.
abbrev open_at : Filesystem
open_at = record zeroed {
  inode_table = λ i. record no_inode { size = 10000 };
  file_descriptors = λ i. record no_fd { is_open = 1; file_position = 5000 };
  superblock = record zeroed.superblock { free_blocks = 100 };
}

open_at-IsWithin : IsWithin open_at
open_at-IsWithin = record { sizes = λ i. omega arith; positions = λ fd. omega arith }

three-IsOpen : IsOpen open_at 3
three-IsOpen = record { within = omega arith; flag = λ e. omega arith }

abbrev calls : List Call
calls = read_file 3 100 ∷ write_file 3 200 ∷ seek_file 4 9000 ∷ close_file 3 ∷ []

run-IsWithin_example : IsWithin (run open_at calls)
run-IsWithin_example =
    run-IsWithin calls open_at (omega arith, (omega arith, (tt, (tt, tt)))) open_at-IsWithin

fs_read_file_lem_example :
    let (n, s') = fs_read_file open_at 3 6000 in
    (n ≡ 5000) × ((s'.file_descriptors 3).file_position ≡ 5000 + n)
fs_read_file_lem_example =
    fs_read_file_lem open_at 3 three-IsOpen 6000 open_at-IsWithin (omega arith)

fs_write_file_lem_example :
    let (n, s') = fs_write_file open_at 3 6000 in
    (n ≡ 6000)
    × ((inode_of s' 3).size ≡ 10000 + 6000)
    × ((s'.file_descriptors 3).file_position ≡ 5000 + 6000)
    × (s'.superblock.free_blocks + blocks_needed 6000 ≡ 100)
    × (6000 ≤ blocks_needed 6000 * block_size)
    × (blocks_needed 6000 * block_size < 6000 + block_size)
fs_write_file_lem_example =
    fs_write_file_lem open_at 3 three-IsOpen 6000 open_at-IsWithin (omega arith) (omega arith)
      (omega arith)

-- The state after `filesystem_init`: 4086 inodes are free.
abbrev formatted : Filesystem
formatted = filesystem_init no_inode zeroed

formatted-HasAlive : HasAlive 4086 formatted []
unfolding filesystem_init
formatted-HasAlive = record { files = tt; apart = tt; free = omega arith; start = omega arith }

-- Two files, of which the first is deleted, and a number that is not alive.
abbrev file_calls : List Op
file_calls = create 1 0o644 ∷ create 2 0o755 ∷ delete 1 ∷ delete 9 ∷ []

file_calls-fits : formatted.next_inode_number + creations file_calls ≤ max_inodes
unfolding filesystem_init creations
file_calls-fits = omega arith

run-HasAlive_example :
    (s' : Filesystem) × (alive' : List ℕ) × (Alive.run no_inode formatted [] file_calls
      ≡ some (s', alive'))
    × HasAlive 4086 s' alive'
run-HasAlive_example =
    run-HasAlive no_inode 4086 file_calls formatted [] (omega arith) file_calls-fits
      formatted-HasAlive
