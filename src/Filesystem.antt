-- ===== src/Filesystem.antt =====
-- filesystem.c: inodes, descriptors, the counts of the superblock and the block cache.
--
-- An inode or a descriptor is known by its index. Where the source does not test an index against the
-- array, an access beyond it is undefined, and the operation has no result, `none`. The buffers that
-- `fs_read_file` and `fs_write_file` take are not touched by them.
pub mod Inodes
pub mod Files
pub mod Blocks
pub mod Positions
pub mod Transfer
pub mod Reuse
pub mod Alive
pub mod Cache
mod Tests
use ea_x.Prelude.{ℕ, ◌+◌, ◌-◌, ◌*◌, List, [], ◌∷◌, Array, update}

abbrev pub max_open_files : ℕ
max_open_files = 1024

abbrev pub max_inodes : ℕ
max_inodes = 4096

abbrev pub max_blocks : ℕ
max_blocks = 65536

abbrev pub block_size : ℕ
block_size = 4096

abbrev pub inode_size : ℕ
inode_size = 256

abbrev pub file_type_directory : ℕ
file_type_directory = 0x02

-- The length of the block cache.
abbrev pub cache_size : ℕ
cache_size = 256

pub record Inode : Type 0 where
  pub inode_number : ℕ
  pub file_type : ℕ
  pub permissions : ℕ
  pub size : ℕ
  pub owner_uid : ℕ
  pub owner_gid : ℕ
  pub created_time : ℕ
  pub modified_time : ℕ
  pub accessed_time : ℕ
  pub hard_links : ℕ
  pub block_ptrs : Array ℕ
  pub indirect_block_ptr : ℕ
  pub double_indirect_ptr : ℕ
  pub triple_indirect_ptr : ℕ

pub record Block : Type 0 where
  pub block_number : ℕ
  pub bytes : Array ℕ
  pub dirty : ℕ
  pub ref_count : ℕ

pub record FileDescriptor : Type 0 where
  pub fd : ℕ
  pub inode_number : ℕ
  pub file_position : ℕ
  pub file_type : ℕ
  pub access_mode : ℕ
  pub is_open : ℕ

pub record Superblock : Type 0 where
  pub superblock : Array ℕ
  pub total_blocks : ℕ
  pub total_inodes : ℕ
  pub free_blocks : ℕ
  pub free_inodes : ℕ
  pub block_size : ℕ
  pub inode_size : ℕ
  pub creation_time : ℕ
  pub mount_time : ℕ
  pub last_write_time : ℕ
  pub mount_count : ℕ

pub record Filesystem : Type 0 where
  pub superblock : Superblock
  pub inode_table : Array Inode
  pub block_cache : Array Block
  pub file_descriptors : Array FileDescriptor
  pub next_inode_number : ℕ
  pub next_block_number : ℕ
  pub next_fd : ℕ
  pub cache_hits : ℕ
  pub cache_misses : ℕ

-- A local `inode_t` starts with what is on the stack, `junk`.
abbrev pub root_inode : Inode → Inode
root_inode junk = record junk {
  inode_number = 0;
  file_type = file_type_directory;
  permissions = 0o755;
  size = 0;
  owner_uid = 0;
  owner_gid = 0;
}

unfoldable pub filesystem_init : Inode → Filesystem → Filesystem
filesystem_init junk s = record s {
  superblock = record s.superblock {
    total_blocks = max_blocks;
    total_inodes = max_inodes;
    free_blocks = max_blocks - 100;
    free_inodes = max_inodes - 10;
    block_size = block_size;
    inode_size = inode_size;
    creation_time = 0;
    mount_time = 0;
    mount_count = 1;
  };
  next_inode_number = 1;
  next_block_number = 100;
  next_fd = 3;
  cache_hits = 0;
  cache_misses = 0;
  inode_table = update s.inode_table 0 (root_inode junk);
}

unfoldable pub fs_format_filesystem : Filesystem → ℕ × Filesystem
fs_format_filesystem s = (
  1,
  record s {
    superblock = record s.superblock {
      mount_count = 0;
      free_blocks = max_blocks - 100;
      free_inodes = max_inodes - 10;
    };
    next_inode_number = 1;
    next_block_number = 100;
    next_fd = 3;
  },
)

-- The words that `fs_get_filesystem_stats` writes; it returns their size, 16.
unfoldable pub fs_get_filesystem_stats : Filesystem → ℕ × List ℕ
fs_get_filesystem_stats s = (
  16,
  s.superblock.total_blocks ∷ s.superblock.total_inodes ∷ s.superblock.free_blocks
      ∷ s.superblock.free_inodes ∷ [],
)
