-- ===== src/Filesystem/Inodes.antt =====
-- filesystem.c: files as inodes.
use ea_x.Prelude.{
  ℕ, zero, suc, ◌+◌, Option, none, some, Array, update, u32, sub32, ltb, leb, ◌==◌, if◌then◌else◌,
}
use ea_x.Filesystem.{Filesystem, Inode, max_inodes}

-- What `fs_create_file` puts in the table; the fields that it does not assign are the stack's.
abbrev pub new_inode : Inode → ℕ → ℕ → ℕ → Inode
new_inode junk number file_type permissions = record junk {
  inode_number = number;
  file_type = file_type;
  permissions = permissions;
  size = 0;
  owner_uid = 0;
  owner_gid = 0;
  created_time = 0;
  hard_links = 1;
}

-- The state after a creation that is carried out.
abbrev pub created : Inode → Filesystem → ℕ → ℕ → Filesystem
created junk s file_type permissions = record s {
  next_inode_number = u32 (s.next_inode_number + 1);
  inode_table =
      update s.inode_table s.next_inode_number
        (new_inode junk s.next_inode_number file_type permissions);
  superblock = record s.superblock { free_inodes = sub32 s.superblock.free_inodes 1 };
}

-- The file's name is not kept. The number that comes next is not tested against the table.
unfoldable pub fs_create_file : Inode → Filesystem → ℕ → ℕ → Option (ℕ × Filesystem)
fs_create_file junk s file_type permissions =
    if s.superblock.free_inodes == 0
    then some (0, s)
    else if leb max_inodes s.next_inode_number
    then none
    else some (s.next_inode_number, created junk s file_type permissions)

-- The blocks that the loop over `block_ptrs` counts, `rounds` entries from entry `i` on.
unfoldable pub used_blocks : Array ℕ → ℕ → ℕ → ℕ
used_blocks block_ptrs zero i = 0
used_blocks block_ptrs (suc rounds) i =
    (if block_ptrs i == 0 then 0 else 1) + used_blocks block_ptrs rounds (suc i)

abbrev pub unlink : Inode → Inode
unlink inode =
    if ltb 0 inode.hard_links then record inode { hard_links = sub32 inode.hard_links 1 } else inode

-- The inode's blocks are counted one by one on a uint32_t.
unfoldable pub fs_delete_file : Filesystem → ℕ → ℕ × Filesystem
unfolding used_blocks
fs_delete_file s number =
    if leb max_inodes number
    then (0, s)
    else (let inode = unlink (s.inode_table number) in
        let unlinked = record s { inode_table = update s.inode_table number inode } in
        (
          1,
          if inode.hard_links == 0
              then record unlinked {
                superblock = record s.superblock {
                  free_blocks = u32 (s.superblock.free_blocks + used_blocks inode.block_ptrs 12 0);
                  free_inodes = u32 (s.superblock.free_inodes + 1);
                };
              }
              else unlinked,
        ))

unfoldable pub fs_get_file_size : Filesystem → ℕ → ℕ
fs_get_file_size s number = if leb max_inodes number then 0 else (s.inode_table number).size

-- The copy that is written to the buffer; `none` is the return value 0.
unfoldable pub fs_get_inode_info : Filesystem → ℕ → Option Inode
fs_get_inode_info s number = if leb max_inodes number then none else some (s.inode_table number)

unfoldable pub fs_change_permissions : Filesystem → ℕ → ℕ → ℕ × Filesystem
fs_change_permissions s number permissions = if leb max_inodes number then (0, s) else (
  1,
  record s {
    inode_table =
        update s.inode_table number (record (s.inode_table number) { permissions = permissions });
  },
)
