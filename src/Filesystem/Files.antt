-- ===== src/Filesystem/Files.antt =====
-- filesystem.c: open files.
use ea_x.Prelude.{ℕ, ◌+◌, ◌*◌, ◌/◌, update, u32, sub32, ltb, leb, ◌==◌, if◌then◌else◌}
use ea_x.Filesystem.{
  Filesystem, Inode, FileDescriptor, max_open_files, max_inodes, max_blocks, block_size,
}

unfoldable pub fs_open_file : Filesystem → ℕ → ℕ → ℕ × Filesystem
fs_open_file s inode_number access_mode =
    if leb max_open_files s.next_fd
    then (0, s)
    else if leb max_inodes inode_number
    then (0, s)
    else (
      s.next_fd,
      record s {
        file_descriptors = update s.file_descriptors s.next_fd (record {
          fd = s.next_fd;
          inode_number = inode_number;
          file_position = 0;
          file_type = (s.inode_table inode_number).file_type;
          access_mode = access_mode;
          is_open = 1;
        });
        next_fd = u32 (s.next_fd + 1);
      },
    )

-- Write one descriptor.
abbrev pub put_fd : Filesystem → ℕ → FileDescriptor → Filesystem
put_fd s fd file = record s { file_descriptors = update s.file_descriptors fd file }

unfoldable pub fs_close_file : Filesystem → ℕ → ℕ × Filesystem
fs_close_file s fd =
    if leb max_open_files fd
    then (0, s)
    else (1, put_fd s fd (record (s.file_descriptors fd) { is_open = 0 }))

-- The inode of a descriptor.
abbrev pub inode_of : Filesystem → ℕ → Inode
inode_of s fd = s.inode_table (s.file_descriptors fd).inode_number

abbrev pub bytes_to_read : ℕ → ℕ → ℕ → ℕ
bytes_to_read position size file_size =
    if ltb file_size (u32 (position + size)) then sub32 file_size position else size

unfoldable pub fs_read_file : Filesystem → ℕ → ℕ → ℕ × Filesystem
fs_read_file s fd size =
    if leb max_open_files fd
    then (0, s)
    else if (s.file_descriptors fd).is_open == 0
    then (0, s)
    else (let file = s.file_descriptors fd in
        let n = bytes_to_read file.file_position size (inode_of s fd).size in
        (n, put_fd s fd (record file { file_position = u32 (file.file_position + n) })))

abbrev pub blocks_needed : ℕ → ℕ
blocks_needed size = sub32 (u32 (size + block_size)) 1 / block_size

-- The state after a write that is carried out.
abbrev pub wrote : Filesystem → ℕ → ℕ → Filesystem
wrote s fd size =
    let file = s.file_descriptors fd in
    let inode = s.inode_table file.inode_number in
    record (put_fd s fd (record file { file_position = u32 (file.file_position + size) })) {
      inode_table =
          update s.inode_table file.inode_number (record inode { size = u32 (inode.size + size) });
      superblock = record s.superblock {
        free_blocks = sub32 s.superblock.free_blocks (blocks_needed size);
      };
    }

unfoldable pub fs_write_file : Filesystem → ℕ → ℕ → ℕ × Filesystem
fs_write_file s fd size =
    if leb max_open_files fd
    then (0, s)
    else if (s.file_descriptors fd).is_open == 0
    then (0, s)
    else if ltb (max_blocks * block_size) (u32 ((inode_of s fd).size + size))
    then (0, s)
    else if ltb s.superblock.free_blocks (blocks_needed size)
    then (0, s)
    else (size, wrote s fd size)

unfoldable pub fs_seek_file : Filesystem → ℕ → ℕ → ℕ × Filesystem
fs_seek_file s fd position =
    if leb max_open_files fd
    then (0, s)
    else if (s.file_descriptors fd).is_open == 0
    then (0, s)
    else if ltb (inode_of s fd).size position
    then (0, s)
    else (position, put_fd s fd (record (s.file_descriptors fd) { file_position = position }))
