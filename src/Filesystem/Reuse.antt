-- ===== src/Filesystem/Reuse.antt =====
-- Numbers are handed out once, and counts come back: inodes, descriptors and blocks.
use ea_x.Prelude.{
  ℕ, zero, suc, ◌+◌, ◌^◌, ◌<◌, ◌≡◌, refl, ◌∙◌, ◌≢◌, Option, none, some, u32, ◌==◌, if◌then◌else◌,
  arith, List, [], ◌∷◌,
}
use ea_x.Filesystem.{Filesystem, Inode, max_open_files, max_inodes}
use ea_x.Filesystem.Inodes.{fs_create_file, fs_delete_file, fs_get_inode_info, new_inode, created}
use ea_x.Filesystem.Files.{fs_open_file, fs_close_file, fs_read_file, fs_write_file, fs_seek_file}
use ea_x.Filesystem.Blocks.{fs_allocate_block, fs_free_block}
use ea_x.Filesystem.Positions.{Call, open_file, step, run}

-- With an inode free and a number left, `fs_create_file` returns the number, and then that inode is
-- empty with one link and the given type and permissions, and every other inode is as before.
fs_create_file-info :
    (junk : Inode) (s : Filesystem) (file_type permissions : ℕ)
    → s.superblock.free_inodes ≢ 0
    → s.next_inode_number < max_inodes
    → (s' : Filesystem) × (fs_create_file junk s file_type permissions
        ≡ some (s.next_inode_number, s'))
      × ((i : ℕ)
          → fs_get_inode_info s' i ≡ (
              if i == s.next_inode_number
              then some (new_inode junk s.next_inode_number file_type permissions)
              else fs_get_inode_info s i))
unfolding fs_create_file fs_get_inode_info
fs_create_file-info junk s file_type permissions free room =
    (created junk s file_type permissions, ground arith, λ i. ground arith)

-- Deleting a file whose last link is gone already counts its inode free once more, and leaves the
-- table as it was.
fs_delete_file-twice :
    (s : Filesystem) (i : ℕ)
    → i < max_inodes
    → (s.inode_table i).hard_links ≡ 0
    → let (r, s') = fs_delete_file s i in
      (r ≡ 1)
      × (s'.superblock.free_inodes ≡ u32 (s.superblock.free_inodes + 1))
      × ((j : ℕ) → s'.inode_table j ≡ s.inode_table j)
unfolding fs_delete_file
fs_delete_file-twice s i h none_left = (ground arith, ground arith, λ j. ground arith)

-- `n` times: create a file and delete it again.
pub churn : Inode → ℕ → Filesystem → Option Filesystem
churn junk zero s = some s
churn junk (suc n) s = elim (fs_create_file junk s 1 0) [
  | none ↦ none
  | some (number, s') ↦ churn junk n (fs_delete_file s' number).1
]

-- A round uses up a number, and gives the count of free inodes back.
round :
    (junk : Inode) (s : Filesystem)
    → s.superblock.free_inodes ≢ 0
    → s.superblock.free_inodes < 2 ^ 32
    → s.next_inode_number < max_inodes
    → let s' = (fs_delete_file (created junk s 1 0) s.next_inode_number).1 in
      (fs_create_file junk s 1 0 ≡ some (s.next_inode_number, created junk s 1 0))
      × (s'.next_inode_number ≡ suc s.next_inode_number)
      × (s'.superblock.free_inodes ≡ s.superblock.free_inodes)
unfolding fs_create_file fs_delete_file
round junk s free small room = ground arith

-- The table has 4096 inodes and no number is used twice, while a deletion makes an inode free for
-- `fs_create_file`. So with an inode free, and n numbers left, after n rounds of creating and
-- deleting one file as many inodes are free as before, but every creation passes its test and
-- writes beyond the table.
churn-beyond :
    (junk : Inode) (n : ℕ) (s : Filesystem)
    → s.superblock.free_inodes ≢ 0
    → s.superblock.free_inodes < 2 ^ 32
    → s.next_inode_number + n ≡ max_inodes
    → (s' : Filesystem) × (churn junk n s ≡ some s')
      × (s'.superblock.free_inodes ≡ s.superblock.free_inodes)
      × ((file_type permissions : ℕ) → fs_create_file junk s' file_type permissions ≡ none)
unfolding churn
churn-beyond junk zero s free small e =
    (s, refl, refl, λ file_type permissions. unfold fs_create_file in ground arith)
churn-beyond junk (suc n) s free small e =
    let (made, next, same) = round junk s free small (omega arith) in
    let s' = (fs_delete_file (created junk s 1 0) s.next_inode_number).1 in
    let (last, ran, kept, fails) =
      churn-beyond junk n s' (rw same free) (rw same small) (omega arith) in
    (last, rw (made, churn) ran, kept ∙ same, fails)

-- `fs_open_file` with a descriptor left returns one that no earlier call returned, open at position 0
-- of the inode, and leaves the others as they were.
fs_open_file_lem :
    (s : Filesystem) (inode_number access_mode : ℕ)
    → s.next_fd < max_open_files
    → inode_number < max_inodes
    → let (fd, s') = fs_open_file s inode_number access_mode in
      (fd ≡ s.next_fd)
      × (s'.next_fd ≡ suc fd)
      × ((s'.file_descriptors fd).is_open ≡ 1)
      × ((s'.file_descriptors fd).inode_number ≡ inode_number)
      × ((s'.file_descriptors fd).file_position ≡ 0)
      × ((j : ℕ)
          → s'.file_descriptors j
            ≡ (if j == fd then s'.file_descriptors fd else s.file_descriptors j))
unfolding fs_open_file
fs_open_file_lem s inode_number access_mode room h =
    (ground arith, ground arith, ground arith, ground arith, ground arith, λ j. ground arith)

step-used_up :
    (s : Filesystem) (c : Call) → s.next_fd ≡ max_open_files → (step s c).next_fd ≡ max_open_files
unfolding step fs_open_file fs_close_file fs_read_file fs_write_file fs_seek_file
step-used_up s (open_file i a) e = ground arith
step-used_up s _ e = ground arith

run-used_up :
    (cs : List Call) (s : Filesystem)
    → s.next_fd ≡ max_open_files
    → (run s cs).next_fd ≡ max_open_files
unfolding run
run-used_up [] s e = e
run-used_up (c ∷ cs) s e = run-used_up cs (step s c) (step-used_up s c e)

-- Descriptors are not used again: once the last has been handed out, `fs_open_file` fails, whatever
-- files have been closed since.
fs_open_file-used_up :
    (cs : List Call) (s : Filesystem) (inode_number access_mode : ℕ)
    → s.next_fd ≡ max_open_files
    → fs_open_file (run s cs) inode_number access_mode ≡ (0, run s cs)
unfolding fs_open_file
fs_open_file-used_up cs s inode_number access_mode e = rw (run-used_up cs s e)

-- Blocks are counted, and numbered on: a block that is freed can be allocated again by the count, and
-- comes with the next number, so that the numbers pass the count of blocks there are.
fs_allocate_block-free :
    (s : Filesystem)
    → 0 < s.superblock.free_blocks
    → s.superblock.free_blocks < 2 ^ 32
    → s.next_block_number + 1 < 2 ^ 32
    → let (b, s') = fs_allocate_block s in
      (b ≡ s.next_block_number)
      × (fs_free_block s' b ≡ record s { next_block_number = s.next_block_number + 1 })
unfolding fs_allocate_block fs_free_block
fs_allocate_block-free s free small room = ground arith
