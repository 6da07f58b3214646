-- ===== src/Filesystem/Positions.antt =====
-- Positions stay within their files.
use ea_x.Prelude.{ℕ, ◌^◌, ◌≤◌, ◌<◌, List, [], ◌∷◌, arith}
use ea_x.Filesystem.{Filesystem}
use ea_x.Filesystem.Files.{
  fs_open_file, fs_close_file, fs_read_file, fs_write_file, fs_seek_file, inode_of,
}

-- No file is above 2^28 bytes, and no position beyond the end of its file.
pub record IsWithin (s : Filesystem) : Type 0 where
  pub sizes : (i : ℕ) → (s.inode_table i).size ≤ 2 ^ 28
  pub positions : (fd : ℕ) → (s.file_descriptors fd).file_position ≤ (inode_of s fd).size

-- The calls on open files, with their arguments.
pub data Call : Type 0 where
  open_file : (inode_number access_mode : ℕ) → Call
  close_file : (fd : ℕ) → Call
  read_file : (fd size : ℕ) → Call
  write_file : (fd size : ℕ) → Call
  seek_file : (fd position : ℕ) → Call

unfoldable pub step : Filesystem → Call → Filesystem
step s (open_file inode_number access_mode) = (fs_open_file s inode_number access_mode).1
step s (close_file fd) = (fs_close_file s fd).1
step s (read_file fd size) = (fs_read_file s fd size).1
step s (write_file fd size) = (fs_write_file s fd size).1
step s (seek_file fd position) = (fs_seek_file s fd position).1

unfoldable pub run : Filesystem → List Call → Filesystem
unfolding step
run s [] = s
run s (c ∷ cs) = run (step s c) cs

-- No transfer of 2 GB or more.
abbrev pub IsModest : Call → Type 0
IsModest (read_file fd size) = size < 2 ^ 31
IsModest (write_file fd size) = size < 2 ^ 31
IsModest _ = Unit {0}

abbrev pub AllModest : List Call → Type 0
AllModest [] = Unit {0}
AllModest (c ∷ cs) = IsModest c × AllModest cs

-- Both facts of a call follow from those of the descriptors and the inode that it concerns.
step-IsWithin : (s : Filesystem) (c : Call) → IsModest c → IsWithin s → IsWithin (step s c)
unfolding step fs_open_file fs_close_file fs_read_file fs_write_file fs_seek_file
step-IsWithin s (open_file inode_number access_mode) h v = record {
  sizes = λ i. ground (arith, v.sizes i);
  positions = λ fd'. ground (arith, v.positions fd');
}
step-IsWithin s (close_file fd) h v = record {
  sizes = λ i. ground (arith, v.sizes i);
  positions = λ fd'. ground (arith, v.positions fd');
}
step-IsWithin s (read_file fd size) h v = record {
  sizes = λ i. ground (arith, v.sizes i);
  positions = λ fd'.
      ground (arith, v.positions fd', v.positions fd, v.sizes (s.file_descriptors fd).inode_number);
}
step-IsWithin s (write_file fd size) h v = record {
  sizes = λ i. ground (arith, v.sizes i, v.sizes (s.file_descriptors fd).inode_number);
  positions = λ fd'.
      ground (arith, v.positions fd', v.positions fd, v.sizes (s.file_descriptors fd).inode_number);
}
step-IsWithin s (seek_file fd position) h v = record {
  sizes = λ i. ground (arith, v.sizes i);
  positions = λ fd'. ground (arith, v.positions fd');
}

-- From a state where no file is above 2^28 bytes and no position beyond the end of its file, after
-- any opens, closes, seeks, and reads and writes of less than 2 GB each, that still holds.
pub run-IsWithin :
    (cs : List Call) (s : Filesystem) → AllModest cs → IsWithin s → IsWithin (run s cs)
unfolding run
run-IsWithin [] s h v = v
run-IsWithin (c ∷ cs) s h v = run-IsWithin cs (step s c) h.1 (step-IsWithin s c h.0 v)
