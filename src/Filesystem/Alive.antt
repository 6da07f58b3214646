-- ===== src/Filesystem/Alive.antt =====
-- filesystem.c: the files that a client has created and not yet deleted.
use ea_x.Prelude.{
  ℕ, suc, ◌+◌, ◌^◌, ◌≤◌, ◌<◌, ◌≡◌, ◌≢◌, refl, inl, inr, true, false, Option, none, some, List, [],
  ◌∷◌, length, u32, ◌==◌, if◌then◌else◌, arith, Bool-cases,
}
use ea_x.Prelude.Members.{has, without, IsDistinct, without-IsDistinct, length-without}
use ea_x.Filesystem.{Filesystem, Inode, max_inodes}
use ea_x.Filesystem.Inodes.{fs_create_file, fs_delete_file, created}

pub data Op : Type 0 where
  create : (file_type permissions : ℕ) → Op
  delete : (number : ℕ) → Op

-- The state and the numbers of the files alive after the calls. A number that is not among them is not
-- deleted.
unfoldable pub run : Inode → Filesystem → List ℕ → List Op → Option (Filesystem × List ℕ)
run junk s alive [] = some (s, alive)
run junk s alive (create file_type permissions ∷ ops) =
    elim (fs_create_file junk s file_type permissions) [
      | none ↦ none
      | some (number, s') ↦ run junk s' (if number == 0 then alive else number ∷ alive) ops
    ]
run junk s alive (delete number ∷ ops) = elim (has number alive) [
  | true ↦ run junk (fs_delete_file s number).1 (without number alive) ops
  | false ↦ run junk s alive ops
]

-- Each has one link, and a number that has been given.
abbrev pub AllAlive : Filesystem → List ℕ → Type 0
AllAlive s [] = Unit {0}
AllAlive s (i ∷ is) =
    ((s.inode_table i).hard_links ≡ 1) × (0 < i) × (i < s.next_inode_number) × AllAlive s is

-- The files alive are different ones, and every other inode of the `total` is free.
pub record HasAlive (total : ℕ) (s : Filesystem) (alive : List ℕ) : Type 0 where
  pub files : AllAlive s alive
  pub apart : IsDistinct alive
  pub free : s.superblock.free_inodes + length alive ≡ total
  pub start : 0 < s.next_inode_number

unfoldable pub creations : List Op → ℕ
creations [] = 0
creations (create file_type permissions ∷ ops) = suc (creations ops)
creations (delete number ∷ ops) = creations ops

has-AllAlive :
    (s : Filesystem) (alive : List ℕ) (i : ℕ)
    → AllAlive s alive
    → has i alive ≡ true
    → ((s.inode_table i).hard_links ≡ 1) × (i < s.next_inode_number)
unfolding has
has-AllAlive s [] i v h = ground (arith, h)
has-AllAlive s (j ∷ is) i (links, pos, below, v) h = elim (Bool-cases (i == j)) [
  | inl same ↦ let e : i ≡ j = ground arith in rw e (links, below)
  | inr other ↦ has-AllAlive s is i v (rw other at h)
]

has_fresh :
    (s : Filesystem) (alive : List ℕ) (i : ℕ)
    → AllAlive s alive
    → s.next_inode_number ≤ i
    → has i alive ≡ false
unfolding has
has_fresh s [] i v h = refl
has_fresh s (j ∷ is) i (links, pos, below, v) h = ground (arith, has_fresh s is i v h)

created-AllAlive :
    (junk : Inode) (s : Filesystem) (alive : List ℕ) (file_type permissions : ℕ)
    → s.next_inode_number < max_inodes
    → AllAlive s alive
    → AllAlive (created junk s file_type permissions) alive
created-AllAlive junk s [] file_type permissions room v = tt
created-AllAlive junk s (i ∷ is) file_type permissions room (links, pos, below, v) =
    (ground arith, pos, omega arith, created-AllAlive junk s is file_type permissions room v)

-- What the deletion of a file with one link does.
module _ (s : Filesystem) (number : ℕ) (inside : number < max_inodes)
    (links : (s.inode_table number).hard_links ≡ 1) where
  abbrev deleted : Filesystem
  deleted = (fs_delete_file s number).1

  delete-next : deleted.next_inode_number ≡ s.next_inode_number
  unfolding fs_delete_file
  delete-next = ground arith

  delete-free : deleted.superblock.free_inodes ≡ u32 (s.superblock.free_inodes + 1)
  unfolding fs_delete_file
  delete-free = ground arith

  delete-other : (i : ℕ) → number ≢ i → deleted.inode_table i ≡ s.inode_table i
  unfolding fs_delete_file
  delete-other i other = ground arith

  delete-AllAlive : (alive : List ℕ) → AllAlive s alive → AllAlive deleted (without number alive)
  unfolding without
  delete-AllAlive [] v = tt
  delete-AllAlive (i ∷ is) (one, pos, below, v) =
      let rest = delete-AllAlive is v in
      elim (Bool-cases (number == i)) [
        | inl same ↦ rw same rest
        | inr other ↦
            let kept = delete-other i (ground arith) in
            rw other (rw kept one, pos, rw delete-next below, rest)
      ]

-- The table has 4096 inodes. With as many numbers left as files are created, and less than 2^32 inodes in
-- all, every sequence of `fs_create_file`, and of `fs_delete_file` on files that are alive, runs to its end.
-- The files alive have different numbers, above 0, and one link each, and `free_inodes` is what they leave of
-- the inodes, where a creation with none free makes no file.
pub run-HasAlive :
    (junk : Inode) (total : ℕ) (ops : List Op) (s : Filesystem) (alive : List ℕ)
    → total < 2 ^ 32
    → s.next_inode_number + creations ops ≤ max_inodes
    → HasAlive total s alive
    → (s' : Filesystem) × (alive' : List ℕ) × (run junk s alive ops ≡ some (s', alive'))
      × HasAlive total s' alive'
unfolding run creations
run-HasAlive junk total [] s alive small room v = (s, alive, refl, v)
run-HasAlive junk total (create file_type permissions ∷ ops) s alive small room v =
    elim (Bool-cases (s.superblock.free_inodes == 0)) [
      | inl none_free ↦
          let made : fs_create_file junk s file_type permissions ≡ some (0, s) =
            unfold fs_create_file in rw none_free refl in
          let (s', alive', ran, v') = run-HasAlive junk total ops s alive small (omega arith) v in
          (s', alive', rw (made, run) ran, v')
      | inr some_free ↦
          let s1 = created junk s file_type permissions in
          let number = s.next_inode_number in
          let made : fs_create_file junk s file_type permissions ≡ some (number, s1) =
            unfold fs_create_file in ground arith in
          let some_number : (number == 0) ≡ false = ground (arith, v.start) in
          let v1 : HasAlive total s1 (number ∷ alive) = record {
            files = (
              ground arith,
              v.start,
              omega arith,
              created-AllAlive junk s alive file_type permissions (omega arith) v.files,
            );
            apart = (has_fresh s alive number v.files (omega arith), v.apart);
            free = ground (arith, v.free);
            start = omega arith;
          } in
          let (s', alive', ran, v') =
            run-HasAlive junk total ops s1 (number ∷ alive) small (omega arith) v1 in
          (s', alive', rw (made, some_number, run) ran, v')
    ]
run-HasAlive junk total (delete number ∷ ops) s alive small room v =
    elim (Bool-cases (has number alive)) [
      | inl there ↦
          let (links, below) = has-AllAlive s alive number v.files there in
          let inside : number < max_inodes = omega arith in
          let s1 = (fs_delete_file s number).1 in
          let next = delete-next s number inside links in
          let v1 : HasAlive total s1 (without number alive) = record {
            files = delete-AllAlive s number inside links alive v.files;
            apart = without-IsDistinct number alive v.apart;
            free = omega (
              arith,
              delete-free s number inside links,
              length-without number alive v.apart there,
              v.free,
            );
            start = omega (arith, next, v.start);
          } in
          let (s', alive', ran, v') =
            run-HasAlive junk total ops s1 (without number alive) small (omega (arith, next)) v1 in
          (s', alive', rw (there, run) ran, v')
      | inr missing ↦
          let (s', alive', ran, v') = run-HasAlive junk total ops s alive small room v in
          (s', alive', rw (missing, run) ran, v')
    ]
