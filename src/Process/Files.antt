-- ===== src/Process/Files.antt =====
-- The open files of a process.
use mathlib.Core.Option
use ea_x.Prelude.{
  ℕ, zero, suc, ◌+◌, ◌≡◌, refl, some, ◌==◌, if◌then◌else◌, Array, ◌&&◌, arith, ltb, leb, ap, update,
}
use ea_x.Process.{Process, ProcessManager, max_open_files}
use ea_x.Process.Lifecycle.{process_get_info}
use ea_x.Process.Attributes.{
  process_add_open_file, process_remove_open_file, add_file, without_file, clear_files,
}
use ea_x.Process.Run.{add_open_file, remove_open_file, step}
use ea_x.Process.Lookup.{step-change, change}

pub clear_files-range :
    (fd rounds j : ℕ) (files : Array ℕ) (k : ℕ)
    → clear_files fd rounds j files k
      ≡ (if leb j k && ltb k (j + rounds) && (files k == fd) then 0 else files k)
unfolding clear_files
clear_files-range fd zero j files k = ground arith
clear_files-range fd (suc rounds) j files k = ground (
  arith,
  clear_files-range fd rounds (suc j) (if files j == fd then update files j 0 else files) k,
)

info-remove_open_file :
    (m : ProcessManager) (pid fd : ℕ) (q : ℕ)
    → process_get_info (process_remove_open_file m pid fd) q ≡ (
        if q == pid
        then Option.map (without_file fd) (process_get_info m q)
        else process_get_info m q)
unfolding step change
info-remove_open_file m pid fd q =
    step-change m (remove_open_file pid fd) pid (without_file fd) refl q

info-add_open_file :
    (m : ProcessManager) (pid fd : ℕ) (q : ℕ)
    → process_get_info (process_add_open_file m pid fd) q
      ≡ (if q == pid then Option.map (add_file fd) (process_get_info m q) else process_get_info m q)
unfolding step change
info-add_open_file m pid fd q = step-change m (add_open_file pid fd) pid (add_file fd) refl q

-- `process_remove_open_file` writes 0 over every entry with the descriptor, and leaves the other
-- entries and the count of entries as they were.
process_remove_open_file_lem :
    (m : ProcessManager) (pid fd : ℕ) {p : Process}
    → process_get_info m pid ≡ some p
    → (p' : Process) × (process_get_info (process_remove_open_file m pid fd) pid ≡ some p')
      × (p'.open_file_count ≡ p.open_file_count)
      × ((k : ℕ)
          → p'.open_files k
            ≡ (if ltb k p.open_file_count && (p.open_files k == fd) then 0 else p.open_files k))
process_remove_open_file_lem m pid fd {p} e = (
  without_file fd p,
  ground (arith, e, info-remove_open_file m pid fd pid),
  refl,
  λ k. ground (arith, clear_files-range fd p.open_file_count 0 p.open_files k),
)

-- Removing a file makes no room: with 256 entries `process_add_open_file` changes nothing, though a
-- file was removed just before.
process_add_open_file-full :
    (m : ProcessManager) (pid fd fd' : ℕ) {p : Process}
    → process_get_info m pid ≡ some p
    → p.open_file_count ≡ max_open_files
    → let m' = process_remove_open_file m pid fd in
      (q : ℕ) → process_get_info (process_add_open_file m' pid fd') q ≡ process_get_info m' q
process_add_open_file-full m pid fd fd' e full q =
    let m' = process_remove_open_file m pid fd in
    ground (
      arith,
      e,
      info-remove_open_file m pid fd pid,
      info-remove_open_file m pid fd q,
      info-add_open_file m' pid fd' q,
      (λ (h : q ≡ pid). ap (process_get_info m) h),
    )
