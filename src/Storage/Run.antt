-- ===== src/Storage/Run.antt =====
-- storage.c: which drives answer after any calls.
use ea_x.Prelude.{
  ℕ, ◌<◌, ◌≡◌, refl, ◌&&◌, not, none, some, List, [], ◌∷◌, ltb, ◌==◌, if◌then◌else◌, arith,
}
use ea_x.Storage.{
  StorageController, DiskDrive, storage_read_sector, storage_write_sector, storage_get_drive_info,
  storage_enable_drive, storage_disable_drive,
}

pub data Op : Type 0 where
  enable disable : ℕ → Op

unfoldable pub run : StorageController → List Op → StorageController
run s [] = s
run s (enable drive ∷ ops) = run (storage_enable_drive s drive) ops
run s (disable drive ∷ ops) = run (storage_disable_drive s drive) ops

-- The status of drive `d` after the calls, from the one before them: 1 where the last call that names the
-- drive enables it, and 0 where it disables it.
unfoldable pub status_after : ℕ → List Op → ℕ → ℕ
status_after before [] d = before
status_after before (enable drive ∷ ops) d = status_after (if drive == d then 1 else before) ops d
status_after before (disable drive ∷ ops) d = status_after (if drive == d then 0 else before) ops d

abbrev pub with_status : DiskDrive → ℕ → DiskDrive
with_status drive status = record {
  disk_id = drive.disk_id;
  sector_size = drive.sector_size;
  total_sectors = drive.total_sectors;
  status = status;
  interface_type = drive.interface_type;
}

run-count : (ops : List Op) (s : StorageController) → (run s ops).drive_count ≡ s.drive_count
unfolding run storage_enable_drive storage_disable_drive
run-count [] s = refl
run-count (enable drive ∷ ops) s = ground (arith, run-count ops (storage_enable_drive s drive))
run-count (disable drive ∷ ops) s = ground (arith, run-count ops (storage_disable_drive s drive))

run-drive :
    (ops : List Op) (s : StorageController) (d : ℕ)
    → d < s.drive_count
    → (run s ops).drives d ≡ with_status (s.drives d) (status_after (s.drives d).status ops d)
unfolding run status_after storage_enable_drive storage_disable_drive
run-drive [] s d inside = refl
run-drive (enable drive ∷ ops) s d inside =
    ground (arith, run-drive ops (storage_enable_drive s drive) d)
run-drive (disable drive ∷ ops) s d inside =
    ground (arith, run-drive ops (storage_disable_drive s drive) d)

-- After any calls that enable and disable drives, the information that is stored about a drive that there
-- is, and whose size is returned, is the drive as it was but for its status: 1 or 0 where the last call that
-- names the drive enabled or disabled it, as before where none does. A read and a write, which move no
-- bytes, return 4096 if that status is not 0, and else 0, whatever the sector and the sector size. For a
-- number that is no drive nothing is stored, and all three return 0.
pub run-reports :
    (ops : List Op) (s : StorageController) (d sector buffer drive_bytes : ℕ)
    → let status = status_after (s.drives d).status ops d in
      let returned : ℕ = if ltb d s.drive_count && not (status == 0) then 4096 else 0 in
      (storage_get_drive_info drive_bytes (run s ops) d ≡ (
        if ltb d s.drive_count
        then (drive_bytes, some (with_status (s.drives d) status))
        else (0, none)))
      × (storage_read_sector (run s ops) d sector buffer ≡ returned)
      × (storage_write_sector (run s ops) d sector buffer ≡ returned)
unfolding storage_read_sector storage_write_sector storage_get_drive_info
run-reports ops s d sector buffer drive_bytes = ground (arith, run-drive ops s d, run-count ops s)
