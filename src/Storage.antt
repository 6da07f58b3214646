-- ===== src/Storage.antt =====
-- storage.c: the disk drives.
--
-- The functions that read and write a sector do not look at the sector or the buffer. The size of a
-- disk_drive_t, which depends on how the compiler aligns a uint64_t, is a parameter, `drive_bytes`.
pub mod Run
mod Tests
use ea_x.Prelude.{ℕ, Option, none, some, Array, update, leb, ltb, ◌==◌, if◌then◌else◌}

pub record DiskDrive : Type 0 where
  pub disk_id : ℕ
  pub sector_size : ℕ
  pub total_sectors : ℕ
  pub status : ℕ
  pub interface_type : ℕ

pub record StorageController : Type 0 where
  pub drive_count : ℕ
  pub drives : Array DiskDrive
  pub active_drive : ℕ

abbrev pub drive_0 : DiskDrive
drive_0 = record {
  disk_id = 0;
  sector_size = 4096;
  total_sectors = 49725000;
  status = 1;
  interface_type = 2;
}

abbrev pub drive_1 : DiskDrive
drive_1 = record {
  disk_id = 1;
  sector_size = 4096;
  total_sectors = 374000000;
  status = 1;
  interface_type = 3;
}

abbrev pub drive_2 : DiskDrive
drive_2 = record {
  disk_id = 2;
  sector_size = 512;
  total_sectors = 2880;
  status = 0;
  interface_type = 1;
}

unfoldable pub storage_init : StorageController → StorageController
storage_init s = record s {
  drive_count = 3;
  drives = update (update (update s.drives 0 drive_0) 1 drive_1) 2 drive_2;
  active_drive = 0;
}

-- `storage_read_sector` and `storage_write_sector` return a number and move no bytes.
unfoldable pub storage_read_sector : StorageController → (drive sector buffer : ℕ) → ℕ
storage_read_sector s drive sector buffer =
    if leb s.drive_count drive then 0 else if (s.drives drive).status == 0 then 0 else 4096

unfoldable pub storage_write_sector : StorageController → (drive sector buffer : ℕ) → ℕ
storage_write_sector s drive sector buffer =
    if leb s.drive_count drive then 0 else if (s.drives drive).status == 0 then 0 else 4096

-- What is returned, and what is stored at `info`, if anything is.
unfoldable pub storage_get_drive_info : ℕ → StorageController → (drive : ℕ) → ℕ × Option DiskDrive
storage_get_drive_info drive_bytes s drive =
    if leb s.drive_count drive then (0, none) else (drive_bytes, some (s.drives drive))

abbrev pub set_status : StorageController → ℕ → ℕ → StorageController
set_status s drive status = record s {
  drives = update s.drives drive (record (s.drives drive) { status = status });
}

unfoldable pub storage_enable_drive : StorageController → ℕ → StorageController
storage_enable_drive s drive = if ltb drive s.drive_count then set_status s drive 1 else s

unfoldable pub storage_disable_drive : StorageController → ℕ → StorageController
storage_disable_drive s drive = if ltb drive s.drive_count then set_status s drive 0 else s
