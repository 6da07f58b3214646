-- ===== src/Storage/Tests.antt =====
-- storage.c at concrete inputs.
use ea_x.Prelude.{◌≡◌, some, List, [], ◌∷◌}
use ea_x.Storage.{
  StorageController, DiskDrive, drive_2, storage_init, storage_read_sector, storage_write_sector,
  storage_get_drive_info,
}
use ea_x.Storage.Run.{Op, enable, disable, run, status_after, with_status, run-reports}

abbrev no_drive : DiskDrive
no_drive = record {
  disk_id = 0;
  sector_size = 0;
  total_sectors = 0;
  status = 0;
  interface_type = 0;
}

abbrev booted : StorageController
booted = storage_init (record { drive_count = 0; drives = λ i. no_drive; active_drive = 0 })

abbrev calls : List Op
calls = enable 2 ∷ disable 1 ∷ enable 7 ∷ []

-- Drive 2 is off at the start.
run-reports_example :
    (storage_get_drive_info 24 (run booted calls) 2 ≡ (24, some (with_status drive_2 1)))
    × (storage_read_sector (run booted calls) 2 100 0 ≡ 4096)
    × (storage_write_sector (run booted calls) 2 100 0 ≡ 4096)
unfolding storage_init status_after
run-reports_example = run-reports calls booted 2 100 0 24
