-- ===== src/Disk/Start.antt =====
-- Common/Kernel/Disk/Disk.c: InitializeDiskSubsystem and TerminateDiskSubsystem.
pub mod Outcome
use serra.Base.{ℕ, ◌+◌, ◌-◌, ◌^◌, Bool, true, false, not, ltb, leb, ◌==◌, if◌then◌else◌}
use serra.Disk.{BootMethod, EfiInfo, Int13Info, DiskInfo, Volumes}
use serra.Disk.Bios.{Firmware, initialize_disk_subsystem_bios}
use serra.Disk.Efi.{
  BootServices, BlockIo, is_efi, initialize_disk_subsystem_efi, terminate_disk_subsystem_efi,
}

abbrev pub common_info_table_signature : ℕ
common_info_table_signature = 0x7577_757e_7577_757e

-- `Disk` of `commonInfoTable`, with the signature of the table. A pointer is its address.
pub record InfoTable : Type 0 where
  pub signature : ℕ
  pub method : ℕ
  pub efi : EfiInfo
  pub drive_number : ℕ
  pub edd_is_supported : Bool
  pub edd_bytes_per_sector : ℕ
  pub edd_num_sectors : ℕ

-- The global variables of the subsystem, and the world.
pub record Subsystem (W : Type 0) : Type 0 where
  pub info : DiskInfo
  pub io : BlockIo
  pub volumes : Volumes
  pub world : W

unfoldable pub boot_method_of : ℕ → BootMethod
boot_method_of method =
    if method == 1
    then BootMethod.efi
    else if method == 2
    then BootMethod.int13
    else BootMethod.unknown

-- `uintmax`.
abbrev pub uintmax : ℕ
uintmax = 2 ^ 64 - 1

-- The fields of `DiskInfo.Int13`, before they are checked.
unfoldable pub int13_of : InfoTable → Int13Info
int13_of table = record {
  drive_number = table.drive_number;
  edd_supported = table.edd_is_supported;
  bytes_per_sector = if table.edd_is_supported then table.edd_bytes_per_sector else 512;
  num_sectors = if table.edd_is_supported then table.edd_num_sectors else uintmax;
}

-- The status of a driver, with `DiskInfo.IsEnabled` set if it is true.
unfoldable pub enable : {W : Type 0} → Bool → Subsystem W → Bool × Subsystem W
enable status t =
    if not status
    then (false, t)
    else (true, record t { volumes = record t.volumes { is_enabled = true } })

module _ {W : Type 0} (efi : BootServices W) where
  unfoldable pub start_efi : InfoTable → Subsystem W → Bool × Subsystem W
  start_efi table t =
      let info : DiskInfo = record t.info { boot_method = BootMethod.efi; efi = table.efi } in
      let (status, io, s, w) = initialize_disk_subsystem_efi efi t.io t.volumes t.world in
      let filled : Subsystem W = record t { info = info } in
      if table.efi.file_info == 0
      then (false, filled)
      else if table.efi.handle == 0
      then (false, filled)
      else if table.efi.protocol == 0
      then (false, filled)
      else enable status (record { info = info; io = io; volumes = s; world = w })

module _ {W : Type 0} (bios : Firmware W) where
  -- A number of sectors of 0 is replaced; only another one leads to the check of the sector size.
  unfoldable pub start_int13 : InfoTable → Subsystem W → Bool × Subsystem W
  start_int13 table t =
      let int13 = int13_of table in
      let no_sectors = int13.num_sectors == 0 in
      let checked : Int13Info = record int13 {
        num_sectors = if no_sectors then uintmax else int13.num_sectors;
      } in
      let info : DiskInfo = record t.info { boot_method = BootMethod.int13; int13 = checked } in
      let (status, s, w) = initialize_disk_subsystem_bios bios info t.volumes t.world in
      if (if no_sectors then false else ltb int13.bytes_per_sector 512)
      then (false, record t { info = info })
      else enable status (record { info = info; io = t.io; volumes = s; world = w })

module _ {W : Type 0} (efi : BootServices W) (bios : Firmware W) where
  unfoldable pub initialize_disk_subsystem : InfoTable → Subsystem W → Bool × Subsystem W
  initialize_disk_subsystem table t =
      if not (table.signature == common_info_table_signature)
      then (false, t)
      else elim (boot_method_of table.method) [
        | BootMethod.efi ↦ start_efi efi table t
        | BootMethod.int13 ↦ start_int13 bios table t
        | BootMethod.unknown ↦
            (false, record t { info = record t.info { boot_method = BootMethod.unknown } })
      ]

module _ {W : Type 0} (efi : BootServices W) where
  unfoldable pub terminate_disk_subsystem : Subsystem W → Bool × Subsystem W
  terminate_disk_subsystem t =
      let off : Subsystem W = record t { volumes = record t.volumes { is_enabled = false } } in
      let (status, w) = terminate_disk_subsystem_efi efi t.io t.world in
      if not t.volumes.is_enabled
      then (false, t)
      else if is_efi t.info.boot_method
      then (status, record off { world = w })
      else (true, off)
