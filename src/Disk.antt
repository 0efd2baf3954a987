-- ===== src/Disk.antt =====
-- Common/Kernel/Disk/Disk.h and Disk.c: the volume list of the disk subsystem.
-- `VolumeList` is the function from an index to the volume that stands there, of which the first
-- `NumVolumes` are in use.
pub mod Read
pub mod Bios
pub mod Efi
pub mod Start
pub mod Drivers
use serra.Base.{ℕ, Bool, ◌==◌, if◌then◌else◌}

-- `volumeInfo.Method`.
pub data Method : Type 0 where
  unknown efi_block_io int13 : Method

-- `volumeInfo.Type`.
pub data VolumeType : Type 0 where
  unknown mbr gpt partition_unknown partition_basic_data partition_fat : VolumeType

pub record Volume : Type 0 where
  pub method : Method
  pub drive : ℕ
  pub partition : ℕ
  pub type : VolumeType
  pub is_partition : Bool
  pub partition_offset : ℕ
  pub alignment : ℕ
  pub bytes_per_sector : ℕ
  pub media_id : ℕ
  pub num_sectors : ℕ

-- The number of entries of `VolumeList`.
abbrev pub volume_limit : ℕ
volume_limit = 512

-- `DiskInfo.IsEnabled`, `VolumeList` and `NumVolumes`.
pub record Volumes : Type 0 where
  pub is_enabled : Bool
  pub volume_list : ℕ → Volume
  pub num_volumes : ℕ

abbrev pub set_volume : ℕ → Volume → Volumes → Volumes
set_volume n v s = record s { volume_list = λ i. if i == n then v else s.volume_list i }

-- `diskInfo.BootMethod`.
pub data BootMethod : Type 0 where
  unknown efi int13 : BootMethod

-- `diskInfo.Efi`: addresses, of which 0 is NULL.
pub record EfiInfo : Type 0 where
  pub handle : ℕ
  pub protocol : ℕ
  pub file_info : ℕ

-- `diskInfo.Int13`.
pub record Int13Info : Type 0 where
  pub drive_number : ℕ
  pub edd_supported : Bool
  pub bytes_per_sector : ℕ
  pub num_sectors : ℕ

-- `DiskInfo`, without `IsEnabled`, which stands with the volume list.
pub record DiskInfo : Type 0 where
  pub boot_method : BootMethod
  pub efi : EfiInfo
  pub int13 : Int13Info
