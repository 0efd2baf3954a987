-- ===== src/Disk/Bios.antt =====
-- Common/Kernel/Disk/Bios/Bios.c: the driver that reads sectors by way of int 13h.
-- The loop is recursive on fuel, with no result when it runs out; one round for each sector is enough.
pub mod Steps
pub mod Loop
pub mod Read
use serra.Base.{
  ℕ, zero, suc, ◌+◌, ◌-◌, ◌*◌, ◌/◌, ◌%◌, ◌^◌, Bool, true, false, not, ltb, leb, ◌==◌, if◌then◌else◌,
  Option, none, some,
}
use serra.Memory.{Memory, CpuFeatures, Routines, memcpy}
use serra.Fs.Layout.{le32, le64}
use serra.Disk.{Method, VolumeType, Volume, BootMethod, DiskInfo, Volumes, volume_limit, set_volume}
use serra.Disk.Read.{u64}

-- `Int13Wrapper_Data` and `Int13Wrapper_Location`.
abbrev pub int13_wrapper_data : ℕ
int13_wrapper_data = 0x70000

abbrev pub int13_wrapper_location : ℕ
int13_wrapper_location = 0x1000

abbrev pub int13_signature : ℕ
int13_signature = 0x3331_4961_7272_6553

-- The processor and its memory, the register CR3, and the real mode code behind `Call_Int13`, with the
-- LBA, the number of sectors and the drive; `wrapper` is the address of `Int13_Wrapper`.
pub record Firmware (W : Type 0) : Type 0 where
  pub cpu : CpuFeatures
  pub simd : Routines
  pub memory : W → Memory
  pub store : Memory → W → W
  pub cr3 : W → ℕ
  pub call_int13 : ℕ → ℕ → ℕ → W → ℕ × W
  pub wrapper : ℕ

abbrev pub is_int13 : BootMethod → Bool
is_int13 BootMethod.int13 = true
is_int13 _ = false

module _ {W : Type 0} (fw : Firmware W) where
  unfoldable pub copy_memory : (destination source size : ℕ) → W → W
  copy_memory destination source size w =
      fw.store (memcpy fw.cpu fw.simd destination source size (fw.memory w)) w

  -- The checks of the wrapper, from the first byte of it to the addresses it is made for.
  unfoldable pub is_wrapper : W → Bool
  is_wrapper w =
      let m = λ (i : ℕ). fw.memory w (fw.wrapper + i) in
      if m 0 == 0
      then false
      else if not (le64 m 512 == int13_signature)
      then false
      else if not (le32 m (512 + 8) == int13_wrapper_data)
      then false
      else if not (le32 m (512 + 8 + 4) == int13_wrapper_location)
      then false
      else if ltb int13_wrapper_data 0x400
      then false
      else if ltb int13_wrapper_location 0x400
      then false
      else if leb 0x7c00 int13_wrapper_location
      then false
      else if not (int13_wrapper_data % 0x10000 == 0)
      then false
      else if leb int13_wrapper_data int13_wrapper_location
      then not (ltb int13_wrapper_location (int13_wrapper_data + 0xfe00))
      else true

  unfoldable pub int13_volume : DiskInfo → Volume
  int13_volume info = record {
    method = Method.int13;
    drive = info.int13.drive_number;
    partition = 0;
    type = VolumeType.unknown;
    is_partition = false;
    partition_offset = 0;
    alignment = 0;
    bytes_per_sector = info.int13.bytes_per_sector;
    media_id = 0;
    num_sectors = info.int13.num_sectors;
  }

  unfoldable pub initialize_disk_subsystem_bios : DiskInfo → Volumes → W → Bool × Volumes × W
  initialize_disk_subsystem_bios info s w =
      let w1 = copy_memory int13_wrapper_location fw.wrapper 512 w in
      if not (is_wrapper w)
      then (false, s, w)
      else if leb volume_limit s.num_volumes
      then (false, s, w1)
      else (
        true,
        record (set_volume s.num_volumes (int13_volume info) s) { num_volumes = s.num_volumes + 1 },
        w1,
      )

  -- `while (Sectors > 0)`, with at most `per_read` sectors in a round of the loop.
  unfoldable pub read_loop : (fuel b per_read drive address lba sectors : ℕ) → W → Option (Bool × W)
  read_loop zero b per_read drive address lba sectors w =
      if sectors == 0 then some (true, w) else none
  read_loop (suc fuel) b per_read drive address lba sectors w =
      let n = if leb per_read sectors then per_read else sectors in
      let size = n * b % 2 ^ 32 in
      let (result, w1) = fw.call_int13 lba (n % 2 ^ 16) drive w in
      let w2 = copy_memory address int13_wrapper_data size w1 in
      let rest =
        read_loop fuel b per_read drive ((address + size) % u64) ((lba + n) % u64) (sectors - n)
          w2 in
      if sectors == 0
      then some (true, w)
      else if not (result == 0)
      then some (false, w1)
      else if not (le64 (fw.memory w2) address == le64 (fw.memory w2) int13_wrapper_data)
      then some (false, w2)
      else rest

  -- Without a number of bytes per sector there is no result: the code divides by it.
  unfoldable pub read_sectors_bios :
      (fuel buffer lba sectors drive : ℕ) → DiskInfo → Volumes → W → Option (Bool × W)
  read_sectors_bios fuel buffer lba sectors drive info s w =
      let b = info.int13.bytes_per_sector in
      let rest = read_loop fuel b (0xfe00 / b) drive buffer lba sectors w in
      if not s.is_enabled
      then some (false, w)
      else if not (is_int13 info.boot_method)
      then some (false, w)
      else if buffer == 0
      then some (false, w)
      else if sectors == 0
      then some (false, w)
      else if ltb info.int13.num_sectors ((lba + sectors) % u64)
      then some (false, w)
      else if leb 0xffff_0000 (fw.cr3 w)
      then some (false, w)
      else if b == 0
      then none
      else rest
