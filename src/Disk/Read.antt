-- ===== src/Disk/Read.antt =====
-- Common/Kernel/Disk/Disk.c: ReadSectors and ReadDisk.
-- Numbers are 64 bits wide. `Alignment` of a volume is below 64, as its shift has no value otherwise.
pub mod Outcome
pub mod Unaligned
use serra.Base.{
  ℕ, ◌+◌, ◌-◌, ◌*◌, ◌/◌, ◌%◌, ◌^◌, Bool, true, false, not, ◌&&◌, ltb, leb, ◌==◌, if◌then◌else◌,
}
use serra.Memory.{Memory, CpuFeatures, Routines, memcpy, memmove}
use serra.Disk.{Method, Volume, Volumes}

abbrev pub u64 : ℕ
u64 = 2 ^ 64

-- The processor and the memory, and what stands outside of this file: Allocate and Free, and the
-- drivers ReadSectors_Efi and ReadSectors_Bios, with the buffer, the LBA, the number of sectors and the
-- drive (and the media) before the state. An address of 0 is NULL.
pub record Machine (W : Type 0) : Type 0 where
  pub cpu : CpuFeatures
  pub simd : Routines
  pub memory : W → Memory
  pub store : Memory → W → W
  pub allocate : ℕ → W → ℕ × W
  pub free : ℕ → ℕ → W → Bool × W
  pub read_sectors_efi : ℕ → ℕ → ℕ → ℕ → ℕ → W → Bool × W
  pub read_sectors_bios : ℕ → ℕ → ℕ → ℕ → W → Bool × W

-- `Offset` with the partition's start added: the first byte on the drive.
unfoldable pub start_of : ℕ → Volume → ℕ
start_of offset volume =
    if volume.is_partition
    then (offset + volume.bytes_per_sector * volume.partition_offset) % u64
    else offset

-- The sectors that hold `size` bytes from `start` on.
pub record Extent : Type 0 where
  pub first_sector : ℕ
  pub last_sector : ℕ
  pub start_offset : ℕ
  pub end_offset : ℕ
  pub num_sectors : ℕ

unfoldable pub extent_of : (start size bytes_per_sector : ℕ) → Extent
extent_of start size b =
    let end = (start + size - 1) % u64 in
    record {
      first_sector = start / b;
      last_sector = end / b;
      start_offset = start % b;
      end_offset = end % b + 1;
      num_sectors = (1 + end / b + u64 - start / b) % u64;
    }

unfoldable pub align_up : ℕ → ℕ → ℕ
align_up address alignment =
    if ltb 0 (address % alignment) then address + (alignment - address % alignment) else address

-- The tests of the subsystem and of the volume.
unfoldable pub is_readable : (volume_num : ℕ) → Volumes → Bool
is_readable volume_num s =
    if not s.is_enabled
    then false
    else if leb s.num_volumes volume_num
    then false
    else if (s.volume_list volume_num).bytes_per_sector == 0
    then false
    else elim (s.volume_list volume_num).method [
      | Method.unknown ↦ false
      | Method.efi_block_io ↦ true
      | Method.int13 ↦ true
    ]

module _ {W : Type 0} (sv : Machine W) where
  unfoldable pub read_sectors : (buffer lba num_sectors : ℕ) → Volume → W → Bool × W
  read_sectors buffer lba n volume w = elim volume.method [
    | Method.efi_block_io ↦ sv.read_sectors_efi buffer lba n volume.drive volume.media_id w
    | Method.int13 ↦ sv.read_sectors_bios buffer lba n volume.drive w
    | Method.unknown ↦ (false, w)
  ]

  unfoldable pub move : (destination source size : ℕ) → W → W
  move destination source size w =
      sv.store (memmove sv.cpu sv.simd destination source size (sv.memory w)) w

  unfoldable pub copy : (destination source size : ℕ) → W → W
  copy destination source size w =
      sv.store (memcpy sv.cpu sv.simd destination source size (sv.memory w)) w

  -- `if (StartAligned == false)`, on the sectors up to the last whole one.
  unfoldable pub read_start : (buffer first num start_offset : ℕ) → Volume → W → Bool × W
  read_start buffer first num start_offset volume w =
      let b = volume.bytes_per_sector in
      let (status, w1) = read_sectors buffer (first + 1) (num - 1) volume w in
      let w2 = move (buffer + (b - start_offset)) buffer ((num - 1) * b % u64) w1 in
      let (temp, w3) = sv.allocate b w2 in
      let w4 = copy temp buffer b w3 in
      let (again, w5) = read_sectors buffer first 1 volume w4 in
      let w6 = move buffer (buffer + start_offset) (b - start_offset) w5 in
      let w7 = copy (buffer + (b - start_offset)) (temp + (b - start_offset)) start_offset w6 in
      let (freed, w8) = sv.free temp b (if again then w7 else w5) in
      if not status
      then (false, w1)
      else if temp == 0
      then (false, w3)
      else ((if freed then again else false), w8)

  -- `if (EndAligned == false)`: the last sector, by way of the start of the buffer.
  unfoldable pub read_end : (buffer size last end_offset : ℕ) → Volume → W → Bool × W
  read_end buffer size last end_offset volume w =
      let (status, w1) = read_sectors buffer last 1 volume w in
      if end_offset == volume.bytes_per_sector
      then (true, w)
      else if not status
      then (false, w1)
      else (true, copy (buffer + size - end_offset) buffer end_offset w1)

  unfoldable pub read_aligned : (buffer size : ℕ) → Extent → Volume → W → Bool × W
  read_aligned buffer size e volume w =
      let (status, w1) = read_end buffer size e.last_sector e.end_offset volume w in
      let n =
        if e.end_offset == volume.bytes_per_sector then e.num_sectors else e.num_sectors - 1 in
      if not status
      then (false, w1)
      else if not (e.start_offset == 0)
      then read_start buffer e.first_sector n e.start_offset volume w1
      else read_sectors buffer e.first_sector n volume w1

  -- By way of a temporary buffer that holds all sectors.
  unfoldable pub read_unaligned : (buffer size : ℕ) → Extent → Volume → W → Bool × W
  read_unaligned buffer size e volume w =
      let alignment = 2 ^ volume.alignment in
      let temp_size = (alignment + e.num_sectors * volume.bytes_per_sector) % u64 in
      let (pointer, w1) = sv.allocate temp_size w in
      let address = align_up pointer alignment in
      let (status, w2) = read_sectors address e.first_sector e.num_sectors volume w1 in
      let w3 = if status then move buffer (address + e.start_offset) size w2 else w2 in
      let (freed, w4) = sv.free pointer temp_size w3 in
      if pointer == 0 then (false, w1) else ((if freed then status else false), w4)

  unfoldable pub read_disk : (buffer offset size volume_num : ℕ) → Volumes → W → Bool × W
  read_disk buffer offset size volume_num s w =
      let volume = s.volume_list volume_num in
      let e = extent_of (start_of offset volume) size volume.bytes_per_sector in
      if not (is_readable volume_num s)
      then (false, w)
      else if buffer == 0
      then (false, w)
      else if size == 0
      then (true, w)
      else if leb volume.num_sectors e.last_sector
      then (false, w)
      else if buffer % 2 ^ volume.alignment == 0 && not (ltb e.num_sectors 3)
      then read_aligned buffer size e volume w
      else read_unaligned buffer size e volume w
