-- ===== src/Tests/Volumes.antt =====
-- Runs of the disk subsystem.
use serra.Base.{ℕ, ◌+◌, ◌-◌, ◌*◌, ◌%◌, ◌≡◌, refl, Bool, true, false, if◌then◌else◌, arith, ltb}
use serra.Crc.{Bytes}
use serra.Memory.{Memory, copy_up, fill_up, within, copy_up-copied, fill_up-filled}
use serra.Memory.Copy.{Copies}
use serra.Disk.{Method, VolumeType, Volume, Volumes}
use serra.Disk.Read.{
  Machine, start_of, extent_of, is_readable, read_sectors, read_unaligned, read_disk,
}
use serra.Disk.Read.Unaligned.{Works, read_disk-bytes}
use serra.Disk.Read.Outcome.{read_disk-partition}

abbrev drive_bytes : Bytes
drive_bytes x = x % 251

-- Memory only: a block is always the same one, and a drive always answers.
abbrev computer : Machine Memory
computer = record {
  cpu = record { erms = true; avx512f = false; avx = false };
  simd = record {
    memcpy_sse2 = λ dst src n. copy_up n dst src;
    memcpy_avx = λ dst src n. copy_up n dst src;
    memcpy_avx512f = λ dst src n. copy_up n dst src;
    memset_sse2 = λ buffer v n. fill_up n buffer v;
    memset_avx = λ buffer v n. fill_up n buffer v;
    memset_avx512f = λ buffer v n. fill_up n buffer v;
  };
  memory = λ w. w;
  store = λ m w. m;
  allocate = λ n w. (0x100000, w);
  free = λ pointer n w. (true, w);
  read_sectors_efi = λ a lba n d m w.
      (true, λ x. if within a (n * 512) x then drive_bytes (lba * 512 + (x - a)) else w x);
  read_sectors_bios = λ a lba n d w.
      (true, λ x. if within a (n * 512) x then drive_bytes (lba * 512 + (x - a)) else w x);
}

abbrev volume_at : Bool → ℕ → ℕ → Volume
volume_at is_partition offset sectors = record {
  method = Method.int13;
  drive = 128;
  partition = 0;
  type = VolumeType.unknown;
  is_partition = is_partition;
  partition_offset = offset;
  alignment = 4;
  bytes_per_sector = 512;
  media_id = 0;
  num_sectors = sectors;
}

abbrev whole_drive : Volumes
whole_drive = record {
  is_enabled = true;
  volume_list = λ _. volume_at false 0 100;
  num_volumes = 1;
}

-- A partition of 100 sectors from sector 2048 on.
abbrev late_partition : Volumes
late_partition = record {
  is_enabled = true;
  volume_list = λ _. volume_at true 2048 100;
  num_volumes = 1;
}

upwards-Copies : Copies (λ dst src n. copy_up n dst src)
upwards-Copies dst src n m x h = copy_up-copied n dst src m x (ground arith)

-- The same one, with blocks of less than 1000000h bytes only.
abbrev small_computer : Machine Memory
small_computer = record computer { allocate = λ n w. (if ltb n 0x100_0000 then 0x100000 else 0, w) }

small_computer-Works : Works small_computer 0x80000 drive_bytes (volume_at false 0 100) 0x2001 600
small_computer-Works = record {
  routines = record {
    sse2_copies = upwards-Copies;
    avx_copies = upwards-Copies;
    avx512f_copies = upwards-Copies;
    sse2_fills = λ buffer v n m x. fill_up-filled n buffer v m x;
    avx_fills = λ buffer v n m x. fill_up-filled n buffer v m x;
    avx512f_fills = λ buffer v n m x. fill_up-filled n buffer v m x;
  };
  stores = λ m w. refl;
  efi = λ a lba n w low fits last h x high. refl;
  bios = λ a lba n w low fits last h x high. refl;
  allocates = λ n w h. ground arith;
  stands = λ n w h. (ground arith, ground arith);
  frees = λ pointer n w i h. refl;
}

abbrev empty_memory : Memory
empty_memory x = 0

read_disk_run : (read_disk small_computer 0x2001 1000 600 0 whole_drive empty_memory).0 ≡ true
unfolding read_disk is_readable extent_of start_of read_unaligned read_sectors
read_disk_run = refl

-- Bytes 1000 to 1599 lie in three sectors, and a buffer at 2001h is not aligned to 16 bytes.
read_disk-bytes_example :
    (read_disk small_computer 0x2001 1000 600 0 whole_drive empty_memory).1 (0x2001 + 7)
    ≡ drive_bytes (1000 + 7)
unfolding is_readable extent_of start_of
read_disk-bytes_example =
    read_disk-bytes small_computer 0x80000 drive_bytes whole_drive 0 0x2001 1000 600 empty_memory
      small_computer-Works refl (omega arith) (omega arith) (omega arith) read_disk_run 7
      (omega arith)

read_disk-partition_example :
    read_disk computer 0x2000 0 512 0 late_partition empty_memory ≡ (false, empty_memory)
read_disk-partition_example =
    read_disk-partition computer late_partition 0 0x2000 0 512 empty_memory refl (omega arith)
      (omega arith) (omega arith)
