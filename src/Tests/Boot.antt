-- ===== src/Tests/Boot.antt =====
-- Runs of the disk subsystem on firmware that works.
use serra.Base.{
  ℕ, ◌+◌, ◌-◌, ◌*◌, ◌%◌, ◌≤◌, ◌<◌, ◌≡◌, refl, Bool, true, false, ◌&&◌, List, [], ◌∷◌, some, ltb,
  ◌==◌, if◌then◌else◌, get_or, arith,
}
use serra.Crc.{Bytes}
use serra.Memory.{Memory, copy_up, fill_up, within, put, copied, copy_up-copied, fill_up-filled}
use serra.Memory.Copy.{Copies}
use serra.Disk.{Method, VolumeType, Volumes, BootMethod, DiskInfo}
use serra.Disk.Read.{
  start_of, extent_of, align_up, read_unaligned, read_sectors, is_readable, read_disk,
}
use serra.Disk.Bios.{
  Firmware, is_wrapper, copy_memory, read_loop, read_sectors_bios, initialize_disk_subsystem_bios,
}
use serra.Disk.Bios.Steps.{data_end}
use serra.Disk.Bios.Loop.{Int13Works}
use serra.Disk.Bios.Read.{
  read_sectors_bios-Reads, read_sectors_bios_ends, read_sectors_bios-succeeds,
}
use serra.Disk.Efi.{BootServices, efi_buffer_too_small}
use serra.Disk.Start.{
  InfoTable, Subsystem, common_info_table_signature, boot_method_of, int13_of, start_int13, enable,
  initialize_disk_subsystem,
}
use serra.Disk.Start.Outcome.{Outcome, initialize_disk_subsystem-Outcome}
use serra.Disk.Drivers.{finished, disk_machine}
use serra.Disk.Drivers.Bytes.{IsHeap, read_disk-int13}

abbrev drive_bytes : Bytes
drive_bytes x = x % 251

-- The end of `Int13_Wrapper`, from byte 512 on.
abbrev wrapper_tail : List ℕ
wrapper_tail =
    0x53 ∷ 0x65 ∷ 0x72 ∷ 0x72 ∷ 0x61 ∷ 0x49 ∷ 0x31 ∷ 0x33 ∷ 0 ∷ 0 ∷ 7 ∷ 0 ∷ 0 ∷ 0x10 ∷ 0 ∷ 0 ∷ []

-- Memory with the wrapper at 200000h.
abbrev image : Memory
image x =
    if x == 0x200000
    then 0xfa
    else if within 0x200200 16 x
    then get_or wrapper_tail (x - 0x200200) 0
    else 0

-- Real mode code that always finds the sectors.
abbrev bios : Firmware Memory
bios = record {
  cpu = record { erms = true; avx512f = false; avx = false };
  simd = record {
    memcpy_sse2 = λ dst src n. copy_up n dst src;
    memcpy_avx = λ dst src n. copy_up n dst src;
    memcpy_avx512f = λ dst src n. copy_up n dst src;
    memset_sse2 = λ buffer v n. fill_up n buffer v;
    memset_avx = λ buffer v n. fill_up n buffer v;
    memset_avx512f = λ buffer v n. fill_up n buffer v;
  };
  memory = λ w. w;
  store = λ m w. m;
  cr3 = λ w. 0x3000;
  call_int13 = λ lba n d w. (
    0,
    λ x.
        if within 0x70000 (n * 512) x && ltb x data_end
        then drive_bytes (lba * 512 + (x - 0x70000))
        else w x,
  );
  wrapper = 0x200000;
}

upwards-Copies : Copies (λ dst src n. copy_up n dst src)
upwards-Copies dst src n m x h = copy_up-copied n dst src m x (ground arith)

bios-Int13Works : Int13Works bios 128 512 drive_bytes
bios-Int13Works = record {
  routines = record {
    sse2_copies = upwards-Copies;
    avx_copies = upwards-Copies;
    avx512f_copies = upwards-Copies;
    sse2_fills = λ buffer v n m x. fill_up-filled n buffer v m x;
    avx_fills = λ buffer v n m x. fill_up-filled n buffer v m x;
    avx512f_fills = λ buffer v n m x. fill_up-filled n buffer v m x;
  };
  stores = λ m w. refl;
  reads = λ lba n w small ok i inside. found lba n w i small inside;
  keeps = λ lba n w x high. kept lba n w x high;
}
  where
    found :
        (lba n : ℕ) (w : Memory) (i : ℕ)
        → n * 512 ≤ 0xfe00
        → i < n * 512
        → (if within 0x70000 (n * 512) (0x70000 + i) && ltb (0x70000 + i) data_end
            then drive_bytes (lba * 512 + (0x70000 + i - 0x70000))
            else w (0x70000 + i))
          ≡ drive_bytes (lba * 512 + i)
    found lba n w i small inside =
        let same : 0x70000 + i - 0x70000 ≡ i = omega arith in
        let there : (within 0x70000 (n * 512) (0x70000 + i) && ltb (0x70000 + i) data_end) ≡ true =
          ground arith in
        rw (there, same) refl

    kept :
        (lba n : ℕ) (w : Memory) (x : ℕ)
        → data_end ≤ x
        → (if within 0x70000 (n * 512) x && ltb x data_end
            then drive_bytes (lba * 512 + (x - 0x70000))
            else w x)
          ≡ w x
    kept lba n w x high =
        let past : ltb x data_end ≡ false = ground arith in
        let outside : (within 0x70000 (n * 512) x && ltb x data_end) ≡ false = ground arith in
        rw outside refl

abbrev info : DiskInfo
info = record {
  boot_method = BootMethod.int13;
  efi = record { handle = 0; protocol = 0; file_info = 0 };
  int13 = record {
    drive_number = 128;
    edd_supported = true;
    bytes_per_sector = 512;
    num_sectors = 1000;
  };
}

abbrev volumes : Volumes
volumes = record {
  is_enabled = true;
  volume_list = λ _. record {
    method = Method.int13;
    drive = 128;
    partition = 0;
    type = VolumeType.unknown;
    is_partition = false;
    partition_offset = 0;
    alignment = 0;
    bytes_per_sector = 512;
    media_id = 0;
    num_sectors = 1000;
  };
  num_volumes = 1;
}

-- 200 sectors are two rounds of the loop.
two_rounds :
    (w' : Memory) × (read_sectors_bios bios 200 0x100000 10 200 128 info volumes image
      ≡ some (true, w'))
two_rounds =
    read_sectors_bios-succeeds bios info volumes 128 drive_bytes 200 0x100000 10 200 image
      bios-Int13Works (λ l n v. refl) refl refl (omega arith) (omega arith) (omega arith)
      (omega arith) (omega arith) (omega arith) (omega arith) (omega arith) (omega arith)

read_sectors_bios-succeeds_example :
    (w' : Memory) × (read_sectors_bios bios 200 0x100000 10 200 128 info volumes image
      ≡ some (true, w'))
read_sectors_bios-succeeds_example =
    read_sectors_bios-succeeds bios info volumes 128 drive_bytes 200 0x100000 10 200 image
      bios-Int13Works (λ l n v. refl) refl refl (omega arith) (omega arith) (omega arith)
      (omega arith) (omega arith) (omega arith) (omega arith) (omega arith) (omega arith)

read_sectors_bios-Reads_example : two_rounds.0 (0x100000 + 70000) ≡ drive_bytes (10 * 512 + 70000)
read_sectors_bios-Reads_example =
    read_sectors_bios-Reads bios info volumes 128 drive_bytes 200 0x100000 10 200 image two_rounds.0
      bios-Int13Works (omega arith) (omega arith) (omega arith) two_rounds.1 (0x100000 + 70000)
      (omega arith)

read_sectors_bios_ends_example :
    (r : Bool × Memory) × (read_sectors_bios bios 200 0x100000 10 200 128 info volumes image
      ≡ some r)
read_sectors_bios_ends_example =
    read_sectors_bios_ends bios info volumes 128 200 0x100000 10 200 image (omega arith)
      (omega arith) (omega arith)

-- Firmware with two block devices behind the handles 1 and 2, of which the second has no medium.
abbrev services : BootServices Memory
services = record {
  memory = λ w. w;
  has_system_table = λ w. true;
  has_boot_services = λ w. true;
  mm_is_enabled = λ w. true;
  temp = 0x9000;
  allocate = λ n w. (if ltb n 0x100_0000 then 0x300000 else 0, w);
  locate_handle = λ size buffer w.
      if size == 0
      then (efi_buffer_too_small, 16, w)
      else (0, 16, put (put w buffer 1) (buffer + 8) 2);
  open_protocol = λ handle destination w. (0, put w destination (0x50 + handle));
  close_protocol = λ handle w. w;
  flush_blocks = λ protocol w. w;
  media = λ protocol w. protocol + 0x100;
  media_at = λ media w. record {
    media_id = 7;
    media_present = media == 0x151;
    logical_partition = false;
    block_size = 512;
    io_align = 16;
    last_block = 999;
  };
  read_blocks = λ protocol media_id lba size buffer w. (0, w);
}

abbrev table : InfoTable
table = record {
  signature = common_info_table_signature;
  method = 2;
  efi = record { handle = 0; protocol = 0; file_info = 0 };
  drive_number = 128;
  edd_is_supported = true;
  edd_bytes_per_sector = 512;
  edd_num_sectors = 1000;
}

abbrev before_start : Subsystem Memory
before_start = record {
  info = info;
  io = record { handles = 0; num_handles = 0; protocols = 0 };
  volumes = record volumes { is_enabled = false; num_volumes = 0 };
  world = image;
}

initialize_disk_subsystem-Outcome_example :
    Outcome services bios table before_start
      (initialize_disk_subsystem services bios table before_start)
initialize_disk_subsystem-Outcome_example =
    initialize_disk_subsystem-Outcome services bios table before_start (omega arith)

abbrev started : Subsystem Memory
started = (initialize_disk_subsystem services bios table before_start).1

initialize_disk_subsystem_run : started.volumes.num_volumes ≡ 1
unfolding initialize_disk_subsystem boot_method_of start_int13 int13_of enable
    initialize_disk_subsystem_bios is_wrapper
initialize_disk_subsystem_run = refl

-- The subsystem after a start by int 13h.
abbrev running : Subsystem Memory
running = record before_start { volumes = volumes }

heap : IsHeap bios services.allocate (λ p n w. (true, w)) 0x100000 400
heap = record {
  allocates = λ n w h. ground arith;
  stands = λ n w h. (ground arith, ground arith);
  frees = λ pointer n w i h. refl;
}

read_disk_run :
    (read_disk
      (disk_machine services bios (λ p n w. (true, w)) running)
      0x100000
      1000
      400
      0
      volumes
      image).0
    ≡ true
unfolding read_disk disk_machine is_readable extent_of start_of read_unaligned read_sectors finished
    read_sectors_bios read_loop copy_memory align_up serra.Memory.memcpy copy_up
read_disk_run = refl

read_disk-int13_example :
    (read_disk
        (disk_machine services bios (λ p n w. (true, w)) running)
        0x100000
        1000
        400
        0
        volumes
        image).1
      (0x100000 + 7)
    ≡ drive_bytes (1000 + 7)
unfolding start_of extent_of
read_disk-int13_example =
    read_disk-int13 services bios (λ p n w. (true, w)) running drive_bytes 0 0x100000 1000 400 image
      bios-Int13Works refl refl heap refl (omega arith) (omega arith) (omega arith) read_disk_run 7
      (omega arith)
