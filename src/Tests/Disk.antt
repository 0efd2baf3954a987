-- ===== src/Tests/Disk.antt =====
-- Runs of the partition map functions.
use serra.Base.{
  ℕ, ◌+◌, ◌-◌, ◌%◌, ◌<◌, ◌≡◌, refl, ◌↔◌, true, false, List, [], ◌∷◌, ltb, ◌==◌, if◌then◌else◌,
  get_or, arith,
}
use serra.Crc.{Bytes, crc_loop, crc32_lut, complement, calculate_crc32}
use serra.Crc.Checksum.{feed_bytes, calculate_crc32-feed_bytes}
use serra.Memory.{Memory, within}
use serra.Disk.{Method, VolumeType, Volume, Volumes}
use serra.Fs.Layout.{ChsAddress, MbrEntry, MbrHeader, gpt_header, uuid_bytes, gpt_partition}
use serra.Fs.Mbr.{
  calculate_mbr_offset, calculate_mbr_size, partition_end, check_entries, validate_mbr_header,
}
use serra.Fs.Mbr.Chs.{IsChs}
use serra.Fs.Mbr.Validate.{IsMbr, validate_mbr_header_iff}
use serra.Fs.Gpt.{same_uuid, is_zeroed, validate_gpt_fields, validate_gpt_header}
use serra.Fs.Gpt.Validate.{IsGpt, validate_gpt_header_iff}
use serra.Fs.Detect.{
  Services, has_gpt_entry, add_volume, add_gpt_entries, load_gpt_array, read_gpt_headers,
  detect_gpt, detect_partition_map,
}
use serra.Fs.Detect.Mbr.{IsDetected, detect_partition_map-mbr}
use serra.Fs.Detect.Gpt.{Added, detect_partition_map-gpt}
use serra.Fs.Detect.Ledger.{Counts, counted, detect_partition_map-Balanced}

-- The first 92 bytes of sector 1 of a disk of 8 sectors: a primary GPT header with one partition.
abbrev header_bytes : List ℕ
header_bytes =
    69 ∷ 70 ∷ 73 ∷ 32 ∷ 80 ∷ 65 ∷ 82 ∷ 84 ∷ 0 ∷ 0 ∷ 1 ∷ 0 ∷ 92 ∷ 0 ∷ 0 ∷ 0 ∷ 55 ∷ 98 ∷ 38 ∷ 183 ∷ 0
    ∷ 0 ∷ 0 ∷ 0 ∷ 1 ∷ 0 ∷ 0 ∷ 0 ∷ 0 ∷ 0 ∷ 0 ∷ 0 ∷ 7 ∷ 0 ∷ 0 ∷ 0 ∷ 0 ∷ 0 ∷ 0 ∷ 0 ∷ 3 ∷ 0 ∷ 0 ∷ 0 ∷ 0
    ∷ 0 ∷ 0 ∷ 0 ∷ 6 ∷ 0 ∷ 0 ∷ 0 ∷ 0 ∷ 0 ∷ 0 ∷ 0 ∷ 1 ∷ 2 ∷ 3 ∷ 4 ∷ 5 ∷ 6 ∷ 7 ∷ 8 ∷ 9 ∷ 10 ∷ 11 ∷ 12
    ∷ 13 ∷ 14 ∷ 15 ∷ 16 ∷ 2 ∷ 0 ∷ 0 ∷ 0 ∷ 0 ∷ 0 ∷ 0 ∷ 0 ∷ 1 ∷ 0 ∷ 0 ∷ 0 ∷ 128 ∷ 0 ∷ 0 ∷ 0 ∷ 209 ∷ 19
    ∷ 103 ∷ 132 ∷ []

-- The partition array, up to its last byte that is not 0.
abbrev array_bytes : List ℕ
array_bytes =
    162 ∷ 160 ∷ 208 ∷ 235 ∷ 229 ∷ 185 ∷ 51 ∷ 68 ∷ 135 ∷ 192 ∷ 104 ∷ 182 ∷ 183 ∷ 38 ∷ 153 ∷ 199 ∷ 1
    ∷ 2 ∷ 3 ∷ 4 ∷ 5 ∷ 6 ∷ 7 ∷ 8 ∷ 9 ∷ 10 ∷ 11 ∷ 12 ∷ 13 ∷ 14 ∷ 15 ∷ 16 ∷ 3 ∷ 0 ∷ 0 ∷ 0 ∷ 0 ∷ 0 ∷ 0
    ∷ 0 ∷ 6 ∷ 0 ∷ 0 ∷ 0 ∷ 0 ∷ 0 ∷ 0 ∷ 0 ∷ 0 ∷ 0 ∷ 0 ∷ 0 ∷ 0 ∷ 0 ∷ 0 ∷ 0 ∷ 69 ∷ []

abbrev disk : Volume
disk = record {
  method = Method.efi_block_io;
  drive = 0;
  partition = 0;
  type = VolumeType.unknown;
  is_partition = false;
  partition_offset = 0;
  alignment = 0;
  bytes_per_sector = 512;
  media_id = 0;
  num_sectors = 8;
}

-- Any sector, with each cell cut to a byte.
abbrev header_sector : Bytes
header_sector i = get_or header_bytes i 0 % 256

header_sector_bytes : (i : ℕ) → header_sector i < 256
header_sector_bytes i = omega arith

calculate_crc32-feed_bytes_example :
    calculate_crc32 header_sector 92 ≡ complement (feed_bytes 92 0 0xffff_ffff header_sector)
calculate_crc32-feed_bytes_example =
    calculate_crc32-feed_bytes header_sector 92 (λ j h. header_sector_bytes j)

validate_gpt_header_run : validate_gpt_header header_sector disk ≡ true
unfolding validate_gpt_header gpt_header calculate_crc32 crc_loop crc32_lut validate_gpt_fields
    is_zeroed
validate_gpt_header_run = refl

validate_gpt_header_iff_example :
    (validate_gpt_header header_sector disk ≡ true) ↔ IsGpt header_sector disk
validate_gpt_header_iff_example =
    validate_gpt_header_iff header_sector disk header_sector_bytes (omega arith) (omega arith)

abbrev third_sector : ChsAddress
third_sector = record { heads = 1; sectors = 3; cylinders = 2 }

third_sector-IsChs : IsChs third_sector
third_sector-IsChs = record {
  first_sector = omega arith;
  last_sector = omega arith;
  last_head = omega arith;
  last_cylinder = omega arith;
}

abbrev entry_of : ℕ → MbrEntry
entry_of t = record {
  attributes = 0;
  chs_start = third_sector;
  type = t;
  chs_end = third_sector;
  lba = 2;
  num_sectors = 3;
}

-- Two entries of the same range, and two empty ones.
abbrev twin_header : MbrHeader
twin_header = record {
  entry = λ n. if ltb n 2 then entry_of 0x0c else entry_of 0;
  signature = 0xaa55;
}

abbrev protective_header : MbrHeader
protective_header = record {
  entry = λ n. entry_of (if n == 0 then 0xee else 0);
  signature = 0xaa55;
}

abbrev volumes : Volumes
volumes = record { is_enabled = true; volume_list = λ _. disk; num_volumes = 1 }

validate_mbr_header_iff_example :
    (validate_mbr_header twin_header 0 volumes ≡ true) ↔ IsMbr twin_header 0 volumes
validate_mbr_header_iff_example = validate_mbr_header_iff twin_header 0 volumes

-- The header is accepted, although its two partitions are the same sectors.
validate_mbr_header_twins : validate_mbr_header twin_header 0 volumes ≡ true
unfolding validate_mbr_header check_entries calculate_mbr_offset partition_end calculate_mbr_size
validate_mbr_header_twins = refl

-- A disk with the header in sector 1 and the partition array in sector 2.
abbrev disk_bytes : Bytes
disk_bytes x = if within 512 512 x then header_sector (x - 512) else get_or array_bytes (x - 1024) 0

-- The next free address, and what is in memory.
abbrev Machine : Type 0
Machine = ℕ × Memory

abbrev machine_services : Services Machine
machine_services = record {
  allocate = λ size w. (w.0, (w.0 + size, w.1));
  free = λ pointer size w. (true, w);
  read_disk = λ buffer offset size volume v w. (
    true,
    (w.0, λ x. if within buffer size x then disk_bytes (offset + (x - buffer)) else w.1 x),
  );
  memory = λ w. w.1;
}

abbrev machine : Machine
machine = (0x1000, λ _. 0)

detect_partition_map-mbr_example :
    (t : Volumes) × (detect_partition_map machine_services twin_header 0 volumes machine
      ≡ (1, t, machine))
    × IsDetected twin_header 0 volumes t
unfolding has_gpt_entry
detect_partition_map-mbr_example =
    detect_partition_map-mbr machine_services twin_header 0 volumes machine refl (omega arith)
      (omega arith)

abbrev after_gpt : Volumes
after_gpt = (detect_partition_map machine_services protective_header 0 volumes machine).1

detect_partition_map-gpt_example :
    ((detect_partition_map machine_services protective_header 0 volumes machine).0 ≡ 1)
    × Added 0 volumes after_gpt
    × ((i : ℕ) → i < 1 → after_gpt.volume_list i ≡ disk)
unfolding has_gpt_entry
detect_partition_map-gpt_example =
    detect_partition_map-gpt machine_services protective_header 0 volumes machine refl (omega arith)

-- The partition of the table is found.
detect_partition_map_run : after_gpt.num_volumes ≡ 2
unfolding detect_partition_map has_gpt_entry detect_gpt read_gpt_headers validate_gpt_header
    gpt_header calculate_crc32 crc_loop crc32_lut validate_gpt_fields is_zeroed load_gpt_array
    add_gpt_entries same_uuid gpt_partition uuid_bytes add_volume
detect_partition_map_run = refl

abbrev no_counts : Counts
no_counts = record { allocated = λ a z. 0; freed = λ a z. 0 }

abbrev after_counted : Counts
after_counted =
    (detect_partition_map (counted machine_services) protective_header 0 volumes
      (machine, no_counts)).2.1

detect_partition_map-Balanced_example :
    after_counted.allocated 0x1000 512 + 0 ≡ 0 + after_counted.freed 0x1000 512
detect_partition_map-Balanced_example =
    detect_partition_map-Balanced machine_services protective_header 0 volumes machine no_counts
      0x1000 512
