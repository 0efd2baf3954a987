-- ===== src/Fs/Mbr.antt =====
-- Common/Kernel/Disk/Fs/Fs.c: the entries of an MBR, and ValidateMbrHeader.
pub mod Chs
pub mod Validate
use serra.Base.{
  ℕ, zero, suc, ◌+◌, ◌-◌, ◌*◌, ◌%◌, ◌^◌, Bool, true, false, not, ◌&&◌, ◌||◌, ltb, leb, ◌==◌,
  if◌then◌else◌,
}
use serra.Disk.{Volume, VolumeType, Volumes}
use serra.Fs.Layout.{
  ChsAddress, MbrEntry, MbrHeader, mbr_header_signature, mbr_partition_type_none,
  mbr_partition_type_gpt,
}

abbrev pub u64 : ℕ
u64 = 2 ^ 64

-- The sum is an `int`, which a packed address cannot overflow, and then becomes a `uint64`: with
-- `Sectors` 0 it may be -1, hence the modulus.
unfoldable pub convert_chs_to_lba : ChsAddress → ℕ
convert_chs_to_lba chs = (chs.sectors + chs.heads * 63 + chs.cylinders * 63 * 255 + u64 - 1) % u64

unfoldable pub calculate_mbr_offset : MbrHeader → ℕ → ℕ
calculate_mbr_offset header partition =
    let entry = header.entry partition in
    if not (entry.lba == 0) then entry.lba else convert_chs_to_lba entry.chs_start

unfoldable pub calculate_mbr_size : MbrHeader → ℕ → ℕ
calculate_mbr_size header partition =
    let entry = header.entry partition in
    let start = convert_chs_to_lba entry.chs_start in
    let end = convert_chs_to_lba entry.chs_end in
    if not (entry.num_sectors == 0) then entry.num_sectors else (end + u64 - start + 1) % u64

unfoldable pub convert_mbr_partition_type : ℕ → VolumeType
convert_mbr_partition_type t =
    if t == mbr_partition_type_none || t == mbr_partition_type_gpt
    then VolumeType.unknown
    else if t == 0x01
        || (t == 0x04 || (t == 0x06 || (t == 0x0e || (t == 0x0b || (t == 0x0c || t == 0xef)))))
    then VolumeType.partition_fat
    else VolumeType.partition_unknown

-- `PartitionEnd[Index]`.
unfoldable pub partition_end : MbrHeader → ℕ → ℕ
partition_end header index =
    (calculate_mbr_offset header index + calculate_mbr_size header index) % u64

-- The second loop: what it returns, and `NumEmptyEntries`. `false` is a `return false`.
pub record Scan : Type 0 where
  pub valid : Bool
  pub num_empty_entries : ℕ

unfoldable pub check_entries : ℕ → ℕ → MbrHeader → (sector_limit empty : ℕ) → Scan
check_entries zero index header sector_limit empty = record {
  valid = true;
  num_empty_entries = empty;
}
check_entries (suc n) index header sector_limit empty =
    let skip = check_entries n (index + 1) header sector_limit (empty + 1) in
    let rest = check_entries n (index + 1) header sector_limit empty in
    let fail : Scan = record { valid = false; num_empty_entries = empty } in
    let start = calculate_mbr_offset header index in
    let end = partition_end header index in
    let type = (header.entry index).type in
    if type == mbr_partition_type_none
    then skip
    else if start == 0
    then fail
    else if ltb sector_limit end && not (type == mbr_partition_type_gpt)
    then fail
    else if leb end start
    then fail
    else rest

-- `Header` is a valid pointer wherever this is called.
unfoldable pub validate_mbr_header : MbrHeader → ℕ → Volumes → Bool
validate_mbr_header header volume_num s =
    let volume = s.volume_list volume_num in
    let sector_limit = (volume.bytes_per_sector * volume.num_sectors) % u64 in
    let scan = check_entries 4 0 header sector_limit 0 in
    if leb s.num_volumes volume_num
    then false
    else if not (header.signature == mbr_header_signature)
    then false
    else if volume.is_partition
    then false
    else if not scan.valid
    then false
    else not (scan.num_empty_entries == 4)
