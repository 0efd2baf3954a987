-- ===== src/Fs/Gpt.antt =====
-- Common/Kernel/Disk/Fs/Fs.c: ValidateGptHeader and ConvertGptPartitionType.
pub mod Validate
use serra.Base.{
  ℕ, zero, suc, ◌+◌, ◌-◌, ◌%◌, ◌^◌, Bool, true, false, not, ◌&&◌, ◌||◌, List, [], ◌∷◌, ltb, leb,
  ◌==◌, if◌then◌else◌,
}
use serra.Crc.{Bytes, calculate_crc32}
use serra.Memory.{within}
use serra.Disk.{Volume, VolumeType}
use serra.Fs.Layout.{
  GptHeader, gpt_header, gpt_header_size, gpt_header_signature, gpt_header_revision,
  gpt_partition_type_basic_data, gpt_partition_type_esp, gpt_partition_type_linux_data,
}
use serra.Fs.Mbr.{u64}

-- `Memcmp(...) == 0` on two UUIDs of 16 bytes.
unfoldable pub same_uuid : List ℕ → List ℕ → Bool
same_uuid [] [] = true
same_uuid [] (y ∷ ys) = false
same_uuid (x ∷ xs) [] = false
same_uuid (x ∷ xs) (y ∷ ys) = x == y && same_uuid xs ys

unfoldable pub convert_gpt_partition_type : List ℕ → VolumeType
convert_gpt_partition_type t =
    if same_uuid gpt_partition_type_esp t
    then VolumeType.partition_fat
    else if same_uuid gpt_partition_type_basic_data t
    then VolumeType.partition_basic_data
    else if same_uuid gpt_partition_type_linux_data t
    then VolumeType.partition_basic_data
    else VolumeType.partition_unknown

-- `Header->Crc32 = 0`, in the bytes of the header.
abbrev pub clear_crc32 : Bytes → Bytes
clear_crc32 raw i = if within 16 4 i then 0 else raw i

-- `for (Index = sizeof(gptHeader); Index < SectorSize; Index++)`, on the rounds left.
unfoldable pub is_zeroed : ℕ → ℕ → Bytes → Bool
is_zeroed zero index raw = true
is_zeroed (suc n) index raw =
    let rest = is_zeroed n (index + 1) raw in if not (raw index == 0) then false else rest

-- The checks behind the checksum.
unfoldable pub validate_gpt_fields : GptHeader → Volume → Bool
validate_gpt_fields header volume =
    let backup_lba = (volume.num_sectors + u64 - 1) % u64 in
    if not (header.header_lba == 1)
    then false
    else if not (header.backup_lba == backup_lba)
    then false
    else if leb header.partition_lba header.header_lba
    then false
    else if leb header.backup_lba header.partition_lba
    then false
    else if header.num_partitions == 0
    then false
    else if ltb header.partition_entry_size 128
    then false
    else header.partition_entry_size % 8 == 0

-- The checksum field is put back before the function returns, so the sector is left as it was.
unfoldable pub validate_gpt_header : Bytes → Volume → Bool
validate_gpt_header raw volume =
    let header = gpt_header raw in
    if not (header.signature == gpt_header_signature)
    then false
    else if ltb header.revision gpt_header_revision
    then false
    else if ltb header.size gpt_header_size
    then false
    else if ltb volume.bytes_per_sector header.size
    then false
    else if not (header.crc32 == calculate_crc32 (clear_crc32 raw) header.size)
    then false
    else if not (validate_gpt_fields header volume)
    then false
    else is_zeroed (volume.bytes_per_sector - gpt_header_size) gpt_header_size raw
