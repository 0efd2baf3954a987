-- ===== src/Fs/Detect.antt =====
-- Common/Kernel/Disk/Fs/Fs.c: DetectPartitionMap adds the partitions of a volume to the volume list.
pub mod Append
pub mod Mbr
pub mod Gpt
pub mod Ledger
use serra.Base.{
  ℕ, zero, suc, ◌+◌, ◌-◌, ◌*◌, ◌%◌, ◌^◌, Bool, true, false, not, ◌&&◌, ◌||◌, ltb, leb, ◌==◌,
  if◌then◌else◌,
}
use serra.Crc.{Bytes, calculate_crc32}
use serra.Memory.{Memory}
use serra.Disk.{Volume, VolumeType, Volumes, volume_limit, set_volume}
use serra.Fs.Layout.{
  MbrHeader, mbr_partition_type_none, mbr_partition_type_gpt, GptHeader, gpt_header, GptPartition,
  gpt_partition, gpt_partition_type_none,
}
use serra.Fs.Mbr.{u64, calculate_mbr_offset, calculate_mbr_size, convert_mbr_partition_type}
use serra.Fs.Gpt.{same_uuid, convert_gpt_partition_type, validate_gpt_header}

-- What the function uses of the memory manager and of the disk subsystem. An address of 0 is NULL.
-- `read_disk` takes the buffer, the offset, the size and the volume.
pub record Services (W : Type 0) : Type 0 where
  pub allocate : ℕ → W → ℕ × W
  pub free : ℕ → ℕ → W → Bool × W
  pub read_disk : ℕ → ℕ → ℕ → ℕ → Volumes → W → Bool × W
  pub memory : W → Memory

-- The first loop: is there a GPT protective entry?
unfoldable pub has_gpt_entry : ℕ → ℕ → MbrHeader → Bool
has_gpt_entry zero index mbr = false
has_gpt_entry (suc n) index mbr =
    let rest = has_gpt_entry n (index + 1) mbr in
    if (mbr.entry index).type == mbr_partition_type_gpt then true else rest

-- `PartitionVolume`, with the values copied from `Volume`.
unfoldable pub partition_volume :
    (volume : Volume) (partition num_sectors offset : ℕ) (type : VolumeType) → Volume
partition_volume volume partition num_sectors offset type = record {
  method = volume.method;
  drive = volume.drive;
  partition = partition;
  type = type;
  is_partition = true;
  partition_offset = offset;
  alignment = volume.alignment;
  bytes_per_sector = volume.bytes_per_sector;
  media_id = volume.media_id;
  num_sectors = num_sectors;
}

-- `VolumeList[NumVolumes] = v; NumVolumes++`.
unfoldable pub add_volume : Volume → Volumes → Volumes
add_volume v s = record (set_volume s.num_volumes v s) { num_volumes = s.num_volumes + 1 }

unfoldable pub mbr_volume : MbrHeader → ℕ → Volume → Volume
mbr_volume mbr index volume =
    partition_volume volume index (calculate_mbr_size mbr index) (calculate_mbr_offset mbr index)
      (convert_mbr_partition_type (mbr.entry index).type)

-- The loop over the MBR entries; it stops when the list is full.
unfoldable pub add_mbr_entries : ℕ → ℕ → MbrHeader → Volume → Volumes → Volumes
add_mbr_entries zero index mbr volume s = s
add_mbr_entries (suc n) index mbr volume s =
    let skip = add_mbr_entries n (index + 1) mbr volume s in
    let rest =
      add_mbr_entries n (index + 1) mbr volume (add_volume (mbr_volume mbr index volume) s) in
    let type = (mbr.entry index).type in
    if type == mbr_partition_type_none
    then skip
    else if type == mbr_partition_type_gpt
    then skip
    else if ltb s.num_volumes volume_limit
    then rest
    else s

-- `1 + EndingLba - StartingLba`; the index is cut to 16 bits.
unfoldable pub gpt_volume : Bytes → ℕ → Volume → Volume
gpt_volume array index volume =
    let p = gpt_partition array (index * 128) in
    partition_volume volume (index % 2 ^ 16) ((1 + p.ending_lba + u64 - p.starting_lba) % u64)
      p.starting_lba (convert_gpt_partition_type p.type)

-- The loop over the GPT entries. The array has `gptPartition` as its element, so entry `Index` stands
-- at byte 128 * Index.
unfoldable pub add_gpt_entries : ℕ → ℕ → Bytes → Volume → Volumes → Volumes
add_gpt_entries zero index array volume s = s
add_gpt_entries (suc n) index array volume s =
    let skip = add_gpt_entries n (index + 1) array volume s in
    let rest =
      add_gpt_entries n (index + 1) array volume (add_volume (gpt_volume array index volume) s) in
    if same_uuid (gpt_partition array (index * 128)).type gpt_partition_type_none
    then skip
    else if ltb s.num_volumes volume_limit
    then rest
    else s

-- The bytes from an address on.
abbrev pub bytes_at : Memory → ℕ → Bytes
bytes_at m a i = m (a + i)

module _ {W : Type 0} (sv : Services W) where
  -- A buffer is freed if it is not NULL, and the result of Free is not used.
  unfoldable pub free_buffer : ℕ → ℕ → W → W
  free_buffer pointer size w = if pointer == 0 then w else (sv.free pointer size w).1

  -- From the partition array on: `Header` is the header that was picked. The size is a product of
  -- two `uint32`.
  unfoldable pub load_gpt_array : GptHeader → ℕ → Volumes → W → Volumes × W
  load_gpt_array header volume_num s w =
      let volume = s.volume_list volume_num in
      let size = header.num_partitions * header.partition_entry_size % 2 ^ 32 in
      let (array, w1) = sv.allocate size w in
      let (done, w2) =
        sv.read_disk array (header.partition_lba * volume.bytes_per_sector % u64) size volume_num s
          w1 in
      let bytes = bytes_at (sv.memory w2) array in
      if array == 0
      then (s, w1)
      else if not done
      then (s, free_buffer array size w2)
      else if not (calculate_crc32 bytes size == header.partition_crc32)
      then (s, free_buffer array size w2)
      else (add_gpt_entries header.num_partitions 0 bytes volume s, free_buffer array size w2)

  -- The two headers are read, one of them is picked, and the array is loaded; `(0, …)` frees nothing.
  unfoldable pub read_gpt_headers : (primary backup : ℕ) → ℕ → Volumes → W → Volumes × W
  read_gpt_headers primary backup volume_num s w =
      let volume = s.volume_list volume_num in
      let size = volume.bytes_per_sector in
      let last = (volume.num_sectors + u64 - 1) % u64 * size % u64 in
      let (done_primary, w1) = sv.read_disk primary size size volume_num s w in
      let (done_backup, w2) = sv.read_disk backup last size volume_num s w1 in
      let primary_bytes = bytes_at (sv.memory w2) primary in
      let backup_bytes = bytes_at (sv.memory w2) backup in
      if not done_primary || not done_backup
      then (s, w2)
      else if validate_gpt_header primary_bytes volume
      then load_gpt_array (gpt_header primary_bytes) volume_num s w2
      else if validate_gpt_header backup_bytes volume
      then load_gpt_array (gpt_header backup_bytes) volume_num s w2
      else (s, w2)

  unfoldable pub detect_gpt : ℕ → Volumes → W → Volumes × W
  detect_gpt volume_num s w =
      let size = (s.volume_list volume_num).bytes_per_sector in
      let (primary, w1) = sv.allocate size w in
      let (backup, w2) = sv.allocate size w1 in
      let (s', w3) =
        if primary == 0 || backup == 0
        then (s, w2)
        else read_gpt_headers primary backup volume_num s w2 in
      (s', free_buffer backup size (free_buffer primary size w3))

  -- The first component is what the function returns: the number of volumes before.
  unfoldable pub detect_partition_map : MbrHeader → ℕ → Volumes → W → ℕ × Volumes × W
  detect_partition_map mbr volume_num s w =
      let volume = s.volume_list volume_num in
      let (s', w') = detect_gpt volume_num s w in
      let added = add_mbr_entries 4 0 mbr volume s in
      let own = record (added.volume_list volume_num) { type = VolumeType.mbr } in
      if has_gpt_entry 4 0 mbr
      then (s.num_volumes, s', w')
      else (s.num_volumes, set_volume volume_num own added, w)
