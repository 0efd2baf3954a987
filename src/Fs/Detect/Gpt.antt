-- ===== src/Fs/Detect/Gpt.antt =====
-- DetectPartitionMap on a volume with a GPT protective entry.
use serra.Base.{
  if_intro, if_cases, ℕ, zero, suc, ◌+◌, ◌-◌, ◌*◌, ◌%◌, ◌^◌, ◌<◌, ◌≤◌, ◌≡◌, refl, ◌⊎◌, true, false,
  not, ◌||◌, List, [], ◌∷◌, ◌==◌, if◌then◌else◌, arith, inl, inr, ap,
}
use serra.Crc.{Bytes, calculate_crc32}
use serra.Disk.{Volume, Volumes, volume_limit}
use serra.Fs.Layout.{MbrHeader, gpt_header, gpt_partition, gpt_partition_type_none}
use serra.Fs.Mbr.{u64}
use serra.Fs.Gpt.{same_uuid, validate_gpt_header}
use serra.Fs.Detect.{
  Services, free_buffer, bytes_at, add_volume, has_gpt_entry, gpt_volume, add_gpt_entries,
  load_gpt_array, read_gpt_headers, detect_gpt, detect_partition_map,
}
use serra.Fs.Detect.Append.{push_all, Appends, push_all-Appends}

-- A partition volume for each of the first `n` entries from `index` on whose type is not empty.
unfoldable pub gpt_partitions : (n index : ℕ) → Bytes → Volume → List Volume
gpt_partitions zero index array volume = []
gpt_partitions (suc n) index array volume =
    let rest = gpt_partitions n (index + 1) array volume in
    if same_uuid (gpt_partition array (index * 128)).type gpt_partition_type_none
    then rest
    else gpt_volume array index volume ∷ rest

add_gpt_entries-push_all :
    (n index : ℕ) (array : Bytes) (volume : Volume) (s : Volumes)
    → add_gpt_entries n index array volume s ≡ push_all (gpt_partitions n index array volume) s
unfolding add_gpt_entries gpt_partitions push_all
add_gpt_entries-push_all zero index array volume s = refl
add_gpt_entries-push_all (suc n) index array volume s = ground (
  arith,
  add_gpt_entries-push_all n (index + 1) array volume s,
  add_gpt_entries-push_all n (index + 1) array volume
      (add_volume (gpt_volume array index volume) s),
)

-- The entries of the array that stands for a GPT header of the volume: the header passed every check of
-- ValidateGptHeader, and the array has the checksum that the header gives for it.
pub record IsTable (raw array : Bytes) (volume : Volume) : Type 0 where
  pub header : validate_gpt_header raw volume ≡ true
  pub checked :
      calculate_crc32 array
        ((gpt_header raw).num_partitions * (gpt_header raw).partition_entry_size % 2 ^ 32)
      ≡ (gpt_header raw).partition_crc32

-- Either nothing was added, or the partitions of a table of the volume.
abbrev pub Added : ℕ → Volumes → Volumes → Type 0
Added volume_num s t =
    (t ≡ s)
    ⊎ ((raw : Bytes) × (array : Bytes) × IsTable raw array (s.volume_list volume_num)
        × Appends
            (gpt_partitions (gpt_header raw).num_partitions 0 array (s.volume_list volume_num)) s t)

Added-kept :
    (volume_num : ℕ) (s t : Volumes)
    → Added volume_num s t
    → (i : ℕ) → i < s.num_volumes
    → t.volume_list i ≡ s.volume_list i
Added-kept volume_num s t (inl e) i p = ap (λ (v : Volumes). v.volume_list i) e
Added-kept volume_num s t (inr (raw, array, h, a)) i p = a.kept i p

module _ {W : Type 0} (sv : Services W) (volume_num : ℕ) (s : Volumes)
    (room : s.num_volumes ≤ volume_limit) where
  -- Shut, so that the rule for conditionals is found by its head.
  Ok : Volumes × W → Type 0
  Ok r = Added volume_num s r.0

  same : (w : W) → Ok (s, w)
  unfolding Ok
  same w = inl refl

  appended :
      (raw array : Bytes) (w : W)
      → IsTable raw array (s.volume_list volume_num)
      → Ok (add_gpt_entries (gpt_header raw).num_partitions 0 array (s.volume_list volume_num) s, w)
  unfolding Ok
  appended raw array w h =
      rw
        (add_gpt_entries-push_all (gpt_header raw).num_partitions 0 array (s.volume_list volume_num)
          s)
        (inr (raw, array, h, push_all-Appends _ s room))

  load_gpt_array-Ok :
      (raw : Bytes) (w : W)
      → validate_gpt_header raw (s.volume_list volume_num) ≡ true
      → Ok (load_gpt_array sv (gpt_header raw) volume_num s w)
  unfolding load_gpt_array
  load_gpt_array-Ok raw w valid =
      let volume = s.volume_list volume_num in
      let h = gpt_header raw in
      let size = h.num_partitions * h.partition_entry_size % 2 ^ 32 in
      let (array, w1) = sv.allocate size w in
      let (done, w2) =
        sv.read_disk array (h.partition_lba * volume.bytes_per_sector % u64) size volume_num s w1 in
      let bytes = bytes_at (sv.memory w2) array in
      let w3 = free_buffer sv array size w2 in
      let found = add_gpt_entries h.num_partitions 0 bytes volume s in
      let sound = calculate_crc32 bytes size == h.partition_crc32 in
      let table : (not sound ≡ false) → IsTable raw bytes volume =
        λ e. record { header = valid; checked = ground arith } in
      let checked =
        if_cases Ok (not sound) {x = (s, w3)} {y = (found, w3)} (λ _. same w3)
          (λ e. appended raw bytes w3 (table e)) in
      let read = if_intro Ok (not done) {x = (s, w3)} (same w3) checked in
      if_intro Ok (array == 0) {x = (s, w1)} (same w1) read

  read_gpt_headers-Ok :
      (primary backup : ℕ) (w : W) → Ok (read_gpt_headers sv primary backup volume_num s w)
  unfolding read_gpt_headers
  read_gpt_headers-Ok primary backup w =
      let volume = s.volume_list volume_num in
      let size = volume.bytes_per_sector in
      let last = (volume.num_sectors + u64 - 1) % u64 * size % u64 in
      let (done_primary, w1) = sv.read_disk primary size size volume_num s w in
      let (done_backup, w2) = sv.read_disk backup last size volume_num s w1 in
      let first = bytes_at (sv.memory w2) primary in
      let second = bytes_at (sv.memory w2) backup in
      let by_backup =
        if_cases Ok (validate_gpt_header second volume) {y = (s, w2)} (load_gpt_array-Ok second w2)
          (λ _. same w2) in
      let by_primary =
        if_cases Ok (validate_gpt_header first volume) (load_gpt_array-Ok first w2)
          (λ _. by_backup) in
      if_intro Ok (not done_primary || not done_backup) {x = (s, w2)} (same w2) by_primary

  detect_gpt-Added : (w : W) → Added volume_num s (detect_gpt sv volume_num s w).0
  unfolding detect_gpt Ok
  detect_gpt-Added w =
      let size = (s.volume_list volume_num).bytes_per_sector in
      let (primary, w1) = sv.allocate size w in
      let (backup, w2) = sv.allocate size w1 in
      if_intro Ok (primary == 0 || backup == 0) {x = (s, w2)}
        {y = read_gpt_headers sv primary backup volume_num s w2} (same w2)
        (read_gpt_headers-Ok primary backup w2)

-- With a GPT protective entry in the MBR, whatever the services answer: DetectPartitionMap returns the
-- number of volumes before, and the volume list either is as it was or has the partitions of a table
-- appended, each with a type that is not empty, in order and as far as there is room; the header of
-- the table passed ValidateGptHeader for this volume, and its array has the checksum that the header
-- gives. Every volume that was in use before is as it was, this one's type included.
pub detect_partition_map-gpt :
    {W : Type 0} (sv : Services W) (mbr : MbrHeader) (volume_num : ℕ) (s : Volumes) (w : W)
    → has_gpt_entry 4 0 mbr ≡ true
    → s.num_volumes ≤ volume_limit
    → ((detect_partition_map sv mbr volume_num s w).0 ≡ s.num_volumes)
      × Added volume_num s (detect_partition_map sv mbr volume_num s w).1
      × ((i : ℕ)
          → i < s.num_volumes
          → (detect_partition_map sv mbr volume_num s w).1.volume_list i ≡ s.volume_list i)
unfolding detect_partition_map
detect_partition_map-gpt sv mbr volume_num s w protective room =
    let added = detect_gpt-Added sv volume_num s room w in
    rw protective (refl, added, Added-kept volume_num s _ added)
