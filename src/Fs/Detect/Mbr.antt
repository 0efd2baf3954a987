-- ===== src/Fs/Detect/Mbr.antt =====
-- DetectPartitionMap on a volume without a GPT protective entry.
use serra.Base.{
  ℕ, zero, suc, ◌+◌, ◌<◌, ◌≤◌, ◌≡◌, refl, ◌≢◌, false, ◌||◌, List, [], ◌∷◌, ◌==◌, if◌then◌else◌,
  arith,
}
use serra.Disk.{Volume, VolumeType, Volumes, volume_limit, set_volume}
use serra.Fs.Layout.{MbrHeader, mbr_partition_type_none, mbr_partition_type_gpt}
use serra.Fs.Detect.{
  Services, add_volume, has_gpt_entry, mbr_volume, add_mbr_entries, detect_partition_map,
}
use serra.Fs.Detect.Append.{push_all, Appends, push_all-Appends}

-- A partition volume for each entry that is neither empty nor GPT protective, in order.
unfoldable pub mbr_partitions : (n index : ℕ) → MbrHeader → Volume → List Volume
mbr_partitions zero index mbr volume = []
mbr_partitions (suc n) index mbr volume =
    let type = (mbr.entry index).type in
    let rest = mbr_partitions n (index + 1) mbr volume in
    if type == mbr_partition_type_none || type == mbr_partition_type_gpt
    then rest
    else mbr_volume mbr index volume ∷ rest

add_mbr_entries-push_all :
    (n index : ℕ) (mbr : MbrHeader) (volume : Volume) (s : Volumes)
    → add_mbr_entries n index mbr volume s ≡ push_all (mbr_partitions n index mbr volume) s
unfolding add_mbr_entries mbr_partitions push_all
add_mbr_entries-push_all zero index mbr volume s = refl
add_mbr_entries-push_all (suc n) index mbr volume s = ground (
  arith,
  add_mbr_entries-push_all n (index + 1) mbr volume s,
  add_mbr_entries-push_all n (index + 1) mbr volume (add_volume (mbr_volume mbr index volume) s),
)

-- What DetectPartitionMap leaves: the partitions appended, and the type of the volume itself.
pub record IsDetected (mbr : MbrHeader) (volume_num : ℕ) (s t : Volumes) : Type 0 where
  pub appended :
      (u : Volumes) × Appends (mbr_partitions 4 0 mbr (s.volume_list volume_num)) s u
      × (t.num_volumes ≡ u.num_volumes)
      × ((i : ℕ) → i ≢ volume_num → t.volume_list i ≡ u.volume_list i)
  pub enabled : t.is_enabled ≡ s.is_enabled
  pub own : t.volume_list volume_num ≡ record (s.volume_list volume_num) { type = VolumeType.mbr }

-- On a volume in use, whose MBR has no GPT protective entry, DetectPartitionMap appends to the volume
-- list a volume for each entry that is in use, in order and as far as there is room, changes no
-- other volume but the type of this one, calls no service, and returns the number of volumes before.
pub detect_partition_map-mbr :
    {W : Type 0} (sv : Services W) (mbr : MbrHeader) (volume_num : ℕ) (s : Volumes) (w : W)
    → has_gpt_entry 4 0 mbr ≡ false
    → volume_num < s.num_volumes
    → s.num_volumes ≤ volume_limit
    → (t : Volumes) × (detect_partition_map sv mbr volume_num s w ≡ (s.num_volumes, t, w))
      × IsDetected mbr volume_num s t
unfolding detect_partition_map
detect_partition_map-mbr sv mbr volume_num s w plain in_use room =
    let added = add_mbr_entries 4 0 mbr (s.volume_list volume_num) s in
    let r : Appends (mbr_partitions 4 0 mbr (s.volume_list volume_num)) s added =
      rw (add_mbr_entries-push_all 4 0 mbr (s.volume_list volume_num) s)
        (push_all-Appends _ s room) in
    (
      set_volume volume_num (record (added.volume_list volume_num) { type = VolumeType.mbr }) added,
      rw plain,
      record {
        appended = (added, r, refl, λ i ne. ground (arith, ne));
        enabled = r.enabled;
        own = ground (arith, r.kept volume_num in_use);
      },
    )
