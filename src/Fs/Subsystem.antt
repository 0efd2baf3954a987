-- ===== src/Fs/Subsystem.antt =====
-- Common/Kernel/Disk/Fs/Fs.c: InitializeFsSubsystem. Its messages are left out: they only print.
pub mod Extends
use serra.Base.{ℕ, zero, suc, ◌+◌, ◌-◌, ◌<◌, Bool, true, false, not, ltb, leb, ◌==◌, if◌then◌else◌}
use serra.Memory.{Memory}
use serra.Disk.{Volumes}
use serra.Disk.Read.{Machine, read_disk}
use serra.Fs.Layout.{mbr_header}
use serra.Fs.Mbr.{validate_mbr_header}
use serra.Fs.Detect.{Services, bytes_at, detect_partition_map}

-- The services as the disk subsystem has them: ReadDisk is the one of Disk.c.
unfoldable pub disk_services : {W : Type 0} → Machine W → Services W
disk_services sv = record {
  allocate = sv.allocate;
  free = sv.free;
  read_disk = λ buffer offset size volume_num s w. read_disk sv buffer offset size volume_num s w;
  memory = sv.memory;
}

module _ {W : Type 0} (sv : Services W) (bootsector : ℕ) where
  -- The volume list and the world after a volume was read: a valid MBR is taken for a partition map.
  unfoldable pub process_volume : ℕ → Volumes → W → Volumes × W
  process_volume index s w =
      let mbr = mbr_header (bytes_at (sv.memory w) bootsector) in
      let (old, s', w') = detect_partition_map sv mbr index s w in
      if validate_mbr_header mbr index s then (s', w') else (s, w)

  -- The loop over the volumes that there were at first, on the rounds left; `usable` is
  -- `NumUsableVolumes`.
  unfoldable pub process_volumes : (rounds index usable : ℕ) → Volumes → W → ℕ × Volumes × W
  process_volumes zero index usable s w = (usable, s, w)
  process_volumes (suc n) index usable s w =
      let (done, w1) = sv.read_disk bootsector 0 512 index s w in
      let (s2, w2) = process_volume index s w1 in
      let skip = process_volumes n (index + 1) usable s w1 in
      let rest = process_volumes n (index + 1) (usable + 1) s2 w2 in if done then rest else skip

  unfoldable pub initialize_fs_subsystem : Volumes → W → Bool × Volumes × W
  initialize_fs_subsystem s w =
      let (usable, s', w') = process_volumes s.num_volumes 0 0 s w in
      if not s.is_enabled
      then (false, s, w)
      else if s.num_volumes == 0
      then (false, s, w)
      else (not (usable == 0), s', w')
