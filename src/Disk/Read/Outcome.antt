-- ===== src/Disk/Read/Outcome.antt =====
-- ReadDisk (Common/Kernel/Disk/Disk.c): when it never succeeds.
use native.Mathlib.Nat.{le-div_iff_mul-le, mul_comm}
use serra.Base.{
  ℕ, ◌+◌, ◌-◌, ◌*◌, ◌/◌, ◌%◌, ◌<◌, ◌≤◌, ◌≡◌, refl, inl, inr, true, false, arith, Bool-cases,
}
use serra.Disk.{Volume, Volumes}
use serra.Disk.Read.{u64, Machine, start_of, extent_of, is_readable, read_disk}

is_readable-sector :
    (volume_num : ℕ) (s : Volumes)
    → is_readable volume_num s ≡ true
    → 0 < (s.volume_list volume_num).bytes_per_sector
unfolding is_readable
is_readable-sector volume_num s h = ground arith

past_end :
    (offset size : ℕ) (volume : Volume)
    → volume.is_partition ≡ true
    → volume.num_sectors ≤ volume.partition_offset
    → 0 < size
    → 0 < volume.bytes_per_sector
    → offset + volume.bytes_per_sector * volume.partition_offset + size < u64
    → volume.num_sectors
      ≤ (extent_of (start_of offset volume) size volume.bytes_per_sector).last_sector
unfolding start_of extent_of
past_end offset size volume part later some_size pos fits =
    let start : start_of offset volume
        ≡ offset + volume.bytes_per_sector * volume.partition_offset =
      rw part (omega arith) in
    let whole : (start_of offset volume + size - 1) % u64
        ≡ offset + volume.bytes_per_sector * volume.partition_offset + size - 1 =
      rw start (omega arith) in
    let reach : volume.partition_offset
        ≤ (start_of offset volume + size - 1) % u64 / volume.bytes_per_sector =
      (le-div_iff_mul-le pos).1
        (rw whole (omega (arith, mul_comm volume.bytes_per_sector volume.partition_offset))) in
    omega arith

-- On a partition that starts at or behind the sector with the number of its own sectors, ReadDisk of any
-- bytes returns false and calls no service, as long as the end of the bytes does not wrap: the last
-- sector, which counts from the start of the drive, is compared with the size of the partition.
pub read_disk-partition :
    {W : Type 0} (sv : Machine W) (s : Volumes) (volume_num buffer offset size : ℕ) (w : W)
    → (s.volume_list volume_num).is_partition ≡ true
    → (s.volume_list volume_num).num_sectors ≤ (s.volume_list volume_num).partition_offset
    → 0 < size
    → offset
        + (s.volume_list volume_num).bytes_per_sector * (s.volume_list volume_num).partition_offset
        + size
      < u64
    → read_disk sv buffer offset size volume_num s w ≡ (false, w)
unfolding read_disk
read_disk-partition sv s volume_num buffer offset size w part later some_size fits =
    elim (Bool-cases (is_readable volume_num s)) [
      | inr unreadable ↦ rw unreadable refl
      | inl readable ↦
          let pos = is_readable-sector volume_num s readable in
          let past =
            past_end offset size (s.volume_list volume_num) part later some_size pos fits in
          ground arith
    ]
