-- ===== src/Fat/Ends.antt =====
-- ReadFile (Boot/Legacy/Shared/Disk/Disk.c) ends, on every FAT.
use native.Mathlib.Nat.{le-div_iff_mul-le, mul_comm, div-lt_iff_lt-mul, le-mul_of_pos_right}
use serra.Base.{
  ℕ, zero, suc, ◌+◌, ◌-◌, ◌*◌, ◌/◌, ◌%◌, ◌^◌, ◌≤◌, ◌<◌, ◌≡◌, refl, Bool, true, false, not, ltb, leb,
  ◌==◌, if◌then◌else◌, Option, some, arith, if_cases, if_intro,
}
use serra.Fat.{
  Drive, FatDirectory, Partition, Progress, u32, exceeds_limit, limit_of, sector_read_limit,
  read_fat_sector, get_fat_entry, cluster_offset, resume, read_cluster, read_clusters, read_file,
}

-- A loop over the sectors of a cluster that was entered at `offset` ends, or goes on with a larger offset,
-- below the size of the file.
data Moved (offset left size : ℕ) : Progress → Type 0 where
  ended : {ok : Bool} → Moved offset left size (Progress.finished ok)
  further :
      {offset' : ℕ}
      → offset + left ≤ offset'
      → offset' ≤ size
      → Moved offset left size (Progress.going offset')

pub step_size : (l n : ℕ) → 0 < l → n ≤ 32768 / l % 2 ^ 8 → (n ≤ l * n) × (l * n ≤ 32768)
step_size l n pos h =
    let below : n ≤ 32768 / l = omega arith in
    let size : n * l ≤ 32768 = (le-div_iff_mul-le pos).0 below in
    (omega (arith, mul_comm l n, le-mul_of_pos_right n pos), omega (arith, mul_comm l n, size))

module _ {W : Type 0} (d : Drive W) (v : Partition) where
  unfoldable Steps : ℕ → ℕ → ℕ → Option (Progress × W) → Type 0
  Steps offset left size o = (r : Progress × W) × (o ≡ some r) × Moved offset left size r.0

  stop :
      (offset left size : ℕ) (ok : Bool) (w : W)
      → Steps offset left size (some (Progress.finished ok, w))
  unfolding Steps
  stop offset left size ok w = ((Progress.finished ok, w), refl, ended)

  go_on :
      (offset left size offset' : ℕ) (w : W)
      → offset + left ≤ offset'
      → offset' ≤ size
      → Steps offset left size (some (Progress.going offset', w))
  unfolding Steps
  go_on offset left size offset' w le below = ((Progress.going offset', w), refl, further le below)

  weaken :
      (offset offset' left left' size : ℕ) (o : Option (Progress × W))
      → offset + left ≤ offset' + left'
      → Steps offset' left' size o
      → Steps offset left size o
  unfolding Steps
  weaken offset offset' left left' size o le ((Progress.finished ok, w), e, m) =
      ((Progress.finished ok, w), e, ended)
  weaken offset offset' left left' size o le ((Progress.going b, w), e, further p q) =
      ((Progress.going b, w), e, further (omega arith) q)

  resume_ends :
      (offset left size : ℕ) (o : Option (Progress × W)) (k : ℕ → W → Option (Bool × W))
      → Steps offset left size o
      → ((offset' : ℕ) (w : W)
          → offset + left ≤ offset'
          → offset' ≤ size
          → (r : Bool × W) × (k offset' w ≡ some r))
      → (r : Bool × W) × (resume o k ≡ some r)
  unfolding Steps resume
  resume_ends offset left size o k ((Progress.finished ok, w), e, m) h = rw e ((ok, w), refl)
  resume_ends offset left size o k ((Progress.going b, w), e, further low high) h =
      rw e (h b w low high)

  module _ (small : d.logical_sector_size ≤ 32768) (some_bytes : 0 < d.logical_sector_size)
      (limit : 0 < sector_read_limit d) where
    read_cluster_ends :
        (fuel address size start sector_num offset : ℕ) (w : W)
        → size + 32768 < u32
        → offset ≤ size
        → v.sectors_per_cluster ≤ sector_num + fuel
        → sector_num ≤ v.sectors_per_cluster
        → Steps offset
            (v.sectors_per_cluster - sector_num)
            size
            (read_cluster d fuel address size start sector_num offset v w)
    unfolding read_cluster
    read_cluster_ends zero address size start sector_num offset w room within_size enough inside =
        let e : ltb sector_num v.sectors_per_cluster ≡ false = ground arith in
        rw e (
          go_on offset (v.sectors_per_cluster - sector_num) size offset w (omega arith) within_size)
    read_cluster_ends (suc fuel) address size start sector_num offset w room within_size enough
          inside =
        let spc = v.sectors_per_cluster in
        let left = spc - sector_num in
        let n = if ltb left (sector_read_limit d) then left else sector_read_limit d in
        let lba = (v.partition_offset + v.data_offset + start + sector_num) % u32 in
        let (carry, w1) = read_fat_sector d n ((address + offset) % u32) lba w in
        let n_left : n ≤ left = ground arith in
        let n_limit : n ≤ sector_read_limit d = ground arith in
        let (most, least) = step_size d.logical_sector_size n some_bytes n_limit in
        let next : (offset + d.logical_sector_size * n) % u32 ≡ offset + d.logical_sector_size * n =
          omega arith in
        if_cases (Steps offset left size) (not (ltb sector_num spc))
          (λ done. go_on offset left size offset w (ground arith) within_size)
          (λ more. if_intro (Steps offset left size) carry (stop offset left size false w1) (
            if_cases (Steps offset left size)
              (leb size ((offset + d.logical_sector_size * n) % u32))
              (λ all. stop offset left size true w1)
              (λ rest. rw next (
                weaken offset (offset + d.logical_sector_size * n) left (spc - (sector_num + n))
                  size _ (omega arith)
                  (read_cluster_ends fuel address size start (sector_num + n)
                    (offset + d.logical_sector_size * n) w1 room (ground (arith, next))
                    (ground (arith, limit)) (omega arith))))))

    read_clusters_ends :
        (fuel address size cluster offset : ℕ) (w : W)
        → size + 32768 < u32
        → 0 < v.sectors_per_cluster
        → offset ≤ size
        → size < offset + fuel
        → (r : Bool × W) × (read_clusters d fuel address size cluster offset v w ≡ some r)
    unfolding read_clusters
    read_clusters_ends zero address size cluster offset w room some_sectors within_size enough =
        absurd (omega arith)
    read_clusters_ends (suc fuel) address size cluster offset w room some_sectors within_size
          enough =
        let Ends : Option (Bool × W) → Type 0 = λ o. (r : Bool × W) × (o ≡ some r) in
        let inner =
          read_cluster_ends v.sectors_per_cluster address size (cluster_offset cluster v) 0 offset w
            room within_size (omega arith) (omega arith) in
        if_intro Ends (exceeds_limit cluster (limit_of v.is_fat32)) ((true, w), refl)
          (resume_ends offset (v.sectors_per_cluster - 0) size _ _ inner (λ offset' w1 low high.
            let (next, w2) = get_fat_entry d cluster v w1 in
            if_intro Ends (next == 0) ((false, w2), refl)
              (read_clusters_ends fuel address size next offset' w2 room some_sectors high
                (omega arith))))

-- With sectors of 129 to 32768 bytes, at least one sector in a cluster and a file that ends at least 32 KiB
-- below 4 GiB, ReadFile ends whatever the drive answers, on a FAT with a cycle too: a round of the loop
-- over the clusters for each byte of the file, and one more, are enough.
pub read_file_ends :
    {W : Type 0} (d : Drive W) (v : Partition) (entry : FatDirectory) (fuel address : ℕ) (w : W)
    → 129 ≤ d.logical_sector_size
    → d.logical_sector_size ≤ 32768
    → 0 < v.sectors_per_cluster
    → entry.size + 32768 < u32
    → entry.size < fuel
    → (r : Bool × W) × (read_file d fuel address entry v w ≡ some r)
unfolding read_file
read_file_ends d v entry fuel address w wide small some_sectors room enough =
    let pos : 0 < d.logical_sector_size = omega arith in
    let one : 1 ≤ 32768 / d.logical_sector_size = (le-div_iff_mul-le pos).1 (omega arith) in
    let few : 32768 / d.logical_sector_size < 255 = (div-lt_iff_lt-mul pos).1 (omega arith) in
    read_clusters_ends d v small pos (omega arith) fuel address entry.size _ 0 w room some_sectors
      (omega arith) (omega arith)
