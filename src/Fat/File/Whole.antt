-- ===== src/Fat/File/Whole.antt =====
-- ReadFile (Boot/Legacy/Shared/Disk/Disk.c) reads the whole chain.
use serra.Base.{
  ℕ, zero, suc, ◌+◌, ◌-◌, ◌*◌, ◌≤◌, ◌<◌, ◌≡◌, ◌≢◌, sym, ap, ◌∙◌, inl, inr, true, false, ◌==◌, some,
  arith, if_cases,
}
use mathlib.Core.Path.{subst}
use serra.Crc.{Bytes}
use serra.Fat.{
  Drive, FatDirectory, Partition, u32, exceeds_limit, limit_of, get_directory_cluster,
  get_fat_entry, cluster_offset, read_cluster, read_clusters, read_file,
}
use serra.Fat.File.{Ready}
use serra.Fat.File.Cluster.{Good, read_cluster-Good}
use serra.Fat.File.Entry.{fat_entry, get_fat_entry-fat_entry, get_fat_entry-kept}
use serra.Fat.File.Chain.{
  chain, Reached, Reached-start, Reached-next, first_sector, size_of_cluster, cluster_at, Follows,
  Result, endless, broken, read, at_end, resume-Result, further-Result,
}

module _ {W : Type 0} (d : Drive W) (drive : Bytes) (low : ℕ) (v : Partition) where
  module _ (h : Ready d drive low) (q : ℕ) (four : d.logical_sector_size ≡ 4 * q) (pos : 0 < q)
      (small : d.logical_sector_size ≤ 32768) (address size : ℕ) (above : low ≤ address)
      (fits : address + size + 32768 < u32) where
    cluster-Good :
        (cluster offset : ℕ) (w : W)
        → first_sector v cluster + v.sectors_per_cluster < u32
        → offset ≤ size
        → Good d drive low v
            (address + offset)
            offset
            size
            (first_sector v cluster)
            v.sectors_per_cluster
            w
            (read_cluster d v.sectors_per_cluster address size
              (cluster_offset cluster v)
              0
              offset
              v
              w)
    unfolding first_sector
    cluster-Good cluster offset w on_drive within_size =
        let start = cluster_offset cluster v in
        let lba : v.partition_offset + v.data_offset + start + 0
            ≡ v.partition_offset + v.data_offset + start =
          omega arith in
        let left : v.sectors_per_cluster - 0 ≡ v.sectors_per_cluster = omega arith in
        let o = read_cluster d v.sectors_per_cluster address size start 0 offset v w in
        let good =
          read_cluster-Good d drive low v h address size start above fits on_drive
            v.sectors_per_cluster 0 offset w within_size (omega arith) in
        subst
          (λ (l : ℕ). Good d drive low v (address + offset) offset size l v.sectors_per_cluster w o)
          lba
          (subst
            (λ (n : ℕ).
              Good d drive low v (address + offset) offset size
                (v.partition_offset + v.data_offset + start + 0) n w o)
            left good)

    read_clusters-Result :
        (fuel cluster offset : ℕ) (w : W)
        → ((k : ℕ)
            → Reached drive d.logical_sector_size v cluster k
            → first_sector v (cluster_at d drive low v cluster k) + v.sectors_per_cluster < u32)
        → offset ≤ size
        → Result d drive low v address size cluster offset w
            (read_clusters d fuel address size cluster offset v w)
    unfolding read_clusters chain
    read_clusters-Result zero cluster offset w on_drive within_size = endless
    read_clusters-Result (suc fuel) cluster offset w on_drive within_size =
        if_cases (Result d drive low v address size cluster offset w)
          (exceeds_limit cluster (limit_of v.is_fat32))
          (λ end. read (at_end d drive low v address size cluster offset w end))
          (λ more.
            resume-Result d drive low v address size cluster offset w _ _
              (cluster-Good cluster offset w
                (on_drive 0 (Reached-start drive d.logical_sector_size v cluster more)) within_size)
              (λ w1 below f.
                let (following, w2) = get_fat_entry d cluster v w1 in
                let kept = λ (x : ℕ) (high : low ≤ x).
                  get_fat_entry-kept d drive low h v cluster w1 x small high in
                if_cases (Result d drive low v address size cluster offset w) (following == 0)
                  (λ _. broken)
                  (λ goes_on.
                    elim (get_fat_entry-fat_entry d drive low h v cluster q w1 small four pos) [
                      | inl e ↦ absurd (ground (arith, e, goes_on))
                      | inr e ↦
                          let used : fat_entry drive d.logical_sector_size v cluster ≢ 0 =
                            λ z. ground (arith, e ∙ z, goes_on) in
                          subst
                            (λ (n : ℕ). Result d drive low v address size cluster offset w (
                              read_clusters d fuel address size n
                                (offset + size_of_cluster d drive low v) v w2))
                            (sym e)
                            (further-Result d drive low v address size cluster offset w w1 w2 _ kept
                              above f
                              (read_clusters-Result fuel
                                (fat_entry drive d.logical_sector_size v cluster)
                                (offset + size_of_cluster d drive low v) w2
                                (λ k r. on_drive (suc k) (
                                  Reached-next drive d.logical_sector_size v cluster k more used r))
                                below))
                    ])))

Result-read :
    {W : Type 0} (d : Drive W) (drive : Bytes) (low : ℕ) (v : Partition)
    (address size cluster offset : ℕ) (w w' : W)
    → Result d drive low v address size cluster offset w (some (true, w'))
    → Follows d drive low v address size cluster offset w w'
Result-read d drive low v address size cluster offset w w' (read f) = f

-- A ReadFile that returns true has put the file at the address: byte j of the sectors of cluster
-- number k of the chain, as the FAT on the drive has it, stands where the file has it, for each
-- byte below the size of the file and each cluster before which the chain does not end, if int
-- 13h loads what it promises and changes nothing behind what it loads, logical and physical
-- sectors have the same size, a multiple of 4 of at most 32 KiB, the array that is read into
-- begins in the first MiB, the destination stands behind the loader's arrays and ends 32 KiB
-- below 4 GiB, and each cluster of the chain, up to its end or its first free entry, has sector
-- numbers that fit 32 bits.
pub read_file-chain :
    {W : Type 0} (d : Drive W) (drive : Bytes) (low q : ℕ) (v : Partition) (entry : FatDirectory)
    (fuel address k j : ℕ) (w w' : W)
    → Ready d drive low
    → d.logical_sector_size ≡ 4 * q
    → 0 < q
    → d.logical_sector_size ≤ 32768
    → low ≤ address
    → address + entry.size + 32768 < u32
    → ((n : ℕ)
        → Reached drive d.logical_sector_size v (get_directory_cluster entry) n
        → first_sector v (chain drive d.logical_sector_size v (get_directory_cluster entry) n)
            + v.sectors_per_cluster
          < u32)
    → read_file d fuel address entry v w ≡ some (true, w')
    → j < v.sectors_per_cluster * d.logical_sector_size
    → k * (v.sectors_per_cluster * d.logical_sector_size) + j < entry.size
    → ((m : ℕ)
        → m ≤ k
        → exceeds_limit
            (chain drive d.logical_sector_size v (get_directory_cluster entry) m)
            (limit_of v.is_fat32)
          ≡ false)
    → d.memory w' (address + (k * (v.sectors_per_cluster * d.logical_sector_size) + j))
      ≡ drive (
          first_sector v (chain drive d.logical_sector_size v (get_directory_cluster entry) k)
            * d.logical_sector_size
          + j)
unfolding read_file
read_file-chain d drive low q v entry fuel address k j w w' h four pos small above fits on_drive e
      inside room goes =
    let result =
      read_clusters-Result d drive low v h q four pos small address entry.size above fits fuel
        (get_directory_cluster entry) 0 w on_drive (omega arith) in
    let follows =
      Result-read d drive low v address entry.size (get_directory_cluster entry) 0 w w' (
        subst (Result d drive low v address entry.size (get_directory_cluster entry) 0 w) e
          result) in
    let place : address + (k * size_of_cluster d drive low v + j)
        ≡ address + (0 + (k * size_of_cluster d drive low v + j)) =
      omega arith in
    ap (d.memory w') place ∙ follows.bytes k j inside (omega (arith, room)) goes
