-- ===== src/Fat/File.antt =====
-- ReadFile (Boot/Legacy/Shared/Disk/Disk.c) follows the cluster chain: the sectors of one cluster.
pub mod Cluster
pub mod Entry
pub mod Chain
pub mod Whole
use native.Mathlib.Nat.{add-mul, mul_comm, le-mul_of_pos_right}
use serra.Base.{
  ℕ, zero, suc, ◌+◌, ◌-◌, ◌*◌, ◌/◌, ◌%◌, ◌^◌, ◌≤◌, ◌<◌, ◌≡◌, refl, sym, ap, ◌∙◌, ◌⊎◌, inl, inr,
  Bool, true, false, not, ltb, leb, ◌==◌, if◌then◌else◌, Option, none, some, arith, Bool-cases,
  if_cases,
}
use serra.Crc.{Bytes}
use serra.Memory.{Memory, Apart, within, copied, copy_up, copy_up-copied}
use serra.Fat.{
  Drive, Partition, Progress, u16, u32, physical_of, read_sector, read_fat_sector,
  sector_read_limit, cluster_offset, read_cluster,
}
use serra.Fat.Sector.{Loads, segment_offset, read_sector-Loads}
use serra.Fat.Ends.{step_size}

-- A drive whose logical and physical sectors have the same size, with the loader's arrays below `low`, the one
-- that is read into in the first MiB, and an int 13h that changes nothing behind a read that ends below `low`.
pub record Ready {W : Type 0} (d : Drive W) (drive : Bytes) (low : ℕ) : Type 0 where
  pub loads : Loads d drive
  pub keeps :
      (segment offset n lba : ℕ) (w : W) (x : ℕ)
      → segment * 16 + offset + n * d.physical_sector_size ≤ low
      → low ≤ x
      → d.memory (d.int13 segment offset n lba w).1 x ≡ d.memory w x
  pub same : d.physical_sector_size ≡ d.logical_sector_size
  pub some_bytes : 0 < d.logical_sector_size
  pub first_mib : d.cache < 2 ^ 20
  pub cache : d.cache + 32768 ≤ low
  pub buffer : d.buffer + d.logical_sector_size ≤ low
  pub apart : Apart d.logical_sector_size d.buffer d.cache

physical_of-same :
    (l n lba : ℕ)
    → physical_of l l n lba ≡ record { num_sectors = n; physical_lba = lba; offset = 0 }
unfolding physical_of
physical_of-same l n lba = let less : ltb l l ≡ false = ground arith in rw less refl

module _ {W : Type 0} (d : Drive W) (drive : Bytes) (low : ℕ) (h : Ready d drive low) where
  -- A read into the cache changes nothing from `low` on.
  pub read_sector-kept :
      (n lba : ℕ) (w : W) (x : ℕ)
      → n * d.physical_sector_size ≤ 32768
      → low ≤ x
      → d.memory (read_sector d n d.cache lba w).1 x ≡ d.memory w x
  unfolding read_sector
  read_sector-kept n lba w x few high =
      h.keeps (d.cache / 16 % u16) (d.cache % 16) n lba w x
        (omega (arith, segment_offset d.cache h.first_mib, h.cache)) high

  plain_read : (n address lba : ℕ) → W → Bool × W
  plain_read n address lba w =
      let (carry, w1) = read_sector d n d.cache lba w in
      (carry, d.store (copy_up (d.logical_sector_size * n) address (d.cache + 0) (d.memory w1)) w1)

  read_fat_sector-plain_read :
      (n address lba : ℕ) (w : W) → read_fat_sector d n address lba w ≡ plain_read n address lba w
  unfolding read_fat_sector plain_read
  read_fat_sector-plain_read n address lba w =
      let physical =
        ap (λ (p : ℕ). physical_of d.logical_sector_size p n lba) h.same
        ∙ physical_of-same d.logical_sector_size n lba in
      rw physical refl

  plain_read-Reads :
      (n address lba : ℕ) (w : W)
      → low ≤ address
      → d.logical_sector_size * n ≤ 32768
      → (plain_read n address lba w).0 ≡ false
      → (x : ℕ) → low ≤ x
      → d.memory (plain_read n address lba w).1 x ≡ (
          if within address (d.logical_sector_size * n) x
          then drive (lba * d.logical_sector_size + (x - address))
          else d.memory w x)
  unfolding plain_read
  plain_read-Reads n address lba w above small ok x high =
      let size = d.logical_sector_size * n in
      let (carry, w1) = read_sector d n d.cache lba w in
      let few : n * d.physical_sector_size ≤ 32768 =
        omega (arith, small, mul_comm n d.logical_sector_size, ap (λ (l : ℕ). n * l) h.same) in
      ap (λ (m : Memory). m x) (h.loads.stores _ w1)
      ∙ copy_up-copied size address (d.cache + 0) (d.memory w1) x (omega (arith, h.cache))
      ∙ elim (Bool-cases (within address size x)) [
        | inl inside ↦
            let here : d.cache + 0 + (x - address) ≡ d.cache + (x - address) = omega arith in
            let below : x - address < size = ground arith in
            let bound : x - address < n * d.physical_sector_size =
              omega
                (arith, below, mul_comm n d.logical_sector_size, ap (λ (l : ℕ). n * l) h.same) in
            let place : lba * d.physical_sector_size + (x - address)
                ≡ lba * d.logical_sector_size + (x - address) =
              omega (arith, ap (λ (l : ℕ). lba * l) h.same) in
            rw inside (
              ap (d.memory w1) here
              ∙ read_sector-Loads d drive n d.cache lba w (x - address) h.loads h.first_mib
                  (omega (arith, few)) ok bound
              ∙ ap drive place)
        | inr outside ↦ rw outside (read_sector-kept n lba w x few high)
      ]

  -- A read of whole sectors to an address from `low` on.
  pub read_fat_sector-Reads :
      (n address lba : ℕ) (w : W)
      → low ≤ address
      → d.logical_sector_size * n ≤ 32768
      → (read_fat_sector d n address lba w).0 ≡ false
      → (x : ℕ) → low ≤ x
      → d.memory (read_fat_sector d n address lba w).1 x ≡ (
          if within address (d.logical_sector_size * n) x
          then drive (lba * d.logical_sector_size + (x - address))
          else d.memory w x)
  read_fat_sector-Reads n address lba w above small ok x high =
      let e = read_fat_sector-plain_read n address lba w in
      ap (λ (r : Bool × W). d.memory r.1 x) e
      ∙ plain_read-Reads n address lba w above small (ap (λ (r : Bool × W). r.0) (sym e) ∙ ok) x
          high
