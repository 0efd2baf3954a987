-- ===== src/Fat/Find.antt =====
-- FindDirectory (Boot/Legacy/Shared/Disk/Disk.c): what is found.
use serra.Base.{ℕ, ◌+◌, ◌*◌, ◌/◌, ◌%◌, ◌≤◌, ◌<◌, ◌≡◌, Bool, Option, none, some}
use serra.Crc.{Bytes}
use serra.Memory.{Memory, Apart}
use serra.Fat.{Drive, FatDirectory, Partition, u32, fat_directory, null_entry}
use serra.Fat.File.{Ready}
use serra.Fat.File.Entry.{Answers}
use serra.Fat.File.Chain.{chain}
use serra.Fat.Listed.{Stands, Listed}
use serra.Fat.Matches.{Matches}

-- Nothing, or an entry of the sector in memory that matches.
data Found (name extension : Bytes) (is_folder : Bool) (m : Memory) (place limit : ℕ)
    : Option FatDirectory → Type 0 where
  nothing : Found name extension is_folder m place limit none
  entry_of :
      (j : ℕ)
      → j < limit
      → Matches name extension is_folder (fat_directory m (place + j * 32))
      → Found name extension is_folder m place limit (some (fat_directory m (place + j * 32)))

module _ {W : Type 0} (d : Drive W) (name extension : Bytes) (is_folder : Bool) where
  module _ (drive : Bytes) (low q : ℕ) (h : Ready d drive low)
      (four : d.logical_sector_size ≡ 4 * q) (pos : 0 < q) (small : d.logical_sector_size ≤ 32768)
      (apart : Apart d.logical_sector_size d.cluster_cache d.cache) (answers : Answers d)
      (v : Partition) where
    sector_at : (offset sector : ℕ) → ℕ
    sector_at offset sector =
        (v.partition_offset + v.data_offset + offset + sector) % u32 * d.logical_sector_size

    -- The result of the loop over the sectors of a cluster, from `current` in the chain on.
    data Scanned (offset current : ℕ) : Option FatDirectory → ℕ → Type 0 where
      passed : (k : ℕ) → Scanned offset current none (chain drive d.logical_sector_size v current k)
      hit :
          {entry : FatDirectory} {c : ℕ} (sector index : ℕ)
          → sector < v.sectors_per_cluster
          → index < d.logical_sector_size / 32
          → Stands drive (sector_at offset sector) (index * 32) entry
          → Matches name extension is_folder entry
          → Scanned offset current (some entry) c

    -- An entry of the folder that matches, or the null entry.
    data Outcome (start : ℕ) : Option (FatDirectory × W) → Type 0 where
      endless : Outcome start none
      absent : {w : W} → Outcome start (some (null_entry, w))
      present :
          {entry : FatDirectory} {w : W}
          → Matches name extension is_folder entry
          → Listed drive d.logical_sector_size v start entry
          → Outcome start (some (entry, w))
