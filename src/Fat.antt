-- ===== src/Fat.antt =====
-- Boot/Legacy/Shared/Disk/Disk.c and Disk.h: the FAT reader of the legacy loader.
-- Memcpy and Memset of Boot/Legacy/Shared/Memory/Memory.c copy and fill one byte at a time, upwards.
pub mod Sector
pub mod Ends
pub mod File
pub mod Listed
pub mod Matches
pub mod Find
use serra.Base.{
  ℕ, zero, suc, ◌+◌, ◌-◌, ◌*◌, ◌/◌, ◌%◌, ◌^◌, ◌<◌, Bool, true, false, not, ltb, leb, ◌==◌,
  if◌then◌else◌, Option, none, some,
}
use serra.Crc.{Bytes}
use serra.Memory.{Memory, copy_up, fill_up}
use serra.Fs.Layout.{le16, le32}

abbrev pub u16 : ℕ
u16 = 2 ^ 16

abbrev pub u32 : ℕ
u32 = 2 ^ 32

-- The memory, the BIOS function int 13h with ah = 42h (for the segment, the offset, the number of sectors and
-- the LBA of the disk address packet; it returns whether the carry flag is set), `LogicalSectorSize` and
-- `PhysicalSectorSize`, and where the arrays `Cache`, `Buffer` and `ClusterCache` stand on the stack. A
-- physical sector has at least one byte.
pub record Drive (W : Type 0) : Type 0 where
  pub memory : W → Memory
  pub store : Memory → W → W
  pub int13 : ℕ → ℕ → ℕ → ℕ → W → Bool × W
  pub logical_sector_size : ℕ
  pub physical_sector_size : ℕ
  pub some_physical : 0 < physical_sector_size
  pub cache : ℕ
  pub buffer : ℕ
  pub cluster_cache : ℕ

-- `fatDirectory`, as far as it is read.
pub record FatDirectory : Type 0 where
  pub name : Bytes
  pub extension : Bytes
  pub attributes : ℕ
  pub cluster_num_high : ℕ
  pub cluster_num_low : ℕ
  pub size : ℕ

unfoldable pub fat_directory : Memory → ℕ → FatDirectory
fat_directory m a = record {
  name = λ i. m (a + i);
  extension = λ i. m (a + 8 + i);
  attributes = m (a + 11);
  cluster_num_high = le16 m (a + 20);
  cluster_num_low = le16 m (a + 26);
  size = le32 m (a + 28);
}

-- The physical sectors of a read: `NumSectors`, `PhysicalLba` and `Offset`. The number of logical sectors
-- is not 0, and both sector sizes are powers of two.
pub record Physical : Type 0 where
  pub num_sectors : ℕ
  pub physical_lba : ℕ
  pub offset : ℕ

unfoldable pub physical_of : (logical physical num_blocks lba : ℕ) → Physical
physical_of logical physical n lba =
    if ltb physical logical
    then record {
      num_sectors = n * (logical / physical) % u16;
      physical_lba = lba * (logical / physical) % u32;
      offset = 0;
    }
    else if ltb logical physical
    then record {
      num_sectors = (n - 1) / (physical / logical) + 1;
      physical_lba = lba / (physical / logical);
      offset = lba % (physical / logical) * logical % u16;
    }
    else record { num_sectors = n; physical_lba = lba; offset = 0 }

-- `FatNameIsEqual`, with the loops over the characters of the name and of the extension.
unfoldable pub same_characters : (rounds index : ℕ) → Bytes → Bytes → Bool
same_characters zero index a b = true
same_characters (suc n) index a b =
    let rest = same_characters n (index + 1) a b in if not (a index == b index) then false else rest

unfoldable pub fat_name_is_equal :
    (entry_name entry_extension name extension : Bytes) (is_folder : Bool) → Bool
fat_name_is_equal entry_name entry_extension name extension is_folder =
    if not (same_characters 8 0 entry_name name)
    then false
    else if is_folder
    then true
    else same_characters 3 0 entry_extension extension

abbrev pub limit_of : Bool → ℕ
limit_of is_fat32 = if is_fat32 then 0xfff_fff6 else 0xfff6

-- `ExceedsLimit`.
abbrev pub exceeds_limit : ℕ → ℕ → Bool
exceeds_limit cluster limit = leb limit (cluster % 2 ^ 28)

-- Where the partition, its FAT and its data start, and the kind and cluster size of the file system.
pub record Partition : Type 0 where
  pub sectors_per_cluster : ℕ
  pub partition_offset : ℕ
  pub fat_offset : ℕ
  pub data_offset : ℕ
  pub is_fat32 : Bool

-- What the loop over the sectors of a cluster leads to: the end of the function, or the next cluster.
pub data Progress : Type 0 where
  finished : Bool → Progress
  going : ℕ → Progress

-- What is done after that loop: the end of the function, or what `k` does with the offset.
unfoldable pub resume :
    {W : Type 0} → Option (Progress × W) → (ℕ → W → Option (Bool × W)) → Option (Bool × W)
resume none k = none
resume (some (finished status, w)) k = some (status, w)
resume (some (going offset, w)) k = k offset w

-- `GetDirectoryCluster`, cut to 32 bits.
unfoldable pub get_directory_cluster : FatDirectory → ℕ
get_directory_cluster entry = (entry.cluster_num_high * 2 ^ 16 + entry.cluster_num_low) % u32

-- `((CurrentCluster - 2) * SectorsPerCluster)`.
unfoldable pub cluster_offset : ℕ → Partition → ℕ
cluster_offset cluster v = (cluster + u32 - 2) % u32 * v.sectors_per_cluster % u32

unfoldable pub null_entry : FatDirectory
null_entry = record {
  name = λ _. 0;
  extension = λ _. 0;
  attributes = 0;
  cluster_num_high = 0xffff;
  cluster_num_low = 0xffff;
  size = 0;
}

module _ {W : Type 0} (d : Drive W) where
  -- ReadSector: the segment of the packet has 16 bits.
  unfoldable pub read_sector : (num_blocks address lba : ℕ) → W → Bool × W
  read_sector n address lba w = d.int13 (address / 16 % u16) (address % 16) n lba w

  -- The result is whether the carry flag is set; the bytes are copied in any case.
  unfoldable pub read_fat_sector : (num_blocks address lba : ℕ) → W → Bool × W
  read_fat_sector n address lba w =
      let p = physical_of d.logical_sector_size d.physical_sector_size n lba in
      let (carry, w1) = read_sector p.num_sectors d.cache p.physical_lba w in
      let size = d.logical_sector_size * n in
      (carry, d.store (copy_up size address (d.cache + p.offset) (d.memory w1)) w1)

  unfoldable pub get_fat_entry : (cluster_num : ℕ) → Partition → W → ℕ × W
  get_fat_entry cluster_num v w =
      let cluster = if v.is_fat32 then cluster_num * 2 % u32 else cluster_num in
      let byte = cluster * 2 % u32 in
      let sector = (v.partition_offset + v.fat_offset + byte / d.logical_sector_size) % u32 in
      let entry = d.buffer + byte % d.logical_sector_size in
      let w1 = d.store (fill_up d.logical_sector_size d.buffer 0 (d.memory w)) w in
      let (carry, w2) = read_fat_sector 1 d.buffer sector w1 in
      if carry
      then (0, w2)
      else ((if v.is_fat32 then le32 (d.memory w2) entry else le16 (d.memory w2) entry), w2)

  -- The loop over the entries of a sector: the one that is looked for.
  unfoldable pub scan_entries :
      (rounds entry_num : ℕ) (name extension : Bytes) (is_folder : Bool)
      → Memory
      → Option FatDirectory
  scan_entries zero entry_num name extension is_folder m = none
  scan_entries (suc n) entry_num name extension is_folder m =
      let rest = scan_entries n (entry_num + 1) name extension is_folder m in
      let entry = fat_directory m (d.cluster_cache + entry_num * 32) in
      let entry_is_folder = not (entry.attributes / 2 ^ 4 % 2 == 0) in
      if entry.name 0 == 0
      then none
      else if entry.attributes % 16 == 15
      then rest
      else if (if entry_is_folder then not is_folder else is_folder)
      then rest
      else if fat_name_is_equal entry.name entry.extension name extension is_folder
      then some entry
      else rest

  -- The loop over the sectors of a cluster, which goes on in the chain after each sector.
  unfoldable pub scan_sectors :
      (rounds sector_num offset current : ℕ) (name extension : Bytes) (is_folder : Bool)
      → Partition
      → W
      → Option FatDirectory × ℕ × W
  scan_sectors zero sector_num offset current name extension is_folder v w = (none, current, w)
  scan_sectors (suc n) sector_num offset current name extension is_folder v w =
      let lba = (v.partition_offset + v.data_offset + offset + sector_num) % u32 in
      let (carry, w1) = read_fat_sector 1 d.cluster_cache lba w in
      let found =
        scan_entries (d.logical_sector_size / 32) 0 name extension is_folder (d.memory w1) in
      let (next, w2) = get_fat_entry current v w1 in
      let rest = scan_sectors n (sector_num + 1) offset next name extension is_folder v w2 in
      elim found [ none ↦ rest | some entry ↦ (some entry, current, w1) ]

  -- The loop over the clusters is recursive on fuel, with no result when it runs out.
  unfoldable pub find_directory :
      (fuel cluster_num : ℕ) (name extension : Bytes) (is_folder : Bool)
      → Partition
      → W
      → Option (FatDirectory × W)
  find_directory zero cluster name extension is_folder v w = none
  find_directory (suc fuel) cluster name extension is_folder v w =
      let (found, next, w1) =
        scan_sectors v.sectors_per_cluster 0 (cluster_offset cluster v) cluster name extension
          is_folder v w in
      let rest = find_directory fuel next name extension is_folder v w1 in
      elim found [
        | some entry ↦ some (entry, w1)
        | none ↦ if exceeds_limit next (limit_of v.is_fat32) then some (null_entry, w1) else rest
      ]

  -- `SectorReadLimit`.
  abbrev pub sector_read_limit : ℕ
  sector_read_limit = 32768 / d.logical_sector_size % 2 ^ 8

  -- The loop of ReadFile over the sectors of a cluster, whose offset is `start`.
  unfoldable pub read_cluster :
      (fuel address size start sector_num offset : ℕ) → Partition → W → Option (Progress × W)
  read_cluster zero address size start sector_num offset v w =
      if ltb sector_num v.sectors_per_cluster then none else some (going offset, w)
  read_cluster (suc fuel) address size start sector_num offset v w =
      let left = v.sectors_per_cluster - sector_num in
      let n = if ltb left sector_read_limit then left else sector_read_limit in
      let lba = (v.partition_offset + v.data_offset + start + sector_num) % u32 in
      let (carry, w1) = read_fat_sector n ((address + offset) % u32) lba w in
      let offset' = (offset + d.logical_sector_size * n) % u32 in
      let rest = read_cluster fuel address size start (sector_num + n) offset' v w1 in
      if not (ltb sector_num v.sectors_per_cluster)
      then some (going offset, w)
      else if carry
      then some (finished false, w1)
      else if leb size offset'
      then some (finished true, w1)
      else rest

  -- The loop of ReadFile over the clusters, on fuel.
  unfoldable pub read_clusters :
      (fuel address size cluster offset : ℕ) → Partition → W → Option (Bool × W)
  read_clusters zero address size cluster offset v w = none
  read_clusters (suc fuel) address size cluster offset v w =
      let inner =
        read_cluster v.sectors_per_cluster address size (cluster_offset cluster v) 0 offset v w in
      if exceeds_limit cluster (limit_of v.is_fat32)
      then some (true, w)
      else resume inner (λ offset' w1.
        let (next, w2) = get_fat_entry cluster v w1 in
        if next == 0 then some (false, w2) else read_clusters fuel address size next offset' v w2)

  unfoldable pub read_file : (fuel address : ℕ) → FatDirectory → Partition → W → Option (Bool × W)
  read_file fuel address entry v w =
      read_clusters fuel address entry.size (get_directory_cluster entry) 0 v w
