-- ===== src/Tests/Fat.antt =====
-- Runs of the FAT reader of the legacy loader.
use serra.Base.{
  ℕ, zero, suc, ◌+◌, ◌-◌, ◌*◌, ◌%◌, ◌≤◌, ◌<◌, ◌≡◌, refl, inl, inr, Bool, true, false, Option, none,
  some, ◌==◌, if◌then◌else◌, arith,
}
use serra.Crc.{Bytes}
use serra.Memory.{Memory, copy_up, fill_up, within}
use serra.Fat.{
  Drive, FatDirectory, Partition, u32, get_directory_cluster, cluster_offset, exceeds_limit,
  limit_of, physical_of, read_sector, read_fat_sector, get_fat_entry, resume, read_cluster,
  read_clusters, read_file, fat_directory, same_characters, fat_name_is_equal, scan_entries,
  scan_sectors, null_entry, find_directory,
}
use serra.Fat.Listed.{Listed}
use serra.Fat.Matches.{Matches}
use serra.Fat.Sector.{Loads, Fits, read_fat_sector-bytes}
use serra.Fat.Ends.{read_file_ends}
use serra.Fat.File.{Ready}
use serra.Fat.File.Entry.{entry_byte, fat_entry}
use serra.Fat.File.Chain.{chain, Reached, first_sector}
use serra.Fat.File.Whole.{read_file-chain}

-- The FAT stands in sector 1: cluster 2 leads to cluster 3, which is the last. The clusters stand from
-- sector 2 on, with a pattern in the first two.
abbrev disk_bytes : Bytes
disk_bytes x =
    if x == 516
    then 3
    else if x == 517
    then 0
    else if x == 518
    then 0xff
    else if x == 519
    then 0xff
    else if within 1024 1024 x
    then x % 251
    else 0

-- A drive with physical sectors of the given size, on which every read succeeds.
abbrev drive_of : (physical : ℕ) → 0 < physical → Drive Memory
drive_of physical pos = record {
  memory = λ w. w;
  store = λ m w. m;
  int13 = λ segment offset n lba w. (
    false,
    λ x.
        if within (segment * 16 + offset) (n * physical) x
        then disk_bytes (lba * physical + (x - (segment * 16 + offset)))
        else w x,
  );
  logical_sector_size = 512;
  physical_sector_size = physical;
  some_physical = pos;
  cache = 0x10000;
  buffer = 0x8000;
  cluster_cache = 0x9000;
}

abbrev volume : Partition
volume = record {
  sectors_per_cluster = 1;
  partition_offset = 0;
  fat_offset = 1;
  data_offset = 2;
  is_fat32 = false;
}

abbrev file : FatDirectory
file = record {
  name = λ i. 65;
  extension = λ i. 66;
  attributes = 0;
  cluster_num_high = 0;
  cluster_num_low = 2;
  size = 1000;
}

abbrev memory : Memory
memory x = 0

abbrev drive_512 : Drive Memory
drive_512 = drive_of 512 (omega arith)

abbrev drive_1024 : Drive Memory
drive_1024 = drive_of 1024 (omega arith)

-- What a read leaves in memory, inside and behind it.
read_back :
    (bytes : Bytes) (physical n a lba : ℕ) (w : Memory) (i : ℕ)
    → i < n * physical
    → (if within a (n * physical) (a + i) then bytes (lba * physical + (a + i - a)) else w (a + i))
      ≡ bytes (lba * physical + i)
read_back bytes physical n a lba w i inside =
    let there : within a (n * physical) (a + i) ≡ true = ground arith in
    let same : a + i - a ≡ i = omega arith in rw (there, same) refl

kept_back :
    (bytes : Bytes) (n a lba : ℕ) (w : Memory) (x : ℕ)
    → a + n * 512 ≤ 0x20000
    → 0x20000 ≤ x
    → (if within a (n * 512) x then bytes (lba * 512 + (x - a)) else w x) ≡ w x
kept_back bytes n a lba w x few high =
    let outside : within a (n * 512) x ≡ false = ground arith in rw outside refl

drive_of-Loads : (physical : ℕ) (pos : 0 < physical) → Loads (drive_of physical pos) disk_bytes
drive_of-Loads physical pos = record {
  stores = λ m w. refl;
  loads = λ segment offset n lba w i end ok inside.
      read_back disk_bytes physical n (segment * 16 + offset) lba w i inside;
}

drive-Ready : Ready drive_512 disk_bytes 0x20000
drive-Ready = record {
  loads = drive_of-Loads 512 (omega arith);
  keeps = λ segment offset n lba w x end high.
      kept_back disk_bytes n (segment * 16 + offset) lba w x end high;
  same = refl;
  some_bytes = omega arith;
  first_mib = omega arith;
  cache = omega arith;
  buffer = omega arith;
  apart = inl (omega arith);
}

-- With physical sectors of 1024 bytes, sector 3 is the second half of one.
read_fat_sector-bytes_example :
    (read_fat_sector drive_1024 1 0x30000 3 memory).1 (0x30000 + 5) ≡ disk_bytes (3 * 512 + 5)
unfolding physical_of read_sector read_fat_sector
read_fat_sector-bytes_example =
    read_fat_sector-bytes drive_1024 disk_bytes 1 0x30000 3 memory
      (drive_of-Loads 1024 (omega arith))
      (Fits.large_sectors 2 (omega arith) refl (omega arith) (omega arith) (omega arith))
      (inr (omega arith)) (omega arith) (omega arith) refl 5 (omega arith)

read_file_ends_example :
    (r : Bool × Memory) × (read_file drive_512 1001 0x30000 file volume memory ≡ some r)
read_file_ends_example =
    read_file_ends drive_512 volume file 1001 0x30000 memory (omega arith) (omega arith)
      (omega arith) (omega arith) (omega arith)

on_drive :
    (k : ℕ)
    → Reached disk_bytes 512 volume (get_directory_cluster file) k
    → first_sector volume (chain disk_bytes 512 volume (get_directory_cluster file) k) + 1 < u32
unfolding chain fat_entry entry_byte first_sector cluster_offset get_directory_cluster
on_drive zero r = omega arith
on_drive (suc zero) r = omega arith
on_drive (suc (suc k)) r =
    let end : true ≡ false = (r 2 (omega arith)).0 in absurd (ground (arith, end))

abbrev after_file : Memory
after_file = after (read_file drive_512 1001 0x30000 file volume memory)
  where
    after : Option (Bool × Memory) → Memory
    after (some (ok, w)) = w
    after none = memory

read_file_run : read_file drive_512 1001 0x30000 file volume memory ≡ some (true, after_file)
unfolding read_sector read_file get_directory_cluster read_clusters resume read_cluster
    read_fat_sector physical_of cluster_offset get_fat_entry copy_up fill_up
read_file_run = refl

goes_on :
    (m : ℕ)
    → m ≤ 1
    → exceeds_limit (chain disk_bytes 512 volume (get_directory_cluster file) m) (limit_of false)
      ≡ false
unfolding chain fat_entry entry_byte get_directory_cluster
goes_on zero h = refl
goes_on (suc zero) h = refl
goes_on (suc (suc m)) h = absurd (omega (arith, h))

-- Byte 612 of the file stands in its second cluster.
read_file-chain_example : after_file (0x30000 + (1 * (1 * 512) + 100)) ≡ disk_bytes (3 * 512 + 100)
unfolding chain fat_entry entry_byte get_directory_cluster first_sector cluster_offset
read_file-chain_example =
    read_file-chain drive_512 disk_bytes 0x20000 128 volume file 1001 0x30000 1 100 memory
      after_file drive-Ready refl (omega arith) (omega arith) (omega arith) (omega arith) on_drive
      read_file_run (omega arith) (omega arith) goes_on

-- A folder in cluster 2, with one entry that is not in use any more and behind it the file AAAAAAAA.BBB.
abbrev folder_bytes : Bytes
folder_bytes x =
    if within 1024 32 x
    then 0xe5
    else if within 1056 8 x
    then 65
    else if within 1064 3 x
    then 66
    else if x == 1082
    then 9
    else if x == 1085
    then 4
    else 0

abbrev folder_drive : Drive Memory
folder_drive = record drive_512 {
  int13 = λ segment offset n lba w. (
    false,
    λ x.
        if within (segment * 16 + offset) (n * 512) x
        then folder_bytes (lba * 512 + (x - (segment * 16 + offset)))
        else w x,
  );
}

abbrev result : FatDirectory × Memory
result = found (find_directory folder_drive 1 2 (λ i. 65) (λ i. 66) false volume memory)
  where
    found : Option (FatDirectory × Memory) → FatDirectory × Memory
    found (some r) = r
    found none = (null_entry, memory)

find_directory_run : result.0.size ≡ 1024
unfolding read_sector find_directory scan_sectors scan_entries read_fat_sector physical_of
    cluster_offset get_fat_entry copy_up fill_up fat_directory fat_name_is_equal same_characters
find_directory_run = refl
