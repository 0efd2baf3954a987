-- ===== src/Fat/Listed.antt =====
-- An entry of a folder, as it stands on the drive (Boot/Legacy/Shared/Disk/Disk.c, Disk.h).
use serra.Base.{ℕ, zero, suc, ◌+◌, ◌*◌, ◌/◌, ◌%◌, ◌≤◌, ◌<◌, ◌≡◌, refl, sym, ap, ◌∙◌, arith}
use serra.Crc.{Bytes}
use serra.Memory.{Memory}
use serra.Fs.Layout.{le16, le32}
use serra.Fat.{FatDirectory, Partition, u32, fat_directory, cluster_offset}
use serra.Fat.File.Entry.{fat_entry, le16_at, le32_at}
use serra.Fat.File.Chain.{chain}

-- The 32 bytes from an offset in a sector on are the entry.
pub record Stands (drive : Bytes) (sector o : ℕ) (entry : FatDirectory) : Type 0 where
  pub name : (i : ℕ) → i < 8 → entry.name i ≡ drive (sector + (o + i))
  pub extension : (i : ℕ) → i < 3 → entry.extension i ≡ drive (sector + (o + 8 + i))
  pub attributes : entry.attributes ≡ drive (sector + (o + 11))
  pub cluster_num_high : entry.cluster_num_high ≡ le16 drive (sector + (o + 20))
  pub cluster_num_low : entry.cluster_num_low ≡ le16 drive (sector + (o + 26))
  pub size : entry.size ≡ le32 drive (sector + (o + 28))

-- A copy of the sector in memory has the entry.
pub fat_directory-Stands :
    (m : Memory) (drive : Bytes) (a sector l o : ℕ)
    → ((i : ℕ) → i < l → m (a + i) ≡ drive (sector + i))
    → o + 32 ≤ l
    → Stands drive sector o (fat_directory m (a + o))
unfolding fat_directory
fat_directory-Stands m drive a sector l o same inside = record {
  name = λ i h. ap m (omega arith) ∙ same (o + i) (omega arith);
  extension = λ i h. ap m (omega arith) ∙ same (o + 8 + i) (omega arith);
  attributes = ap m (omega arith) ∙ same (o + 11) (omega arith);
  cluster_num_high =
      ap (le16 m) (omega arith) ∙ le16_at m drive a sector l (o + 20) same (omega arith);
  cluster_num_low =
      ap (le16 m) (omega arith) ∙ le16_at m drive a sector l (o + 26) same (omega arith);
  size = ap (le32 m) (omega arith) ∙ le32_at m drive a sector l (o + 28) same (omega arith);
}

-- The entry stands in a sector of a cluster of the chain of a folder.
pub record Listed (drive : Bytes) (l : ℕ) (v : Partition) (start : ℕ) (entry : FatDirectory)
    : Type 0 where
  pub link : ℕ
  pub sector : ℕ
  pub index : ℕ
  pub in_cluster : sector < v.sectors_per_cluster
  pub in_sector : index < l / 32
  pub stands :
      Stands drive
        ((v.partition_offset
            + v.data_offset
            + cluster_offset (chain drive l v start link) v
            + sector)
          % u32
          * l)
        (index * 32)
        entry

-- A chain from inside a chain is a part of it.
chain-chain :
    (drive : Bytes) (l : ℕ) (v : Partition) (start k j : ℕ)
    → (n : ℕ) × (chain drive l v (chain drive l v start k) j ≡ chain drive l v start n)
unfolding chain
chain-chain drive l v start zero j = (j, refl)
chain-chain drive l v start (suc k) j =
    let (n, e) = chain-chain drive l v (fat_entry drive l v start) k j in (suc n, e)

pub Listed-chain :
    (drive : Bytes) (l : ℕ) (v : Partition) (start k : ℕ) (entry : FatDirectory)
    → Listed drive l v (chain drive l v start k) entry
    → Listed drive l v start entry
Listed-chain drive l v start k entry listed =
    let (n, e) = chain-chain drive l v start k listed.link in
    record {
      link = n;
      sector = listed.sector;
      index = listed.index;
      in_cluster = listed.in_cluster;
      in_sector = listed.in_sector;
      stands = rw (sym e) listed.stands;
    }
