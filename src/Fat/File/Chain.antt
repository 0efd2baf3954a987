-- ===== src/Fat/File/Chain.antt =====
-- ReadFile (Boot/Legacy/Shared/Disk/Disk.c) and the cluster chain of a file.
use native.Mathlib.Nat.{suc-mul}
use serra.Base.{
  ℕ, zero, suc, ◌+◌, ◌-◌, ◌*◌, ◌≤◌, ◌<◌, ◌≡◌, ◌≢◌, refl, sym, ap, ◌∙◌, Bool, true, false, Option,
  none, some, arith,
}
use mathlib.Core.Path.{subst}
use serra.Crc.{Bytes}
use serra.Fat.{Drive, Partition, Progress, exceeds_limit, limit_of, resume, cluster_offset}
use serra.Fat.File.Cluster.{Filled, Good, unfinished, failed, complete, next}
use serra.Fat.File.Entry.{fat_entry}

-- The clusters of a chain, by the FAT on the drive.
unfoldable pub chain : Bytes → (sector_size : ℕ) → Partition → ℕ → ℕ → ℕ
chain drive l v cluster zero = cluster
chain drive l v cluster (suc k) = chain drive l v (fat_entry drive l v cluster) k

-- The chain has not ended before or at its cluster number `n`, and no entry on the way is 0.
abbrev pub Reached : Bytes → (sector_size : ℕ) → Partition → ℕ → ℕ → Type 0
Reached drive l v cluster n =
    (m : ℕ)
    → m ≤ n
    → (exceeds_limit (chain drive l v cluster m) (limit_of v.is_fat32) ≡ false)
      × (0 < m → chain drive l v cluster m ≢ 0)

pub Reached-start :
    (drive : Bytes) (l : ℕ) (v : Partition) (cluster : ℕ)
    → exceeds_limit cluster (limit_of v.is_fat32) ≡ false
    → Reached drive l v cluster 0
unfolding chain
Reached-start drive l v cluster more zero h = (more, λ p. absurd (omega arith))
Reached-start drive l v cluster more (suc m) h = absurd (omega arith)

pub Reached-next :
    (drive : Bytes) (l : ℕ) (v : Partition) (cluster n : ℕ)
    → exceeds_limit cluster (limit_of v.is_fat32) ≡ false
    → fat_entry drive l v cluster ≢ 0
    → Reached drive l v (fat_entry drive l v cluster) n
    → Reached drive l v cluster (suc n)
unfolding chain
Reached-next drive l v cluster n more used r zero h = (more, λ p. absurd (omega arith))
Reached-next drive l v cluster n more used r (suc zero) h = ((r 0 (omega arith)).0, λ p. used)
Reached-next drive l v cluster n more used r (suc (suc m)) h =
    let (goes, nonzero) = r (suc m) (omega arith) in (goes, λ p. nonzero (omega arith))

-- The first sector of a cluster.
unfoldable pub first_sector : Partition → ℕ → ℕ
first_sector v cluster = v.partition_offset + v.data_offset + cluster_offset cluster v

module _ {W : Type 0} (d : Drive W) (drive : Bytes) (low : ℕ) (v : Partition) where
  abbrev pub size_of_cluster : ℕ
  size_of_cluster = v.sectors_per_cluster * d.logical_sector_size

  abbrev pub cluster_at : ℕ → ℕ → ℕ
  cluster_at cluster k = chain drive d.logical_sector_size v cluster k

  -- The rest of a file of `size` bytes, from `offset` on, is at its address as far as the chain goes.
  pub record Follows (address size cluster offset : ℕ) (w w' : W) : Type 0 where
    pub bytes :
        (k j : ℕ)
        → j < size_of_cluster
        → offset + (k * size_of_cluster + j) < size
        → ((m : ℕ) → m ≤ k → exceeds_limit (cluster_at cluster m) (limit_of v.is_fat32) ≡ false)
        → d.memory w' (address + (offset + (k * size_of_cluster + j)))
          ≡ drive (first_sector v (cluster_at cluster k) * d.logical_sector_size + j)
    pub kept : (x : ℕ) → low ≤ x → x < address + offset → d.memory w' x ≡ d.memory w x

  pub data Result (address size cluster offset : ℕ) (w : W) : Option (Bool × W) → Type 0 where
    endless : Result address size cluster offset w none
    broken : {w' : W} → Result address size cluster offset w (some (false, w'))
    read :
        {w' : W}
        → Follows address size cluster offset w w'
        → Result address size cluster offset w (some (true, w'))

  pub at_end :
      (address size cluster offset : ℕ) (w : W)
      → exceeds_limit cluster (limit_of v.is_fat32) ≡ true
      → Follows address size cluster offset w w
  unfolding chain
  at_end address size cluster offset w end = record {
    bytes = λ k j inside room goes.
        let here : exceeds_limit cluster (limit_of v.is_fat32) ≡ false = goes 0 (omega arith) in
        let clash : true ≡ false = sym end ∙ here in absurd (ground arith);
    kept = λ x high before. refl;
  }

  last_cluster :
      (address size cluster offset : ℕ) (w w' : W)
      → size ≤ offset + size_of_cluster
      → Filled d drive low v
          (address + offset)
          (size - offset)
          (first_sector v cluster)
          v.sectors_per_cluster
          w
          w'
      → Follows address size cluster offset w w'
  unfolding chain
  last_cluster address size cluster offset w w' end f = record { bytes = here; kept = f.kept }
    where
      here :
          (k j : ℕ)
          → j < size_of_cluster
          → offset + (k * size_of_cluster + j) < size
          → ((m : ℕ) → m ≤ k → exceeds_limit (cluster_at cluster m) (limit_of v.is_fat32) ≡ false)
          → d.memory w' (address + (offset + (k * size_of_cluster + j)))
            ≡ drive (first_sector v (cluster_at cluster k) * d.logical_sector_size + j)
      here zero j inside room goes =
          let place : address + (offset + (0 * size_of_cluster + j)) ≡ address + offset + j =
            omega arith in
          ap (d.memory w') place ∙ f.bytes j inside (omega arith)
      here (suc k) j inside room goes = absurd (omega (arith, end, room, suc-mul k size_of_cluster))

  further :
      (address size cluster offset : ℕ) (w w1 w2 w' : W)
      → ((x : ℕ) → low ≤ x → d.memory w2 x ≡ d.memory w1 x)
      → low ≤ address
      → Filled d drive low v
          (address + offset)
          (size - offset)
          (first_sector v cluster)
          v.sectors_per_cluster
          w
          w1
      → Follows address size
          (fat_entry drive d.logical_sector_size v cluster)
          (offset + size_of_cluster)
          w2
          w'
      → Follows address size cluster offset w w'
  unfolding chain
  further address size cluster offset w w1 w2 w' same above f later = record {
    bytes = here;
    kept = λ x high before. later.kept x high (omega arith) ∙ same x high ∙ f.kept x high before;
  }
    where
      here :
          (k j : ℕ)
          → j < size_of_cluster
          → offset + (k * size_of_cluster + j) < size
          → ((m : ℕ) → m ≤ k → exceeds_limit (cluster_at cluster m) (limit_of v.is_fat32) ≡ false)
          → d.memory w' (address + (offset + (k * size_of_cluster + j)))
            ≡ drive (first_sector v (cluster_at cluster k) * d.logical_sector_size + j)
      here zero j inside room goes =
          let place : address + (offset + (0 * size_of_cluster + j)) ≡ address + offset + j =
            omega arith in
          ap (d.memory w') place
          ∙ later.kept (address + offset + j) (omega arith) (omega arith)
          ∙ same (address + offset + j) (omega arith)
          ∙ f.bytes j inside (omega arith)
      here (suc k) j inside room goes =
          let place : address + (offset + (suc k * size_of_cluster + j))
              ≡ address + (offset + size_of_cluster + (k * size_of_cluster + j)) =
            omega (arith, suc-mul k size_of_cluster) in
          ap (d.memory w') place
          ∙ later.bytes k j inside (omega (arith, room, suc-mul k size_of_cluster))
              (λ m le. goes (suc m) (omega arith))

  pub resume-Result :
      (address size cluster offset : ℕ) (w : W) (o : Option (Progress × W))
      (k : ℕ → W → Option (Bool × W))
      → Good d drive low v
          (address + offset)
          offset
          size
          (first_sector v cluster)
          v.sectors_per_cluster
          w
          o
      → ((w1 : W)
          → offset + size_of_cluster ≤ size
          → Filled d drive low v
              (address + offset)
              (size - offset)
              (first_sector v cluster)
              v.sectors_per_cluster
              w
              w1
          → Result address size cluster offset w (k (offset + size_of_cluster) w1))
      → Result address size cluster offset w (resume o k)
  unfolding resume
  resume-Result address size cluster offset w o k unfinished h = endless
  resume-Result address size cluster offset w o k failed h = broken
  resume-Result address size cluster offset w o k (complete {w'} end f) h =
      read (last_cluster address size cluster offset w w' end f)
  resume-Result address size cluster offset w o k (next {w'} e below f) h =
      subst (λ (n : ℕ). Result address size cluster offset w (k n w')) (sym e)
        (h w' (subst (λ (n : ℕ). n ≤ size) e below) f)

  pub further-Result :
      (address size cluster offset : ℕ) (w w1 w2 : W) (o : Option (Bool × W))
      → ((x : ℕ) → low ≤ x → d.memory w2 x ≡ d.memory w1 x)
      → low ≤ address
      → Filled d drive low v
          (address + offset)
          (size - offset)
          (first_sector v cluster)
          v.sectors_per_cluster
          w
          w1
      → Result address size
          (fat_entry drive d.logical_sector_size v cluster)
          (offset + size_of_cluster)
          w2
          o
      → Result address size cluster offset w o
  further-Result address size cluster offset w w1 w2 o same above f endless = endless
  further-Result address size cluster offset w w1 w2 o same above f broken = broken
  further-Result address size cluster offset w w1 w2 o same above f (read {w'} later) =
      read (further address size cluster offset w w1 w2 w' same above f later)
