-- ===== src/Fat/File/Entry.antt =====
-- GetFatEntry (Boot/Legacy/Shared/Disk/Disk.c) and the entries of the FAT on the drive.
use native.Mathlib.Nat.{mul_comm, mul_assoc, div-add-mod', mod-lt}
use serra.Base.{
  ℕ, ◌+◌, ◌*◌, ◌/◌, ◌%◌, ◌≤◌, ◌<◌, ◌≡◌, refl, sym, ap, ◌∙◌, ◌⊎◌, inl, inr, Bool, true, false,
  if◌then◌else◌, arith, Bool-cases, if_intro,
}
use serra.Crc.{Bytes}
use serra.Memory.{Memory, Apart, within, fill_up, copy_up-copied, fill_up-filled}
use serra.Fs.Layout.{le16, le32}
use serra.Fat.{
  Drive, Partition, u32, Physical, physical_of, read_sector, read_fat_sector, get_fat_entry,
}
use serra.Fat.Sector.{Fits, read_fat_sector-bytes}
use serra.Fat.File.{
  Ready, physical_of-same, read_sector-kept, plain_read, read_fat_sector-plain_read,
}

-- The entry of a cluster as it stands on the drive.
unfoldable pub entry_byte : Partition → ℕ → ℕ
entry_byte v cluster = (if v.is_fat32 then cluster * 2 % u32 else cluster) * 2 % u32

unfoldable pub fat_entry : Bytes → (sector_size : ℕ) → Partition → ℕ → ℕ
fat_entry drive l v cluster =
    let byte = entry_byte v cluster in
    let place = (v.partition_offset + v.fat_offset + byte / l) % u32 * l + byte % l in
    if v.is_fat32 then le32 drive place else le16 drive place

-- The entries do not cross the end of a sector.
entry_byte-inside :
    (v : Partition) (cluster l q : ℕ)
    → l ≡ 4 * q
    → 0 < q
    → (entry_byte v cluster % l + 1 < l) × (v.is_fat32 ≡ true → entry_byte v cluster % l + 3 < l)
unfolding entry_byte
entry_byte-inside v cluster l q e pos =
    let byte = entry_byte v cluster in
    let some_bytes : 0 < l = omega arith in
    let part = div-add-mod' byte l in
    let less : byte % l < l = mod-lt byte some_bytes in
    let quarters : byte / l * l ≡ 4 * (byte / l * q) =
      ap (λ (k : ℕ). byte / l * k) e
      ∙ omega (arith, mul_assoc (byte / l) 4 q, mul_comm (byte / l) 4, mul_assoc 4 (byte / l) q) in
    let even : byte % 2 ≡ 0 = ground arith in
    (omega arith, λ wide. let four : byte % 4 ≡ 0 = ground (arith, wide) in omega arith)

by_kind :
    (kind : Bool) (a b a' b' : ℕ)
    → a ≡ a'
    → (kind ≡ true → b ≡ b')
    → (if kind then b else a) ≡ (if kind then b' else a')
by_kind true a b a' b' e f = f refl
by_kind false a b a' b' e f = e

le16-same : (m n : Bytes) (a b : ℕ) → m a ≡ n b → m (a + 1) ≡ n (b + 1) → le16 m a ≡ le16 n b
le16-same m n a b e f = omega (arith, e, f)

pub le16_at :
    (m drive : Bytes) (a b l r : ℕ)
    → ((i : ℕ) → i < l → m (a + i) ≡ drive (b + i))
    → r + 1 < l
    → le16 m (a + r) ≡ le16 drive (b + r)
le16_at m drive a b l r same inside =
    let next : a + r + 1 ≡ a + (r + 1) = omega arith in
    let next' : b + r + 1 ≡ b + (r + 1) = omega arith in
    le16-same m drive (a + r) (b + r) (same r (omega arith))
      (ap m next ∙ same (r + 1) inside ∙ ap drive (sym next'))

pub le32_at :
    (m drive : Bytes) (a b l r : ℕ)
    → ((i : ℕ) → i < l → m (a + i) ≡ drive (b + i))
    → r + 3 < l
    → le32 m (a + r) ≡ le32 drive (b + r)
le32_at m drive a b l r same inside =
    let next : a + r + 2 ≡ a + (r + 2) = omega arith in
    let next' : b + r + 2 ≡ b + (r + 2) = omega arith in
    let low = le16_at m drive a b l r same (omega arith) in
    let high =
      ap (le16 m) next
      ∙ le16_at m drive a b l (r + 2) same (omega arith)
      ∙ ap (le16 drive) (sym next') in
    omega (arith, low, high)

-- No call of int 13h sets the carry flag.
abbrev pub Answers : {W : Type 0} → Drive W → Type 0
Answers {W} d = (segment offset n lba : ℕ) (w : W) → (d.int13 segment offset n lba w).0 ≡ false

pub read_fat_sector-answered :
    {W : Type 0} (d : Drive W)
    → Answers d
    → (n address lba : ℕ) (w : W) → (read_fat_sector d n address lba w).0 ≡ false
unfolding read_fat_sector read_sector
read_fat_sector-answered d answers n address lba w = answers _ _ _ _ w

module _ {W : Type 0} (d : Drive W) (drive : Bytes) (low : ℕ) (h : Ready d drive low) where
  -- A read into an array below `low` changes nothing from there on.
  read_fat_sector-kept :
      (n address lba : ℕ) (w : W) (x : ℕ)
      → address + d.logical_sector_size * n ≤ low
      → d.logical_sector_size * n ≤ 32768
      → (address + d.logical_sector_size * n ≤ d.cache)
        ⊎ (d.cache + d.logical_sector_size * n ≤ address)
      → low ≤ x
      → d.memory (read_fat_sector d n address lba w).1 x ≡ d.memory w x
  unfolding plain_read
  read_fat_sector-kept n address lba w x below small apart high =
      let size = d.logical_sector_size * n in
      let (carry, w1) = read_sector d n d.cache lba w in
      let outside : within address size x ≡ false = ground arith in
      let few : n * d.physical_sector_size ≤ 32768 =
        omega (arith, small, mul_comm n d.logical_sector_size, ap (λ (l : ℕ). n * l) h.same) in
      ap (λ (r : Bool × W). d.memory r.1 x)
        (read_fat_sector-plain_read d drive low h n address lba w)
      ∙ ap (λ (m : Memory). m x) (h.loads.stores _ w1)
      ∙ copy_up-copied size address (d.cache + 0) (d.memory w1) x (ground (arith, apart))
      ∙ rw outside (read_sector-kept d drive low h n lba w x few high)

  pub sector_bytes :
      (address lba : ℕ) (w : W)
      → Apart d.logical_sector_size address d.cache
      → d.logical_sector_size ≤ 32768
      → lba < u32
      → (read_fat_sector d 1 address lba w).0 ≡ false
      → (i : ℕ) → i < d.logical_sector_size
      → d.memory (read_fat_sector d 1 address lba w).1 (address + i)
        ≡ drive (lba * d.logical_sector_size + i)
  sector_bytes address lba w apart small word ok i inside =
      let one : (physical_of d.logical_sector_size d.physical_sector_size 1 lba).num_sectors ≡ 1 =
        ap (λ (p : ℕ). (physical_of d.logical_sector_size p 1 lba).num_sectors) h.same
        ∙ ap (λ (p : Physical). p.num_sectors) (physical_of-same d.logical_sector_size 1 lba) in
      let offset : (physical_of d.logical_sector_size d.physical_sector_size 1 lba).offset ≡ 0 =
        ap (λ (p : ℕ). (physical_of d.logical_sector_size p 1 lba).offset) h.same
        ∙ ap (λ (p : Physical). p.offset) (physical_of-same d.logical_sector_size 1 lba) in
      read_fat_sector-bytes d drive 1 address lba w h.loads
        (Fits.small_sectors 1 (omega arith) (omega (arith, h.same))
          (omega (arith, h.same, h.some_bytes)) (omega arith) (omega arith))
        (ground (arith, apart, offset)) h.first_mib (rw one (omega (arith, h.same))) ok i
        (omega arith)

  -- The read of the sector of the FAT with the entry of a cluster.
  abbrev fat_read : Partition → ℕ → W → Bool × W
  fat_read v cluster w =
      let l = d.logical_sector_size in
      let sector = (v.partition_offset + v.fat_offset + entry_byte v cluster / l) % u32 in
      read_fat_sector d 1 d.buffer sector (d.store (fill_up l d.buffer 0 (d.memory w)) w)

  get_fat_entry-read :
      (v : Partition) (cluster q : ℕ) (w : W)
      → d.logical_sector_size ≤ 32768
      → d.logical_sector_size ≡ 4 * q
      → 0 < q
      → (fat_read v cluster w).0 ≡ false
      → (get_fat_entry d cluster v w).0 ≡ fat_entry drive d.logical_sector_size v cluster
  unfolding get_fat_entry fat_entry entry_byte
  get_fat_entry-read v cluster q w small four pos ok =
      let l = d.logical_sector_size in
      let byte = entry_byte v cluster in
      let sector = (v.partition_offset + v.fat_offset + byte / l) % u32 in
      let w1 = d.store (fill_up l d.buffer 0 (d.memory w)) w in
      let (carry, w2) = read_fat_sector d 1 d.buffer sector w1 in
      let (two, wide) = entry_byte-inside v cluster l q four pos in
      let bytes = sector_bytes d.buffer sector w1 h.apart small (omega arith) ok in
      let narrow = le16_at (d.memory w2) drive d.buffer (sector * l) l (byte % l) bytes two in
      rw ok (
        by_kind v.is_fat32 _ _ _ _ narrow
          (λ b. le32_at (d.memory w2) drive d.buffer (sector * l) l (byte % l) bytes (wide b)))

  -- GetFatEntry returns 0, or the entry of the cluster on the drive.
  pub get_fat_entry-fat_entry :
      (v : Partition) (cluster q : ℕ) (w : W)
      → d.logical_sector_size ≤ 32768
      → d.logical_sector_size ≡ 4 * q
      → 0 < q
      → ((get_fat_entry d cluster v w).0 ≡ 0)
        ⊎ ((get_fat_entry d cluster v w).0 ≡ fat_entry drive d.logical_sector_size v cluster)
  unfolding get_fat_entry entry_byte
  get_fat_entry-fat_entry v cluster q w small four pos =
      elim (Bool-cases (fat_read v cluster w).0) [
        | inl failure ↦ inl (rw failure refl)
        | inr ok ↦ inr (get_fat_entry-read v cluster q w small four pos ok)
      ]

  -- Where no read fails, GetFatEntry returns the entry.
  pub get_fat_entry-answered :
      (v : Partition) (cluster q : ℕ) (w : W)
      → d.logical_sector_size ≤ 32768
      → d.logical_sector_size ≡ 4 * q
      → 0 < q
      → Answers d
      → (get_fat_entry d cluster v w).0 ≡ fat_entry drive d.logical_sector_size v cluster
  get_fat_entry-answered v cluster q w small four pos answers =
      get_fat_entry-read v cluster q w small four pos (read_fat_sector-answered d answers 1 _ _ _)

  pub get_fat_entry-kept :
      (v : Partition) (cluster : ℕ) (w : W) (x : ℕ)
      → d.logical_sector_size ≤ 32768
      → low ≤ x
      → d.memory (get_fat_entry d cluster v w).1 x ≡ d.memory w x
  unfolding get_fat_entry entry_byte
  get_fat_entry-kept v cluster w x small high =
      let l = d.logical_sector_size in
      let byte = entry_byte v cluster in
      let sector = (v.partition_offset + v.fat_offset + byte / l) % u32 in
      let w1 = d.store (fill_up l d.buffer 0 (d.memory w)) w in
      let (carry, w2) = read_fat_sector d 1 d.buffer sector w1 in
      let Kept : ℕ × W → Type 0 = λ r. d.memory r.1 x ≡ d.memory w x in
      let outside : within d.buffer l x ≡ false = ground (arith, h.buffer) in
      let filled : d.memory w1 x ≡ d.memory w x =
        ap (λ (m : Memory). m x) (h.loads.stores _ w)
        ∙ fill_up-filled l d.buffer 0 (d.memory w) x
        ∙ rw outside refl in
      let kept =
        read_fat_sector-kept 1 d.buffer sector w1 x (omega (arith, h.buffer)) (omega arith)
          (ground (arith, h.apart)) high
        ∙ filled in
      if_intro Kept carry kept kept
