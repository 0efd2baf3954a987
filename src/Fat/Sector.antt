-- ===== src/Fat/Sector.antt =====
-- ReadFatSector (Boot/Legacy/Shared/Disk/Disk.c) and the bytes of the drive.
use native.Mathlib.Nat.{
  add-mul, mul_comm, mul_assoc, div-add-mod', mod-lt, mul-div_cancel, mul-le-mul_right,
  le-mul_of_pos_right,
}
use serra.Base.{
  ℕ, ◌+◌, ◌-◌, ◌*◌, ◌/◌, ◌%◌, ◌^◌, ◌≤◌, ◌<◌, ◌≡◌, ap, ◌∙◌, inl, inr, true, false, ltb, arith,
  Bool-cases,
}
use serra.Crc.{Bytes}
use serra.Memory.{Memory, Apart, copy_up-copied}
use serra.Memory.Copy.{copied_at}
use serra.Fat.{Drive, Physical, u16, u32, physical_of, read_sector, read_fat_sector}

-- What int 13h promises for a drive with the given bytes: without the carry flag, the bytes of the physical
-- sectors stand from the offset on in the segment, if they end in it.
pub record Loads {W : Type 0} (d : Drive W) (drive : Bytes) : Type 0 where
  pub stores : (m : Memory) (w : W) → d.memory (d.store m w) ≡ m
  pub loads :
      (segment offset n lba : ℕ) (w : W) (i : ℕ)
      → offset + n * d.physical_sector_size ≤ u16
      → (d.int13 segment offset n lba w).0 ≡ false
      → i < n * d.physical_sector_size
      → d.memory (d.int13 segment offset n lba w).1 (segment * 16 + offset + i)
        ≡ drive (lba * d.physical_sector_size + i)

-- An address below 1 MiB has a segment and an offset.
pub segment_offset : (a : ℕ) → a < 2 ^ 20 → a / 16 % u16 * 16 + a % 16 ≡ a
segment_offset a h = omega arith

-- ReadSector into the first MiB, of at most 64 KiB less 16 bytes.
pub read_sector-Loads :
    {W : Type 0} (d : Drive W) (drive : Bytes) (n a lba : ℕ) (w : W) (i : ℕ)
    → Loads d drive
    → a < 2 ^ 20
    → n * d.physical_sector_size + 16 ≤ u16
    → (read_sector d n a lba w).0 ≡ false
    → i < n * d.physical_sector_size
    → d.memory (read_sector d n a lba w).1 (a + i) ≡ drive (lba * d.physical_sector_size + i)
unfolding read_sector
read_sector-Loads d drive n a lba w i h low few ok inside =
    let place : a + i ≡ a / 16 % u16 * 16 + a % 16 + i = omega (arith, segment_offset a low) in
    ap (d.memory (d.int13 (a / 16 % u16) (a % 16) n lba w).1) place
    ∙ h.loads (a / 16 % u16) (a % 16) n lba w i (omega arith) ok inside

-- The physical sectors hold the `n` logical ones from `lba` on.
pub record Covers (logical physical n lba : ℕ) (p : Physical) : Type 0 where
  pub origin : p.physical_lba * physical + p.offset ≡ lba * logical
  pub room : p.offset + logical * n ≤ p.num_sectors * physical

-- Logical sectors of `k` physical ones, or physical sectors of `k` logical ones, of which the read does not
-- leave the whole physical sectors that its length takes.
pub data Fits (logical physical n lba : ℕ) : Type 0 where
  small_sectors :
      (k : ℕ)
      → 0 < k
      → logical ≡ k * physical
      → 0 < physical
      → n * k < u16
      → lba * k < u32
      → Fits logical physical n lba
  large_sectors :
      (k : ℕ)
      → 1 < k
      → physical ≡ k * logical
      → 0 < logical
      → physical < u16
      → lba % k + n ≤ ((n - 1) / k + 1) * k
      → Fits logical physical n lba

physical_of-Covers :
    (logical physical n lba : ℕ)
    → Fits logical physical n lba
    → Covers logical physical n lba (physical_of logical physical n lba)
unfolding physical_of
physical_of-Covers logical physical n lba (small_sectors k some_k e pos sectors lbas) =
    let quotient : logical / physical ≡ k = ap (λ (l : ℕ). l / physical) e ∙ mul-div_cancel k pos in
    elim (Bool-cases (ltb physical logical)) [
      | inl larger ↦
          let whole : n * k % u16 ≡ n * k = omega arith in
          let whole_lba : lba * k % u32 ≡ lba * k = omega arith in
          rw (larger, quotient, whole, whole_lba)
            (record {
              origin = omega (arith, mul_assoc lba k physical, ap (λ (l : ℕ). lba * l) e);
              room =
                  omega
                    (arith, mul_assoc n k physical, ap (λ (l : ℕ). n * l) e, mul_comm logical n);
            })
      | inr same ↦
          let low : physical ≤ k * physical =
            omega (arith, le-mul_of_pos_right physical some_k, mul_comm physical k) in
          let equal : logical ≡ physical = ground (arith, e) in
          let not_less : ltb logical physical ≡ false = ground arith in
          rw (same, not_less)
            (record {
              origin = omega (arith, ap (λ (l : ℕ). lba * l) equal);
              room = omega (arith, ap (λ (l : ℕ). n * l) equal, mul_comm logical n);
            })
    ]
physical_of-Covers logical physical n lba (large_sectors k some_k e pos word fits) =
    let quotient : physical / logical ≡ k = ap (λ (l : ℕ). l / logical) e ∙ mul-div_cancel k pos in
    let twice : 2 * logical ≤ k * logical = mul-le-mul_right logical some_k in
    let not_larger : ltb physical logical ≡ false = ground (arith, e) in
    let larger : ltb logical physical ≡ true = ground (arith, e) in
    let positive : 0 < k = omega arith in
    let part : lba % k + 1 ≤ k = omega (arith, mod-lt lba positive) in
    let inside : (lba % k + 1) * logical ≤ k * logical = mul-le-mul_right logical part in
    let offset : lba % k * logical % u16 ≡ lba % k * logical =
      omega (arith, add-mul (lba % k) 1 logical) in
    let split : (lba / k * k + lba % k) * logical ≡ lba * logical =
      ap (λ (l : ℕ). l * logical) (div-add-mod' lba k) in
    let count = (n - 1) / k + 1 in
    let area : (lba % k + n) * logical ≤ count * k * logical = mul-le-mul_right logical fits in
    rw (not_larger, larger, quotient, offset)
      (record {
        origin = omega (
          arith,
          split,
          add-mul (lba / k * k) (lba % k) logical,
          mul_assoc (lba / k) k logical,
          ap (λ (l : ℕ). lba / k * l) e,
        );
        room = omega (
          arith,
          area,
          add-mul (lba % k) n logical,
          mul_assoc count k logical,
          ap (λ (l : ℕ). count * l) e,
          mul_comm logical n,
        );
      })

-- A ReadFatSector that leaves the carry flag clear has put the bytes of the logical sectors on
-- the drive at the address, where one sector size is a multiple of the other, the read fits the
-- numbers it is computed with, the physical sectors it takes cover it and are at most 64 KiB
-- less 16 bytes, the array for them begins in the first MiB and shares no byte with the
-- destination, and int 13h loads what it promises into a segment.
pub read_fat_sector-bytes :
    {W : Type 0} (d : Drive W) (drive : Bytes) (n address lba : ℕ) (w : W)
    → Loads d drive
    → Fits d.logical_sector_size d.physical_sector_size n lba
    → Apart
        (d.logical_sector_size * n)
        address
        (d.cache + (physical_of d.logical_sector_size d.physical_sector_size n lba).offset)
    → d.cache < 2 ^ 20
    → (physical_of d.logical_sector_size d.physical_sector_size n lba).num_sectors
          * d.physical_sector_size
        + 16
      ≤ u16
    → (read_fat_sector d n address lba w).0 ≡ false
    → (i : ℕ) → i < d.logical_sector_size * n
    → d.memory (read_fat_sector d n address lba w).1 (address + i)
      ≡ drive (lba * d.logical_sector_size + i)
unfolding read_fat_sector
read_fat_sector-bytes d drive n address lba w h fits apart low few ok i inside =
    let p = physical_of d.logical_sector_size d.physical_sector_size n lba in
    let covers = physical_of-Covers d.logical_sector_size d.physical_sector_size n lba fits in
    let (carry, w1) = read_sector d p.num_sectors d.cache p.physical_lba w in
    let size = d.logical_sector_size * n in
    let moved =
      copy_up-copied size address (d.cache + p.offset) (d.memory w1) (address + i)
        (ground (arith, apart)) in
    let here = copied_at (d.memory w1) size address (d.cache + p.offset) i inside in
    let read =
      read_sector-Loads d drive p.num_sectors d.cache p.physical_lba w (p.offset + i) h low few ok
        (omega (arith, covers.room)) in
    let same : d.cache + p.offset + i ≡ d.cache + (p.offset + i) = omega arith in
    let place : p.physical_lba * d.physical_sector_size + (p.offset + i)
        ≡ lba * d.logical_sector_size + i =
      omega (arith, covers.origin) in
    ap (λ (m : Memory). m (address + i)) (h.stores _ w1)
    ∙ moved
    ∙ here
    ∙ ap (d.memory w1) same
    ∙ read
    ∙ ap drive place
