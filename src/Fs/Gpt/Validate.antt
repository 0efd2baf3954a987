-- ===== src/Fs/Gpt/Validate.antt =====
-- ValidateGptHeader (Common/Kernel/Disk/Fs/Fs.c) accepts exactly the headers that pass its checks.
use serra.Base.{
  ℕ, zero, suc, ◌+◌, ◌-◌, ◌%◌, ◌<◌, ◌≤◌, ◌≡◌, refl, inl, inr, ◌↔◌, true, ltb, arith, Bool-cases,
  ltb→lt, ltb→le,
}
use mathlib.Core.Path.{subst}
use serra.Crc.{Bytes, complement, calculate_crc32}
use serra.Crc.Checksum.{feed_bytes, calculate_crc32-feed_bytes}
use serra.Disk.{Volume}
use serra.Fs.Layout.{gpt_header, gpt_header_signature, gpt_header_revision, gpt_header_size}
use serra.Fs.Mbr.{u64}
use serra.Fs.Gpt.{clear_crc32, is_zeroed, validate_gpt_fields, validate_gpt_header}

-- The checksum by its definition: the register is fed the header, its own field taken as zero.
abbrev pub checksum : Bytes → ℕ
checksum raw = complement (feed_bytes (gpt_header raw).size 0 0xffff_ffff (clear_crc32 raw))

pub record IsGpt (raw : Bytes) (volume : Volume) : Type 0 where
  pub signed : (gpt_header raw).signature ≡ gpt_header_signature
  pub revised : gpt_header_revision ≤ (gpt_header raw).revision
  pub sized :
      (gpt_header_size ≤ (gpt_header raw).size) × ((gpt_header raw).size ≤ volume.bytes_per_sector)
  pub checked : (gpt_header raw).crc32 ≡ checksum raw
  pub primary : (gpt_header raw).header_lba ≡ 1
  pub backup : (gpt_header raw).backup_lba + 1 ≡ volume.num_sectors
  pub table :
      ((gpt_header raw).header_lba < (gpt_header raw).partition_lba)
      × ((gpt_header raw).partition_lba < (gpt_header raw).backup_lba)
  pub partitions : 0 < (gpt_header raw).num_partitions
  pub entry_size :
      (128 ≤ (gpt_header raw).partition_entry_size)
      × ((gpt_header raw).partition_entry_size % 8 ≡ 0)
  pub zeroed : (i : ℕ) → gpt_header_size ≤ i → i < volume.bytes_per_sector → raw i ≡ 0

-- The loop over the rest of the sector.
is_zeroed_sound :
    (n index : ℕ) (raw : Bytes)
    → is_zeroed n index raw ≡ true
    → (i : ℕ) → index ≤ i
    → i < index + n
    → raw i ≡ 0
unfolding is_zeroed
is_zeroed_sound zero index raw h i p q = absurd (omega arith)
is_zeroed_sound (suc n) index raw h i p q = elim (Bool-cases (ltb index i)) [
  | inl more ↦
      is_zeroed_sound n (index + 1) raw (ground arith) i (omega (arith, ltb→lt index i more))
        (omega arith)
  | inr same ↦
      let e : index ≡ i = omega (arith, ltb→le index i same) in
      let z : raw index ≡ 0 = ground arith in subst (λ k. raw k ≡ 0) e z
]

is_zeroed_complete :
    (n index : ℕ) (raw : Bytes)
    → ((i : ℕ) → index ≤ i → i < index + n → raw i ≡ 0)
    → is_zeroed n index raw ≡ true
unfolding is_zeroed
is_zeroed_complete zero index raw h = refl
is_zeroed_complete (suc n) index raw h = ground (
  arith,
  h index,
  is_zeroed_complete n (index + 1) raw (λ i p q. h i (omega arith) (omega arith)),
)

clear_crc32-byte : (raw : Bytes) → ((i : ℕ) → raw i < 256) → (i : ℕ) → clear_crc32 raw i < 256
clear_crc32-byte raw h i = ground (arith, h i)

module _ (raw : Bytes) (volume : Volume) (bytes : (i : ℕ) → raw i < 256) where
  checksum_lem : calculate_crc32 (clear_crc32 raw) (gpt_header raw).size ≡ checksum raw
  checksum_lem =
      calculate_crc32-feed_bytes (clear_crc32 raw) (gpt_header raw).size
        (λ j p. clear_crc32-byte raw bytes j)

  module _ (sectors : 0 < volume.num_sectors) (fits : volume.num_sectors < u64) where
    validate_sound : validate_gpt_header raw volume ≡ true → IsGpt raw volume
    unfolding validate_gpt_header validate_gpt_fields
    validate_sound h = record {
      signed = ground arith;
      revised = ground arith;
      sized = ground arith;
      checked = ground (arith, checksum_lem);
      primary = ground arith;
      backup = ground arith;
      table = ground arith;
      partitions = ground arith;
      entry_size = ground arith;
      zeroed = λ i p q.
          is_zeroed_sound (volume.bytes_per_sector - gpt_header_size) gpt_header_size raw
            (ground arith) i p (ground arith);
    }

    validate_complete : IsGpt raw volume → validate_gpt_header raw volume ≡ true
    unfolding validate_gpt_header validate_gpt_fields
    validate_complete h =
        let z =
          is_zeroed_complete (volume.bytes_per_sector - gpt_header_size) gpt_header_size raw
            (λ i p q. h.zeroed i p (omega arith)) in
        ground (arith, z, checksum_lem)

-- For every sector of bytes and every volume with a number of sectors below 2 ^ 64 that is not 0,
-- ValidateGptHeader accepts the sector exactly when it is a GPT header of that volume: signature,
-- revision, size, the CRC-32 of the header with its checksum field as zero, the LBAs 1 and last, a
-- table between them, at least one entry, of at least 128 bytes and a multiple of 8, and zeros from
-- byte 92 to the end of the sector.
pub validate_gpt_header_iff :
    (raw : Bytes) (volume : Volume)
    → ((i : ℕ) → raw i < 256)
    → 0 < volume.num_sectors
    → volume.num_sectors < u64
    → (validate_gpt_header raw volume ≡ true) ↔ IsGpt raw volume
validate_gpt_header_iff raw volume bytes sectors fits =
    (validate_sound raw volume bytes sectors fits, validate_complete raw volume bytes sectors fits)
