-- ===== src/Disk/Read/Unaligned.antt =====
-- ReadDisk (Common/Kernel/Disk/Disk.c) by way of a temporary buffer.
use native.Mathlib.Nat.{add-mul, div-add-mod', mod-lt, le-div_iff_mul-le, div-le_self, pow-suc}
use serra.Base.{
  ℕ, suc, zero, ◌+◌, ◌-◌, ◌*◌, ◌/◌, ◌%◌, ◌^◌, ◌<◌, ◌≤◌, ◌≡◌, refl, ◌≢◌, ◌⊎◌, inl, inr, Bool, true,
  false, not, ◌&&◌, ltb, leb, ◌==◌, if◌then◌else◌, arith, ap, ◌∙◌, sym,
}
use serra.Crc.{Bytes}
use serra.Memory.{Memory, memmove, within, copied, Apart}
use serra.Memory.Copy.{AreRoutines, copied_at}
use serra.Memory.Move.{memmove-copied}
use serra.Disk.{Method, Volume, Volumes}
use serra.Disk.Read.{
  u64, Machine, start_of, extent_of, align_up, read_sectors, move, read_aligned, read_unaligned,
  is_readable, read_disk,
}

-- The sectors of the extent hold the bytes.
record Holds (start size b : ℕ) : Type 0 where
  origin : (extent_of start size b).first_sector * b + (extent_of start size b).start_offset ≡ start
  last : (extent_of start size b).first_sector + (extent_of start size b).num_sectors < u64
  room : (extent_of start size b).start_offset + size ≤ (extent_of start size b).num_sectors * b

extent_of-Holds : (start size b : ℕ) → 0 < b → 0 < size → start + size < u64 → Holds start size b
unfolding extent_of
extent_of-Holds start size b pos some_size fits =
    let end = start + size - 1 in
    let whole : end % u64 ≡ end = omega arith in
    let q1 = start / b in
    let q2 = end / b in
    let mono : q1 ≤ q2 = (le-div_iff_mul-le pos).1 (omega (arith, div-add-mod' start b)) in
    let bound : q2 ≤ end = div-le_self end b in
    let n = 1 + q2 + u64 - q1 in
    let num : n % u64 + q1 ≡ 1 + q2 = omega arith in
    record {
      origin = div-add-mod' start b;
      last = rw whole (omega arith);
      room = rw whole (
          omega (
            arith,
            add-mul (n % u64) q1 b,
            ap (λ (k : ℕ). k * b) num,
            add-mul 1 q2 b,
            div-add-mod' start b,
            div-add-mod' end b,
            mod-lt end pos,
          ));
    }

align_up-bounds :
    (address alignment : ℕ)
    → 0 < alignment
    → (address ≤ align_up address alignment) × (align_up address alignment < address + alignment)
unfolding align_up
align_up-bounds address alignment pos = ground (arith, mod-lt address pos)

-- What a driver promises that uses the memory below `low` itself: a read that succeeds, into a buffer
-- from there on, puts the bytes of the sectors into the buffer, and changes nothing else from there on.
abbrev pub Reads :
    {W : Type 0} → (W → Memory) → ℕ → Bytes → (b : ℕ) → (ℕ → ℕ → ℕ → W → Bool × W) → Type 0
Reads {W} memory low drive b read =
    (buffer lba n : ℕ) (w : W)
    → low ≤ buffer
    → buffer + n * b < u64
    → lba + n < u64
    → (read buffer lba n w).0 ≡ true
    → (x : ℕ) → low ≤ x
    → memory (read buffer lba n w).1 x
      ≡ (if within buffer (n * b) x then drive (lba * b + (x - buffer)) else memory w x)

-- What the services promise to a caller with a buffer of `size` bytes, on a drive with the given bytes:
-- the vector routines copy and fill, the drivers read, a block that is allocated stands in the memory that
-- no driver uses, does not wrap and shares no byte with the buffer, and Free leaves the buffer as it is.
pub record Works {W : Type 0} (sv : Machine W) (low : ℕ) (drive : Bytes) (volume : Volume)
    (buffer size : ℕ) : Type 0 where
  pub routines : AreRoutines sv.simd
  pub stores : (m : Memory) (w : W) → sv.memory (sv.store m w) ≡ m
  pub efi :
      Reads sv.memory low drive volume.bytes_per_sector
        (λ a lba n. sv.read_sectors_efi a lba n volume.drive volume.media_id)
  pub bios :
      Reads sv.memory low drive volume.bytes_per_sector
        (λ a lba n. sv.read_sectors_bios a lba n volume.drive)
  pub allocates :
      (n : ℕ) (w : W)
      → (sv.allocate n w).0 ≢ 0
      → ((sv.allocate n w).0 + n ≤ buffer) ⊎ (buffer + size ≤ (sv.allocate n w).0)
  pub stands :
      (n : ℕ) (w : W)
      → (sv.allocate n w).0 ≢ 0
      → (low ≤ (sv.allocate n w).0) × ((sv.allocate n w).0 + n < u64)
  pub frees :
      (pointer n : ℕ) (w : W) (i : ℕ)
      → i < size
      → sv.memory (sv.free pointer n w).1 (buffer + i) ≡ sv.memory w (buffer + i)

method_cases :
    (m : Method) → (m ≡ Method.unknown) ⊎ ((m ≡ Method.efi_block_io) ⊎ (m ≡ Method.int13))
method_cases Method.unknown = inl refl
method_cases Method.efi_block_io = inr (inl refl)
method_cases Method.int13 = inr (inr refl)

accepted :
    {W : Type 0} (null freed status : Bool) (x y : W)
    → (if◌then◌else◌ {A = Bool × W} null (false, x) ((if freed then status else false), y)).0 ≡ true
    → (null ≡ false) × (freed ≡ true) × (status ≡ true)
accepted null freed status x y h = (ground arith, ground arith, ground arith)

pow_pos : (k : ℕ) → 0 < 2 ^ k
pow_pos zero = omega arith
pow_pos (suc k) = omega (arith, pow-suc 2 k, pow_pos k)

read_at :
    (drive : Bytes) (m : Memory) (a n first offset start i : ℕ)
    → offset + i < n
    → first + offset ≡ start
    → (if within a n (a + offset + i)
        then drive (first + (a + offset + i - a))
        else m (a + offset + i))
      ≡ drive (start + i)
read_at drive m a n first offset start i inside e =
    let same : first + (a + offset + i - a) ≡ start + i = omega arith in
    let test : within a n (a + offset + i) ≡ true = ground arith in rw (test, same) refl

module _ {W : Type 0} (sv : Machine W) (low : ℕ) (drive : Bytes) (volume : Volume) (buffer size : ℕ)
    (h : Works sv low drive volume buffer size) where
  read_sectors-Reads :
      Reads sv.memory low drive volume.bytes_per_sector (λ a lba n. read_sectors sv a lba n volume)
  unfolding read_sectors
  read_sectors-Reads a lba n w = elim (method_cases volume.method) [
    | inl e ↦ rw e (λ above fits last ok. absurd (ground arith))
    | inr (inl e) ↦ rw e (h.efi a lba n w)
    | inr (inr e) ↦ rw e (h.bios a lba n w)
  ]

  -- The run of the services, with what it leaves in the buffer.
  read_unaligned-bytes :
      (start : ℕ) (w : W)
      → 0 < volume.bytes_per_sector
      → 0 < size
      → start + size < u64
      → 2 ^ volume.alignment
          + (extent_of start size volume.bytes_per_sector).num_sectors * volume.bytes_per_sector
        < u64
      → (read_unaligned sv buffer size (extent_of start size volume.bytes_per_sector) volume w).0
        ≡ true
      → (i : ℕ) → i < size
      → sv.memory
          (read_unaligned sv buffer size (extent_of start size volume.bytes_per_sector) volume w).1
          (buffer + i)
        ≡ drive (start + i)
  unfolding read_unaligned move
  read_unaligned-bytes start w pos some_size fits small ok i inside =
      let b = volume.bytes_per_sector in
      let e = extent_of start size b in
      let alignment = 2 ^ volume.alignment in
      let temp_size = (alignment + e.num_sectors * b) % u64 in
      let (pointer, w1) = sv.allocate temp_size w in
      let address = align_up pointer alignment in
      let (status, w2) = read_sectors sv address e.first_sector e.num_sectors volume w1 in
      let w3 = move sv buffer (address + e.start_offset) size w2 in
      let holds = extent_of-Holds start size b pos some_size fits in
      let (freed, w4) = sv.free pointer temp_size (if status then w3 else w2) in
      let (present, released, arrived) = accepted (pointer == 0) freed status w1 w4 ok in
      let bounds = align_up-bounds pointer alignment (pow_pos volume.alignment) in
      let stands = h.stands temp_size w (λ z. absurd (ground arith)) in
      let apart : Apart size buffer (address + e.start_offset) =
        ground (arith, holds.room, h.allocates temp_size w) in
      let moved =
        memmove-copied sv.cpu sv.simd h.routines buffer (address + e.start_offset) size
          (sv.memory w2) (buffer + i) (inl apart) in
      let stored =
        ap (λ (m : Memory). m (buffer + i))
          (h.stores (memmove sv.cpu sv.simd buffer (address + e.start_offset) size (sv.memory w2))
            w2) in
      let read =
        read_sectors-Reads address e.first_sector e.num_sectors w1 (omega (arith, stands, bounds))
          (omega (arith, stands, bounds, small)) holds.last arrived (address + e.start_offset + i)
          (omega (arith, stands, bounds)) in
      let found : sv.memory w2 (address + e.start_offset + i) ≡ drive (start + i) =
        read
        ∙ read_at drive (sv.memory w1) address (e.num_sectors * b) (e.first_sector * b)
            e.start_offset start i (omega (arith, holds.room)) holds.origin in
      let copied_byte : copied size buffer (address + e.start_offset) (sv.memory w2) (buffer + i)
          ≡ sv.memory w2 (address + e.start_offset + i) =
        copied_at (sv.memory w2) size buffer (address + e.start_offset) i inside in
      let kept = h.frees pointer temp_size (if status then w3 else w2) i inside in
      rw present (
        kept
        ∙ ap (λ (c : Bool). sv.memory (if c then w3 else w2) (buffer + i)) arrived
        ∙ stored
        ∙ moved
        ∙ copied_byte
        ∙ found)

is_readable-sector :
    (volume_num : ℕ) (s : Volumes)
    → is_readable volume_num s ≡ true
    → 0 < (s.volume_list volume_num).bytes_per_sector
unfolding is_readable
is_readable-sector volume_num s h = ground arith

unaligned_branch :
    {W : Type 0} (readable null empty past aligned : Bool) (w : W) (x y : Bool × W)
    → empty ≡ false
    → aligned ≡ false
    → (if◌then◌else◌ {A = Bool × W}
        (not readable)
        (false, w)
        (if null
          then (false, w)
          else if empty
          then (true, w)
          else if past
          then (false, w)
          else if aligned
          then x
          else y)).0
      ≡ true
    → (readable ≡ true)
      × (if◌then◌else◌ {A = Bool × W}
            (not readable)
            (false, w)
            (if null
              then (false, w)
              else if empty
              then (true, w)
              else if past
              then (false, w)
              else if aligned
              then x
              else y)
          ≡ y)
unaligned_branch readable null empty past aligned w x y e f h = (ground arith, ground arith)

-- A read of `size` bytes that goes by way of a temporary buffer (as the buffer is not aligned, or the
-- bytes lie in fewer than three sectors) and that returns true has put the bytes of the drive from the
-- start on into the buffer: from the offset, or from the offset behind the start of the partition. It is
-- needed that the services work as they promise, that the size is not 0, and that neither the end of the
-- bytes nor the size of the temporary buffer wraps.
pub read_disk-bytes :
    {W : Type 0} (sv : Machine W) (low : ℕ) (drive : Bytes) (s : Volumes)
    (volume_num buffer offset size : ℕ) (w : W)
    → Works sv low drive (s.volume_list volume_num) buffer size
    → (buffer % 2 ^ (s.volume_list volume_num).alignment == 0
        && not (
            ltb
              (extent_of
                (start_of offset (s.volume_list volume_num))
                size
                (s.volume_list volume_num).bytes_per_sector).num_sectors
              3))
      ≡ false
    → 0 < size
    → start_of offset (s.volume_list volume_num) + size < u64
    → 2 ^ (s.volume_list volume_num).alignment
        + (extent_of
            (start_of offset (s.volume_list volume_num))
            size
            (s.volume_list volume_num).bytes_per_sector).num_sectors
          * (s.volume_list volume_num).bytes_per_sector
      < u64
    → (read_disk sv buffer offset size volume_num s w).0 ≡ true
    → (i : ℕ) → i < size
    → sv.memory (read_disk sv buffer offset size volume_num s w).1 (buffer + i)
      ≡ drive (start_of offset (s.volume_list volume_num) + i)
unfolding read_disk
read_disk-bytes {W} sv low drive s volume_num buffer offset size w h path some_size fits small ok i
      inside =
    let volume = s.volume_list volume_num in
    let e = extent_of (start_of offset volume) size volume.bytes_per_sector in
    let (readable, same) =
      unaligned_branch (is_readable volume_num s) (buffer == 0) (size == 0)
        (leb volume.num_sectors e.last_sector)
        (buffer % 2 ^ volume.alignment == 0 && not (ltb e.num_sectors 3)) w
        (read_aligned sv buffer size e volume w) (read_unaligned sv buffer size e volume w)
        (ground arith) path ok in
    let bytes =
      read_unaligned-bytes sv low drive volume buffer size h (start_of offset volume) w
        (is_readable-sector volume_num s readable) some_size fits small
        (ap (λ (r : Bool × W). r.0) (sym same) ∙ ok) i inside in
    ap (λ (r : Bool × W). sv.memory r.1 (buffer + i)) same ∙ bytes
