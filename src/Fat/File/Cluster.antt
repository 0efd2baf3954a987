-- ===== src/Fat/File/Cluster.antt =====
-- The loop of ReadFile (Boot/Legacy/Shared/Disk/Disk.c) over the sectors of a cluster.
use native.Mathlib.Nat.{add-mul, mul_comm, mul-le-mul_right}
use mathlib.Core.Path.{subst}
use serra.Base.{
  ℕ, zero, suc, ◌+◌, ◌-◌, ◌*◌, ◌%◌, ◌≤◌, ◌<◌, ◌≡◌, refl, sym, ap, ◌∙◌, inl, inr, true, false, not,
  ltb, leb, if◌then◌else◌, Option, none, some, arith, Bool-cases, if_cases, ltb→lt, ltb→le, leb→le,
}
use serra.Crc.{Bytes}
use serra.Memory.{Memory, within}
use serra.Fat.{Drive, Partition, Progress, u32, read_fat_sector, sector_read_limit, read_cluster}
use serra.Fat.Ends.{step_size}
use serra.Fat.File.{Ready, read_fat_sector-Reads}

module _ {W : Type 0} (d : Drive W) (drive : Bytes) (low : ℕ) (v : Partition) where
  -- `left` sectors of the drive from `lba` on stand at `a`, as far as the file goes, of which `room` bytes are
  -- left; and the memory before is as it was.
  pub record Filled (a room lba left : ℕ) (w w' : W) : Type 0 where
    pub bytes :
        (j : ℕ)
        → j < left * d.logical_sector_size
        → j < room
        → d.memory w' (a + j) ≡ drive (lba * d.logical_sector_size + j)
    pub kept : (x : ℕ) → low ≤ x → x < a → d.memory w' x ≡ d.memory w x

  -- What the loop leaves at the address `a` that belongs to the offset `offset`.
  pub data Good (a offset size lba left : ℕ) (w : W) : Option (Progress × W) → Type 0 where
    unfinished : Good a offset size lba left w none
    failed : {w' : W} → Good a offset size lba left w (some (Progress.finished false, w'))
    complete :
        {w' : W}
        → size ≤ offset + left * d.logical_sector_size
        → Filled a (size - offset) lba left w w'
        → Good a offset size lba left w (some (Progress.finished true, w'))
    next :
        {w' : W} {offset' : ℕ}
        → offset' ≡ offset + left * d.logical_sector_size
        → offset' ≤ size
        → Filled a (size - offset) lba left w w'
        → Good a offset size lba left w (some (Progress.going offset', w'))

  product_mono : (n m l : ℕ) → n ≤ m → n * l ≤ m * l
  product_mono n m l le = mul-le-mul_right l le

  read_here :
      (a first lba : ℕ) (m m1 : Memory) (j : ℕ)
      → low ≤ a
      → j < first
      → m1 (a + j) ≡ (
          if within a first (a + j)
          then drive (lba * d.logical_sector_size + (a + j - a))
          else m (a + j))
      → m1 (a + j) ≡ drive (lba * d.logical_sector_size + j)
  read_here a first lba m m1 j above less e =
      let inside : within a first (a + j) ≡ true = ground arith in
      let same : a + j - a ≡ j = omega arith in e ∙ rw (inside, same) refl

  outside_of : (a first x p q : ℕ) → x < a → (if within a first x then p else q) ≡ q
  outside_of a first x p q before =
      let outside : within a first x ≡ false = ground arith in rw outside refl

  -- The last read of the file.
  Filled-last :
      (a room lba n left : ℕ) (w w1 : W)
      → low ≤ a
      → room ≤ d.logical_sector_size * n
      → ((x : ℕ)
          → low ≤ x
          → d.memory w1 x ≡ (
              if within a (d.logical_sector_size * n) x
              then drive (lba * d.logical_sector_size + (x - a))
              else d.memory w x))
      → Filled a room lba left w w1
  Filled-last a room lba n left w w1 above all read = record {
    bytes = λ j inside less.
        read_here a (d.logical_sector_size * n) lba (d.memory w) (d.memory w1) j above (omega arith)
          (read (a + j) (omega arith));
    kept = λ x high before. read x high ∙ outside_of a (d.logical_sector_size * n) x _ _ before;
  }

  -- A read of `n` sectors, and what the loop does behind them.
  Filled-join :
      (a offset size lba n more : ℕ) (w w1 w' : W)
      → low ≤ a
      → ((x : ℕ)
          → low ≤ x
          → d.memory w1 x ≡ (
              if within a (d.logical_sector_size * n) x
              then drive (lba * d.logical_sector_size + (x - a))
              else d.memory w x))
      → Filled
          (a + d.logical_sector_size * n)
          (size - (offset + d.logical_sector_size * n))
          (lba + n)
          more
          w1
          w'
      → Filled a (size - offset) lba (n + more) w w'
  Filled-join a offset size lba n more w w1 w' above read f = record {
    bytes = λ j inside room. elim (Bool-cases (ltb j first)) [
      | inl here ↦
          let less = ltb→lt j first here in
          f.kept (a + j) (omega arith) (omega arith)
          ∙ read_here a first lba (d.memory w) (d.memory w1) j above less
              (read (a + j) (omega arith))
      | inr behind ↦
          let more_eq = ltb→le j first behind in
          let place : a + first + (j - first) ≡ a + j = omega arith in
          let source : (lba + n) * d.logical_sector_size + (j - first)
              ≡ lba * d.logical_sector_size + j =
            omega (arith, add-mul lba n d.logical_sector_size, mul_comm n d.logical_sector_size) in
          ap (d.memory w') (sym place)
          ∙ f.bytes (j - first)
              (omega (
                arith,
                inside,
                add-mul n more d.logical_sector_size,
                mul_comm n d.logical_sector_size,
              ))
              (omega arith)
          ∙ ap drive source
    ];
    kept = λ x high before.
        f.kept x high (omega arith) ∙ read x high ∙ outside_of a first x _ _ before;
  }
    where
      first : ℕ
      first = d.logical_sector_size * n

  nothing :
      (a offset size lba left : ℕ) (w : W)
      → left ≡ 0
      → offset ≤ size
      → Good a offset size lba left w (some (Progress.going offset, w))
  nothing a offset size lba left w e below =
      let none_left : left * d.logical_sector_size ≡ 0 =
        ap (λ (k : ℕ). k * d.logical_sector_size) e ∙ omega arith in
      next (omega arith) below
        (record { bytes = λ j inside room. absurd (omega arith); kept = λ x high before. refl })

  Good-join :
      (a offset size lba n more : ℕ) (w w1 : W) (o : Option (Progress × W))
      → low ≤ a
      → ((x : ℕ)
          → low ≤ x
          → d.memory w1 x ≡ (
              if within a (d.logical_sector_size * n) x
              then drive (lba * d.logical_sector_size + (x - a))
              else d.memory w x))
      → Good
          (a + d.logical_sector_size * n)
          (offset + d.logical_sector_size * n)
          size
          (lba + n)
          more
          w1
          o
      → Good a offset size lba (n + more) w o
  Good-join a offset size lba n more w w1 o above read unfinished = unfinished
  Good-join a offset size lba n more w w1 o above read failed = failed
  Good-join a offset size lba n more w w1 o above read (complete {w'} end f) =
      complete
        (omega (arith, end, add-mul n more d.logical_sector_size, mul_comm n d.logical_sector_size))
        (Filled-join a offset size lba n more w w1 w' above read f)
  Good-join a offset size lba n more w w1 o above read (next {w'} e below f) =
      next
        (e ∙ omega (arith, add-mul n more d.logical_sector_size, mul_comm n d.logical_sector_size))
        below (Filled-join a offset size lba n more w w1 w' above read f)

  Good-further :
      (a offset size lba n more : ℕ) (w w1 : W) (o : Option (Progress × W))
      → low ≤ a
      → ((x : ℕ)
          → low ≤ x
          → d.memory w1 x ≡ (
              if within a (d.logical_sector_size * n) x
              then drive (lba * d.logical_sector_size + (x - a))
              else d.memory w x))
      → (left a' lba' : ℕ) → n + more ≡ left
      → a + d.logical_sector_size * n ≡ a'
      → lba + n ≡ lba'
      → Good a' (offset + d.logical_sector_size * n) size lba' more w1 o
      → Good a offset size lba left w o
  Good-further a offset size lba n more w w1 o above read left a' lba' e f g good =
      let next_offset = offset + d.logical_sector_size * n in
      let from_a = subst (λ (k : ℕ). Good k next_offset size lba' more w1 o) (sym f) good in
      let from_lba =
        subst (λ (k : ℕ). Good (a + d.logical_sector_size * n) next_offset size k more w1 o) (sym g)
          from_a in
      subst (λ (k : ℕ). Good a offset size lba k w o) e
        (Good-join a offset size lba n more w w1 o above read from_lba)

  module _ (h : Ready d drive low) (address size start : ℕ) (above : low ≤ address)
      (fits : address + size + 32768 < u32)
      (on_drive : v.partition_offset + v.data_offset + start + v.sectors_per_cluster < u32) where
    pub read_cluster-Good :
        (fuel sector_num offset : ℕ) (w : W)
        → offset ≤ size
        → sector_num ≤ v.sectors_per_cluster
        → Good
            (address + offset)
            offset
            size
            (v.partition_offset + v.data_offset + start + sector_num)
            (v.sectors_per_cluster - sector_num)
            w
            (read_cluster d fuel address size start sector_num offset v w)
    unfolding read_cluster
    read_cluster-Good zero sector_num offset w within_size inside =
        if_cases (Good (address + offset) offset size _ _ w) (ltb sector_num v.sectors_per_cluster)
          (λ more. unfinished)
          (λ done.
            nothing (address + offset) offset size _ (v.sectors_per_cluster - sector_num) w
              (ground arith) within_size)
    read_cluster-Good (suc fuel) sector_num offset w within_size inside =
        let spc = v.sectors_per_cluster in
        let left = spc - sector_num in
        let l = d.logical_sector_size in
        let base = v.partition_offset + v.data_offset + start in
        let n = if ltb left (sector_read_limit d) then left else sector_read_limit d in
        let n_left : n ≤ left = ground arith in
        let n_limit : n ≤ sector_read_limit d = ground arith in
        let (at_least, small) = step_size l n h.some_bytes n_limit in
        let place : (address + offset) % u32 ≡ address + offset = omega arith in
        let sector : (base + sector_num) % u32 ≡ base + sector_num = omega arith in
        let further : (offset + l * n) % u32 ≡ offset + l * n = omega arith in
        let (carry, w1) = read_fat_sector d n (address + offset) (base + sector_num) w in
        let a = address + offset in
        let G = Good a offset size (base + sector_num) left w in
        rw (place, sector, further)
          (if_cases G (not (ltb sector_num spc))
            (λ done. nothing a offset size (base + sector_num) left w (ground arith) within_size)
            (λ more.
              if_cases G carry (λ failure. failed)
                (λ ok.
                  let read =
                    read_fat_sector-Reads d drive low h n a (base + sector_num) w (omega arith)
                      small ok in
                  if_cases G (leb size (offset + l * n))
                    (λ all.
                      let enough = leb→le size (offset + l * n) all in
                      complete (omega (arith, product_mono n left l n_left, mul_comm n l)) (
                        Filled-last a (size - offset) (base + sector_num) n left w w1 (omega arith)
                          (omega arith) read))
                    (λ rest.
                      let split : n + (spc - (sector_num + n)) ≡ left = omega arith in
                      let place' : address + offset + l * n ≡ address + (offset + l * n) =
                        omega arith in
                      let sector' : base + sector_num + n ≡ base + (sector_num + n) = omega arith in
                      Good-further a offset size (base + sector_num) n (spc - (sector_num + n)) w w1
                        _ (omega arith) read left (address + (offset + l * n))
                        (base + (sector_num + n)) split place' sector'
                        (read_cluster-Good fuel (sector_num + n) (offset + l * n) w1 (ground arith)
                          (omega arith))))))
