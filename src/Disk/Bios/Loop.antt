-- ===== src/Disk/Bios/Loop.antt =====
-- The loop of ReadSectors_Bios (Common/Kernel/Disk/Bios/Bios.c): what it reads, and that it ends.
use native.Mathlib.Nat.{add-mul}
use serra.Base.{
  ℕ, zero, suc, ◌+◌, ◌-◌, ◌*◌, ◌%◌, ◌^◌, ◌≤◌, ◌<◌, ◌≡◌, refl, sym, ap, ◌∙◌, inl, inr, Bool, true,
  false, not, leb, ◌==◌, if◌then◌else◌, Option, some, arith, Bool-cases, if_intro, if_cases,
}
use serra.Crc.{Bytes}
use serra.Memory.{Memory, copied, within}
use serra.Memory.Copy.{AreRoutines, memcpy-copied}
use serra.Fs.Layout.{le64}
use serra.Disk.Read.{u64}
use serra.Disk.Bios.{Firmware, int13_wrapper_data, copy_memory, read_loop}
use serra.Disk.Bios.Steps.{
  data_end, joined, stop_branch, read_branch, goes_on, mul_split, one_round, le64_same, copied_word,
}

-- What the real mode code promises for a drive with the given bytes: a call that returns 0 has put the
-- bytes of the sectors into the wrapper's buffer, and no call changes the memory behind that buffer.
pub record Int13Works {W : Type 0} (fw : Firmware W) (number b : ℕ) (drive : Bytes) : Type 0 where
  pub routines : AreRoutines fw.simd
  pub stores : (m : Memory) (w : W) → fw.memory (fw.store m w) ≡ m
  pub reads :
      (lba n : ℕ) (w : W)
      → n * b ≤ 0xfe00
      → (fw.call_int13 lba n number w).0 ≡ 0
      → (i : ℕ) → i < n * b
      → fw.memory (fw.call_int13 lba n number w).1 (int13_wrapper_data + i) ≡ drive (lba * b + i)
  pub keeps :
      (lba n : ℕ) (w : W) (x : ℕ)
      → data_end ≤ x
      → fw.memory (fw.call_int13 lba n number w).1 x ≡ fw.memory w x

module _ {W : Type 0} (fw : Firmware W) (number b : ℕ) (drive : Bytes)
    (h : Int13Works fw number b drive) where
  copy_memory-copied :
      (dst size : ℕ) (w : W) (x : ℕ)
      → data_end ≤ dst
      → size ≤ 0xfe00
      → fw.memory (copy_memory fw dst int13_wrapper_data size w) x
        ≡ copied size dst int13_wrapper_data (fw.memory w) x
  unfolding copy_memory
  copy_memory-copied dst size w x above small =
      ap (λ (m : Memory). m x) (h.stores _ w)
      ∙ memcpy-copied fw.cpu fw.simd h.routines dst int13_wrapper_data size (fw.memory w) x
          (inr (omega arith))

  same_word :
      (size address : ℕ) (w : W) (i : ℕ)
      → data_end ≤ address
      → size ≤ 0xfe00
      → i < size
      → fw.memory (copy_memory fw address int13_wrapper_data size w) (address + i)
        ≡ fw.memory (copy_memory fw address int13_wrapper_data size w) (int13_wrapper_data + i)
  same_word size address w i above small inside =
      copy_memory-copied address size w (address + i) above small
      ∙ copied_word size address (fw.memory w) i above small inside
      ∙ sym (copy_memory-copied address size w (int13_wrapper_data + i) above small)

  -- A round of the loop that reads `n` sectors.
  round-Reads :
      (n address lba : ℕ) (w : W)
      → n * b ≤ 0xfe00
      → data_end ≤ address
      → (fw.call_int13 lba n number w).0 ≡ 0
      → (x : ℕ) → data_end ≤ x
      → fw.memory
          (copy_memory fw address int13_wrapper_data (n * b) (fw.call_int13 lba n number w).1)
          x
        ≡ (if within address (n * b) x then drive (lba * b + (x - address)) else fw.memory w x)
  round-Reads n address lba w small above ok x high =
      let w1 = (fw.call_int13 lba n number w).1 in
      copy_memory-copied address (n * b) w1 x above small
      ∙ ground (arith, h.reads lba n w small ok (x - address), h.keeps lba n w x high)

  -- A round without the wrap-around that its numbers do not reach.
  unfoldable plain_round : (fuel per address lba sectors n : ℕ) → W → Option (Bool × W)
  plain_round fuel per address lba sectors n w =
      let (result, w1) = fw.call_int13 lba n number w in
      let w2 = copy_memory fw address int13_wrapper_data (n * b) w1 in
      if sectors == 0
      then some (true, w)
      else if not (result == 0)
      then some (false, w1)
      else if not (le64 (fw.memory w2) address == le64 (fw.memory w2) int13_wrapper_data)
      then some (false, w2)
      else read_loop fw fuel b per number (address + n * b) (lba + n) (sectors - n) w2

  read_loop-plain_round :
      (fuel per address lba sectors : ℕ) (w : W)
      → per * b ≤ 0xfe00
      → per < 2 ^ 16
      → address + sectors * b < u64
      → lba + sectors < u64
      → read_loop fw (suc fuel) b per number address lba sectors w
        ≡ plain_round fuel per address lba sectors (if leb per sectors then per else sectors) w
  unfolding read_loop plain_round
  read_loop-plain_round fuel per address lba sectors w small few fits last =
      let n = if leb per sectors then per else sectors in
      let under : (n ≤ per) × (n ≤ sectors) = (ground arith, ground arith) in
      let few_n : n % 2 ^ 16 ≡ n = omega (arith, under) in
      let size : n * b % 2 ^ 32 ≡ n * b = omega (arith, small, mul_split n per b under.0) in
      let next : (address + n * b) % u64 ≡ address + n * b =
        omega (arith, fits, mul_split n sectors b under.1) in
      let next_lba : (lba + n) % u64 ≡ lba + n = omega (arith, last, under.1) in
      rw (few_n, size, next, next_lba) refl

  pub read_loop-Reads :
      (fuel per address lba sectors : ℕ) (w w' : W)
      → per * b ≤ 0xfe00
      → per < 2 ^ 16
      → data_end ≤ address
      → address + sectors * b < u64
      → lba + sectors < u64
      → read_loop fw fuel b per number address lba sectors w ≡ some (true, w')
      → (x : ℕ) → data_end ≤ x
      → fw.memory w' x ≡ (
          if within address (sectors * b) x then drive (lba * b + (x - address)) else fw.memory w x)
  unfolding read_loop plain_round
  read_loop-Reads zero per address lba sectors w w' small few above fits last e x high =
      let (no_sectors, same) = stop_branch (sectors == 0) w w' e in rw (sym same) (ground arith)
  read_loop-Reads (suc fuel) per address lba sectors w w' small few above fits last e x high =
      let n = if leb per sectors then per else sectors in
      let le_per : n ≤ per = ground arith in
      let le_sectors : n ≤ sectors = ground arith in
      let (result, w1) = fw.call_int13 lba n number w in
      let w2 = copy_memory fw address int13_wrapper_data (n * b) w1 in
      let plain =
        sym (read_loop-plain_round fuel per address lba sectors w small few fits last) ∙ e in
      let rest = read_loop fw fuel b per number (address + n * b) (lba + n) (sectors - n) w2 in
      elim (read_branch (sectors == 0) (not (result == 0))
        (not (le64 (fw.memory w2) address == le64 (fw.memory w2) int13_wrapper_data)) w w1 w2 w'
        rest plain) [
          | inl (no_sectors, same) ↦ rw (sym same) (ground arith)
          | inr (some_sectors, success, more) ↦
              let split = mul_split n sectors b le_sectors in
              let round =
                round-Reads n address lba w (omega (arith, small, mul_split n per b le_per)) above
                  (ground arith) x high in
              let later =
                read_loop-Reads fuel per (address + n * b) (lba + n) (sectors - n) w2 w' small few
                  (omega arith) (omega (arith, split)) (omega arith) more x high in
              later
              ∙ joined drive (fw.memory w) (n * b) ((sectors - n) * b) (sectors * b) address
                  (lba * b) ((lba + n) * b) x split (add-mul lba n b) round
        ]

  -- Where no call fails, the loop ends with success.
  pub read_loop_succeeds :
      (fuel per address lba sectors : ℕ) (w : W)
      → ((l n : ℕ) (v : W) → (fw.call_int13 l n number v).0 ≡ 0)
      → 8 ≤ b
      → 0 < per
      → per * b ≤ 0xfe00
      → per < 2 ^ 16
      → data_end ≤ address
      → address + sectors * b < u64
      → lba + sectors < u64
      → sectors ≤ fuel
      → (w' : W) × (read_loop fw fuel b per number address lba sectors w ≡ some (true, w'))
  unfolding read_loop plain_round
  read_loop_succeeds zero per address lba sectors w answers wide pos small few above fits last
        enough =
      let e : sectors == 0 ≡ true = ground arith in (w, rw e refl)
  read_loop_succeeds (suc fuel) per address lba sectors w answers wide pos small few above fits last
        enough =
      let n = if leb per sectors then per else sectors in
      let le_per : n ≤ per = ground arith in
      let le_sectors : n ≤ sectors = ground arith in
      let split = mul_split n sectors b le_sectors in
      let size : n * b ≤ 0xfe00 = omega (arith, small, mul_split n per b le_per) in
      let (result, w1) = fw.call_int13 lba n number w in
      let w2 = copy_memory fw address int13_wrapper_data (n * b) w1 in
      let round = read_loop-plain_round fuel per address lba sectors w small few fits last in
      elim (Bool-cases (sectors == 0)) [
        | inl stop ↦ (w, rw stop refl)
        | inr more ↦
            let one : 8 ≤ n * b = one_round n b (ground arith) wide in
            let same =
              le64_same (fw.memory w2) address int13_wrapper_data
                (λ i inside. same_word (n * b) address w1 i above size (omega arith)) in
            let (w', e) =
              read_loop_succeeds fuel per (address + n * b) (lba + n) (sectors - n) w2 answers wide
                pos small few (omega arith) (omega (arith, split)) (omega arith) (ground arith) in
            let success : not (result == 0) ≡ false = ground (arith, answers lba n w) in
            let agree : not (le64 (fw.memory w2) address == le64 (fw.memory w2) int13_wrapper_data)
                ≡ false =
              ground (arith, same) in
            (
              w',
              round
                  ∙ goes_on (sectors == 0) (not (result == 0))
                      (not (le64 (fw.memory w2) address == le64 (fw.memory w2) int13_wrapper_data))
                      w w1 w2
                      (read_loop fw fuel b per number (address + n * b) (lba + n) (sectors - n) w2)
                      more success agree
                  ∙ e,
            )
      ]

module _ {W : Type 0} (fw : Firmware W) (number b : ℕ) where
  -- As many rounds as there are sectors are enough, where a round reads at least one.
  pub read_loop_ends :
      (fuel per address lba sectors : ℕ) (w : W)
      → 0 < per
      → sectors ≤ fuel
      → (r : Bool × W) × (read_loop fw fuel b per number address lba sectors w ≡ some r)
  unfolding read_loop
  read_loop_ends zero per address lba sectors w pos enough =
      let e : sectors == 0 ≡ true = ground arith in ((true, w), rw e refl)
  read_loop_ends (suc fuel) per address lba sectors w pos enough =
      let n = if leb per sectors then per else sectors in
      let size = n * b % 2 ^ 32 in
      let (result, w1) = fw.call_int13 lba (n % 2 ^ 16) number w in
      let w2 = copy_memory fw address int13_wrapper_data size w1 in
      if_cases (λ (o : Option (Bool × W)). (r : Bool × W) × (o ≡ some r)) (sectors == 0)
        (λ stop. ((true, w), refl))
        (λ more.
          if_intro (λ (o : Option (Bool × W)). (r : Bool × W) × (o ≡ some r)) (not (result == 0))
            ((false, w1), refl)
            (if_intro (λ (o : Option (Bool × W)). (r : Bool × W) × (o ≡ some r))
              (not (le64 (fw.memory w2) address == le64 (fw.memory w2) int13_wrapper_data))
              ((false, w2), refl)
              (read_loop_ends fuel per ((address + size) % u64) ((lba + n) % u64) (sectors - n) w2
                pos (ground arith))))
