-- ===== src/Disk/Bios/Steps.antt =====
-- The steps of a read by int 13h (Common/Kernel/Disk/Bios/Bios.c), and the numbers in them.
use native.Mathlib.Nat.{add-mul}
use serra.Base.{
  ℕ, zero, suc, ◌+◌, ◌-◌, ◌*◌, ◌≤◌, ◌<◌, ◌≡◌, refl, ap, ◌∙◌, ◌⊎◌, inl, inr, Bool, true, false,
  if◌then◌else◌, Option, none, some, arith, Bool-cases,
}
use serra.Crc.{Bytes}
use serra.Memory.{Memory, copied, within}
use serra.Fs.Layout.{le64}
use serra.Disk.Bios.{int13_wrapper_data}

-- The end of the wrapper's buffer.
abbrev pub data_end : ℕ
data_end = int13_wrapper_data + 0xfe00

-- What two reads leave of which the second goes on where the first ended.
pub joined :
    (drive : Bytes) (m : Memory) (first second all address origin next x : ℕ) {y : ℕ}
    → first + second ≡ all
    → next ≡ origin + first
    → y ≡ (if within address first x then drive (origin + (x - address)) else m x)
    → (if within (address + first) second x then drive (next + (x - (address + first))) else y)
      ≡ (if within address all x then drive (origin + (x - address)) else m x)
joined drive m first second all address origin next x split e h =
    elim (Bool-cases (within (address + first) second x)) [
      | inl behind ↦
          let whole : within address all x ≡ true = ground arith in
          let low : address + first ≤ x = ground arith in
          let same : next + (x - (address + first)) ≡ origin + (x - address) = omega arith in
          rw (behind, whole, same) refl
      | inr before ↦ rw before (
          h ∙ elim (Bool-cases (within address first x)) [
            | inl inside ↦
                let whole : within address all x ≡ true = ground arith in rw (inside, whole) refl
            | inr outside ↦
                let none_of : within address all x ≡ false = ground arith in
                rw (outside, none_of) refl
          ])
    ]

pub stop_branch :
    {W : Type 0} (stop : Bool) (w w' : W)
    → if◌then◌else◌ {A = Option (Bool × W)} stop (some (true, w)) none ≡ some (true, w')
    → (stop ≡ true) × (w ≡ w')
stop_branch true w w' e = (refl, cc)
stop_branch false w w' e = cc

pub read_branch :
    {W : Type 0} (stop failed differ : Bool) (w w1 w2 w' : W) (rest : Option (Bool × W))
    → if◌then◌else◌ {A = Option (Bool × W)} stop
        (some (true, w))
        (if failed then some (false, w1) else if differ then some (false, w2) else rest)
      ≡ some (true, w')
    → ((stop ≡ true) × (w ≡ w')) ⊎ ((stop ≡ false) × (failed ≡ false) × (rest ≡ some (true, w')))
read_branch true failed differ w w1 w2 w' rest e = inl (refl, cc)
read_branch false true differ w w1 w2 w' rest e = cc
read_branch false false true w w1 w2 w' rest e = cc
read_branch false false false w w1 w2 w' rest e = inr (refl, refl, e)

pub goes_on :
    {W : Type 0} (stop failed differ : Bool) (w w1 w2 : W) (rest : Option (Bool × W))
    → stop ≡ false
    → failed ≡ false
    → differ ≡ false
    → if◌then◌else◌ {A = Option (Bool × W)} stop
        (some (true, w))
        (if failed then some (false, w1) else if differ then some (false, w2) else rest)
      ≡ rest
goes_on stop failed differ w w1 w2 rest d e f = rw (d, e, f) refl

-- The sectors of a round and those that are left.
pub mul_split : (n s b : ℕ) → n ≤ s → n * b + (s - n) * b ≡ s * b
mul_split n s b le =
    let e : n + (s - n) ≡ s = omega arith in
    omega (arith, add-mul n (s - n) b, ap (λ (k : ℕ). k * b) e)

pub one_round : (n b : ℕ) → 0 < n → 8 ≤ b → 8 ≤ n * b
one_round zero b pos wide = absurd (omega arith)
one_round (suc n) b pos wide = omega (arith, add-mul n 1 b)

pub le64_same :
    (m : Memory) (p q : ℕ) → ((i : ℕ) → i < 8 → m (p + i) ≡ m (q + i)) → le64 m p ≡ le64 m q
le64_same m p q e = grind (
  arith,
  e 0 (omega arith),
  e 1 (omega arith),
  e 2 (omega arith),
  e 3 (omega arith),
  e 4 (omega arith),
  e 5 (omega arith),
  e 6 (omega arith),
  e 7 (omega arith),
)

pub copied_word :
    (size address : ℕ) (m : Memory) (i : ℕ)
    → data_end ≤ address
    → size ≤ 0xfe00
    → i < size
    → copied size address int13_wrapper_data m (address + i)
      ≡ copied size address int13_wrapper_data m (int13_wrapper_data + i)
copied_word size address m i above small inside =
    let there : within address size (address + i) ≡ true = ground arith in
    let here : within address size (int13_wrapper_data + i) ≡ false = ground arith in
    let same : int13_wrapper_data + (address + i - address) ≡ int13_wrapper_data + i =
      omega arith in
    rw (there, here, same) refl
