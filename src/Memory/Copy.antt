-- ===== src/Memory/Copy.antt =====
-- Memcpy and Memset (Common/Kernel/Memory/Memory.c), whichever routine they choose.
use serra.Base.{refl, true, ◌+◌, ◌-◌, ◌<◌, ℕ, ◌≡◌, inl, inr, ◌||◌, ltb, Bool-cases, arith}
use serra.Memory.{within, Memory, CpuFeatures, Routines, copied, filled, Apart, memcpy, memset}
use serra.Memory.Bytes.{copy_up-copied, fill_up-filled}

-- What the vector routines promise: a copy between areas that share no byte, and a fill.
abbrev pub Copies : (ℕ → ℕ → ℕ → Memory → Memory) → Type 0
Copies f =
    (dst src n : ℕ) (m : Memory) (x : ℕ) → Apart n dst src → f dst src n m x ≡ copied n dst src m x

abbrev pub Fills : (ℕ → ℕ → ℕ → Memory → Memory) → Type 0
Fills f = (buffer v n : ℕ) (m : Memory) (x : ℕ) → f buffer v n m x ≡ filled n buffer v m x

pub record AreRoutines (simd : Routines) : Type 0 where
  pub sse2_copies : Copies simd.memcpy_sse2
  pub avx_copies : Copies simd.memcpy_avx
  pub avx512f_copies : Copies simd.memcpy_avx512f
  pub sse2_fills : Fills simd.memset_sse2
  pub avx_fills : Fills simd.memset_avx
  pub avx512f_fills : Fills simd.memset_avx512f

-- A byte that was moved.
pub copied_at :
    (m : Memory) (size a source i : ℕ) → i < size → copied size a source m (a + i) ≡ m (source + i)
copied_at m size a source i h =
    let same : a + i - a ≡ i = omega arith in
    let test : within a size (a + i) ≡ true = ground arith in rw (test, same) refl

module _ (cpu : CpuFeatures) (simd : Routines) (ok : AreRoutines simd) where
  -- Between areas that share no byte, Memcpy copies, by every routine, and writes nowhere else.
  pub memcpy-copied :
      (dst src n : ℕ) (m : Memory) (x : ℕ)
      → Apart n dst src
      → memcpy cpu simd dst src n m x ≡ copied n dst src m x
  unfolding memcpy
  memcpy-copied dst src n m x h = elim (Bool-cases (ltb n 64 || cpu.erms)) [
    | inl small ↦ rw small (copy_up-copied n dst src m x (ground arith))
    | inr large ↦ rw large (elim (Bool-cases cpu.avx512f) [
      | inl b ↦ rw b (ok.avx512f_copies dst src n m x h)
      | inr c ↦ rw c (elim (Bool-cases cpu.avx) [
        | inl b ↦ rw b (ok.avx_copies dst src n m x h)
        | inr d ↦ rw d (ok.sse2_copies dst src n m x h)
      ])
    ])
  ]

  -- Memset fills the buffer, by every routine, and writes nowhere else.
  pub memset-filled :
      (buffer v n : ℕ) (m : Memory) (x : ℕ) → memset cpu simd buffer v n m x ≡ filled n buffer v m x
  unfolding memset
  memset-filled buffer v n m x = elim (Bool-cases (ltb n 64 || cpu.erms)) [
    | inl small ↦ rw small (fill_up-filled n buffer v m x)
    | inr large ↦ rw large (elim (Bool-cases cpu.avx512f) [
      | inl b ↦ rw b (ok.avx512f_fills buffer v n m x)
      | inr c ↦ rw c (elim (Bool-cases cpu.avx) [
        | inl b ↦ rw b (ok.avx_fills buffer v n m x)
        | inr d ↦ rw d (ok.sse2_fills buffer v n m x)
      ])
    ])
  ]
