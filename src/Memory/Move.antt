-- ===== src/Memory/Move.antt =====
-- Memmove (Common/Kernel/Memory/Memory.c): where it moves, and where it does not.
use native.Mathlib.Nat.{mod-add-mod, mod_self, mod-eq_of_lt, mod-lt}
use serra.Base.{
  false, sym, ap, ◌∙◌, ==_iff, ◌==◌, ℕ, zero, suc, ◌+◌, ◌-◌, ◌%◌, ◌<◌, ◌≤◌, ◌≡◌, ◌⊎◌, inl, inr,
  true, if◌then◌else◌, Bool-cases, arith,
}
use serra.Memory.{
  Memory, CpuFeatures, Routines, put, copy_up, copied, within, Apart, memcpy, memmove,
}
use serra.Memory.Bytes.{copy_up-copied, copy_down-copied}
use serra.Memory.Copy.{AreRoutines, memcpy-copied}

-- The cases that Memmove leaves to its own loops, and those where the areas are apart.
abbrev pub Movable : ℕ → ℕ → ℕ → Type 0
Movable n dst src = Apart n dst src ⊎ ((dst < src + 64) × (src < dst + 64))

below_of_ne : (r d : ℕ) → r < d → (r + 1 == d) ≡ false → r + 1 < d
below_of_ne r d h e = ground arith

mod_next : (k d : ℕ) → 0 < d → (k + 1) % d ≡ (if k % d + 1 == d then 0 else k % d + 1)
mod_next k d h = elim (Bool-cases (k % d + 1 == d)) [
  | inl full ↦
      rw full (
        sym (mod-add-mod k d 1)
        ∙ ap (λ (t : ℕ). t % d) ((==_iff (k % d + 1) d).0 full)
        ∙ mod_self d)
  | inr less ↦
      rw less (sym (mod-add-mod k d 1) ∙ mod-eq_of_lt (below_of_ne (k % d) d (mod-lt k h) less))
]

-- Upwards over an area that the source overlaps from below, a copy repeats the first bytes.
copy_up_repeats :
    (n d src : ℕ) (m : Memory) (x : ℕ)
    → 0 < d
    → copy_up n (src + d) src m x
      ≡ (if within (src + d) n x then m (src + (x - (src + d)) % d) else m x)
unfolding copy_up
copy_up_repeats zero d src m x h = ground arith
copy_up_repeats (suc n) d src m x h = ground (
  arith,
  copy_up_repeats n d (src + 1) (put m (src + d) (m src)) x h,
  mod_next (x - (src + 1 + d)) d,
)

module _ (cpu : CpuFeatures) (simd : Routines) where
  -- Memmove moves the bytes, as if all were read first, whenever the areas share no byte or stand
  -- less than 64 bytes apart, in either direction.
  pub memmove-copied :
      (ok : AreRoutines simd) (dst src n : ℕ) (m : Memory) (x : ℕ)
      → Movable n dst src
      → memmove cpu simd dst src n m x ≡ copied n dst src m x
  unfolding memmove
  memmove-copied ok dst src n m x h = ground (
    arith,
    copy_up-copied n dst src m x,
    copy_down-copied n dst src m x,
    memcpy-copied cpu simd ok dst src n m x,
  )

  -- Where the destination stands above the source, at least 64 bytes further on, and the areas
  -- overlap, Memmove with `rep movsb` repeats the bytes between the two starts: the area at the
  -- destination does not get the bytes of the source behind them.
  pub memmove_repeats :
      (src d n : ℕ) (m : Memory) (x : ℕ)
      → cpu.erms ≡ true
      → 64 ≤ d
      → d < n
      → x < n
      → memmove cpu simd (src + d) src n m (src + d + x) ≡ m (src + x % d)
  unfolding memmove memcpy
  memmove_repeats src d n m x fast far over inside =
      ground (arith, copy_up_repeats n d src m (src + d + x))
