-- ===== src/Memory/Fill.antt =====
-- MemsetBlock (Common/Kernel/Memory/Memory.c) repeats a block over an area.
use native.Mathlib.Nat.{mod-eq-sub-mod, mod-eq_of_lt, mod-lt, mod-one}
use mathlib.Core.Path.{subst}
use serra.Base.{
  ℕ, zero, suc, ◌+◌, ◌-◌, ◌*◌, ◌%◌, ◌<◌, ◌≤◌, ◌≡◌, refl, ◌∙◌, sym, ◌⊎◌, inl, inr, false, leb,
  if◌then◌else◌, arith, lt→ltb, le→ltb,
}
use serra.Memory.{
  Memory, CpuFeatures, Routines, copied, within, Apart, copy_up, memcpy, memset_block_loop,
  memset_block_memcpy, memset_block,
}
use serra.Memory.Bytes.{copy_up-copied}
use serra.Memory.Copy.{AreRoutines, memcpy-copied, memset-filled}

-- `k` copies of the block, one behind the other.
abbrev pub tiled : (k width buffer block : ℕ) → Memory → Memory
tiled k width buffer block m x =
    if within buffer (k * width) x then m (block + (x - buffer) % width) else m x

-- The block shares no byte with the area that is filled.
abbrev pub Separate : (k width buffer block : ℕ) → Type 0
Separate k width buffer block = (block + width ≤ buffer) ⊎ (buffer + k * width ≤ block)

module _ (width : ℕ) (pos : 0 < width) (block : ℕ) where
  -- One block written, and the rest tiled behind it.
  tiled-step :
      (k dst : ℕ) (m next : Memory) (x : ℕ)
      → Separate (suc k) width dst block
      → ((y : ℕ) → next y ≡ copied width dst block m y)
      → tiled k width (dst + width) block next x ≡ tiled (suc k) width dst block m x
  tiled-step k dst m next x apart h =
      let r = (x - (dst + width)) % width in
      let e : suc k * width ≡ k * width + width = omega arith in
      let p : r < width = mod-lt (x - (dst + width)) pos in
      let q : x - (dst + width) ≡ x - dst - width = omega arith in
      ground (
        arith,
        h x,
        h (block + r),
        q,
        mod-eq-sub-mod {n = x - dst} {m = width},
        mod-eq_of_lt {n = x - dst} {m = width},
      )

  tiled-zero : (dst : ℕ) (m : Memory) (x : ℕ) → m x ≡ tiled 0 width dst block m x
  tiled-zero dst m x = ground arith

  Separate-next :
      (k dst : ℕ) → Separate (suc k) width dst block → Separate k width (dst + width) block
  Separate-next k dst h = omega arith

  Separate-first : (k dst : ℕ) → Separate (suc k) width dst block → Apart width dst block
  Separate-first k dst h = omega arith

  Separate→up :
      (k dst : ℕ) → Separate (suc k) width dst block → (dst ≤ block) ⊎ (block + width ≤ dst)
  Separate→up k dst h = omega arith

  module _ (cpu : CpuFeatures) (simd : Routines) where
    memset_block_loop-tiled :
        (f k dst threshold : ℕ) (m : Memory) (x : ℕ)
        → threshold ≡ dst + k * width
        → k ≤ f
        → Separate k width dst block
        → memset_block_loop cpu simd f dst threshold block width width m x
          ≡ tiled k width dst block m x
    unfolding memset_block_loop
    memset_block_loop-tiled zero zero dst threshold m x e fuel apart = tiled-zero dst m x
    memset_block_loop-tiled zero (suc k) dst threshold m x e fuel apart = absurd (omega arith)
    memset_block_loop-tiled (suc f) zero dst threshold m x e fuel apart =
        rw (le→ltb dst threshold (omega arith)) (tiled-zero dst m x)
    memset_block_loop-tiled (suc f) (suc k) dst threshold m x e fuel apart =
        let next = copy_up width dst block m in
        rw (lt→ltb dst threshold (omega arith)) (
          memset_block_loop-tiled f k (dst + width) threshold next x (omega arith) (omega arith)
            (Separate-next k dst apart)
          ∙ tiled-step k dst m next x apart
              (λ y. copy_up-copied width dst block m y (Separate→up k dst apart)))

    module _ (ok : AreRoutines simd) where
      memset_block_memcpy-tiled :
          (f k dst threshold : ℕ) (m : Memory) (x : ℕ)
          → threshold ≡ dst + k * width
          → k ≤ f
          → Separate k width dst block
          → memset_block_memcpy cpu simd f dst threshold block width m x
            ≡ tiled k width dst block m x
      unfolding memset_block_memcpy
      memset_block_memcpy-tiled zero zero dst threshold m x e fuel apart = tiled-zero dst m x
      memset_block_memcpy-tiled zero (suc k) dst threshold m x e fuel apart = absurd (omega arith)
      memset_block_memcpy-tiled (suc f) zero dst threshold m x e fuel apart =
          rw (le→ltb dst threshold (omega arith)) (tiled-zero dst m x)
      memset_block_memcpy-tiled (suc f) (suc k) dst threshold m x e fuel apart =
          let next = memcpy cpu simd dst block width m in
          rw (lt→ltb dst threshold (omega arith)) (
            memset_block_memcpy-tiled f k (dst + width) threshold next x (omega arith) (omega arith)
              (Separate-next k dst apart)
            ∙ tiled-step k dst m next x apart
                (λ y. memcpy-copied cpu simd ok dst block width m y (Separate-first k dst apart)))

-- The block sizes for which each store writes exactly one block: 1, 2, 4, 8 and all above 8.
abbrev pub IsBlockSize : ℕ → Type 0
IsBlockSize w = (w ≡ 1) ⊎ ((w ≡ 2) ⊎ ((w ≡ 4) ⊎ ((w ≡ 8) ⊎ (8 < w))))

lt→leb : (a b : ℕ) → b < a → leb a b ≡ false
lt→leb a b h = ground arith

rounds_le : (k w : ℕ) → 0 < w → k ≤ k * w
rounds_le k w h = grind arith

-- The statement below, at one block size.
abbrev Tiles :
    (cpu : CpuFeatures) (simd : Routines) (buffer block k : ℕ) (m : Memory) (x w : ℕ) → Type 0
Tiles cpu simd buffer block k m x w =
    Separate k w buffer block
    → memset_block cpu simd buffer block (k * w) w m x ≡ tiled k w buffer block m x

module _ (cpu : CpuFeatures) (simd : Routines) (ok : AreRoutines simd) where
  module _ (buffer block k : ℕ) (m : Memory) (x : ℕ) where
    one_byte : Tiles cpu simd buffer block k m x 1
    unfolding memset_block
    one_byte apart =
        memset-filled cpu simd ok buffer (m block) (k * 1) m x
        ∙ ground (arith, mod-one (x - buffer))

    two_bytes : Tiles cpu simd buffer block k m x 2
    unfolding memset_block
    two_bytes apart =
        memset_block_loop-tiled 2 (omega arith) block cpu simd (k * 2) k buffer (buffer + k * 2) m x
          refl (omega arith) apart

    four_bytes : Tiles cpu simd buffer block k m x 4
    unfolding memset_block
    four_bytes apart =
        memset_block_loop-tiled 4 (omega arith) block cpu simd (k * 4) k buffer (buffer + k * 4) m x
          refl (omega arith) apart

    eight_bytes : Tiles cpu simd buffer block k m x 8
    unfolding memset_block
    eight_bytes apart =
        memset_block_loop-tiled 8 (omega arith) block cpu simd (k * 8) k buffer (buffer + k * 8) m x
          refl (omega arith) apart

    more_bytes : (w : ℕ) → 8 < w → Tiles cpu simd buffer block k m x w
    unfolding memset_block
    more_bytes w large apart =
        rw
          (
            lt→leb w 1 (omega arith),
            lt→leb w 2 (omega arith),
            lt→leb w 4 (omega arith),
            lt→leb w 8 large,
          )
          (memset_block_memcpy-tiled w (omega arith) block cpu simd ok (k * w) k buffer
            (buffer + k * w) m x refl (rounds_le k w (omega arith)) apart)

  -- MemsetBlock with a size of k blocks, of 1, 2, 4, 8 or more than 8 bytes, and a block that stands
  -- outside the buffer: byte i of the buffer becomes byte i mod BlockSize of the block, and nothing
  -- else changes.
  pub memset_block-tiled :
      (buffer block k w : ℕ) (m : Memory) (x : ℕ)
      → IsBlockSize w
      → Separate k w buffer block
      → memset_block cpu simd buffer block (k * w) w m x ≡ tiled k w buffer block m x
  memset_block-tiled buffer block k w m x h = cases h
    where
      tiles : ℕ → Type 0
      tiles = Tiles cpu simd buffer block k m x

      cases : IsBlockSize w → tiles w
      cases (inl e) = subst tiles (sym e) (one_byte buffer block k m x)
      cases (inr (inl e)) = subst tiles (sym e) (two_bytes buffer block k m x)
      cases (inr (inr (inl e))) = subst tiles (sym e) (four_bytes buffer block k m x)
      cases (inr (inr (inr (inl e)))) = subst tiles (sym e) (eight_bytes buffer block k m x)
      cases (inr (inr (inr (inr large)))) = more_bytes buffer block k m x w large
