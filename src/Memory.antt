-- ===== src/Memory.antt =====
-- Common/Kernel/Memory/Memory.c: Memcmp, Memcpy, Memmove, Memset and MemsetBlock.
-- Memory is the function from an address to the byte that stands there. An address is a number: the
-- areas that these functions are given do not run past the end of the address space.
-- The routines of x64/Memcpy.asm and x64/Memset.asm that use `rep movsb` and `rep stosb` are modelled
-- (one byte at a time, upwards). The SSE2, AVX and AVX-512F routines are the record `Routines`.
mod Bytes
pub mod Compare
pub mod Copy
pub mod Move
pub mod Fill
use serra.Base.{ℕ, zero, suc, ◌+◌, ◌-◌, ◌<◌, ◌≤◌, Bool, true, ◌||◌, ◌==◌, ltb, leb, if◌then◌else◌}
unfoldable pub use Bytes.{Memory, put, copy_up, copy_down, fill_up, within, copied, filled, Apart}
pub use Bytes.{copy_up-copied, copy_down-copied, fill_up-filled}

-- What Memcmp returns: -1, 0 or 1.
pub data Sign : Type 0 where
  minus equal plus : Sign

-- `for (Index = 0; Index < Size; Index++)`, on the rounds left.
unfoldable pub memcmp_loop : ℕ → ℕ → Memory → ℕ → ℕ → Sign
memcmp_loop zero index m a b = equal
memcmp_loop (suc n) index m a b =
    let rest = memcmp_loop n (index + 1) m a b in
    if ltb (m (a + index)) (m (b + index))
    then minus
    else if ltb (m (b + index)) (m (a + index))
    then plus
    else rest

unfoldable pub memcmp : Memory → ℕ → ℕ → ℕ → Sign
memcmp m a b size = memcmp_loop size 0 m a b

-- `CpuFeaturesAvailable`, as far as these functions read it.
pub record CpuFeatures : Type 0 where
  pub erms : Bool
  pub avx512f : Bool
  pub avx : Bool

-- The vector routines: destination, source (or value) and size.
pub record Routines : Type 0 where
  pub memcpy_sse2 : ℕ → ℕ → ℕ → Memory → Memory
  pub memcpy_avx : ℕ → ℕ → ℕ → Memory → Memory
  pub memcpy_avx512f : ℕ → ℕ → ℕ → Memory → Memory
  pub memset_sse2 : ℕ → ℕ → ℕ → Memory → Memory
  pub memset_avx : ℕ → ℕ → ℕ → Memory → Memory
  pub memset_avx512f : ℕ → ℕ → ℕ → Memory → Memory

module _ (cpu : CpuFeatures) (simd : Routines) where
  unfoldable pub memcpy : ℕ → ℕ → ℕ → Memory → Memory
  memcpy dst src size m =
      if ltb size 64 || cpu.erms
      then copy_up size dst src m
      else if cpu.avx512f
      then simd.memcpy_avx512f dst src size m
      else if cpu.avx
      then simd.memcpy_avx dst src size m
      else simd.memcpy_sse2 dst src size m

  -- The loops of Memmove go over the same bytes as `rep movsb`, upwards or downwards.
  unfoldable pub memmove : ℕ → ℕ → ℕ → Memory → Memory
  memmove dst src size m =
      if ltb dst src
      then (if ltb (src - dst) 64 then copy_up size dst src m else memcpy dst src size m)
      else if ltb (dst - src) 64
      then copy_down size dst src m
      else memcpy dst src size m

  unfoldable pub memset : ℕ → ℕ → ℕ → Memory → Memory
  memset buffer character size m =
      if ltb size 64 || cpu.erms
      then fill_up size buffer character m
      else if cpu.avx512f
      then simd.memset_avx512f buffer character size m
      else if cpu.avx
      then simd.memset_avx buffer character size m
      else simd.memset_sse2 buffer character size m

  -- `while (Destination < Threshold)` writes `width` bytes of the block, and goes on by `BlockSize`.
  unfoldable pub memset_block_loop : ℕ → ℕ → ℕ → ℕ → ℕ → ℕ → Memory → Memory
  memset_block_loop zero destination threshold block width block_size m = m
  memset_block_loop (suc f) destination threshold block width block_size m =
      let next = copy_up width destination block m in
      let rest =
        memset_block_loop f (destination + block_size) threshold block width block_size next in
      if ltb destination threshold then rest else m

  -- The same with Memcpy, for blocks of more than 8 bytes.
  unfoldable pub memset_block_memcpy : ℕ → ℕ → ℕ → ℕ → ℕ → Memory → Memory
  memset_block_memcpy zero destination threshold block block_size m = m
  memset_block_memcpy (suc f) destination threshold block block_size m =
      let next = memcpy destination block block_size m in
      let rest = memset_block_memcpy f (destination + block_size) threshold block block_size next in
      if ltb destination threshold then rest else m

  -- Each round goes on by at least 2 bytes, so `Size` rounds reach the threshold.
  unfoldable pub memset_block : ℕ → ℕ → ℕ → ℕ → Memory → Memory
  memset_block buffer block size block_size m =
      let threshold = buffer + size in
      if leb block_size 1
      then memset buffer (m block) size m
      else if leb block_size 2
      then memset_block_loop size buffer threshold block 2 block_size m
      else if leb block_size 4
      then memset_block_loop size buffer threshold block 4 block_size m
      else if leb block_size 8
      then memset_block_loop size buffer threshold block 8 block_size m
      else memset_block_memcpy size buffer threshold block block_size m
