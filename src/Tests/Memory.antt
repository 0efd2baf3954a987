-- ===== src/Tests/Memory.antt =====
-- Runs of the memory functions.
use serra.Base.{◌+◌, ◌*◌, ◌%◌, ◌≡◌, refl, true, false, arith}
use serra.Memory.{
  Memory, CpuFeatures, Routines, copy_up, fill_up, copied, copy_up-copied, fill_up-filled, memmove,
  memset_block,
}
use serra.Memory.Copy.{Copies, AreRoutines}
use serra.Memory.Move.{memmove-copied, memmove_repeats}
use serra.Memory.Fill.{tiled, memset_block-tiled}

abbrev counting : Memory
counting x = x % 256

abbrev with_erms : CpuFeatures
with_erms = record { erms = true; avx512f = false; avx = false }

abbrev with_avx : CpuFeatures
with_avx = record { erms = false; avx512f = false; avx = true }

-- Routines that go upwards, one byte at a time.
abbrev plain : Routines
plain = record {
  memcpy_sse2 = λ dst src n. copy_up n dst src;
  memcpy_avx = λ dst src n. copy_up n dst src;
  memcpy_avx512f = λ dst src n. copy_up n dst src;
  memset_sse2 = λ buffer v n. fill_up n buffer v;
  memset_avx = λ buffer v n. fill_up n buffer v;
  memset_avx512f = λ buffer v n. fill_up n buffer v;
}

plain-Copies : Copies (λ dst src n. copy_up n dst src)
plain-Copies dst src n m x h = copy_up-copied n dst src m x (ground arith)

plain-AreRoutines : AreRoutines plain
plain-AreRoutines = record {
  sse2_copies = plain-Copies;
  avx_copies = plain-Copies;
  avx512f_copies = plain-Copies;
  sse2_fills = λ buffer v n m x. fill_up-filled n buffer v m x;
  avx_fills = λ buffer v n m x. fill_up-filled n buffer v m x;
  avx512f_fills = λ buffer v n m x. fill_up-filled n buffer v m x;
}

memmove-copied_example :
    memmove with_avx plain 110 100 80 counting 150 ≡ copied 80 110 100 counting 150
memmove-copied_example =
    memmove-copied with_avx plain plain-AreRoutines 110 100 80 counting 150 (omega arith)

memmove_repeats_example :
    memmove with_erms plain (0 + 64) 0 128 counting (0 + 64 + 70) ≡ counting (0 + 70 % 64)
memmove_repeats_example =
    memmove_repeats with_erms plain 0 64 128 counting 70 refl (omega arith) (omega arith)
      (omega arith)

memset_block-tiled_example :
    memset_block with_avx plain 200 100 (5 * 4) 4 counting 207 ≡ tiled 5 4 200 100 counting 207
memset_block-tiled_example =
    memset_block-tiled with_avx plain plain-AreRoutines 200 100 5 4 counting 207 (omega arith)
      (omega arith)
