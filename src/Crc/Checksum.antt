-- ===== src/Crc/Checksum.antt =====
-- CalculateCrc32 (Common/Kernel/Disk/Fs/Crc32.c) against the register that is fed one bit at a time.
use Prim.Native.Nat.{bit_xor}
use native.Mathlib.Nat.{pow-suc}
use serra.Base.{ℕ, zero, suc, ◌+◌, ◌/◌, ◌%◌, ◌^◌, ◌<◌, ◌≡◌, refl, ap, ◌∙◌, sym, arith}
use serra.Base.Xor.{bit_xor-zero, half-bit_xor, low-bit_xor, bit_xor_comm, bit_xor_assoc}
use serra.Crc.{crc_loop, Bytes, crc_step, complement, calculate_crc32}
use serra.Crc.Polynomial.{
  feedback, shift_bit, shift_bits, shift_byte_parts, div-bit_xor, get_or-crc32_lut,
}

-- The register takes one bit of the message: it is compared with the bit that leaves.
unfoldable pub feed_bit : ℕ → ℕ → ℕ
feed_bit r b = bit_xor (r / 2) (feedback ((r % 2 + b) % 2))

-- The low `k` bits of a number, lowest first.
unfoldable pub feed_bits : ℕ → ℕ → ℕ → ℕ
unfolding feed_bit
feed_bits zero r m = r
feed_bits (suc k) r m = feed_bits k (feed_bit r (m % 2)) (m / 2)

-- The register after the first `n` bytes of a message from `i` on.
unfoldable pub feed_bytes : ℕ → ℕ → ℕ → Bytes → ℕ
unfolding feed_bits
feed_bytes zero i r m = r
feed_bytes (suc n) i r m = feed_bytes n (i + 1) (feed_bits 8 r (m i)) m

shift_bit-feed_bit : (r m : ℕ) → shift_bit (bit_xor r m) ≡ bit_xor (feed_bit r (m % 2)) (m / 2)
unfolding shift_bit feed_bit
shift_bit-feed_bit r m =
    let f = feedback ((r % 2 + m % 2) % 2) in
    rw (half-bit_xor r m, low-bit_xor r m)
      (bit_xor_assoc (r / 2) (m / 2) f
        ∙ ap (bit_xor (r / 2)) (bit_xor_comm (m / 2) f)
        ∙ sym (bit_xor_assoc (r / 2) f (m / 2)))

-- To feed the bits one by one is to add them all and shift.
feed_bits-shift_bits : (k r m : ℕ) → m < 2 ^ k → feed_bits k r m ≡ shift_bits k (bit_xor r m)
unfolding feed_bits shift_bits
feed_bits-shift_bits zero r zero h = sym (bit_xor-zero r)
feed_bits-shift_bits zero r (suc m) h = absurd (omega arith)
feed_bits-shift_bits (suc k) r m h =
    feed_bits-shift_bits k (feed_bit r (m % 2)) (m / 2) (omega (arith, pow-suc 2 k))
    ∙ ap (shift_bits k) (sym (shift_bit-feed_bit r m))

mod_byte : (x : ℕ) → x % 2 ^ 8 < 256
mod_byte x = omega arith

-- One round of the table loop feeds eight bits.
crc_step-feed_bits : (r b : ℕ) → b < 256 → crc_step r b ≡ feed_bits 8 r b
unfolding crc_step
crc_step-feed_bits r b h =
    let x = bit_xor r b in
    rw (get_or-crc32_lut (x % 2 ^ 8) (mod_byte x)) (
      ap (bit_xor (shift_bits 8 (x % 2 ^ 8))) (sym (div-bit_xor r b h))
      ∙ sym (shift_byte_parts x)
      ∙ sym (feed_bits-shift_bits 8 r b h))

loop-feed_bytes :
    (n i r : ℕ) (m : Bytes)
    → ((j : ℕ) → j < i + n → m j < 256)
    → crc_loop n i r m ≡ feed_bytes n i r m
unfolding crc_loop feed_bytes
loop-feed_bytes zero i r m ok = refl
loop-feed_bytes (suc n) i r m ok =
    rw (crc_step-feed_bits r (m i) (ok i (omega arith)))
      (loop-feed_bytes n (i + 1) (feed_bits 8 r (m i)) m λ j h. ok j (omega arith))

-- For every buffer of bytes, CalculateCrc32 is the complement of the register that starts at
-- FFFFFFFFh and is fed the message bit by bit, lowest bit of each byte first.
pub calculate_crc32-feed_bytes :
    (m : Bytes) (n : ℕ)
    → ((j : ℕ) → j < n → m j < 256)
    → calculate_crc32 m n ≡ complement (feed_bytes n 0 0xffff_ffff m)
unfolding calculate_crc32
calculate_crc32-feed_bytes m n ok =
    ap complement (loop-feed_bytes n 0 0xffff_ffff m λ j h. ok j (omega arith))
