-- ===== src/Crc.antt =====
-- Common/Kernel/Disk/Fs/Crc32.c: the CRC-32 checksum of a buffer, by a lookup table.
-- A buffer is the function from an index to the byte that stands there.
mod Table
pub mod Polynomial
pub mod Checksum
use Prim.Native.Nat.{bit_xor}
use serra.Base.{ℕ, zero, suc, ◌+◌, ◌-◌, ◌/◌, ◌%◌, ◌^◌, get_or}
unfoldable pub use Table.{crc32_lut}

abbrev pub Bytes : Type 0
Bytes = ℕ → ℕ

-- The body of the loop. `Offset` is a `uint8`.
unfoldable pub crc_step : ℕ → ℕ → ℕ
crc_step crc byte =
    let offset = bit_xor crc byte % 2 ^ 8 in
    let shift_xor = crc / 2 ^ 8 in bit_xor (get_or crc32_lut offset 0) shift_xor

-- `~Crc` on 32 bits.
unfoldable pub complement : ℕ → ℕ
complement crc = 0xffff_ffff - crc

-- The loop over the bytes from `index` on.
unfoldable pub crc_loop : (rounds index crc : ℕ) → Bytes → ℕ
crc_loop zero index crc array = crc
crc_loop (suc rounds) index crc array =
    crc_loop rounds (index + 1) (crc_step crc (array index)) array

unfoldable pub calculate_crc32 : Bytes → ℕ → ℕ
unfolding crc_step complement
calculate_crc32 array length = complement (crc_loop length 0 0xffff_ffff array)
