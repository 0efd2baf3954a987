-- ===== src/Crc/Polynomial.antt =====
-- Division by the CRC-32 polynomial, one bit at a time, and its linearity.
use Prim.Native.Nat.{bit_xor}
use native.Mathlib.Nat.{pow-suc, mul_assoc}
use serra.Base.{
  ℕ, zero, suc, ◌+◌, ◌*◌, ◌/◌, ◌%◌, ◌^◌, ◌<◌, ◌≡◌, refl, ap, ◌∙◌, sym, true, ◌==◌, if◌then◌else◌,
  get_or, arith, ==_iff,
}
use serra.Base.Bits.{holds_from, holds_from-at}
use serra.Base.Xor.{
  bit_xor-zero, bit_xor_step, half-bit_xor, low-bit_xor, bit_xor_comm, bit_xor_assoc, bit_xor-lt,
}
use serra.Crc.{crc32_lut}

-- The polynomial 04C11DB7h with its bits in reverse order.
abbrev pub polynomial : ℕ
polynomial = 0xedb8_8320

-- What a bit that leaves the register adds to it.
abbrev pub feedback : ℕ → ℕ
feedback b = if b == 0 then 0 else polynomial

-- The register after one bit has left it.
unfoldable pub shift_bit : ℕ → ℕ
shift_bit r = bit_xor (r / 2) (feedback (r % 2))

unfoldable pub shift_bits : ℕ → ℕ → ℕ
unfolding shift_bit
shift_bits zero r = r
shift_bits (suc k) r = shift_bits k (shift_bit r)

feedback_sum :
    (x y : ℕ) → x < 2 → y < 2 → feedback ((x + y) % 2) ≡ bit_xor (feedback x) (feedback y)
feedback_sum zero zero p q = refl
feedback_sum zero (suc zero) p q = refl
feedback_sum zero (suc (suc y)) p q = absurd (omega arith)
feedback_sum (suc zero) zero p q = refl
feedback_sum (suc zero) (suc zero) p q = refl
feedback_sum (suc zero) (suc (suc y)) p q = absurd (omega arith)
feedback_sum (suc (suc x)) y p q = absurd (omega arith)

xor_swap : (a b c d : ℕ) → bit_xor (bit_xor a b) (bit_xor c d) ≡ bit_xor (bit_xor a c) (bit_xor b d)
xor_swap a b c d =
    bit_xor_assoc a b (bit_xor c d)
    ∙ ap (bit_xor a)
        (sym (bit_xor_assoc b c d) ∙ ap (λ t. bit_xor t d) (bit_xor_comm b c) ∙ bit_xor_assoc c b d)
    ∙ sym (bit_xor_assoc a c (bit_xor b d))

pub shift_bit-bit_xor : (u v : ℕ) → shift_bit (bit_xor u v) ≡ bit_xor (shift_bit u) (shift_bit v)
unfolding shift_bit
shift_bit-bit_xor u v =
    rw (half-bit_xor u v, low-bit_xor u v, feedback_sum (u % 2) (v % 2) (omega arith) (omega arith))
      (xor_swap (u / 2) (v / 2) (feedback (u % 2)) (feedback (v % 2)))

pub shift_bits-bit_xor :
    (k u v : ℕ) → shift_bits k (bit_xor u v) ≡ bit_xor (shift_bits k u) (shift_bits k v)
unfolding shift_bits
shift_bits-bit_xor zero u v = refl
shift_bits-bit_xor (suc k) u v =
    ap (shift_bits k) (shift_bit-bit_xor u v) ∙ shift_bits-bit_xor k (shift_bit u) (shift_bit v)

-- Bits that do not reach the low end are only moved.
shift_bit-double : (h : ℕ) → shift_bit (h * 2) ≡ h
unfolding shift_bit
shift_bit-double h =
    let e : h * 2 / 2 ≡ h = omega arith in
    let e' : h * 2 % 2 ≡ 0 = omega arith in rw (e, e') (bit_xor-zero h)

double_pow : (h k : ℕ) → h * 2 ^ suc k ≡ h * 2 ^ k * 2
double_pow h k = ap (λ (t : ℕ). h * t) (pow-suc 2 k) ∙ sym (mul_assoc h (2 ^ k) 2)

shift_bits-high : (k h : ℕ) → shift_bits k (h * 2 ^ k) ≡ h
unfolding shift_bits
shift_bits-high zero h = omega arith
shift_bits-high (suc k) h =
    ap (shift_bits k) (ap shift_bit (double_pow h k) ∙ shift_bit-double (h * 2 ^ k))
    ∙ shift_bits-high k h

-- A number is the exclusive or of its high and its low bits.
xor_parts : (k h l : ℕ) → l < 2 ^ k → bit_xor (h * 2 ^ k) l ≡ h * 2 ^ k + l
xor_parts zero h zero p = omega (arith, bit_xor-zero (h * 2 ^ 0))
xor_parts zero h (suc l) p = absurd (omega arith)
xor_parts (suc k) h l p =
    let half : h * 2 ^ k * 2 / 2 ≡ h * 2 ^ k = omega arith in
    rw (double_pow h k) (
      omega (
        arith,
        bit_xor_step (h * 2 ^ k * 2) l,
        ap (λ (t : ℕ). bit_xor t (l / 2)) half,
        xor_parts k h (l / 2) (omega (arith, pow-suc 2 k)),
      ))

-- The high bits are those of the first number, where the second has none.
pub div-bit_xor : (r b : ℕ) → b < 2 ^ 8 → bit_xor r b / 2 ^ 8 ≡ r / 2 ^ 8
div-bit_xor r b h =
    let high = r / 2 ^ 8 * 2 ^ 8 in
    let low = r % 2 ^ 8 in
    let whole : bit_xor high low ≡ r = omega (arith, xor_parts 8 (r / 2 ^ 8) low (omega arith)) in
    let small : bit_xor low b < 2 ^ 8 = bit_xor-lt 8 low b (omega arith) h in
    omega (
      arith,
      small,
      ap (λ (t : ℕ). bit_xor t b) whole,
      bit_xor_assoc high low b,
      xor_parts 8 (r / 2 ^ 8) (bit_xor low b) small,
    )

pub shift_byte_parts : (r : ℕ) → shift_bits 8 r ≡ bit_xor (shift_bits 8 (r % 2 ^ 8)) (r / 2 ^ 8)
shift_byte_parts r =
    let whole : bit_xor (r / 2 ^ 8 * 2 ^ 8) (r % 2 ^ 8) ≡ r =
      omega (arith, xor_parts 8 (r / 2 ^ 8) (r % 2 ^ 8) (omega arith)) in
    ap (shift_bits 8) (sym whole)
    ∙ shift_bits-bit_xor 8 (r / 2 ^ 8 * 2 ^ 8) (r % 2 ^ 8)
    ∙ ap (λ t. bit_xor t (shift_bits 8 (r % 2 ^ 8))) (shift_bits-high 8 (r / 2 ^ 8))
    ∙ bit_xor_comm (r / 2 ^ 8) (shift_bits 8 (r % 2 ^ 8))

-- Every entry of the table, by evaluation.
lut_table : holds_from 256 0 (λ i. get_or crc32_lut i 0 == shift_bits 8 i) ≡ true
unfolding holds_from crc32_lut shift_bits
lut_table = refl

pub get_or-crc32_lut : (i : ℕ) → i < 256 → get_or crc32_lut i 0 ≡ shift_bits 8 i
get_or-crc32_lut i h = (==_iff (get_or crc32_lut i 0) (shift_bits 8 i)).0 (
    holds_from-at 256 0 (λ j. get_or crc32_lut j 0 == shift_bits 8 j) i lut_table (omega arith)
      (omega arith))
