-- ===== src/Base/Or.antt =====
-- Laws of inclusive or at variables, from the digits that the native operation stands for.
use Prim.Native.Nat.{
  ℕ, zero, suc, ◌+◌, ◌*◌, ◌/◌, ◌%◌, ◌≤◌, ◌<◌, ◌^◌, max, digits, bit_or, bit_or-bitwise,
}
use mathlib.Core.Path.{◌≡◌, refl, sym, ap, ◌∙◌}
use mathlib.Core.Logic.{◌⊎◌, inl, inr}
use native.Mathlib.Nat.{pow-suc, mul_assoc}
use native.Mathlib.Omega.{arith}

abbrev or_digits : ℕ → ℕ → ℕ → ℕ
or_digits n a b = digits (λ b. b) max n a b

-- More fuel than the first number has digits changes nothing.
or_digits_fuel : (n m a b : ℕ) → a ≤ n → a ≤ m → or_digits n a b ≡ or_digits m a b
or_digits_fuel zero zero a b p q = refl
or_digits_fuel zero (suc m) zero b p q = refl
or_digits_fuel zero (suc m) (suc a) b p q = absurd (omega arith)
or_digits_fuel (suc n) zero zero b p q = refl
or_digits_fuel (suc n) zero (suc a) b p q = absurd (omega arith)
or_digits_fuel (suc n) (suc m) zero b p q = refl
or_digits_fuel (suc n) (suc m) (suc a) b p q =
    ap (λ (t : ℕ). t * 2 + max (suc a % 2) (b % 2))
      (or_digits_fuel n m (suc a / 2) (b / 2) (omega arith) (omega arith))

pub zero-bit_or : (b : ℕ) → bit_or 0 b ≡ b
zero-bit_or b = bit_or-bitwise 0 b

zero-max : (b : ℕ) → max 0 b ≡ b
zero-max b = ground arith

max-zero : (b : ℕ) → max b 0 ≡ b
max-zero b = ground arith

pub bit_or_step : (a b : ℕ) → bit_or a b ≡ bit_or (a / 2) (b / 2) * 2 + max (a % 2) (b % 2)
bit_or_step zero b = omega (arith, zero-bit_or b, zero-bit_or (b / 2), zero-max (b % 2))
bit_or_step (suc a) b = omega (
  arith,
  bit_or-bitwise (suc a) b,
  bit_or-bitwise (suc a / 2) (b / 2),
  or_digits_fuel a (suc a / 2) (suc a / 2) (b / 2) (omega arith) (omega arith),
)

-- The digits of the result are those of its parts.
max_digit : (x y : ℕ) → x < 2 → y < 2 → (max x y < 2) × (x ≤ max x y) × (y ≤ max x y)
max_digit x y p q = ground arith

pub half-bit_or : (a b : ℕ) → bit_or a b / 2 ≡ bit_or (a / 2) (b / 2)
half-bit_or a b =
    omega (arith, bit_or_step a b, max_digit (a % 2) (b % 2) (omega arith) (omega arith))

pub low-bit_or : (a b : ℕ) → bit_or a b % 2 ≡ max (a % 2) (b % 2)
low-bit_or a b =
    omega (arith, bit_or_step a b, max_digit (a % 2) (b % 2) (omega arith) (omega arith))

bit_or-zero_fuel : (n a : ℕ) → a ≤ n → bit_or a 0 ≡ a
bit_or-zero_fuel n zero h = refl
bit_or-zero_fuel zero (suc a) h = absurd (omega arith)
bit_or-zero_fuel (suc n) (suc a) h = omega (
  arith,
  bit_or_step (suc a) 0,
  bit_or-zero_fuel n (suc a / 2) (omega arith),
  max-zero (suc a % 2),
)

pub bit_or-zero : (a : ℕ) → bit_or a 0 ≡ a
bit_or-zero a = bit_or-zero_fuel a a (omega arith)

-- A digit that one part has, the result has.
pub odd-bit_or : (a b : ℕ) → (a % 2 ≡ 1) ⊎ (b % 2 ≡ 1) → bit_or a b % 2 ≡ 1
odd-bit_or a b (inl odd) =
    omega (arith, odd, low-bit_or a b, max_digit (a % 2) (b % 2) (omega arith) (omega arith))
odd-bit_or a b (inr odd) =
    omega (arith, odd, low-bit_or a b, max_digit (a % 2) (b % 2) (omega arith) (omega arith))

pub quarter-bit_or : (a b : ℕ) → bit_or a b / 4 ≡ bit_or (a / 4) (b / 4)
quarter-bit_or a b =
    let a4 : a / 2 / 2 ≡ a / 4 = omega arith in
    let b4 : b / 2 / 2 ≡ b / 4 = omega arith in
    let halves : bit_or (a / 2) (b / 2) / 2 ≡ bit_or (a / 4) (b / 4) =
      half-bit_or (a / 2) (b / 2) ∙ ap2 a4 b4 in
    omega (arith, half-bit_or a b, halves)
  where
    ap2 : {x x' y y' : ℕ} → x ≡ x' → y ≡ y' → bit_or x y ≡ bit_or x' y'
    ap2 p q = cc

-- Inclusive or stays within a width.
pub bit_or-lt : (k a b : ℕ) → a < 2 ^ k → b < 2 ^ k → bit_or a b < 2 ^ k
bit_or-lt zero zero zero p q = omega arith
bit_or-lt zero zero (suc b) p q = absurd (omega arith)
bit_or-lt zero (suc a) b p q = absurd (omega arith)
bit_or-lt (suc k) a b p q = omega (
  arith,
  pow-suc 2 k,
  bit_or_step a b,
  max_digit (a % 2) (b % 2) (omega arith) (omega arith),
  bit_or-lt k (a / 2) (b / 2) (omega (arith, pow-suc 2 k)) (omega (arith, pow-suc 2 k)),
)

-- Where the parts have no digit in common, it is their sum.
pub bit_or-add : (k a b : ℕ) → b < 2 ^ k → bit_or (a * 2 ^ k) b ≡ a * 2 ^ k + b
bit_or-add zero a zero p = omega (arith, bit_or-zero (a * 2 ^ 0))
bit_or-add zero a (suc b) p = absurd (omega arith)
bit_or-add (suc k) a b p =
    let twice : a * 2 ^ suc k ≡ a * 2 ^ k * 2 =
      ap (λ (t : ℕ). a * t) (pow-suc 2 k) ∙ sym (mul_assoc a (2 ^ k) 2) in
    let half : a * 2 ^ k * 2 / 2 ≡ a * 2 ^ k = omega arith in
    rw twice (
      omega (
        arith,
        bit_or_step (a * 2 ^ k * 2) b,
        ap (λ (t : ℕ). bit_or t (b / 2)) half,
        zero-max (b % 2),
        ap (λ (t : ℕ). max t (b % 2)) (let e : a * 2 ^ k * 2 % 2 ≡ 0 = omega arith in e),
        bit_or-add k a (b / 2) (omega (arith, pow-suc 2 k)),
      ))
