-- ===== src/Memory/Compare.antt =====
-- Memcmp (Common/Kernel/Memory/Memory.c) orders two areas by their first difference.
use mathlib.Core.Path.{subst}
use serra.Base.{
  sym, ℕ, zero, suc, ◌+◌, ◌<◌, ◌≤◌, ◌≡◌, inl, inr, ltb, Bool-cases, ltb→lt, ltb→le, ltb→lt, arith,
}
use serra.Memory.{Memory, Sign, minus, equal, plus, memcmp_loop, memcmp}

-- The bytes agree below `i` and differ at `i`, in the way that the sign says.
abbrev pub DiffersAt : Memory → ℕ → ℕ → ℕ → Sign → Type 0
DiffersAt m a b i minus = m (a + i) < m (b + i)
DiffersAt m a b i equal = ⊥
DiffersAt m a b i plus = m (b + i) < m (a + i)

abbrev pub Agree : Memory → ℕ → ℕ → (from to : ℕ) → Type 0
Agree m a b from to = (j : ℕ) → from ≤ j → j < to → m (a + j) ≡ m (b + j)

-- All bytes from `from` on agree, or there is a first one that does not.
abbrev pub Compares : Memory → ℕ → ℕ → (from to : ℕ) → Sign → Type 0
Compares m a b from to equal = Agree m a b from to
Compares m a b from to sign =
    (i : ℕ) × (from ≤ i) × (i < to) × DiffersAt m a b i sign × Agree m a b from i

module _ (m : Memory) (a b from : ℕ) (e : m (a + from) ≡ m (b + from)) where
  Agree-step : (to : ℕ) → Agree m a b (from + 1) to → Agree m a b from to
  Agree-step to c j low high = elim (Bool-cases (ltb from j)) [
    | inl more ↦ c j (omega (arith, ltb→lt from j more)) high
    | inr same ↦
        let here : j ≡ from = omega (arith, ltb→le from j same) in
        subst (λ k. m (a + k) ≡ m (b + k)) (sym here) e
  ]

  Compares-step : (to : ℕ) (s : Sign) → Compares m a b (from + 1) to s → Compares m a b from to s
  Compares-step to equal c = Agree-step to c
  Compares-step to minus (i, low, high, d, c) = (i, omega arith, high, d, Agree-step i c)
  Compares-step to plus (i, low, high, d, c) = (i, omega arith, high, d, Agree-step i c)

memcmp_loop-Compares :
    (n from to : ℕ) (m : Memory) (a b : ℕ)
    → from + n ≡ to
    → Compares m a b from to (memcmp_loop n from m a b)
unfolding memcmp_loop
memcmp_loop-Compares zero from to m a b e = λ j p q. absurd (omega arith)
memcmp_loop-Compares (suc n) from to m a b e =
    elim (Bool-cases (ltb (m (a + from)) (m (b + from)))) [
      | inl less ↦
          rw less (from, omega arith, omega arith, ltb→lt _ _ less, λ j p q. absurd (omega arith))
      | inr not_less ↦ rw not_less (elim (Bool-cases (ltb (m (b + from)) (m (a + from)))) [
        | inl more ↦
            rw more (from, omega arith, omega arith, ltb→lt _ _ more, λ j p q. absurd (omega arith))
        | inr not_more ↦ rw not_more (
            Compares-step m a b from (omega (arith, ltb→le _ _ not_less, ltb→le _ _ not_more)) to _
              (memcmp_loop-Compares n (from + 1) to m a b (omega arith)))
      ])
    ]

-- Memcmp returns 0 only for areas that agree, and else the order of the first bytes that differ:
-- -1 if the first area has the lesser byte there, 1 if it has the greater.
pub memcmp-Compares : (m : Memory) (a b size : ℕ) → Compares m a b 0 size (memcmp m a b size)
unfolding memcmp
memcmp-Compares m a b size = memcmp_loop-Compares size 0 size m a b (omega arith)
