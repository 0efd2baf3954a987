-- ===== src/Mm/Level.antt =====
-- Common/Kernel/Memory/Mm.c: the level of a size, `while (Size > (1ULL << Level)) Level++`.
use serra.Base.{
  from_index, ℕ, zero, suc, ◌+◌, ◌-◌, ◌^◌, ◌<◌, ◌≤◌, ◌≡◌, refl, inl, inr, Option, none, some, true,
  false, ltb, leb, if◌then◌else◌, arith, Bool-cases, ltb→lt, ltb→le,
}
use native.Mathlib.Nat.{pow-suc, le_refl}
use mathlib.Core.Path.{subst, ◌∙◌}

-- A shift by 64 or more has no defined value: `none`.
unfoldable pub level_loop : ℕ → ℕ → ℕ → Option ℕ
level_loop zero size level = none
level_loop (suc f) size level =
    let rest = level_loop f size (level + 1) in
    if leb 64 level then none else if ltb (2 ^ level) size then rest else some level

-- From `Limits[0]` on; the shift is past 63 after at most 64 rounds.
unfoldable pub level_of : ℕ → ℕ → Option ℕ
level_of lowest size = level_loop 65 size lowest

-- The least level from `lowest` on whose blocks hold `size` bytes.
pub record IsLevel (lowest size level : ℕ) : Type 0 where
  pub above : lowest ≤ level
  pub holds : size ≤ 2 ^ level
  pub least : (k : ℕ) → lowest ≤ k → k < level → 2 ^ k < size

level_loop_stop :
    (f size level : ℕ)
    → level ≤ 63
    → ltb (2 ^ level) size ≡ false
    → level_loop (suc f) size level ≡ some level
unfolding level_loop
level_loop_stop f size level p e = rw e (ground arith)

level_loop_next :
    (f size level : ℕ)
    → level ≤ 63
    → ltb (2 ^ level) size ≡ true
    → level_loop (suc f) size level ≡ level_loop f size (level + 1)
unfolding level_loop
level_loop_next f size level p e = rw e (ground arith)

pub pow_mono : (a b : ℕ) → 2 ^ a ≤ 2 ^ (b + a)
pow_mono a zero = let e : 0 + a ≡ a = omega arith in rw e (le_refl (2 ^ a))
pow_mono a (suc b) =
    let e : suc b + a ≡ suc (b + a) = omega arith in
    rw e (omega (arith, pow-suc 2 (b + a), pow_mono a b))

-- A level up to 63 has blocks of at most 2 ^ 63 bytes.
pow_le : (level : ℕ) → level ≤ 63 → 2 ^ level ≤ 2 ^ 63
pow_le level h =
    let e : 63 - level + level ≡ 63 = omega arith in
    subst (λ k. 2 ^ level ≤ 2 ^ k) e (pow_mono level (63 - level))

level_lt : (size level : ℕ) → level ≤ 63 → size ≤ 2 ^ 63 → 2 ^ level < size → level + 1 ≤ 63
level_lt size level p q h = elim (Bool-cases (ltb level 63)) [
  | inl less ↦ omega (arith, ltb→lt level 63 less)
  | inr top ↦
      let e : level ≡ 63 = omega (arith, ltb→le level 63 top) in
      absurd (omega (arith, subst (λ k. 2 ^ k < size) e h))
]

level_loop-IsLevel :
    (f size level : ℕ)
    → level ≤ 63
    → 63 < level + f
    → size ≤ 2 ^ 63
    → (l : ℕ) × (level_loop f size level ≡ some l) × (l ≤ 63) × IsLevel level size l
level_loop-IsLevel zero size level p q r = absurd (omega arith)
level_loop-IsLevel (suc f) size level p q r = elim (Bool-cases (ltb (2 ^ level) size)) [
  | inr fits ↦ (
    level,
    level_loop_stop f size level p fits,
    p,
    record {
      above = omega arith;
      holds = ltb→le (2 ^ level) size fits;
      least = λ k low high. absurd (omega arith);
    },
  )
  | inl more ↦
      let (l, e, high, h) =
        level_loop-IsLevel f size (level + 1)
          (level_lt size level p r (ltb→lt (2 ^ level) size more)) (omega arith) r in
      (
        l,
        level_loop_next f size level p more ∙ e,
        high,
        record {
          above = omega (arith, h.above);
          holds = h.holds;
          least = λ k low small.
              from_index (λ j. 2 ^ j < size) level k low (ltb→lt (2 ^ level) size more)
                (λ next. h.least k next small);
        },
      )
]

-- For every size up to 2 ^ 63 the search for a level from `lowest` on ends, with the least level whose
-- blocks are large enough, and that level is at most 63.
pub level_of-IsLevel :
    (lowest size : ℕ)
    → lowest ≤ 63
    → size ≤ 2 ^ 63
    → (l : ℕ) × (level_of lowest size ≡ some l) × (l ≤ 63) × IsLevel lowest size l
unfolding level_of
level_of-IsLevel lowest size p q = level_loop-IsLevel 65 size lowest p (omega arith) q

level_loop-none : (f size level : ℕ) → 2 ^ 63 < size → level_loop f size level ≡ none
unfolding level_loop
level_loop-none zero size level h = refl
level_loop-none (suc f) size level h =
    ground (arith, level_loop-none f size (level + 1), pow_le level)

-- For a size above 2 ^ 63 there is no level: the search shifts by 64, before any check of the result
-- against the highest level.
level_of-none : (lowest size : ℕ) → 2 ^ 63 < size → level_of lowest size ≡ none
unfolding level_of
level_of-none lowest size h = level_loop-none 65 size lowest h
