-- ===== src/E820/Sort.antt =====
-- The insertion sort of the memory map (Boot/Legacy/Stage3/Bootloader.c).
use mathlib.Core.Path.{subst}
use native.Mathlib.Decide.{ℕ_discrete}
use serra.Base.{
  ℕ, zero, suc, ◌+◌, ◌-◌, ◌≤◌, ◌<◌, ◌≡◌, ◌≢◌, refl, sym, ap, ◌∙◌, ltb, arith, if_cases, ltb→lt,
  ltb→le,
}
use serra.E820.{MmapEntry, Entries, swap, sift, sort_from, sort_mmap}

-- The sum of a weight over the first `n` entries.
unfoldable pub total : (MmapEntry → ℕ) → (n : ℕ) → Entries → ℕ
total w zero a = 0
total w (suc n) a = total w n a + w (a n)

-- The first `n` entries ascend by their base.
abbrev pub Ascends : (n : ℕ) → Entries → Type 0
Ascends n a = (i j : ℕ) → i < j → j < n → (a i).base ≤ (a j).base

pub total_agree :
    (w : MmapEntry → ℕ) (n : ℕ) (a b : Entries)
    → ((i : ℕ) → i < n → a i ≡ b i)
    → total w n a ≡ total w n b
unfolding total
total_agree w zero a b same = refl
total_agree w (suc n) a b same =
    omega (arith, total_agree w n a b (λ i h. same i (omega arith)), ap w (same n (omega arith)))

swap_first : (p : ℕ) (a : Entries) → swap p a p ≡ a (p + 1)
unfolding swap
swap_first p a = ground arith

swap_second : (p : ℕ) (a : Entries) → swap p a (p + 1) ≡ a p
unfolding swap
swap_second p a = ground arith

swap_other : (p : ℕ) (a : Entries) (i : ℕ) → i ≢ p → i ≢ p + 1 → swap p a i ≡ a i
unfolding swap
swap_other p a i h k = ground arith

-- What stands at an index after a swap.
swap_cases :
    (P : MmapEntry → Type 0) (p : ℕ) (a : Entries) (i : ℕ)
    → (i ≡ p → P (a (suc p)))
    → (i ≡ suc p → P (a p))
    → (i ≢ p → i ≢ suc p → P (a i))
    → P (swap p a i)
swap_cases P p a i at_first at_second elsewhere = elim (ℕ_discrete i p) [
  | yes here ↦
      subst P (sym (rw here (swap_first p a ∙ ap a (let e : p + 1 ≡ suc p = omega arith in e))))
        (at_first here)
  | no other ↦ elim (ℕ_discrete i (suc p)) [
    | yes here ↦
        let e : i ≡ p + 1 = omega arith in subst P (sym (rw e (swap_second p a))) (at_second here)
    | no neither ↦
        subst P (sym (swap_other p a i other (λ e. neither (omega arith))))
          (elsewhere other neither)
  ]
]

total-swap_last :
    (w : MmapEntry → ℕ) (n : ℕ) (a : Entries)
    → total w n (swap n a) + w (swap n a n) + w (swap n a (suc n))
      ≡ total w n a + w (a n) + w (a (suc n))
total-swap_last w n a =
    let before =
      total_agree w n (swap n a) a
        (λ i low. swap_other n a i (λ e. absurd (omega arith)) (λ e. absurd (omega arith))) in
    let next : n + 1 ≡ suc n = omega arith in
    omega (
      arith,
      before,
      ap w (swap_first n a ∙ ap a next),
      ap w (subst (λ (k : ℕ). swap n a k ≡ a n) next (swap_second n a)),
    )

-- A swap below `n` keeps every sum.
total-swap :
    (w : MmapEntry → ℕ) (n p : ℕ) (a : Entries) → p + 1 < n → total w n (swap p a) ≡ total w n a
unfolding total
total-swap w zero p a h = absurd (omega arith)
total-swap w (suc zero) p a h = absurd (omega arith)
total-swap w (suc (suc n)) p a h = elim (ℕ_discrete p n) [
  | yes here ↦ rw here (total-swap_last w n a)
  | no other ↦ omega (
    arith,
    total-swap w (suc n) p a (omega arith),
    ap w (swap_other p a (suc n) (λ e. absurd (omega arith)) (λ e. other (omega arith))),
  )
]

total-sift :
    (w : MmapEntry → ℕ) (n p : ℕ) (a : Entries) → p < n → total w n (sift p a) ≡ total w n a
unfolding sift
total-sift w n zero a h = refl
total-sift w n (suc p) a h =
    let rest = total-sift w n p (swap p a) (omega arith) ∙ total-swap w n p a (omega arith) in
    if_cases (λ (b : Entries). total w n b ≡ total w n a) (ltb (a (suc p)).base (a p).base)
      (λ _. rest) (λ _. refl)

-- The first `t + 1` entries ascend but for the one at `p`, which is not above those after it.
abbrev Sifts : (t p : ℕ) → Entries → Type 0
Sifts t p a = (i j : ℕ) → i < j → j ≤ t → j ≢ p → (a i).base ≤ (a j).base

sift-Ascends : (t p : ℕ) (a : Entries) → p ≤ t → Sifts t p a → Ascends (suc t) (sift p a)
unfolding sift
sift-Ascends t zero a h s = λ i j lo hi. s i j lo (omega arith) (λ e. absurd (omega arith))
sift-Ascends t (suc p) a h s =
    if_cases (Ascends (suc t)) (ltb (a (suc p)).base (a p).base)
      (λ less. sift-Ascends t p (swap p a) (omega arith) (swap-Sifts (ltb→lt _ _ less)))
      (λ stop i j lo hi. elim (ℕ_discrete j (suc p)) [
        | yes here ↦ rw here (last_step i (omega arith) (ltb→le _ _ stop))
        | no other ↦ s i j lo (omega arith) other
      ])
  where
    swap-Sifts : (a (suc p)).base < (a p).base → Sifts t p (swap p a)
    swap-Sifts less i j lo hi other =
        swap_cases (λ (y : MmapEntry). (swap p a i).base ≤ y.base) p a j
          (λ here. absurd (other here))
          (λ here.
            swap_cases (λ (x : MmapEntry). x.base ≤ (a p).base) p a i (λ _. omega arith)
              (λ same. absurd (omega arith))
              (λ h1 h2. s i p (omega arith) (omega arith) (λ e. absurd (omega arith))))
          (λ _ above.
            swap_cases (λ (x : MmapEntry). x.base ≤ (a j).base) p a i
              (λ here. s (suc p) j (omega arith) hi above) (λ here. s p j (omega arith) hi above)
              (λ _ _. s i j lo hi above))

    last_step : (i : ℕ) → i ≤ p → (a p).base ≤ (a (suc p)).base → (a i).base ≤ (a (suc p)).base
    last_step i low step = elim (ℕ_discrete i p) [
      | yes here ↦ rw here step
      | no other ↦
          let before = s i p (omega arith) (omega arith) (λ e. absurd (omega arith)) in omega arith
    ]

sort_from-Ascends :
    (left t : ℕ) (a : Entries) → Ascends t a → Ascends (left + t) (sort_from left t a)
unfolding sort_from
sort_from-Ascends zero t a sorted = λ i j lo hi. sorted i j lo (omega arith)
sort_from-Ascends (suc left) t a sorted =
    let rest = sort_from-Ascends left (t + 1) (sift t a) (λ i j lo hi.
      sift-Ascends t t a (omega arith) (λ k l below high other. sorted k l below (omega arith)) i j
        lo (omega arith)) in
    λ i j lo hi. rest i j lo (omega arith)

total-sort_from :
    (w : MmapEntry → ℕ) (n left t : ℕ) (a : Entries)
    → left + t ≤ n
    → total w n (sort_from left t a) ≡ total w n a
unfolding sort_from
total-sort_from w n zero t a h = refl
total-sort_from w n (suc left) t a h =
    total-sort_from w n left (t + 1) (sift t a) (omega arith) ∙ total-sift w n t a (omega arith)

-- The insertion sort leaves the entries in ascending order of their base, and keeps the sum of
-- every weight over them, so each entry stands there as often as before.
pub sort_mmap-Ascends :
    (num : ℕ) (a : Entries)
    → Ascends num (sort_mmap num a)
      × ((w : MmapEntry → ℕ) → total w num (sort_mmap num a) ≡ total w num a)
unfolding sort_mmap sort_from
sort_mmap-Ascends zero a = (λ i j lo hi. absurd (omega arith), λ w. refl)
sort_mmap-Ascends (suc num) a = (
  λ i j lo hi.
      sort_from-Ascends (suc num - 1) 1 a (λ k l below high. absurd (omega arith)) i j lo
        (omega arith),
  λ w. total-sort_from w (suc num) (suc num - 1) 1 a (omega arith),
)
