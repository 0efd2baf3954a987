-- ===== src/Mm/Init/Powers.antt =====
-- InitializeMemoryManagementSubsystem (Common/Kernel/Memory/Mm.c): the base-two logarithm, and the blocks
-- that the space of a memory map entry is cut into.
use native.Mathlib.Nat.{
  mod-eq_of_lt, add-mul, mod-le, mod-lt, add-mul-mod_self_right, pow-suc, le-div_iff_mul-le,
  div-eq_of_lt,
}
use serra.Base.{
  ==_iff, ℕ, suc, zero, ◌+◌, ◌-◌, ◌*◌, ◌/◌, ◌%◌, ◌^◌, ◌<◌, ◌≤◌, ◌≡◌, refl, inl, inr, true, false,
  not, ltb, leb, ◌==◌, if◌then◌else◌, arith, ap, ◌∙◌, sym, Bool-cases, ltb→lt, ltb→le,
}
use mathlib.Core.Path.{subst}
use serra.Mm.Level.{pow_mono}
use serra.Mm.State.{Mm, scaling_factor, system_page_size}
use serra.Mm.Init.{logarithm_loop, logarithm, push_initial, push_space}

lt→leb : (a b : ℕ) → b < a → leb a b ≡ false
lt→leb a b h = ground arith

le→leb : (a b : ℕ) → a ≤ b → leb a b ≡ true
le→leb a b h = ground arith

pow_pos : (k : ℕ) → 0 < 2 ^ k
pow_pos zero = omega arith
pow_pos (suc k) = omega (arith, pow-suc 2 k, pow_pos k)

div_test : (a b : ℕ) → 0 < b → not (a / b == 0) ≡ leb b a
div_test a b h = elim (Bool-cases (ltb a b)) [
  | inl less ↦
      let e = div-eq_of_lt (ltb→lt a b less) in
      let f : leb b a ≡ false = ground arith in rw (e, f) refl
  | inr more ↦
      let e : 1 ≤ a / b = (le-div_iff_mul-le h).1 (omega (arith, ltb→le a b more)) in
      let f : leb b a ≡ true = ground arith in
      let g : not (a / b == 0) ≡ true = ground arith in rw (f, g) refl
]

-- `space` has `l + 1` binary digits.
pub record IsLogarithm (space l : ℕ) : Type 0 where
  pub low : 2 ^ l ≤ space
  pub high : space < 2 ^ suc l

logarithm_loop-IsLogarithm :
    (f space l : ℕ)
    → 2 ^ l ≤ space
    → space < 2 ^ suc (f + l)
    → IsLogarithm space (logarithm_loop f space (suc l))
unfolding logarithm_loop
logarithm_loop-IsLogarithm zero space l low high =
    let back : suc l - 1 ≡ l = omega arith in
    let none_left : 0 + l ≡ l = omega arith in
    let high' : space < 2 ^ suc l = subst (λ k. space < 2 ^ suc k) none_left high in
    rw back (record { low = low; high = high' })
logarithm_loop-IsLogarithm (suc f) space l low high =
    let e : suc l + 1 ≡ suc (suc l) = omega arith in
    let shift : suc (suc f + l) ≡ suc (f + suc l) = omega arith in
    let test = div_test space (2 ^ suc l) (pow_pos (suc l)) in
    elim (Bool-cases (ltb space (2 ^ suc l))) [
      | inl less ↦
          let stop : leb (2 ^ suc l) space ≡ false = ground arith in
          let back : suc l - 1 ≡ l = omega arith in
          rw (test, stop, back) (record { low = low; high = ltb→lt _ _ less })
      | inr more ↦
          let go : leb (2 ^ suc l) space ≡ true = ground arith in
          rw (test, go, e)
            (logarithm_loop-IsLogarithm f space (suc l) (ltb→le _ _ more) (rw (← shift) high))
    ]

-- The loop over the shifts finds the base-two logarithm of every 64-bit number that is not 0.
pub logarithm-IsLogarithm :
    (space : ℕ) → 0 < space → space < 2 ^ 64 → IsLogarithm space (logarithm space)
unfolding logarithm logarithm_loop
logarithm-IsLogarithm space pos fits =
    let test = div_test space (2 ^ 0) (pow_pos 0) in
    let go : leb (2 ^ 0) space ≡ true = ground arith in
    rw (test, go) (logarithm_loop-IsLogarithm 64 space 0 (omega arith) (omega arith))

pushed_head :
    (start reserved offset level previous : ℕ) (s : Mm) (k : ℕ)
    → (push_initial start reserved offset level previous s).heads k
      ≡ (if k == level then start + offset / scaling_factor else s.heads k)
unfolding push_initial
pushed_head start reserved offset level previous s k = ground arith

-- Where the block of level `k` stands in the list of its level after `space` bytes at `offset` were cut
-- up: it is there if the binary digit of the level is set, behind the blocks of all higher levels.
abbrev pub block_head : (start offset space k old : ℕ) → ℕ
block_head start offset space k old =
    if leb (2 ^ k) (space % 2 ^ suc k)
    then start + (offset + (space - space % 2 ^ suc k)) / scaling_factor
    else old

pow_add : (a b : ℕ) → 2 ^ (a + b) ≡ 2 ^ a * 2 ^ b
pow_add zero b = let e : 0 + b ≡ b = omega arith in rw e (omega arith)
pow_add (suc a) b =
    let e : suc a + b ≡ suc (a + b) = omega arith in
    let d : 2 ^ suc a ≡ 2 ^ a + 2 ^ a = omega (arith, pow-suc 2 a) in
    rw (e, d) (omega (arith, pow-suc 2 (a + b), pow_add a b, add-mul (2 ^ a) (2 ^ a) (2 ^ b)))

below_level : (k l : ℕ) → k < l → (q : ℕ) × (2 ^ l ≡ q * 2 ^ suc k)
below_level k l h =
    let e : l - suc k + suc k ≡ l = omega arith in
    (2 ^ (l - suc k), ap (λ (j : ℕ). 2 ^ j) (sym e) ∙ pow_add (l - suc k) (suc k))

module _ (space l k : ℕ) (h : IsLogarithm space l) where
  same_digits : k < l → (space - 2 ^ l) % 2 ^ suc k ≡ space % 2 ^ suc k
  same_digits below =
      let (q, e) = below_level k l below in
      let f : space ≡ space - 2 ^ l + q * 2 ^ suc k = omega (arith, h.low) in
      sym (ap (λ (x : ℕ). x % 2 ^ suc k) f ∙ add-mul-mod_self_right (space - 2 ^ l) q (2 ^ suc k))

  all_digits : l ≤ k → space % 2 ^ suc k ≡ space
  all_digits above =
      let e : k - l + suc l ≡ suc k = omega arith in
      mod-eq_of_lt
        (omega (arith, h.high, subst (λ j. 2 ^ suc l ≤ 2 ^ j) e (pow_mono (suc l) (k - l))))

  above_level : l < k → space < 2 ^ k
  above_level above =
      let e : k - suc l + suc l ≡ k = omega arith in
      omega (arith, h.high, subst (λ j. 2 ^ suc l ≤ 2 ^ j) e (pow_mono (suc l) (k - suc l)))

-- One round: the block of the highest digit, and the rest behind it.
block_head_round :
    (start offset space l k old : ℕ)
    → IsLogarithm space l
    → block_head start
        (offset + 2 ^ l)
        (space - 2 ^ l)
        k
        (if k == l then start + offset / scaling_factor else old)
      ≡ block_head start offset space k old
block_head_round start offset space l k old h = elim (Bool-cases (ltb k l)) [
  | inl below ↦
      let less = ltb→lt k l below in
      let e = same_digits space l k h less in
      let other : (k == l) ≡ false = ground arith in
      let place : offset + 2 ^ l + (space - 2 ^ l - space % 2 ^ suc k)
          ≡ offset + (space - space % 2 ^ suc k) =
        omega (arith, h.low, e, mod-le (space - 2 ^ l) (2 ^ suc k)) in
      rw (e, other, place) refl
  | inr rest ↦
      let above = ltb→le k l rest in
      let e = all_digits space l k h above in
      let bound : space < 2 ^ suc k =
        subst (λ x. x < 2 ^ suc k) e (mod-lt space (pow_pos (suc k))) in
      let e' : (space - 2 ^ l) % 2 ^ suc k ≡ space - 2 ^ l = mod-eq_of_lt (omega arith) in
      elim (Bool-cases (k == l)) [
        | inl same ↦
            let eq = (==_iff k l).0 same in
            let two = pow-suc 2 l in
            let no_more : leb (2 ^ k) (space - 2 ^ l) ≡ false =
              rw eq (lt→leb _ _ (omega (arith, h.high))) in
            let set : leb (2 ^ k) space ≡ true = rw eq (le→leb _ _ h.low) in
            let place : offset + (space - space) ≡ offset = omega arith in
            rw (e, e', no_more, set, same, place) refl
        | inr other ↦
            let apart : l < k = ground arith in
            let small = above_level space l k h apart in
            let unset : leb (2 ^ k) space ≡ false = lt→leb _ _ small in
            let unset' : leb (2 ^ k) (space - 2 ^ l) ≡ false = lt→leb _ _ (omega arith) in
            rw (e, e', unset, unset', other) refl
      ]
]

small_space :
    (start offset space k old : ℕ) → space < 2 ^ k → block_head start offset space k old ≡ old
small_space start offset space k old h =
    let unset : leb (2 ^ k) (space % 2 ^ suc k) ≡ false =
      lt→leb _ _ (omega (arith, mod-le space (2 ^ suc k))) in
    rw unset refl

-- The rest of the space has fewer digits.
rest_below : (f space l : ℕ) → space < 2 ^ suc f → IsLogarithm space l → space - 2 ^ l < 2 ^ f
rest_below f space l fits h = elim (Bool-cases (ltb f l)) [
  | inl less ↦
      let e : l - suc f + suc f ≡ l = omega (arith, ltb→lt f l less) in
      absurd (omega (arith, h.low, subst (λ j. 2 ^ suc f ≤ 2 ^ j) e (pow_mono (suc f) (l - suc f))))
  | inr more ↦
      let e : f - l + l ≡ f = omega (arith, ltb→le f l more) in
      omega
        (arith, h.high, pow-suc 2 l, subst (λ j. 2 ^ l ≤ 2 ^ j) e (pow_mono l (f - l)), pow_pos l)
]

-- The heads that the loop over the powers of two leaves, with f rounds for a space below 2 ^ f, f at most
-- 64. For each level from that of a page on: where the binary digit of the level is set in the space, the
-- head is the node of the block that stands behind the blocks of all higher digits, and elsewhere the head
-- is the old one.
pub push_space-heads :
    (f start reserved space offset previous : ℕ) (s : Mm) (k : ℕ)
    → space < 2 ^ f
    → f ≤ 64
    → 12 ≤ k
    → (push_space f start reserved space offset previous s).1.heads k
      ≡ block_head start offset space k (s.heads k)
unfolding push_space
push_space-heads zero start reserved space offset previous s k fits rounds page =
    sym (small_space start offset space k (s.heads k) (omega (arith, pow_pos k)))
push_space-heads (suc f) start reserved space offset previous s k fits rounds page =
    elim (Bool-cases (ltb space system_page_size)) [
      | inl small ↦
          let e : k - 12 + 12 ≡ k = omega arith in
          let room = subst (λ j. 2 ^ 12 ≤ 2 ^ j) e (pow_mono 12 (k - 12)) in
          rw small (
            sym (
              small_space start offset space k (s.heads k)
                (omega (arith, ltb→lt space 4096 small))))
      | inr large ↦
          let l = logarithm space in
          let wide : 64 - suc f + suc f ≡ 64 = omega arith in
          let low = ltb→le space 4096 large in
          let h =
            logarithm-IsLogarithm space (omega arith) (
              omega (arith, subst (λ j. 2 ^ suc f ≤ 2 ^ j) wide (pow_mono (suc f) (64 - suc f)))) in
          let s1 = push_initial start reserved offset l previous s in
          let rest =
            push_space-heads f start reserved (space - 2 ^ l) (offset + 2 ^ l)
              (start + offset / scaling_factor) s1 k (rest_below f space l fits h) (omega arith)
              page in
          rw large (
            rest
            ∙ ap (block_head start (offset + 2 ^ l) (space - 2 ^ l) k)
                (pushed_head start reserved offset l previous s k)
            ∙ block_head_round start offset space l k (s.heads k) h)
    ]
