-- ===== src/Mm/Allocator/Divide.antt =====
-- Allocate (Common/Kernel/Memory/Mm.c): which block a request is given, and when there is none.
use serra.Base.{
  ℕ, zero, suc, ◌+◌, ◌-◌, ◌^◌, ◌<◌, ◌≤◌, ◌≡◌, refl, ◌≢◌, Bool, true, false, not, ◌||◌, some, ltb,
  ◌==◌, arith, ap, ◌∙◌, sym, Bool-cases, inl, inr, ltb→lt, ltb→le,
}
use mathlib.Core.Path.{subst}
use serra.Mm.State.{Mm}
use serra.Mm.Level.{level_of, IsLevel, level_of-IsLevel, pow_mono}
use serra.Mm.Block.{pop_block, divide_block}
use serra.Mm.Block.Stack.{Pops, pop_block-Pops, Heads, divide_block-Heads}
use serra.Mm.Allocator.{no_entries, divide_larger, allocate_level, allocate}

-- Two least levels are the same.
IsLevel-unique : (lowest size a b : ℕ) → IsLevel lowest size a → IsLevel lowest size b → a ≡ b
IsLevel-unique lowest size a b p q = elim (Bool-cases (ltb a b)) [
  | inl less ↦ absurd (omega (arith, q.least a p.above (ltb→lt a b less), p.holds))
  | inr more ↦ elim (Bool-cases (ltb b a)) [
    | inl less ↦ absurd (omega (arith, p.least b q.above (ltb→lt b a less), q.holds))
    | inr same ↦ omega (arith, ltb→le a b more, ltb→le b a same)
  ]
]

-- The level that the search finds is the least one.
level_of-least :
    (lowest size level : ℕ)
    → lowest ≤ 63
    → size ≤ 2 ^ 63
    → IsLevel lowest size level
    → level_of lowest size ≡ some level
level_of-least lowest size level p q h =
    let (l, e, top, found) = level_of-IsLevel lowest size p q in
    e ∙ ap some (IsLevel-unique lowest size l level found h)

-- The levels below the first one with a block are skipped.
divide_larger-first :
    (d n level target : ℕ) (s : Mm)
    → d < n
    → ((k : ℕ) → level ≤ k → k < level + d → s.heads k ≡ 0)
    → s.heads (level + d) ≢ 0
    → divide_larger n level target s ≡ divide_block (s.heads (level + d)) (level + d) target s
unfolding divide_larger
divide_larger-first zero zero level target s h free there = elim h [ ]
divide_larger-first (suc d) zero level target s h free there = elim h [ ]
divide_larger-first zero (suc n) level target s h free there =
    let e : level + 0 ≡ level = omega arith in
    let test : not (s.heads level == 0) ≡ true =
      ground (arith, subst (λ k. s.heads k ≢ 0) e there) in
    rw (e, test) refl
divide_larger-first (suc d) (suc n) level target s h free there =
    let e : level + suc d ≡ level + 1 + d = omega arith in
    let test : not (s.heads level == 0) ≡ false =
      rw (free level (omega arith) (omega arith)) refl in
    rw (test, e)
      (divide_larger-first d n (level + 1) target s (omega arith)
        (λ k low high. free k (omega arith) (omega arith)) (subst (λ k. s.heads k ≢ 0) e there))

divide_larger-empty :
    (n level target : ℕ) (s : Mm)
    → ((k : ℕ) → level ≤ k → k < level + n → s.heads k ≡ 0)
    → divide_larger n level target s ≡ (true, s)
unfolding divide_larger
divide_larger-empty zero level target s free = refl
divide_larger-empty (suc n) level target s free =
    let test : not (s.heads level == 0) ≡ false =
      rw (free level (omega arith) (omega arith)) refl in
    rw test (
      divide_larger-empty n (level + 1) target s (λ k low high. free k (omega arith) (omega arith)))

-- A request that reaches the levels is served by them.
allocate-level :
    (size level : ℕ) (s : Mm)
    → no_entries s ≡ false
    → size ≢ 0
    → level_of s.lowest size ≡ some level
    → allocate (some size) s ≡ some (allocate_level level s)
unfolding allocate
allocate-level size level s p q e =
    let test : (no_entries s || size == 0) ≡ false = rw p (ground arith) in rw (test, e) refl

allocate_level-pops :
    (level : ℕ) (s : Mm)
    → level ≤ s.highest
    → s.heads level ≢ 0
    → allocate_level level s ≡ pop_block level s
unfolding allocate_level
allocate_level-pops level s p h =
    let within : ltb s.highest level ≡ false = ground arith in
    let there : not (s.heads level == 0) ≡ true = ground arith in rw (within, there) refl

allocate_level-divides :
    (level : ℕ) (s : Mm)
    → level ≤ s.highest
    → s.heads level ≡ 0
    → (divide_larger (s.highest - level) (level + 1) level s).0 ≡ true
    → allocate_level level s
      ≡ pop_block level (divide_larger (s.highest - level) (level + 1) level s).1
unfolding allocate_level
allocate_level-divides level s p e done =
    let within : ltb s.highest level ≡ false = ground arith in
    let none_here : not (s.heads level == 0) ≡ false = rw e refl in
    rw (within, none_here, done) refl

pop_block-head :
    (level pointer : ℕ) (s : Mm)
    → Heads level pointer s
    → pointer ≢ 0
    → (pop_block level s).0 ≡ pointer
pop_block-head level pointer s h p =
    (pop_block-Pops level s h.some_node (rw h.stands_for p)).result ∙ h.stands_for

allocate_level-first :
    (target level pointer : ℕ) (s : Mm)
    → target < level
    → level ≤ s.highest
    → s.lowest ≤ target
    → ((k : ℕ) → target ≤ k → k < level → s.heads k ≡ 0)
    → Heads level pointer s
    → pointer ≢ 0
    → (allocate_level target s).0 ≡ pointer + 2 ^ level - 2 ^ target
allocate_level-first target level pointer s below top low free h p =
    let d = level - (target + 1) in
    let e : target + 1 + d ≡ level = omega arith in
    let skip =
      divide_larger-first d (s.highest - target) (target + 1) target s (omega arith)
        (λ k from to. free k (omega arith) (omega arith))
        (subst (λ k. s.heads k ≢ 0) (sym e) h.some_node) in
    let found : divide_larger (s.highest - target) (target + 1) target s
        ≡ divide_block (s.heads level) level target s =
      skip ∙ ap (λ k. divide_block (s.heads k) k target s) e in
    let (done, after) = divide_block-Heads level target pointer s h p below low top in
    let room : 2 ^ target ≤ 2 ^ level =
      let split : level - target + target ≡ level = omega arith in
      subst (λ k. 2 ^ target ≤ 2 ^ k) split (pow_mono target (level - target)) in
    let step =
      allocate_level-divides target s (omega arith) (free target (omega arith) below)
        (ap (λ (r : Bool × Mm). r.0) found ∙ done) in
    ap (λ (r : ℕ × Mm). r.0) step
    ∙ ap (λ (r : Bool × Mm). (pop_block target r.1).0) found
    ∙ pop_block-head target (pointer + 2 ^ level - 2 ^ target)
        (divide_block (s.heads level) level target s).1 after (omega arith)

-- A request for `size` bytes, at most 2 ^ 63, is given the last block of its level `target` (the least
-- level from the lowest one on that holds it) in the first free block of the least level from there
-- on that has one: with that block at `pointer`, the result is pointer + 2 ^ level - 2 ^ target, so it
-- lies in the block and is the block itself when the levels are the same. It is needed that there is
-- a memory map, that the lowest level is at most 63, and that the block has a pointer.
pub allocate-divides :
    (size target level pointer : ℕ) (s : Mm)
    → no_entries s ≡ false
    → size ≢ 0
    → size ≤ 2 ^ 63
    → s.lowest ≤ 63
    → IsLevel s.lowest size target
    → target ≤ level
    → level ≤ s.highest
    → ((k : ℕ) → target ≤ k → k < level → s.heads k ≡ 0)
    → Heads level pointer s
    → pointer ≢ 0
    → (t : Mm) × (allocate (some size) s ≡ some (pointer + 2 ^ level - 2 ^ target, t))
allocate-divides size target level pointer s map some_size bound low h up top free there p =
    let run =
      allocate-level size target s map some_size
        (level_of-least s.lowest size target low bound h) in
    elim (Bool-cases (ltb target level)) [
      | inl below ↦
          let e =
            allocate_level-first target level pointer s (ltb→lt target level below) top h.above free
              there p in
          ((allocate_level target s).1, run ∙ ap (λ a. some (a, (allocate_level target s).1)) e)
      | inr same ↦
          let level_eq : target ≡ level = omega (arith, ltb→le target level same) in
          let e : (allocate_level target s).0 ≡ pointer + 2 ^ level - 2 ^ target =
            ap (λ k. (allocate_level k s).0) level_eq
            ∙ ap (λ (r : ℕ × Mm). r.0) (allocate_level-pops level s top there.some_node)
            ∙ pop_block-head level pointer s there p
            ∙ rw level_eq (omega arith) in
          ((allocate_level target s).1, run ∙ ap (λ a. some (a, (allocate_level target s).1)) e)
    ]

-- A request is given the block at the head of its level's list where there is one: the pointer of the
-- head is the result, the next node of the list becomes the head, the heads of the other levels stay,
-- and the node is cleared.
pub allocate-Pops :
    (size level : ℕ) (s : Mm)
    → no_entries s ≡ false
    → size ≢ 0
    → size ≤ 2 ^ 63
    → s.lowest ≤ 63
    → IsLevel s.lowest size level
    → level ≤ s.highest
    → s.heads level ≢ 0
    → (s.heap (s.heads level)).pointer ≢ 0
    → (r : ℕ × Mm) × (allocate (some size) s ≡ some r) × Pops level s r
allocate-Pops size level s map some_size bound low h top there p = (
  pop_block level s,
  allocate-level size level s map some_size (level_of-least s.lowest size level low bound h)
      ∙ ap some (allocate_level-pops level s top there),
  pop_block-Pops level s there p,
)

allocate_level-empty :
    (level : ℕ) (s : Mm)
    → ((k : ℕ) → level ≤ k → k ≤ s.highest → s.heads k ≡ 0)
    → allocate_level level s ≡ (0, s)
unfolding allocate_level pop_block
allocate_level-empty level s free = elim (Bool-cases (ltb s.highest level)) [
  | inl past ↦ rw past refl
  | inr within ↦
      let le = ltb→le s.highest level within in
      let here : s.heads level ≡ 0 = free level (omega arith) le in
      let e =
        divide_larger-empty (s.highest - level) (level + 1) level s
          (λ k from to. free k (omega arith) (omega arith)) in
      rw (within, e, here) refl
]

-- Where a memory map exists and the lowest level is at most 63, a request of 1 to 2^63 bytes is
-- given NULL and changes nothing if no level from its own to the highest has a block, or its
-- level is past the highest.
pub allocate-exhausted :
    (size level : ℕ) (s : Mm)
    → no_entries s ≡ false
    → size ≢ 0
    → size ≤ 2 ^ 63
    → s.lowest ≤ 63
    → IsLevel s.lowest size level
    → ((k : ℕ) → level ≤ k → k ≤ s.highest → s.heads k ≡ 0)
    → allocate (some size) s ≡ some (0, s)
allocate-exhausted size level s map some_size bound low h free =
    allocate-level size level s map some_size (level_of-least s.lowest size level low bound h)
    ∙ ap some (allocate_level-empty level s free)
