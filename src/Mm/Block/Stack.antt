-- ===== src/Mm/Block/Stack.antt =====
-- PushBlock and PopBlock (Common/Kernel/Memory/Mm.c) as operations on the list of a level, and what
-- DivideBlock leaves at the head of its target's list. The facts hold whatever nodes coincide.
use serra.Base.{
  ℕ, zero, suc, ◌+◌, ◌-◌, ◌/◌, ◌^◌, ◌<◌, ◌≤◌, ◌≡◌, refl, ◌≢◌, true, false, ◌||◌, ltb, leb, ◌==◌,
  arith, ap, ◌∙◌,
}
use native.Mathlib.Nat.{pow-suc}
use mathlib.Core.Path.{subst}
use serra.Mm.State.{cleared, Mm, scaling_factor}
use serra.Mm.Block.{push_block, pop_block, divide_buffer, push_blocks, divide_block}

module _ (node pointer previous next level : ℕ) (s : Mm) where
  -- After PushBlock the node heads the list of its level, in front of the old head.
  pub push_block-heads : (push_block node pointer previous next level s).heads level ≡ node
  unfolding push_block
  push_block-heads = ground arith

  pub push_block-heads_ne :
      (k : ℕ) → k ≢ level → (push_block node pointer previous next level s).heads k ≡ s.heads k
  unfolding push_block
  push_block-heads_ne k h = ground arith

  pub push_block-pointer :
      ((push_block node pointer previous next level s).heap node).pointer ≡ pointer
  unfolding push_block
  push_block-pointer = ground arith

  pub push_block-size_previous :
      ((push_block node pointer previous next level s).heap node).size_previous ≡ s.heads level
  unfolding push_block
  push_block-size_previous = ground arith

-- What PopBlock does with a node that has a pointer.
pub record Pops (level : ℕ) (s : Mm) (r : ℕ × Mm) : Type 0 where
  pub result : r.0 ≡ (s.heap (s.heads level)).pointer
  pub head : r.1.heads level ≡ (s.heap (s.heads level)).size_previous
  pub others : (k : ℕ) → k ≢ level → r.1.heads k ≡ s.heads k
  pub clear : r.1.heap (s.heads level) ≡ cleared

-- Whenever the list of the level has a head with a pointer, PopBlock returns that pointer, makes the
-- next node of the list its head, leaves the heads of the other levels, and clears the node.
pub pop_block-Pops :
    (level : ℕ) (s : Mm)
    → s.heads level ≢ 0
    → (s.heap (s.heads level)).pointer ≢ 0
    → Pops level s (pop_block level s)
unfolding pop_block
pop_block-Pops level s h p = record {
  result = ground arith;
  head = ground arith;
  others = λ k ne. ground arith;
  clear = ground arith;
}

-- PopBlock takes back what PushBlock put on the list of a level, and leaves the old head.
pub pop_block-push_block :
    (node pointer previous next level : ℕ) (s : Mm)
    → node ≢ 0
    → pointer ≢ 0
    → ((pop_block level (push_block node pointer previous next level s)).0 ≡ pointer)
      × ((pop_block level (push_block node pointer previous next level s)).1.heads level
          ≡ s.heads level)
pop_block-push_block node pointer previous next level s h p =
    let t = push_block node pointer previous next level s in
    let e = push_block-heads node pointer previous next level s in
    let q = push_block-pointer node pointer previous next level s in
    let link = push_block-size_previous node pointer previous next level s in
    let r = pop_block-Pops level t (rw e h) (rw (e, q) p) in
    (
      r.result ∙ ap (λ (a : ℕ). (t.heap a).pointer) e ∙ q,
      r.head ∙ ap (λ (a : ℕ). (t.heap a).size_previous) e ∙ link,
    )

-- The list of `level` has a head, and the head stands for the block at `pointer`.
pub record Heads (level pointer : ℕ) (s : Mm) : Type 0 where
  pub some_node : s.heads level ≢ 0
  pub stands_for : (s.heap (s.heads level)).pointer ≡ pointer

push_block-Heads :
    (node pointer previous next level : ℕ) (s : Mm)
    → node ≢ 0
    → Heads level pointer (push_block node pointer previous next level s)
push_block-Heads node pointer previous next level s h =
    let e = push_block-heads node pointer previous next level s in
    record {
      some_node = rw e h;
      stands_for = rw e (push_block-pointer node pointer previous next level s);
    }

last_location : (a n t : ℕ) → a + 2 ^ (t + n) + 2 ^ (t + n) - 2 ^ t ≡ a + 2 ^ (t + suc n) - 2 ^ t
last_location a n t =
    let e : t + suc n ≡ suc (t + n) = omega arith in rw e (omega (arith, pow-suc 2 (t + n)))

-- The blocks of the buffer lie one behind the other, and the last of them, of the target's level, is
-- the head of its list.
push_blocks-Heads :
    (n target address location previous next : ℕ) (s : Mm)
    → address ≢ 0
    → Heads target
        (location + 2 ^ (target + n) - 2 ^ target)
        (push_blocks (divide_buffer n target) address location previous next s)
unfolding push_blocks divide_buffer
push_blocks-Heads zero target address location previous next s h =
    let e : target + 0 ≡ target = omega arith in
    let e' : location + 2 ^ target - 2 ^ target ≡ location = omega arith in
    rw (e, e') (push_block-Heads address location previous next target s h)
push_blocks-Heads (suc n) target address location previous next s h =
    rw (← last_location location n target) (
      push_blocks-Heads n target (address + 2 ^ (target + n) / scaling_factor)
        (location + 2 ^ (target + n)) address next
        (push_block address location previous next (target + n) s) (omega arith))

-- DivideBlock of the head of a level, down to a lower one within the limits.
pub divide_block-Heads :
    (level target pointer : ℕ) (s : Mm)
    → Heads level pointer s
    → pointer ≢ 0
    → target < level
    → s.lowest ≤ target
    → level ≤ s.highest
    → ((divide_block (s.heads level) level target s).0 ≡ true)
      × Heads target
          (pointer + 2 ^ level - 2 ^ target)
          (divide_block (s.heads level) level target s).1
unfolding divide_block
divide_block-Heads level target pointer s h ne below low high =
    let p : (s.heap (s.heads level)).pointer ≢ 0 = rw h.stands_for ne in
    let r = pop_block-Pops level s h.some_node p in
    let node = s.heads level in
    let s1 = (pop_block level s).1 in
    let e : target + (level - target) ≡ level = omega arith in
    let pushed =
      push_blocks-Heads (level - target) target node (pop_block level s).0
        (s.heap node).position_previous (s.heap node).position_next s1 h.some_node in
    let there : (node == 0 || (s.heap node).pointer == 0) ≡ false = ground (arith, h.some_node) in
    let deeper : leb level target ≡ false = ground arith in
    let above : ltb target s.lowest ≡ false = ground arith in
    let within : ltb s.highest level ≡ false = ground arith in
    let popped : ((pop_block level s).0 == 0) ≡ false =
      rw (r.result, h.stands_for) (ground arith) in
    let final =
      push_blocks (divide_buffer (level - target) target) node (pop_block level s).0
        (s.heap node).position_previous (s.heap node).position_next s1 in
    let location : (pop_block level s).0 + 2 ^ (target + (level - target)) - 2 ^ target
        ≡ pointer + 2 ^ level - 2 ^ target =
      rw (r.result, h.stands_for, e) refl in
    rw (there, deeper, above, within, popped)
      (refl, subst (λ a. Heads target a final) location pushed)
