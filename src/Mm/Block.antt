-- ===== src/Mm/Block.antt =====
-- Common/Kernel/Memory/Mm.c: PushBlock, PopBlock and DivideBlock.
pub mod Stack
use serra.Base.{
  ℕ, zero, suc, ◌+◌, ◌-◌, ◌*◌, ◌/◌, ◌%◌, ◌^◌, Bool, true, false, not, ◌||◌, List, [], ◌∷◌, ltb, leb,
  ◌==◌, if◌then◌else◌,
}
use serra.Mm.State.{
  Node, Mm, scaling_factor, set_node, set_head, link_position_next, link_position_previous,
  link_size_next, clear_node,
}

-- The stores of PushBlock, in their order.
unfoldable pub push_block : (node pointer previous next level : ℕ) → Mm → Mm
push_block node pointer previous next level s0 =
    let s1 =
      set_node node
        (record (s0.heap node) {
          pointer = pointer;
          position_previous = previous;
          position_next = next;
        })
        s0 in
    let s2 = link_position_next previous node s1 in
    let s3 = link_position_previous next node s2 in
    let s4 = set_node node (record (s3.heap node) { size_previous = s3.heads level }) s3 in
    let s5 = set_head level node s4 in
    let s6 = link_size_next (s5.heap node).size_previous node s5 in
    set_node node (record (s6.heap node) { size_next = 0 }) s6

-- The pointer of the block, or 0, and the state.
unfoldable pub pop_block : ℕ → Mm → ℕ × Mm
pop_block level s0 =
    let node = s0.heads level in
    let pointer = (s0.heap node).pointer in
    let previous = (s0.heap node).position_previous in
    let next = (s0.heap node).position_next in
    let s1 = link_position_next previous next s0 in
    let s2 = link_position_previous next previous s1 in
    let s3 = set_head level (s2.heap node).size_previous s2 in
    let s4 = link_size_next (s3.heads level) 0 s3 in
    if node == 0 then (0, s0) else if pointer == 0 then (0, s0) else (pointer, clear_node node s4)

-- `Buffer`: the levels from `Level - 1` down to `Target`, and `Target` once more.
unfoldable pub divide_buffer : ℕ → ℕ → List ℕ
divide_buffer zero target = target ∷ []
divide_buffer (suc n) target = (target + n) ∷ divide_buffer n target

-- The loop over the buffer: a block is pushed for each level, one behind the other.
unfoldable pub push_blocks : List ℕ → (address location previous next : ℕ) → Mm → Mm
push_blocks [] address location previous next s = s
push_blocks (level ∷ levels) address location previous next s =
    push_blocks levels (address + 2 ^ level / scaling_factor) (location + 2 ^ level) address next
      (push_block address location previous next level s)

unfoldable pub divide_block : (node level target : ℕ) → Mm → Bool × Mm
divide_block node level target s =
    let previous = (s.heap node).position_previous in
    let next = (s.heap node).position_next in
    let (pointer, s1) = pop_block level s in
    if node == 0 || (s.heap node).pointer == 0
    then (false, s)
    else if leb level target
    then (false, s)
    else if ltb target s.lowest
    then (false, s)
    else if ltb s.highest level
    then (false, s)
    else if pointer == 0
    then (false, s1)
    else (true, push_blocks (divide_buffer (level - target) target) node pointer previous next s1)
