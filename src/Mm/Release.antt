-- ===== src/Mm/Release.antt =====
-- Common/Kernel/Memory/Mm.c: FreeBlock and MergeBlock.
use serra.Base.{
  ℕ, zero, suc, ◌+◌, ◌-◌, ◌*◌, ◌/◌, ◌%◌, ◌^◌, Bool, true, false, not, ◌||◌, ◌&&◌, List, [], ◌∷◌,
  Option, none, some, ltb, leb, ◌==◌, if◌then◌else◌,
}
use serra.Mm.State.{
  Entry, Mm, scaling_factor, node_size, u64, sub64, set_head, link_position_next,
  link_position_previous, link_size_next, link_size_previous, clear_node, reserved_space,
}
use serra.Mm.Level.{level_of}
use serra.Mm.Block.{push_block}

-- The first entry that `Pointer` stands in, its end included.
unfoldable pub find_entry : ℕ → List Entry → Option Entry
find_entry pointer [] = none
find_entry pointer (e ∷ es) =
    let rest = find_entry pointer es in
    if leb e.base pointer && leb pointer (e.base + e.limit) then some e else rest

-- The search for the previous node. `Address - Multiplier` is taken modulo 2 ^ 64, and so is the
-- doubling, which leaves 0 after 58 rounds: `none` is a search that goes on for ever.
unfoldable pub find_previous : ℕ → (address limit multiplier : ℕ) → Mm → Option ℕ
find_previous zero address limit multiplier s = none
find_previous (suc f) address limit multiplier s =
    let try = sub64 address multiplier in
    let rest = find_previous f address limit (multiplier * 2 % u64) s in
    if ltb try limit then some 0 else if not ((s.heap try).pointer == 0) then some try else rest

unfoldable pub find_next : ℕ → (address limit multiplier : ℕ) → Mm → Option ℕ
find_next zero address limit multiplier s = none
find_next (suc f) address limit multiplier s =
    let try = (address + multiplier) % u64 in
    let rest = find_next f address limit (multiplier * 2 % u64) s in
    if ltb limit try then some 0 else if not ((s.heap try).pointer == 0) then some try else rest

-- What a run of the code ends in: a value and the state, or no defined behaviour.
abbrev pub Run : Type 0 → Type 0
Run A = Option (A × Mm)

-- From the neighbours on: the level, and PushBlock.
unfoldable pub free_at : (pointer size address : ℕ) → Option ℕ → Option ℕ → Mm → Run ℕ
free_at pointer size address none next s = none
free_at pointer size address (some previous) none s = none
free_at pointer size address (some previous) (some next) s = elim (level_of s.lowest size) [
  | none ↦ none
  | some level ↦
      if ltb s.highest level
      then some (0, s)
      else some (address, push_block address pointer previous next level s)
]

-- The node that now stands for the block, or 0.
unfoldable pub free_block : (pointer size : ℕ) → Mm → Run ℕ
free_block pointer size s = elim (find_entry pointer s.kernel_mmap) [
  | none ↦ some (0, s)
  | some e ↦
      let reserved = reserved_space e.limit in
      let offset = pointer - (reserved + e.base) in
      let address = e.base + offset / scaling_factor in
      let previous = find_previous 64 address e.base node_size s in
      let next = find_next 64 address (e.base + reserved) node_size s in
      if leb pointer (e.base + reserved)
      then some (0, s)
      else free_at pointer size address previous next s
]

-- The links of a node in the list of its size.
unfoldable pub unlink_size : (node level : ℕ) → Mm → Mm
unlink_size node level s0 =
    let previous = (s0.heap node).size_previous in
    let next = (s0.heap node).size_next in
    let s1 =
      if not (previous == 0) then link_size_next previous next s0 else set_head level next s0 in
    link_size_previous (s1.heap node).size_next (s1.heap node).size_previous s1

-- Two neighbours become one block of the level above, at the first.
unfoldable pub join_blocks : (previous node level : ℕ) → Mm → Mm
join_blocks previous node level s0 =
    let before = (s0.heap previous).position_previous in
    let after = (s0.heap node).position_next in
    let pointer = (s0.heap previous).pointer in
    let s1 = link_position_next before after s0 in
    let s2 = link_position_previous after before s1 in
    let s3 = unlink_size previous level s2 in
    let s4 = unlink_size node level s3 in
    let s5 = clear_node node (clear_node previous s4) in
    push_block previous pointer before after (level + 1) s5

-- Which two nodes the loop joins, if any.
unfoldable pub pick_pair : (node level : ℕ) → Mm → Option (ℕ × ℕ)
pick_pair node level s =
    let previous = (s.heap node).position_previous in
    let next = (s.heap node).position_next in
    let after = (s.heap next).position_next in
    let target = 2 ^ level / scaling_factor in
    let delta = if not (previous == 0) then sub64 node previous else 0 in
    if previous == 0 && next == 0
    then none
    else if delta == target
    then some (previous, node)
    else if next == 0
    then none
    else if after == 0
    then none
    else if not (sub64 after next == target)
    then none
    else some (node, next)

-- `while (Logarithm < Limits[1])`: the level grows each round, so 64 rounds are enough.
unfoldable pub merge_loop : ℕ → (node level : ℕ) → Mm → Mm
merge_loop zero node level s = s
merge_loop (suc f) node level s =
    if not (ltb level s.highest) then s else elim (pick_pair node level s) [
      | none ↦ s
      | some (previous, second) ↦
          merge_loop f previous (level + 1) (join_blocks previous second level s)
    ]

unfoldable pub merge_block : (node size : ℕ) → Mm → Run Bool
merge_block node size s =
    if node == 0 || size == 0 then some (false, s) else elim (level_of s.lowest size) [
      | none ↦ none
      | some level ↦ some (true, merge_loop 64 node level s)
    ]
