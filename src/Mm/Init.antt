-- ===== src/Mm/Init.antt =====
-- Common/Kernel/Memory/Mm.c: InitializeMemoryManagementSubsystem.
pub mod Powers
use serra.Base.{
  ℕ, zero, suc, ◌+◌, ◌-◌, ◌/◌, ◌^◌, Bool, true, false, not, List, [], ◌∷◌, Option, none, some, ltb,
  ◌==◌, if◌then◌else◌,
}
use serra.Memory.{within}
use serra.Mm.State.{
  cleared, Entry, Mm, system_page_size, scaling_factor, sub64, set_node, set_head,
  link_position_next, link_size_next, reserved_space,
}

-- `while ((Space >> Logarithm) != 0) Logarithm++; Logarithm--`. A 64-bit number needs 65 tests.
unfoldable pub logarithm_loop : ℕ → ℕ → ℕ → ℕ
logarithm_loop zero space l = l - 1
logarithm_loop (suc f) space l =
    let rest = logarithm_loop f space (l + 1) in if not (space / 2 ^ l == 0) then rest else l - 1

unfoldable pub logarithm : ℕ → ℕ
logarithm space = logarithm_loop 65 space 0

-- `while (PageSize != 0) { Limits[0]++; PageSize >>= 1; }`, and one less.
unfoldable pub lowest_loop : ℕ → ℕ → ℕ → ℕ
lowest_loop zero page_size lowest = lowest - 1
lowest_loop (suc f) page_size lowest =
    let rest = lowest_loop f (page_size / 2) (lowest + 1) in
    if not (page_size == 0) then rest else lowest - 1

-- One free block at `Start + ReservedSpace + Offset`; `previous` is `PreviousNode`.
unfoldable pub push_initial : (start reserved offset level previous : ℕ) → Mm → Mm
push_initial start reserved offset level previous s0 =
    let node = start + offset / scaling_factor in
    let fresh = record (s0.heap node) {
      pointer = start + reserved + offset;
      position_previous = previous;
      position_next = 0;
    } in
    let s1 = set_node node fresh s0 in
    let s2 = link_position_next previous node s1 in
    let s3 = set_node node (record (s2.heap node) { size_previous = s2.heads level }) s2 in
    let s4 = set_head level node s3 in link_size_next (s4.heap node).size_previous node s4

-- `while (Space >= SystemPageSize)`; the result has the new `PreviousNode`. Each round takes away the
-- highest bit of `Space`, so 64 rounds are enough.
unfoldable pub push_space : ℕ → (start reserved space offset previous : ℕ) → Mm → ℕ × Mm
push_space zero start reserved space offset previous s = (previous, s)
push_space (suc f) start reserved space offset previous s =
    let l = logarithm space in
    let rest =
      push_space f start reserved (space - 2 ^ l) (offset + 2 ^ l) (start + offset / scaling_factor)
        (push_initial start reserved offset l previous s) in
    if ltb space system_page_size then (previous, s) else rest

-- The loop over the memory map.
unfoldable pub push_entries : List Entry → ℕ → Mm → Bool × Mm
push_entries [] previous s = (true, s)
push_entries (e ∷ es) previous s =
    let reserved = reserved_space e.limit in
    let s1 = record s { heap = λ x. if within e.base reserved x then cleared else s.heap x } in
    let space = sub64 e.limit reserved in
    let (previous', s2) = push_space 64 e.base reserved space 0 previous s1 in
    let rest = push_entries es previous' s2 in if ltb space (e.limit / 2) then (false, s1) else rest

-- `UsableMmap` is `none` for NULL.
unfoldable pub initialize : Option (List Entry) → Mm → Bool × Mm
initialize none s = (false, s)
initialize (some []) s = (false, s)
initialize (some (e ∷ es)) s =
    let s1 = record s {
      kernel_mmap = e ∷ es;
      lowest = lowest_loop 64 system_page_size 0;
      highest = 63;
    } in
    let (done, s2) = push_entries (e ∷ es) 0 s1 in
    if not done then (false, s2) else (true, record s2 { is_enabled = true })
