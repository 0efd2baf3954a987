-- ===== src/Mm/State.antt =====
-- Common/Kernel/Memory/Mm.c and Memory.h: the state of the memory manager.
-- The reserved space at the start of each memory map entry holds one `allocationNode` of 64 bytes for
-- each page behind it. The nodes are the function from an address to the node that stands there; all
-- node addresses of an entry differ from its base by a multiple of 64, so no two nodes overlap. A
-- cleared node has all fields 0, and the address 0 is NULL.
use serra.Base.{ℕ, ◌+◌, ◌-◌, ◌/◌, ◌%◌, ◌^◌, Bool, List, ◌==◌, not, if◌then◌else◌}

pub record Node : Type 0 where
  pub pointer : ℕ
  pub position_previous : ℕ
  pub position_next : ℕ
  pub size_previous : ℕ
  pub size_next : ℕ

abbrev pub cleared : Node
cleared = record {
  pointer = 0;
  position_previous = 0;
  position_next = 0;
  size_previous = 0;
  size_next = 0;
}

-- `usableMmapEntry`.
pub record Entry : Type 0 where
  pub base : ℕ
  pub limit : ℕ

-- `KernelMmap` (empty while it is NULL), `MmSubsystemData` and the nodes in memory. `heads` is
-- `MmSubsystemData.Nodes`, and the limits are `MmSubsystemData.Limits`.
pub record Mm : Type 0 where
  pub is_enabled : Bool
  pub kernel_mmap : List Entry
  pub heads : ℕ → ℕ
  pub lowest : ℕ
  pub highest : ℕ
  pub heap : ℕ → Node

-- `SystemPageSize`, `sizeof(allocationNode)` and `ScalingFactor`.
abbrev pub system_page_size : ℕ
system_page_size = 4096

abbrev pub node_size : ℕ
node_size = 64

abbrev pub scaling_factor : ℕ
scaling_factor = 64

abbrev pub u64 : ℕ
u64 = 2 ^ 64

abbrev pub sub64 : ℕ → ℕ → ℕ
sub64 a b = (a + u64 - b) % u64

abbrev pub update : {A : Type 0} → ℕ → A → (ℕ → A) → ℕ → A
update a v f x = if x == a then v else f x

-- A store through `p->...`.
abbrev pub set_node : ℕ → Node → Mm → Mm
set_node p n s = record s { heap = update p n s.heap }

abbrev pub set_head : ℕ → ℕ → Mm → Mm
set_head level p s = record s { heads = update level p s.heads }

-- `if (p != NULL) { p->Position.Next = v; }`, and so for the other links.
abbrev pub link_position_next : ℕ → ℕ → Mm → Mm
link_position_next p v s =
    if p == 0 then s else set_node p (record (s.heap p) { position_next = v }) s

abbrev pub link_position_previous : ℕ → ℕ → Mm → Mm
link_position_previous p v s =
    if p == 0 then s else set_node p (record (s.heap p) { position_previous = v }) s

abbrev pub link_size_next : ℕ → ℕ → Mm → Mm
link_size_next p v s = if p == 0 then s else set_node p (record (s.heap p) { size_next = v }) s

abbrev pub link_size_previous : ℕ → ℕ → Mm → Mm
link_size_previous p v s =
    if p == 0 then s else set_node p (record (s.heap p) { size_previous = v }) s

-- `Memset((void*)Node, 0, sizeof(allocationNode))`.
abbrev pub clear_node : ℕ → Mm → Mm
clear_node p s = set_node p cleared s

-- `ReservedSpace` of an entry: a node for each page, rounded up to a page.
unfoldable pub reserved_space : ℕ → ℕ
reserved_space limit =
    let space = limit / scaling_factor in
    if not (space % system_page_size == 0)
    then space + (system_page_size - space % system_page_size)
    else space
