-- ===== src/Paging.antt =====
-- The early allocator and the page tables of the third stage of the legacy loader
-- (Boot/Legacy/Stage3/Memory/Paging/Paging.c, Memory.h). Memory is seen in words of 64 bits: a cell is the
-- word at an address that is a multiple of 8. The array of usable entries is what stands at the pointer,
-- inside its bounds and past them. `none` is the call of Panic, which does not return.
use Prim.Native.Nat.{bit_or}
use serra.Base.{
  ℕ, zero, suc, ◌+◌, ◌-◌, ◌*◌, ◌/◌, ◌%◌, ◌^◌, Bool, true, false, not, ◌&&◌, ◌||◌, Option, none,
  some, ltb, leb, ◌==◌, if◌then◌else◌,
}
pub mod Allocate
pub mod Entries
pub mod Room
pub mod Words
pub mod Tables
pub mod Loops
pub mod Written
pub mod Spans
pub mod Third
pub mod Fourth
pub mod Walk
pub mod Mapping
pub mod Identity

-- The memory, by the address of each word.
abbrev pub Cells : Type 0
Cells = ℕ → ℕ

abbrev pub u32 : ℕ
u32 = 0x100000000

abbrev pub u64 : ℕ
u64 = 0x10000000000000000

-- struct usableMmapEntry
pub record UsableMmapEntry : Type 0 where
  pub base : ℕ
  pub limit : ℕ

abbrev pub Mmap : Type 0
Mmap = ℕ → UsableMmapEntry

-- GetEndOfMmapEntry
abbrev pub get_end_of_mmap_entry : UsableMmapEntry → ℕ
get_end_of_mmap_entry e = (e.base + e.limit) % u64

unfoldable pub page_align : ℕ → ℕ
page_align address =
    if address % 0x1000 == 0 then address else (address + (0x1000 - address % 0x1000)) % u64

-- Memset to zero of `size` bytes from the start of a word on; of the last word, only the bytes below the
-- end are cleared.
unfoldable pub clear : (start size : ℕ) → Cells → Cells
clear start size m a =
    let whole = size - size % 8 in
    if leb start a && ltb a (start + whole)
    then 0
    else if a == start + whole
    then m a - m a % 2 ^ (8 * (size % 8))
    else m a

-- The first loop: the entry that holds `start`, or the nearest one below it.
unfoldable pub find_entry : Mmap → (start entry : ℕ) → ℕ × ℕ
find_entry mmap start zero = if ltb start (mmap 0).base then ((mmap 0).base, 0) else (start, 0)
find_entry mmap start (suc entry) =
    let below = find_entry mmap start entry in
    if ltb start (mmap (suc entry)).base then below else (start, suc entry)

-- The second loop. `left` counts the entries from `entry` on.
unfoldable pub allocate_in :
    (left : ℕ) → Mmap → (num entry start size : ℕ) → Bool → Cells → Option (ℕ × Cells)
allocate_in zero mmap num entry start size clears m = none
allocate_in (suc left) mmap num entry start size clears m =
    let later = allocate_in left mmap num (entry + 1) (mmap (entry + 1)).base size clears m in
    let aligned = page_align start in
    if ltb u32 ((start + size) % u64)
    then none
    else if ltb ((aligned + size) % u64) (get_end_of_mmap_entry (mmap entry))
    then some ((aligned + size) % u64, if clears then clear (aligned % u32) size m else m)
    else if leb num (entry + 1)
    then some (0, m)
    else later

-- AllocateFromMmap. `num` is a byte, and so is the index of the entry.
unfoldable pub allocate_from_mmap : Mmap → (num start size : ℕ) → Bool → Cells → Option (ℕ × Cells)
allocate_from_mmap mmap num start size clears m =
    let (start', entry) = find_entry mmap start ((num + 255) % 256) in
    allocate_in (num - entry) mmap num entry start' size clears m

-- pageAddress
unfoldable pub page_address : ℕ → ℕ
page_address a = a - a % 4096

-- makePageEntry
unfoldable pub make_page_entry : (address flags : ℕ) → ℕ
make_page_entry address flags = bit_or (page_address address) flags

-- A write of one word.
unfoldable pub store : (address value : ℕ) → Cells → Cells
store address value m a = if a == address then value else m a

-- The variables that the loops change.
pub record Progress : Type 0 where
  pub memory : Cells
  pub phys_address : ℕ
  pub mmap_offset : ℕ

-- What the loops leave alone.
pub record Request : Type 0 where
  pub flags : ℕ
  pub use_large_pages : Bool
  pub use_pat : Bool
  pub mmap : Mmap
  pub num_entries : ℕ
  pub initial : ℕ → ℕ
  pub final : ℕ → ℕ

infixl 5 ◌>>=◌
abbrev pub ◌>>=◌ {ℓ κ} : {A : Type ℓ} {B : Type κ} → Option A → (A → Option B) → Option B
none >>= f = none
some a >>= f = f a

-- `for (i = first; i <= last; i++)`, by the number of rounds.
unfoldable pub for_from :
    (rounds index : ℕ) → (ℕ → Progress → Option Progress) → Progress → Option Progress
for_from zero index body p = some p
for_from (suc rounds) index body p = body index p >>= for_from rounds (index + 1) body

-- The table that an entry leads to, allocated and cleared if there is none.
unfoldable pub find_table : Request → (address : ℕ) → Progress → Option (ℕ × Progress)
find_table r address p =
    let found = page_address (p.memory address) % u32 in
    if found == 0
    then (allocate_from_mmap r.mmap (r.num_entries % 256) p.mmap_offset 4096 true p.memory
        >>= λ (offset, m).
            some ((offset + u32 - 4096) % u32, record p { memory = m; mmap_offset = offset }))
    else some (found, p)

-- The same, after which the entry is written anew.
unfoldable pub open_table : Request → (table index : ℕ) → Progress → Option (ℕ × Progress)
open_table r table index p = find_table r (table + 8 * index) p >>= λ (next, q).
    some (
      next,
      record q { memory = store (table + 8 * index) (make_page_entry next r.flags) q.memory },
    )

-- The bits of an address that index one level.
unfoldable pub pml_index : (address level : ℕ) → ℕ
pml_index address level = address / 2 ^ (39 - 9 * level) % 512

-- pageSize, and pdePat where it is asked for.
unfoldable pub pde_flags : Request → ℕ
pde_flags r = bit_or (bit_or r.flags 128) (if r.use_pat then 4096 else 0)

-- ptePat where it is asked for.
unfoldable pub pte_flags : Request → ℕ
pte_flags r = bit_or r.flags (if r.use_pat then 128 else 0)

-- The innermost loop's body.
unfoldable pub pte_round : Request → (pte index : ℕ) → Progress → Option Progress
pte_round r pte index p = some (record p {
  memory = store (pte + 8 * index) (make_page_entry p.phys_address (pte_flags r)) p.memory;
  phys_address = (p.phys_address + 4096) % u64;
})

-- Whether a loop is inside the first (or the last) table of its level.
abbrev pub inside : (ℕ → ℕ) → (levels pml4_index pml3_index pml2_index : ℕ) → Bool
inside ends levels i4 i3 i2 =
    i4 == ends 0 && (leb levels 1 || i3 == ends 1) && (leb levels 2 || i2 == ends 2)

-- The first index of a level, and the number of rounds.
unfoldable pub first_index : Request → (level i4 i3 i2 : ℕ) → ℕ
first_index r level i4 i3 i2 = if inside r.initial level i4 i3 i2 then r.initial level else 0

unfoldable pub last_index : Request → (level i4 i3 i2 : ℕ) → ℕ
last_index r level i4 i3 i2 = if inside r.final level i4 i3 i2 then r.final level else 511

-- A large page.
unfoldable pub large_round : Request → (pml2 index : ℕ) → Progress → Option Progress
large_round r pml2 index p = some (record p {
  memory = store (pml2 + 8 * index) (make_page_entry p.phys_address (pde_flags r)) p.memory;
  phys_address = (p.phys_address + 4096 * 512) % u64;
})

-- A table of small pages.
unfoldable pub small_round : Request → (i4 i3 pml2 index : ℕ) → Progress → Option Progress
small_round r i4 i3 pml2 index p = open_table r pml2 index p >>= λ (pte, q).
    (let first = first_index r 3 i4 i3 index in
      for_from (last_index r 3 i4 i3 index + 1 - first) first (pte_round r pte) q)

unfoldable pub pml2_round : Request → (i4 i3 pml2 index : ℕ) → Progress → Option Progress
pml2_round r i4 i3 pml2 index p =
    if r.use_large_pages then large_round r pml2 index p else small_round r i4 i3 pml2 index p

unfoldable pub pml3_round : Request → (i4 pml3 index : ℕ) → Progress → Option Progress
pml3_round r i4 pml3 index p = open_table r pml3 index p >>= λ (pml2, q).
    (let first = first_index r 2 i4 index 0 in
      for_from (last_index r 2 i4 index 0 + 1 - first) first (pml2_round r i4 index pml2) q)

unfoldable pub pml4_round : Request → (pml4 index : ℕ) → Progress → Option Progress
pml4_round r pml4 index p = open_table r pml4 index p >>= λ (pml3, q).
    (let first = first_index r 1 index 0 0 in
      for_from (last_index r 1 index 0 0 + 1 - first) first (pml3_round r index pml3) q)

-- InitializePageEntries: the new offset is `mmap_offset` of the result.
unfoldable pub initialize_page_entries :
    (phys_address virt_address size pml4 flags : ℕ)
    → (use_large_pages use_pat : Bool) → (mmap_offset : ℕ) → Mmap
    → (num_entries : ℕ) → Cells
    → Option Progress
initialize_page_entries phys virt size pml4 flags large pat offset mmap num m =
    let align = if large then 0x200000 else 0x1000 in
    let r : Request = record {
      flags = flags;
      use_large_pages = large;
      use_pat = pat;
      mmap = mmap;
      num_entries = num;
      initial = pml_index virt;
      final = pml_index ((virt + size) % u64);
    } in
    if not (phys % u32 % align == 0)
    then none
    else if not (virt % u32 % align == 0)
    then none
    else for_from (r.final 0 + 1 - r.initial 0) (r.initial 0) (pml4_round r pml4)
        (record { memory = m; phys_address = phys; mmap_offset = offset })
