-- ===== src/E820.antt =====
-- The memory map that the third stage asks the firmware for, sorts and makes a map of usable memory from
-- (Boot/Legacy/Stage3/Memory/Mmap/Mmap.c, Boot/Legacy/Stage3/Bootloader.c). An array is a function of the
-- index: what stands at the address, inside its bounds and past them.
use serra.Base.{
  ℕ, zero, suc, ◌+◌, ◌-◌, ◌*◌, ◌/◌, ◌%◌, Bool, true, false, Option, none, some, ltb, leb, ◌==◌,
  if◌then◌else◌,
}
use serra.Paging.{UsableMmapEntry, Mmap, u64}
pub mod Read
pub mod Sort
pub mod Usable
pub mod Collect
pub mod Wrap

-- struct mmapEntry
pub record MmapEntry : Type 0 where
  pub base : ℕ
  pub limit : ℕ
  pub type : ℕ
  pub acpi : ℕ

abbrev pub Entries : Type 0
Entries = ℕ → MmapEntry

-- The answer of int 15h / eax E820h: the carry flag, ebx, and what it wrote into the buffer, if anything.
pub record Reply : Type 0 where
  pub carry : Bool
  pub ebx : ℕ
  pub entry : Option MmapEntry

-- MaxMmapEntries and MmapEntryMemoryLimit
abbrev pub max_mmap_entries : ℕ
max_mmap_entries = 128

abbrev pub mmap_entry_memory_limit : ℕ
mmap_entry_memory_limit = 131072

-- A write of one element.
unfoldable pub put {ℓ} : {A : Type ℓ} → (ℕ → A) → ℕ → A → ℕ → A
put a i x j = if j == i then x else a j

-- The buffer after a call: an answer with no entry leaves it.
unfoldable pub written : Option MmapEntry → ℕ → Entries → Entries
written none i a = a
written (some e) i a = put a i e

-- mmapEntryFree
unfoldable pub is_free : MmapEntry → Bool
is_free e = e.type == 1

-- What the first loop fills.
pub record Found (W : Type 0) : Type 0 where
  pub mmap : Entries
  pub num_mmap_entries : ℕ
  pub num_usable_mmap_entries : ℕ
  pub world : W

-- The firmware is a parameter: the continuation number and the state that it is called with.
module _ {W : Type 0} (firmware : ℕ → W → Reply × W) where
  -- GetMmapEntry, with the buffer at element `i`.
  unfoldable pub get_mmap_entry : (i continuation : ℕ) → Entries → W → ℕ × Entries × W
  get_mmap_entry i continuation mmap w =
      let (reply, w') = firmware continuation w in
      (if reply.carry then 0 else reply.ebx, written (reply.entry) i mmap, w')

  -- One round of the loop, without its test.
  unfoldable pub read_round : (continuation : ℕ) → Found W → ℕ × Found W
  unfolding is_free
  read_round continuation f =
      let (next, mmap, w) = get_mmap_entry f.num_mmap_entries continuation f.mmap f.world in
      (
        next,
        record {
          mmap = mmap;
          num_mmap_entries = (f.num_mmap_entries + 1) % 256;
          num_usable_mmap_entries =
              (if is_free (mmap f.num_mmap_entries)
                then (f.num_usable_mmap_entries + 1) % 256
                else f.num_usable_mmap_entries);
          world = w;
        },
      )

  -- The do-while loop. `left` counts the elements that the buffer has room for.
  unfoldable pub read_mmap : (left continuation : ℕ) → Found W → Found W
  read_mmap zero continuation f = f
  read_mmap (suc left) continuation f =
      let (next, f') = read_round continuation f in
      let rest = read_mmap left next f' in
      if leb max_mmap_entries f'.num_mmap_entries then f' else if next == 0 then f' else rest

-- The insertion sort: Memswap of two neighbours.
unfoldable pub swap : ℕ → Entries → Entries
swap p a i = if i == p then a (p + 1) else if i == p + 1 then a p else a i

unfoldable pub sift : ℕ → Entries → Entries
sift zero a = a
sift (suc p) a = let down = sift p (swap p a) in if ltb (a (suc p)).base (a p).base then down else a

unfoldable pub sort_from : (left threshold : ℕ) → Entries → Entries
sort_from zero threshold a = a
sort_from (suc left) threshold a = sort_from left (threshold + 1) (sift threshold a)

unfoldable pub sort_mmap : (num : ℕ) → Entries → Entries
sort_mmap num a = sort_from (num - 1) 1 a

-- The variables of the loop over the sorted entries.
pub record Collected : Type 0 where
  pub usable_mmap : Mmap
  pub usable_position : ℕ
  pub min_start : ℕ
  pub num_usable_mmap_entries : ℕ

unfoldable pub align_up : ℕ → ℕ
align_up a = if a % 4096 == 0 then a else (a + (4096 - a % 4096)) % u64

unfoldable pub cut_down : ℕ → ℕ
cut_down a = if a % 4096 == 0 then a else a - a % 4096

-- A free entry, with its start and end: cut at the next entry, aligned, and added if it is large enough.
unfoldable pub add_usable : (start end : ℕ) → Collected → Collected
add_usable start end c =
    let size = (end + u64 - start) % u64 in
    if ltb size mmap_entry_memory_limit
    then record c { num_usable_mmap_entries = (c.num_usable_mmap_entries + 255) % 256 }
    else record c {
      usable_mmap = put c.usable_mmap c.usable_position (record { base = start; limit = size });
      usable_position = c.usable_position + 1;
      min_start = end;
    }

-- The end of an entry, no further than the base of the one after it.
unfoldable pub cut_end : (num position : ℕ) → Entries → (end : ℕ) → ℕ
cut_end num position a end =
    if ltb (position + 1) num
    then (if ltb (a (position + 1)).base end then (a (position + 1)).base else end)
    else end

unfoldable pub usable_round : (num position : ℕ) → Entries → Collected → Collected
usable_round num position a c =
    let e = a position in
    let end = (e.base + e.limit) % u64 in
    let start = if ltb e.base c.min_start then c.min_start else e.base in
    if leb end c.min_start
    then (if is_free e
        then record c { num_usable_mmap_entries = (c.num_usable_mmap_entries + 255) % 256 }
        else c)
    else if is_free e
    then add_usable (align_up start) (cut_down (cut_end num position a end)) c
    else record c { min_start = end }

unfoldable pub collect_usable : (left num position : ℕ) → Entries → Collected → Collected
collect_usable zero num position a c = c
collect_usable (suc left) num position a c =
    collect_usable left num (position + 1) a (usable_round num position a c)

-- The variables before the first round.
abbrev pub nothing : (num_free : ℕ) → Collected
nothing num_free = record {
  usable_mmap = λ _. record { base = 0; limit = 0 };
  usable_position = 0;
  min_start = 0;
  num_usable_mmap_entries = num_free;
}

-- The whole of it: the map that was found, as usable memory. The count of free entries goes in.
unfoldable pub usable_of : (num num_free : ℕ) → Entries → Collected
usable_of num num_free a = collect_usable num num 0 (sort_mmap num a) (nothing num_free)
