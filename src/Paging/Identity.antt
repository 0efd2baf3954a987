-- ===== src/Paging/Identity.antt =====
-- The identity map that the third stage makes before it enters long mode (Boot/Legacy/Stage3/Bootloader.c): the
-- PML4, the low memory and the usable memory.
use mathlib.Core.Path.{subst}
use native.Mathlib.Decide.{ℕ_discrete}
use serra.Base.{
  ℕ, zero, suc, ◌+◌, ◌-◌, ◌/◌, ◌%◌, ◌≤◌, ◌<◌, ◌≡◌, refl, sym, ap, ◌∙◌, inl, inr, true, false,
  Option, none, some, ltb, ◌==◌, arith, Bool-cases, ltb→lt, ltb→le, ==_iff, if◌then◌else◌,
}
use serra.Paging.{
  Cells, Mmap, u32, u64, Progress, ◌>>=◌, initialize_page_entries, allocate_from_mmap, clear,
}
use serra.Paging.Room.{Room, Room-next, allocate_table}
use serra.Paging.Words.{clear_inside}
use serra.Paging.Tables.{Tables-cleared}
use serra.Paging.Fourth.{Space}
use serra.Paging.Walk.{translate, TableFlags}
use serra.Paging.Mapping.{
  Range, Translates, Keeps, mapped_end, tables_for, initialize_page_entries-Mapped,
}

-- pagePresent and pageRw
abbrev pub page_flags : ℕ
page_flags = 3

-- Start and Size of an entry, on 2 MiB boundaries.
unfoldable pub align_down : ℕ → ℕ
align_down start = start - start % 0x200000

unfoldable pub align_size : ℕ → ℕ
align_size size = if size % 0x200000 == 0 then size else (size + (0x200000 - size % 0x200000)) % u64

-- The loop over the entries of the usable memory map.
unfoldable pub map_usable :
    (left entry : ℕ) → (pml4 : ℕ) → Mmap → (num : ℕ) → Progress → Option Progress
map_usable zero entry pml4 mmap num p = some p
map_usable (suc left) entry pml4 mmap num p =
    let start = align_down (mmap entry).base in
    let size = align_size (mmap entry).limit in
    initialize_page_entries start start size pml4 page_flags true false p.mmap_offset mmap num
      p.memory
    >>= map_usable left (entry + 1) pml4 mmap num

-- IdentityMapThreshold
abbrev pub identity_map_threshold : ℕ
identity_map_threshold = 0x1000000

-- The PML4 is allocated, then all is mapped to itself. The result has the address of the PML4.
unfoldable pub identity_map : Mmap → (num offset : ℕ) → Cells → Option (ℕ × Progress)
identity_map mmap num offset m =
    allocate_from_mmap mmap (num % 256) offset 4096 true m >>= λ (end, m').
    (if end % u32 == 0
      then none
      else let pml4 = end % u32 - 4096 in
        initialize_page_entries 0 0 identity_map_threshold pml4 page_flags true false end mmap num
          m'
        >>= λ p. map_usable num 0 pml4 mmap num p >>= λ q. some (pml4, q))

-- The memory's entries end below 512 GiB, less two large pages.
abbrev pub Usable : Mmap → (num : ℕ) → Type 0
Usable mmap num = (e : ℕ) → e < num → (mmap e).base + (mmap e).limit + 0x400000 ≤ 0x8000000000

-- The tables that the entries take.
unfoldable pub tables_of : (left entry : ℕ) → Mmap → ℕ
tables_of zero entry mmap = 0
tables_of (suc left) entry mmap =
    tables_for (align_down (mmap entry).base) (align_size (mmap entry).limit)
    + tables_of left (entry + 1) mmap

-- A range of the first region that is mapped to itself.
identity_Range :
    (start size : ℕ) → start % 0x200000 ≡ 0 → start + size < 0x8000000000 → Range start start size
identity_Range start size aligned low = record {
  phys_aligned = aligned;
  virt_aligned = aligned;
  lower_half = omega arith;
  one_region = omega arith;
  physical = omega arith;
}

-- A map of addresses to themselves leaves those that led to themselves.
still_itself :
    (m m' : Cells) (pml4 start stop v : ℕ)
    → start < 0x8000000000
    → v < 0x8000000000
    → Translates m' pml4 start start stop
    → Keeps m m' pml4 start stop
    → translate m pml4 v ≡ some v
    → translate m' pml4 v ≡ some v
still_itself m m' pml4 start stop v low_start low_v translates keeps found =
    elim (Bool-cases (ltb v start)) [
      | inl before ↦ keeps v v (omega arith) (inl (ltb→lt _ _ before)) found
      | inr from_start ↦ elim (Bool-cases (ltb v stop)) [
        | inl inside ↦
            translates v (ltb→le _ _ from_start) (ltb→lt _ _ inside)
            ∙ ap some (let low = ltb→le _ _ from_start in omega arith)
        | inr after ↦ keeps v v (omega arith) (inr (ltb→le _ _ after)) found
      ]
    ]

flags_ok : TableFlags page_flags
flags_ok = ((omega arith, refl), refl)

-- The pages of an entry reach its end.
aligned_entry :
    (base limit : ℕ)
    → base + limit + 0x400000 ≤ 0x8000000000
    → (align_down base % 0x200000 ≡ 0)
      × (align_down base ≤ base)
      × (align_down base + align_size limit < 0x8000000000)
      × (base + limit ≤ mapped_end (align_down base) (align_size limit))
unfolding align_down align_size
aligned_entry base limit low = elim (Bool-cases (limit % 0x200000 == 0)) [
  | inl whole ↦
      let e = (==_iff _ _).0 whole in rw whole (omega arith, omega arith, omega arith, omega arith)
  | inr other ↦ rw other (omega arith, omega arith, ground arith, ground arith)
]

-- An address that the walk leads to itself.
abbrev pub SelfMapped : Cells → (pml4 v : ℕ) → Type 0
SelfMapped m pml4 v = translate m pml4 v ≡ some v

-- From one memory to another, what was mapped to itself stays so.
abbrev Preserves : (pml4 : ℕ) → Cells → Cells → Type 0
Preserves pml4 m m' = (v : ℕ) → v < 0x8000000000 → SelfMapped m pml4 v → SelfMapped m' pml4 v

-- The entries from `entry` on are mapped to themselves.
abbrev Usably : (left entry pml4 : ℕ) → Mmap → Cells → Type 0
Usably left entry pml4 mmap m =
    (e v : ℕ)
    → entry ≤ e
    → e < entry + left
    → (mmap e).base ≤ v
    → v < (mmap e).base + (mmap e).limit
    → SelfMapped m pml4 v

-- One entry, then those after it.
Usably-cons :
    (left entry pml4 : ℕ) (mmap : Mmap) (m m' : Cells) (start stop : ℕ)
    → Translates m pml4 start start stop
    → start ≤ (mmap entry).base
    → (mmap entry).base + (mmap entry).limit ≤ stop
    → (mmap entry).base + (mmap entry).limit < 0x8000000000
    → Preserves pml4 m m'
    → Usably left (entry + 1) pml4 mmap m'
    → Usably (suc left) entry pml4 mmap m'
Usably-cons left entry pml4 mmap m m' start stop translates begun reach low kept later e v lo hi
      from to =
    elim (ℕ_discrete entry e) [
      | yes here ↦
          let e_base : (mmap entry).base ≤ v = rw here from in
          let e_end : v < (mmap entry).base + (mmap entry).limit = rw here to in
          kept v (omega arith) (translates v (omega arith) (omega arith) ∙ ap some (omega arith))
      | no other ↦ later e v (omega arith) (omega arith) from to
    ]

-- The loop, with room for its tables.
map_usable-Usably :
    (mmap : Mmap) (num pml4 left entry : ℕ) (p : Progress) (outer inner : ℕ → ℕ)
    → ((e : ℕ)
        → entry ≤ e
        → e < entry + left
        → (mmap e).base + (mmap e).limit + 0x400000 ≤ 0x8000000000)
    → Space p.memory page_flags pml4 0 p.mmap_offset outer inner
    → Room mmap (num % 256) p.mmap_offset (tables_of left entry mmap)
    → (q : Progress) × (map_usable left entry pml4 mmap num p ≡ some q)
      × Preserves pml4 p.memory q.memory
      × Usably left entry pml4 mmap q.memory
unfolding map_usable tables_of
map_usable-Usably mmap num pml4 zero entry p outer inner usable space room =
    (p, refl, λ v _ h. h, λ e v lo hi. absurd (omega arith))
map_usable-Usably mmap num pml4 (suc left) entry p outer inner usable space room =
    let bound = usable entry (omega arith) (omega arith) in
    let (aligned, down, low, reach) = aligned_entry (mmap entry).base (mmap entry).limit bound in
    let region : 0 ≡ align_down (mmap entry).base / 0x8000000000 % 512 = omega arith in
    let (q, outer', inner', ran, space', room', translates, keeps) =
      initialize_page_entries-Mapped (align_down (mmap entry).base) (align_down (mmap entry).base)
        (align_size (mmap entry).limit) pml4 page_flags false p.mmap_offset mmap num
        (tables_of left (entry + 1) mmap) p.memory outer inner flags_ok
        (identity_Range (align_down (mmap entry).base) (align_size (mmap entry).limit) aligned low)
        (subst (λ (k : ℕ). Space p.memory page_flags pml4 k p.mmap_offset outer inner) region space)
        room in
    let (q', ran', kept, mapped) =
      map_usable-Usably mmap num pml4 left (entry + 1) q outer' inner'
        (λ e lo hi. usable e (omega arith) (omega arith))
        (subst (λ (k : ℕ). Space q.memory page_flags pml4 k q.mmap_offset outer' inner')
          (sym region) space')
        room' in
    (
      q',
      rw ran ran',
      λ v h self. kept v h (
          still_itself p.memory q.memory pml4 (align_down (mmap entry).base)
            (mapped_end (align_down (mmap entry).base) (align_size (mmap entry).limit)) v start_low
            h translates keeps self),
      Usably-cons left entry pml4 mmap q.memory q'.memory (align_down (mmap entry).base)
          (mapped_end (align_down (mmap entry).base) (align_size (mmap entry).limit)) translates
          down reach entry_low kept mapped,
    )
  where
    start_low : align_down (mmap entry).base < 0x8000000000
    start_low =
        let bound = usable entry (omega arith) (omega arith) in
        let low = (aligned_entry (mmap entry).base (mmap entry).limit bound).2 in omega arith

    entry_low : (mmap entry).base + (mmap entry).limit < 0x8000000000
    entry_low = let bound = usable entry (omega arith) (omega arith) in omega arith

-- The PML4, where the allocator gives it.
pml4_low :
    (mmap : Mmap) (num offset n : ℕ)
    → Room mmap num offset (suc n)
    → (((offset + 4096) % u32 == 0) ≡ false) × ((offset + 4096) % u32 - 4096 ≡ offset)
pml4_low mmap num offset n room =
    let below : offset + 4096 < u32 = omega (arith, room.fits, room.low) in
    (ground arith, omega arith)

cleared_Space :
    (m : Cells) (offset : ℕ)
    → Space (clear offset 4096 m) page_flags offset 0 (offset + 4096) (λ _. 0) (λ _. 0)
cleared_Space m offset = record {
  outer_tables =
      Tables-cleared (clear offset 4096 m) page_flags offset (offset + 4096) (omega arith)
        (λ a lo hi. clear_inside offset 4096 m a refl lo hi);
  inner_tables = λ none_yet. absurd (omega arith);
}

-- Whatever the memory holds, with fewer than 256 entries that end 4 MiB below 512 GiB, and room
-- in one entry from the offset on for the PML4 and all tables, the third stage gets its PML4 at
-- the offset and ends with tables by which the processor leads every address below 16 MiB, and
-- every address of each entry of the usable memory map, to itself.
pub identity_map-SelfMapped :
    (mmap : Mmap) (num offset : ℕ) (m : Cells)
    → num < 256
    → Usable mmap num
    → Room mmap num offset (suc (tables_for 0 identity_map_threshold + tables_of num 0 mmap))
    → (q : Progress) × (identity_map mmap num offset m ≡ some (offset, q))
      × ((v : ℕ) → v < identity_map_threshold → SelfMapped q.memory offset v)
      × ((e v : ℕ)
          → e < num
          → (mmap e).base ≤ v
          → v < (mmap e).base + (mmap e).limit
          → SelfMapped q.memory offset v)
unfolding identity_map
identity_map-SelfMapped mmap num offset m byte usable room =
    let whole : num ≡ num % 256 = omega arith in
    let room' =
      subst
        (λ (k : ℕ).
          Room mmap k offset (suc (tables_for 0 identity_map_threshold + tables_of num 0 mmap)))
        whole room in
    let low =
      pml4_low mmap (num % 256) offset (tables_for 0 identity_map_threshold + tables_of num 0 mmap)
        room' in
    let allocated =
      allocate_table mmap (num % 256) offset
        (tables_for 0 identity_map_threshold + tables_of num 0 mmap) m (omega arith) room' in
    let (p, outer, inner, ran, space, more, translates, keeps) =
      initialize_page_entries-Mapped 0 0 identity_map_threshold offset page_flags false
        (offset + 4096) mmap num (tables_of num 0 mmap) (clear offset 4096 m) (λ _. 0) (λ _. 0)
        flags_ok (identity_Range 0 identity_map_threshold (omega arith) (omega arith))
        (cleared_Space m offset)
        (Room-next mmap (num % 256) offset
          (tables_for 0 identity_map_threshold + tables_of num 0 mmap) room') in
    let (q, ran', kept, mapped) =
      map_usable-Usably mmap num offset num 0 p outer inner (λ e _ hi. usable e (omega arith)) space
        more in
    (
      q,
      rw (allocated, low.0, low.1, ran, ran') refl,
      λ v h.
          kept v (omega arith) (translates v (omega arith) (omega arith) ∙ ap some (omega arith)),
      λ e v h. mapped e v (omega arith) (omega arith),
    )
