-- ===== src/Tests/Paging.antt =====
-- Tests of the early allocator and the page tables, and the properties at inputs that meet their conditions.
use serra.Base.{
  ℕ, ◌+◌, ◌≤◌, ◌<◌, ◌≡◌, refl, zero, suc, true, Option, none, some, arith, ◌==◌, if◌then◌else◌,
}
use serra.Paging.{
  Mmap, Cells, Progress, allocate_from_mmap, allocate_in, find_entry, page_align, clear,
  initialize_page_entries, for_from, pml4_round, pml3_round, pml2_round, large_round, open_table,
  find_table, first_index, last_index, make_page_entry, page_address, store, pml_index, pde_flags,
}
use serra.Paging.Allocate.{Allocated, Bounded, allocate_from_mmap-Allocated}
use serra.Paging.Room.{Room}
use serra.Paging.Tables.{Tables-cleared}
use serra.Paging.Fourth.{Space}
use serra.Paging.Mapping.{Mapped, tables_for, initialize_page_entries-Mapped}
use serra.Paging.Walk.{translate, table_of, page_of}
use serra.Paging.Identity.{
  SelfMapped, Usable, identity_map, identity_map_threshold, map_usable, align_down, align_size,
  tables_of, identity_map-SelfMapped,
}

-- 639 KiB, and 127 MiB from 1 MiB on.
abbrev two_areas : Mmap
two_areas i =
    if i == 0
    then record { base = 0x500; limit = 0x9F700 }
    else if i == 1
    then record { base = 0x100000; limit = 0x7EE0000 }
    else record { base = 0; limit = 0 }

abbrev no_cells : Cells
no_cells a = 0

abbrev size_of : Option (ℕ × Cells) → Option ℕ
size_of none = none
size_of (some r) = some r.0

-- The block begins on the next page, and the result is its end.
block_test : size_of (allocate_from_mmap two_areas 2 0x100801 0x2000 true no_cells) ≡ some 0x103000
unfolding allocate_from_mmap allocate_in find_entry page_align
block_test = refl

-- The first area is too small, so the second has it.
next_area_test :
    size_of (allocate_from_mmap two_areas 2 0x600 0xA0000 true no_cells) ≡ some 0x1A0000
unfolding allocate_from_mmap allocate_in find_entry page_align
next_area_test = refl

-- Nothing is left.
no_room_test : size_of (allocate_from_mmap two_areas 2 0x100000 0x8000000 true no_cells) ≡ some 0
unfolding allocate_from_mmap allocate_in find_entry page_align
no_room_test = refl

two_areas-Bounded : Bounded two_areas 2
two_areas-Bounded zero h = omega arith
two_areas-Bounded (suc zero) h = omega arith
two_areas-Bounded (suc (suc e)) h = absurd (omega arith)

allocate_from_mmap-Allocated_example :
    Allocated two_areas 2 0x100801 0x2000 true no_cells
      (allocate_from_mmap two_areas 2 0x100801 0x2000 true no_cells)
allocate_from_mmap-Allocated_example =
    allocate_from_mmap-Allocated two_areas 2 0x100801 0x2000 true no_cells (omega arith)
      (omega arith) two_areas-Bounded (omega arith) (omega arith)

two_areas-Room : (n : ℕ) → n < 0x7000 → Room two_areas 2 0x200000 n
two_areas-Room n h = record {
  entry = 1;
  within = omega arith;
  aligned = refl;
  positive = omega arith;
  begun = omega arith;
  fits = omega arith;
  low = omega arith;
  later = λ k lo hi. absurd (omega arith);
}

-- A PML4 without entries, below the offset.
no_cells-Space : Space no_cells 3 0x1FF000 0 0x200000 (λ _. 0) (λ _. 0)
no_cells-Space = record {
  outer_tables = Tables-cleared no_cells 3 0x1FF000 0x200000 (omega arith) (λ _ _ _. refl);
  inner_tables = λ none_yet. absurd (omega arith);
}

initialize_page_entries-Mapped_example :
    Mapped 0x40000000 0 0x1000000 0x1FF000 3 two_areas 2 0 no_cells (
      initialize_page_entries 0x40000000 0 0x1000000 0x1FF000 3 true true 0x200000 two_areas 2
        no_cells)
initialize_page_entries-Mapped_example =
    initialize_page_entries-Mapped 0x40000000 0 0x1000000 0x1FF000 3 true 0x200000 two_areas 2 0
      no_cells (λ _. 0) (λ _. 0) ((omega arith, refl), refl)
      (record {
        phys_aligned = refl;
        virt_aligned = refl;
        lower_half = omega arith;
        one_region = refl;
        physical = omega arith;
      })
      no_cells-Space (two_areas-Room 2 (omega arith))

two_areas-Usable : Usable two_areas 2
two_areas-Usable zero h = omega arith
two_areas-Usable (suc zero) h = omega arith
two_areas-Usable (suc (suc e)) h = absurd (omega arith)

few_tables : suc (tables_for 0 identity_map_threshold + tables_of 2 0 two_areas) < 0x7000
unfolding tables_of align_down align_size
few_tables = omega arith

abbrev where_to : Option (ℕ × Progress) → ℕ → Option ℕ
where_to none v = none
where_to (some r) v = translate r.1.memory r.0 v

-- An address of the second area, by a walk through the tables that were made.
walk_test : where_to (identity_map two_areas 2 0x200000 no_cells) 0x3ABCDEF ≡ some 0x3ABCDEF
unfolding identity_map map_usable align_down align_size initialize_page_entries allocate_from_mmap
    allocate_in find_entry page_align clear for_from pml4_round pml3_round pml2_round large_round
    open_table find_table first_index last_index make_page_entry page_address store pml_index
    pde_flags translate table_of page_of
walk_test = refl

-- Past the map there is no page.
fault_test : where_to (identity_map two_areas 2 0x200000 no_cells) 0x8200000 ≡ none
unfolding identity_map map_usable align_down align_size initialize_page_entries allocate_from_mmap
    allocate_in find_entry page_align clear for_from pml4_round pml3_round pml2_round large_round
    open_table find_table first_index last_index make_page_entry page_address store pml_index
    pde_flags translate table_of page_of
fault_test = refl

identity_map-SelfMapped_example :
    (q : Progress) × (identity_map two_areas 2 0x200000 no_cells ≡ some (0x200000, q))
    × ((v : ℕ) → v < identity_map_threshold → SelfMapped q.memory 0x200000 v)
    × ((e v : ℕ)
        → e < 2
        → (two_areas e).base ≤ v
        → v < (two_areas e).base + (two_areas e).limit
        → SelfMapped q.memory 0x200000 v)
identity_map-SelfMapped_example =
    identity_map-SelfMapped two_areas 2 0x200000 no_cells (omega arith) two_areas-Usable (
      two_areas-Room (suc (tables_for 0 identity_map_threshold + tables_of 2 0 two_areas))
        few_tables)
