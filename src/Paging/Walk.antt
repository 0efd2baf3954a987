-- ===== src/Paging/Walk.antt =====
-- The tables of InitializePageEntries (Boot/Legacy/Stage3/Memory/Paging/Paging.c) as the processor walks them.
use serra.Base.{
  ℕ, ◌+◌, ◌*◌, ◌/◌, ◌%◌, ◌≤◌, ◌<◌, ◌≡◌, refl, inl, inr, Option, none, some, ◌==◌, arith, Bool-cases,
  ==_iff, if◌then◌else◌, ◌&&◌,
}
use serra.Paging.{Cells, u32, ◌>>=◌}
use serra.Paging.Entries.{Flagged, Large}
use serra.Paging.Written.{cell_of}
use serra.Paging.Fourth.{Space}

-- An entry that leads to a table: present, without the bit of a large page.
unfoldable pub table_of : ℕ → Option ℕ
table_of e = if e % 2 == 1 && e / 128 % 2 == 0 then some (e / 4096 % 0x10000000000 * 4096) else none

-- An entry of a page of 2 MiB.
unfoldable pub page_of : (e v : ℕ) → Option ℕ
page_of e v =
    if e % 2 == 1 && e / 128 % 2 == 1
    then some (e / 0x200000 % 0x80000000 * 0x200000 + v % 0x200000)
    else none

-- The processor's walk to a page of 2 MiB, by the fields of the virtual address; `none` is a page fault (or
-- a page of another size).
unfoldable pub translate : Cells → (pml4 v : ℕ) → Option ℕ
translate m pml4 v = table_of (m (pml4 + 8 * (v / 0x8000000000 % 512))) >>= λ third.
    table_of (m (third + 8 * (v / 0x40000000 % 512))) >>= λ second.
    page_of (m (second + 8 * (v / 0x200000 % 512))) v

-- The number of a page in its 512 GiB region.
abbrev pub page_number : ℕ → ℕ
page_number v = v / 0x200000 % 0x40000

-- Flags of tables: those of an entry, without the bit of a large page.
abbrev pub TableFlags : ℕ → Type 0
TableFlags flags = Flagged flags × (flags / 128 % 2 ≡ 0)

table_of_entry :
    (t flags : ℕ) → TableFlags flags → t % 4096 ≡ 0 → t < u32 → table_of (t + flags) ≡ some t
unfolding table_of
table_of_entry t flags ok aligned low =
    let present : (t + flags) % 2 ≡ 1 = omega arith in
    let table : (t + flags) / 128 % 2 ≡ 0 = omega arith in
    let address : (t + flags) / 4096 % 0x10000000000 * 4096 ≡ t = omega arith in
    rw (present, table, address)

table_of_zero : table_of 0 ≡ none
unfolding table_of
table_of_zero = refl

pub page_of_entry :
    (p flags v : ℕ)
    → Large flags
    → p % 0x200000 ≡ 0
    → p < 0x10000000000000
    → page_of (p + flags) v ≡ some (p + v % 0x200000)
unfolding page_of
page_of_entry p flags v ok aligned low =
    let present : (p + flags) % 2 ≡ 1 = omega (arith, ok.present, ok.small) in
    let large : (p + flags) / 128 % 2 ≡ 1 = omega (arith, ok.large, ok.small) in
    let address : (p + flags) / 0x200000 % 0x80000000 * 0x200000 ≡ p = omega (arith, ok.small) in
    rw (present, large, address)

module _ (m : Cells) (flags pml4 i4 offset : ℕ) (outer inner : ℕ → ℕ) (ok : TableFlags flags)
    (in_pml4 : i4 < 512) (low : offset ≤ u32) (space : Space m flags pml4 i4 offset outer inner)
    (v : ℕ) (region : v / 0x8000000000 % 512 ≡ i4) where
  third_index : v / 0x40000000 % 512 ≡ page_number v / 512
  third_index = omega arith

  second_index : v / 0x200000 % 512 ≡ page_number v % 512
  second_index = omega arith

  outer_step : 0 < outer i4 → table_of (m (pml4 + 8 * (v / 0x8000000000 % 512))) ≡ some (outer i4)
  outer_step there =
      let t = space.outer_tables in
      rw (region, t.present i4 in_pml4 there)
        (table_of_entry (outer i4) flags ok (t.aligned i4 in_pml4)
          (omega (arith, t.before i4 in_pml4)))

  inner_step :
      0 < outer i4
      → 0 < inner (page_number v / 512)
      → table_of (m (outer i4 + 8 * (v / 0x40000000 % 512))) ≡ some (inner (page_number v / 512))
  inner_step outer_there there =
      let t = space.inner_tables outer_there in
      let in_table : page_number v / 512 < 512 = omega arith in
      rw (third_index, t.present (page_number v / 512) in_table there)
        (table_of_entry (inner (page_number v / 512)) flags ok
          (t.aligned (page_number v / 512) in_table)
          (omega (arith, t.before (page_number v / 512) in_table)))

  -- With the tables, the walk ends at the entry of the page.
  pub translate_there :
      0 < outer i4
      → 0 < inner (page_number v / 512)
      → translate m pml4 v ≡ page_of (m (cell_of inner (page_number v))) v
  unfolding translate
  translate_there outer_there inner_there =
      rw (outer_step outer_there, inner_step outer_there inner_there, second_index)

  outer_none : outer i4 ≡ 0 → translate m pml4 v ≡ none
  unfolding translate table_of
  outer_none e = rw (region, space.outer_tables.absent i4 in_pml4 e)

  inner_none : 0 < outer i4 → inner (page_number v / 512) ≡ 0 → translate m pml4 v ≡ none
  unfolding translate
  inner_none there e =
      let in_table : page_number v / 512 < 512 = omega arith in
      let absent = (space.inner_tables there).absent (page_number v / 512) in_table e in
      rw (outer_step there, third_index, absent, table_of_zero)

  -- A page that the walk finds has its tables.
  pub translate_found :
      (a : ℕ) → translate m pml4 v ≡ some a → (0 < outer i4) × (0 < inner (page_number v / 512))
  translate_found a found = elim (Bool-cases (outer i4 == 0)) [
    | inl missing ↦ cc (outer_none ((==_iff _ _).0 missing))
    | inr outer_there ↦
        let there : 0 < outer i4 = ground arith in
        elim (Bool-cases (inner (page_number v / 512) == 0)) [
          | inl missing ↦ cc (inner_none there ((==_iff _ _).0 missing))
          | inr inner_there ↦ (there, ground arith)
        ]
  ]
