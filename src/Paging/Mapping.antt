-- ===== src/Paging/Mapping.antt =====
-- InitializePageEntries with large pages (Boot/Legacy/Stage3/Memory/Paging/Paging.c) against the translation of
-- addresses by the processor.
use mathlib.Core.Path.{subst}
use serra.Base.{
  ℕ, suc, ◌+◌, ◌-◌, ◌*◌, ◌/◌, ◌%◌, ◌≤◌, ◌<◌, ◌≡◌, refl, sym, ap, ◌∙◌, ◌⊎◌, inl, inr, Bool, true,
  Option, some, arith,
}
use serra.Paging.{
  Cells, Mmap, u32, u64, Progress, Request, pde_flags, pml_index, initialize_page_entries, for_from,
  pml4_round,
}
use serra.Paging.Entries.{pde_flags-Large}
use serra.Paging.Room.{Room}
use serra.Paging.Spans.{Spans}
use serra.Paging.Fourth.{Space, Maps, fourth-Maps}
use serra.Paging.Walk.{
  translate, page_of, page_number, TableFlags, page_of_entry, translate_there, translate_found,
}

-- A range of 2 MiB pages, its end included, in one 512 GiB region of the lower half of the address space.
pub record Range (phys virt size : ℕ) : Type 0 where
  pub phys_aligned : phys % 0x200000 ≡ 0
  pub virt_aligned : virt % 0x200000 ≡ 0
  pub lower_half : virt + size < 0x1000000000000
  pub one_region : (virt + size) / 0x8000000000 ≡ virt / 0x8000000000
  pub physical : phys + size + 0x200000 ≤ 0x10000000000000

-- The end of the pages that are mapped: the page of the end of the range is one of them.
abbrev pub mapped_end : (virt size : ℕ) → ℕ
mapped_end virt size = (virt + size) / 0x200000 * 0x200000 + 0x200000

-- The tables that a range takes at most: one below the PML4, and one for each GiB that it touches.
abbrev pub tables_for : (virt size : ℕ) → ℕ
tables_for virt size = suc ((virt + size) / 0x40000000 - virt / 0x40000000 + 1)

-- Every address from `virt` to before `stop` leads to its physical one.
abbrev pub Translates : Cells → (pml4 phys virt stop : ℕ) → Type 0
Translates m pml4 phys virt stop =
    (v : ℕ) → virt ≤ v → v < stop → translate m pml4 v ≡ some (phys + (v - virt))

-- The region's other addresses lead to what they did.
abbrev pub Keeps : Cells → Cells → (pml4 virt stop : ℕ) → Type 0
Keeps m m' pml4 virt stop =
    (v a : ℕ)
    → v / 0x8000000000 ≡ virt / 0x8000000000
    → (v < virt) ⊎ (stop ≤ v)
    → translate m pml4 v ≡ some a
    → translate m' pml4 v ≡ some a

-- The result of a call that has room for its tables, and for `n` more.
abbrev pub Mapped :
    (phys virt size pml4 flags : ℕ) → Mmap → (num n : ℕ) → Cells → Option Progress → Type 0
Mapped phys virt size pml4 flags mmap num n m run =
    (q : Progress) × (outer : ℕ → ℕ) × (inner : ℕ → ℕ) × (run ≡ some q)
    × Space q.memory flags pml4 (virt / 0x8000000000 % 512) q.mmap_offset outer inner
    × Room mmap (num % 256) q.mmap_offset n
    × Translates q.memory pml4 phys virt (mapped_end virt size)
    × Keeps m q.memory pml4 virt (mapped_end virt size)

module _ (phys virt size pml4 flags : ℕ) (pat : Bool) (offset : ℕ) (mmap : Mmap) (num n : ℕ)
    (m : Cells) (outer inner : ℕ → ℕ) (ok : TableFlags flags) (range : Range phys virt size)
    (space : Space m flags pml4 (virt / 0x8000000000 % 512) offset outer inner)
    (room : Room mmap (num % 256) offset (tables_for virt size + n)) where
  abbrev request : Request
  request = record {
    flags = flags;
    use_large_pages = true;
    use_pat = pat;
    mmap = mmap;
    num_entries = num;
    initial = pml_index virt;
    final = pml_index (virt + size);
  }

  abbrev first : ℕ
  first = page_number virt

  abbrev last : ℕ
  last = page_number (virt + size)

  request-Spans : Spans request (virt / 0x8000000000 % 512) first last
  unfolding pml_index
  request-Spans =
      let one = range.one_region in
      record {
        first4 = refl;
        first3 = omega arith;
        first2 = omega arith;
        last4 = rw one refl;
        last3 = omega arith;
        last2 = omega arith;
        ordered = omega arith;
        region = omega arith;
      }

  low_enough : phys + (last + 1 - first) * 0x200000 < u64
  low_enough =
      let one = range.one_region in
      let bound = range.physical in let half = range.lower_half in omega arith

  abbrev Ran : Option Progress → Type 0
  Ran run =
      Maps request ok.0 refl (virt / 0x8000000000 % 512) first last pml4 (omega arith) request-Spans
        phys range.phys_aligned low_enough n outer inner
        (record { memory = m; phys_address = phys; mmap_offset = offset }) run

  loops-Ran : Ran (
      for_from
        (request.final 0 + 1 - request.initial 0)
        (request.initial 0)
        (pml4_round request pml4)
        (record { memory = m; phys_address = phys; mmap_offset = offset }))
  loops-Ran =
      fourth-Maps request ok.0 refl (virt / 0x8000000000 % 512) first last pml4 (omega arith)
        request-Spans phys range.phys_aligned low_enough n outer inner
        (record { memory = m; phys_address = phys; mmap_offset = offset }) space
        (subst (λ (k : ℕ). Room mmap (num % 256) offset k)
          (let one = range.one_region in omega arith) room)
        refl

  -- The number of a page in the range.
  page_in_range :
      (v : ℕ)
      → virt ≤ v
      → v < mapped_end virt size
      → (v / 0x8000000000 % 512 ≡ virt / 0x8000000000 % 512)
        × (first ≤ page_number v)
        × (page_number v < last + 1)
        × (phys + (page_number v - first) * 0x200000 + v % 0x200000 ≡ phys + (v - virt))
  page_in_range v lo hi =
      let one = range.one_region in
      let half = range.lower_half in
      let edge = range.virt_aligned in (omega arith, omega arith, omega arith, omega arith)

  page_outside :
      (v : ℕ)
      → v / 0x8000000000 ≡ virt / 0x8000000000
      → (v < virt) ⊎ (mapped_end virt size ≤ v)
      → (page_number v < first) ⊎ (last + 1 ≤ page_number v)
  page_outside v same (inl before) = inl (let edge = range.virt_aligned in omega arith)
  page_outside v same (inr after) = inr (let one = range.one_region in omega arith)

  request_run :
      initialize_page_entries phys virt size pml4 flags true pat offset mmap num m
      ≡ for_from
          (request.final 0 + 1 - request.initial 0)
          (request.initial 0)
          (pml4_round request pml4)
          (record { memory = m; phys_address = phys; mmap_offset = offset })
  unfolding initialize_page_entries
  request_run =
      let one : phys % u32 % 0x200000 ≡ 0 = let edge = range.phys_aligned in omega arith in
      let two : virt % u32 % 0x200000 ≡ 0 = let edge = range.virt_aligned in omega arith in
      let whole : (virt + size) % u64 ≡ virt + size = let half = range.lower_half in omega arith in
      rw (one, two, whole)

  Mapped-of_Ran :
      (run : Option Progress) → Ran run → Mapped phys virt size pml4 flags mmap num n m run
  Mapped-of_Ran run (q, outer', inner', ran, space', there, wrote, kept, room') =
      (q, outer', inner', ran, space', room', translates, keeps)
    where
      in_pml4 : virt / 0x8000000000 % 512 < 512
      in_pml4 = omega arith

      below : q.mmap_offset ≤ u32
      below = omega (arith, room'.fits, room'.low)

      below_first : offset ≤ u32
      below_first = omega (arith, room.fits, room.low)

      translates : Translates q.memory pml4 phys virt (mapped_end virt size)
      translates v lo hi =
          let (region, low_page, high_page, address) = page_in_range v lo hi in
          let (inner_there, entry) = wrote (page_number v) low_page high_page in
          let bound = range.physical in
          translate_there q.memory flags pml4 (virt / 0x8000000000 % 512) q.mmap_offset outer'
            inner' ok in_pml4 below space' v region there inner_there
          ∙ ap (λ (e : ℕ). page_of e v) entry
          ∙ page_of_entry (phys + (page_number v - first) * 0x200000) (pde_flags request) v
              (pde_flags-Large request ok.0) (let edge = range.phys_aligned in omega arith)
              (omega arith)
          ∙ ap some address

      keeps : Keeps m q.memory pml4 virt (mapped_end virt size)
      keeps v a same side found =
          let region : v / 0x8000000000 % 512 ≡ virt / 0x8000000000 % 512 =
            ap (λ (t : ℕ). t % 512) same in
          let (outer_there, inner_there) =
            translate_found m flags pml4 (virt / 0x8000000000 % 512) offset outer inner ok in_pml4
              below_first space v region a found in
          let (outer_same, pages) = kept outer_there in
          let (inner_same, cell) =
            pages (page_number v) (omega arith) inner_there (page_outside v same side) in
          let old =
            translate_there m flags pml4 (virt / 0x8000000000 % 512) offset outer inner ok in_pml4
              below_first space v region outer_there inner_there in
          let new =
            translate_there q.memory flags pml4 (virt / 0x8000000000 % 512) q.mmap_offset outer'
              inner' ok in_pml4 below space' v region there (rw inner_same inner_there) in
          new
          ∙ ap (λ (t : ℕ). page_of (q.memory (t + 8 * (page_number v % 512))) v) inner_same
          ∙ ap (λ (e : ℕ). page_of e v) cell
          ∙ sym old
          ∙ found

  -- With large pages, addresses on their boundaries, a range that ends in the same 512 GiB
  -- region of the lower half, physical addresses below 2^52 less a page, flags below 4096 with
  -- the present bit and without the bit of a large page, tables that stand apart below the
  -- offset, and room for the new ones, InitializePageEntries returns; the processor then leads
  -- each address from the start to the end of the page that holds the end of the range to its
  -- physical address, every other address of the region that led somewhere leads where it did,
  -- the tables still stand apart, and the room that was to be left is left.
  pub initialize_page_entries-Mapped :
      Mapped phys virt size pml4 flags mmap num n m
        (initialize_page_entries phys virt size pml4 flags true pat offset mmap num m)
  initialize_page_entries-Mapped = rw request_run (Mapped-of_Ran _ loops-Ran)
