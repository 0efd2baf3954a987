-- ===== src/Paging/Fourth.antt =====
-- The outermost loop of InitializePageEntries where the range stays in one 512 GiB region, which is one entry
-- of the PML4 (Boot/Legacy/Stage3/Memory/Paging/Paging.c).
use mathlib.Core.Path.{subst}
use serra.Base.{
  ℕ, suc, ◌+◌, ◌-◌, ◌*◌, ◌/◌, ◌%◌, ◌≤◌, ◌<◌, ◌≡◌, refl, sym, ◌∙◌, ◌⊎◌, inl, inr, true, Option, some,
  ◌==◌, arith, Bool-cases, ==_iff,
}
use serra.Paging.{
  Cells, u64, Progress, Request, for_from, open_table, pde_flags, pml3_round, pml4_round,
  first_index, last_index,
}
use serra.Paging.Entries.{Flagged}
use serra.Paging.Room.{Room}
use serra.Paging.Tables.{Tables, Opened, open_table-Opened, Tables-advance, Tables-cleared}
use serra.Paging.Written.{cell_of, Tables-agree}
use serra.Paging.Spans.{Spans, ==_refl}
use serra.Paging.Third.{Runs, Place, Place.amid, third-Runs}

-- The PML4 with the tables of its entries, and those of entry `i4` with theirs.
pub record Space (m : Cells) (flags pml4 i4 offset : ℕ) (outer inner : ℕ → ℕ) : Type 0 where
  pub outer_tables : Tables m flags pml4 offset outer
  pub inner_tables : 0 < outer i4 → Tables m flags (outer i4) offset inner

module _ (r : Request) (flagged : Flagged r.flags) (large : r.use_large_pages ≡ true)
    (i4 first last pml4 : ℕ) (in_pml4 : i4 < 512) (spans : Spans r i4 first last) (phys : ℕ)
    (aligned : phys % 0x200000 ≡ 0) (low : phys + (last + 1 - first) * 0x200000 < u64) where
  -- The entry of page `l`.
  abbrev pub wanted : ℕ → ℕ
  wanted l = phys + (l - first) * 0x200000 + pde_flags r

  abbrev pub Wrote : (ℕ → ℕ) → Cells → Type 0
  Wrote inner m =
      (l : ℕ) → first ≤ l → l < last + 1 → (0 < inner (l / 512)) × (m (cell_of inner l) ≡ wanted l)

  abbrev pub Kept : (outer inner outer' inner' : ℕ → ℕ) → Cells → Cells → Type 0
  Kept outer inner outer' inner' m m' =
      0 < outer i4
      → (outer' i4 ≡ outer i4)
        × ((l : ℕ)
            → l < 0x40000
            → 0 < inner (l / 512)
            → (l < first) ⊎ (last + 1 ≤ l)
            → (inner' (l / 512) ≡ inner (l / 512)) × (m' (cell_of inner l) ≡ m (cell_of inner l)))

  abbrev pub Maps : (n : ℕ) → (outer inner : ℕ → ℕ) → Progress → Option Progress → Type 0
  Maps n outer inner p run =
      (q : Progress) × (outer' : ℕ → ℕ) × (inner' : ℕ → ℕ) × (run ≡ some q)
      × Space q.memory r.flags pml4 i4 q.mmap_offset outer' inner'
      × (0 < outer' i4)
      × Wrote inner' q.memory
      × Kept outer inner outer' inner' p.memory q.memory
      × Room r.mmap (r.num_entries % 256) q.mmap_offset n

  rounds : ℕ
  rounds = last / 512 + 1 - first / 512

  ends_lem : (first_index r 1 i4 0 0 ≡ first / 512) × (last_index r 1 i4 0 0 ≡ last / 512)
  unfolding first_index last_index
  ends_lem =
      (rw (spans.first4, spans.first3, ==_refl i4), rw (spans.last4, spans.last3, ==_refl i4))

  begin_Place :
      (next : ℕ)
      → Place r flagged large i4 first last next spans phys aligned low rounds (first / 512) first
  unfolding rounds
  begin_Place next =
      let ordered = spans.ordered in
      let some_round : last / 512 + 1 - first / 512 ≡ suc (last / 512 - first / 512) =
        omega arith in
      rw some_round (amid (omega arith) refl ordered (inl refl))

  -- The third level, from the table that was opened.
  third :
      (n next : ℕ) (inner : ℕ → ℕ) (q : Progress)
      → Tables q.memory r.flags next q.mmap_offset inner
      → Room r.mmap (r.num_entries % 256) q.mmap_offset (rounds + n)
      → q.phys_address ≡ phys
      → Runs r flagged large i4 first last next spans phys aligned low first (last + 1) n inner q (
          for_from
            (last_index r 1 i4 0 0 + 1 - first_index r 1 i4 0 0)
            (first_index r 1 i4 0 0)
            (pml3_round r i4 next)
            q)
  unfolding rounds
  third n next inner q tables room address =
      rw (ends_lem.0, ends_lem.1)
        (third-Runs r flagged large i4 first last next spans phys aligned low rounds (first / 512)
          first n inner q (begin_Place next)
          (record { tables = tables; room = room; address = omega arith; begun = omega arith }))

  -- What opening the entry of the PML4 leaves of the pages that there were.
  abbrev Same : (outer inner outer' start : ℕ → ℕ) → Cells → Cells → Type 0
  Same outer inner outer' start m m' =
      (outer' i4 ≡ outer i4)
      × ((k : ℕ) → inner k ≡ start k)
      × ((l : ℕ) → l < 0x40000 → 0 < inner (l / 512) → m' (cell_of inner l) ≡ m (cell_of inner l))

  kept_page :
      (l : ℕ) (start inner inner' : ℕ → ℕ) (m m' m'' : Cells)
      → inner (l / 512) ≡ start (l / 512)
      → m' (cell_of inner l) ≡ m (cell_of inner l)
      → inner' (l / 512) ≡ start (l / 512)
      → m'' (cell_of start l) ≡ m' (cell_of start l)
      → (inner' (l / 512) ≡ inner (l / 512)) × (m'' (cell_of inner l) ≡ m (cell_of inner l))
  kept_page l start inner inner' m m' m'' same old at_same cell = (
    at_same ∙ sym same,
    subst (λ (t : ℕ). m'' (t + 8 * (l % 512)) ≡ m' (t + 8 * (l % 512))) (sym same) cell ∙ old,
  )

  -- After the entry of the PML4 is opened: the rest of its round.
  after_open :
      (n next : ℕ) (outer outer' inner start : ℕ → ℕ) (p q : Progress)
      → Opened r pml4 (rounds + n) i4 next outer outer' p q
      → Tables q.memory r.flags next q.mmap_offset start
      → (0 < outer i4 → Same outer inner outer' start p.memory q.memory)
      → p.phys_address ≡ phys
      → Maps n outer inner p (
          for_from
            (last_index r 1 i4 0 0 + 1 - first_index r 1 i4 0 0)
            (first_index r 1 i4 0 0)
            (pml3_round r i4 next)
            q)
  after_open n next outer outer' inner start p q opened tables same address =
      let (q', inner', ran, before, written, up) =
        third n next start q tables opened.room (opened.same_address ∙ address) in
      let at_next = opened.table_at in
      let positive : 0 < outer' i4 = let h = opened.positive in omega arith in
      let above : pml4 + 4096 ≤ next =
        let h = opened.tables.after i4 in_pml4 positive in omega arith in
      (
        q',
        outer',
        inner',
        ran,
        record {
          outer_tables =
              Tables-advance q'.memory r.flags pml4 q.mmap_offset q'.mmap_offset outer' up (
                Tables-agree q.memory q'.memory r.flags pml4 q.mmap_offset outer'
                  (λ k h. written.below (pml4 + 8 * k) (omega arith)) opened.tables);
          inner_tables = λ _.
              subst (λ (t : ℕ). Tables q'.memory r.flags t q'.mmap_offset inner') (sym at_next)
                before.tables;
        },
        positive,
        written.wrote,
        (λ there.
            let (outer_same, inner_same, old) = same there in
            (
              outer_same,
              λ l h some_table side.
                  kept_page l start inner inner' p.memory q.memory q'.memory (inner_same (l / 512))
                    (old l h some_table)
                    (written.same_at (l / 512) (omega arith)
                      (rw (← inner_same (l / 512)) some_table))
                    (written.kept l h (rw (← inner_same (l / 512)) some_table) side),
            )),
        before.room,
      )

  Maps-bind :
      (n next : ℕ) (outer inner : ℕ → ℕ) (p q : Progress)
      → open_table r pml4 i4 p ≡ some (next, q)
      → Maps n outer inner p (
          for_from
            (last_index r 1 i4 0 0 + 1 - first_index r 1 i4 0 0)
            (first_index r 1 i4 0 0)
            (pml3_round r i4 next)
            q)
      → Maps n outer inner p
          (for_from (r.final 0 + 1 - r.initial 0) (r.initial 0) (pml4_round r pml4) p)
  unfolding for_from pml4_round
  Maps-bind n next outer inner p q opened
        (q', outer', inner', ran, space, there, wrote, kept, room) =
      let one : i4 + 1 - i4 ≡ 1 = omega arith in
      (
        q',
        outer',
        inner',
        rw (spans.first4, spans.last4, one, opened, ran) refl,
        space,
        there,
        wrote,
        kept,
        room,
      )

  -- The entry is 0: its table is a cleared page.
  from_missing :
      (n next : ℕ) (outer outer' inner : ℕ → ℕ) (p q : Progress)
      → Opened r pml4 n i4 next outer outer' p q
      → outer i4 ≡ 0
      → Tables q.memory r.flags next q.mmap_offset (λ _. 0)
  from_missing n next outer outer' inner p q opened missing =
      Tables-cleared q.memory r.flags next q.mmap_offset
        (omega (arith, opened.tables.before i4 in_pml4, opened.table_at)) (opened.fresh missing)

  -- The entry is there: so are the tables below it.
  module _ (n next : ℕ) (outer outer' inner : ℕ → ℕ) (p q : Progress)
      (opened : Opened r pml4 n i4 next outer outer' p q)
      (space : Space p.memory r.flags pml4 i4 p.mmap_offset outer inner)
      (known : 0 < outer i4) where
    old_cell : (a : ℕ) → outer i4 ≤ a → a < p.mmap_offset → q.memory a ≡ p.memory a
    old_cell a low high =
        opened.kept a high (inr (omega (arith, space.outer_tables.after i4 in_pml4 known)))

    from_known : Tables q.memory r.flags next q.mmap_offset inner
    from_known =
        let inner_tables = space.inner_tables known in
        let same : outer i4 ≡ next = sym (opened.found_at known) ∙ opened.table_at in
        subst (λ (t : ℕ). Tables q.memory r.flags t q.mmap_offset inner) same
          (Tables-advance q.memory r.flags (outer i4) p.mmap_offset q.mmap_offset inner
            opened.advanced
            (Tables-agree p.memory q.memory r.flags (outer i4) p.mmap_offset inner
              (λ k h. old_cell (outer i4 + 8 * k) (omega arith) (omega (arith, inner_tables.below)))
              inner_tables))

    Same-known : Same outer inner outer' inner p.memory q.memory
    Same-known = (
      opened.found_at known,
      λ k. refl,
      λ l h some_table.
          let inner_tables = space.inner_tables known in
          let after = inner_tables.after (l / 512) (omega arith) some_table in
          let before = inner_tables.before (l / 512) (omega arith) in
          old_cell (cell_of inner l) (omega arith) (omega arith),
    )

  -- The round of the PML4 entry.
  after_either :
      (n next : ℕ) (outer outer' inner : ℕ → ℕ) (p q : Progress)
      → open_table r pml4 i4 p ≡ some (next, q)
      → Opened r pml4 (rounds + n) i4 next outer outer' p q
      → Space p.memory r.flags pml4 i4 p.mmap_offset outer inner
      → p.phys_address ≡ phys
      → Maps n outer inner p
          (for_from (r.final 0 + 1 - r.initial 0) (r.initial 0) (pml4_round r pml4) p)
  after_either n next outer outer' inner p q ran opened space address =
      Maps-bind n next outer inner p q ran (elim (Bool-cases (outer i4 == 0)) [
        | inl missing ↦
            let e = (==_iff _ _).0 missing in
            after_open n next outer outer' inner (λ _. 0) p q opened
              (from_missing (rounds + n) next outer outer' inner p q opened e)
              (λ there. absurd (omega arith)) address
        | inr known ↦
            let there : 0 < outer i4 = ground arith in
            after_open n next outer outer' inner inner p q opened
              (from_known (rounds + n) next outer outer' inner p q opened space there)
              (λ _. Same-known (rounds + n) next outer outer' inner p q opened space there) address
      ])

  -- The outermost loop.
  pub fourth-Maps :
      (n : ℕ) (outer inner : ℕ → ℕ) (p : Progress)
      → Space p.memory r.flags pml4 i4 p.mmap_offset outer inner
      → Room r.mmap (r.num_entries % 256) p.mmap_offset (suc (last / 512 + 1 - first / 512 + n))
      → p.phys_address ≡ phys
      → Maps n outer inner p
          (for_from (r.final 0 + 1 - r.initial 0) (r.initial 0) (pml4_round r pml4) p)
  unfolding rounds
  fourth-Maps n outer inner p space room address =
      let (next, q, outer', ran, opened) =
        open_table-Opened r flagged pml4 (last / 512 + 1 - first / 512 + n) i4 in_pml4 outer p
          space.outer_tables room in
      after_either n next outer outer' inner p q ran opened space address
