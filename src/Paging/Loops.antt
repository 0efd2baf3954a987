-- ===== src/Paging/Loops.antt =====
-- The loops of InitializePageEntries over large pages (Boot/Legacy/Stage3/Memory/Paging/Paging.c): what is
-- written into the second and third levels, and what stays.
use serra.Base.{
  ℕ, zero, suc, ◌+◌, ◌*◌, ◌%◌, ◌≤◌, ◌<◌, ◌≡◌, refl, ◌∙◌, ◌⊎◌, inl, inr, true, some, arith,
}
use serra.Paging.{u64, store, Progress, Request, for_from, pde_flags, large_round, pml2_round}
use serra.Paging.Entries.{Flagged, large_entry, pde_flags-Large}
use serra.Paging.Words.{store_self, store_ne}

-- Entries of large pages, one after another, from entry `i` of the table on; all else is as it was.
pub record Filled (r : Request) (table i n : ℕ) (p q : Progress) : Type 0 where
  pub wrote :
      (k : ℕ) → k < n → q.memory (table + 8 * (i + k)) ≡ p.phys_address + k * 0x200000 + pde_flags r
  pub kept : (a : ℕ) → (a < table + 8 * i) ⊎ (table + 8 * (i + n) ≤ a) → q.memory a ≡ p.memory a
  pub moved : q.phys_address ≡ p.phys_address + n * 0x200000
  pub same_offset : q.mmap_offset ≡ p.mmap_offset

-- After one large page.
abbrev after_page : Request → (table i : ℕ) → Progress → Progress
after_page r table i p = record p {
  memory = store (table + 8 * i) (p.phys_address + pde_flags r) p.memory;
  phys_address = p.phys_address + 0x200000;
}

large_first :
    (r : Request) (i4 i3 table : ℕ)
    → Flagged r.flags
    → r.use_large_pages ≡ true
    → (i : ℕ) (p : Progress) → p.phys_address % 0x200000 ≡ 0
    → p.phys_address + 0x200000 < u64
    → pml2_round r i4 i3 table i p ≡ some (after_page r table i p)
unfolding pml2_round large_round
large_first r i4 i3 table flagged large i p aligned low =
    let entry =
      large_entry p.phys_address (pde_flags r) (pde_flags-Large r flagged).small aligned in
    let small : (p.phys_address + 4096 * 512) % u64 ≡ p.phys_address + 0x200000 = omega arith in
    rw (entry, small, large)

-- One page, then the others.
Filled-cons :
    (r : Request) (table i n : ℕ) (p q : Progress)
    → Filled r table (i + 1) n (after_page r table i p) q
    → Filled r table i (suc n) p q
Filled-cons r table i n p q filled = record {
  wrote = wrote;
  kept = kept;
  moved = omega (arith, filled.moved);
  same_offset = filled.same_offset;
}
  where
    wrote :
        (k : ℕ)
        → k < suc n
        → q.memory (table + 8 * (i + k)) ≡ p.phys_address + k * 0x200000 + pde_flags r
    wrote zero h =
        let here : table + 8 * (i + 0) ≡ table + 8 * i = omega arith in
        rw here (
          filled.kept (table + 8 * i) (inl (omega arith))
          ∙ store_self (table + 8 * i) (p.phys_address + pde_flags r) p.memory
          ∙ (omega arith))
    wrote (suc k) h =
        let here : table + 8 * (i + suc k) ≡ table + 8 * (i + 1 + k) = omega arith in
        rw here (filled.wrote k (omega arith) ∙ (omega arith))

    kept : (a : ℕ) → (a < table + 8 * i) ⊎ (table + 8 * (i + suc n) ≤ a) → q.memory a ≡ p.memory a
    kept a (inl low) =
        filled.kept a (inl (omega arith)) ∙ store_ne _ _ p.memory a (λ e. absurd (omega arith))
    kept a (inr high) =
        filled.kept a (inr (omega arith)) ∙ store_ne _ _ p.memory a (λ e. absurd (omega arith))

pub fill-Filled :
    (r : Request) (i4 i3 table : ℕ)
    → Flagged r.flags
    → r.use_large_pages ≡ true
    → (n i : ℕ) (p : Progress) → p.phys_address % 0x200000 ≡ 0
    → p.phys_address + n * 0x200000 < u64
    → (q : Progress) × (for_from n i (pml2_round r i4 i3 table) p ≡ some q) × Filled r table i n p q
unfolding for_from
fill-Filled r i4 i3 table flagged large zero i p aligned low = (
  p,
  refl,
  record {
    wrote = λ k h. absurd (omega arith);
    kept = λ a _. refl;
    moved = omega arith;
    same_offset = refl;
  },
)
fill-Filled r i4 i3 table flagged large (suc n) i p aligned low =
    let first = large_first r i4 i3 table flagged large i p aligned (omega arith) in
    let (q, ran, filled) =
      fill-Filled r i4 i3 table flagged large n (i + 1) (after_page r table i p) (omega arith)
        (omega arith) in
    (q, rw first ran, Filled-cons r table i n p q filled)
