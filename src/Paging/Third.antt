-- ===== src/Paging/Third.antt =====
-- The loop over the third level in InitializePageEntries, over large pages (Boot/Legacy/Stage3/Memory/Paging/
-- Paging.c).
use mathlib.Core.Path.{subst}
use native.Mathlib.Decide.{ℕ_discrete}
use serra.Base.{
  ℕ, zero, suc, ◌+◌, ◌-◌, ◌*◌, ◌/◌, ◌%◌, ◌≤◌, ◌<◌, ◌≡◌, ◌≢◌, refl, sym, ap, ◌∙◌, ◌⊎◌, inl, inr,
  true, false, Option, some, ltb, ◌==◌, arith, Bool-cases, ltb→lt, ltb→le,
}
use serra.Paging.{u64, Progress, Request, for_from, pde_flags, pml3_round}
use serra.Paging.Entries.{Flagged}
use serra.Paging.Room.{Room}
use serra.Paging.Tables.{Tables, Opened, open_table-Opened}
use serra.Paging.Loops.{Filled, fill-Filled}
use serra.Paging.Written.{cell_of, Written, Written-trans, Tables-agree}
use serra.Paging.Spans.{Spans, Begins, end_of, first_index_lem, rounds_lem, end_bounds}

-- One round of the loop.
module _ (r : Request) (flagged : Flagged r.flags) (large : r.use_large_pages ≡ true)
    (i4 first last table : ℕ) (spans : Spans r i4 first last) (phys : ℕ)
    (aligned : phys % 0x200000 ≡ 0) (low : phys + (last + 1 - first) * 0x200000 < u64) where
  -- What the entry of a page is to be.
  abbrev pub value : ℕ → ℕ
  value l = phys + (l - first) * 0x200000 + pde_flags r

  -- The state before page `x`, with room for `n` tables.
  pub record Before (x n : ℕ) (at : ℕ → ℕ) (p : Progress) : Type 0 where
    pub tables : Tables p.memory r.flags table p.mmap_offset at
    pub room : Room r.mmap (r.num_entries % 256) p.mmap_offset n
    pub address : p.phys_address ≡ phys + (x - first) * 0x200000
    pub begun : first ≤ x

  -- From page `x` to before page `y`.
  abbrev pub Runs : (x y n : ℕ) (at : ℕ → ℕ) (p : Progress) → Option Progress → Type 0
  Runs x y n at p run =
      (q : Progress) × (at' : ℕ → ℕ) × (run ≡ some q)
      × Before y n at' q
      × Written value table x y at at' p.memory q.memory
      × (p.mmap_offset ≤ q.mmap_offset)

  module _ (x n : ℕ) (at : ℕ → ℕ) (p : Progress) (before : Before x (suc n) at p)
      (inside : x ≤ last) (next : ℕ) (q : Progress) (at' : ℕ → ℕ)
      (opened : Opened r table n (x / 512) next at at' p q) (y : ℕ)
      (same_end : y ≡ end_of last (x / 512)) (q' : Progress)
      (filled : Filled r next (x % 512) (y - x) q q') where
    bounds : (x < y) × (y ≤ last + 1) × (y ≤ 512 * (x / 512 + 1))
    bounds = rw same_end (end_bounds last x inside)

    index : x / 512 < 512
    index = let region = spans.region in omega arith

    -- The table of the round is a page of its own.
    new_table : (next % 4096 ≡ 0) × (table + 4096 ≤ next)
    new_table =
        let e = opened.table_at in
        let there : 0 < at' (x / 512) = let h = opened.positive in omega arith in
        let page = opened.tables.aligned (x / 512) index in
        let after = opened.tables.after (x / 512) index there in (rw (← e) page, omega arith)

    -- The pages of the round are those of the entries filled.
    outside :
        (l : ℕ)
        → (l / 512 ≡ x / 512)
        → (l < x) ⊎ (y ≤ l)
        → (l % 512 < x % 512) ⊎ (x % 512 + (y - x) ≤ l % 512)
    outside l same (inl early) = inl (omega arith)
    outside l same (inr late) = inr (let b = bounds in omega arith)

    table_kept : (k : ℕ) → k < 512 → q'.memory (table + 8 * k) ≡ q.memory (table + 8 * k)
    table_kept k h = filled.kept (table + 8 * k) (inl (let t = new_table in omega arith))

    round_Before : Before y n at' q'
    round_Before = record {
      tables =
          subst (λ (o : ℕ). Tables q'.memory r.flags table o at') (sym filled.same_offset)
            (Tables-agree q.memory q'.memory r.flags table q.mmap_offset at' table_kept
              opened.tables);
      room =
          subst (λ (o : ℕ). Room r.mmap (r.num_entries % 256) o n) (sym filled.same_offset)
            opened.room;
      address =
          omega (arith, filled.moved, opened.same_address, before.address, before.begun, bounds);
      begun = omega (arith, before.begun, bounds);
    }

    -- The cell of a page that the round does not write.
    apart_cell :
        (l : ℕ)
        → l < 0x40000
        → 0 < at (l / 512)
        → (l < x) ⊎ (y ≤ l)
        → (cell_of at l < next + 8 * (x % 512)) ⊎ (next + 8 * (x % 512 + (y - x)) ≤ cell_of at l)
    apart_cell l h there side = elim (ℕ_discrete (l / 512) (x / 512)) [
      | yes here ↦
          let old : at (l / 512) ≡ next =
            ap at here ∙ sym (opened.found_at (rw (← here) there)) ∙ opened.table_at in
          same_table l old (outside l here side)
      | no other ↦
          let old = opened.kept_at (l / 512) other in
          let away : at (l / 512) ≢ next = λ e. other (
            opened.tables.apart (l / 512) (x / 512) (omega arith) index (rw old there)
              (old ∙ e ∙ sym opened.table_at)) in
          let page = opened.tables.aligned (l / 512) (omega arith) in
          let old_page : at (l / 512) % 4096 ≡ 0 = rw (← old) page in other_table l old_page away
    ]
      where
        same_table :
            (l : ℕ)
            → at (l / 512) ≡ next
            → (l % 512 < x % 512) ⊎ (x % 512 + (y - x) ≤ l % 512)
            → (cell_of at l < next + 8 * (x % 512))
              ⊎ (next + 8 * (x % 512 + (y - x)) ≤ cell_of at l)
        same_table l old (inl early) = inl (omega arith)
        same_table l old (inr late) = inr (omega arith)

        other_table :
            (l : ℕ)
            → at (l / 512) % 4096 ≡ 0
            → at (l / 512) ≢ next
            → (cell_of at l < next + 8 * (x % 512))
              ⊎ (next + 8 * (x % 512 + (y - x)) ≤ cell_of at l)
        other_table l page away =
            let own = new_table in
            let b = bounds in
            elim (Bool-cases (ltb (at (l / 512)) next)) [
              | inl lower ↦ let d = ltb→lt _ _ lower in inl (omega arith)
              | inr upper ↦
                  let d = ltb→le _ _ upper in
                  let e : next < at (l / 512) = ground arith in inr (omega arith)
            ]

    round_Written : Written value table x y at at' p.memory q'.memory
    round_Written = record {
      wrote = wrote;
      same_at = same_at;
      kept = kept;
      below = λ a h.
          filled.kept a (inl (let t = new_table in omega arith))
          ∙ opened.kept a (let b = before.tables.below in omega arith) (inl (omega arith));
    }
      where
        same_at : (k : ℕ) → k < 512 → 0 < at k → at' k ≡ at k
        same_at k h there = elim (ℕ_discrete k (x / 512)) [
          | yes here ↦ rw here (opened.found_at (rw here at there))
          | no other ↦ opened.kept_at k other
        ]

        wrote :
            (l : ℕ) → x ≤ l → l < y → (0 < at' (l / 512)) × (q'.memory (cell_of at' l) ≡ value l)
        wrote l lo hi =
            let b = bounds in
            let same : l / 512 ≡ x / 512 = omega arith in
            let cell : cell_of at' l ≡ next + 8 * (x % 512 + (l - x)) =
              rw same (omega (arith, opened.table_at)) in
            (
              rw same (rw (opened.table_at) (opened.positive)),
              rw cell (
                  filled.wrote (l - x) (omega arith)
                  ∙ omega (arith, opened.same_address, before.address, before.begun)),
            )

        kept :
            (l : ℕ)
            → l < 0x40000
            → 0 < at (l / 512)
            → (l < x) ⊎ (y ≤ l)
            → q'.memory (cell_of at l) ≡ p.memory (cell_of at l)
        kept l h there side =
            filled.kept (cell_of at l) (apart_cell l h there side)
            ∙ opened.kept (cell_of at l)
                (let b = before.tables.before (l / 512) (omega arith) in omega arith)
                (inr (
                  let b = before.tables.after (l / 512) (omega arith) there in
                  omega (arith, index)))

  below_last :
      (x y : ℕ)
      → first ≤ x
      → x < y
      → y ≤ last + 1
      → phys + (x - first) * 0x200000 + (y - x) * 0x200000 < u64
  below_last x y begun nonempty bounded = omega arith

  -- A round, and the rounds that follow it.
  round_Runs :
      (x n : ℕ) (at : ℕ → ℕ) (p : Progress)
      → Before x (suc n) at p
      → x ≤ last
      → Begins first x
      → Runs x (end_of last (x / 512)) n at p (pml3_round r i4 table (x / 512) p)
  unfolding pml3_round
  round_Runs x n at p before inside begins =
      let region = spans.region in
      let b = end_bounds last x inside in
      let (next, q, at', ran, opened) =
        open_table-Opened r flagged table n (x / 512) (omega arith) at p before.tables
          before.room in
      let (q', filled_run, filled) =
        fill-Filled r i4 (x / 512) next flagged large (end_of last (x / 512) - x) (x % 512) q
          (rw (opened.same_address ∙ before.address) (omega arith))
          (rw (opened.same_address ∙ before.address)
            (below_last x (end_of last (x / 512)) before.begun b.0 b.1)) in
      (
        q',
        at',
        rw
            (
              ran,
              first_index_lem r i4 first last x spans begins,
              rounds_lem r i4 first last x spans inside,
            )
            filled_run,
        round_Before x n at p before inside next q at' opened (end_of last (x / 512)) refl q'
            filled,
        round_Written x n at p before inside next q at' opened (end_of last (x / 512)) refl q'
            filled,
        omega (arith, opened.advanced, filled.same_offset),
      )

  -- The number of the page at which `rounds` more rounds are to be done, the next one of table `j`.
  pub data Place : (rounds j x : ℕ) → Type 0 where
    finished : {j x : ℕ} → x ≡ last + 1 → Place zero j x
    amid :
        {rounds j x : ℕ}
        → suc rounds + j ≡ last / 512 + 1
        → x / 512 ≡ j
        → x ≤ last
        → Begins first x
        → Place (suc rounds) j x

  next_Place :
      (rounds j x : ℕ)
      → suc rounds + j ≡ last / 512 + 1
      → x / 512 ≡ j
      → x ≤ last
      → first ≤ x
      → Place rounds (j + 1) (end_of last (x / 512))
  next_Place zero j x total here within begun = finished (ground arith)
  next_Place (suc rounds) j x total here within begun =
      let other : (x / 512 == last / 512) ≡ false = ground arith in
      rw other (amid (omega arith) (omega arith) (omega arith) (inr (omega arith, omega arith)))

  Runs-cons :
      (rounds j x y z n k : ℕ) (at : ℕ → ℕ) (p : Progress) (body : ℕ → Progress → Option Progress)
      → x ≤ y
      → y ≤ z
      → z ≤ 0x40000
      → Runs x y n at p (body j p)
      → ((at' : ℕ → ℕ) (q : Progress)
          → Before y n at' q
          → Runs y z k at' q (for_from rounds (j + 1) body q))
      → Runs x z k at p (for_from (suc rounds) j body p)
  unfolding for_from
  Runs-cons rounds j x y z n k at p body xy yz low (q, at', ran, before, written, up) rest =
      let (q', at'', ran', before', written', up') = rest at' q before in
      (
        q',
        at'',
        rw ran ran',
        before',
        Written-trans value table x y z at at' at'' p.memory q.memory q'.memory xy yz low written
            written',
        omega arith,
      )

  Runs-nil :
      (x j n : ℕ) (at : ℕ → ℕ) (p : Progress) (body : ℕ → Progress → Option Progress)
      → Before x n at p
      → Runs x x n at p (for_from zero j body p)
  unfolding for_from
  Runs-nil x j n at p body before = (
    p,
    at,
    refl,
    before,
    record {
      wrote = λ l lo hi. absurd (omega arith);
      same_at = λ k _ _. refl;
      kept = λ l _ _ _. refl;
      below = λ a _. refl;
    },
    omega arith,
  )

  -- The whole loop.
  pub third-Runs :
      (rounds j x n : ℕ) (at : ℕ → ℕ) (p : Progress)
      → Place rounds j x
      → Before x (rounds + n) at p
      → Runs x (last + 1) n at p (for_from rounds j (pml3_round r i4 table) p)
  third-Runs zero j x n at p (finished e) before =
      subst (λ (y : ℕ). Runs x y n at p (for_from zero j (pml3_round r i4 table) p)) e
        (Runs-nil x j n at p (pml3_round r i4 table)
          (subst (λ (k : ℕ). Before x k at p) (let d : 0 + n ≡ n = omega arith in d) before))
  third-Runs (suc rounds) j x n at p (amid total here within begins) before =
      let region = spans.region in
      let b = end_bounds last x within in
      let more : suc rounds + n ≡ suc (rounds + n) = omega arith in
      Runs-cons rounds j x (end_of last (x / 512)) (last + 1) (rounds + n) n at p
        (pml3_round r i4 table) (omega arith) b.1 (omega arith)
        (subst
          (λ (k : ℕ). Runs x (end_of last (x / 512)) (rounds + n) at p (pml3_round r i4 table k p))
          here
          (round_Runs x (rounds + n) at p (subst (λ (k : ℕ). Before x k at p) more before) within
            begins))
        (λ at' q after.
          third-Runs rounds (j + 1) (end_of last (x / 512)) n at' q
            (next_Place rounds j x total here within before.begun) after)
