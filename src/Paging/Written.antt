-- ===== src/Paging/Written.antt =====
-- What the loops of InitializePageEntries write below one entry of the PML4 (Boot/Legacy/Stage3/Memory/Paging/
-- Paging.c), by the numbers of the pages: those of 2 MiB in one 512 GiB region, of 18 bits.
use mathlib.Core.Path.{subst}
use serra.Base.{
  ℕ, ◌+◌, ◌*◌, ◌/◌, ◌%◌, ◌≤◌, ◌<◌, ◌≡◌, ap, ◌∙◌, ◌⊎◌, inl, inr, ltb, arith, Bool-cases, ltb→lt,
  ltb→le,
}
use serra.Paging.{Cells}
use serra.Paging.Tables.{Tables}

-- The cell of page `l`.
abbrev pub cell_of : (ℕ → ℕ) → ℕ → ℕ
cell_of at l = at (l / 512) + 8 * (l % 512)

-- The pages from `x` to before `y` are written, and all others that had a table stay.
pub record Written (value : ℕ → ℕ) (table x y : ℕ) (at at' : ℕ → ℕ) (m m' : Cells) : Type 0 where
  pub wrote : (l : ℕ) → x ≤ l → l < y → (0 < at' (l / 512)) × (m' (cell_of at' l) ≡ value l)
  pub same_at : (k : ℕ) → k < 512 → 0 < at k → at' k ≡ at k
  pub kept :
      (l : ℕ)
      → l < 0x40000
      → 0 < at (l / 512)
      → (l < x) ⊎ (y ≤ l)
      → m' (cell_of at l) ≡ m (cell_of at l)
  pub below : (a : ℕ) → a < table → m' a ≡ m a

pub Written-trans :
    (value : ℕ → ℕ) (table x y z : ℕ) (at at' at'' : ℕ → ℕ) (m m' m'' : Cells)
    → x ≤ y
    → y ≤ z
    → z ≤ 0x40000
    → Written value table x y at at' m m'
    → Written value table y z at' at'' m' m''
    → Written value table x z at at'' m m''
Written-trans value table x y z at at' at'' m m' m'' xy yz low w w' = record {
  wrote = wrote;
  same_at = same_at;
  kept = λ l h there side.
      later l h there (outer_second l side) ∙ w.kept l h there (outer_first l side);
  below = λ a h. w'.below a h ∙ w.below a h;
}
  where
    same_at : (k : ℕ) → k < 512 → 0 < at k → at'' k ≡ at k
    same_at k h there = let first = w.same_at k h there in w'.same_at k h (omega arith) ∙ first

    outer_first : (l : ℕ) → (l < x) ⊎ (z ≤ l) → (l < x) ⊎ (y ≤ l)
    outer_first l (inl low) = inl low
    outer_first l (inr high) = inr (omega arith)

    outer_second : (l : ℕ) → (l < x) ⊎ (z ≤ l) → (l < y) ⊎ (z ≤ l)
    outer_second l (inl low) = inl (omega arith)
    outer_second l (inr high) = inr high

    later :
        (l : ℕ)
        → l < 0x40000
        → 0 < at (l / 512)
        → (l < y) ⊎ (z ≤ l)
        → m'' (cell_of at l) ≡ m' (cell_of at l)
    later l h there side =
        let same = w.same_at (l / 512) (omega arith) there in
        subst (λ (t : ℕ). m'' (t + 8 * (l % 512)) ≡ m' (t + 8 * (l % 512))) same
          (w'.kept l h (omega arith) side)

    early : (l : ℕ) → x ≤ l → l < y → (0 < at'' (l / 512)) × (m'' (cell_of at'' l) ≡ value l)
    early l lo hi =
        let (there, e) = w.wrote l lo hi in
        let same = w'.same_at (l / 512) (omega arith) there in
        (
          omega arith,
          ap (λ (t : ℕ). m'' (t + 8 * (l % 512))) same ∙ w'.kept l (omega arith) there (inl hi) ∙ e,
        )

    wrote : (l : ℕ) → x ≤ l → l < z → (0 < at'' (l / 512)) × (m'' (cell_of at'' l) ≡ value l)
    wrote l lo hi = elim (Bool-cases (ltb l y)) [
      | inl first ↦ early l lo (ltb→lt _ _ first)
      | inr second ↦ w'.wrote l (ltb→le _ _ second) hi
    ]

-- The tables stay tables where their entries are left alone.
pub Tables-agree :
    (m m' : Cells) (flags table offset : ℕ) (at : ℕ → ℕ)
    → ((k : ℕ) → k < 512 → m' (table + 8 * k) ≡ m (table + 8 * k))
    → Tables m flags table offset at
    → Tables m' flags table offset at
Tables-agree m m' flags table offset at same t = record {
  below = t.below;
  absent = λ j h e. same j h ∙ t.absent j h e;
  present = λ j h there. same j h ∙ t.present j h there;
  aligned = t.aligned;
  after = t.after;
  before = t.before;
  apart = t.apart;
}
