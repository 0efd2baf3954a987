-- ===== src/Paging/Tables.antt =====
-- The third level of the page tables while the loops of InitializePageEntries run (Boot/Legacy/Stage3/Memory/
-- Paging/Paging.c): which tables there are, and that they stand apart.
use mathlib.Core.Path.{subst}
use native.Mathlib.Decide.{ℕ_discrete}
use serra.Base.{
  ℕ, suc, ◌+◌, ◌-◌, ◌*◌, ◌%◌, ◌≤◌, ◌<◌, ◌≡◌, ◌≢◌, refl, sym, ap, ◌∙◌, ◌⊎◌, inl, inr, false, some,
  ◌==◌, arith, Bool-cases, if◌then◌else◌,
}
use serra.Paging.{
  Cells, u32, clear, page_address, make_page_entry, store, Progress, Request, find_table,
  open_table,
}
use serra.Paging.Entries.{Flagged, make_page_entry-add}
use serra.Paging.Room.{Room, Room-weaken, Room-next, allocate_table}
use serra.Paging.Words.{store_self, store_ne, store_same, clear_inside, clear_outside}

-- The table at `table` whose entry `j` leads to the table at `at j`, where 0 is none. All of them stand
-- after it, below the offset and on different pages.
pub record Tables (m : Cells) (flags table offset : ℕ) (at : ℕ → ℕ) : Type 0 where
  pub below : table + 4096 ≤ offset
  pub absent : (j : ℕ) → j < 512 → at j ≡ 0 → m (table + 8 * j) ≡ 0
  pub present : (j : ℕ) → j < 512 → 0 < at j → m (table + 8 * j) ≡ at j + flags
  pub aligned : (j : ℕ) → j < 512 → at j % 4096 ≡ 0
  pub after : (j : ℕ) → j < 512 → 0 < at j → table + 4096 ≤ at j
  pub before : (j : ℕ) → j < 512 → at j + 4096 ≤ offset
  pub apart : (j k : ℕ) → j < 512 → k < 512 → 0 < at j → at j ≡ at k → j ≡ k

-- One more table.
abbrev pub update : (ℕ → ℕ) → (j table : ℕ) → ℕ → ℕ
update at j table k = if k == j then table else at k

-- What open_table leaves: the table of entry `j` at `next`, with all else as it was.
pub record Opened (r : Request) (table n j next : ℕ) (at at' : ℕ → ℕ) (p q : Progress)
    : Type 0 where
  pub tables : Tables q.memory r.flags table q.mmap_offset at'
  pub room : Room r.mmap (r.num_entries % 256) q.mmap_offset n
  pub table_at : at' j ≡ next
  pub positive : 0 < next
  pub kept_at : (k : ℕ) → k ≢ j → at' k ≡ at k
  pub found_at : 0 < at j → at' j ≡ at j
  pub advanced : p.mmap_offset ≤ q.mmap_offset
  pub same_address : q.phys_address ≡ p.phys_address
  pub fresh : at j ≡ 0 → (a : ℕ) → next ≤ a → a < next + 4096 → q.memory a ≡ 0
  pub kept :
      (a : ℕ)
      → a < p.mmap_offset
      → (a < table + 8 * j) ⊎ (table + 8 * j + 8 ≤ a)
      → q.memory a ≡ p.memory a

page_of : (t flags : ℕ) → flags < 4096 → t % 4096 ≡ 0 → page_address (t + flags) ≡ t
unfolding page_address
page_of t flags small aligned = omega arith

-- The entries after one of them got a table.
update_self : (at : ℕ → ℕ) (j t : ℕ) → update at j t j ≡ t
update_self at j t = ground arith

update_ne : (at : ℕ → ℕ) (j t k : ℕ) → k ≢ j → update at j t k ≡ at k
update_ne at j t k h = ground arith

-- A cell beside another.
pub out_of_cell : (cell a : ℕ) → (a < cell) ⊎ (cell + 8 ≤ a) → a ≢ cell
out_of_cell cell a (inl low) e = omega (arith, e)
out_of_cell cell a (inr high) e = omega (arith, e)

-- A table more, on the page at the offset.
module _ (m : Cells) (flags table offset : ℕ) (at : ℕ → ℕ) (j : ℕ) (inside : j < 512)
    (none_yet : at j ≡ 0) (page : offset % 4096 ≡ 0) (tables : Tables m flags table offset at) where
  abbrev Grown : Cells
  Grown = store (table + 8 * j) (offset + flags) (clear offset 4096 m)

  -- A fact about each entry of the grown table.
  by_entry :
      (P : ℕ → Type 0) (k : ℕ) → (k ≡ j → P offset) → (k ≢ j → P (at k)) → P (update at j offset k)
  by_entry P k new old = elim (ℕ_discrete k j) [
    | yes here ↦ subst P (sym (rw here (update_self at j offset))) (new here)
    | no other ↦ subst P (sym (update_ne at j offset k other)) (old other)
  ]

  old_cell : (k : ℕ) → k < 512 → k ≢ j → Grown (table + 8 * k) ≡ m (table + 8 * k)
  old_cell k h other =
      store_ne _ _ _ (table + 8 * k) (λ e. other (omega arith))
      ∙ clear_outside offset 4096 m (table + 8 * k) refl
          (inl (let below = tables.below in omega arith))

  apart_grown :
      (i k : ℕ)
      → i < 512
      → k < 512
      → 0 < update at j offset i
      → update at j offset i ≡ update at j offset k
      → i ≡ k
  apart_grown i k hi hk =
      by_entry (λ t. 0 < t → t ≡ update at j offset k → i ≡ k) i
        (λ here.
          by_entry (λ t. 0 < offset → offset ≡ t → i ≡ k) k (λ too _ _. here ∙ sym too)
            (λ other _ e. let below = tables.before k hk in absurd (omega arith)))
        (λ other.
          by_entry (λ t. 0 < at i → at i ≡ t → i ≡ k) k
            (λ too _ e. let below = tables.before i hi in absurd (omega arith))
            (λ _ some_table e. tables.apart i k hi hk some_table e))

  Tables-grow : Tables Grown flags table (offset + 4096) (update at j offset)
  Tables-grow = record {
    below = omega (arith, tables.below);
    absent = λ k h.
        by_entry (λ t. t ≡ 0 → Grown (table + 8 * k) ≡ 0) k
          (λ here none. let below = tables.below in absurd (omega arith))
          (λ other none. old_cell k h other ∙ tables.absent k h none);
    present = λ k h.
        by_entry (λ t. 0 < t → Grown (table + 8 * k) ≡ t + flags) k
          (λ here _. rw here (store_self (table + 8 * j) (offset + flags) _))
          (λ other there. old_cell k h other ∙ tables.present k h there);
    aligned = λ k h. by_entry (λ t. t % 4096 ≡ 0) k (λ _. page) (λ _. tables.aligned k h);
    after = λ k h.
        by_entry (λ t. 0 < t → table + 4096 ≤ t) k (λ _ _. tables.below) (λ _. tables.after k h);
    before = λ k h.
        by_entry (λ t. t + 4096 ≤ offset + 4096) k (λ _. omega arith)
          (λ _. let below = tables.before k h in omega arith);
    apart = apart_grown;
  }

module _ (r : Request) (flagged : Flagged r.flags) (table n j : ℕ) (inside : j < 512) (at : ℕ → ℕ)
    (p : Progress) (tables : Tables p.memory r.flags table p.mmap_offset at)
    (room : Room r.mmap (r.num_entries % 256) p.mmap_offset (suc n)) where
  abbrev pub Result : Type 0
  Result =
      (next : ℕ) × (q : Progress) × (at' : ℕ → ℕ) × (open_table r table j p ≡ some (next, q))
      × Opened r table n j next at at' p q

  -- The entry is there.
  open_found : 0 < at j → Result
  unfolding open_table find_table
  open_found there =
      let entry = tables.present j inside there in
      let page : page_address (at j + r.flags) ≡ at j =
        page_of (at j) r.flags flagged.0 (tables.aligned j inside) in
      let low : at j % u32 ≡ at j = omega (arith, tables.before j inside, room.fits, room.low) in
      let some_table : (at j == 0) ≡ false = ground arith in
      let whole : make_page_entry (at j) r.flags ≡ at j + r.flags =
        make_page_entry-add (at j) r.flags flagged.0
        ∙ ap (λ (t : ℕ). t + r.flags)
            (unfold page_address in let aligned = tables.aligned j inside in omega arith) in
      (
        at j,
        p,
        at,
        rw (
          entry,
          page,
          low,
          some_table,
          whole,
          store_same (table + 8 * j) (at j + r.flags) p.memory entry,
        ),
        record {
          tables = tables;
          room = Room-weaken r.mmap (r.num_entries % 256) p.mmap_offset n 1 (
              subst (λ (k : ℕ). Room r.mmap (r.num_entries % 256) p.mmap_offset k)
                (let e : suc n ≡ 1 + n = omega arith in e) room);
          table_at = refl;
          positive = there;
          kept_at = λ k _. refl;
          found_at = λ _. refl;
          advanced = omega arith;
          same_address = refl;
          fresh = λ missing. absurd (omega arith);
          kept = λ a _ _. refl;
        },
      )

  -- The entry is 0.
  open_new : at j ≡ 0 → Result
  unfolding open_table find_table
  open_new none_yet =
      let entry = tables.absent j inside none_yet in
      let taken =
        allocate_table r.mmap (r.num_entries % 256) p.mmap_offset n p.memory (omega arith) room in
      let low : (p.mmap_offset + 4096 + u32 - 4096) % u32 ≡ p.mmap_offset =
        omega (arith, room.fits, room.low) in
      let page : page_address 0 ≡ 0 = unfold page_address in refl in
      let whole : make_page_entry p.mmap_offset r.flags ≡ p.mmap_offset + r.flags =
        make_page_entry-add p.mmap_offset r.flags flagged.0
        ∙ ap (λ (t : ℕ). t + r.flags)
            (unfold page_address in let aligned = room.aligned in omega arith) in
      (
        p.mmap_offset,
        record p { memory = new_memory; mmap_offset = p.mmap_offset + 4096 },
        update at j p.mmap_offset,
        rw (entry, page, taken, low, whole) refl,
        record {
          tables =
              Tables-grow p.memory r.flags table p.mmap_offset at j inside none_yet room.aligned
                tables;
          room = Room-next r.mmap (r.num_entries % 256) p.mmap_offset n room;
          table_at = update_self at j p.mmap_offset;
          positive = room.positive;
          kept_at = λ k other. update_ne at j p.mmap_offset k other;
          found_at = λ there. absurd (omega arith);
          advanced = omega arith;
          same_address = refl;
          fresh = λ _ a low high.
              store_ne _ _ _ a (λ e. let b = tables.below in absurd (omega arith))
              ∙ clear_inside p.mmap_offset 4096 p.memory a refl low high;
          kept = λ a low apart.
              store_ne _ _ _ a (out_of_cell (table + 8 * j) a apart)
              ∙ clear_outside p.mmap_offset 4096 p.memory a refl (inl low);
        },
      )
    where
      new_memory : Cells
      new_memory =
          store (table + 8 * j) (p.mmap_offset + r.flags) (clear p.mmap_offset 4096 p.memory)

  -- open_table gives the table of the entry, old or new.
  pub open_table-Opened : Result
  open_table-Opened = elim (Bool-cases (at j == 0)) [
    | inl missing ↦ open_new (ground arith)
    | inr there ↦ open_found (ground arith)
  ]

-- A higher offset.
pub Tables-advance :
    (m : Cells) (flags table offset offset' : ℕ) (at : ℕ → ℕ)
    → offset ≤ offset'
    → Tables m flags table offset at
    → Tables m flags table offset' at
Tables-advance m flags table offset offset' at h t = record {
  below = omega (arith, t.below);
  absent = t.absent;
  present = t.present;
  aligned = t.aligned;
  after = t.after;
  before = λ j k. omega (arith, t.before j k);
  apart = t.apart;
}

-- A cleared page is a table without entries.
pub Tables-cleared :
    (m : Cells) (flags table offset : ℕ)
    → table + 4096 ≤ offset
    → ((a : ℕ) → table ≤ a → a < table + 4096 → m a ≡ 0)
    → Tables m flags table offset (λ _. 0)
Tables-cleared m flags table offset h zeros = record {
  below = h;
  absent = λ j k _. zeros (table + 8 * j) (omega arith) (omega arith);
  present = λ j k none_yet. absurd (omega arith);
  aligned = λ j k. omega arith;
  after = λ j k none_yet. absurd (omega arith);
  before = λ j k. omega arith;
  apart = λ j k _ _ none_yet. absurd (omega arith);
}
