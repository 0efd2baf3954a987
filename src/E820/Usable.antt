-- ===== src/E820/Usable.antt =====
-- The loop that makes the usable memory map (Boot/Legacy/Stage3/Bootloader.c), on a map whose entries do not
-- overlap.
use mathlib.Core.Path.{subst}
use native.Mathlib.Decide.{ℕ_discrete}
use serra.Base.{
  ℕ, suc, ◌+◌, ◌-◌, ◌%◌, ◌≤◌, ◌<◌, ◌≡◌, ◌≢◌, sym, ap, ◌∙◌, inl, inr, true, ◌==◌, arith, Bool-cases,
  if◌then◌else◌,
}
use serra.Paging.{UsableMmapEntry, Mmap, u64}
use serra.E820.{
  MmapEntry, Entries, Collected, put, is_free, align_up, cut_down, mmap_entry_memory_limit,
}

-- Entries in order that do not overlap, below the end of the address space; the free ones have two pages at
-- least.
pub record Orderly (num : ℕ) (a : Entries) : Type 0 where
  pub apart : (i j : ℕ) → i < j → j < num → (a i).base + (a i).limit ≤ (a j).base
  pub low : (i : ℕ) → i < num → (a i).base + (a i).limit + 0x1000 ≤ u64
  pub wide : (i : ℕ) → i < num → is_free (a i) ≡ true → 0x2000 ≤ (a i).limit

-- An entry of usable memory: whole pages, 128 KiB of them at least, inside a free entry.
pub record IsUsable (before : ℕ) (a : Entries) (e : UsableMmapEntry) : Type 0 where
  pub index : ℕ
  pub within : index < before
  pub free : is_free (a index) ≡ true
  pub base_page : e.base % 0x1000 ≡ 0
  pub limit_page : e.limit % 0x1000 ≡ 0
  pub large : mmap_entry_memory_limit ≤ e.limit
  pub begun : (a index).base ≤ e.base
  pub ended : e.base + e.limit ≤ (a index).base + (a index).limit

-- The whole pages of an entry, by their first and last boundary.
abbrev pub IsPages : MmapEntry → (first last : ℕ) → Type 0
IsPages e first last =
    (first % 0x1000 ≡ 0)
    × (last % 0x1000 ≡ 0)
    × (e.base ≤ first)
    × (first < e.base + 0x1000)
    × (last ≤ e.base + e.limit)
    × (e.base + e.limit < last + 0x1000)

-- The usable map of the first `before` entries.
pub record Collects (a : Entries) (before : ℕ) (c : Collected) : Type 0 where
  pub usable : (i : ℕ) → i < c.usable_position → IsUsable before a (c.usable_mmap i)
  pub ascending :
      (i j : ℕ)
      → i < j
      → j < c.usable_position
      → (c.usable_mmap i).base + (c.usable_mmap i).limit ≤ (c.usable_mmap j).base
  pub complete :
      (k first last : ℕ)
      → k < before
      → is_free (a k) ≡ true
      → IsPages (a k) first last
      → first + mmap_entry_memory_limit ≤ last
      → (i : ℕ) × (i < c.usable_position)
        × ((c.usable_mmap i).base ≡ first)
        × ((c.usable_mmap i).limit ≡ last - first)

-- The boundaries that the code computes.
pub boundaries_of :
    (e : MmapEntry)
    → e.base + e.limit + 0x1000 ≤ u64
    → IsPages e (align_up e.base) (cut_down (e.base + e.limit))
unfolding align_up cut_down
boundaries_of e low = elim (Bool-cases (e.base % 4096 == 0)) [
  | inl whole ↦ rw whole (from_base e.base (ground arith) (omega arith) (omega arith))
  | inr other ↦
      let wrap : (e.base + (4096 - e.base % 4096)) % u64 ≡ e.base + (4096 - e.base % 4096) =
        ground arith in
      rw (other, wrap)
        (from_base (e.base + (4096 - e.base % 4096)) (omega arith) (omega arith) (ground arith))
]
  where
    from_base :
        (first : ℕ)
        → first % 0x1000 ≡ 0
        → e.base ≤ first
        → first < e.base + 0x1000
        → IsPages e first (
            if (e.base + e.limit) % 4096 == 0
            then e.base + e.limit
            else e.base + e.limit - (e.base + e.limit) % 4096)
    from_base first page low high = elim (Bool-cases ((e.base + e.limit) % 4096 == 0)) [
      | inl whole ↦ rw whole (page, ground arith, low, high, omega arith, omega arith)
      | inr other ↦ rw other (page, omega arith, low, high, omega arith, omega arith)
    ]

pub pages_unique :
    (e : MmapEntry) (first last first' last' : ℕ)
    → IsPages e first last
    → IsPages e first' last'
    → (first ≡ first') × (last ≡ last')
pages_unique e first last first' last' p p' = (omega arith, omega arith)

IsUsable-weaken :
    (n : ℕ) (a : Entries) (e : UsableMmapEntry) → IsUsable n a e → IsUsable (suc n) a e
IsUsable-weaken n a e u = record {
  index = u.index;
  within = let h = u.within in omega arith;
  free = u.free;
  base_page = u.base_page;
  limit_page = u.limit_page;
  large = u.large;
  begun = u.begun;
  ended = u.ended;
}

-- An entry that adds nothing, since it is not free or too small.
pub Collects-skip :
    (a : Entries) (n : ℕ) (c : Collected) (minimum count : ℕ)
    → Collects a n c
    → ((first last : ℕ)
        → is_free (a n) ≡ true
        → IsPages (a n) first last
        → ¬ (first + mmap_entry_memory_limit ≤ last))
    → Collects a (suc n) (record c { min_start = minimum; num_usable_mmap_entries = count })
Collects-skip a n c minimum count s small = record {
  usable = λ i h. IsUsable-weaken n a (c.usable_mmap i) (s.usable i h);
  ascending = s.ascending;
  complete = λ k first last h free pages large. elim (ℕ_discrete k n) [
    | yes here ↦ absurd (small first last (rw (← here) free) (rw (← here) pages) large)
    | no other ↦ s.complete k first last (omega arith) free pages large
  ];
}

put_self : (m : Mmap) (i : ℕ) (e : UsableMmapEntry) → put m i e i ≡ e
unfolding put
put_self m i e = ground arith

put_ne : (m : Mmap) (i : ℕ) (e : UsableMmapEntry) (j : ℕ) → j ≢ i → put m i e j ≡ m j
unfolding put
put_ne m i e j h = ground arith

-- An entry that is added.
module _ (a : Entries) (n : ℕ) (c : Collected) (s : Collects a n c)
    (ends : (i : ℕ)
      → i < c.usable_position
      → (c.usable_mmap i).base + (c.usable_mmap i).limit ≤ c.min_start)
    (first last : ℕ) (begun : c.min_start ≤ first) (free : is_free (a n) ≡ true)
    (pages : IsPages (a n) first last) (large : first + mmap_entry_memory_limit ≤ last) where
  abbrev pub added : UsableMmapEntry
  added = record { base = first; limit = last - first }

  abbrev pub after : Collected
  after = record c {
    usable_mmap = put c.usable_mmap c.usable_position added;
    usable_position = c.usable_position + 1;
    min_start = last;
  }

  added_IsUsable : IsUsable (suc n) a added
  added_IsUsable = record {
    index = n;
    within = omega arith;
    free = free;
    base_page = pages.0;
    limit_page = omega arith;
    large = omega arith;
    begun = pages.2;
    ended = omega arith;
  }

  -- A fact about each entry of the new map.
  by_index :
      (P : UsableMmapEntry → Type 0) (i : ℕ)
      → (i ≡ c.usable_position → P added)
      → (i ≢ c.usable_position → P (c.usable_mmap i))
      → P (after.usable_mmap i)
  by_index P i new old = elim (ℕ_discrete i c.usable_position) [
    | yes here ↦ subst P (sym (rw here (put_self c.usable_mmap c.usable_position added))) (new here)
    | no other ↦ subst P (sym (put_ne c.usable_mmap c.usable_position added i other)) (old other)
  ]

  pub after-ends :
      (i : ℕ)
      → i < after.usable_position
      → (after.usable_mmap i).base + (after.usable_mmap i).limit ≤ last
  after-ends i h =
      by_index (λ (e : UsableMmapEntry). e.base + e.limit ≤ last) i (λ _. omega arith)
        (λ other. let old = ends i (omega arith) in omega arith)

  -- The new map has these pages.
  abbrev Listed : (first' last' : ℕ) → Type 0
  Listed first' last' =
      (i : ℕ) × (i < after.usable_position)
      × ((after.usable_mmap i).base ≡ first')
      × ((after.usable_mmap i).limit ≡ last' - first')

  pub after-Collects : Collects a (suc n) after
  after-Collects = record {
    usable = λ i h.
        by_index (IsUsable (suc n) a) i (λ _. added_IsUsable)
          (λ other. IsUsable-weaken n a (c.usable_mmap i) (s.usable i (omega arith)));
    ascending = ascending;
    complete = complete;
  }
    where
      ascending :
          (i j : ℕ)
          → i < j
          → j < after.usable_position
          → (after.usable_mmap i).base + (after.usable_mmap i).limit ≤ (after.usable_mmap j).base
      ascending i j lo hi =
          by_index (λ (e : UsableMmapEntry). e.base + e.limit ≤ (after.usable_mmap j).base) i
            (λ here. absurd (omega arith))
            (λ _.
              by_index
                (λ (e : UsableMmapEntry). (c.usable_mmap i).base + (c.usable_mmap i).limit ≤ e.base)
                j (λ here. let old = ends i (omega arith) in omega arith)
                (λ other. s.ascending i j lo (omega arith)))

      complete :
          (k first' last' : ℕ)
          → k < suc n
          → is_free (a k) ≡ true
          → IsPages (a k) first' last'
          → first' + mmap_entry_memory_limit ≤ last'
          → Listed first' last'
      complete k first' last' h free' pages' large' = elim (ℕ_discrete k n) [
        | yes here ↦
            let (e, e') = pages_unique (a n) first last first' last' pages (rw (← here) pages') in
            (
              c.usable_position,
              omega arith,
              ap (λ (u : UsableMmapEntry). u.base) (put_self c.usable_mmap c.usable_position added)
                  ∙ e,
              ap (λ (u : UsableMmapEntry). u.limit) (put_self c.usable_mmap c.usable_position added)
                  ∙ (omega arith),
            )
        | no other ↦
            let (i, within, e, e') = s.complete k first' last' (omega arith) free' pages' large' in
            let same = put_ne c.usable_mmap c.usable_position added i (λ d. absurd (omega arith)) in
            (
              i,
              omega arith,
              ap (λ (u : UsableMmapEntry). u.base) same ∙ e,
              ap (λ (u : UsableMmapEntry). u.limit) same ∙ e',
            )
      ]
