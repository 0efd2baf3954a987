-- ===== src/Paging/Allocate.antt =====
-- AllocateFromMmap (Boot/Legacy/Stage3/Memory/Paging/Paging.c): where its blocks stand, and when it finds
-- one.
use mathlib.Core.Path.{subst}
use serra.Base.{
  ℕ, zero, suc, ◌+◌, ◌-◌, ◌*◌, ◌%◌, ◌≤◌, ◌<◌, ◌≡◌, refl, ◌⊎◌, inl, inr, Bool, false, Option, none,
  some, ltb, leb, ◌==◌, arith, Bool-cases, if_cases, ltb→lt, ltb→le, leb→le, leb→gt, from_index,
  if◌then◌else◌,
}
use serra.Paging.{
  UsableMmapEntry, Mmap, Cells, u32, u64, page_align, clear, get_end_of_mmap_entry, find_entry,
  allocate_in, allocate_from_mmap,
}

-- The entries, and an address, leave room for the sums that the code makes of them.
abbrev pub Bounded : Mmap → ℕ → Type 0
Bounded mmap num = (e : ℕ) → e < num → (mmap e).base + (mmap e).limit + 2 * u32 ≤ u64

-- The first multiple of 4096 from an address on.
abbrev pub Ceiling : (a up : ℕ) → Type 0
Ceiling a up = (up % 0x1000 ≡ 0) × (a ≤ up) × (up < a + 0x1000)

page_align-Ceiling : (a : ℕ) → a + 0x1000 ≤ u64 → Ceiling a (page_align a)
unfolding page_align
page_align-Ceiling a h = elim (Bool-cases (a % 0x1000 == 0)) [
  | inl aligned ↦ rw aligned (ground arith)
  | inr other ↦ rw other (ground arith)
]

-- An entry in which no block of `size` bytes on a page boundary ends before the last byte does.
abbrev pub Full : UsableMmapEntry → ℕ → Type 0
Full e size = (up : ℕ) → Ceiling e.base up → e.base + e.limit ≤ up + size

-- The entry begins after `start`, and so do those that follow.
abbrev pub After : Mmap → (num start e : ℕ) → Type 0
After mmap num start e = (k : ℕ) → e ≤ k → k < num → start < (mmap k).base

-- What the allocator may come to. It panics only where `size` bytes from the start, or from the base of an
-- entry behind it, would end past 4 GiB. A block is inside one entry, on a page boundary and not before
-- `start`. The address 0 is given only if no entry that begins after `start` has more room than that.
pub data Allocated (mmap : Mmap) (num start size : ℕ) (clears : Bool) (m : Cells)
    : Option (ℕ × Cells) → Type 0 where
  panicked :
      (e c : ℕ)
      → e < num
      → start ≤ c
      → (mmap e).base ≤ c
      → (c ≡ start) ⊎ (c ≡ (mmap e).base)
      → u32 < c + size
      → Allocated mmap num start size clears m none
  refused :
      ((e : ℕ) → e < num → After mmap num start e → Full (mmap e) size)
      → Allocated mmap num start size clears m (some (0, m))
  block :
      (e a : ℕ)
      → e < num
      → a % 0x1000 ≡ 0
      → start ≤ a
      → (mmap e).base ≤ a
      → a + size < (mmap e).base + (mmap e).limit
      → Allocated mmap num start size clears m
          (some (a + size, if clears then clear (a % u32) size m else m))

-- Where the second loop begins a round, with the address `c`.
record Round (mmap : Mmap) (num start size e c : ℕ) : Type 0 where
  within : e < num
  begun : (mmap e).base ≤ c
  kept : start ≤ c
  either : (c ≡ start) ⊎ (c ≡ (mmap e).base)
  later : (k : ℕ) → e < k → k < num → start < (mmap k).base
  skipped : (k : ℕ) → k < e → After mmap num start k → Full (mmap k) size

find_entry-Round :
    (mmap : Mmap) (num start size e : ℕ)
    → e < num
    → ((k : ℕ) → e < k → k < num → start < (mmap k).base)
    → Round mmap num start size (find_entry mmap start e).1 (find_entry mmap start e).0
unfolding find_entry
find_entry-Round mmap num start size zero h above =
    if_cases (λ (r : ℕ × ℕ). Round mmap num start size r.1 r.0) (ltb start (mmap 0).base)
      (λ below. record {
        within = h;
        begun = omega arith;
        kept = omega (arith, ltb→lt _ _ below);
        either = inr refl;
        later = above;
        skipped = λ k none _. absurd (omega arith);
      })
      (λ reached. record {
        within = h;
        begun = ltb→le _ _ reached;
        kept = omega arith;
        either = inl refl;
        later = above;
        skipped = λ k none _. absurd (omega arith);
      })
find_entry-Round mmap num start size (suc e) h above =
    if_cases (λ (r : ℕ × ℕ). Round mmap num start size r.1 r.0) (ltb start (mmap (suc e)).base)
      (λ below. find_entry-Round mmap num start size e (omega arith) λ k low high.
        from_index (λ (j : ℕ). start < (mmap j).base) (suc e) k (omega arith) (ltb→lt _ _ below)
          (λ more. above k (omega arith) high))
      (λ reached. record {
        within = h;
        begun = ltb→le _ _ reached;
        kept = omega arith;
        either = inl refl;
        later = above;
        skipped = λ k low after.
            absurd (omega (arith, after (suc e) (omega arith) h, ltb→le _ _ reached));
      })

-- The address of a round is far from the end of the address space.
Round-low :
    (mmap : Mmap) (num start size e c : ℕ)
    → Round mmap num start size e c
    → Bounded mmap num
    → start + 2 * u32 ≤ u64
    → c + 2 * u32 ≤ u64
Round-low mmap num start size e c r bounded low = elim (r.either) [
  | inl same ↦ omega (arith, same)
  | inr base ↦ omega (arith, base, bounded e r.within)
]

-- At the base of an entry, a block that does not fit shows that the entry is full.
no_room_at_base :
    (b : UsableMmapEntry) (size c : ℕ)
    → b.base + b.limit + 2 * u32 ≤ u64
    → c ≡ b.base
    → size < u32
    → ltb ((page_align c + size) % u64) (get_end_of_mmap_entry b) ≡ false
    → Full b size
no_room_at_base b size c bounded at_base small failed up ceiling =
    let aligned = page_align-Ceiling c (omega (arith, at_base)) in
    omega (arith, aligned, ceiling, at_base, ltb→le _ _ failed)

-- A round that finds no room leaves the entry full, if it begins after `start`.
no_room_here :
    (mmap : Mmap) (num start size e c : ℕ)
    → Round mmap num start size e c
    → Bounded mmap num
    → start + 2 * u32 ≤ u64
    → size < u32
    → ltb ((page_align c + size) % u64) (get_end_of_mmap_entry (mmap e)) ≡ false
    → (k : ℕ) → k < e + 1
    → After mmap num start k
    → Full (mmap k) size
no_room_here mmap num start size e c r bounded low small failed k h after =
    elim (Bool-cases (ltb k e)) [
      | inl before ↦ r.skipped k (ltb→lt _ _ before) after
      | inr here ↦
          let same : e ≡ k = omega (arith, ltb→le _ _ here) in
          subst (λ (j : ℕ). Full (mmap j) size) same
            (no_room_at_base (mmap e) size c (bounded e r.within)
              (at_base (after e (omega arith) r.within)) small failed)
    ]
  where
    at_base : start < (mmap e).base → c ≡ (mmap e).base
    at_base later = elim (r.either) [
      | inl same ↦ absurd (omega (arith, same, r.begun))
      | inr base ↦ base
    ]

allocate_in-Allocated :
    (mmap : Mmap) (num start size : ℕ) (clears : Bool) (m : Cells) (left e c : ℕ)
    → Bounded mmap num
    → start + 2 * u32 ≤ u64
    → size < u32
    → left + e ≡ num
    → Round mmap num start size e c
    → Allocated mmap num start size clears m (allocate_in left mmap num e c size clears m)
unfolding allocate_in
allocate_in-Allocated mmap num start size clears m zero e c bounded low small total r =
    absurd (omega (arith, r.within))
allocate_in-Allocated mmap num start size clears m (suc left) e c bounded low small total r =
    if_cases (Allocated mmap num start size clears m) (ltb u32 ((c + size) % u64))
      (λ past.
        let whole : (c + size) % u64 ≡ c + size =
          omega (arith, Round-low mmap num start size e c r bounded low) in
        Allocated.panicked e c r.within r.kept r.begun r.either
          (omega (arith, whole, ltb→lt _ _ past)))
      λ _.
        if_cases (Allocated mmap num start size clears m)
          (ltb ((page_align c + size) % u64) (get_end_of_mmap_entry (mmap e)))
          (λ room.
            let aligned =
              page_align-Ceiling c
                (omega (arith, Round-low mmap num start size e c r bounded low)) in
            let whole : (page_align c + size) % u64 ≡ page_align c + size =
              omega (arith, Round-low mmap num start size e c r bounded low) in
            rw whole (
              Allocated.block e (page_align c) r.within aligned.0 (omega (arith, r.kept))
                (omega (arith, r.begun))
                (omega (arith, bounded e r.within, whole, ltb→lt _ _ room))))
          λ full.
            if_cases (Allocated mmap num start size clears m) (leb num (e + 1))
              (λ last. Allocated.refused (λ k inside after.
                no_room_here mmap num start size e c r bounded low small full k
                  (omega (arith, leb→le _ _ last)) after))
              (λ more.
                allocate_in-Allocated mmap num start size clears m left (e + 1) (mmap (e + 1)).base
                  bounded low small (omega arith)
                  (record {
                    within = omega (arith, leb→gt _ _ more);
                    begun = omega arith;
                    kept =
                        omega
                          (arith, r.later (e + 1) (omega arith) (omega (arith, leb→gt _ _ more)));
                    either = inr refl;
                    later = λ k lo hi. r.later k (omega arith) hi;
                    skipped = no_room_here mmap num start size e c r bounded low small full;
                  }))

-- With 1 to 255 entries and a start that leave room for sums below 2^64 and a size below 2^32,
-- AllocateFromMmap panics, which it does only where the start, or a base of an entry that is not
-- before it, and the size make more than 4 GiB; or gives the end of a block that begins on a
-- page boundary, not before the start, and ends before the end of the entry it begins in,
-- cleared if that was asked for; or gives 0 and leaves the memory, where in no entry from which
-- on all begin after the start a block of the size on a page boundary ends before the end of the
-- entry, so that one with exactly enough room counts as full.
pub allocate_from_mmap-Allocated :
    (mmap : Mmap) (num start size : ℕ) (clears : Bool) (m : Cells)
    → 0 < num
    → num < 256
    → Bounded mmap num
    → start + 2 * u32 ≤ u64
    → size < u32
    → Allocated mmap num start size clears m (allocate_from_mmap mmap num start size clears m)
unfolding allocate_from_mmap
allocate_from_mmap-Allocated mmap num start size clears m some_entry byte bounded low small =
    let last : (num + 255) % 256 ≡ num - 1 = omega arith in
    rw last (
      let r =
        find_entry-Round mmap num start size (num - 1) (omega arith)
          (λ k lo hi. absurd (omega arith)) in
      allocate_in-Allocated mmap num start size clears m (num - (find_entry mmap start (num - 1)).1)
        _ _ bounded low small (omega (arith, r.within)) r)
