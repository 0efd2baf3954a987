-- ===== src/E820/Collect.antt =====
-- The rounds of the loop that makes the usable memory map (Boot/Legacy/Stage3/Bootloader.c).
use mathlib.Core.Path.{subst}
use serra.Base.{
  ℕ, zero, suc, ◌+◌, ◌-◌, ◌%◌, ◌≤◌, ◌<◌, ◌≡◌, refl, sym, ◌∙◌, inl, inr, true, false, ltb, leb, ◌==◌,
  ==_iff, arith, Bool-cases, if_cases, ltb→lt, ltb→le, leb→le, leb→gt, le→ltb,
}
use serra.Paging.{u64}
use serra.E820.{
  Entries, Collected, put, is_free, align_up, cut_down, cut_end, add_usable, usable_round,
  collect_usable, nothing, usable_of, sort_mmap, mmap_entry_memory_limit,
}
use serra.E820.Sort.{total, sort_mmap-Ascends}
use serra.E820.Read.{free_weight, total-le}
use serra.E820.Usable.{
  Orderly, IsPages, Collects, boundaries_of, pages_unique, Collects-skip, after-ends,
  after-Collects,
}

-- The loop's invariant: `free` is the number of free entries of the whole map.
record Inv (num free : ℕ) (a : Entries) (before : ℕ) (c : Collected) : Type 0 where
  collects : Collects a before c
  minimum : (k : ℕ) → before ≤ k → k < num → c.min_start ≤ (a k).base
  ends :
      (i : ℕ)
      → i < c.usable_position
      → (c.usable_mmap i).base + (c.usable_mmap i).limit ≤ c.min_start
  added : c.usable_position ≤ total free_weight before a
  counted : c.num_usable_mmap_entries + total free_weight before a ≡ free + c.usable_position

total_mono : (n num : ℕ) (a : Entries) → n ≤ num → total free_weight n a ≤ total free_weight num a
unfolding total
total_mono zero num a h = omega arith
total_mono (suc n) zero a h = absurd (omega arith)
total_mono (suc n) (suc num) a h = elim (Bool-cases (n == num)) [
  | inl here ↦ let e = (==_iff n num).0 here in rw e (omega arith)
  | inr other ↦ omega (arith, total_mono (suc n) num a (ground arith))
]

-- No entry is cut, since the next one does not begin before its end.
cut_end_whole :
    (num n : ℕ) (a : Entries) (end : ℕ)
    → (n + 1 < num → end ≤ (a (n + 1)).base)
    → cut_end num n a end ≡ end
unfolding cut_end
cut_end_whole num n a end next = elim (Bool-cases (ltb (n + 1) num)) [
  | inl more ↦ rw (more, le→ltb _ _ (next (ltb→lt _ _ more)))
  | inr last ↦ rw last
]

module _ (num free : ℕ) (a : Entries) (orderly : Orderly num a)
    (counted : free ≡ total free_weight num a) (few : num ≤ 128) (n : ℕ) (inside : n < num)
    (c : Collected) (inv : Inv num free a n c) where
  -- The count after a free entry that is not added.
  one_less :
      is_free (a n) ≡ true
      → (c.num_usable_mmap_entries + 255) % 256 + total free_weight (suc n) a
        ≡ free + c.usable_position
  unfolding total
  one_less is =
      let most = total_mono (suc n) num a (omega arith) in
      let few_free = total-le num a in
      let weight : total free_weight (suc n) a ≡ total free_weight n a + 1 = rw is in
      let known = inv.counted in let fewer = inv.added in omega (arith, weight)

  same_count :
      is_free (a n) ≡ false
      → c.num_usable_mmap_entries + total free_weight (suc n) a ≡ free + c.usable_position
  unfolding total
  same_count not = rw not (omega (arith, inv.counted))

  -- An entry that is not free moves the minimum to its end.
  still_fewer : c.usable_position ≤ total free_weight (suc n) a
  unfolding total
  still_fewer = omega (arith, inv.added)

  not_free :
      (minimum : ℕ)
      → is_free (a n) ≡ false
      → c.min_start ≤ minimum
      → ((k : ℕ) → suc n ≤ k → k < num → minimum ≤ (a k).base)
      → Inv num free a (suc n) (record c { min_start = minimum })
  not_free minimum not above next = record {
    collects =
        Collects-skip a n c minimum c.num_usable_mmap_entries inv.collects (λ first last is. cc);
    minimum = next;
    ends = λ i h. let old = inv.ends i h in omega arith;
    added = still_fewer;
    counted = same_count not;
  }

  one_more :
      is_free (a n) ≡ true
      → c.usable_position ≤ total free_weight n a
      → c.usable_position + 1 ≤ total free_weight (suc n) a
  unfolding total
  one_more is fewer = rw is (omega arith)

  one_counted :
      is_free (a n) ≡ true
      → c.num_usable_mmap_entries + total free_weight n a ≡ free + c.usable_position
      → c.num_usable_mmap_entries + total free_weight (suc n) a ≡ free + (c.usable_position + 1)
  unfolding total
  one_counted is known = rw is (omega arith)

  too_small :
      is_free (a n) ≡ true
      → ((first last : ℕ)
          → is_free (a n) ≡ true
          → IsPages (a n) first last
          → ¬ (first + mmap_entry_memory_limit ≤ last))
      → Inv num free a
          (suc n)
          (record c { num_usable_mmap_entries = (c.num_usable_mmap_entries + 255) % 256 })
  too_small is small = record {
    collects =
        Collects-skip a n c c.min_start ((c.num_usable_mmap_entries + 255) % 256) inv.collects
          small;
    minimum = λ k h. inv.minimum k (omega arith);
    ends = inv.ends;
    added = still_fewer;
    counted = one_less is;
  }

  enough :
      (first last : ℕ)
      → is_free (a n) ≡ true
      → IsPages (a n) first last
      → first + mmap_entry_memory_limit ≤ last
      → Inv num free a (suc n) (record c {
        usable_mmap =
            put c.usable_mmap c.usable_position (record { base = first; limit = last - first });
        usable_position = c.usable_position + 1;
        min_start = last;
      })
  enough first last is pages large =
      let begun : c.min_start ≤ first = let h = inv.minimum n (omega arith) inside in omega arith in
      record {
        collects = after-Collects a n c inv.collects inv.ends first last begun is pages large;
        minimum = λ k h within. let next = orderly.apart n k h within in omega arith;
        ends = after-ends a n c inv.collects inv.ends first last begun is pages large;
        added = one_more is inv.added;
        counted = one_counted is inv.counted;
      }

  -- A free entry, by its whole pages.
  free_entry :
      (first last : ℕ)
      → is_free (a n) ≡ true
      → IsPages (a n) first last
      → Inv num free a (suc n) (add_usable first last c)
  unfolding add_usable
  free_entry first last is pages =
      let wide = orderly.wide n inside is in
      let low = orderly.low n inside in
      let size : (last + u64 - first) % u64 ≡ last - first = omega arith in
      rw size (
        if_cases (Inv num free a (suc n)) (ltb (last - first) mmap_entry_memory_limit)
          (λ small. too_small is (λ first' last' _ pages' large.
            let (e, e') = pages_unique (a n) first last first' last' pages pages' in
            let h = ltb→lt _ _ small in absurd (omega arith)))
          (λ large. enough first last is pages (let h = ltb→le _ _ large in omega arith)))

  -- A round of the loop.
  round-Inv : Inv num free a (suc n) (usable_round num n a c)
  unfolding usable_round
  round-Inv =
      let low = orderly.low n inside in
      let least = inv.minimum n (omega arith) inside in
      let whole : ((a n).base + (a n).limit) % u64 ≡ (a n).base + (a n).limit = omega arith in
      let start : ltb (a n).base c.min_start ≡ false = le→ltb _ _ least in
      let cut =
        cut_end_whole num n a ((a n).base + (a n).limit)
          (λ h. orderly.apart n (n + 1) (omega arith) h) in
      rw (whole, start, cut)
        (if_cases (Inv num free a (suc n)) (leb ((a n).base + (a n).limit) c.min_start)
          (λ ended.
            if_cases (Inv num free a (suc n)) (is_free (a n))
              (λ is.
                let wide = orderly.wide n inside is in
                let h = leb→le _ _ ended in absurd (omega arith))
              (λ not. not_free c.min_start not (omega arith) (λ k h. inv.minimum k (omega arith))))
          (λ more.
            if_cases (Inv num free a (suc n)) (is_free (a n))
              (λ is.
                free_entry (align_up (a n).base) (cut_down ((a n).base + (a n).limit)) is
                  (boundaries_of (a n) low))
              (λ not.
                not_free ((a n).base + (a n).limit) not (let h = leb→gt _ _ more in omega arith)
                  (λ k h within. orderly.apart n k h within))))

collect_usable-Inv :
    (num free : ℕ) (a : Entries)
    → Orderly num a
    → free ≡ total free_weight num a
    → num ≤ 128
    → (left n : ℕ) (c : Collected) → left + n ≡ num
    → Inv num free a n c
    → Inv num free a num (collect_usable left num n a c)
unfolding collect_usable
collect_usable-Inv num free a orderly counted few zero n c all inv =
    let e : n ≡ num = omega arith in subst (λ (k : ℕ). Inv num free a k c) e inv
collect_usable-Inv num free a orderly counted few (suc left) n c all inv =
    let next : suc n ≡ n + 1 = omega arith in
    collect_usable-Inv num free a orderly counted few left (n + 1) (usable_round num n a c)
      (omega arith)
      (subst (λ (k : ℕ). Inv num free a k (usable_round num n a c)) next
        (round-Inv num free a orderly counted few n (omega arith) c inv))

nothing-Inv : (num num_free : ℕ) (a : Entries) → Inv num num_free a 0 (nothing num_free)
unfolding total
nothing-Inv num num_free a = record {
  collects = record {
    usable = λ i h. absurd (omega arith);
    ascending = λ i j lo hi. absurd (omega arith);
    complete = λ k first last h. absurd (omega arith);
  };
  minimum = λ k _ _. omega arith;
  ends = λ i h. absurd (omega arith);
  added = omega arith;
  counted = refl;
}

-- For at most 128 entries that do not overlap once sorted, stay a page below 2^64, and of which
-- the free ones have 8 KiB at least, the usable map has ascending, disjoint entries of whole
-- pages and 128 KiB or more, each inside a free entry; every free entry with that many whole
-- pages is listed by them; and the count that is kept is the number of entries listed.
pub usable_of-Collects :
    (num num_free : ℕ) (a : Entries)
    → num ≤ 128
    → num_free ≡ total free_weight num a
    → Orderly num (sort_mmap num a)
    → Collects (sort_mmap num a) num (usable_of num num_free a)
      × ((usable_of num num_free a).num_usable_mmap_entries
          ≡ (usable_of num num_free a).usable_position)
unfolding usable_of
usable_of-Collects num num_free a few counted orderly =
    let sorted : num_free ≡ total free_weight num (sort_mmap num a) =
      counted ∙ sym ((sort_mmap-Ascends num a).1 free_weight) in
    let all =
      collect_usable-Inv num num_free (sort_mmap num a) orderly sorted few num 0 (nothing num_free)
        (omega arith) (nothing-Inv num num_free (sort_mmap num a)) in
    (all.collects, omega (arith, all.counted, sorted))
