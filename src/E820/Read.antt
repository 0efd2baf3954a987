-- ===== src/E820/Read.antt =====
-- The loop that reads the memory map from the firmware (Boot/Legacy/Stage3/Bootloader.c).
use serra.Base.{
  ℕ, zero, suc, ◌+◌, ◌%◌, ◌≤◌, ◌<◌, ◌≡◌, refl, sym, ap, ◌∙◌, inl, inr, Option, none, some, leb,
  ◌==◌, arith, Bool-cases, if_cases, leb→gt, if◌then◌else◌,
}
use serra.E820.{
  MmapEntry, Entries, Reply, Found, put, written, is_free, max_mmap_entries, get_mmap_entry,
  read_round, read_mmap,
}
use serra.E820.Sort.{total, total_agree}

-- 1 for a free entry.
abbrev pub free_weight : MmapEntry → ℕ
free_weight e = if is_free e then 1 else 0

pub total-le : (n : ℕ) (a : Entries) → total free_weight n a ≤ n
unfolding total
total-le zero a = omega arith
total-le (suc n) a =
    if_cases (λ (k : ℕ). total free_weight n a + k ≤ suc n) (is_free (a n))
      (λ _. omega (arith, total-le n a)) (λ _. omega (arith, total-le n a))

-- The counts of the first loop: the free entries among those that were read.
abbrev pub Counted : {W : Type 0} → Found W → Type 0
Counted f =
    (f.num_mmap_entries ≤ max_mmap_entries)
    × (f.num_usable_mmap_entries ≡ total free_weight f.num_mmap_entries f.mmap)

written_below : (o : Option MmapEntry) (n : ℕ) (a : Entries) (i : ℕ) → i < n → written o n a i ≡ a i
unfolding written put
written_below none n a i h = refl
written_below (some e) n a i h = ground arith

-- The variables before the first round; the buffer holds what was on the stack.
abbrev pub start : {W : Type 0} → Entries → W → Found W
start stack w = record {
  mmap = stack;
  num_mmap_entries = 0;
  num_usable_mmap_entries = 0;
  world = w;
}

start_count : (a : Entries) → 0 ≡ total free_weight 0 a
unfolding total
start_count a = refl

-- One more entry, whatever stands in the buffer.
count_one :
    (n count : ℕ) (a a' : Entries)
    → n < max_mmap_entries
    → ((i : ℕ) → i < n → a' i ≡ a i)
    → count ≡ total free_weight n a
    → (if is_free (a' n) then (count + 1) % 256 else count) ≡ total free_weight (suc n) a'
unfolding total
count_one n count a a' low same counted =
    let before = total_agree free_weight n a' a same in
    let small = total-le n a in
    elim (Bool-cases (is_free (a' n))) [
      | inl free ↦ rw free (omega arith)
      | inr other ↦ rw other (omega arith)
    ]

module _ {W : Type 0} (firmware : ℕ → W → Reply × W) where
  read_round-Counted :
      (continuation : ℕ) (f : Found W)
      → f.num_mmap_entries < max_mmap_entries
      → Counted f
      → Counted (read_round firmware continuation f).1
        × ((read_round firmware continuation f).1.num_mmap_entries ≡ suc f.num_mmap_entries)
  unfolding read_round get_mmap_entry
  read_round-Counted continuation f low counted =
      let next : (f.num_mmap_entries + 1) % 256 ≡ suc f.num_mmap_entries = omega arith in
      let a' = written (firmware continuation f.world).0.entry f.num_mmap_entries f.mmap in
      let count =
        count_one f.num_mmap_entries f.num_usable_mmap_entries f.mmap a' low
          (λ i h.
            written_below (firmware continuation f.world).0.entry f.num_mmap_entries f.mmap i h)
          counted.1 in
      ((omega arith, count ∙ ap (λ (k : ℕ). total free_weight k a') (sym next)), next)

  -- However many rounds there are, the loop reads one entry at least and 128 at most, and counts the free
  -- ones among them.
  read_mmap-counts :
      (left continuation : ℕ) (f : Found W)
      → 0 < left + f.num_mmap_entries
      → f.num_mmap_entries < max_mmap_entries
      → Counted f
      → Counted (read_mmap firmware left continuation f)
        × (0 < (read_mmap firmware left continuation f).num_mmap_entries)
  unfolding read_mmap
  read_mmap-counts zero continuation f any low counted = (counted, omega arith)
  read_mmap-counts (suc left) continuation f any low counted =
      let (counted', next) = read_round-Counted continuation f low counted in
      let f' = (read_round firmware continuation f).1 in
      if_cases (λ (r : Found W). Counted r × (0 < r.num_mmap_entries))
        (leb max_mmap_entries f'.num_mmap_entries) (λ _. (counted', omega arith))
        (λ more.
          if_cases (λ (r : Found W). Counted r × (0 < r.num_mmap_entries))
            ((read_round firmware continuation f).0 == 0) (λ _. (counted', omega arith))
            (λ _. read_mmap-counts left _ f' (omega arith) (leb→gt _ _ more) counted'))

  -- The loop ends before its rounds do.
  read_mmap_ends :
      (left more continuation : ℕ) (f : Found W)
      → 0 < left
      → left ≤ more
      → left + f.num_mmap_entries ≡ max_mmap_entries
      → Counted f
      → read_mmap firmware more continuation f ≡ read_mmap firmware left continuation f
  unfolding read_mmap
  read_mmap_ends zero more continuation f any enough total_left counted = absurd (omega arith)
  read_mmap_ends (suc left) zero continuation f any enough total_left counted = absurd (omega arith)
  read_mmap_ends (suc left) (suc more) continuation f any enough total_left counted =
      let (counted', next) = read_round-Counted continuation f (omega arith) counted in
      let (c', f') = read_round firmware continuation f in
      elim (Bool-cases (leb max_mmap_entries f'.num_mmap_entries)) [
        | inl full ↦ rw full
        | inr room ↦ rw (
          room,
          read_mmap_ends left more c' f' (let h = leb→gt _ _ room in omega arith) (omega arith)
              (omega arith) counted',
        )
      ]

  -- Whatever the firmware answers, the loop that reads the memory map, given 128 rounds or more,
  -- ends by itself within the first 128, has read 1 to 128 entries then, and has counted the free
  -- ones among them.
  pub read_mmap-Counted :
      (rounds : ℕ) (stack : Entries) (w : W)
      → max_mmap_entries ≤ rounds
      → Counted (read_mmap firmware rounds 0 (start stack w))
        × (0 < (read_mmap firmware rounds 0 (start stack w)).num_mmap_entries)
        × (read_mmap firmware rounds 0 (start stack w)
            ≡ read_mmap firmware max_mmap_entries 0 (start stack w))
  read_mmap-Counted rounds stack w enough =
      let first : Counted (start stack w) = (omega arith, start_count stack) in
      let all = read_mmap-counts rounds 0 (start stack w) (omega arith) (omega arith) first in
      let ends =
        read_mmap_ends max_mmap_entries rounds 0 (start stack w) (omega arith) enough (omega arith)
          first in
      (all.0, all.1, ends)
