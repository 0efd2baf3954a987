-- ===== src/Paging/Room.antt =====
-- The allocation of page tables one after another (AllocateFromMmap, Boot/Legacy/Stage3/Memory/Paging/
-- Paging.c) where one entry has room for all of them.
use mathlib.Core.Path.{subst}
use serra.Base.{
  ℕ, zero, suc, ◌+◌, ◌-◌, ◌*◌, ◌%◌, ◌≤◌, ◌<◌, ◌≡◌, ◌∙◌, inl, inr, true, false, some, ltb, ◌==◌,
  arith, Bool-cases, le→ltb, lt→ltb, ltb→lt, ltb→le,
}
use serra.Paging.{
  Mmap, Cells, u32, u64, page_align, clear, get_end_of_mmap_entry, find_entry, allocate_in,
  allocate_from_mmap,
}

-- From `offset` on, one entry has room for `n` tables and a byte, below 4 GiB, and no later entry begins
-- before their end.
pub record Room (mmap : Mmap) (num offset n : ℕ) : Type 0 where
  pub entry : ℕ
  pub within : entry < num
  pub aligned : offset % 4096 ≡ 0
  pub positive : 0 < offset
  pub begun : (mmap entry).base ≤ offset
  pub fits : offset + 4096 * n < (mmap entry).base + (mmap entry).limit
  pub low : (mmap entry).base + (mmap entry).limit ≤ u32
  pub later : (k : ℕ) → entry < k → k < num → offset + 4096 * n < (mmap k).base

pub Room-weaken :
    (mmap : Mmap) (num offset n k : ℕ) → Room mmap num offset (k + n) → Room mmap num offset n
Room-weaken mmap num offset n k room = record {
  entry = room.entry;
  within = room.within;
  aligned = room.aligned;
  positive = room.positive;
  begun = room.begun;
  fits = omega (arith, room.fits);
  low = room.low;
  later = λ j lo hi. omega (arith, room.later j lo hi);
}

pub Room-next :
    (mmap : Mmap) (num offset n : ℕ)
    → Room mmap num offset (suc n)
    → Room mmap num (offset + 4096) n
Room-next mmap num offset n room = record {
  entry = room.entry;
  within = room.within;
  aligned = omega (arith, room.aligned);
  positive = omega arith;
  begun = omega (arith, room.begun);
  fits = omega (arith, room.fits);
  low = room.low;
  later = λ j lo hi. omega (arith, room.later j lo hi);
}

-- The search from a later entry comes down to the one that holds the offset.
find_entry_here :
    (mmap : Mmap) (start e : ℕ) → (mmap e).base ≤ start → find_entry mmap start e ≡ (start, e)
unfolding find_entry
find_entry_here mmap start zero begun = rw (le→ltb start _ begun)
find_entry_here mmap start (suc e) begun = rw (le→ltb start _ begun)

find_entry_below :
    (mmap : Mmap) (start last : ℕ)
    → start < (mmap (suc last)).base
    → find_entry mmap start (suc last) ≡ find_entry mmap start last
unfolding find_entry
find_entry_below mmap start last h = rw (lt→ltb start _ h)

find_entry_holds :
    (mmap : Mmap) (start e last : ℕ)
    → e ≤ last
    → (mmap e).base ≤ start
    → ((k : ℕ) → e < k → k ≤ last → start < (mmap k).base)
    → find_entry mmap start last ≡ (start, e)
find_entry_holds mmap start e zero h begun later =
    let same : e ≡ 0 = omega arith in
    rw same (find_entry_here mmap start 0 (subst (λ (k : ℕ). (mmap k).base ≤ start) same begun))
find_entry_holds mmap start e (suc last) h begun later = elim (Bool-cases (ltb last e)) [
  | inl here ↦
      let same : e ≡ suc last = omega (arith, ltb→lt _ _ here) in
      rw same (
        find_entry_here mmap start (suc last) (subst (λ (k : ℕ). (mmap k).base ≤ start) same begun))
  | inr below ↦
      let h' : e ≤ last = ltb→le _ _ below in
      find_entry_below mmap start last (later (suc last) (omega arith) (omega arith))
      ∙ find_entry_holds mmap start e last h' begun (λ k lo hi. later k lo (omega arith))
]

-- The first round of the second loop takes the table.
table_in :
    (mmap : Mmap) (num offset left n : ℕ) (m : Cells) (room : Room mmap num offset (suc n))
    → allocate_in (suc left) mmap num room.entry offset 4096 true m
      ≡ some (offset + 4096, clear offset 4096 m)
unfolding allocate_in page_align
table_in mmap num offset left n m room =
    let small : (offset + 4096) % u64 ≡ offset + 4096 = omega (arith, room.fits, room.low) in
    let aligned : (offset % 0x1000 == 0) ≡ true = rw (room.aligned) in
    let low : ltb u32 (offset + 4096) ≡ false =
      le→ltb u32 (offset + 4096) (omega (arith, room.fits, room.low)) in
    let end : get_end_of_mmap_entry (mmap room.entry)
        ≡ (mmap room.entry).base + (mmap room.entry).limit =
      omega (arith, room.low) in
    let fits : ltb (offset + 4096) ((mmap room.entry).base + (mmap room.entry).limit) ≡ true =
      lt→ltb _ _ (omega (arith, room.fits)) in
    let address : offset % u32 ≡ offset = omega (arith, room.fits, room.low) in
    rw (small, aligned, low, small, end, fits, address)

-- A table is allocated at the offset, cleared.
pub allocate_table :
    (mmap : Mmap) (num offset n : ℕ) (m : Cells)
    → num < 256
    → Room mmap num offset (suc n)
    → allocate_from_mmap mmap num offset 4096 true m ≡ some (offset + 4096, clear offset 4096 m)
unfolding allocate_from_mmap
allocate_table mmap num offset n m byte room =
    let last : (num + 255) % 256 ≡ num - 1 = omega (arith, room.within) in
    let found =
      find_entry_holds mmap offset room.entry (num - 1) (omega (arith, room.within)) room.begun
        (λ k lo hi. omega (arith, room.later k lo (omega (arith, room.within)))) in
    let some_left : num - room.entry ≡ suc (num - room.entry - 1) = omega (arith, room.within) in
    rw (last, found, some_left) (table_in mmap num offset (num - room.entry - 1) n m room)
