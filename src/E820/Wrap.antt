-- ===== src/E820/Wrap.antt =====
-- The size of a usable entry that has no whole page (Boot/Legacy/Stage3/Bootloader.c).
use serra.Base.{
  ℕ, ◌+◌, ◌-◌, ◌*◌, ◌/◌, ◌%◌, ◌≤◌, ◌<◌, ◌≡◌, refl, true, false, ltb, leb, ◌==◌, arith, le→ltb,
}
use serra.Paging.{u64}
use serra.E820.{
  MmapEntry, Entries, Collected, put, is_free, align_up, cut_down, cut_end, add_usable,
  usable_round, collect_usable, nothing, usable_of, sort_mmap, sort_from,
}

-- A free entry between two page boundaries.
pub record IsTiny (e : MmapEntry) : Type 0 where
  pub free : is_free e ≡ true
  pub positive : 0 < e.limit
  pub begun : 0 < e.base % 0x1000
  pub ended : e.base % 0x1000 + e.limit < 0x1000
  pub low : e.base + 0x2000 ≤ u64

tiny_first : (e : MmapEntry) → IsTiny e → align_up e.base ≡ e.base / 0x1000 * 0x1000 + 0x1000
unfolding align_up
tiny_first e tiny =
    let other : (e.base % 4096 == 0) ≡ false = let h = tiny.begun in ground arith in
    rw other (omega (arith, tiny.low, tiny.begun))

tiny_last : (e : MmapEntry) → IsTiny e → cut_down (e.base + e.limit) ≡ e.base / 0x1000 * 0x1000
unfolding cut_down
tiny_last e tiny =
    let page : (e.base + e.limit) % 4096 ≡ e.base % 4096 + e.limit = omega (arith, tiny.ended) in
    let other : (e.base % 4096 + e.limit == 0) ≡ false = let h = tiny.positive in ground arith in
    rw (page, other) (omega arith)

add_wrapped :
    (boundary : ℕ) (c : Collected)
    → c.usable_position ≡ 0
    → boundary + 0x2000 ≤ u64
    → ((add_usable (boundary + 0x1000) boundary c).usable_position ≡ 1)
      × (((add_usable (boundary + 0x1000) boundary c).usable_mmap 0).limit ≡ u64 - 0x1000)
unfolding add_usable put
add_wrapped boundary c first low =
    let size : (boundary + u64 - (boundary + 0x1000)) % u64 ≡ u64 - 0x1000 = omega arith in
    rw (size, first) (refl, refl)

-- The only round of the loop.
tiny_round :
    (a : Entries) (c : Collected)
    → IsTiny (a 0)
    → c.min_start ≡ 0
    → usable_round 1 0 a c
      ≡ add_usable ((a 0).base / 0x1000 * 0x1000 + 0x1000) ((a 0).base / 0x1000 * 0x1000) c
unfolding usable_round cut_end
tiny_round a c tiny least =
    let e : ((a 0).base + (a 0).limit) % u64 ≡ (a 0).base + (a 0).limit =
      omega (arith, tiny.ended, tiny.low) in
    let start : ltb (a 0).base c.min_start ≡ false = le→ltb _ _ (omega arith) in
    let more : leb ((a 0).base + (a 0).limit) c.min_start ≡ false =
      let h = tiny.positive in ground arith in
    rw (e, start, more, tiny.free, tiny_first (a 0) tiny, tiny_last (a 0) tiny)

-- A memory map of one free entry that lies between two page boundaries gives a usable entry of
-- 2^64 - 4096 bytes, as the size of its whole pages wraps around before it is compared with the
-- 128 KiB.
pub usable_of-wraps :
    (a : Entries)
    → IsTiny (a 0)
    → ((usable_of 1 1 a).usable_position ≡ 1)
      × (((usable_of 1 1 a).usable_mmap 0).limit ≡ u64 - 0x1000)
unfolding usable_of collect_usable sort_mmap sort_from
usable_of-wraps a tiny =
    rw (tiny_round a (nothing 1) tiny refl)
      (add_wrapped ((a 0).base / 0x1000 * 0x1000) (nothing 1) refl (omega (arith, tiny.low)))
