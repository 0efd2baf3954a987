-- ===== src/Tests/E820.antt =====
-- Tests of the memory map of the third stage, and the properties at inputs that meet their conditions.
use serra.Base.{
  ℕ, zero, suc, ◌+◌, ◌-◌, ◌≤◌, ◌<◌, ◌≡◌, refl, true, false, some, arith, ◌==◌, if◌then◌else◌,
}
use serra.Paging.{u64}
use serra.E820.{
  MmapEntry, Entries, Reply, Collected, put, written, is_free, get_mmap_entry, read_round,
  read_mmap, swap, sift, sort_from, sort_mmap, align_up, cut_down, cut_end, add_usable,
  usable_round, collect_usable, usable_of,
}
use serra.E820.Sort.{Ascends, total, sort_mmap-Ascends}
use serra.E820.Read.{Counted, start, read_mmap-Counted, free_weight}
use serra.E820.Usable.{Orderly, Collects}
use serra.E820.Collect.{usable_of-Collects}
use serra.E820.Wrap.{IsTiny, usable_of-wraps}

abbrev free_memory : ℕ → ℕ → MmapEntry
free_memory base limit = record { base = base; limit = limit; type = 1; acpi = 1 }

abbrev reserved : ℕ → ℕ → MmapEntry
reserved base limit = record { base = base; limit = limit; type = 2; acpi = 1 }

-- The entries of a PC, out of order.
abbrev pc_map : Entries
pc_map i =
    if i == 0
    then free_memory 0x100000 0x7EE0000
    else if i == 1
    then reserved 0x9FC00 0x400
    else if i == 2
    then reserved 0xF0000 0x10000
    else if i == 3
    then free_memory 0 0x9FC00
    else reserved 0xFFFC0000 0x40000

-- A firmware that gives them one after another.
abbrev firmware : ℕ → ℕ → Reply × ℕ
firmware continuation calls = (
  record { carry = false; ebx = if calls == 4 then 0 else calls + 1; entry = some (pc_map calls) },
  calls + 1,
)

read_test :
    ((read_mmap firmware 128 0 (start (λ _. reserved 0 0) 0)).num_mmap_entries ≡ 5)
    × ((read_mmap firmware 128 0 (start (λ _. reserved 0 0) 0)).num_usable_mmap_entries ≡ 2)
unfolding read_mmap read_round get_mmap_entry written put is_free
read_test = (refl, refl)

abbrev pc_usable : Collected
pc_usable = usable_of 5 2 pc_map

-- The low area loses its last page, which is not whole.
usable_test :
    (pc_usable.usable_position ≡ 2)
    × (pc_usable.usable_mmap 0 ≡ record { base = 0; limit = 0x9F000 })
    × (pc_usable.usable_mmap 1 ≡ record { base = 0x100000; limit = 0x7EE0000 })
unfolding usable_of collect_usable usable_round add_usable cut_end align_up cut_down put is_free
    sort_mmap sort_from sift swap
usable_test = (refl, refl, refl)

sort_mmap-Ascends_example :
    Ascends 5 (sort_mmap 5 pc_map)
    × ((w : MmapEntry → ℕ) → total w 5 (sort_mmap 5 pc_map) ≡ total w 5 pc_map)
sort_mmap-Ascends_example = sort_mmap-Ascends 5 pc_map

read_mmap-Counted_example :
    Counted (read_mmap firmware 200 0 (start (λ _. reserved 0 0) 0))
    × (0 < (read_mmap firmware 200 0 (start (λ _. reserved 0 0) 0)).num_mmap_entries)
    × (read_mmap firmware 200 0 (start (λ _. reserved 0 0) 0)
        ≡ read_mmap firmware 128 0 (start (λ _. reserved 0 0) 0))
read_mmap-Counted_example = read_mmap-Counted firmware 200 (λ _. reserved 0 0) 0 (omega arith)

-- Two entries, the free one last, found in the other order.
abbrev two_entries : Entries
two_entries i =
    if i == 0
    then free_memory 0x100000 0x400000
    else if i == 1
    then reserved 0xF0000 0x10000
    else reserved 0xFFFC0000 0

two_entries-Orderly : Orderly 2 (sort_mmap 2 two_entries)
unfolding sort_mmap sort_from sift swap is_free
two_entries-Orderly = record { apart = apart; low = low; wide = wide }
  where
    apart :
        (i j : ℕ)
        → i < j
        → j < 2
        → (sort_mmap 2 two_entries i).base + (sort_mmap 2 two_entries i).limit
          ≤ (sort_mmap 2 two_entries j).base
    apart zero (suc zero) h k = omega arith
    apart zero zero h k = absurd (omega arith)
    apart (suc i) (suc zero) h k = absurd (omega arith)
    apart (suc i) zero h k = absurd (omega arith)
    apart i (suc (suc j)) h k = absurd (omega arith)

    low :
        (i : ℕ)
        → i < 2
        → (sort_mmap 2 two_entries i).base + (sort_mmap 2 two_entries i).limit + 0x1000 ≤ u64
    low zero h = omega arith
    low (suc zero) h = omega arith
    low (suc (suc i)) h = absurd (omega arith)

    wide :
        (i : ℕ)
        → i < 2
        → is_free (sort_mmap 2 two_entries i) ≡ true
        → 0x2000 ≤ (sort_mmap 2 two_entries i).limit
    wide zero h is = omega arith
    wide (suc zero) h is = omega arith
    wide (suc (suc i)) h is = absurd (omega arith)

one_free : 1 ≡ total free_weight 2 two_entries
unfolding total is_free
one_free = refl

usable_of-Collects_example :
    Collects (sort_mmap 2 two_entries) 2 (usable_of 2 1 two_entries)
    × ((usable_of 2 1 two_entries).num_usable_mmap_entries
        ≡ (usable_of 2 1 two_entries).usable_position)
usable_of-Collects_example =
    usable_of-Collects 2 1 two_entries (omega arith) one_free two_entries-Orderly

abbrev tiny_map : Entries
tiny_map i = free_memory 0x9FC00 0x200

tiny_map-IsTiny : IsTiny (tiny_map 0)
unfolding is_free
tiny_map-IsTiny = record {
  free = refl;
  positive = omega arith;
  begun = omega arith;
  ended = omega arith;
  low = omega arith;
}

usable_of-wraps_example :
    ((usable_of 1 1 tiny_map).usable_position ≡ 1)
    × (((usable_of 1 1 tiny_map).usable_mmap 0).limit ≡ u64 - 0x1000)
usable_of-wraps_example = usable_of-wraps tiny_map tiny_map-IsTiny
