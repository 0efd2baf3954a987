-- ===== src/Tests/Mm.antt =====
-- Runs of the memory manager.
use serra.Base.{
  ℕ, ◌+◌, ◌-◌, ◌^◌, ◌<◌, ◌≤◌, ◌≡◌, refl, true, [], ◌∷◌, some, ◌==◌, if◌then◌else◌, arith,
}
use mathlib.Core.Path.{subst}
use serra.Mm.State.{cleared, Entry, Mm}
use serra.Mm.Level.{level_of, IsLevel, level_of-IsLevel}
use serra.Mm.Block.Stack.{Heads}
use serra.Mm.Init.{push_space}
use serra.Mm.Init.Powers.{block_head, push_space-heads}
use serra.Mm.Allocator.{no_entries, allocate}
use serra.Mm.Allocator.Divide.{allocate-divides, allocate-exhausted}

-- One entry of 64 KiB at 10000h, whose reserved space is one page, with one free block of level 14.
abbrev region : Entry
region = record { base = 0x10000; limit = 0x10000 }

abbrev pool : Mm
pool = record {
  is_enabled = true;
  kernel_mmap = region ∷ [];
  heads = λ k. if k == 14 then 0x10000 else 0;
  lowest = 12;
  highest = 63;
  heap = λ a. if a == 0x10000 then record cleared { pointer = 0x11000 } else cleared;
}

pool-Heads : Heads 14 0x11000 pool
pool-Heads = record { some_node = λ e. omega (arith, e); stands_for = refl }

IsLevel-13 : IsLevel 12 5000 13
IsLevel-13 = record {
  above = omega arith;
  holds = omega arith;
  least = λ k low high. let e : 12 ≡ k = omega arith in subst (λ j. 2 ^ j < 5000) e (omega arith);
}

pool_free : (k : ℕ) → 13 ≤ k → k < 14 → pool.heads k ≡ 0
pool_free k low high = ground arith

allocate-divides_example :
    (t : Mm) × (allocate (some 5000) pool ≡ some (0x11000 + 2 ^ 14 - 2 ^ 13, t))
unfolding no_entries
allocate-divides_example =
    allocate-divides 5000 13 14 0x11000 pool refl (λ e. omega (arith, e)) (omega arith)
      (omega arith) IsLevel-13 (omega arith) (omega arith) pool_free pool-Heads
      (λ e. omega (arith, e))

IsLevel-14 : IsLevel 14 10000 14
IsLevel-14 = record {
  above = omega arith;
  holds = omega arith;
  least = λ k low high. absurd (omega arith);
}

-- The same, with 16 KiB as the smallest block.
abbrev large : Mm
large = record pool { lowest = 14 }

IsLevel-15 : IsLevel 15 20000 15
IsLevel-15 = record {
  above = omega arith;
  holds = omega arith;
  least = λ k low high. absurd (omega arith);
}

abbrev huge : Mm
huge = record pool { lowest = 15 }

allocate-exhausted_example : allocate (some 20000) huge ≡ some (0, huge)
unfolding no_entries
allocate-exhausted_example =
    allocate-exhausted 20000 15 huge refl (λ e. omega (arith, e)) (omega arith) (omega arith)
      IsLevel-15 (λ k low high. ground arith)

level_of-IsLevel_example : (l : ℕ) × (level_of 12 5000 ≡ some l) × (l ≤ 63) × IsLevel 12 5000 l
level_of-IsLevel_example = level_of-IsLevel 12 5000 (omega arith) (omega arith)

-- Five pages: a block of level 14, and one of level 12 behind it.
push_space-heads_example :
    (push_space 64 0x10000 0x1000 0x5000 0 0 pool).1.heads 12
    ≡ block_head 0x10000 0 0x5000 12 (pool.heads 12)
push_space-heads_example =
    push_space-heads 64 0x10000 0x1000 0x5000 0 0 pool 12 (omega arith) (omega arith) (omega arith)
