-- ===== src/Mm/Allocator/Refuse.antt =====
-- Free and Allocate (Common/Kernel/Memory/Mm.c): which requests are turned down.
use serra.Base.{
  ℕ, ◌+◌, ◌<◌, ◌≤◌, ◌≡◌, refl, true, false, none, some, List, [], ◌∷◌, leb, arith, ◌⊎◌,
}
use serra.Mm.State.{Mm, Entry, reserved_space}
use serra.Mm.Release.{find_entry, free_block}
use serra.Mm.Allocator.{free}

-- A block that no memory map entry holds, its end included.
unfoldable pub Outside : (pointer : ℕ) (es : List Entry) → Type 0
Outside pointer [] = Unit
Outside pointer (e ∷ es) = (pointer < e.base ⊎ e.base + e.limit < pointer) × Outside pointer es

find_entry-Outside :
    (pointer : ℕ) (es : List Entry) → Outside pointer es → find_entry pointer es ≡ none
unfolding find_entry Outside
find_entry-Outside pointer [] h = refl
find_entry-Outside pointer (e ∷ es) h = let rest = find_entry-Outside pointer es h.1 in ground arith

-- Freeing a pointer that no memory map entry holds returns false and leaves the state as it is.
pub free-Outside :
    (pointer size : ℕ) (s : Mm)
    → Outside pointer s.kernel_mmap
    → free pointer (some size) s ≡ some (false, s)
unfolding free free_block
free-Outside pointer size s h =
    let e = find_entry-Outside pointer s.kernel_mmap h in rw e (ground arith)

-- The first block of an entry starts at the end of its reserved space, and so does the pointer that
-- Allocate gives for it: Free of it, or of an address in the reserved space, returns false and frees
-- nothing, whatever the size.
free-first_block :
    (pointer size : ℕ) (e : Entry) (s : Mm)
    → find_entry pointer s.kernel_mmap ≡ some e
    → pointer ≤ e.base + reserved_space e.limit
    → free pointer (some size) s ≡ some (false, s)
unfolding free free_block
free-first_block pointer size e s found low =
    let test : leb pointer (e.base + reserved_space e.limit) ≡ true = ground arith in ground arith
