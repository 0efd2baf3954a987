-- ===== src/Mm/Allocator.antt =====
-- Common/Kernel/Memory/Mm.c: Allocate, Free and VerifyMemoryManagementSubsystem.
-- A length is `none` for a NULL pointer to it. A result of 0 is NULL, and `none` is a run with no
-- defined behaviour (a shift by 64) or without an end.
pub mod Divide
pub mod Refuse
use serra.Base.{
  ℕ, zero, suc, ◌+◌, ◌-◌, ◌*◌, ◌/◌, ◌%◌, ◌^◌, Bool, true, false, not, ◌||◌, ◌&&◌, List, [], ◌∷◌,
  Option, none, some, ltb, leb, ◌==◌, if◌then◌else◌,
}
use serra.Mm.State.{Entry, Mm}
use serra.Mm.Level.{level_of}
use serra.Mm.Block.{pop_block, divide_block}
use serra.Mm.Release.{Run, free_block, merge_block}

unfoldable pub no_entries : Mm → Bool
no_entries s = elim s.kernel_mmap [ [] ↦ true | _ ∷ _ ↦ false ]

-- `for (Level = BlockLevel + 1; Level <= Limits[1]; Level++)`, on the rounds left: the first level
-- with a block is divided. `false` is a `return NULL`.
unfoldable pub divide_larger : ℕ → (level target : ℕ) → Mm → Bool × Mm
divide_larger zero level target s = (true, s)
divide_larger (suc n) level target s =
    let rest = divide_larger n (level + 1) target s in
    if not (s.heads level == 0) then divide_block (s.heads level) level target s else rest

-- From the level on.
unfoldable pub allocate_level : ℕ → Mm → ℕ × Mm
allocate_level level s =
    let (done, s1) = divide_larger (s.highest - level) (level + 1) level s in
    if ltb s.highest level
    then (0, s)
    else if not (s.heads level == 0)
    then pop_block level s
    else if not done
    then (0, s1)
    else pop_block level s1

unfoldable pub allocate : Option ℕ → Mm → Run ℕ
allocate none s = some (0, s)
allocate (some size) s =
    if no_entries s || size == 0
    then some (0, s)
    else elim (level_of s.lowest size) [ none ↦ none | some level ↦ some (allocate_level level s) ]

unfoldable pub free : ℕ → Option ℕ → Mm → Run Bool
free pointer none s = some (false, s)
free pointer (some size) s =
    if no_entries s || (pointer == 0 || size == 0)
    then some (false, s)
    else elim (free_block pointer size s) [
      | none ↦ none
      | some (node, s1) ↦ if node == 0 then some (false, s1) else merge_block node size s1
    ]

-- `Size` is not changed by Allocate, so it stays equal to `Try`.
unfoldable pub verify : ℕ → Mm → Run Bool
verify try s = elim (allocate (some try) s) [
  | none ↦ none
  | some (pointer, s1) ↦ if pointer == 0 then some (false, s1) else free pointer (some try) s1
]
