-- ===== src/Paging/Words.antt =====
-- Words of the memory after a write and after Memset (Boot/Legacy/Stage3/Memory/Paging/Paging.c).
use mathlib.Core.Path.{fun_ext}
use native.Mathlib.Decide.{ℕ_discrete}
use serra.Base.{
  ◌-◌, ◌*◌, refl, ◌%◌, ◌^◌, ltb, leb, ◌&&◌, ◌==◌, false, true, Bool, if◌then◌else◌, ℕ, ◌+◌, ◌≤◌,
  ◌<◌, ◌≡◌, ◌≢◌, sym, ◌∙◌, ◌⊎◌, arith,
}
use serra.Paging.{Cells, clear, store}

pub store_self : (address value : ℕ) (m : Cells) → store address value m address ≡ value
unfolding store
store_self address value m = ground arith

pub store_ne : (address value : ℕ) (m : Cells) (a : ℕ) → a ≢ address → store address value m a ≡ m a
unfolding store
store_ne address value m a h = ground arith

pub store_same : (address value : ℕ) (m : Cells) → m address ≡ value → store address value m ≡ m
store_same address value m e = fun_ext (λ a. cell a)
  where
    cell : (a : ℕ) → store address value m a ≡ m a
    cell a = elim (ℕ_discrete a address) [
      | yes here ↦ rw here (store_self address value m ∙ sym e)
      | no other ↦ store_ne address value m a other
    ]

pub clear_inside :
    (start size : ℕ) (m : Cells) (a : ℕ)
    → size % 8 ≡ 0
    → start ≤ a
    → a < start + size
    → clear start size m a ≡ 0
unfolding clear
clear_inside start size m a words low high =
    let whole : size - size % 8 ≡ size = omega arith in rw whole (ground arith)

pub clear_outside :
    (start size : ℕ) (m : Cells) (a : ℕ)
    → size % 8 ≡ 0
    → (a < start) ⊎ (start + size ≤ a)
    → clear start size m a ≡ m a
unfolding clear
clear_outside start size m a words out =
    let inside : (leb start a && ltb a (start + (size - size % 8))) ≡ false = ground (arith, out) in
    let kept : m a - m a % 2 ^ (8 * (size % 8)) ≡ m a = rw words (omega arith) in
    rw (inside, kept) (if_same (a == start + (size - size % 8)))
  where
    if_same : (b : Bool) → (if b then m a else m a) ≡ m a
    if_same true = refl
    if_same false = refl
