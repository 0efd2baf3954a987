-- ===== src/Console/Vga/Cells.antt =====
-- The cells of the text buffer, by 32-bit addresses (Common/Kernel/Graphics/Console/Vga/Vga.c).
use native.Mathlib.Nat.{mul_assoc}
use serra.Base.{ℕ, ◌+◌, ◌*◌, ◌%◌, ◌^◌, ◌≤◌, ◌<◌, ◌≡◌, sym, true, ltb, arith, lt→ltb}
use serra.Console.Vga.{ConsoleData, u32, cell_of, cells_of}

pub cell_inside :
    (x y limit_x limit_y : ℕ) → x < limit_x → y < limit_y → x + y * limit_x < limit_x * limit_y
cell_inside x y limit_x limit_y h k = grind arith

-- The screen ends below 2 GiB.
abbrev pub EndsLow : ConsoleData → Type 0
EndsLow d = 0xB8000 + d.limit_x * d.limit_y * 2 ≤ 2 ^ 31

pub cell_of_low :
    (x y limit_x : ℕ)
    → 0xB8000 + (x + y * limit_x) * 2 < 2 ^ 31
    → cell_of x y limit_x ≡ x + y * limit_x
unfolding cell_of
cell_of_low x y limit_x h =
    let whole : (0xB8000 + (x + y * limit_x) * 2) % u32 ≡ 0xB8000 + (x + y * limit_x) * 2 =
      omega arith in
    let small : ltb (0xB8000 + (x + y * limit_x) * 2) (2 ^ 31) ≡ true = lt→ltb _ _ h in
    rw (whole, small) (omega arith)

pub cell_on_screen :
    (x y : ℕ) (d : ConsoleData)
    → EndsLow d
    → x < d.limit_x
    → y < d.limit_y
    → cell_of x y d.limit_x ≡ x + y * d.limit_x
cell_on_screen x y d low h k =
    cell_of_low x y d.limit_x (omega (arith, cell_inside x y d.limit_x d.limit_y h k, low))

pub cells_of_low :
    (lines limit_x : ℕ) → lines * limit_x * 2 < u32 → cells_of lines limit_x ≡ lines * limit_x
unfolding cells_of
cells_of_low lines limit_x h =
    let twice : lines * (limit_x * 2) ≡ lines * limit_x * 2 = sym (mul_assoc lines limit_x 2) in
    rw twice (omega (arith, h))
