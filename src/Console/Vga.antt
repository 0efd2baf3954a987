-- ===== src/Console/Vga.antt =====
-- The VGA text console (Common/Kernel/Graphics/Console/Vga/Vga.c, Console.h). A cell is the 16-bit character at
-- B8000h and twice its index. Print_Vga measures the string, scrolls, and draws it.
use serra.Base.{
  ℕ, zero, suc, ◌+◌, ◌-◌, ◌*◌, ◌/◌, ◌%◌, ◌^◌, Bool, true, false, ◌||◌, List, [], ◌∷◌, ltb, leb,
  ◌==◌, if◌then◌else◌,
}
pub mod Cells
pub mod Measure
pub mod Screen
pub mod Underflow

abbrev pub Screen : Type 0
Screen = ℕ → ℕ

-- struct consoleSubsystemData, with the text buffer.
pub record ConsoleData : Type 0 where
  pub pos_x : ℕ
  pub pos_y : ℕ
  pub limit_x : ℕ
  pub limit_y : ℕ
  pub screen : Screen

abbrev pub u16 : ℕ
u16 = 65536

abbrev pub u32 : ℕ
u32 = 2 ^ 32

abbrev pub u64 : ℕ
u64 = 2 ^ 64

-- '\n' and '\r'
abbrev pub newline : ℕ
newline = 10

abbrev pub carriage_return : ℕ
carriage_return = 13

-- The position after a character, before the check for the end of the line.
unfoldable pub advance : (c x y : ℕ) → ℕ × ℕ
advance c x y =
    if c == newline then (0, y + 1) else if c == carriage_return then (0, y) else (x + 1, y)

-- The first loop: the number of characters that are to be drawn, and the last row.
unfoldable pub measure : (limit_x limit_y : ℕ) → List ℕ → (index x y threshold : ℕ) → ℕ × ℕ
measure limit_x limit_y [] index x y threshold = (index, y)
measure limit_x limit_y (c ∷ string) index x y threshold =
    let (x1, y1) = advance c x y in
    let crosses = ltb limit_x x1 in
    let x2 = if crosses then x1 - (limit_x + 1) else x1 in
    let y2 = if crosses then y1 + 1 else y1 in
    let threshold' = if leb threshold y2 then y2 + 1 else threshold in
    let rest = measure limit_x limit_y string (index + 1) x2 y2 threshold' in
    if leb (limit_y * 2) threshold' then (index, y2) else rest

-- The lines that are cleared for a string whose last row is `y`.
unfoldable pub clear_lines : (limit_y y : ℕ) → ℕ
clear_lines limit_y y = if ltb (y + 1 - limit_y) limit_y then y + 1 - limit_y else limit_y

-- The cells in a number of lines, by the 32-bit number of their bytes.
unfoldable pub cells_of : (lines limit_x : ℕ) → ℕ
cells_of lines limit_x = lines * (limit_x * 2) % u32 / 2

-- The cell at `0xB8000 + ((PosX + (PosY * LimitX)) * 2)`, an `int` that is extended to 64 bits. An overflow is
-- undefined in C, and is taken to wrap around.
unfoldable pub cell_of : (x y limit_x : ℕ) → ℕ
cell_of x y limit_x =
    let address = (0xB8000 + (x + y * limit_x) * 2) % u32 in
    let extended = if ltb address (2 ^ 31) then address else address + (u64 - u32) in
    (extended + (u64 - 0xB8000)) % u64 / 2

-- Memcpy of the lines that stay, upwards from the first, and Memset of the others.
unfoldable pub scroll : (clear : ℕ) → ConsoleData → ConsoleData
scroll clear d =
    let kept = cells_of (d.limit_y - clear) d.limit_x in
    let cleared = cells_of clear d.limit_x in
    record d {
      screen = λ i.
          (if ltb i kept
            then d.screen (i + cleared)
            else if ltb i (kept + cleared)
            then 0
            else d.screen i);
      pos_y = (d.pos_y + u16 - clear) % u16;
    }

-- (Attribute << 8) | String[Position], where a `char` from 128 on is negative.
unfoldable pub vga_character : (attribute c : ℕ) → ℕ
vga_character attribute c = if ltb c 128 then attribute * 256 + c else 0xFF00 + c

unfoldable pub draw_cell : (framebuffer value : ℕ) → Screen → Screen
draw_cell framebuffer value s i = if i == framebuffer then value else s i

-- One round of the second loop: the console, and the index of the cell that is next.
unfoldable pub draw_character : (attribute c framebuffer : ℕ) → ConsoleData → ℕ × ConsoleData
draw_character attribute c framebuffer d =
    let (x1, y1) = advance c d.pos_x d.pos_y in
    let crosses = leb d.limit_x (x1 % u16) in
    let x2 = if crosses then x1 % u16 - d.limit_x else x1 % u16 in
    let y2 = (if crosses then y1 + 1 else y1) % u16 in
    if c == newline || c == carriage_return
    then (cell_of x2 y2 d.limit_x, record d { pos_x = x2; pos_y = y2 })
    else (
      (framebuffer + 1) % 2 ^ 63,
      record d {
        pos_x = x2;
        pos_y = y2;
        screen = draw_cell framebuffer (vga_character attribute c) d.screen;
      },
    )

-- The second loop, over the first `index` characters.
unfoldable pub draw : (attribute index : ℕ) → List ℕ → (framebuffer : ℕ) → ConsoleData → ConsoleData
draw attribute zero string framebuffer d = d
draw attribute (suc index) [] framebuffer d = d
draw attribute (suc index) (c ∷ string) framebuffer d =
    let (framebuffer', d') = draw_character attribute c framebuffer d in
    draw attribute index string framebuffer' d'

unfoldable pub print_vga : List ℕ → (attribute : ℕ) → ConsoleData → ConsoleData
print_vga string attribute d =
    let (index, y) = measure d.limit_x d.limit_y string 0 d.pos_x d.pos_y (d.pos_y + 1) in
    let d' = if leb d.limit_y y then scroll (clear_lines d.limit_y y) d else d in
    draw attribute index string (cell_of d'.pos_x d'.pos_y d'.limit_x) d'

-- A string of one character; the character 0 ends it at once.
unfoldable pub putchar_vga : (c attribute : ℕ) → ConsoleData → ConsoleData
putchar_vga c attribute d = print_vga (if c == 0 then [] else c ∷ []) attribute d
