-- ===== src/Console/Vga/Underflow.antt =====
-- Print_Vga of a string with as many newlines as the screen has rows (Common/Kernel/Graphics/Console/Vga/Vga.c).
use native.Mathlib.Nat.{add-mul, mul-le-mul_right}
use serra.Base.{
  ℕ, zero, suc, ◌+◌, ◌-◌, ◌*◌, ◌%◌, ◌≤◌, ◌<◌, ◌≡◌, ◌≢◌, refl, ap, ◌∙◌, true, false, ◌∷◌, leb, ◌==◌,
  length, replicate, arith, lt→ltb, ◌||◌,
}
use serra.Console.Vga.{
  cell_of, Screen, ConsoleData, u16, newline, carriage_return, clear_lines, scroll, vga_character,
  draw_cell, draw_character, draw, print_vga,
}
use serra.Console.Vga.Measure.{newlines, fits}
use serra.Console.Vga.Cells.{cell_of_low}
use serra.Console.Vga.Screen.{print_measured, clear_lines_few}

fits_feeds : (limit_x n x : ℕ) → fits limit_x x (replicate n newline) ≡ true
unfolding fits
fits_feeds limit_x zero x = refl
fits_feeds limit_x (suc n) x = fits_feeds limit_x n 0

newlines_feeds : (n : ℕ) → newlines (replicate n newline) ≡ n
unfolding newlines
newlines_feeds zero = refl
newlines_feeds (suc n) = omega (arith, newlines_feeds n)

-- Newlines write nothing.
draw_feed :
    (attribute framebuffer : ℕ) (d : ConsoleData)
    → (draw_character attribute newline framebuffer d).1.screen ≡ d.screen
unfolding draw_character
draw_feed attribute framebuffer d = refl

draw_feeds :
    (attribute k n framebuffer : ℕ) (d : ConsoleData)
    → (draw attribute k (replicate n newline) framebuffer d).screen ≡ d.screen
unfolding draw
draw_feeds attribute zero n framebuffer d = refl
draw_feeds attribute (suc k) zero framebuffer d = refl
draw_feeds attribute (suc k) (suc n) framebuffer d =
    draw_feeds attribute k n (draw_character attribute newline framebuffer d).0
      (draw_character attribute newline framebuffer d).1
    ∙ draw_feed attribute framebuffer d

draw_first :
    (attribute c framebuffer : ℕ) (d : ConsoleData)
    → (c == newline || c == carriage_return) ≡ false
    → (draw_character attribute c framebuffer d).1.screen framebuffer ≡ vga_character attribute c
unfolding draw_character draw_cell
draw_first attribute c framebuffer d plain =
    let here : (framebuffer == framebuffer) ≡ true = ground arith in rw (plain, here)

draw_then_feeds :
    (attribute c k n framebuffer : ℕ) (d : ConsoleData)
    → (c == newline || c == carriage_return) ≡ false
    → (draw attribute (suc k) (c ∷ replicate n newline) framebuffer d).screen framebuffer
      ≡ vga_character attribute c
unfolding draw
draw_then_feeds attribute c k n framebuffer d plain =
    ap (λ (s : Screen). s framebuffer)
      (draw_feeds attribute k n (draw_character attribute c framebuffer d).0
        (draw_character attribute c framebuffer d).1)
    ∙ draw_first attribute c framebuffer d plain

scrolled_row :
    (clear : ℕ) (d : ConsoleData)
    → d.pos_y < clear
    → clear < u16
    → d.pos_x < d.limit_x
    → d.limit_x ≤ 16378
    → cell_of (scroll clear d).pos_x (scroll clear d).pos_y (scroll clear d).limit_x
      ≡ d.pos_x + (d.pos_y + u16 - clear) * d.limit_x
unfolding scroll
scrolled_row clear d h low column narrow =
    let whole : (d.pos_y + u16 - clear) % u16 ≡ d.pos_y + u16 - clear = omega arith in
    let y = d.pos_y + u16 - clear in
    let rows : (y + 1) * d.limit_x ≤ u16 * d.limit_x = mul-le-mul_right d.limit_x (omega arith) in
    let row : (y + 1) * d.limit_x ≡ y * d.limit_x + 1 * d.limit_x = add-mul y 1 d.limit_x in
    rw whole (cell_of_low d.pos_x y d.limit_x (omega (arith, rows, row)))

one_line : (c n : ℕ) → c ≢ newline → newlines (c ∷ replicate n newline) ≡ n
unfolding newlines
one_line c n shown =
    let other : (c == newline) ≡ false = ground arith in rw other (omega (arith, newlines_feeds n))

fits_shown :
    (limit_x x c n : ℕ)
    → (c == newline || c == carriage_return) ≡ false
    → x + 1 < limit_x
    → fits limit_x x (c ∷ replicate n newline) ≡ true
unfolding fits
fits_shown limit_x x c n plain room = rw (plain, lt→ltb _ _ room) (fits_feeds limit_x n (x + 1))

-- On a screen of at most 16378 columns and fewer than 65536 rows, a Print_Vga of a character
-- that is shown, not in the last column, followed by n newlines, with n at least the number of
-- rows and the row of the cursor plus n + 1 below twice that number, draws the character 65536 +
-- rows - 1 - n rows down from the first: PosY wraps around.
pub print_vga_underflows :
    (attribute c n : ℕ) (d : ConsoleData)
    → c ≢ newline
    → c ≢ carriage_return
    → d.pos_x + 1 < d.limit_x
    → d.limit_x ≤ 16378
    → d.limit_y < u16
    → d.limit_y ≤ n
    → d.pos_y + n + 1 < d.limit_y * 2
    → (print_vga (c ∷ replicate n newline) attribute d).screen
        (d.pos_x + (u16 + d.limit_y - 1 - n) * d.limit_x)
      ≡ vga_character attribute c
print_vga_underflows attribute c n d shown shown' column narrow small many few =
    let plain : (c == newline || c == carriage_return) ≡ false = ground arith in
    let count : newlines (c ∷ replicate n newline) ≡ n = one_line c n shown in
    let ok : fits d.limit_x d.pos_x (c ∷ replicate n newline) ≡ true =
      fits_shown d.limit_x d.pos_x c n plain column in
    let past : leb d.limit_y (d.pos_y + n) ≡ true = ground arith in
    let clear : clear_lines d.limit_y (d.pos_y + n) ≡ d.pos_y + n + 1 - d.limit_y =
      clear_lines_few d.limit_y (d.pos_y + n) few in
    let cell =
      scrolled_row (d.pos_y + n + 1 - d.limit_y) d (omega arith) (omega arith) (omega arith)
        narrow in
    let row : d.pos_y + u16 - (d.pos_y + n + 1 - d.limit_y) ≡ u16 + d.limit_y - 1 - n =
      omega arith in
    rw (print_measured (c ∷ replicate n newline) attribute d ok (omega (arith, count))) (
      rw (count, past, clear, cell, row)
        (draw_then_feeds attribute c (length (replicate n newline)) n _ _ plain))
