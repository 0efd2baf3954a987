-- ===== src/Console/Vga/Screen.antt =====
-- Print_Vga of lines that fit: it scrolls and draws on the screen (Common/Kernel/Graphics/Console/Vga/Vga.c).
use native.Mathlib.Nat.{add-mul, mul_comm}
use serra.Base.{
  ℕ, suc, ◌+◌, ◌-◌, ◌*◌, ◌%◌, ◌^◌, ◌≤◌, ◌<◌, ◌≡◌, refl, sym, ap, ◌∙◌, true, false, List, [], ◌∷◌,
  ltb, leb, ◌==◌, length, arith, Bool-cases, inl, inr, leb→le, leb→gt, le→ltb, lt→ltb,
  if◌then◌else◌, ◌||◌,
}
use serra.Console.Vga.{
  ConsoleData, u16, newline, carriage_return, cell_of, advance, clear_lines, scroll, vga_character,
  draw_cell, draw_character, draw, print_vga,
}
use serra.Console.Vga.Cells.{EndsLow, cell_inside, cell_on_screen, cells_of_low}
use serra.Console.Vga.Measure.{
  newlines, fits, feeds, returns, shows, special_or_shown, measure_fits,
}

-- The console after a part of the string: still on the screen, which is all that was written to.
pub record Stays (d d' : ConsoleData) : Type 0 where
  pub same_x : d'.limit_x ≡ d.limit_x
  pub same_y : d'.limit_y ≡ d.limit_y
  pub column : d'.pos_x < d.limit_x
  pub row : d'.pos_y < d.limit_y
  pub kept : (i : ℕ) → d.limit_x * d.limit_y ≤ i → d'.screen i ≡ d.screen i

Stays-trans : (d d' d'' : ConsoleData) → Stays d d' → Stays d' d'' → Stays d d''
Stays-trans d d' d'' s s' = record {
  same_x = s'.same_x ∙ s.same_x;
  same_y = s'.same_y ∙ s.same_y;
  column = omega (arith, s'.column, s.same_x);
  row = omega (arith, s'.row, s.same_y);
  kept = λ i h. s'.kept i (rw (s.same_x, s.same_y) h) ∙ s.kept i h;
}

module _ (attribute : ℕ) (d : ConsoleData) (column : d.pos_x < d.limit_x)
    (row : d.pos_y < d.limit_y) (small_x : d.limit_x < u16) (small_y : d.limit_y < u16)
    (low : EndsLow d) (framebuffer : ℕ)
    (at_position : framebuffer ≡ d.pos_x + d.pos_y * d.limit_x) where
  -- A character that moves the cursor.
  move_character :
      (c x y : ℕ)
      → (c == newline || c == carriage_return) ≡ true
      → advance c d.pos_x d.pos_y ≡ (x, y)
      → x < d.limit_x
      → y < d.limit_y
      → draw_character attribute c framebuffer d
        ≡ (x + y * d.limit_x, record d { pos_x = x; pos_y = y })
  unfolding draw_character
  move_character c x y special e low_x low_y =
      let cell = cell_on_screen x y d low low_x low_y in
      let x_whole : x % u16 ≡ x = omega arith in
      let y_whole : y % u16 ≡ y = omega arith in
      let inside : leb d.limit_x x ≡ false = ground arith in
      rw (e, x_whole, inside, y_whole, special, cell)

  -- A character that is shown.
  show_character :
      (c : ℕ)
      → (c == newline || c == carriage_return) ≡ false
      → advance c d.pos_x d.pos_y ≡ (d.pos_x + 1, d.pos_y)
      → d.pos_x + 1 < d.limit_x
      → draw_character attribute c framebuffer d ≡ (
        framebuffer + 1,
        record d {
          pos_x = d.pos_x + 1;
          screen = draw_cell framebuffer (vga_character attribute c) d.screen;
        },
      )
  unfolding draw_character
  show_character c plain e room =
      let x_whole : (d.pos_x + 1) % u16 ≡ d.pos_x + 1 = omega arith in
      let y_whole : d.pos_y % u16 ≡ d.pos_y = omega arith in
      let inside : leb d.limit_x (d.pos_x + 1) ≡ false = ground (arith, room) in
      let next : (framebuffer + 1) % 2 ^ 63 ≡ framebuffer + 1 =
        omega
          (arith, low, cell_inside d.pos_x d.pos_y d.limit_x d.limit_y column row, at_position) in
      rw (e, x_whole, inside, y_whole, plain, next)

  shown-Stays :
      (c : ℕ)
      → d.pos_x + 1 < d.limit_x
      → Stays d (record d {
        pos_x = d.pos_x + 1;
        screen = draw_cell framebuffer (vga_character attribute c) d.screen;
      })
  unfolding draw_cell
  shown-Stays c room = record {
    same_x = refl;
    same_y = refl;
    column = room;
    row = row;
    kept = λ i h.
        let inside = cell_inside d.pos_x d.pos_y d.limit_x d.limit_y column row in
        let other : (i == framebuffer) ≡ false = ground arith in rw other;
  }

draw_cons :
    (attribute c n framebuffer framebuffer' : ℕ) (string : List ℕ) (d d' : ConsoleData)
    → draw_character attribute c framebuffer d ≡ (framebuffer', d')
    → draw attribute (suc n) (c ∷ string) framebuffer d ≡ draw attribute n string framebuffer' d'
unfolding draw
draw_cons attribute c n framebuffer framebuffer' string d d' e = rw e

moved-Stays :
    (d : ConsoleData) (x y : ℕ)
    → x < d.limit_x
    → y < d.limit_y
    → Stays d (record d { pos_x = x; pos_y = y })
moved-Stays d x y low_x low_y = record {
  same_x = refl;
  same_y = refl;
  column = low_x;
  row = low_y;
  kept = λ i _. refl;
}

draw_none :
    (attribute framebuffer : ℕ) (d : ConsoleData)
    → Stays d d
    → Stays d (draw attribute (length {A = ℕ} []) [] framebuffer d)
unfolding draw
draw_none attribute framebuffer d s = s

draw_fits :
    (attribute : ℕ) (string : List ℕ) (framebuffer : ℕ) (d : ConsoleData)
    → d.pos_x < d.limit_x
    → d.limit_x < u16
    → d.limit_y < u16
    → EndsLow d
    → framebuffer ≡ d.pos_x + d.pos_y * d.limit_x
    → fits d.limit_x d.pos_x string ≡ true
    → d.pos_y + newlines string < d.limit_y
    → Stays d (draw attribute (length string) string framebuffer d)
draw_fits attribute [] framebuffer d column small_x small_y low at_position ok few =
    draw_none attribute framebuffer d (moved-Stays d d.pos_x d.pos_y column (omega arith))
draw_fits attribute (c ∷ string) framebuffer d column small_x small_y low at_position ok few =
    elim (special_or_shown d.limit_x d.pos_x d.pos_y c string ok) [
      | feeds _ special e rest lines ↦
          let drawn = draw_cons attribute c (length string) framebuffer _ string d _ (
            move_character attribute d column (omega arith) small_x small_y low framebuffer
              at_position c 0 (d.pos_y + 1) special e (omega arith) (omega (arith, lines))) in
          rw drawn (
            Stays-trans d (record d { pos_x = 0; pos_y = d.pos_y + 1 }) _
              (moved-Stays d 0 (d.pos_y + 1) (omega arith) (omega (arith, lines)))
              (draw_fits attribute string _ (record d { pos_x = 0; pos_y = d.pos_y + 1 })
                (omega arith) small_x small_y low refl rest (omega (arith, lines))))
      | returns special e rest lines ↦
          let drawn = draw_cons attribute c (length string) framebuffer _ string d _ (
            move_character attribute d column (omega arith) small_x small_y low framebuffer
              at_position c 0 d.pos_y special e (omega arith) (omega arith)) in
          rw drawn (
            Stays-trans d (record d { pos_x = 0; pos_y = d.pos_y }) _
              (moved-Stays d 0 d.pos_y (omega arith) (omega arith))
              (draw_fits attribute string _ (record d { pos_x = 0; pos_y = d.pos_y }) (omega arith)
                small_x small_y low refl rest (omega (arith, lines))))
      | shows plain e room rest lines ↦
          let drawn = draw_cons attribute c (length string) framebuffer _ string d _ (
            show_character attribute d column (omega arith) small_x small_y low framebuffer
              at_position c plain e room) in
          let d' : ConsoleData = record d {
            pos_x = d.pos_x + 1;
            screen = draw_cell framebuffer (vga_character attribute c) d.screen;
          } in
          rw drawn (
            Stays-trans d d' _
              (shown-Stays attribute d column (omega arith) small_x small_y low framebuffer
                at_position c room)
              (draw_fits attribute string (framebuffer + 1) d' room small_x small_y low
                (omega arith) rest (omega (arith, lines))))
    ]

-- Scrolling by fewer lines than there are below the cursor.
scroll-Stays :
    (clear : ℕ) (d : ConsoleData)
    → d.pos_x < d.limit_x
    → d.pos_y < d.limit_y
    → d.limit_y < u16
    → EndsLow d
    → clear ≤ d.pos_y
    → Stays d (scroll clear d)
      × ((scroll clear d).pos_y ≡ d.pos_y - clear)
      × ((scroll clear d).pos_x ≡ d.pos_x)
unfolding scroll
scroll-Stays clear d column row small low enough =
    let moved : (d.pos_y + u16 - clear) % u16 ≡ d.pos_y - clear = omega arith in
    let whole : (d.limit_y - clear) * d.limit_x + clear * d.limit_x ≡ d.limit_x * d.limit_y =
      sym (add-mul (d.limit_y - clear) clear d.limit_x)
      ∙ ap (λ (k : ℕ). k * d.limit_x) (omega arith)
      ∙ mul_comm _ _ in
    let kept = cells_of_low (d.limit_y - clear) d.limit_x (omega (arith, whole, low)) in
    let cleared = cells_of_low clear d.limit_x (omega (arith, whole, low)) in
    (
      record {
        same_x = refl;
        same_y = refl;
        column = column;
        row = omega (arith, moved);
        kept = λ i h.
            let above : ltb i ((d.limit_y - clear) * d.limit_x) ≡ false =
              le→ltb _ _ (omega (arith, whole)) in
            let end : ltb i ((d.limit_y - clear) * d.limit_x + clear * d.limit_x) ≡ false =
              le→ltb _ _ (omega (arith, whole)) in
            rw (kept, cleared, above, end);
      },
      moved,
      refl,
    )

pub clear_lines_few :
    (limit_y y : ℕ) → y + 1 < limit_y * 2 → clear_lines limit_y y ≡ y + 1 - limit_y
unfolding clear_lines
clear_lines_few limit_y y h = rw (lt→ltb (y + 1 - limit_y) limit_y (omega arith))

-- The string as it was measured.
pub print_measured :
    (string : List ℕ) (attribute : ℕ) (d : ConsoleData)
    → fits d.limit_x d.pos_x string ≡ true
    → d.pos_y + newlines string + 1 < d.limit_y * 2
    → print_vga string attribute d ≡ (
        let d' =
          if leb d.limit_y (d.pos_y + newlines string)
          then scroll (clear_lines d.limit_y (d.pos_y + newlines string)) d
          else d in
        draw attribute (length string) string (cell_of d'.pos_x d'.pos_y d'.limit_x) d')
unfolding print_vga
print_measured string attribute d ok few =
    let zero_length : 0 + length string ≡ length string = omega arith in
    rw (measure_fits d.limit_x d.limit_y string 0 d.pos_x d.pos_y ok few, zero_length)

-- A Print_Vga from a cursor on a screen of fewer than 65536 columns and rows that ends below 2
-- GiB, of a string with fewer newlines than rows whose lines all end before the last column,
-- writes no cell behind the screen, keeps its size, and leaves the cursor on it, scrolling
-- included.
pub print_vga-Stays :
    (string : List ℕ) (attribute : ℕ) (d : ConsoleData)
    → d.pos_x < d.limit_x
    → d.pos_y < d.limit_y
    → d.limit_x < u16
    → d.limit_y < u16
    → EndsLow d
    → fits d.limit_x d.pos_x string ≡ true
    → newlines string < d.limit_y
    → Stays d (print_vga string attribute d)
print_vga-Stays string attribute d column row small_x small_y low ok few =
    rw (print_measured string attribute d ok (omega arith))
      (elim (Bool-cases (leb d.limit_y (d.pos_y + newlines string))) [
        | inl past ↦
            let h = leb→le _ _ past in
            let clear : clear_lines d.limit_y (d.pos_y + newlines string)
                ≡ d.pos_y + newlines string + 1 - d.limit_y =
              clear_lines_few d.limit_y (d.pos_y + newlines string) (omega arith) in
            let (stays, row', column') =
              scroll-Stays (d.pos_y + newlines string + 1 - d.limit_y) d column row small_y low
                (omega arith) in
            let s = scroll (d.pos_y + newlines string + 1 - d.limit_y) d in
            let s_low : EndsLow s = rw (stays.same_x, stays.same_y) low in
            let s_column : s.pos_x < s.limit_x = omega (arith, stays.column, stays.same_x) in
            let s_row : s.pos_y < s.limit_y = omega (arith, stays.row, stays.same_y) in
            rw (past, clear)
              (Stays-trans d s _ stays (
                draw_fits attribute string _ s s_column (omega (arith, stays.same_x))
                  (omega (arith, stays.same_y)) s_low
                  (cell_on_screen s.pos_x s.pos_y s s_low s_column s_row)
                  (rw (stays.same_x, column') ok) (omega (arith, row', stays.same_y))))
        | inr above ↦
            let h = leb→gt _ _ above in
            rw above (
              draw_fits attribute string _ d column small_x small_y low
                (cell_on_screen d.pos_x d.pos_y d low column row) ok h)
      ])
