-- ===== src/Tests/Vga.antt =====
-- Tests of the VGA text console, and the properties at inputs that meet their conditions.
use serra.Base.{ℕ, ◌+◌, ◌-◌, ◌*◌, ◌≡◌, refl, true, false, some, List, [], ◌∷◌, replicate, arith}
use serra.Console.Vga.{
  cell_of, cells_of, ConsoleData, u16, newline, advance, measure, clear_lines, scroll,
  vga_character, draw_cell, draw_character, draw, print_vga,
}
use serra.Console.Vga.Measure.{newlines, fits}
use serra.Console.Vga.Screen.{Stays, print_vga-Stays}
use serra.Console.Vga.Underflow.{print_vga_underflows}
use serra.Console.Output.{
  Consoles, Display, Setup, unknown_console, info_table_signature, initialize_console_subsystem,
  print,
}
use serra.Console.Output.Starts.{IsVga, described, print-initialize_console_subsystem}

-- 80 columns and 25 rows, with the number of each cell in it.
abbrev last_row : ConsoleData
last_row = record { pos_x = 2; pos_y = 24; limit_x = 80; limit_y = 25; screen = λ i. i }

-- "ab\nc" scrolls by a line: "ab" is on row 23 then, and "c" at the start of row 24.
abbrev two_lines : List ℕ
two_lines = 97 ∷ 98 ∷ 10 ∷ 99 ∷ []

print_test :
    ((print_vga two_lines 7 last_row).screen (23 * 80 + 3) ≡ 0x762)
    × ((print_vga two_lines 7 last_row).screen (24 * 80) ≡ 0x763)
    × ((print_vga two_lines 7 last_row).screen 0 ≡ 80)
    × ((print_vga two_lines 7 last_row).pos_x ≡ 1)
    × ((print_vga two_lines 7 last_row).pos_y ≡ 24)
unfolding cell_of cells_of print_vga measure advance clear_lines scroll vga_character draw_cell
    draw_character draw
print_test = (refl, refl, refl, refl, refl)

two_lines-fits : fits 80 2 two_lines ≡ true
unfolding fits
two_lines-fits = refl

two_lines-newlines : newlines two_lines ≡ 1
unfolding newlines
two_lines-newlines = refl

print_vga-Stays_example : Stays last_row (print_vga two_lines 7 last_row)
print_vga-Stays_example =
    print_vga-Stays two_lines 7 last_row (omega arith) (omega arith) (omega arith) (omega arith)
      (omega arith) two_lines-fits (omega (arith, two_lines-newlines))

-- The letter and 25 newlines, from row 10 on.
abbrev middle_row : ConsoleData
middle_row = record last_row { pos_y = 10 }

print_vga_underflows_example :
    (print_vga (97 ∷ replicate 25 newline) 7 middle_row).screen (2 + (u16 + 25 - 1 - 25) * 80)
    ≡ vga_character 7 97
print_vga_underflows_example =
    print_vga_underflows 7 97 25 middle_row (omega arith) (omega arith) (omega arith) (omega arith)
      (omega arith) (omega arith) (omega arith)

abbrev vga_system : Display
vga_system = record {
  signature = info_table_signature;
  display_type = 1;
  text_pos_x = 2;
  text_pos_y = 24;
  text_limit_x = 80;
  text_limit_y = 25;
  graphics_supported = false;
  graphics_limit_x = 0;
  graphics_limit_y = 0;
  system_table = 0;
  is_system_table = false;
  font_file = record {
    is_psf1 = true;
    psf1_size = 16;
    is_psf2 = false;
    hdr_size = 0;
    psf2_header_size = 32;
    num_glyphs = 0;
    width = 0;
    height = 0;
  };
}

abbrev before_start : Setup
before_start = record {
  console = record {
    is_supported = false;
    type = unknown_console;
    text = record last_row { pos_x = 0; pos_y = 0; limit_x = 0; limit_y = 0 };
    enabled = false;
    debug_flag = false;
  };
  font = record { font_supported = false; font_width = 0; font_height = 0 };
  g_st = 0;
}

abbrev no_others : Consoles
no_others = record {
  print_efi = λ _ _ c. c;
  print_graphical = λ _ _ c. c;
  putchar_efi = λ _ _ c. c;
  putchar_graphical = λ _ _ c. c;
}

vga_system-IsVga : IsVga vga_system
vga_system-IsVga = record {
  signed = refl;
  text_mode = refl;
  vga = refl;
  column = omega arith;
  row = omega arith;
  small_x = omega arith;
  small_y = omega arith;
  low = omega arith;
}

print-initialize_console_subsystem_example :
    (s' : Setup) × (initialize_console_subsystem vga_system before_start ≡ some (true, s'))
    × (s'.console.text ≡ described vga_system before_start.console.text)
    × Stays s'.console.text (print no_others two_lines true 7 s'.console).text
print-initialize_console_subsystem_example =
    print-initialize_console_subsystem no_others vga_system before_start two_lines 7
      vga_system-IsVga two_lines-fits (omega (arith, two_lines-newlines))
