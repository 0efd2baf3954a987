-- ===== src/Console/Output/Starts.antt =====
-- A console of VGA text, from its start to a string on the screen (Common/Kernel/Graphics/Console/Console.c,
-- Vga/Vga.c).
use serra.Base.{
  ◌^◌, ◌*◌, ◌+◌, ◌≤◌, ℕ, ◌<◌, ◌≡◌, refl, Bool, true, false, not, some, List, ◌==◌, ==_iff,
  if◌then◌else◌, ◌&&◌, ◌||◌,
}
use serra.Console.Vga.{ConsoleData, u16}
use serra.Console.Vga.Measure.{newlines, fits}
use serra.Console.Vga.Screen.{Stays, print_vga-Stays}
use serra.Console.Output.{
  Consoles, Display, Setup, vga_console, initialize_console_subsystem, console_type, start_type,
  start_vga, enable_console, print, print_on, is_dropped, info_table_signature,
}

-- The information table of a system in VGA text mode, with the cursor on the screen.
pub record IsVga (d : Display) : Type 0 where
  pub signed : d.signature ≡ info_table_signature
  pub text_mode : d.graphics_supported ≡ false
  pub vga : d.display_type ≡ 1
  pub column : d.text_pos_x < d.text_limit_x
  pub row : d.text_pos_y < d.text_limit_y
  pub small_x : d.text_limit_x < u16
  pub small_y : d.text_limit_y < u16
  pub low : 0xB8000 + d.text_limit_x * d.text_limit_y * 2 ≤ 2 ^ 31

-- The console that the table describes.
abbrev pub described : Display → ConsoleData → ConsoleData
described d t = record t {
  pos_x = d.text_pos_x;
  pos_y = d.text_pos_y;
  limit_x = d.text_limit_x;
  limit_y = d.text_limit_y;
}

started : Display → Setup → Setup
started d s = record s {
  console = record s.console {
    is_supported = true;
    type = vga_console;
    text = described d s.console.text;
    enabled = true;
  };
}

start_of_vga :
    (d : Display) (s : Setup)
    → IsVga d
    → initialize_console_subsystem d s ≡ some (true, started d s)
unfolding initialize_console_subsystem console_type start_type start_vga enable_console started
start_of_vga d s v =
    let signed : (d.signature == info_table_signature) ≡ true = (==_iff _ _).1 v.signed in
    rw (signed, v.text_mode, v.vga)

-- On a system in VGA text mode, with a right signature and a cursor on the screen, which has
-- fewer than 65536 columns and rows and ends below 2 GiB, InitializeConsoleSubsystem returns
-- true with the cursor and the size of the information table, and an important Print of a string
-- with fewer newlines than rows whose lines all end before the last column then writes no cell
-- behind the screen, keeps its size and leaves the cursor on it, whatever DebugFlag is.
pub print-initialize_console_subsystem :
    (others : Consoles) (d : Display) (s : Setup) (string : List ℕ) (attribute : ℕ)
    → IsVga d
    → fits d.text_limit_x d.text_pos_x string ≡ true
    → newlines string < d.text_limit_y
    → (s' : Setup) × (initialize_console_subsystem d s ≡ some (true, s'))
      × (s'.console.text ≡ described d s.console.text)
      × Stays s'.console.text (print others string true attribute s'.console).text
unfolding print print_on is_dropped started
print-initialize_console_subsystem others d s string attribute v ok few =
    (started d s, start_of_vga d s v, refl, dropped s.console.debug_flag)
  where
    dropped :
        (flag : Bool)
        → Stays
            (described d s.console.text)
            (if not true || not flag && not true
              then (started d s).console
              else print_on others vga_console string attribute (started d s).console).text
    dropped true =
        print_vga-Stays string attribute (described d s.console.text) v.column v.row v.small_x
          v.small_y v.low ok few
    dropped false =
        print_vga-Stays string attribute (described d s.console.text) v.column v.row v.small_x
          v.small_y v.low ok few
