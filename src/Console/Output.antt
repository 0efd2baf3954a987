-- ===== src/Console/Output.antt =====
-- InitializeConsoleSubsystem, Putchar and Print (Common/Kernel/Graphics/Console/Console.c), with the bitmap font
-- (Common/Kernel/Graphics/Fonts/Bitmap.c) and the EFI tables (Common/Kernel/Firmware/Efi.c) that they start.
use serra.Base.{
  ℕ, ◌+◌, ◌-◌, ◌/◌, ◌%◌, Bool, true, false, not, ◌&&◌, ◌||◌, Option, none, some, List, [], ◌∷◌, ltb,
  ◌==◌, if◌then◌else◌,
}
use serra.Console.Vga.{ConsoleData, print_vga, putchar_vga}
pub mod Starts

-- commonInfoTableSignature
abbrev pub info_table_signature : ℕ
info_table_signature = 0x7577_757e_7577_757e

-- The type of the console.
pub data ConsoleType : Type 0 where
  unknown_console : ConsoleType
  graphical_console : ConsoleType
  vga_console : ConsoleType
  efi_console : ConsoleType

-- ConsoleData, ConsoleEnabled and DebugFlag
pub record Console : Type 0 where
  pub is_supported : Bool
  pub type : ConsoleType
  pub text : ConsoleData
  pub enabled : Bool
  pub debug_flag : Bool

-- The two headers that the bytes of the font may be read as.
pub record FontFile : Type 0 where
  pub is_psf1 : Bool
  pub psf1_size : ℕ
  pub is_psf2 : Bool
  pub hdr_size : ℕ
  pub psf2_header_size : ℕ
  pub num_glyphs : ℕ
  pub width : ℕ
  pub height : ℕ

-- Of BitmapFontData, what the console uses.
pub record BitmapFontData : Type 0 where
  pub font_supported : Bool
  pub font_width : ℕ
  pub font_height : ℕ

unfoldable pub initialize_bitmap_font : FontFile → BitmapFontData → Bool × BitmapFontData
initialize_bitmap_font f data' =
    if f.is_psf1
    then (true, record { font_supported = true; font_width = 8; font_height = f.psf1_size })
    else if f.is_psf2
    then (if ltb f.hdr_size f.psf2_header_size
        then (false, data')
        else if ltb f.num_glyphs 256
        then (false, data')
        else if not (f.width == 8)
        then (false, data')
        else (true, record { font_supported = true; font_width = f.width; font_height = f.height }))
    else (false, data')

-- What is read: the information table, the graphics subsystem and the font.
pub record Display : Type 0 where
  pub signature : ℕ
  pub display_type : ℕ
  pub text_pos_x : ℕ
  pub text_pos_y : ℕ
  pub text_limit_x : ℕ
  pub text_limit_y : ℕ
  pub graphics_supported : Bool
  pub graphics_limit_x : ℕ
  pub graphics_limit_y : ℕ
  pub system_table : ℕ
  pub is_system_table : Bool
  pub font_file : FontFile

-- What is written: the console, the font's data and gST.
pub record Setup : Type 0 where
  pub console : Console
  pub font : BitmapFontData
  pub g_st : ℕ

-- InitializeEfiTables, as far as gST goes. The information table was checked before.
unfoldable pub initialize_efi_tables : Display → ℕ → ℕ
initialize_efi_tables d g_st =
    if d.system_table == 0
    then g_st
    else if not (d.signature == info_table_signature)
    then g_st
    else if d.is_system_table
    then d.system_table
    else g_st

-- The type by the display, if it is one of the three that have text.
unfoldable pub console_type : Display → Console → Option Console
console_type d c =
    if d.graphics_supported
    then some (record c { is_supported = true; type = graphical_console })
    else if d.display_type == 0
    then some (record c { is_supported = false })
    else if d.display_type == 1
    then some (record c { is_supported = true; type = vga_console })
    else if d.display_type == 3
    then some (record c { is_supported = true; type = efi_console })
    else none

-- The end of the initializer.
unfoldable pub enable_console : Setup → Option (Bool × Setup)
enable_console s =
    some (true, record s { console = record s.console { enabled = s.console.is_supported } })

-- (Limit & 0xFFFE) / size; a division by zero is a fault.
unfoldable pub limit_of : (limit size : ℕ) → Option ℕ
limit_of limit size = if size == 0 then none else some ((limit - limit % 2) / size)

unfoldable pub set_graphical : Display → Setup → Option (Bool × Setup)
set_graphical d s = elim (limit_of d.graphics_limit_x s.font.font_width) [
  | none ↦ none
  | some x ↦ elim (limit_of d.graphics_limit_y s.font.font_height) [
    | none ↦ none
    | some y ↦ enable_console (record s {
      console = record s.console {
        text = record s.console.text {
          pos_x = 0;
          pos_y = 0;
          limit_x = x % 65536;
          limit_y = y % 65536;
        };
      };
    })
  ]
]

unfoldable pub start_graphical : Display → Setup → Option (Bool × Setup)
start_graphical d s =
    if s.font.font_supported
    then set_graphical d s
    else let (started, font) = initialize_bitmap_font d.font_file s.font in
      let s' = record s { font = font } in
      if not started
      then some (false, s')
      else if not font.font_supported
      then some (false, s')
      else set_graphical d s'

unfoldable pub start_vga : Display → Setup → Option (Bool × Setup)
start_vga d s = enable_console (record s {
  console = record s.console {
    text = record s.console.text {
      pos_x = d.text_pos_x;
      pos_y = d.text_pos_y;
      limit_x = d.text_limit_x;
      limit_y = d.text_limit_y;
    };
  };
})

unfoldable pub set_efi : Display → Setup → Option (Bool × Setup)
set_efi d s = enable_console (record s {
  console = record s.console {
    text = record s.console.text { limit_x = d.text_limit_x; limit_y = d.text_limit_y };
  };
})

unfoldable pub start_efi : Display → Setup → Option (Bool × Setup)
start_efi d s =
    if s.g_st == 0
    then (let s' = record s { g_st = initialize_efi_tables d s.g_st } in
        if not (s'.g_st == d.system_table) then some (false, s') else set_efi d s')
    else set_efi d s

unfoldable pub start_type : ConsoleType → Display → Setup → Option (Bool × Setup)
start_type unknown_console d s = enable_console s
start_type graphical_console d s = start_graphical d s
start_type vga_console d s = start_vga d s
start_type efi_console d s = start_efi d s

-- `none` is a division by zero.
unfoldable pub initialize_console_subsystem : Display → Setup → Option (Bool × Setup)
initialize_console_subsystem d s =
    if not (d.signature == info_table_signature)
    then some (false, s)
    else elim (console_type d s.console) [
      | none ↦ some (false, s)
      | some c ↦ start_type c.type d (record s { console = c })
    ]

-- The consoles that the model does not have, as what they do to the console.
pub record Consoles : Type 0 where
  pub print_efi : List ℕ → ℕ → Console → Console
  pub print_graphical : List ℕ → ℕ → Console → Console
  pub putchar_efi : ℕ → ℕ → Console → Console
  pub putchar_graphical : ℕ → ℕ → Console → Console

unfoldable pub print_on : Consoles → ConsoleType → List ℕ → (attribute : ℕ) → Console → Console
print_on others unknown_console string attribute c = c
print_on others graphical_console string attribute c = others.print_graphical string attribute c
print_on others vga_console string attribute c = record c {
  text = print_vga string attribute c.text;
}
print_on others efi_console string attribute c = others.print_efi string attribute c

unfoldable pub putchar_on : Consoles → ConsoleType → ℕ → (attribute : ℕ) → Console → Console
putchar_on others unknown_console char attribute c = c
putchar_on others graphical_console char attribute c = others.putchar_graphical char attribute c
putchar_on others vga_console char attribute c = record c {
  text = putchar_vga char attribute c.text;
}
putchar_on others efi_console char attribute c = others.putchar_efi char attribute c

-- Whether a message is dropped.
unfoldable pub is_dropped : Console → (important : Bool) → Bool
is_dropped c important = not c.enabled || not c.debug_flag && not important

unfoldable pub print : Consoles → List ℕ → (important : Bool) → (attribute : ℕ) → Console → Console
print others string important attribute c =
    if is_dropped c important then c else print_on others c.type string attribute c

unfoldable pub putchar : Consoles → ℕ → (important : Bool) → (attribute : ℕ) → Console → Console
putchar others char important attribute c =
    if is_dropped c important then c else putchar_on others c.type char attribute c
