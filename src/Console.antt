-- ===== src/Console.antt =====
-- Common/Kernel/Graphics/Console/Format.c: vPrintf and Printf, as the calls of Print and Putchar they make.
pub mod Spec
pub mod Renders
pub mod Vga
pub mod Output
use serra.Base.{
  ℕ, zero, suc, ◌+◌, ◌%◌, ◌-◌, ◌<◌, Bool, true, false, not, ltb, ◌==◌, if◌then◌else◌, Option, none,
  some, List, [], ◌∷◌, ◌++◌, length, replicate,
}
use serra.Text.{Array, itoa, ◌>>=◌}

-- A variadic argument: an `int` for %c, a string for %s, an `unsigned long long` for the rest.
pub data Argument : Type 0 where
  character : ℕ → Argument
  string : List ℕ → Argument
  number : ℕ → Argument

-- A call of Putchar or of Print.
pub data Call : Type 0 where
  putchar : ℕ → Call
  print : List ℕ → Call

-- The string that stands at the start of an array.
unfoldable pub string_of : Array → List ℕ
string_of [] = []
string_of (c ∷ cs) = let rest = string_of cs in if c == 0 then [] else c ∷ rest

-- `vPrintf_FlushQueue`: the null character has to find a cell of the array of `capacity` ones.
unfoldable pub flush_queue : (capacity : ℕ) → List ℕ → Option Call
flush_queue capacity queue = if ltb (length queue) capacity then some (print queue) else none

-- `Print(Itoa(va_arg(Arguments, unsigned long long), Buffer, base), ...)`. An argument that is missing or
-- of another kind is `none`.
unfoldable pub print_number :
    (base : ℕ) → List Argument → Array → Option (List Call × List Argument × Array)
print_number base (number n ∷ args) buffer = do
  buffer ← itoa n buffer base
  some (print (string_of buffer) ∷ [], args, buffer)
print_number base args buffer = none

unfoldable pub print_string : List Argument → Array → Option (List Call × List Argument × Array)
print_string (string s ∷ args) buffer = some (print s ∷ [], args, buffer)
print_string args buffer = none

unfoldable pub print_character : List Argument → Array → Option (List Call × List Argument × Array)
print_character (character c ∷ args) buffer = some (putchar (c % 256) ∷ [], args, buffer)
print_character args buffer = none

unfoldable pub skip_argument : List Argument → Array → Option (List Call × List Argument × Array)
skip_argument (character c ∷ args) buffer = some ([], args, buffer)
skip_argument args buffer = none

-- The base of a number's format specifier, or 0.
unfoldable pub base_of : ℕ → ℕ
base_of f =
    if f == b'b'
    then 2
    else if f == b'd'
    then 10
    else if f == b'i'
    then 10
    else if f == b'x'
    then 16
    else 0

-- `switch (String[Position+1])`, without the flush that each case begins with.
unfoldable pub convert :
    (specifier : ℕ) → List Argument → Array → Option (List Call × List Argument × Array)
convert f args buffer =
    if f == b'c'
    then print_character args buffer
    else if f == b's'
    then print_string args buffer
    else if f == b'%'
    then some (putchar b'%' ∷ [], args, buffer)
    else if base_of f == 0
    then skip_argument args buffer
    else print_number (base_of f) args buffer

-- `while (Position <= Length)`, on the characters that are left, without the null character.
unfoldable pub vprintf_loop :
    (capacity : ℕ) → List ℕ → (queue : List ℕ) → List Argument → Array → Option (List Call)
vprintf_loop capacity [] queue args buffer = do call ← flush_queue capacity queue; some (call ∷ [])
vprintf_loop capacity (c ∷ []) queue args buffer =
    if c == b'%'
    then (do call ← flush_queue capacity queue; some (call ∷ putchar b'%' ∷ []))
    else (do call ← flush_queue capacity (queue ++ c ∷ []); some (call ∷ []))
vprintf_loop capacity (c ∷ f ∷ rest) queue args buffer =
    if c == b'%'
    then (do
      call ← flush_queue capacity queue
      (calls, args, buffer) ← convert f args buffer
      more ← vprintf_loop capacity rest [] args buffer
      some (call ∷ calls ++ more))
    else vprintf_loop capacity (f ∷ rest) (queue ++ c ∷ []) args buffer

unfoldable pub vprintf :
    (enabled debug_flag important : Bool) → List ℕ → List Argument → Option (List Call)
vprintf enabled debug_flag important format args =
    let calls = vprintf_loop (length format) format [] args (replicate 72 0) in
    if not enabled
    then some []
    else if (if debug_flag then false else not important)
    then some []
    else calls
