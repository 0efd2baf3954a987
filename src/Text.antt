-- ===== src/Text.antt =====
-- Common/Kernel/Libraries/String.c: Strlen, StrlenWide, Strrev and Itoa.
-- A character array is the list of its cells. A read or a write outside the array is `none`.
-- `int` indices stand as natural numbers: `End` of Strrev is -1 on an empty string, where 0 takes the
-- same branch, since the loop wants `Start < End`.
mod Arrays
pub mod Length
pub mod Reverse
pub mod Digits
use serra.Base.{
  ℕ, zero, suc, ◌+◌, ◌-◌, ◌/◌, ◌%◌, Bool, ◌||◌, Option, none, some, List, ltb, leb, ◌==◌,
  if◌then◌else◌, length, get_elem?, set, arith,
}
unfoldable pub use Arrays.{Array, ◌>>=◌, read, write}

-- The loop of Strlen and StrlenWide: `while (String[Length] != '\0') Length++`.
unfoldable pub strlen_loop : ℕ → Array → ℕ → Option ℕ
strlen_loop zero s len = none
strlen_loop (suc f) s len =
    let rest = strlen_loop f s (len + 1) in do c ← read s len; if c == 0 then some len else rest

-- An array of n cells is left after n + 1 reads.
unfoldable pub strlen : Array → Option ℕ
unfolding strlen_loop
strlen s = strlen_loop (length s + 1) s 0

-- The same loop over 16-bit cells.
unfoldable pub strlen_wide : Array → Option ℕ
unfolding strlen_loop
strlen_wide s = strlen_loop (length s + 1) s 0

-- `while (Start < End)` swaps String[Start] and String[End].
unfoldable pub strrev_loop : ℕ → Array → ℕ → ℕ → Option Array
strrev_loop zero s i j = none
strrev_loop (suc f) s i j =
    if ltb i j
    then (do
      save ← read s i
      last ← read s j
      s ← write s i last
      s ← write s j save
      strrev_loop f s (i + 1) (j - 1))
    else some s

unfoldable pub strrev : Array → Option Array
unfolding strlen strrev_loop
strrev s = do n ← strlen s; strrev_loop (n + 1) s 0 (n - 1)

-- `Reference`, "0123456789ABCDEFGHIJKLMNOPQRSTUVWXYZ"[r] for r < 36.
unfoldable pub reference : ℕ → ℕ
reference r = if ltb r 10 then b'0' + r else b'A' + (r - 10)

-- `while (Number != 0)`; the result is the array and the final `Index`.
unfoldable pub itoa_loop : ℕ → ℕ → Array → ℕ → ℕ → Option (Array × ℕ)
itoa_loop zero number buffer base index = none
itoa_loop (suc f) number buffer base index = if number == 0 then some (buffer, index) else do
  buffer ← write buffer index (reference (number % base))
  itoa_loop f (number / base) buffer base (index + 1)

-- A number below 2 ^ 64 has at most 64 digits, so 65 rounds are enough.
unfoldable pub itoa : ℕ → Array → ℕ → Option Array
itoa number buffer base =
    if ltb base 2 || ltb 36 base
    then write buffer 0 0
    else if number == 0
    then (do buffer ← write buffer 0 b'0'; write buffer 1 0)
    else do
      (buffer, index) ← itoa_loop 65 number buffer base 0
      buffer ← write buffer index 0
      strrev buffer
