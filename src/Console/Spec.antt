-- ===== src/Console/Spec.antt =====
-- What a format string of vPrintf (Common/Kernel/Graphics/Console/Format.c) stands for.
use serra.Base.{ℕ, ◌^◌, ◌%◌, ◌<◌, ◌≢◌, List, [], ◌∷◌, ◌++◌}
use serra.Text.{Array}
use serra.Text.Digits.{IsNumeral}
use serra.Console.{Argument, character, string, number, Call, putchar, print}

-- The bases of the format specifiers.
pub data Base : ℕ → ℕ → Type 0 where
  binary : Base b'b' 2
  decimal : Base b'd' 10
  integer : Base b'i' 10
  hexadecimal : Base b'x' 16

-- A character that is no format specifier.
pub record IsUnknown (f : ℕ) : Type 0 where
  pub no_character : f ≢ b'c'
  pub no_string : f ≢ b's'
  pub no_percent : f ≢ b'%'
  pub no_binary : f ≢ b'b'
  pub no_decimal : f ≢ b'd'
  pub no_integer : f ≢ b'i'
  pub no_hexadecimal : f ≢ b'x'

-- What a format specifier puts on the screen, a character as the byte that is left of the `int`, with the arguments before and after it. An unknown one takes
-- an argument and shows nothing.
pub data Item : ℕ → List Argument → List Argument → List ℕ → Type 0 where
  a_percent : {args : List Argument} → Item b'%' args args (b'%' ∷ [])
  a_character : {c : ℕ} {args : List Argument} → Item b'c' (character c ∷ args) args (c % 256 ∷ [])
  a_string : {s : List ℕ} {args : List Argument} → Item b's' (string s ∷ args) args s
  a_number :
      {f base n : ℕ} {args : List Argument} {t s : Array}
      → Base f base
      → IsNumeral n base t s
      → Item f (number n ∷ args) args s
  nothing : {f c : ℕ} {args : List Argument} → IsUnknown f → Item f (character c ∷ args) args []

-- The text that a format stands for, with its arguments. A `%` at the end stands for itself.
pub data Renders : List ℕ → List Argument → List ℕ → Type 0 where
  finished : {args : List Argument} → Renders [] args []
  plain :
      {c : ℕ} {format : List ℕ} {args : List Argument} {out : List ℕ}
      → c ≢ b'%'
      → Renders format args out
      → Renders (c ∷ format) args (c ∷ out)
  last_percent : {args : List Argument} → Renders (b'%' ∷ []) args (b'%' ∷ [])
  item :
      {f : ℕ} {format : List ℕ} {args args' : List Argument} {x out : List ℕ}
      → Item f args args' x
      → Renders format args' out
      → Renders (b'%' ∷ f ∷ format) args (x ++ out)

-- The arguments fit a format specifier.
pub data Takes : ℕ → List Argument → List Argument → Type 0 where
  percent : {args : List Argument} → Takes b'%' args args
  takes_character : {c : ℕ} {args : List Argument} → Takes b'c' (character c ∷ args) args
  takes_string : {s : List ℕ} {args : List Argument} → Takes b's' (string s ∷ args) args
  takes_number :
      {f base n : ℕ} {args : List Argument}
      → Base f base
      → n < 2 ^ 64
      → Takes f (number n ∷ args) args
  skips : {f c : ℕ} {args : List Argument} → IsUnknown f → Takes f (character c ∷ args) args

-- The arguments fit a format.
pub data Fits : List ℕ → List Argument → Type 0 where
  no_more : {args : List Argument} → Fits [] args
  one_more :
      {c : ℕ} {format : List ℕ} {args : List Argument}
      → c ≢ b'%'
      → Fits format args
      → Fits (c ∷ format) args
  percent_end : {args : List Argument} → Fits (b'%' ∷ []) args
  specifier :
      {f : ℕ} {format : List ℕ} {args args' : List Argument}
      → Takes f args args'
      → Fits format args'
      → Fits (b'%' ∷ f ∷ format) args

-- The text of the calls.
unfoldable pub text_of : List Call → List ℕ
text_of [] = []
text_of (putchar c ∷ calls) = c ∷ text_of calls
text_of (print s ∷ calls) = s ++ text_of calls
