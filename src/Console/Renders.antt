-- ===== src/Console/Renders.antt =====
-- What vPrintf (Common/Kernel/Graphics/Console/Format.c) puts on the screen.
use serra.Base.{
  ℕ, suc, ◌+◌, ◌%◌, ◌≤◌, ◌<◌, ◌≡◌, ◌≢◌, ◌⊎◌, inl, inr, refl, sym, ap, ◌∙◌, Bool, true, false, not,
  ltb, ◌==◌, if◌then◌else◌, none, some, List, [], ◌∷◌, ◌++◌, length, replicate, arith, lt→ltb,
  Bool-cases, length-append,
}
use mathlib.Core.Path.{subst}
use mathlib.Core.List.{append-nil, append_assoc}
use serra.Text.{Array, itoa}
use serra.Text.Length.{NoNull}
use serra.Text.Digits.{IsNumeral, itoa_sized}
use serra.Console.{
  Argument, character, string, number, Call, putchar, print, string_of, flush_queue, print_number,
  print_string, print_character, skip_argument, base_of, convert, vprintf_loop, vprintf,
}
use serra.Console.Spec.{
  IsUnknown, Base, binary, decimal, integer, hexadecimal, Item, a_percent, a_character, a_string,
  a_number, nothing, Renders, finished, plain, last_percent, item, Takes, percent, takes_character,
  takes_string, takes_number, skips, Fits, no_more, one_more, percent_end, specifier, text_of,
}

string_of-NoNull : (s rest : List ℕ) → NoNull s → string_of (s ++ 0 ∷ rest) ≡ s
unfolding string_of
string_of-NoNull [] rest ok = refl
string_of-NoNull (c ∷ s) rest ok =
    let here : c == 0 ≡ false = ground (arith, ok 0) in
    rw here (ap (λ (t : List ℕ). c ∷ t) (string_of-NoNull s rest (λ i h. ok (suc i) (omega arith))))

Base-bounds : {f base : ℕ} → Base f base → (2 ≤ base) × (base ≤ 36)
Base-bounds binary = (omega arith, omega arith)
Base-bounds decimal = (omega arith, omega arith)
Base-bounds integer = (omega arith, omega arith)
Base-bounds hexadecimal = (omega arith, omega arith)

convert-number :
    {f base : ℕ} (n : ℕ) (args : List Argument) (buffer : Array)
    → Base f base
    → convert f (number n ∷ args) buffer ≡ print_number base (number n ∷ args) buffer
unfolding convert base_of
convert-number n args buffer binary = refl
convert-number n args buffer decimal = refl
convert-number n args buffer integer = refl
convert-number n args buffer hexadecimal = refl

-- The calls of a format specifier.
Converted : ℕ → List Argument → List Argument → Array → Type 0
Converted f args args' buffer =
    (calls : List Call) × (buffer' : Array) × (convert f args buffer ≡ some (calls, args', buffer'))
    × (64 < length buffer')
    × Item f args args' (text_of calls)

print_number-itoa :
    (base n : ℕ) (args : List Argument) (buffer t : Array)
    → itoa n buffer base ≡ some t
    → print_number base (number n ∷ args) buffer ≡ some (print (string_of t) ∷ [], args, t)
unfolding print_number
print_number-itoa base n args buffer t e = rw e refl

string_of-numeral : (n base : ℕ) (t s : Array) → IsNumeral n base t s → string_of t ≡ s
string_of-numeral n base t s numeral =
    let (rest, e) = numeral.terminated in ap string_of e ∙ string_of-NoNull s rest numeral.no_null

other : (f g : ℕ) → f ≢ g → (f == g) ≡ false
other f g h = ground (arith, h)

convert-skip :
    (f c : ℕ) (args : List Argument) (buffer : Array)
    → IsUnknown f
    → convert f (character c ∷ args) buffer ≡ some ([], args, buffer)
unfolding convert skip_argument base_of
convert-skip f c args buffer u =
    rw
      (
        other f b'c' u.no_character,
        other f b's' u.no_string,
        other f b'%' u.no_percent,
        other f b'b' u.no_binary,
        other f b'd' u.no_decimal,
        other f b'i' u.no_integer,
        other f b'x' u.no_hexadecimal,
      )
      refl

convert-Takes :
    {f : ℕ} {args args' : List Argument} (buffer : Array)
    → Takes f args args'
    → 64 < length buffer
    → Converted f args args' buffer
unfolding Converted convert base_of text_of print_character print_string skip_argument
convert-Takes {args = args} buffer percent room = (putchar b'%' ∷ [], buffer, refl, room, a_percent)
convert-Takes buffer (takes_character {c = c}) room =
    (putchar (c % 256) ∷ [], buffer, refl, room, a_character)
convert-Takes {args' = args} buffer (takes_string {s = s}) room = (
  print s ∷ [],
  buffer,
  refl,
  room,
  subst (Item b's' (string s ∷ args) args) (sym (append-nil s)) a_string,
)
convert-Takes buffer (takes_number {f} {base} {n} {args} b small) room =
    let (low, high) = Base-bounds b in
    let (t, s, e, numeral, size) = itoa_sized n base buffer low high room small in
    (
      print (string_of t) ∷ [],
      t,
      convert-number n args buffer b ∙ print_number-itoa base n args buffer t e,
      omega (arith, size),
      subst (Item f (number n ∷ args) args)
          (sym (append-nil (string_of t) ∙ string_of-numeral n base t s numeral))
          (a_number b numeral),
    )
convert-Takes buffer (skips {f} {c} {args} u) room =
    ([], buffer, convert-skip f c args buffer u, room, nothing u)

-- A flush finds a cell for the null character.
flush_queue-print :
    (capacity : ℕ) (queue : List ℕ)
    → length queue < capacity
    → flush_queue capacity queue ≡ some (print queue)
unfolding flush_queue
flush_queue-print capacity queue h = let e = lt→ltb (length queue) capacity h in rw e refl

-- Is there a `%`?
unfoldable pub has_percent : List ℕ → Bool
has_percent [] = false
has_percent (c ∷ cs) = let rest = has_percent cs in if c == b'%' then true else rest

vprintf_loop-plain :
    (capacity c : ℕ) (format queue : List ℕ) (args : List Argument) (buffer : Array)
    → c ≢ b'%'
    → vprintf_loop capacity (c ∷ format) queue args buffer
      ≡ vprintf_loop capacity format (queue ++ c ∷ []) args buffer
unfolding vprintf_loop
vprintf_loop-plain capacity c [] queue args buffer h =
    let e : c == b'%' ≡ false = ground (arith, h) in rw e refl
vprintf_loop-plain capacity c (f ∷ format) queue args buffer h =
    let e : c == b'%' ≡ false = ground (arith, h) in rw e refl

Ran : (capacity : ℕ) → List ℕ → (queue : List ℕ) → List Argument → Array → Type 0
Ran capacity format queue args buffer =
    (calls : List Call) × (out : List ℕ) × (vprintf_loop capacity format queue args buffer
      ≡ some calls)
    × (text_of calls ≡ queue ++ out)
    × Renders format args out

text_of-append : (xs ys : List Call) → text_of (xs ++ ys) ≡ text_of xs ++ text_of ys
unfolding text_of
text_of-append [] ys = refl
text_of-append (putchar c ∷ xs) ys = ap (λ (t : List ℕ). c ∷ t) (text_of-append xs ys)
text_of-append (print s ∷ xs) ys =
    ap (λ (t : List ℕ). s ++ t) (text_of-append xs ys)
    ∙ sym (append_assoc s (text_of xs) (text_of ys))

-- Room for the queue of a format of which `n` characters are left.
Room : ℕ → ℕ → List ℕ → Type 0
Room capacity n format =
    (n + length format ≤ capacity) × ((has_percent format ≡ true) ⊎ (n + length format < capacity))

Room-nil : (capacity n : ℕ) → Room capacity n [] → n < capacity
unfolding Room has_percent
Room-nil capacity n (le, inl h) = absurd (ground arith)
Room-nil capacity n (le, inr h) = omega (arith, h)

Room-plain :
    (capacity c : ℕ) (queue format : List ℕ)
    → c ≢ b'%'
    → Room capacity (length queue) (c ∷ format)
    → Room capacity (length (queue ++ c ∷ [])) format
unfolding Room has_percent
Room-plain capacity c queue format p (le, inl h) =
    (omega (arith, le, length-append queue (c ∷ [])), inl (ground (arith, p, h)))
Room-plain capacity c queue format p (le, inr h) = (
  omega (arith, le, length-append queue (c ∷ [])),
  inr (omega (arith, h, length-append queue (c ∷ []))),
)

vprintf_loop-Ran :
    (capacity : ℕ) (format : List ℕ) (queue : List ℕ) (args : List Argument) (buffer : Array)
    → Fits format args
    → 64 < length buffer
    → Room capacity (length queue) format
    → Ran capacity format queue args buffer
unfolding vprintf_loop Ran Room text_of Converted
vprintf_loop-Ran capacity format queue args buffer no_more room r =
    let flush = flush_queue-print capacity queue (Room-nil capacity (length queue) r) in
    (print queue ∷ [], [], rw flush refl, refl, finished)
vprintf_loop-Ran capacity format queue args buffer (one_more {c} {format = rest} p fits) room r =
    let (calls, out, e, t, renders) =
      vprintf_loop-Ran capacity rest (queue ++ c ∷ []) args buffer fits room
        (Room-plain capacity c queue rest p r) in
    (
      calls,
      c ∷ out,
      vprintf_loop-plain capacity c rest queue args buffer p ∙ e,
      t ∙ append_assoc queue (c ∷ []) out,
      plain p renders,
    )
vprintf_loop-Ran capacity format queue args buffer percent_end room (le, h) =
    let flush = flush_queue-print capacity queue (omega (arith, le)) in
    (print queue ∷ putchar b'%' ∷ [], b'%' ∷ [], rw flush refl, refl, last_percent)
vprintf_loop-Ran capacity format queue args buffer
      (specifier {f} {format = rest} {args' = args'} takes fits) room (le, h) =
    let flush = flush_queue-print capacity queue (omega (arith, le)) in
    let (calls, buffer', ce, room', it) = convert-Takes buffer takes room in
    let (more, out, e, t, renders) =
      vprintf_loop-Ran capacity rest [] args' buffer' fits room'
        (omega (arith, le), inr (omega (arith, le))) in
    (
      print queue ∷ calls ++ more,
      text_of calls ++ out,
      rw (flush, ce, e) refl,
      ap (λ (x : List ℕ). queue ++ x)
          (text_of-append calls more ∙ ap (λ (x : List ℕ). text_of calls ++ x) t),
      item it renders,
    )

Ran-vprintf :
    (format : List ℕ) (args : List Argument) (debug_flag important : Bool)
    → (if debug_flag then false else not important) ≡ false
    → Ran (length format) format [] args (replicate 72 0)
    → (calls : List Call) × (vprintf true debug_flag important format args ≡ some calls)
      × Renders format args (text_of calls)
unfolding vprintf Ran
Ran-vprintf format args debug_flag important shown (calls, out, e, t, r) =
    (calls, rw shown e, subst (Renders format args) (sym t) r)

-- With the console enabled, a message that is shown, a format with at least one `%`, and arguments that fit
-- it, vPrintf stays in its arrays, and the text that its calls of Print and Putchar put on the screen is one
-- that the format stands for: each specifier replaced by its argument, a number by its numeral.
pub vprintf-Renders :
    (format : List ℕ) (args : List Argument) (debug_flag important : Bool)
    → (if debug_flag then false else not important) ≡ false
    → has_percent format ≡ true
    → Fits format args
    → (calls : List Call) × (vprintf true debug_flag important format args ≡ some calls)
      × Renders format args (text_of calls)
unfolding Room
vprintf-Renders format args debug_flag important shown some_percent fits =
    Ran-vprintf format args debug_flag important shown (
      vprintf_loop-Ran (length format) format [] args (replicate 72 0) fits (omega arith)
        (omega arith, inl some_percent))

-- A format without specifiers, behind what stands in a queue of any number of cells.
vprintf_loop-text :
    (capacity : ℕ) (format queue : List ℕ) (args : List Argument) (buffer : Array)
    → has_percent format ≡ false
    → vprintf_loop capacity format queue args buffer ≡ (
        if ltb (length queue + length format) capacity
        then some (print (queue ++ format) ∷ [])
        else none)
unfolding has_percent vprintf_loop flush_queue
vprintf_loop-text capacity [] queue args buffer plain_text =
    let whole : length queue + 0 ≡ length queue = omega arith in
    rw (whole, append-nil queue)
      (elim (Bool-cases (ltb (length queue) capacity)) [
        | inl room ↦ rw room refl
        | inr full ↦ rw full refl
      ])
vprintf_loop-text capacity (c ∷ rest) queue args buffer plain_text =
    let other : c ≢ b'%' = λ e. ground (arith, plain_text) in
    let plain_rest : has_percent rest ≡ false = ground (arith, plain_text) in
    let longer : length (queue ++ c ∷ []) + length rest ≡ length queue + length (c ∷ rest) =
      omega (arith, length-append queue (c ∷ [])) in
    vprintf_loop-plain capacity c rest queue args buffer other
    ∙ vprintf_loop-text capacity rest (queue ++ c ∷ []) args buffer plain_rest
    ∙ rw (longer, append_assoc queue (c ∷ []) rest) refl

-- With the console enabled and a message that is shown, vPrintf of a format without any % writes
-- outside its queue, whatever the arguments; and its loop on such a format, with a queue of any
-- number of cells, prints exactly the format if there are more cells than characters, and writes
-- outside if there are not: the cell that is missing is that of the null character.
pub vprintf-overflow :
    (format : List ℕ) (args : List Argument) (debug_flag important : Bool)
    → (if debug_flag then false else not important) ≡ false
    → has_percent format ≡ false
    → (vprintf true debug_flag important format args ≡ none)
      × ((capacity : ℕ)
          → vprintf_loop capacity format [] args (replicate 72 0)
            ≡ (if ltb (length format) capacity then some (print format ∷ []) else none))
unfolding vprintf
vprintf-overflow format args debug_flag important shown plain_text =
    let zero_length : 0 + length format ≡ length format = omega arith in
    let loop = λ (capacity : ℕ).
      vprintf_loop-text capacity format [] args (replicate 72 0) plain_text
      ∙ ap (λ (n : ℕ). if ltb n capacity then some (print format ∷ []) else none) zero_length in
    let full : ltb (length format) (length format) ≡ false = ground arith in
    (rw shown (loop (length format) ∙ rw full refl), loop)
