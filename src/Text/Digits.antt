-- ===== src/Text/Digits.antt =====
-- Itoa (Common/Kernel/Libraries/String.c) writes the digits of a number: its result, read back in the
-- same base, is the number.
use native.Mathlib.Nat.{pow-suc, div-add-mod, add-zero}
use mathlib.Core.List.{reverse_aux, append_assoc}
use serra.Base.{
  le→ltb, false, ltb→lt, ltb→le, ap, ◌∙◌, sym, ◌*◌, ◌/◌, ◌%◌, ◌^◌, drop, ℕ, zero, suc, ◌+◌, ◌-◌,
  ◌≤◌, ◌<◌, ◌≡◌, refl, ◌≢◌, Option, some, [], ◌∷◌, ◌++◌, ltb, ◌==◌, if◌then◌else◌, reverse, length,
  get_or, length-append, get_or-reverse, length-reverse, Bool-cases, inl, inr, arith,
}
use serra.Text.{◌>>=◌, Array, write, strrev, reference, itoa_loop, itoa}
use serra.Text.Arrays.{write-set, set-append}
use serra.Text.Length.{NoNull}
use serra.Text.Reverse.{strrev-reverse}

-- The value of a digit, 0 to 9 and A to Z, which is at least 36 for any other character; and that of a
-- string of them, most significant first.
unfoldable pub digit_value : ℕ → ℕ
digit_value c =
    if ltb c b'0'
    then 36
    else if ltb c b':'
    then c - b'0'
    else if ltb c b'A'
    then 36
    else c - b'A' + 10

-- The string has digits of the base only.
abbrev pub HasDigits : ℕ → Array → Type 0
HasDigits base s = (i : ℕ) → i < length s → digit_value (get_or s i 0) < base

unfoldable pub parse_from : ℕ → ℕ → Array → ℕ
parse_from base acc [] = acc
parse_from base acc (c ∷ cs) = parse_from base (acc * base + digit_value c) cs

unfoldable pub parse : ℕ → Array → ℕ
unfolding parse_from digit_value
parse base s = parse_from base 0 s

-- The characters that the loop writes, least significant first, and their value.
digits : ℕ → ℕ → ℕ → Array
digits zero n base = []
digits (suc f) n base = if n == 0 then [] else reference (n % base) ∷ digits f (n / base) base

value : ℕ → Array → ℕ
value base [] = 0
value base (c ∷ cs) = value base cs * base + digit_value c

parse_from-reverse_aux :
    (base : ℕ) (xs ys : Array)
    → parse_from base 0 (reverse_aux xs ys) ≡ parse_from base (value base xs) ys
unfolding parse_from value
parse_from-reverse_aux base [] ys = refl
parse_from-reverse_aux base (x ∷ xs) ys = parse_from-reverse_aux base xs (x ∷ ys)

digit_value-reference : (r : ℕ) → r < 36 → digit_value (reference r) ≡ r
unfolding digit_value reference
digit_value-reference r h = ground arith

reference_ne : (r : ℕ) → r < 36 → (reference r ≢ 0) × (0 < r → reference r ≢ b'0')
unfolding reference
reference_ne r h = (ground arith, λ p. ground arith)

lt→nonzero : (n : ℕ) → 0 < n → (n == 0) ≡ false
lt→nonzero n h = ground arith

add_shift : (a b : ℕ) → a + 1 + b ≡ a + suc b
add_shift a b = omega arith

module _ (base : ℕ) (low : 2 ≤ base) (high : base ≤ 36) where
  div-lt-pow : (f n : ℕ) → n < 2 ^ suc f → n / base < 2 ^ f
  div-lt-pow f n h = grind (arith, pow-suc 2 f, div-add-mod n base)

  value-digits : (f n : ℕ) → n < 2 ^ f → value base (digits f n base) ≡ n
  unfolding value digits
  value-digits zero n h = omega arith
  value-digits (suc f) n h = grind (
    arith,
    value-digits f (n / base) (div-lt-pow f n h),
    digit_value-reference (n % base),
    div-add-mod n base,
  )

  length-digits : (f n : ℕ) → length (digits f n base) ≤ f
  unfolding digits
  length-digits zero n = omega arith
  length-digits (suc f) n = ground (arith, length-digits f (n / base))

  digits-NoNull : (f n : ℕ) → NoNull (digits f n base)
  unfolding digits
  digits-NoNull zero n i h = absurd (omega arith)
  digits-NoNull (suc f) n zero h = ground (arith, (reference_ne (n % base) (omega arith)).0)
  digits-NoNull (suc f) n (suc i) h = ground (arith, digits-NoNull f (n / base) i)

  digits-HasDigits : (f n : ℕ) → HasDigits base (digits f n base)
  unfolding digits
  digits-HasDigits zero n i h = absurd (omega arith)
  digits-HasDigits (suc f) n zero h = ground (arith, digit_value-reference (n % base) (omega arith))
  digits-HasDigits (suc f) n (suc i) h = ground (arith, digits-HasDigits f (n / base) i)

  digits_zero : (f : ℕ) → digits f 0 base ≡ []
  unfolding digits
  digits_zero zero = refl
  digits_zero (suc f) = refl

  digits_cons :
      (f n : ℕ) → 0 < n → digits (suc f) n base ≡ reference (n % base) ∷ digits f (n / base) base
  unfolding digits
  digits_cons f n h = ground arith

  last_cons :
      (c : ℕ) (cs : Array)
      → (0 < length cs → get_or cs (length cs - 1) 0 ≢ b'0')
      → (length cs ≡ 0 → c ≢ b'0')
      → get_or (c ∷ cs) (length (c ∷ cs) - 1) 0 ≢ b'0'
  last_cons c [] h k = k refl
  last_cons c (d ∷ cs) h k = ground (arith, h)

  digits_pos : (f n : ℕ) → 0 < n → n < 2 ^ f → 0 < length (digits f n base)
  digits_pos zero n p q = absurd (omega arith)
  digits_pos (suc f) n p q = rw (digits_cons f n p) (omega arith)

  -- The digit written last, which comes first in the string, is not zero.
  digits_top :
      (f n : ℕ)
      → 0 < n
      → n < 2 ^ f
      → get_or (digits f n base) (length (digits f n base) - 1) 0 ≢ b'0'
  digits_top zero n p q = absurd (omega arith)
  digits_top (suc f) n p q = rw (digits_cons f n p) (
      let h = div-lt-pow f n q in
      last_cons (reference (n % base)) (digits f (n / base) base)
        (λ k. elim (Bool-cases (ltb 0 (n / base))) [
          | inl more ↦ digits_top f (n / base) (ltb→lt 0 (n / base) more) h
          | inr done ↦
              let e : n / base ≡ 0 = omega (arith, ltb→le 0 (n / base) done) in
              absurd (omega (arith, k, ap length (ap (λ m. digits f m base) e ∙ digits_zero f)))
        ])
        (λ k. elim (Bool-cases (ltb 0 (n / base))) [
          | inl more ↦
              absurd (omega (arith, k, digits_pos f (n / base) (ltb→lt 0 (n / base) more) h))
          | inr done ↦
              let e : n % base ≡ n = grind (arith, ltb→le 0 (n / base) done, div-add-mod n base) in
              (reference_ne (n % base) (omega arith)).1 (omega arith)
        ]))

  itoa_loop_round :
      (f n : ℕ) (pre : Array) (x : ℕ) (junk : Array)
      → (n == 0) ≡ false
      → itoa_loop (suc f) n (pre ++ x ∷ junk) base (length pre)
        ≡ itoa_loop f
            (n / base)
            ((pre ++ reference (n % base) ∷ []) ++ junk)
            base
            (length (pre ++ reference (n % base) ∷ []))
  unfolding itoa_loop
  itoa_loop_round f n pre x junk more =
      let d = reference (n % base) in
      let e : length (pre ++ d ∷ []) ≡ length pre + 1 = length-append pre (d ∷ []) in
      rw (
        more,
        write-set (pre ++ x ∷ junk) (length pre) d (omega (arith, length-append pre (x ∷ junk))),
        set-append pre x d junk,
        e,
        append_assoc pre (d ∷ []) junk,
      )

  abbrev written : (f n : ℕ) (pre junk : Array) → Option (Array × ℕ)
  written f n pre junk =
      let ds = digits f n base in
      some (pre ++ (ds ++ drop (length ds) junk), length pre + length ds)

  itoa_loop-digits :
      (f n : ℕ) (pre junk : Array)
      → n < 2 ^ f
      → f ≤ length junk
      → itoa_loop (suc f) n (pre ++ junk) base (length pre) ≡ written f n pre junk
  unfolding itoa_loop digits
  itoa_loop-digits zero zero pre junk p q = cc (add-zero (length pre))
  itoa_loop-digits zero (suc n) pre junk p q = absurd (omega arith)
  itoa_loop-digits (suc f) n pre [] p q = absurd (omega arith)
  itoa_loop-digits (suc f) n pre (x ∷ junk) p q = elim (Bool-cases (n == 0)) [
    | inl done ↦ rw done (cc (add-zero (length pre)))
    | inr more ↦
        let d = reference (n % base) in
        let ds = digits f (n / base) base in
        itoa_loop_round (suc f) n pre x junk more
        ∙ itoa_loop-digits f (n / base) (pre ++ d ∷ []) junk (div-lt-pow f n p) (omega arith)
        ∙ rw more (
            cc (
              append_assoc pre (d ∷ []) (ds ++ drop (length ds) junk),
              length-append pre (d ∷ []),
              add_shift (length pre) (length ds),
            ))
  ]

-- The string that stands at the start of the array: digits of the base, with no null character before its
-- terminator.
pub record IsNumeral (number base : ℕ) (t s : Array) : Type 0 where
  pub terminated : (rest : Array) × (t ≡ s ++ 0 ∷ rest)
  pub no_null : NoNull s
  pub short : (0 < length s) × (length s ≤ 64)
  pub all_digits : HasDigits base s
  pub parses : parse base s ≡ number
  pub canonical : 0 < number → get_or s 0 0 ≢ b'0'

NoNull-reverse : (s : Array) → NoNull s → NoNull (reverse s)
NoNull-reverse s ok i h =
    ground (arith, length-reverse s, get_or-reverse s i 0, ok (length s - 1 - i))

HasDigits-reverse : (base : ℕ) (s : Array) → HasDigits base s → HasDigits base (reverse s)
HasDigits-reverse base s ok i h =
    let place = get_or-reverse s i 0 (omega (arith, length-reverse s)) in
    rw place (ok (length s - 1 - i) (omega (arith, length-reverse s)))

length-drop : (n : ℕ) (xs : Array) → n ≤ length xs → n + length (drop n xs) ≡ length xs
length-drop zero xs h = omega arith
length-drop (suc n) [] h = absurd (omega arith)
length-drop (suc n) (x ∷ xs) h = omega (arith, length-drop n xs (omega arith))

drop-cons : (n : ℕ) (xs : Array) → n < length xs → (x : ℕ) × (ys : Array) × (drop n xs ≡ x ∷ ys)
drop-cons n [] h = absurd (omega arith)
drop-cons zero (x ∷ xs) h = (x, xs, refl)
drop-cons (suc n) (x ∷ xs) h = drop-cons n xs (omega arith)

-- `Buffer[Index] = '\0'; return Strrev(Buffer)`.
finish_lem :
    (ds : Array) (x : ℕ) (ys : Array)
    → NoNull ds
    → (write (ds ++ x ∷ ys) (0 + length ds) 0 >>= strrev) ≡ some (reverse ds ++ 0 ∷ ys)
finish_lem ds x ys ok =
    let e : 0 + length ds ≡ length ds = omega arith in
    rw
      (
        e,
        write-set (ds ++ x ∷ ys) (length ds) 0 (omega (arith, length-append ds (x ∷ ys))),
        set-append ds x 0 ys,
      )
      (strrev-reverse ds ys ok)

itoa_zero :
    (base : ℕ) (buffer : Array)
    → 2 ≤ base
    → base ≤ 36
    → 1 < length buffer
    → (t : Array) × (s : Array) × (itoa 0 buffer base ≡ some t)
      × IsNumeral 0 base t s
      × (length t ≡ length buffer)
unfolding itoa write parse digit_value
itoa_zero base [] low high room = absurd (omega arith)
itoa_zero base (x ∷ []) low high room = absurd (omega arith)
itoa_zero base (x ∷ y ∷ rest) low high room = (
  b'0' ∷ 0 ∷ rest,
  b'0' ∷ [],
  ground arith,
  record {
    terminated = (rest, refl);
    no_null = λ i h. ground arith;
    short = (omega arith, omega arith);
    all_digits = λ i h. ground arith;
    parses = omega arith;
    canonical = λ h. absurd (omega arith);
  },
  refl,
)

module _ (number base : ℕ) (buffer : Array) (low : 2 ≤ base) (high : base ≤ 36) where
  itoa_digits :
      64 < length buffer
      → 0 < number
      → number < 2 ^ 64
      → (t : Array) × (s : Array) × (itoa number buffer base ≡ some t)
        × IsNumeral number base t s
        × (length t ≡ length buffer)
  unfolding itoa parse
  itoa_digits room pos small =
      let ds = digits 64 number base in
      let short : length ds ≤ 64 = length-digits base low high 64 number in
      let ok : NoNull ds = digits-NoNull base low high 64 number in
      let (x, ys, e) = drop-cons (length ds) buffer (omega arith) in
      let loop = itoa_loop-digits base low high 64 number [] buffer small (omega arith) in
      let some_digit = digits_pos base low high 64 number pos small in
      (
        reverse ds ++ 0 ∷ ys,
        reverse ds,
        rw (le→ltb base 2 low, le→ltb 36 base high, lt→nonzero number pos, loop, e)
            (finish_lem ds x ys ok),
        record {
          terminated = (ys, refl);
          no_null = NoNull-reverse ds ok;
          short = (omega (arith, length-reverse ds), omega (arith, length-reverse ds));
          all_digits = HasDigits-reverse base ds (digits-HasDigits base low high 64 number);
          parses = parse_from-reverse_aux base ds [] ∙ value-digits base low high 64 number small;
          canonical = λ h e'.
              digits_top base low high 64 number pos small (
                sym (get_or-reverse ds 0 0 some_digit ∙ ap (λ k. get_or ds k 0) (omega arith))
                ∙ e');
        },
        omega (
          arith,
          length-append (reverse ds) (0 ∷ ys),
          length-reverse ds,
          length-drop (length ds) buffer,
          ap length e,
        ),
      )

-- The numeral, in a buffer that keeps its length.
pub itoa_sized :
    (number base : ℕ) (buffer : Array)
    → 2 ≤ base
    → base ≤ 36
    → 64 < length buffer
    → number < 2 ^ 64
    → (t : Array) × (s : Array) × (itoa number buffer base ≡ some t)
      × IsNumeral number base t s
      × (length t ≡ length buffer)
itoa_sized zero base buffer low high room small = itoa_zero base buffer low high (omega arith)
itoa_sized (suc n) base buffer low high room small =
    itoa_digits (suc n) base buffer low high room (omega arith) small

-- For a number below 2^64, a base from 2 to 36 and a buffer of at least 65 cells, Itoa returns a
-- terminated numeral of 1 to 64 characters, all of them digits 0 to 9 and A to Z below the base,
-- that reads back as the number, with no leading zero unless the number is 0.
pub itoa-parse :
    (number base : ℕ) (buffer : Array)
    → 2 ≤ base
    → base ≤ 36
    → 64 < length buffer
    → number < 2 ^ 64
    → (t : Array) × (s : Array) × (itoa number buffer base ≡ some t) × IsNumeral number base t s
itoa-parse number base buffer low high room small =
    let (t, s, e, numeral, size) = itoa_sized number base buffer low high room small in
    (t, s, e, numeral)
