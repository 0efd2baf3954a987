-- ===== src/Tests/Text.antt =====
-- Runs of the string functions.
use serra.Base.{zero, suc, ◌≡◌, refl, some, none, [], ◌∷◌, replicate, arith}
use serra.Text.{Array, itoa_loop, write, itoa}
use serra.Text.Length.{NoNull}
use serra.Text.Digits.{IsNumeral, itoa-parse}

abbrev word : Array
word = 69 ∷ 70 ∷ 73 ∷ []

word-NoNull : NoNull word
word-NoNull zero h = ground arith
word-NoNull (suc zero) h = ground arith
word-NoNull (suc (suc zero)) h = ground arith
word-NoNull (suc (suc (suc i))) h = absurd (omega arith)

abbrev blank : Array
blank = replicate 65 1

itoa-parse_example :
    (t : Array) × (s : Array) × (itoa 0xbeef blank 16 ≡ some t) × IsNumeral 0xbeef 16 t s
itoa-parse_example =
    itoa-parse 0xbeef 16 blank (omega arith) (omega arith) (omega arith) (omega arith)

-- A buffer that is too small is a write outside the array.
itoa_short : itoa 255 (1 ∷ 1 ∷ []) 16 ≡ none
unfolding itoa itoa_loop write
itoa_short = refl
