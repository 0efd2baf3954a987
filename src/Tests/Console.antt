-- ===== src/Tests/Console.antt =====
-- Runs of vPrintf.
use serra.Base.{
  ltb, if◌then◌else◌, replicate, ℕ, ◌≡◌, refl, true, false, none, some, List, [], ◌∷◌, arith,
}
use serra.Console.{number, Call, print, vprintf_loop, vprintf}
use serra.Console.Spec.{Renders, Fits, Base, Takes, text_of}
use serra.Console.Renders.{has_percent, vprintf-Renders, vprintf-overflow}

-- "a%d%%c"
abbrev format : List ℕ
format = b'a' ∷ b'%' ∷ b'd' ∷ b'%' ∷ b'%' ∷ b'c' ∷ []

format-Fits : Fits format (number 42 ∷ [])
format-Fits =
    Fits.one_more (λ e. absurd (omega (arith, e)))
      (Fits.specifier (Takes.takes_number Base.decimal (omega arith)) (
        Fits.specifier Takes.percent (Fits.one_more (λ e. absurd (omega (arith, e))) Fits.no_more)))

vprintf-Renders_example :
    (calls : List Call) × (vprintf true false true format (number 42 ∷ []) ≡ some calls)
    × Renders format (number 42 ∷ []) (text_of calls)
unfolding has_percent
vprintf-Renders_example = vprintf-Renders format (number 42 ∷ []) false true refl refl format-Fits

vprintf-overflow_example :
    (vprintf true true false (b'a' ∷ b'c' ∷ []) [] ≡ none)
    × ((capacity : ℕ)
        → vprintf_loop capacity (b'a' ∷ b'c' ∷ []) [] [] (replicate 72 0)
          ≡ (if ltb 2 capacity then some (print (b'a' ∷ b'c' ∷ []) ∷ []) else none))
unfolding has_percent
vprintf-overflow_example = vprintf-overflow (b'a' ∷ b'c' ∷ []) [] true false refl refl
