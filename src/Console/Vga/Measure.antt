-- ===== src/Console/Vga/Measure.antt =====
-- The first loop of Print_Vga, on lines that fit (Common/Kernel/Graphics/Console/Vga/Vga.c).
use serra.Base.{
  ℕ, suc, ◌+◌, ◌*◌, ◌≤◌, ◌<◌, ◌≡◌, refl, ◌∙◌, ◌⊎◌, Bool, true, false, List, [], ◌∷◌, ltb, leb, ◌==◌,
  length, arith, Bool-cases, inl, inr, ltb→lt, le→ltb, if◌then◌else◌, ◌||◌,
}
use serra.Console.Vga.{newline, carriage_return, advance, measure}

-- The newlines of a string.
unfoldable pub newlines : List ℕ → ℕ
newlines [] = 0
newlines (c ∷ string) = (if c == newline then 1 else 0) + newlines string

-- No line of the string, of which the first begins in column `x`, reaches the last column.
unfoldable pub fits : (limit_x x : ℕ) → List ℕ → Bool
fits limit_x x [] = true
fits limit_x x (c ∷ string) =
    let rest = fits limit_x (if c == newline || c == carriage_return then 0 else x + 1) string in
    if c == newline || c == carriage_return
    then rest
    else if ltb (x + 1) limit_x
    then rest
    else false

-- The three kinds of a character.
pub data Kind (limit_x x y : ℕ) (c : ℕ) (string : List ℕ) : Type 0 where
  feeds :
      (c == newline) ≡ true
      → (c == newline || c == carriage_return) ≡ true
      → advance c x y ≡ (0, y + 1)
      → fits limit_x 0 string ≡ true
      → newlines (c ∷ string) ≡ suc (newlines string)
      → Kind limit_x x y c string
  returns :
      (c == newline || c == carriage_return) ≡ true
      → advance c x y ≡ (0, y)
      → fits limit_x 0 string ≡ true
      → newlines (c ∷ string) ≡ newlines string
      → Kind limit_x x y c string
  shows :
      (c == newline || c == carriage_return) ≡ false
      → advance c x y ≡ (x + 1, y)
      → x + 1 < limit_x
      → fits limit_x (x + 1) string ≡ true
      → newlines (c ∷ string) ≡ newlines string
      → Kind limit_x x y c string

pub special_or_shown :
    (limit_x x y c : ℕ) (string : List ℕ)
    → fits limit_x x (c ∷ string) ≡ true
    → Kind limit_x x y c string
unfolding fits advance newlines
special_or_shown limit_x x y c string ok = elim (Bool-cases (c == newline)) [
  | inl feed ↦ feeds feed (rw feed) (rw feed) (rw feed at ok) (rw feed (omega arith))
  | inr other ↦ elim (Bool-cases (c == carriage_return)) [
    | inl return ↦
        returns (rw (other, return)) (rw (other, return)) (rw (other, return) at ok)
          (rw other (omega arith))
    | inr plain ↦ elim (Bool-cases (ltb (x + 1) limit_x)) [
      | inl room ↦
          shows (rw (other, plain)) (rw (other, plain)) (ltb→lt _ _ room)
            (rw (other, plain, room) at ok) (rw other (omega arith))
      | inr full ↦ cc (rw (other, plain, full) at ok)
    ]
  ]
]

same_pair : (a b c d : ℕ) → a ≡ c → b ≡ d → ◌≡◌ {A = ℕ × ℕ} (a, b) (c, d)
same_pair a b c d p q = cc

measure_none :
    (limit_x limit_y index x y : ℕ)
    → measure limit_x limit_y [] index x y (y + 1) ≡ (index + length {A = ℕ} [], y + newlines [])
unfolding measure newlines
measure_none limit_x limit_y index x y = same_pair _ _ _ _ (omega arith) (omega arith)

measure_step :
    (limit_x limit_y c index x y x1 y1 : ℕ) (string : List ℕ)
    → advance c x y ≡ (x1, y1)
    → x1 ≤ limit_x
    → (y1 ≡ y) ⊎ (y1 ≡ y + 1)
    → y1 + 1 < limit_y * 2
    → measure limit_x limit_y (c ∷ string) index x y (y + 1)
      ≡ measure limit_x limit_y string (index + 1) x1 y1 (y1 + 1)
unfolding measure
measure_step limit_x limit_y c index x y x1 y1 string e low (inl same) few =
    let inside : ltb limit_x x1 ≡ false = le→ltb limit_x x1 low in
    let before : leb (y + 1) y1 ≡ false = ground arith in
    let enough : leb (limit_y * 2) (y1 + 1) ≡ false = ground arith in
    rw (e, inside, before, ← same, enough)
measure_step limit_x limit_y c index x y x1 y1 string e low (inr next) few =
    let inside : ltb limit_x x1 ≡ false = le→ltb limit_x x1 low in
    let after : leb (y + 1) y1 ≡ true = ground arith in
    let enough : leb (limit_y * 2) (y1 + 1) ≡ false = ground arith in rw (e, inside, after, enough)

pub measure_fits :
    (limit_x limit_y : ℕ) (string : List ℕ) (index x y : ℕ)
    → fits limit_x x string ≡ true
    → y + newlines string + 1 < limit_y * 2
    → measure limit_x limit_y string index x y (y + 1)
      ≡ (index + length string, y + newlines string)
measure_fits limit_x limit_y [] index x y ok few = measure_none limit_x limit_y index x y
measure_fits limit_x limit_y (c ∷ string) index x y ok few =
    elim (special_or_shown limit_x x y c string ok) [
      | feeds _ _ e rest lines ↦
          measure_step limit_x limit_y c index x y 0 (y + 1) string e (omega arith) (inr refl)
            (omega (arith, lines))
          ∙ measure_fits limit_x limit_y string (index + 1) 0 (y + 1) rest (omega (arith, lines))
          ∙ same_pair _ _ _ _ (omega arith) (omega (arith, lines))
      | returns _ e rest lines ↦
          measure_step limit_x limit_y c index x y 0 y string e (omega arith) (inl refl)
            (omega (arith, lines))
          ∙ measure_fits limit_x limit_y string (index + 1) 0 y rest (omega (arith, lines))
          ∙ same_pair _ _ _ _ (omega arith) (omega (arith, lines))
      | shows _ e room rest lines ↦
          measure_step limit_x limit_y c index x y (x + 1) y string e (omega arith) (inl refl)
            (omega (arith, lines))
          ∙ measure_fits limit_x limit_y string (index + 1) (x + 1) y rest (omega (arith, lines))
          ∙ same_pair _ _ _ _ (omega arith) (omega (arith, lines))
    ]
