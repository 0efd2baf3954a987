-- ===== src/Text/Arrays.antt =====
-- Arrays of cells, and reads and writes that fail out of bounds.
use serra.Base.{
  ℕ, zero, suc, ◌<◌, ◌≡◌, refl, ap, Option, none, some, List, [], ◌∷◌, ◌++◌, ltb, if◌then◌else◌,
  length, get_elem?, get_or, set, arith,
}

abbrev pub Array : Type 0
Array = List ℕ

infixl 5 ◌>>=◌
abbrev pub ◌>>=◌ {ℓ κ} : {A : Type ℓ} {B : Type κ} → Option A → (A → Option B) → Option B
none >>= f = none
some a >>= f = f a

abbrev pub read : Array → ℕ → Option ℕ
read s i = get_elem? s i

unfoldable pub write : Array → ℕ → ℕ → Option Array
write s i v = if ltb i (length s) then some (set s i v) else none

pub read-get_or : (s : Array) (i : ℕ) → i < length s → read s i ≡ some (get_or s i 0)
read-get_or [] i h = absurd (omega arith)
read-get_or (x ∷ s) zero h = refl
read-get_or (x ∷ s) (suc i) h = read-get_or s i (omega arith)

pub write-set : (s : Array) (i v : ℕ) → i < length s → write s i v ≡ some (set s i v)
unfolding write
write-set s i v h = ground arith

-- A write just behind a prefix.
pub set-append :
    (pre : Array) (x v : ℕ) (post : Array) → set (pre ++ x ∷ post) (length pre) v ≡ pre ++ v ∷ post
set-append [] x v post = refl
set-append (y ∷ pre) x v post = ap (λ t. y ∷ t) (set-append pre x v post)
