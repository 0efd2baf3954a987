-- ===== src/Text/Length.antt =====
-- What Strlen and StrlenWide (Common/Kernel/Libraries/String.c) return.
use serra.Base.{
  ℕ, zero, suc, ◌+◌, ◌≤◌, ◌<◌, ◌≡◌, ◌≢◌, some, ◌∷◌, ◌++◌, length, get_or, length-append,
  get_or-append, arith,
}
use serra.Text.{Array, strlen, strlen_wide, strlen_loop}
use serra.Text.Arrays.{read-get_or}

-- No cell of the array is the terminator.
abbrev pub NoNull : Array → Type 0
NoNull s = (i : ℕ) → i < length s → get_or s i 0 ≢ 0

-- From `len` on, with no terminator before `n`, the loop ends at `n`.
strlen_loop-first :
    (f : ℕ) (s : Array) (len n : ℕ)
    → n < length s
    → get_or s n 0 ≡ 0
    → ((i : ℕ) → i < n → get_or s i 0 ≢ 0)
    → len ≤ n
    → n < len + f
    → strlen_loop f s len ≡ some n
unfolding strlen_loop
strlen_loop-first zero s len n inside null before low fuel = absurd (omega arith)
strlen_loop-first (suc f) s len n inside null before low fuel =
    ground
      (arith, read-get_or s len, before len, strlen_loop-first f s (len + 1) n inside null before)

-- Both lengths of a terminated array, of 8-bit cells (Strlen) or 16-bit cells (StrlenWide), are the
-- number of its characters before the first null character.
pub strlens-append :
    (xs rest : Array)
    → NoNull xs
    → (strlen (xs ++ 0 ∷ rest) ≡ some (length xs))
      × (strlen_wide (xs ++ 0 ∷ rest) ≡ some (length xs))
unfolding strlen strlen_wide
strlens-append xs rest ok =
    let first =
      strlen_loop-first (length (xs ++ 0 ∷ rest) + 1) (xs ++ 0 ∷ rest) 0 (length xs)
        (omega (arith, length-append xs (0 ∷ rest)))
        (ground (arith, get_or-append xs (0 ∷ rest) (length xs) 0))
        (λ i h. ground (arith, ok i, get_or-append xs (0 ∷ rest) i 0)) (omega arith)
        (omega (arith, length-append xs (0 ∷ rest))) in
    (first, first)

pub strlen-append : (xs rest : Array) → NoNull xs → strlen (xs ++ 0 ∷ rest) ≡ some (length xs)
strlen-append xs rest ok = (strlens-append xs rest ok).0
