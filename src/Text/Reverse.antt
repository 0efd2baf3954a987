-- ===== src/Text/Reverse.antt =====
-- Strrev (Common/Kernel/Libraries/String.c) reverses the string in place.
use serra.Base.{
  ltb→lt, ltb→le, ap, ◌∙◌, ◌==◌, ℕ, zero, suc, ◌+◌, ◌-◌, ◌≤◌, ◌<◌, ◌≡◌, refl, some, [], ◌∷◌, ◌++◌,
  ltb, leb, ◌&&◌, if◌then◌else◌, reverse, length, get_or, set, length-append, length-set,
  get_or-set_self, get_or-set_ne, get_or-append, get_or-reverse, length-reverse, eq_of_reads,
  Bool-cases, inl, inr, arith,
}
use serra.Text.{Array, strrev, strrev_loop}
use serra.Text.Arrays.{read-get_or, write-set}
use serra.Text.Length.{NoNull, strlen-append}

-- One round, on an array that has both cells.
abbrev swapped : Array → ℕ → ℕ → Array
swapped s i j = set (set s i (get_or s j 0)) j (get_or s i 0)

length-swapped : (s : Array) (i j : ℕ) → length (swapped s i j) ≡ length s
length-swapped s i j =
    omega
      (arith, length-set (set s i (get_or s j 0)) j (get_or s i 0), length-set s i (get_or s j 0))

get_or-swapped :
    (s : Array) (i j k : ℕ)
    → i < j
    → j < length s
    → get_or (swapped s i j) k 0
      ≡ (if k == i then get_or s j 0 else if k == j then get_or s i 0 else get_or s k 0)
get_or-swapped s i j k p q =
    let a = get_or s i 0 in
    let b = get_or s j 0 in
    let t = set s i b in
    ground (
      arith,
      length-set s i b,
      get_or-set_self t j a 0,
      get_or-set_ne t j k a 0,
      get_or-set_self s i b 0,
      get_or-set_ne s i k b 0,
    )

strrev_loop_round :
    (f : ℕ) (s : Array) (i j : ℕ)
    → i < j
    → j < length s
    → strrev_loop (suc f) s i j ≡ strrev_loop f (swapped s i j) (i + 1) (j - 1)
unfolding strrev_loop
strrev_loop_round f s i j p q = ground (
  arith,
  length-set s i (get_or s j 0),
  read-get_or s i,
  read-get_or s j,
  write-set s i (get_or s j 0),
  write-set (set s i (get_or s j 0)) j (get_or s i 0),
)

-- What the loop leaves, read at `k`: the cells from `i` to `j` in reverse order.
record IsReversed (s : Array) (i j : ℕ) (t : Array) : Type 0 where
  same_length : length t ≡ length s
  reads :
      (k : ℕ) → get_or t k 0 ≡ (if leb i k && leb k j then get_or s (i + j - k) 0 else get_or s k 0)

IsReversed-round :
    (s : Array) (i j : ℕ) (t : Array)
    → i < j
    → j < length s
    → IsReversed (swapped s i j) (i + 1) (j - 1) t
    → IsReversed s i j t
IsReversed-round s i j t p q r = record {
  same_length = r.same_length ∙ length-swapped s i j;
  reads = λ k. ground (
    arith,
    r.reads k,
    get_or-swapped s i j k p q,
    get_or-swapped s i j (i + j - k) p q,
    get_or-swapped s i j (i + 1 + (j - 1) - k) p q,
  );
}

IsReversed-stop : (s : Array) (i j : ℕ) → j ≤ i → j < length s → i ≤ j + 1 → IsReversed s i j s
IsReversed-stop s i j p q r = record { same_length = refl; reads = λ k. ground arith }

strrev_loop_stop : (f : ℕ) (s : Array) (i j : ℕ) → j ≤ i → strrev_loop (suc f) s i j ≡ some s
unfolding strrev_loop
strrev_loop_stop f s i j h = ground arith

strrev_loop-IsReversed :
    (f : ℕ) (s : Array) (i j : ℕ)
    → j < length s
    → i ≤ j + 1
    → j + 1 < i + f
    → (t : Array) × (strrev_loop f s i j ≡ some t) × IsReversed s i j t
strrev_loop-IsReversed zero s i j p q r = absurd (omega arith)
strrev_loop-IsReversed (suc f) s i j p q r = elim (Bool-cases (ltb i j)) [
  | inl more ↦
      let h : i < j = ltb→lt i j more in
      let (t, e, rev) =
        strrev_loop-IsReversed f (swapped s i j) (i + 1) (j - 1)
          (omega (arith, length-swapped s i j)) (omega arith) (omega arith) in
      (t, strrev_loop_round f s i j h p ∙ e, IsReversed-round s i j t h p rev)
  | inr done ↦
      let h : j ≤ i = ltb→le i j done in
      (s, strrev_loop_stop f s i j h, IsReversed-stop s i j h p q)
]

reverse-of_IsReversed :
    (xs rest t : Array)
    → 0 < length xs
    → IsReversed (xs ++ rest) 0 (length xs - 1) t
    → t ≡ reverse xs ++ rest
reverse-of_IsReversed xs rest t pos r =
    eq_of_reads t (reverse xs ++ rest) 0
      (omega (
        arith,
        r.same_length,
        length-append xs rest,
        length-append (reverse xs) rest,
        length-reverse xs,
      ))
      (λ i h. ground (
        arith,
        r.reads i,
        length-reverse xs,
        get_or-append xs rest i 0,
        get_or-append xs rest (length xs - 1 - i) 0,
        get_or-append (reverse xs) rest i 0,
        get_or-reverse xs i 0,
      ))

-- Strrev of a terminated string reverses its characters, and leaves the terminator and what follows.
pub strrev-reverse :
    (xs rest : Array) → NoNull xs → strrev (xs ++ 0 ∷ rest) ≡ some (reverse xs ++ 0 ∷ rest)
unfolding strrev
strrev-reverse [] rest ok = rw (strlen-append [] rest ok) (strrev_loop_stop 0 _ 0 0 (omega arith))
strrev-reverse (x ∷ xs) rest ok =
    let (t, e, r) =
      strrev_loop-IsReversed (length (x ∷ xs) + 1) (x ∷ xs ++ 0 ∷ rest) 0 (length (x ∷ xs) - 1)
        (omega (arith, length-append (x ∷ xs) (0 ∷ rest))) (omega arith) (omega arith) in
    rw (strlen-append (x ∷ xs) rest ok)
      (e ∙ ap some (reverse-of_IsReversed (x ∷ xs) (0 ∷ rest) t (omega arith) r))
