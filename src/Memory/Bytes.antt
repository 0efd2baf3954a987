-- ===== src/Memory/Bytes.antt =====
-- Byte-wise copies and fills, and what they leave at each address.
use serra.Base.{
  ℕ, zero, suc, ◌+◌, ◌-◌, ◌≤◌, ◌≡◌, ◌⊎◌, Bool, ◌==◌, ◌&&◌, ltb, leb, if◌then◌else◌, arith,
}

abbrev pub Memory : Type 0
Memory = ℕ → ℕ

abbrev pub put : Memory → ℕ → ℕ → Memory
put m a v x = if x == a then v else m x

-- `rep movsb`, and `for (Index = 0; Index < Size; Index++)`.
unfoldable pub copy_up : ℕ → ℕ → ℕ → Memory → Memory
copy_up zero dst src m = m
copy_up (suc n) dst src m = copy_up n (dst + 1) (src + 1) (put m dst (m src))

-- `for (Index = Size; Index > 0; Index--)`.
unfoldable pub copy_down : ℕ → ℕ → ℕ → Memory → Memory
copy_down zero dst src m = m
copy_down (suc n) dst src m = copy_down n dst src (put m (dst + n) (m (src + n)))

-- `rep stosb`.
unfoldable pub fill_up : ℕ → ℕ → ℕ → Memory → Memory
fill_up zero buffer v m = m
fill_up (suc n) buffer v m = fill_up n (buffer + 1) v (put m buffer v)

-- The address lies in the area of `n` bytes at `a`.
abbrev pub within : ℕ → ℕ → ℕ → Bool
within a n x = leb a x && ltb x (a + n)

-- Memory after `n` bytes were moved from `src` to `dst`, as if all were read first.
abbrev pub copied : ℕ → ℕ → ℕ → Memory → Memory
copied n dst src m x = if within dst n x then m (src + (x - dst)) else m x

abbrev pub filled : ℕ → ℕ → ℕ → Memory → Memory
filled n buffer v m x = if within buffer n x then v else m x

-- The two areas share no byte.
abbrev pub Apart : ℕ → ℕ → ℕ → Type 0
Apart n dst src = (dst + n ≤ src) ⊎ (src + n ≤ dst)

pub copy_up-copied :
    (n dst src : ℕ) (m : Memory) (x : ℕ)
    → (dst ≤ src) ⊎ (src + n ≤ dst)
    → copy_up n dst src m x ≡ copied n dst src m x
unfolding copy_up
copy_up-copied zero dst src m x h = ground arith
copy_up-copied (suc n) dst src m x h =
    ground (arith, copy_up-copied n (dst + 1) (src + 1) (put m dst (m src)) x)

pub copy_down-copied :
    (n dst src : ℕ) (m : Memory) (x : ℕ)
    → (src ≤ dst) ⊎ (dst + n ≤ src)
    → copy_down n dst src m x ≡ copied n dst src m x
unfolding copy_down
copy_down-copied zero dst src m x h = ground arith
copy_down-copied (suc n) dst src m x h =
    ground (arith, copy_down-copied n dst src (put m (dst + n) (m (src + n))) x)

pub fill_up-filled :
    (n buffer v : ℕ) (m : Memory) (x : ℕ) → fill_up n buffer v m x ≡ filled n buffer v m x
unfolding fill_up
fill_up-filled zero buffer v m x = ground arith
fill_up-filled (suc n) buffer v m x =
    ground (arith, fill_up-filled n (buffer + 1) v (put m buffer v) x)
