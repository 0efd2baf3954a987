-- ===== src/Base/Bits.antt =====
-- A test that holds at every index of a range, found by evaluation.
use Prim.Native.Nat.{ℕ, zero, suc, ◌+◌, ◌≤◌, ◌<◌}
use mathlib.Core.Path.{◌≡◌}
use mathlib.Core.Bool.{Bool, true, false}
use native.Mathlib.Omega.{arith}
use serra.Base.{from_index, if◌then◌else◌}

-- The test at `from`, `from + 1` and so on, `rounds` times.
unfoldable pub holds_from : (rounds from : ℕ) → (ℕ → Bool) → Bool
holds_from zero from test = true
holds_from (suc rounds) from test =
    let later = holds_from rounds (from + 1) test in if test from then later else false

pub holds_from-at :
    (rounds from : ℕ) (test : ℕ → Bool) (i : ℕ)
    → holds_from rounds from test ≡ true
    → from ≤ i
    → i < from + rounds
    → test i ≡ true
unfolding holds_from
holds_from-at zero from test i all low high = absurd (omega arith)
holds_from-at (suc rounds) from test i all low high =
    from_index (λ j. test j ≡ true) from i low (ground arith)
      (λ later. holds_from-at rounds (from + 1) test i (ground arith) later (omega arith))
