-- ===== src/Base/Tables.antt =====
-- A test on every number of a range, run once: what holds of a table by computation holds of each of
-- its entries.
use Prim.Native.Nat.{ℕ, zero, suc, ◌+◌, ◌≤◌, ◌<◌}
use mathlib.Core.Path.{◌≡◌}
use mathlib.Core.Logic.{inl, inr}
use mathlib.Core.Bool.{Bool, true, false}
use native.Mathlib.Omega.{arith}
use perun.Base.Tests.{◌==◌, ==→eq, ==→ne, if◌then◌else◌, Bool-cases}

-- The test passes from `c` on, for `count` numbers.
unfoldable pub holds_from : (ℕ → Bool) → ℕ → ℕ → Bool
holds_from test c zero = true
holds_from test c (suc count) = if test c then holds_from test (c + 1) count else false

pub holds_from-passes :
    (test : ℕ → Bool) (count c d : ℕ)
    → c ≤ d
    → d < c + count
    → holds_from test c count ≡ true
    → test d ≡ true
unfolding holds_from
holds_from-passes test zero c d lo hi passes = absurd (omega arith)
holds_from-passes test (suc count) c d lo hi passes = elim (Bool-cases (d == c)) [
  | inl here ↦ let e = ==→eq d c here in rw e (ground arith)
  | inr later ↦
      let apart = ==→ne d c later in
      holds_from-passes test count (c + 1) d (omega arith) (omega arith) (ground arith)
]
