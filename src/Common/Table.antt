-- ===== src/Common/Table.antt =====
-- Facts about a byte, by evaluation at each of its 256 values.
use Prim.Native.Nat.{ℕ, zero, suc, ◌<◌}
use mathlib.Core.Path.{◌≡◌}
use mathlib.Core.Bool.{Bool, true, ◌&&◌}
use native.Mathlib.Omega.{arith}
use native.Mathlib.Decide.{dec_lt}

-- The test holds at every number under the bound.
unfoldable pub holds_under : (ℕ → Bool) → ℕ → Bool
holds_under test zero = true
holds_under test (suc bound) = holds_under test bound && test bound

pub holds_under-test :
    (test : ℕ → Bool) (bound : ℕ)
    → holds_under test bound ≡ true
    → (value : ℕ) → value < bound
    → test value ≡ true
unfolding holds_under
holds_under-test test zero all value under = absurd (omega (arith, under))
holds_under-test test (suc bound) all value under =
    let (smaller, here) = both (holds_under test bound) (test bound) all in
    elim (dec_lt value bound) [
      | yes less ↦ holds_under-test test bound smaller value less
      | no last ↦ let same : bound ≡ value = omega arith in rw (← same) here
    ]
  where
    both : (a b : Bool) → (a && b) ≡ true → (a ≡ true) × (b ≡ true)
    both a b e = ground (arith, e)
