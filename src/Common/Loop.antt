-- ===== src/Common/Loop.antt =====
-- Counted loops: `for (k = i; k < i + n; k++) s = body(k, s);` by recursion on the rounds left.
use Prim.Native.Nat.{ℕ, zero, suc, ◌+◌}

unfoldable pub for_range {ℓ} : {S : Type ℓ} → ℕ → ℕ → (ℕ → S → S) → S → S
for_range zero from round state = state
for_range (suc left) from round state = for_range left (from + 1) round (round from state)

-- The invariant rule: what each round keeps holds at the end.
pub for_range_keeps {ℓ κ} :
    {S : Type ℓ} (Kept : S → Type κ) (round : ℕ → S → S)
    → ((k : ℕ) (state : S) → Kept state → Kept (round k state))
    → (left from : ℕ) (state : S) → Kept state
    → Kept (for_range left from round state)
unfolding for_range
for_range_keeps Kept round keep zero from state h = h
for_range_keeps Kept round keep (suc left) from state h =
    for_range_keeps Kept round keep left (from + 1) (round from state) (keep from state h)
