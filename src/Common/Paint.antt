-- ===== src/Common/Paint.antt =====
-- Loops that write into a buffer, seen at one place of it. `get` reads that place.
use Prim.Native.Nat.{ℕ, zero, suc, ◌+◌, ◌≤◌, ◌<◌}
use mathlib.Core.Path.{◌≡◌, refl, sym, ap, ◌∙◌}
use mathlib.Core.Bool.{Bool, true, false, ◌||◌}
use native.Mathlib.Omega.{arith}
use native.Mathlib.Decide.{dec_lt}
use autumnos_mobile.Common.Tests.{if◌then◌else◌}
use autumnos_mobile.Common.Loop.{for_range}

-- Whether one of the `n` rounds from `i` on hits.
unfoldable pub any_in : (ℕ → Bool) → ℕ → ℕ → Bool
any_in hit zero i = false
any_in hit (suc n) i = hit i || any_in hit n (i + 1)

-- It does not if no round does.
pub any_in-none :
    (hit : ℕ → Bool) (n i : ℕ)
    → ((k : ℕ) → i ≤ k → k < i + n → hit k ≡ false)
    → any_in hit n i ≡ false
unfolding any_in
any_in-none hit zero i h = refl
any_in-none hit (suc n) i h = ground (
  arith,
  h i (omega arith) (omega arith),
  any_in-none hit n (i + 1) (λ k lo hi. h k (omega arith) (omega arith)),
)

-- It does if a round in the range does.
pub any_in-some :
    (hit : ℕ → Bool) (n i k : ℕ) → i ≤ k → k < i + n → hit k ≡ true → any_in hit n i ≡ true
unfolding any_in
any_in-some hit zero i k lo hi e = absurd (omega arith)
any_in-some hit (suc n) i k lo hi e = elim (dec_lt i k) [
  | yes later ↦ ground (arith, any_in-some hit n (i + 1) k (omega arith) (omega arith) e)
  | no now ↦ let same : i ≡ k = omega arith in rw same (ground arith)
]

module _ {ℓ κ μ} {S : Type ℓ} {A : Type κ} (Good : S → Type μ) (get : S → A)
    (body : ℕ → S → S) where
  -- A loop whose rounds each write `v` to the place or leave it alone writes `v` there if one of
  -- them hits, and leaves it alone if none does.
  pub paint_range :
      (hit : ℕ → Bool) (v : A) (n i : ℕ)
      → ((k : ℕ) (s : S)
          → i ≤ k
          → k < i + n
          → Good s
          → Good (body k s) × (get (body k s) ≡ (if hit k then v else get s)))
      → (s : S) → Good s
      → Good (for_range n i body s)
        × (get (for_range n i body s) ≡ (if any_in hit n i then v else get s))
  unfolding for_range any_in
  paint_range hit v zero i h s g = (g, refl)
  paint_range hit v (suc n) i h s g =
      let one = h i s (omega arith) (omega arith) g in
      let rest =
        paint_range hit v n (i + 1) (λ k s lo hi. h k s (omega arith) (omega arith)) (body i s)
          one.0 in
      ground (arith, one, rest)

  -- A loop leaves alone a place where none of its rounds writes.
  pub no_round :
      (n i : ℕ)
      → ((j : ℕ) (s : S) → i ≤ j → j < i + n → Good s → Good (body j s) × (get (body j s) ≡ get s))
      → (s : S) → Good s
      → Good (for_range n i body s) × (get (for_range n i body s) ≡ get s)
  unfolding for_range
  no_round zero i keep s g = (g, refl)
  no_round (suc n) i keep s g =
      let one = keep i s (omega arith) (omega arith) g in
      let rest =
        no_round n (i + 1) (λ j s lo hi. keep j s (omega arith) (omega arith)) (body i s) one.0 in
      (rest.0, rest.1 ∙ one.1)

  -- A loop leaves at the place what the last round that writes there writes.
  pub last_round :
      (v : A) (n i k : ℕ)
      → i ≤ k
      → k < i + n
      → ((j : ℕ) (s : S) → i ≤ j → j < i + n → Good s → Good (body j s))
      → ((s : S) → Good s → get (body k s) ≡ v)
      → ((j : ℕ) (s : S) → k < j → j < i + n → Good s → get (body j s) ≡ get s)
      → (s : S) → Good s
      → get (for_range n i body s) ≡ v
  unfolding for_range
  last_round v zero i k lo hi keep now later s g = absurd (omega arith)
  last_round v (suc n) i k lo hi keep now later s g = elim (dec_lt i k) [
    | yes before ↦
        last_round v n (i + 1) k (omega arith) (omega arith)
          (λ j s lo hi. keep j s (omega arith) (omega arith)) now
          (λ j s lo hi. later j s lo (omega arith)) (body i s)
          (keep i s (omega arith) (omega arith) g)
    | no reached ↦
        let same : k ≡ i = omega arith in
        (no_round n (i + 1)
          (λ j s lo hi g.
            (keep j s (omega arith) (omega arith) g, later j s (omega arith) (omega arith) g))
          (body i s) (keep i s (omega arith) (omega arith) g)).1
        ∙ (ap (λ j. get (body j s)) (sym same) ∙ now s g)
  ]
