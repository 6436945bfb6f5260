-- ===== src/Common/Once.antt =====
-- Loops of which one round at most changes what is seen at a place, as a function of what was there.
use Prim.Native.Nat.{ℕ, zero, suc, ◌+◌, ◌≤◌, ◌<◌}
use mathlib.Core.Path.{◌≡◌, refl}
use mathlib.Core.Logic.{inl, inr}
use mathlib.Core.Bool.{Bool, true, false}
use native.Mathlib.Omega.{arith}
use autumnos_mobile.Common.Tests.{if◌then◌else◌, Bool-cases}
use autumnos_mobile.Common.Loop.{for_range}
use autumnos_mobile.Common.Paint.{any_in, any_in-none}

module _ {ℓ κ ι} {A : Type ℓ} {S : Type κ} (Good : S → Type ι) (get : S → A) (body : ℕ → S → S)
    (hit : ℕ → Bool) (f : A → A) (k0 : ℕ) (only : (k : ℕ) → hit k ≡ true → k ≡ k0) where
  pub paint_once :
      (n i : ℕ)
      → ((k : ℕ) (s : S)
          → i ≤ k
          → k < i + n
          → Good s
          → Good (body k s) × (get (body k s) ≡ (if hit k then f (get s) else get s)))
      → (s : S) → Good s
      → Good (for_range n i body s)
        × (get (for_range n i body s) ≡ (if any_in hit n i then f (get s) else get s))
  unfolding for_range any_in
  paint_once zero i each s g = (g, refl)
  paint_once (suc n) i each s g =
      let now = each i s (omega arith) (omega arith) g in
      let rest =
        paint_once n (i + 1) (λ k s lo hi. each k s (omega arith) (omega arith)) (body i s) now.0 in
      elim (Bool-cases (hit i)) [
        | inl here ↦ ground (arith, now, rest, here, no_more here)
        | inr not_here ↦ ground (arith, now, rest, not_here)
      ]
    where
      no_more : hit i ≡ true → any_in hit n (i + 1) ≡ false
      no_more here = any_in-none hit n (i + 1) (λ k lo hi. elim (Bool-cases (hit k)) [
        | inl again ↦ absurd (omega (arith, only k again, only i here))
        | inr miss ↦ miss
      ])
