-- ===== src/Common/Texts.antt =====
-- C strings: the bytes before the first NUL.
use Prim.Native.Nat.{ℕ, zero, suc, ◌<◌}
use mathlib.Core.Path.{◌≡◌, refl, ap, ◌∙◌}
use mathlib.Core.Bool.{Bool, true, false, ◌&&◌}
use mathlib.Core.List.{List, [], ◌∷◌}
use native.Mathlib.Omega.{arith}
use autumnos_mobile.Common.Tests.{◌==◌}
use autumnos_mobile.Common.Lists.{length, set, take}

abbrev pub c_string : List ℕ → List ℕ
c_string [] = []
c_string (zero ∷ bs) = []
c_string (suc c ∷ bs) = suc c ∷ c_string bs

-- `strcmp(a, b) == 0` on the texts before the NULs.
unfoldable pub text_eq : List ℕ → List ℕ → Bool
text_eq [] [] = true
text_eq [] (b ∷ bs) = false
text_eq (a ∷ s) [] = false
text_eq (a ∷ s) (b ∷ t) = (a == b) && text_eq s t

pub text_eq_refl : (a : List ℕ) → text_eq a a ≡ true
unfolding text_eq
text_eq_refl [] = refl
text_eq_refl (c ∷ a) = ground (arith, text_eq_refl a)

pub text_eq_sound : (a b : List ℕ) → text_eq a b ≡ true → a ≡ b
unfolding text_eq
text_eq_sound [] [] e = refl
text_eq_sound [] (c ∷ b) e = cc
text_eq_sound (c ∷ a) [] e = cc
text_eq_sound (c ∷ a) (k ∷ b) e =
    let (head, rest) = both (c == k) (text_eq a b) e in
    let same : c ≡ k = equal c k head in
    ap (λ x. x ∷ a) same ∙ ap (λ x. k ∷ x) (text_eq_sound a b rest)
  where
    both : (p q : Bool) → (p && q) ≡ true → (p ≡ true) × (q ≡ true)
    both p q t = ground (arith, t)

    equal : (x y : ℕ) → (x == y) ≡ true → x ≡ y
    equal x y t = ground (arith, t)

-- A NUL written at `i` ends the text there, if none ends it before.
pub c_string-set :
    (buf : List ℕ) (i : ℕ) → i < length buf → c_string (set buf i 0) ≡ c_string (take i buf)
c_string-set [] i h = absurd (omega arith)
c_string-set (b ∷ buf) zero h = refl
c_string-set (zero ∷ buf) (suc i) h = refl
c_string-set (suc b ∷ buf) (suc i) h = ap (λ s. suc b ∷ s) (c_string-set buf i (omega arith))
