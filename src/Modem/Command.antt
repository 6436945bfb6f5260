-- ===== src/Modem/Command.antt =====
-- The text that the driver finds in the 128 bytes of a command.
use autumnos_mobile.Common.{
  ℕ, zero, suc, ◌≤◌, ◌<◌, ◌≡◌, refl, ap, false, some, List, [], ◌∷◌, ◌++◌, arith, ◌==◌, length,
  take, c_string,
}
use autumnos_mobile.Modem.{cmd_text}

-- No byte of a text is a NUL.
abbrev pub IsText : List ℕ → Type 0
IsText [] = Unit
IsText (c ∷ text) = (0 < c) × IsText text

pub IsText-append : (a b : List ℕ) → IsText a → IsText b → IsText (a ++ b)
IsText-append [] b s t = t
IsText-append (c ∷ a) b s t = (s.0, IsText-append a b s.1 t)

pub IsText-take : (n : ℕ) (a : List ℕ) → IsText a → IsText (take n a)
IsText-take zero a s = tt
IsText-take (suc n) [] s = tt
IsText-take (suc n) (c ∷ a) s = (s.0, IsText-take n a s.1)

c_string-take :
    (text behind : List ℕ) (n : ℕ)
    → IsText text
    → length text ≤ n
    → c_string (take (suc n) (text ++ 0 ∷ behind)) ≡ text
c_string-take [] behind n t h = refl
c_string-take (zero ∷ text) behind n t h = absurd (omega (arith, t.0))
c_string-take (suc c ∷ text) behind zero t h = absurd (omega (arith, h))
c_string-take (suc c ∷ text) behind (suc n) t h =
    ap (λ s. suc c ∷ s) (c_string-take text behind n t.1 (omega (arith, h)))

-- A text of at most 127 bytes is found, whatever stands behind its NUL.
pub cmd_text-short :
    (text behind : List ℕ)
    → IsText text
    → length text ≤ 127
    → cmd_text (text ++ 0 ∷ behind) ≡ some text
unfolding cmd_text
cmd_text-short text behind t h =
    let found : c_string (take 128 (text ++ 0 ∷ behind)) ≡ text =
      c_string-take text behind 127 t h in
    let small : (length text == 128) ≡ false = ground (arith, h) in rw (found, small) refl
