-- ===== src/Nls/Stuck.antt =====
-- Where the decoder does not move, and what that does to the loop that calls it.
use autumnos_mobile.Common.{
  ℕ, zero, suc, ◌≤◌, ◌<◌, ◌≡◌, refl, none, List, [], ◌∷◌, ◌++◌, ltb, if◌then◌else◌, length, get_or,
  arith, ap, ◌∙◌, append_assoc,
}
use mathlib.Core.Option
use autumnos_mobile.Nls.{unicode_tf8, code_points, replacement}
use autumnos_mobile.Nls.Decode.{masks, encode, encode_all, IsText, code_points-encode}

-- How many continuation bytes a lead byte asks for.
abbrev pub continuations : ℕ → ℕ
continuations lead = if ltb lead 0xE0 then 1 else if ltb lead 0xF0 then 2 else 3

-- A text that ends within a code point.
abbrev pub IsTruncated : ℕ → List ℕ → Type 0
IsTruncated lead tail = (0xC0 ≤ lead) × (lead < 0xF8) × (length tail < continuations lead)

get_or-beyond : (s : List ℕ) (i : ℕ) → length s ≤ i → get_or s i 0 ≡ 0
get_or-beyond [] i h = refl
get_or-beyond (x ∷ s) zero h = absurd (omega arith)
get_or-beyond (x ∷ s) (suc i) h = get_or-beyond s i (omega arith)

-- At a truncated code point the decoder returns U+FFFD and leaves the pointer where it is.
pub unicode_tf8-truncated :
    (lead : ℕ) (tail : List ℕ)
    → IsTruncated lead tail
    → unicode_tf8 (lead ∷ tail) ≡ (replacement, lead ∷ tail)
unfolding unicode_tf8
unicode_tf8-truncated lead tail t = ground (
  arith,
  masks lead (omega arith),
  get_or-beyond tail 0,
  get_or-beyond tail 1,
  get_or-beyond tail 2,
)

-- A text of code points from 1 to 0x10FFFF that is followed by the first bytes of one more code
-- point is never drawn to its end: whatever the fuel, the loop of `AutumnAPI_DrawString` is still
-- running.
pub code_points-truncated :
    (fuel : ℕ) (cps : List ℕ) (lead : ℕ) (tail : List ℕ)
    → IsText cps
    → IsTruncated lead tail
    → code_points fuel (encode_all cps ++ lead ∷ tail) ≡ none
unfolding code_points encode_all
code_points-truncated zero cps lead tail t c = refl
code_points-truncated (suc fuel) [] lead tail t c =
    ground (arith, unicode_tf8-truncated lead tail c, code_points-truncated fuel [] lead tail t c)
code_points-truncated (suc fuel) (cp ∷ cps) lead tail t c =
    ap (code_points (suc fuel)) (append_assoc (encode cp) (encode_all cps) (lead ∷ tail))
    ∙ (code_points-encode fuel cp (encode_all cps ++ lead ∷ tail) t.0 t.1
        ∙ ap (Option.map (λ r. cp ∷ r)) (code_points-truncated fuel cps lead tail t.2 c))
