-- ===== src/Nls/Decode.antt =====
-- The decoder against the encoding of code points as UTF-8.
use autumnos_mobile.Common.{
  ℕ, suc, ◌+◌, ◌*◌, ◌/◌, ◌%◌, ◌≤◌, ◌<◌, ◌≡◌, ◌≢◌, refl, true, some, List, [], ◌∷◌, ◌++◌, ◌==◌, ltb,
  if◌then◌else◌, bit_and, arith, holds_under, holds_under-test, bit_or-shl, length, ap, ◌∙◌,
}
use mathlib.Core.Option
use autumnos_mobile.Nls.{unicode_tf8, code_points, byte, six_bits}

-- The encoding of a code point by the UTF-8 standard.
unfoldable pub encode : ℕ → List ℕ
encode cp =
    if ltb cp 0x80
    then cp ∷ []
    else if ltb cp 0x800
    then (0xC0 + cp / 64) ∷ (0x80 + cp % 64) ∷ []
    else if ltb cp 0x10000
    then (0xE0 + cp / 4096) ∷ (0x80 + cp / 64 % 64) ∷ (0x80 + cp % 64) ∷ []
    else (0xF0 + cp / 262144)
      ∷ (0x80 + cp / 4096 % 64)
      ∷ (0x80 + cp / 64 % 64)
      ∷ (0x80 + cp % 64)
      ∷ []

table_holds :
    (f g : ℕ → ℕ) → holds_under (λ b. f b == g b) 256 ≡ true → (b : ℕ) → b < 256 → f b ≡ g b
table_holds f g t b h = equal (f b) (g b) (holds_under-test (λ b. f b == g b) 256 t b h)
  where
    equal : (x y : ℕ) → (x == y) ≡ true → x ≡ y
    equal x y e = ground arith

-- The masks of the decoder on a byte.
pub masks :
    (b : ℕ)
    → b < 256
    → (bit_and b 0xE0 ≡ b / 32 * 32)
      × (bit_and b 0xF0 ≡ b / 16 * 16)
      × (bit_and b 0xF8 ≡ b / 8 * 8)
      × (bit_and b 0x3F ≡ b % 64)
      × (bit_and b 0x1F ≡ b % 32)
      × (bit_and b 0x0F ≡ b % 16)
      × (bit_and b 0x07 ≡ b % 8)
unfolding holds_under
masks b h = (
  table_holds (λ x. bit_and x 0xE0) (λ x. x / 32 * 32) refl b h,
  table_holds (λ x. bit_and x 0xF0) (λ x. x / 16 * 16) refl b h,
  table_holds (λ x. bit_and x 0xF8) (λ x. x / 8 * 8) refl b h,
  table_holds (λ x. bit_and x 0x3F) (λ x. x % 64) refl b h,
  table_holds (λ x. bit_and x 0x1F) (λ x. x % 32) refl b h,
  table_holds (λ x. bit_and x 0x0F) (λ x. x % 16) refl b h,
  table_holds (λ x. bit_and x 0x07) (λ x. x % 8) refl b h,
)

-- A continuation byte carries its six low bits.
six_bits_lem : (b : ℕ) → b < 64 → six_bits (0x80 + b) ≡ b
six_bits_lem b h = omega (arith, masks (0x80 + b) (omega arith))

two_bytes :
    (a b : ℕ) (rest : List ℕ)
    → 2 ≤ a
    → a < 32
    → b < 64
    → unicode_tf8 ((0xC0 + a) ∷ (0x80 + b) ∷ rest) ≡ (a * 64 + b, rest)
unfolding unicode_tf8
two_bytes a b rest lo ha hb =
    let lead : bit_and (0xC0 + a) 0x1F ≡ a = omega (arith, masks (0xC0 + a) (omega arith)) in
    ground (arith, masks (0xC0 + a) (omega arith), lead, six_bits_lem b hb, bit_or-shl 6 a b hb)

three_bytes :
    (a b c : ℕ) (rest : List ℕ)
    → a < 16
    → b < 64
    → c < 64
    → unicode_tf8 ((0xE0 + a) ∷ (0x80 + b) ∷ (0x80 + c) ∷ rest) ≡ (a * 4096 + b * 64 + c, rest)
unfolding unicode_tf8
three_bytes a b c rest ha hb hc =
    let lead : bit_and (0xE0 + a) 0x0F ≡ a = omega (arith, masks (0xE0 + a) (omega arith)) in
    ground (
      arith,
      masks (0xE0 + a) (omega arith),
      lead,
      six_bits_lem b hb,
      six_bits_lem c hc,
      bit_or-shl 6 b c hc,
      bit_or-shl 12 a (b * 64 + c) (omega arith),
    )

four_bytes :
    (a b c d : ℕ) (rest : List ℕ)
    → a < 8
    → b < 64
    → c < 64
    → d < 64
    → unicode_tf8 ((0xF0 + a) ∷ (0x80 + b) ∷ (0x80 + c) ∷ (0x80 + d) ∷ rest)
      ≡ (a * 262144 + b * 4096 + c * 64 + d, rest)
unfolding unicode_tf8
four_bytes a b c d rest ha hb hc hd =
    let lead : bit_and (0xF0 + a) 0x07 ≡ a = omega (arith, masks (0xF0 + a) (omega arith)) in
    ground (
      arith,
      masks (0xF0 + a) (omega arith),
      lead,
      six_bits_lem b hb,
      six_bits_lem c hc,
      six_bits_lem d hd,
      bit_or-shl 6 c d hd,
      bit_or-shl 12 b (c * 64 + d) (omega arith),
      bit_or-shl 18 a (b * 4096 + (c * 64 + d)) (omega arith),
    )

one_byte : (a : ℕ) (rest : List ℕ) → 0 < a → a < 128 → unicode_tf8 (a ∷ rest) ≡ (a, rest)
unfolding unicode_tf8
one_byte a rest lo hi = ground arith

-- The decoder reads back every code point from 1 to 0x10FFFF that is encoded as UTF-8, whatever
-- follows, and leaves the pointer just behind the encoding.
pub unicode_tf8-encode :
    (cp : ℕ) (rest : List ℕ) → 0 < cp → cp ≤ 0x10FFFF → unicode_tf8 (encode cp ++ rest) ≡ (cp, rest)
unfolding encode
unicode_tf8-encode cp rest lo hi = ground (
  arith,
  one_byte cp rest lo,
  two_bytes (cp / 64) (cp % 64) rest,
  three_bytes (cp / 4096) (cp / 64 % 64) (cp % 64) rest,
  four_bytes (cp / 262144) (cp / 4096 % 64) (cp / 64 % 64) (cp % 64) rest,
)

-- A text of code points.
abbrev pub IsText : List ℕ → Type 0
IsText [] = Unit {0}
IsText (cp ∷ cps) = (0 < cp) × (cp ≤ 0x10FFFF) × IsText cps

unfoldable pub encode_all : List ℕ → List ℕ
encode_all [] = []
encode_all (cp ∷ cps) = encode cp ++ encode_all cps

-- An encoding does not begin with the NUL.
pub byte-encode-ne-zero : (cp : ℕ) (rest : List ℕ) → 0 < cp → byte (encode cp ++ rest) 0 ≢ 0
unfolding encode
byte-encode-ne-zero cp rest h = ground arith

-- One round of the loop at a code point.
pub code_points-encode :
    (fuel cp : ℕ) (rest : List ℕ)
    → 0 < cp
    → cp ≤ 0x10FFFF
    → code_points (suc fuel) (encode cp ++ rest)
      ≡ Option.map (λ cps. cp ∷ cps) (code_points fuel rest)
unfolding code_points
code_points-encode fuel cp rest lo hi =
    ground (arith, byte-encode-ne-zero cp rest lo, unicode_tf8-encode cp rest lo hi)

-- The loop of `AutumnAPI_DrawString` draws exactly the code points of a text of code points from
-- 1 to 0x10FFFF that is encoded as UTF-8, and ends within one round for each of them and one for
-- the NUL.
pub code_points-encode_all :
    (cps : List ℕ) → IsText cps → code_points (suc (length cps)) (encode_all cps) ≡ some cps
unfolding encode_all code_points
code_points-encode_all [] t = refl
code_points-encode_all (cp ∷ cps) t =
    code_points-encode (suc (length cps)) cp (encode_all cps) t.0 t.1
    ∙ ap (Option.map (λ r. cp ∷ r)) (code_points-encode_all cps t.2)
