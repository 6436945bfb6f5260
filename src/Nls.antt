-- ===== src/Nls.antt =====
-- v0.1-alpha/API/libatmnls.c: the decoder of UTF-8 text, and the loop of AutumnAPI_DrawString in
-- v0.1-alpha/API/libfbdev.c that takes a text apart by it. A C string is the list of its bytes
-- without the NUL; a read at its end gives that NUL. `AutumnAPI_ShapeCompx`, which the decoder
-- calls at a lead byte of 0xF0 and above, makes a HarfBuzz buffer and frees it: it has no effect on
-- what the decoder returns, and is left out.
pub mod Decode
pub mod Stuck
mod Tests
use autumnos_mobile.Common.{
  ℕ, zero, suc, ◌+◌, ◌*◌, ◌/◌, ◌%◌, Bool, ◌||◌, Option, none, some, List, [], ◌∷◌, ◌++◌, ◌==◌, ltb,
  if◌then◌else◌, get_or, drop, shl, bit_and, bit_or,
}
use mathlib.Core.Option

-- `p[i]`.
abbrev pub byte : List ℕ → ℕ → ℕ
byte s i = get_or s i 0

abbrev pub replacement : ℕ
replacement = 0xFFFD

-- The bits of a continuation byte.
abbrev pub six_bits : ℕ → ℕ
six_bits b = bit_and b 0x3F

-- `AutumnAPI_UnicodeTF8`: the code point, and where `*s` points afterwards.
unfoldable pub unicode_tf8 : List ℕ → ℕ × List ℕ
unicode_tf8 s =
    if p0 == 0
    then (0, s)
    else if ltb p0 0x80
    then (p0, drop 1 s)
    else if bit_and p0 0xE0 == 0xC0
    then (if p1 == 0
        then (replacement, s)
        else (bit_or (shl (bit_and p0 0x1F) 6) (six_bits p1), drop 2 s))
    else if bit_and p0 0xF0 == 0xE0
    then (if p1 == 0 || p2 == 0 then (replacement, s) else (
      bit_or (shl (bit_and p0 0x0F) 12) (bit_or (shl (six_bits p1) 6) (six_bits p2)),
      drop 3 s,
    ))
    else if bit_and p0 0xF8 == 0xF0
    then (if p1 == 0 || p2 == 0 || p3 == 0 then (replacement, s) else (
      bit_or (shl (bit_and p0 0x07) 18)
          (bit_or (shl (six_bits p1) 12) (bit_or (shl (six_bits p2) 6) (six_bits p3))),
      drop 4 s,
    ))
    else (replacement, drop 1 s)
  where
    p0 : ℕ
    p0 = byte s 0

    p1 : ℕ
    p1 = byte s 1

    p2 : ℕ
    p2 = byte s 2

    p3 : ℕ
    p3 = byte s 3

-- `while (*ptr) { cp = AutumnAPI_UnicodeTF8(&ptr); if (cp == 0) break; … }` of
-- `AutumnAPI_DrawString`: the code points that it draws. `none` is a loop that is still running
-- when the fuel ends.
unfoldable pub code_points : ℕ → List ℕ → Option (List ℕ)
code_points zero s = none
code_points (suc fuel) s =
    let (cp, rest) = unicode_tf8 s in
    let more = Option.map (λ cps. cp ∷ cps) (code_points fuel rest) in
    if byte s 0 == 0 then some [] else if cp == 0 then some [] else more
