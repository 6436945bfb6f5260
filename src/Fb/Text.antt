-- ===== src/Fb/Text.antt =====
-- Text of v0.1-alpha/API/libfbdev.c: `AutumnAPI_DrawString` and `AutumnAPI_GetStringWidth`, with
-- pointers that are not NULL. FreeType is not in the repository: what it renders for a code point is
-- an argument.
use autumnos_mobile.Common.{
  ℕ, ◌+◌, ◌*◌, ◌/◌, ◌%◌, ◌^◌, Bool-cases, inl, inr, ◌<◌, ◌≡◌, refl, ap, ◌∙◌, ◌==◌, Option, none,
  some, List, [], ◌∷◌, if◌then◌else◌, u8, shr, get_or, ℤ, pos, ◌+ℤ◌, ◌-ℤ◌,
}
use autumnos_mobile.Nls.{code_points}
use autumnos_mobile.Fb.{FbDev, for_grid}
use autumnos_mobile.Fb.Pixel.{IsDisplay, Sized, pixel}
use autumnos_mobile.Fb.Rect.{in_rect, offset}
use autumnos_mobile.Fb.Blit.{Layout, pack, blend_word, blit_pix, or_old}
use autumnos_mobile.Fb.Blit.Pixel.{laid_over, blit_lem}

-- A glyph: its bitmap of transparencies and its place, and the step to the next one in pixels.
pub record Glyph : Type 0 where
  pub bitmap_left : ℤ
  pub bitmap_top : ℤ
  pub width : ℕ
  pub rows : ℕ
  pub buffer : List ℕ
  pub advance : ℤ

abbrev pub Face : Type 0
Face = ℕ → Option Glyph

-- What a glyph in `color` makes of a word.
pub glyph_word : Layout → ℕ → Glyph → ℕ → ℕ → ℕ → Option ℕ
glyph_word l color g gy gx bg_pixel =
    let tr = u8 (shr color 16) in
    let tg = u8 (shr color 8) in
    let tb = u8 color in
    let alpha = get_or g.buffer (gy * g.width + gx) 0 in
    if alpha == 0
    then none
    else if alpha == 255
    then some (pack l tr tg tb)
    else some (blend_word l alpha tr tg tb bg_pixel)

pub draw_glyph : FbDev → Layout → ℕ → Glyph → ℤ → ℤ → List ℕ → List ℕ
unfolding glyph_word
draw_glyph fb l color g x y =
    for_grid (pos g.width) (pos g.rows)
      (blit_pix fb (x +ℤ g.bitmap_left) (y -ℤ g.bitmap_top) (glyph_word l color g))

-- The loop of `AutumnAPI_DrawString` for the code points of the text; one that the font does not
-- have is left out, and takes no place.
pub draw_glyphs : FbDev → Layout → Face → ℕ → List ℕ → ℤ → ℤ → List ℕ → List ℕ
unfolding draw_glyph
draw_glyphs fb l face color [] x y buf = buf
draw_glyphs fb l face color (cp ∷ cps) x y buf = elim (face cp) [
  | none ↦ draw_glyphs fb l face color cps x y buf
  | some g ↦ draw_glyphs fb l face color cps (x +ℤ g.advance) y (draw_glyph fb l color g x y buf)
]

-- `AutumnAPI_DrawString` with fuel for the decoding.
pub draw_string : FbDev → Layout → Face → ℕ → List ℕ → ℕ → ℤ → ℤ → List ℕ → Option (List ℕ)
unfolding draw_glyphs
draw_string fb l face fuel text color x y buf = elim (code_points fuel text) [
  | none ↦ none
  | some cps ↦ some (draw_glyphs fb l face color cps x y buf)
]

pub draw_string-decoded :
    (fb : FbDev) (l : Layout) (face : Face) (fuel : ℕ) (text : List ℕ) (color : ℕ) (cps : List ℕ)
    (x y : ℤ) (buf : List ℕ)
    → code_points fuel text ≡ some cps
    → draw_string fb l face fuel text color x y buf ≡ some (draw_glyphs fb l face color cps x y buf)
unfolding draw_string
draw_string-decoded fb l face fuel text color cps x y buf decoded = rw (draw_string, decoded) refl

-- What the glyphs of a text make of one pixel, from left to right.
abbrev pub text_pixel : ℕ → ℕ → Layout → Face → ℕ → List ℕ → ℤ → ℤ → ℕ → ℕ
unfolding glyph_word
text_pixel px py l face color [] x y old = old
text_pixel px py l face color (cp ∷ cps) x y old = elim (face cp) [
  | none ↦ text_pixel px py l face color cps x y old
  | some g ↦ text_pixel px py l face color cps (x +ℤ g.advance) y (
      if in_rect (x +ℤ g.bitmap_left) (y -ℤ g.bitmap_top) (pos g.width) (pos g.rows) px py
      then or_old
          (glyph_word l color g (offset (y -ℤ g.bitmap_top) py) (offset (x +ℤ g.bitmap_left) px)
            old)
          old
      else old)
]

-- A text at one pixel: each glyph whose bitmap reaches the pixel lays the text's colour over it, with
-- the bitmap's byte there as transparency, and the next glyph stands one advance to the right.
abbrev pub inked : ℕ → ℕ → Layout → Face → ℕ → List ℕ → ℤ → ℤ → ℕ → ℕ
inked px py l face color [] x y old = old
inked px py l face color (cp ∷ cps) x y old = elim (face cp) [
  | none ↦ inked px py l face color cps x y old
  | some g ↦
      let left = x +ℤ g.bitmap_left in
      let top = y -ℤ g.bitmap_top in
      let alpha = get_or g.buffer (offset top py * g.width + offset left px) 0 in
      inked px py l face color cps (x +ℤ g.advance) y (
        if in_rect left top (pos g.width) (pos g.rows) px py
        then laid_over l alpha (color / 2 ^ 16 % 2 ^ 8) (color / 2 ^ 8 % 2 ^ 8) (color % 2 ^ 8) old
        else old)
]

glyph_word-laid_over :
    (l : Layout) (color : ℕ) (g : Glyph) (gy gx old : ℕ)
    → or_old (glyph_word l color g gy gx old) old
      ≡ laid_over l
          (get_or g.buffer (gy * g.width + gx) 0)
          (color / 2 ^ 16 % 2 ^ 8)
          (color / 2 ^ 8 % 2 ^ 8)
          (color % 2 ^ 8)
          old
unfolding glyph_word
glyph_word-laid_over l color g gy gx old =
    let alpha = get_or g.buffer (gy * g.width + gx) 0 in
    elim (Bool-cases (alpha == 0)) [
      | inl clear ↦ rw clear refl
      | inr seen ↦ elim (Bool-cases (alpha == 255)) [
        | inl full ↦ rw (seen, full) refl
        | inr part ↦ rw (seen, part) refl
      ]
    ]

pub text_pixel-inked :
    (px py : ℕ) (l : Layout) (face : Face) (color : ℕ) (cps : List ℕ) (x y : ℤ) (old : ℕ)
    → text_pixel px py l face color cps x y old ≡ inked px py l face color cps x y old
unfolding text_pixel
text_pixel-inked px py l face color [] x y old = refl
text_pixel-inked px py l face color (cp ∷ cps) x y old =
    by_glyph (face cp) (λ x' old'. text_pixel-inked px py l face color cps x' y old')
  where
    by_glyph :
        (o : Option Glyph)
        → ((x' : ℤ) (old' : ℕ)
            → text_pixel px py l face color cps x' y old' ≡ inked px py l face color cps x' y old')
        → elim o [
          | none ↦ text_pixel px py l face color cps x y old
          | some g ↦ text_pixel px py l face color cps (x +ℤ g.advance) y (
              if in_rect (x +ℤ g.bitmap_left) (y -ℤ g.bitmap_top) (pos g.width) (pos g.rows) px py
              then or_old
                  (glyph_word l color g
                    (offset (y -ℤ g.bitmap_top) py)
                    (offset (x +ℤ g.bitmap_left) px)
                    old)
                  old
              else old)
        ]
          ≡ elim o [
            | none ↦ inked px py l face color cps x y old
            | some g ↦
                let left = x +ℤ g.bitmap_left in
                let top = y -ℤ g.bitmap_top in
                let alpha = get_or g.buffer (offset top py * g.width + offset left px) 0 in
                inked px py l face color cps (x +ℤ g.advance) y (
                  if in_rect left top (pos g.width) (pos g.rows) px py
                  then laid_over l alpha
                      (color / 2 ^ 16 % 2 ^ 8)
                      (color / 2 ^ 8 % 2 ^ 8)
                      (color % 2 ^ 8)
                      old
                  else old)
          ]
    by_glyph none rest = rest x old
    by_glyph (some g) rest =
        rw
          (glyph_word-laid_over l color g (offset (y -ℤ g.bitmap_top) py)
            (offset (x +ℤ g.bitmap_left) px) old)
          (rest (x +ℤ g.advance) _)

module _ (fb : FbDev) (d : IsDisplay fb) (px py : ℕ) (hx : px < fb.w) (hy : py < fb.h) where
  pub draw_glyph-pixel :
      (l : Layout) (color : ℕ) (g : Glyph) (x y : ℤ) (buf : List ℕ)
      → Sized fb buf
      → Sized fb (draw_glyph fb l color g x y buf)
        × (pixel fb px py (draw_glyph fb l color g x y buf) ≡ (
            if in_rect (x +ℤ g.bitmap_left) (y -ℤ g.bitmap_top) (pos g.width) (pos g.rows) px py
            then or_old
                (glyph_word l color g
                  (offset (y -ℤ g.bitmap_top) py)
                  (offset (x +ℤ g.bitmap_left) px)
                  (pixel fb px py buf))
                (pixel fb px py buf)
            else pixel fb px py buf))
  unfolding draw_glyph
  draw_glyph-pixel l color g x y buf e =
      blit_lem fb d px py hx hy (x +ℤ g.bitmap_left) (y -ℤ g.bitmap_top) (pos g.width) (pos g.rows)
        (glyph_word l color g) buf e

  -- On a display whose rows are whole words and hold its pixels, with a buffer of its size, a text
  -- changes a pixel as its glyphs do one after the other, each at its place: by the text's colour,
  -- mixed with what was there by the transparency of the glyph at that place. The length of the
  -- buffer stays.
  pub draw_glyphs-pixel :
      (l : Layout) (face : Face) (color : ℕ) (cps : List ℕ) (x y : ℤ) (buf : List ℕ)
      → Sized fb buf
      → Sized fb (draw_glyphs fb l face color cps x y buf)
        × (pixel fb px py (draw_glyphs fb l face color cps x y buf)
            ≡ text_pixel px py l face color cps x y (pixel fb px py buf))
  unfolding draw_glyphs text_pixel
  draw_glyphs-pixel l face color [] x y buf e = (e, refl)
  draw_glyphs-pixel l face color (cp ∷ cps) x y buf e =
      by_glyph (face cp) (λ x' b g. draw_glyphs-pixel l face color cps x' y b g)
    where
      by_glyph :
          (o : Option Glyph)
          → ((x' : ℤ) (b : List ℕ)
              → Sized fb b
              → Sized fb (draw_glyphs fb l face color cps x' y b)
                × (pixel fb px py (draw_glyphs fb l face color cps x' y b)
                    ≡ text_pixel px py l face color cps x' y (pixel fb px py b)))
          → Sized fb (elim o [
            | none ↦ draw_glyphs fb l face color cps x y buf
            | some g ↦
                draw_glyphs fb l face color cps (x +ℤ g.advance) y (draw_glyph fb l color g x y buf)
          ])
            × (pixel fb px py (elim o [
              | none ↦ draw_glyphs fb l face color cps x y buf
              | some g ↦
                  draw_glyphs fb l face color cps
                    (x +ℤ g.advance)
                    y
                    (draw_glyph fb l color g x y buf)
            ])
                ≡ elim o [
                  | none ↦ text_pixel px py l face color cps x y (pixel fb px py buf)
                  | some g ↦ text_pixel px py l face color cps (x +ℤ g.advance) y (
                      if in_rect
                        (x +ℤ g.bitmap_left)
                        (y -ℤ g.bitmap_top)
                        (pos g.width)
                        (pos g.rows)
                        px
                        py
                      then or_old
                          (glyph_word l color g
                            (offset (y -ℤ g.bitmap_top) py)
                            (offset (x +ℤ g.bitmap_left) px)
                            (pixel fb px py buf))
                          (pixel fb px py buf)
                      else pixel fb px py buf)
                ])
      by_glyph none rest = rest x buf e
      by_glyph (some g) rest =
          let (sized, seen) = draw_glyph-pixel l color g x y buf e in
          let (sized', seen') = rest (x +ℤ g.advance) (draw_glyph fb l color g x y buf) sized in
          (sized', seen' ∙ ap (text_pixel px py l face color cps (x +ℤ g.advance) y) seen)
