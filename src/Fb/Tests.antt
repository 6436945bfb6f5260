-- ===== src/Fb/Tests.antt =====
-- Runs of the drawing, and its theorems at inputs that meet their hypotheses.
use autumnos_mobile.Common.{
  get_or, ◌*◌, ℕ, ◌+◌, ◌≡◌, refl, ◌⊎◌, true, false, List, ◌+ℤ◌, div_trunc, none, some, [], ◌∷◌,
  ◌==◌, arith, if◌then◌else◌, replicate, pos, negsuc,
}
use autumnos_mobile.Fb.{FbDev, draw_line, CornerRadius, distance}
use autumnos_mobile.Fb.Pixel.{IsDisplay, Sized, pixel, is_at}
use autumnos_mobile.Fb.Rect.{in_rect, offset}
use autumnos_mobile.Fb.Refresh.{Filter}
use autumnos_mobile.Fb.Blit.{Layout, AutumnImage, image_word, draw_img}
use autumnos_mobile.Fb.Blit.Pixel.{picture_over, draw_img-pixel}
use autumnos_mobile.Fb.Text.{Face, inked}
use autumnos_mobile.Fb.Box.{Font, draw_textbox}
use autumnos_mobile.Fb.Box.Pixel.{field_color, floor_half, draw_textbox-pixel}
use autumnos_mobile.Nls.{code_points, unicode_tf8}
use autumnos_mobile.Fb.Line.{draw_line_lem}
use autumnos_mobile.Fb.Line.Steps.{between}

-- Three columns, two rows, and a word of padding after each row.
abbrev screen : FbDev
screen = record { w = 3; h = 2; stride = 16 }

screen-IsDisplay : IsDisplay screen
screen-IsDisplay = record { whole = refl; fits = omega arith }

abbrev black : List ℕ
black = replicate 8 0

abbrev round_top : CornerRadius
round_top = record { tl = pos 1; tr = pos 0; bl = pos 0; br = pos 0 }

draw_line_lem_example :
    (out : List ℕ) × (draw_line screen
        (distance (negsuc 0) (pos 2) + distance (pos 0) (pos 1) + 1)
        (negsuc 0)
        (pos 0)
        (pos 2)
        (pos 1)
        4
        black
      ≡ some out)
    × Sized screen out
    × ((pixel screen 2 1 out ≡ pixel screen 2 1 black)
        ⊎ ((pixel screen 2 1 out ≡ 4)
            × (between (negsuc 0) 2 (pos 2) ≡ true)
            × (between (pos 0) 1 (pos 1) ≡ true)))
    × (is_at 2 1 (negsuc 0) (pos 0) ≡ true → pixel screen 2 1 out ≡ 4)
    × (is_at 2 1 (pos 2) (pos 1) ≡ true → pixel screen 2 1 out ≡ 4)
draw_line_lem_example =
    draw_line_lem screen screen-IsDisplay 2 1 (omega arith) (omega arith) (negsuc 0) (pos 0) (pos 2)
      (pos 1) 4 black refl

abbrev plain : Filter
plain = record { r_off = 16; g_off = 8; b_off = 0; invert_colors = true; eye_shield = false }

abbrev rgb : Layout
rgb = record { r_off = 16; g_off = 8; b_off = 0 }

-- An opaque red, and a green that is half transparent.
abbrev two_pixels : AutumnImage
two_pixels = record { w = pos 2; h = pos 1; buffer = 0xFF0000FF ∷ 0x8000FF00 ∷ [] }

image_word-half : image_word rgb two_pixels 0 1 0 ≡ some 0x8000
unfolding image_word
image_word-half = refl

draw_img-pixel_example :
    Sized screen (draw_img screen rgb two_pixels (pos 1) (pos 0) black)
    × (pixel screen 2 0 (draw_img screen rgb two_pixels (pos 1) (pos 0) black) ≡ (
        if in_rect (pos 1) (pos 0) (pos 2) (pos 1) 2 0
        then picture_over rgb
            (get_or two_pixels.buffer (offset (pos 0) 0 * 2 + offset (pos 1) 2) 0)
            0
        else 0))
draw_img-pixel_example =
    draw_img-pixel screen screen-IsDisplay 2 0 (omega arith) (omega arith) rgb two_pixels (pos 1)
      (pos 0) black (omega arith) refl

-- A font with one glyph of one full pixel.
abbrev dot_face : Face
dot_face cp =
    if cp == 65
    then some (record {
      bitmap_left = pos 0;
      bitmap_top = pos 0;
      width = 1;
      rows = 1;
      buffer = 255 ∷ [];
      advance = pos 1;
    })
    else none

abbrev dot_font : Font
dot_font = record { face = dot_face; step = λ c. pos 1; ascender = pos 1; descender = pos 0 }

draw_textbox-pixel_example :
    let ty = pos 0 +ℤ div_trunc (pos 2) (pos 2) +ℤ floor_half (pos 1 +ℤ pos 0) in
    (out : List ℕ) × (draw_textbox screen rgb dot_font 3
        (negsuc 8)
        (pos 0)
        (pos 12)
        (pos 2)
        (pos 1)
        (some (65 ∷ 65 ∷ []))
        []
        7
        black
      ≡ some out)
    × Sized screen out
    × (pixel screen 1 1 out
        ≡ inked 1 1 rgb dot_face 7 (65 ∷ 65 ∷ []) (negsuc 8 +ℤ pos 10) ty (
            if in_rect (negsuc 8) (pos 0) (pos 12) (pos 2) 1 1
            then field_color (pos 12) (pos 2) (pos 1) (offset (pos 0) 1) (offset (negsuc 8) 1) 0
            else 0))
unfolding code_points unicode_tf8
draw_textbox-pixel_example =
    draw_textbox-pixel screen screen-IsDisplay 1 1 (omega arith) (omega arith) rgb dot_font 3
      (negsuc 8) (pos 0) (pos 12) (pos 2) (pos 1) 64 (65 ∷ []) [] (65 ∷ 65 ∷ []) 7 black refl refl
