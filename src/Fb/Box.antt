-- ===== src/Fb/Box.antt =====
-- Buttons and text fields of v0.1-alpha/API/libfbdev.c: `AutumnAPI_GetStringWidth`,
-- `AutumnAPI_DrawButton` and `AutumnAPI_DrawTextbox`. The metrics of the font are arguments.
pub mod Pixel
use autumnos_mobile.Common.{
  ℕ, zero, suc, ◌+◌, ◌/◌, ◌<◌, ◌≡◌, refl, sym, ap, ◌∙◌, inl, inr, Bool, true, false, not, ◌&&◌,
  ◌||◌, ◌==◌, Option, none, some, List, [], ◌∷◌, arith, if◌then◌else◌, Bool-cases, length, ℤ, pos,
  negsuc, ◌+ℤ◌, ◌-ℤ◌, ◌*ℤ◌, ltb_ℤ, leb_ℤ, eqb_ℤ, div_trunc, c_string,
}
use autumnos_mobile.Fb.{FbDev, for_grid, draw_rect, corner_part}
use autumnos_mobile.Fb.Pixel.{IsDisplay, Sized, pixel, is_at}
use autumnos_mobile.Fb.Rect.{in_rect, offset, span_round, for_grid_lem}
use autumnos_mobile.Fb.Corners.{draw_dot}
use autumnos_mobile.Fb.Blit.{Layout, AutumnImage, draw_img, or_old}
use autumnos_mobile.Nls.{code_points}
use autumnos_mobile.Fb.Text.{
  Face, draw_string, draw_glyphs, draw_string-decoded, text_pixel, draw_glyphs-pixel,
}

-- The font: what it renders, the step of the glyph that is loaded after a byte of a text, and its two
-- metrics, all in pixels.
pub record Font : Type 0 where
  pub face : Face
  pub step : ℕ → ℤ
  pub ascender : ℤ
  pub descender : ℤ

-- `AutumnAPI_GetStringWidth`, for the bytes before the NUL.
pub get_string_width : Font → List ℕ → ℤ
get_string_width font [] = pos 0
get_string_width font (c ∷ text) = font.step c +ℤ get_string_width font text

-- `>> 1`.
abbrev pub half_floor : ℤ → ℤ
half_floor (pos n) = pos (n / 2)
half_floor (negsuc n) = negsuc (n / 2)

-- `dx * dx + dy * dy` of column `j` and row `i` of a rounded box.
abbrev pub corner_dist : (r w h : ℤ) → ℕ → ℕ → ℤ
unfolding corner_part
corner_dist r w h i j =
    let dx = corner_part r w (pos j) in let dy = corner_part r h (pos i) in dx *ℤ dx +ℤ dy *ℤ dy

abbrev pub on_ring : (r dist_sq : ℤ) → Bool
on_ring r dist_sq = leb_ℤ ((r -ℤ pos 1) *ℤ (r -ℤ pos 1)) dist_sq

-- A round of the box of a button, where `shade` is the colour of a row.
pub button_pix : FbDev → (x y w h r : ℤ) → (ℕ → ℕ) → ℕ → ℕ → List ℕ → List ℕ
unfolding draw_rect corner_dist
button_pix fb x y w h r shade i j buf =
    let dist_sq = corner_dist r w h i j in
    let drawn = draw_rect fb (x +ℤ pos j) (y +ℤ pos i) (pos 1) (pos 1) (shade i) true buf in
    if ltb_ℤ dist_sq (r *ℤ r)
    then (if on_ring r dist_sq
        then draw_rect fb (x +ℤ pos j) (y +ℤ pos i) (pos 1) (pos 1) 0xFF808080 true drawn
        else drawn)
    else buf

-- A round of the box of a text field.
pub textbox_pix : FbDev → (x y w h r : ℤ) → ℕ → ℕ → List ℕ → List ℕ
unfolding draw_rect corner_dist
textbox_pix fb x y w h r i j buf =
    let dist_sq = corner_dist r w h i j in
    if ltb_ℤ dist_sq (r *ℤ r)
    then (if on_ring r dist_sq
          || eqb_ℤ (pos i) (pos 0)
          || eqb_ℤ (pos i) (h -ℤ pos 1)
          || eqb_ℤ (pos j) (pos 0)
          || eqb_ℤ (pos j) (w -ℤ pos 1)
        then draw_rect fb (x +ℤ pos j) (y +ℤ pos i) (pos 1) (pos 1) 0xFFFFFFFF true buf
        else draw_rect fb (x +ℤ pos j) (y +ℤ pos i) (pos 1) (pos 1) 0xFF2A2A2A true buf)
    else buf

-- `AutumnAPI_DrawTextbox`; a text is `none` for NULL. `none` is a text that is decoded for ever.
pub draw_textbox :
    FbDev
    → Layout
    → Font
    → ℕ
    → (x y w h r : ℤ) → Option (List ℕ)
    → List ℕ
    → ℕ
    → List ℕ
    → Option (List ℕ)
unfolding textbox_pix
draw_textbox fb l font fuel x y w h r text placeholder text_color buf =
    let box = for_grid w h (textbox_pix fb x y w h r) buf in
    let tx = x +ℤ pos 10 in
    let ty = y +ℤ div_trunc h (pos 2) +ℤ half_floor (font.ascender +ℤ font.descender) in
    elim text [
      | none ↦ draw_string fb l font.face fuel placeholder 0xFF888888 tx ty box
      | some s ↦
          if length (c_string s) == 0
          then draw_string fb l font.face fuel placeholder 0xFF888888 tx ty box
          else draw_string fb l font.face fuel s text_color tx ty box
    ]

-- The width of a button that holds its text and its icon.
pub button_width : ℤ → ℤ → Option AutumnImage → ℤ
button_width w text_w icon =
    let text_min = text_w +ℤ pos 20 in
    let min_w : ℤ = elim icon [
      | none ↦ text_min
      | some img ↦ if ltb_ℤ text_min (img.w +ℤ pos 20) then img.w +ℤ pos 20 else text_min
    ] in
    if ltb_ℤ w min_w then min_w else w

-- `AutumnAPI_DrawButton`; a text that is NULL is the empty one, and an icon has pixels. `shade` is
-- `ApplyGrad` with the background's colour where the service table has it.
pub draw_button :
    FbDev
    → Layout
    → Font
    → ℕ
    → (x y w h r : ℤ) → (ℕ → ℕ)
    → List ℕ
    → ℕ
    → Option AutumnImage
    → List ℕ
    → Option (List ℕ)
unfolding button_pix button_width get_string_width
draw_button fb l font fuel x y w h r shade text text_color icon buf =
    let text_w = get_string_width font (c_string text) in
    let width = button_width w text_w icon in
    let has_text = not (length (c_string text) == 0) in
    let text_h = if has_text then font.ascender -ℤ font.descender else pos 0 in
    let box = for_grid width h (button_pix fb x y width h r shade) buf in
    elim icon [
      | none ↦
          let start_y = y +ℤ div_trunc (h -ℤ text_h) (pos 2) in
          if has_text
          then draw_string fb l font.face fuel text text_color
              (x +ℤ div_trunc (width -ℤ text_w) (pos 2)) (start_y +ℤ font.ascender) box
          else some box
      | some img ↦
          let spacing = if has_text then pos 4 else pos 0 in
          let start_y = y +ℤ div_trunc (h -ℤ (img.h +ℤ spacing +ℤ text_h)) (pos 2) in
          let with_icon = draw_img fb l img (x +ℤ div_trunc (width -ℤ img.w) (pos 2)) start_y box in
          if has_text
          then draw_string fb l font.face fuel text text_color
              (x +ℤ div_trunc (width -ℤ text_w) (pos 2))
              (start_y +ℤ (img.h +ℤ pos 4) +ℤ font.ascender) with_icon
          else some with_icon
    ]
