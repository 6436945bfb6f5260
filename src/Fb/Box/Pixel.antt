-- ===== src/Fb/Box/Pixel.antt =====
-- What buttons and text fields leave at one pixel of the back buffer.
use autumnos_mobile.Common.{
  ℕ, suc, ◌<◌, ◌≡◌, ap, ◌∙◌, inl, inr, true, false, ◌||◌, ◌==◌, some, List, ◌∷◌, arith,
  if◌then◌else◌, Bool-cases, length, ℤ, pos, ◌+ℤ◌, ◌-ℤ◌, ◌*ℤ◌, ltb_ℤ, leb_ℤ, ◌/◌, negsuc, refl,
  eqb_ℤ, div_trunc, c_string,
}
use autumnos_mobile.Fb.{FbDev, for_grid, draw_rect, corner_part}
use autumnos_mobile.Fb.Pixel.{IsDisplay, Sized, pixel, is_at}
use autumnos_mobile.Fb.Rect.{in_rect, offset, span_round, for_grid_lem}
use autumnos_mobile.Fb.Corners.{draw_dot}
use autumnos_mobile.Fb.Blit.{Layout}
use autumnos_mobile.Nls.{code_points}
use autumnos_mobile.Fb.Text.{
  draw_glyphs, draw_string-decoded, draw_glyphs-pixel, inked, text_pixel-inked,
}
use autumnos_mobile.Fb.Box.{
  Font, half_floor, corner_dist, on_ring, button_pix, textbox_pix, draw_textbox,
}

-- The colours of the two boxes.
abbrev pub button_color : (w h r : ℤ) → (ℕ → ℕ) → ℕ → ℕ → ℕ → ℕ
unfolding corner_dist
button_color w h r shade i j old =
    if ltb_ℤ (corner_dist r w h i j) (r *ℤ r)
    then (if on_ring r (corner_dist r w h i j) then 0xFF808080 else shade i)
    else old

abbrev pub textbox_color : (w h r : ℤ) → ℕ → ℕ → ℕ → ℕ
unfolding corner_dist
textbox_color w h r i j old =
    if ltb_ℤ (corner_dist r w h i j) (r *ℤ r)
    then (if on_ring r (corner_dist r w h i j)
          || eqb_ℤ (pos i) (pos 0)
          || eqb_ℤ (pos i) (h -ℤ pos 1)
          || eqb_ℤ (pos j) (pos 0)
          || eqb_ℤ (pos j) (w -ℤ pos 1)
        then 0xFFFFFFFF
        else 0xFF2A2A2A)
    else old

-- How far place `j` of `w` lies in one of the two corners of radius `r`.
abbrev in_corner : (r w j : ℤ) → ℤ
in_corner r w j =
    if ltb_ℤ j r
    then r -ℤ j
    else if ltb_ℤ (w -ℤ pos 1 -ℤ r) j
    then j -ℤ (w -ℤ pos 1 -ℤ r)
    else pos 0

-- The colour of row `i` and column `j` of a text field: nothing from the radius of the corner on, white
-- on its edges and in the last pixel before the radius, and dark grey elsewhere.
abbrev pub field_color : (w h r : ℤ) → ℕ → ℕ → ℕ → ℕ
field_color w h r i j old =
    let dx = in_corner r w (pos j) in
    let dy = in_corner r h (pos i) in
    let square = dx *ℤ dx +ℤ dy *ℤ dy in
    if ltb_ℤ square (r *ℤ r)
    then (if leb_ℤ ((r -ℤ pos 1) *ℤ (r -ℤ pos 1)) square
          || eqb_ℤ (pos i) (pos 0)
          || eqb_ℤ (pos i) (h -ℤ pos 1)
          || eqb_ℤ (pos j) (pos 0)
          || eqb_ℤ (pos j) (w -ℤ pos 1)
        then 0xFFFFFFFF
        else 0xFF2A2A2A)
    else old

textbox_color-field_color :
    (w h r : ℤ) (i j old : ℕ) → textbox_color w h r i j old ≡ field_color w h r i j old
unfolding textbox_color corner_part
textbox_color-field_color w h r i j old = refl

-- Half of a number, rounded down.
abbrev pub floor_half : ℤ → ℤ
floor_half (pos n) = pos (n / 2)
floor_half (negsuc n) = negsuc (n / 2)

half_floor-floor_half : (n : ℤ) → half_floor n ≡ floor_half n
half_floor-floor_half (pos n) = refl
half_floor-floor_half (negsuc n) = refl

module _ (fb : FbDev) (d : IsDisplay fb) (px py : ℕ) (hx : px < fb.w) (hy : py < fb.h) where
  -- A double loop whose rounds each give their pixel the colour `color` of their row and column.
  grid_color :
      (x y w h : ℤ) (body : ℕ → ℕ → List ℕ → List ℕ) (color : ℕ → ℕ → ℕ → ℕ)
      → ((i j : ℕ) (b : List ℕ)
          → Sized fb b
          → Sized fb (body i j b)
            × (pixel fb px py (body i j b) ≡ (
                if is_at px py (x +ℤ pos j) (y +ℤ pos i)
                then color i j (pixel fb px py b)
                else pixel fb px py b)))
      → (buf : List ℕ) → Sized fb buf
      → Sized fb (for_grid w h body buf)
        × (pixel fb px py (for_grid w h body buf) ≡ (
            if in_rect x y w h px py
            then color (offset y py) (offset x px) (pixel fb px py buf)
            else pixel fb px py buf))
  grid_color x y w h body color each buf e =
      for_grid_lem fb px py x y w h body (color (offset y py) (offset x px))
        (λ i j b low right g.
          let (sized, seen) = each i j b g in
          (
            sized,
            elim (Bool-cases (is_at px py (x +ℤ pos j) (y +ℤ pos i))) [
              | inl here ↦
                  let column : j ≡ offset x px = span_round x px j (ground (arith, here)) in
                  let row : i ≡ offset y py = span_round y py i (ground (arith, here)) in
                  ground (
                    arith,
                    here,
                    seen,
                    ap (λ k. color i k (pixel fb px py b)) column,
                    ap (λ k. color k (offset x px) (pixel fb px py b)) row,
                  )
              | inr away ↦ ground (arith, away, seen)
            ],
          ))
        buf e

  textbox_pix_lem :
      (x y w h r : ℤ) (i j : ℕ) (b : List ℕ)
      → Sized fb b
      → Sized fb (textbox_pix fb x y w h r i j b)
        × (pixel fb px py (textbox_pix fb x y w h r i j b) ≡ (
            if is_at px py (x +ℤ pos j) (y +ℤ pos i)
            then textbox_color w h r i j (pixel fb px py b)
            else pixel fb px py b))
  unfolding textbox_pix textbox_color
  textbox_pix_lem x y w h r i j b e = ground (
    arith,
    e,
    draw_dot fb d px py hx hy (x +ℤ pos j) (y +ℤ pos i) 0xFFFFFFFF b e,
    draw_dot fb d px py hx hy (x +ℤ pos j) (y +ℤ pos i) 0xFF2A2A2A b e,
  )

  button_pix_lem :
      (x y w h r : ℤ) (shade : ℕ → ℕ) (i j : ℕ) (b : List ℕ)
      → Sized fb b
      → Sized fb (button_pix fb x y w h r shade i j b)
        × (pixel fb px py (button_pix fb x y w h r shade i j b) ≡ (
            if is_at px py (x +ℤ pos j) (y +ℤ pos i)
            then button_color w h r shade i j (pixel fb px py b)
            else pixel fb px py b))
  unfolding button_pix button_color
  button_pix_lem x y w h r shade i j b e =
      let first = draw_dot fb d px py hx hy (x +ℤ pos j) (y +ℤ pos i) (shade i) b e in
      ground (
        arith,
        e,
        first,
        draw_dot fb d px py hx hy (x +ℤ pos j) (y +ℤ pos i) 0xFF808080
            (draw_rect fb (x +ℤ pos j) (y +ℤ pos i) (pos 1) (pos 1) (shade i) true b) first.0,
      )

  -- The box of a text field, and that of a button.
  pub textbox-pixel :
      (x y w h r : ℤ) (buf : List ℕ)
      → Sized fb buf
      → Sized fb (for_grid w h (textbox_pix fb x y w h r) buf)
        × (pixel fb px py (for_grid w h (textbox_pix fb x y w h r) buf) ≡ (
            if in_rect x y w h px py
            then textbox_color w h r (offset y py) (offset x px) (pixel fb px py buf)
            else pixel fb px py buf))
  textbox-pixel x y w h r buf e =
      grid_color x y w h (textbox_pix fb x y w h r) (textbox_color w h r)
        (textbox_pix_lem x y w h r) buf e

  pub button-pixel :
      (x y w h r : ℤ) (shade : ℕ → ℕ) (buf : List ℕ)
      → Sized fb buf
      → Sized fb (for_grid w h (button_pix fb x y w h r shade) buf)
        × (pixel fb px py (for_grid w h (button_pix fb x y w h r shade) buf) ≡ (
            if in_rect x y w h px py
            then button_color w h r shade (offset y py) (offset x px) (pixel fb px py buf)
            else pixel fb px py buf))
  button-pixel x y w h r shade buf e =
      grid_color x y w h (button_pix fb x y w h r shade) (button_color w h r shade)
        (button_pix_lem x y w h r shade) buf e

  -- On a display whose rows are whole words and hold its pixels, with a buffer of its size, a text
  -- field with a text of the code points `cps` gives the pixels of its box the colour of the frame or
  -- of the field, leaves them alone where the rounded corners are cut off, and draws the text over
  -- that. Nothing else changes.
  pub draw_textbox-pixel :
      (l : Layout) (font : Font) (fuel : ℕ) (x y w h r : ℤ) (c : ℕ) (text placeholder cps : List ℕ)
      (text_color : ℕ) (buf : List ℕ)
      → Sized fb buf
      → code_points fuel (suc c ∷ text) ≡ some cps
      → let tx = x +ℤ pos 10 in
        let ty = y +ℤ div_trunc h (pos 2) +ℤ floor_half (font.ascender +ℤ font.descender) in
        (out : List ℕ) × (draw_textbox fb l font fuel x y w h r
            (some (suc c ∷ text))
            placeholder
            text_color
            buf
          ≡ some out)
        × Sized fb out
        × (pixel fb px py out
            ≡ inked px py l font.face text_color cps tx ty (
                if in_rect x y w h px py
                then field_color w h r (offset y py) (offset x px) (pixel fb px py buf)
                else pixel fb px py buf))
  unfolding draw_textbox
  draw_textbox-pixel l font fuel x y w h r c text placeholder cps text_color buf e decoded =
      let tx = x +ℤ pos 10 in
      let ty = y +ℤ div_trunc h (pos 2) +ℤ half_floor (font.ascender +ℤ font.descender) in
      let box = for_grid w h (textbox_pix fb x y w h r) buf in
      let (sized, seen) = textbox-pixel x y w h r buf e in
      let (sized', seen') =
        draw_glyphs-pixel fb d px py hx hy l font.face text_color cps tx ty box sized in
      (
        draw_glyphs fb l font.face text_color cps tx ty box,
        rw (some_text (length (c_string text))) (
            draw_string-decoded fb l font.face fuel (suc c ∷ text) text_color cps tx ty box
              decoded),
        sized',
        seen'
            ∙ text_pixel-inked px py l font.face text_color cps tx ty _
            ∙ ap (inked px py l font.face text_color cps tx ty) (seen ∙ by_field),
      )
    where
      by_field :
          (if in_rect x y w h px py
            then textbox_color w h r (offset y py) (offset x px) (pixel fb px py buf)
            else pixel fb px py buf)
          ≡ (if in_rect x y w h px py
              then field_color w h r (offset y py) (offset x px) (pixel fb px py buf)
              else pixel fb px py buf)
      by_field =
          ap (λ c'. if in_rect x y w h px py then c' else pixel fb px py buf)
            (textbox_color-field_color w h r (offset y py) (offset x px) (pixel fb px py buf))

      some_text : (n : ℕ) → (suc n == 0) ≡ false
      some_text n = ground arith
