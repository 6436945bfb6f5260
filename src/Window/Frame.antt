-- ===== src/Window/Frame.antt =====
-- What body, panel and buttons of a window leave at one pixel of the back buffer.
use autumnos_mobile.Common.{
  ℕ, ◌<◌, ◌≡◌, refl, ap, ◌∙◌, inl, inr, Bool, true, ◌&&◌, List, arith, if◌then◌else◌, Bool-cases,
  any_in, paint_range, paint_once, ℤ, pos, pos_part, ◌+ℤ◌, ◌-ℤ◌, ltb_ℤ, leb_ℤ, eqb_ℤ, one_part,
  int_laws,
}
use autumnos_mobile.Palette.{get_gradient_color, al_blend}
use autumnos_mobile.Fb.{FbDev}
use autumnos_mobile.Fb.Pixel.{IsDisplay, Sized, pixel, is_at, write_word}
use autumnos_mobile.Fb.Rect.{in_span, in_rect, offset, any_in-span, span_round}
use autumnos_mobile.Window.{
  Window, Rounding, blend_pix, blend_row, blend_shape, body_inset, panel_inset, dark_green_bg,
  panel_y, panel_r, btn_x, btn_y, draw_body, draw_panel, draw_btn, draw_frame,
}

shift : (x from : ℤ) (k : ℕ) → x +ℤ (from +ℤ pos k) ≡ x +ℤ from +ℤ pos k
shift x from k = omega int_laws

-- The pixel lies in a shape at (x, y) of `h` rows, each inset on both sides of the width `w`.
abbrev pub in_shape : (x y w h : ℤ) → (ℕ → ℤ) → ℕ → ℕ → Bool
in_shape x y w h inset px py =
    let from = inset (offset y py) in in_span (x +ℤ from) (w -ℤ from -ℤ from) px && in_span y h py

no_inset : (x y w h : ℤ) (px py : ℕ) → in_shape x y w h (λ _. pos 0) px py ≡ in_rect x y w h px py
no_inset x y w h px py =
    ap (λ t. in_span t (w -ℤ pos 0 -ℤ pos 0) px && in_span y h py) left
    ∙ ap (λ t. in_span x t px && in_span y h py) whole
  where
    left : x +ℤ pos 0 ≡ x
    left = omega int_laws

    whole : w -ℤ pos 0 -ℤ pos 0 ≡ w
    whole = omega int_laws

module _ (fb : FbDev) (d : IsDisplay fb) (px py : ℕ) (hx : px < fb.w) (hy : py < fb.h)
    (screen : List ℕ) (alpha : ℤ) where
  -- The colour blended over the screen's at the pixel.
  abbrev pub blended : ℕ → ℕ
  blended color = al_blend fb.w fb.h screen (pos px) (pos py) color alpha

  blend_pix_lem :
      (color : ℕ) (tx ty : ℤ) (buf : List ℕ)
      → Sized fb buf
      → Sized fb (blend_pix fb screen color alpha tx ty buf)
        × (pixel fb px py (blend_pix fb screen color alpha tx ty buf)
            ≡ (if is_at px py tx ty then blended color else pixel fb px py buf))
  unfolding blend_pix
  blend_pix_lem color tx ty buf e =
      elim (Bool-cases
        (leb_ℤ (pos 0) tx && ltb_ℤ tx (pos fb.w) && leb_ℤ (pos 0) ty && ltb_ℤ ty (pos fb.h))) [
          | inl on ↦
              let c = al_blend fb.w fb.h screen tx ty color alpha in
              let written =
                write_word fb d px py hx hy (pos_part tx) (pos_part ty) c buf (ground (arith, on))
                  (ground (arith, on)) e in
              let same_x : is_at px py tx ty ≡ true → tx ≡ pos px = λ t. ground (arith, t) in
              let same_y : is_at px py tx ty ≡ true → ty ≡ pos py = λ t. ground (arith, t) in
              elim (Bool-cases (is_at px py tx ty)) [
                | inl here ↦
                    let same : c ≡ blended color =
                      ap (λ t. al_blend fb.w fb.h screen t ty color alpha) (same_x here)
                      ∙ ap (λ t. al_blend fb.w fb.h screen (pos px) t color alpha) (same_y here) in
                    rw (on, here)
                      (ground (arith, on, here, written, same, one_part tx, one_part ty))
                | inr away ↦
                    rw (on, away) (ground (arith, on, away, written, one_part tx, one_part ty))
              ]
          | inr off ↦ ground (arith, off, e)
        ]

  row_lem :
      (x y from to : ℤ) (color i : ℕ) (buf : List ℕ)
      → Sized fb buf
      → Sized fb (blend_row fb screen alpha x y from to color i buf)
        × (pixel fb px py (blend_row fb screen alpha x y from to color i buf) ≡ (
            if eqb_ℤ (y +ℤ pos i) (pos py) && in_span (x +ℤ from) (to -ℤ from) px
            then blended color
            else pixel fb px py buf))
  unfolding blend_row
  row_lem x y from to color i buf e =
      let here = eqb_ℤ (y +ℤ pos i) (pos py) in
      let done =
        paint_range (Sized fb) (pixel fb px py)
          (λ k. blend_pix fb screen color alpha (x +ℤ (from +ℤ pos k)) (y +ℤ pos i))
          (λ k. eqb_ℤ (x +ℤ from +ℤ pos k) (pos px) && here) (blended color) (pos_part (to -ℤ from))
          0
          (λ k b lo hi g.
            rw (← shift x from k) (blend_pix_lem color (x +ℤ (from +ℤ pos k)) (y +ℤ pos i) b g))
          buf e in
      ground (arith, done, any_in-span (x +ℤ from) (to -ℤ from) px here)

  shape_lem :
      (x y w h : ℤ) (inset : ℕ → ℤ) (color : ℕ → ℕ) (buf : List ℕ)
      → Sized fb buf
      → Sized fb (blend_shape fb screen alpha x y w h inset color buf)
        × (pixel fb px py (blend_shape fb screen alpha x y w h inset color buf) ≡ (
            if in_shape x y w h inset px py
            then blended (color (offset y py))
            else pixel fb px py buf))
  unfolding blend_shape
  shape_lem x y w h inset color buf e =
      let row : ℕ → Bool = λ i. in_span (x +ℤ inset i) (w -ℤ inset i -ℤ inset i) px in
      let o = offset y py in
      let done =
        paint_once (Sized fb) (pixel fb px py)
          (λ i. blend_row fb screen alpha x y (inset i) (w -ℤ inset i) (color i) i)
          (λ i. eqb_ℤ (y +ℤ pos i) (pos py) && row o) (λ _. blended (color o)) o
          (λ i hit. span_round y py i (ground (arith, hit))) (pos_part h) 0
          (λ i b lo hi g. elim (Bool-cases (eqb_ℤ (y +ℤ pos i) (pos py))) [
            | inl here ↦
                let now : i ≡ o = span_round y py i here in
                rw (here, ← now) (rw here at (row_lem x y (inset i) (w -ℤ inset i) (color i) i b g))
            | inr away ↦ rw away (rw away at (row_lem x y (inset i) (w -ℤ inset i) (color i) i b g))
          ])
          buf e in
      ground (arith, done, any_in-span y h py (row o))

  btn_lem :
      (win : Window) (i : ℕ) (buf : List ℕ)
      → win.alpha ≡ alpha
      → Sized fb buf
      → Sized fb (draw_btn fb screen win i buf)
        × (pixel fb px py (draw_btn fb screen win i buf) ≡ (
            if in_rect (btn_x win i) (btn_y win) (pos 180) (pos 50) px py
            then blended 0xFFD3D3D3
            else pixel fb px py buf))
  unfolding draw_btn
  btn_lem win i buf same e =
      rw (same, ← no_inset (btn_x win i) (btn_y win) (pos 180) (pos 50) px py)
        (shape_lem (btn_x win i) (btn_y win) (pos 180) (pos 50) (λ _. pos 0) (λ _. 0xFFD3D3D3) buf
          e)

-- What a window's frame makes of a pixel: the buttons are in front, then comes the panel, then the
-- body with its gradient.
abbrev pub frame_color : FbDev → Rounding → List ℕ → Window → ℕ → ℕ → ℕ → ℕ
frame_color fb round_sqrt screen win px py old =
    let over : ℕ → ℕ = λ color. al_blend fb.w fb.h screen (pos px) (pos py) color win.alpha in
    if any_in (λ i. in_rect (btn_x win i) (btn_y win) (pos 180) (pos 50) px py)
      (pos_part win.btn_count) 0
    then over 0xFFD3D3D3
    else if in_shape (win.x +ℤ pos 2) (panel_y win) (win.w -ℤ pos 4) (pos 50)
        (panel_inset round_sqrt (panel_r win)) px py
    then over 0xFF808080
    else if in_shape win.x win.y win.w win.h (body_inset round_sqrt win.h win.r) px py
    then over (get_gradient_color dark_green_bg (pos (offset win.y py)) (pos 0) win.h)
    else old

module _ (fb : FbDev) (d : IsDisplay fb) (px py : ℕ) (hx : px < fb.w) (hy : py < fb.h)
    (round_sqrt : Rounding) (screen : List ℕ) (win : Window) where
  -- On a display whose rows are whole words and hold its pixels, with a back buffer of its size, the
  -- frame of a window gives each pixel of the screen the colour of what is in front there, blended
  -- over the screen: grey in a button, else dark grey in the panel with its lower corners rounded,
  -- else the gradient of its row in the body with all corners rounded; it changes no other pixel,
  -- nor the buffer's length.
  pub draw_frame-pixel :
      (buf : List ℕ)
      → Sized fb buf
      → Sized fb (draw_frame fb round_sqrt screen win buf)
        × (pixel fb px py (draw_frame fb round_sqrt screen win buf)
            ≡ frame_color fb round_sqrt screen win px py (pixel fb px py buf))
  unfolding draw_frame draw_body draw_panel
  draw_frame-pixel buf e =
      let body =
        shape_lem fb d px py hx hy screen win.alpha win.x win.y win.w win.h
          (body_inset round_sqrt win.h win.r)
          (λ i. get_gradient_color dark_green_bg (pos i) (pos 0) win.h) buf e in
      let panel =
        shape_lem fb d px py hx hy screen win.alpha (win.x +ℤ pos 2) (panel_y win) (win.w -ℤ pos 4)
          (pos 50) (panel_inset round_sqrt (panel_r win)) (λ _. 0xFF808080)
          (draw_body fb round_sqrt screen win buf) body.0 in
      let all =
        paint_range (Sized fb) (pixel fb px py) (draw_btn fb screen win)
          (λ i. in_rect (btn_x win i) (btn_y win) (pos 180) (pos 50) px py)
          (al_blend fb.w fb.h screen (pos px) (pos py) 0xFFD3D3D3 win.alpha)
          (pos_part win.btn_count) 0
          (λ i b lo hi. btn_lem fb d px py hx hy screen win.alpha win i b refl)
          (draw_panel fb round_sqrt screen win (draw_body fb round_sqrt screen win buf)) panel.0 in
      (all.0, rw (panel.1, body.1) at all.1)
