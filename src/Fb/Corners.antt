-- ===== src/Fb/Corners.antt =====
-- What clearing, the rectangle with rounded corners and the window leave at one pixel.
use autumnos_mobile.Common.{
  ℕ, ◌<◌, ◌≡◌, refl, ap, inl, inr, Bool, true, false, ◌&&◌, ◌||◌, List, arith, if◌then◌else◌,
  Bool-cases, set, ℤ, pos, ◌+ℤ◌, ◌-ℤ◌, ◌*ℤ◌, ltb_ℤ, leb_ℤ, one_part, +ℤ_parts,
}
use autumnos_mobile.Fb.{
  FbDev, word_at, draw_rect, clear_fb, CornerRadius, kept_corner, draw_advanced_rect, corner_part,
  advanced_pix, window_pix, draw_window_body,
}
use autumnos_mobile.Fb.Pixel.{IsDisplay, Sized, pixel, is_at, write_word, draw_pix_lem}
use autumnos_mobile.Fb.Rect.{offset, in_rect, span_round, for_grid_lem, draw_rect-pixel}

-- What `AutumnAPI_DrawWindowBody` makes of the place (j, i) in the window: the corner's outside is
-- left alone, a ring of width 1 is the border, the rest is the background.
abbrev pub window_color : (w h r : ℤ) → (window_bg border_color : ℕ) → (j i : ℕ) → ℕ → ℕ
window_color w h r window_bg border_color j i old =
    let dx = corner_part r w (pos j) in
    let dy = corner_part r h (pos i) in
    let dist_sq = dx *ℤ dx +ℤ dy *ℤ dy in
    if leb_ℤ (r *ℤ r) dist_sq
    then old
    else if leb_ℤ ((r -ℤ pos 1) *ℤ (r -ℤ pos 1)) dist_sq
    then border_color
    else window_bg

module _ (fb : FbDev) (d : IsDisplay fb) (px py : ℕ) (hx : px < fb.w) (hy : py < fb.h) where
  -- On a display whose rows are whole words and hold its pixels, with a buffer of its size, every
  -- pixel of the screen has the colour after clearing.
  pub clear_fb-pixel :
      (color : ℕ) (buf : List ℕ)
      → Sized fb buf
      → Sized fb (clear_fb fb color buf) × (pixel fb px py (clear_fb fb color buf) ≡ color)
  unfolding clear_fb
  clear_fb-pixel color buf e =
      let done =
        for_grid_lem fb px py (pos 0) (pos 0) (pos fb.w) (pos fb.h)
          (λ y x b. set b (word_at fb x y) color) (λ _. color)
          (λ i j b low right g. ground (
            arith,
            write_word fb d px py hx hy j i color b right low g,
            +ℤ_parts (pos 0) (pos i),
            +ℤ_parts (pos 0) (pos j),
            one_part (pos 0 +ℤ pos i),
            one_part (pos 0 +ℤ pos j),
          ))
          buf e in
      ground (
        arith,
        done,
        +ℤ_parts (pos 0) (pos fb.w),
        +ℤ_parts (pos 0) (pos fb.h),
        one_part (pos 0 +ℤ pos fb.w),
        one_part (pos 0 +ℤ pos fb.h),
      )

  abbrev off_at : ℤ → ℤ → Bool
  off_at tx ty = ltb_ℤ tx (pos 0) || leb_ℤ (pos fb.w) tx || ltb_ℤ ty (pos 0) || leb_ℤ (pos fb.h) ty

  off_misses : (tx ty : ℤ) → off_at tx ty ≡ true → is_at px py tx ty ≡ false
  off_misses tx ty off = ground (arith, off)

  same_both : (b : Bool) (v : ℕ) → v ≡ (if b then v else v)
  same_both b v = ground arith

  advanced_pix_lem :
      (x y w h : ℤ) (color : ℕ) (r : CornerRadius) (fill : Bool) (i j : ℕ) (buf : List ℕ)
      → Sized fb buf
      → Sized fb (advanced_pix fb x y w h color r fill i j buf)
        × (pixel fb px py (advanced_pix fb x y w h color r fill i j buf) ≡ (
            if is_at px py (x +ℤ pos j) (y +ℤ pos i)
            then (if kept_corner w h r (pos j) (pos i) && fill then color else pixel fb px py buf)
            else pixel fb px py buf))
  unfolding advanced_pix
  advanced_pix_lem x y w h color r fill i j buf e =
      let drawn = draw_pix_lem fb d px py hx hy (x +ℤ pos j) (y +ℤ pos i) color buf e in
      elim (Bool-cases (off_at (x +ℤ pos j) (y +ℤ pos i))) [
        | inl off ↦ rw (off, off_misses (x +ℤ pos j) (y +ℤ pos i) off) (e, refl)
        | inr on ↦ elim (Bool-cases (kept_corner w h r (pos j) (pos i) && fill)) [
          | inl kept ↦ rw (on, kept) drawn
          | inr cut ↦
              rw (on, cut)
                (e, same_both (is_at px py (x +ℤ pos j) (y +ℤ pos i)) (pixel fb px py buf))
        ]
      ]

  -- On a display whose rows are whole words and hold its pixels, with a buffer of its size, a
  -- filled rectangle with rounded corners gives its colour to the pixels of the screen that lie
  -- in it and are not cut off by a corner, and changes no other, nor the buffer's length. One
  -- that is not filled changes nothing.
  pub draw_advanced_rect-pixel :
      (x y w h : ℤ) (color : ℕ) (r : CornerRadius) (fill : Bool) (buf : List ℕ)
      → Sized fb buf
      → Sized fb (draw_advanced_rect fb x y w h color r fill buf)
        × (pixel fb px py (draw_advanced_rect fb x y w h color r fill buf) ≡ (
            if in_rect x y w h px py
              && (kept_corner w h r (pos (offset x px)) (pos (offset y py)) && fill)
            then color
            else pixel fb px py buf))
  unfolding draw_advanced_rect
  draw_advanced_rect-pixel x y w h color r fill buf e =
      let f : ℕ → ℕ = λ old.
        if kept_corner w h r (pos (offset x px)) (pos (offset y py)) && fill then color else old in
      ground (
        arith,
        for_grid_lem fb px py x y w h (advanced_pix fb x y w h color r fill) f
            (λ i j b low right g. elim (Bool-cases (is_at px py (x +ℤ pos j) (y +ℤ pos i))) [
              | inl here ↦
                  let column : j ≡ offset x px = span_round x px j (ground (arith, here)) in
                  let row : i ≡ offset y py = span_round y py i (ground (arith, here)) in
                  ground (
                    arith,
                    here,
                    advanced_pix_lem x y w h color r fill i j b g,
                    ap (λ k. kept_corner w h r (pos k) (pos i)) column,
                    ap (λ k. kept_corner w h r (pos (offset x px)) (pos k)) row,
                  )
              | inr away ↦ ground (arith, away, advanced_pix_lem x y w h color r fill i j b g)
            ])
            buf e,
      )

  dot : (x y : ℤ) → in_rect x y (pos 1) (pos 1) px py ≡ is_at px py x y
  dot x y = ground (arith, +ℤ_parts x (pos 1), +ℤ_parts y (pos 1))

  pub draw_dot :
      (x y : ℤ) (color : ℕ) (buf : List ℕ)
      → Sized fb buf
      → Sized fb (draw_rect fb x y (pos 1) (pos 1) color true buf)
        × (pixel fb px py (draw_rect fb x y (pos 1) (pos 1) color true buf)
            ≡ (if is_at px py x y then color else pixel fb px py buf))
  draw_dot x y color buf e =
      rw (← dot x y) (draw_rect-pixel fb d px py hx hy x y (pos 1) (pos 1) color true buf e)

  window_pix_lem :
      (x y w h r : ℤ) (window_bg border_color : ℕ) (i j : ℕ) (buf : List ℕ)
      → Sized fb buf
      → Sized fb (window_pix fb x y w h r window_bg border_color i j buf)
        × (pixel fb px py (window_pix fb x y w h r window_bg border_color i j buf) ≡ (
            if is_at px py (x +ℤ pos j) (y +ℤ pos i)
            then window_color w h r window_bg border_color j i (pixel fb px py buf)
            else pixel fb px py buf))
  unfolding window_pix
  window_pix_lem x y w h r window_bg border_color i j buf e = ground (
    arith,
    e,
    draw_dot (x +ℤ pos j) (y +ℤ pos i) border_color buf e,
    draw_dot (x +ℤ pos j) (y +ℤ pos i) window_bg buf e,
  )

  -- On a display whose rows are whole words and hold its pixels, with a buffer of its size, a
  -- window gives the pixels of the screen that lie in it the border's colour on the ring of its
  -- rounded outline, the background's inside the ring, leaves them alone outside, and changes no
  -- pixel outside the window, nor the buffer's length.
  draw_window_body-pixel :
      (x y w h r : ℤ) (window_bg border_color : ℕ) (buf : List ℕ)
      → Sized fb buf
      → Sized fb (draw_window_body fb x y w h r window_bg border_color buf)
        × (pixel fb px py (draw_window_body fb x y w h r window_bg border_color buf) ≡ (
            if in_rect x y w h px py
            then window_color w h r window_bg border_color
                (offset x px)
                (offset y py)
                (pixel fb px py buf)
            else pixel fb px py buf))
  unfolding draw_window_body
  draw_window_body-pixel x y w h r window_bg border_color buf e =
      for_grid_lem fb px py x y w h (window_pix fb x y w h r window_bg border_color)
        (window_color w h r window_bg border_color (offset x px) (offset y py))
        (λ i j b low right g. elim (Bool-cases (is_at px py (x +ℤ pos j) (y +ℤ pos i))) [
          | inl here ↦
              let column : j ≡ offset x px = span_round x px j (ground (arith, here)) in
              let row : i ≡ offset y py = span_round y py i (ground (arith, here)) in
              ground (
                arith,
                here,
                window_pix_lem x y w h r window_bg border_color i j b g,
                ap (λ k. window_color w h r window_bg border_color k i (pixel fb px py b)) column,
                ap
                    (λ k.
                      window_color w h r window_bg border_color (offset x px) k (pixel fb px py b))
                    row,
              )
          | inr away ↦ ground (arith, away, window_pix_lem x y w h r window_bg border_color i j b g)
        ])
        buf e
