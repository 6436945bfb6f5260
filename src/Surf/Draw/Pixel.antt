-- ===== src/Surf/Draw/Pixel.antt =====
-- What `AutixSurf_DrawLayer` leaves at one pixel of the screen.
use autumnos_mobile.Common.{
  ℕ, ◌+◌, ◌*◌, ◌<◌, ◌≡◌, Bool, ◌&&◌, List, some, inl, inr, arith, if◌then◌else◌, Bool-cases, get_or,
  length, for_range, any_in, any_in-some, any_in-none, paint_range, ℤ, pos, pos_part, ◌+ℤ◌, ◌-ℤ◌,
  ltb_ℤ, leb_ℤ, eqb_ℤ, one_part, +ℤ_parts, -ℤ_parts,
}
use autumnos_mobile.Surf.Types.{Layer, as_layer_app}
use autumnos_mobile.Surf.Draw.{
  title_gradient, draw_row, draw_title_row, title_height, draw_pixels, draw_layer,
}
use autumnos_mobile.Surf.Draw.Rows.{
  in_columns, in_rows, local_x, local_y, row_hit, draw_row_lem, draw_title_row_lem,
}

-- The pixel lies in the layer's rectangle.
abbrev pub covers : Layer → ℕ → ℕ → Bool
covers layer px py = in_columns layer px py && in_rows layer px py

-- The pixel lies in the title bar of an application's layer.
abbrev pub in_title : Layer → ℕ → ℕ → Bool
in_title layer px py =
    eqb_ℤ layer.layer_type as_layer_app && ltb_ℤ (pos (local_y layer px py)) (title_height layer.h)

-- What the layer shows at a pixel that it covers: the title bar's gradient, or its own memory.
abbrev pub color_at : Layer → List ℕ → ℕ → ℕ → ℕ
color_at layer pixels px py =
    if in_title layer px py
    then title_gradient (pos (local_y layer px py)) (title_height layer.h)
    else get_or pixels (local_y layer px py * pos_part layer.w + local_x layer px py) 0

-- Whether one of the rounds of a loop over `h` rows is at the pixel's row.
any_in-rows :
    (layer : Layer) (width height px py : ℕ) (pixels : List ℕ) (h : ℤ)
    → any_in (row_hit width height layer pixels px py) (pos_part h) 0
      ≡ (in_columns layer px py && (leb_ℤ layer.y (pos py) && ltb_ℤ (pos py) (layer.y +ℤ h)))
unfolding row_hit
any_in-rows layer width height px py pixels h =
    elim (Bool-cases (in_columns layer px py && (leb_ℤ y (pos py) && ltb_ℤ (pos py) (y +ℤ h)))) [
      | inl inside ↦
          let k = pos_part (pos py -ℤ y) in
          ground (
            arith,
            inside,
            any_in-some (row_hit width height layer pixels px py) (pos_part h) 0 k (omega arith)
                (ground (
                  arith,
                  inside,
                  +ℤ_parts y h,
                  -ℤ_parts (pos py) y,
                  one_part (pos py -ℤ y),
                  one_part h,
                ))
                (ground
                  (arith, inside, +ℤ_parts y (pos k), -ℤ_parts (pos py) y, one_part (pos py -ℤ y))),
          )
      | inr outside ↦ ground (
        arith,
        outside,
        any_in-none (row_hit width height layer pixels px py) (pos_part h) 0
            (λ k lo hi. ground (arith, outside, +ℤ_parts y (pos k), +ℤ_parts y h, one_part h)),
      )
    ]
  where
    open layer use {y}

-- The rows of the title bar are those of the layer that lie above its lower edge.
title_rows :
    (layer : Layer) (px py : ℕ)
    → (leb_ℤ layer.y (pos py) && ltb_ℤ (pos py) (layer.y +ℤ title_height layer.h))
      ≡ (in_rows layer px py && ltb_ℤ (pos (local_y layer px py)) (title_height layer.h))
title_rows layer px py =
    ground (
      arith,
      +ℤ_parts y h,
      +ℤ_parts y (title_height h),
      -ℤ_parts (pos py) y,
      one_part (pos py -ℤ y),
    )
  where
    open layer use {y, h}

module _ (width height : ℕ) (layer : Layer) (pixels : List ℕ) (px py : ℕ) where
  open layer use {x, y, w, h}

  draw_pixels_lem :
      (buf : List ℕ)
      → px < width
      → py < height
      → length buf ≡ width * height
      → (length (draw_pixels (pos width) (pos height) layer pixels buf) ≡ width * height)
        × (get_or (draw_pixels (pos width) (pos height) layer pixels buf) (py * width + px) 0 ≡ (
            if covers layer px py
            then color_at layer pixels px py
            else get_or buf (py * width + px) 0))
  unfolding draw_pixels
  draw_pixels_lem buf hx hy e =
      let body =
        paint_range (λ b. length b ≡ width * height) (λ b. get_or b (py * width + px) 0)
          (draw_row (pos width) (pos height) layer pixels) (row_hit width height layer pixels px py)
          (get_or pixels (local_y layer px py * pos_part w + local_x layer px py) 0) (pos_part h) 0
          (λ k b lo hi g. draw_row_lem width height layer pixels px py k b hx hy g) buf e in
      let title =
        paint_range (λ b. length b ≡ width * height) (λ b. get_or b (py * width + px) 0)
          (draw_title_row (pos width) (pos height) layer pixels)
          (row_hit width height layer pixels px py)
          (title_gradient (pos (local_y layer px py)) (title_height h)) (pos_part (title_height h))
          0 (λ k b lo hi g. draw_title_row_lem width height layer pixels px py k b hx hy g)
          (for_range (pos_part h) 0 (draw_row (pos width) (pos height) layer pixels) buf) body.0 in
      ground (
        arith,
        body,
        title,
        any_in-rows layer width height px py pixels h,
        any_in-rows layer width height px py pixels (title_height h),
        title_rows layer px py,
      )

  -- Drawing a layer with memory into the buffer of a screen of `width` by `height` keeps the
  -- buffer's length, gives each pixel that the layer covers, if it is active, the colour that the
  -- layer shows there, and leaves every other pixel alone.
  pub draw_layer-pixel :
      (buf : List ℕ)
      → px < width
      → py < height
      → length buf ≡ width * height
      → layer.pixels ≡ some pixels
      → (length (draw_layer (pos width) (pos height) layer buf) ≡ width * height)
        × (get_or (draw_layer (pos width) (pos height) layer buf) (py * width + px) 0 ≡ (
            if layer.active && covers layer px py
            then color_at layer pixels px py
            else get_or buf (py * width + px) 0))
  unfolding draw_layer
  draw_layer-pixel buf hx hy e has = ground (arith, has, e, draw_pixels_lem buf hx hy e)
