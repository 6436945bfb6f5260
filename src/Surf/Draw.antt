-- ===== src/Surf/Draw.antt =====
-- The drawing of layers into the composite buffer: `AutixSurf_TitleGradient`,
-- `AutixSurf_DrawLayer` and `AutixSurf_Compose` of v0.1-alpha/API/libatmasurf.c.
pub mod Words
pub mod Rows
pub mod Pixel
pub mod Gradient
pub mod Compose
use autumnos_mobile.Common.{
  ℕ, ◌+◌, ◌-◌, ◌*◌, ◌%◌, ◌^◌, Bool, true, false, ◌&&◌, ◌||◌, Option, none, some, List, ℤ, pos,
  negsuc, pos_part, neg_part, ◌+ℤ◌, ◌-ℤ◌, ◌*ℤ◌, div_trunc, ltb_ℤ, leb_ℤ, eqb_ℤ, if◌then◌else◌,
  get_or, set, replicate, for_range, bit_or, shl, u32,
}
use autumnos_mobile.Surf.Types.{Layer, Context, max_surfaces, as_layer_app}

-- The cast of an `int` to `uint32_t`.
pub to_u32 : ℤ → ℕ
to_u32 (pos n) = n % 2 ^ 32
to_u32 (negsuc n) = 2 ^ 32 - 1 - n % 2 ^ 32

-- A channel between two values: `top + ((bottom - top) * y) / (height - 1)`.
pub channel : ℕ → ℕ → ℤ → ℤ → ℤ
channel top bottom y height = pos top +ℤ div_trunc ((pos bottom -ℤ pos top) *ℤ y) (height -ℤ pos 1)

pub title_gradient : ℤ → ℤ → ℕ
title_gradient y height =
    if leb_ℤ height (pos 1)
    then 0xFF58A858
    else bit_or 0xFF000000 (
        bit_or (u32 (shl (to_u32 (channel 0x58 0x14 y height)) 16)) (
          bit_or (u32 (shl (to_u32 (channel 0xA8 0x52 y height)) 8))
            (to_u32 (channel 0x58 0x14 y height))))

-- `memcpy(&dst[d], &src[s], n * sizeof(uint32_t))`.
pub copy_words : ℕ → ℕ → List ℕ → ℕ → List ℕ → List ℕ
copy_words n s src d = for_range n 0 (λ k dst. set dst (d + k) (get_or src (s + k) 0))

-- `for (tx = start; tx < start + n; tx++) dst[row + tx] = color`, from the word `d` on.
pub fill_words : ℕ → ℕ → ℕ → List ℕ → List ℕ
fill_words n d color = for_range n 0 (λ k dst. set dst (d + k) color)

-- The index of a place whose coordinates the code has found to be at least 0.
abbrev pub cell : ℤ → ℤ → ℤ → ℕ
cell width tx ty = pos_part ty * pos_part width + pos_part tx

-- The cut of a row at the left and the right edge: `target_x`, `source_x` and `width` of the loop.
pub target_x : ℤ → ℤ
target_x x = if ltb_ℤ x (pos 0) then pos 0 else x

pub source_x : ℤ → ℤ
source_x x = if ltb_ℤ x (pos 0) then pos 0 -ℤ x else pos 0

pub row_count : ℤ → ℤ → ℤ → ℤ
unfolding target_x source_x
row_count width x w =
    let rest = if ltb_ℤ x (pos 0) then w -ℤ source_x x else w in
    if ltb_ℤ width (target_x x +ℤ rest) then width -ℤ target_x x else rest

-- `end_x` of the title bar.
pub end_x : ℤ → ℤ → ℤ → ℤ
end_x width x w = if ltb_ℤ width (x +ℤ w) then width else x +ℤ w

-- `target_y < 0 || target_y >= ctx->height`.
abbrev pub off_screen : ℤ → ℤ → Bool
off_screen height target_y = ltb_ℤ target_y (pos 0) || leb_ℤ height target_y

-- `title_height` for a layer of height `h`.
abbrev pub title_height : ℤ → ℤ
title_height h = if ltb_ℤ h (pos 16) then h else pos 16

-- `AutixSurf_DrawLayer` on a buffer of `width` by `height` words.
module _ (width height : ℤ) (layer : Layer) (pixels : List ℕ) where
  open layer use {x, y, w, h}

  -- A round of the first loop: the row `sy` of the layer, cut to the screen.
  pub draw_row : ℕ → List ℕ → List ℕ
  draw_row sy buf =
      let target_y = y +ℤ pos sy in
      let count = row_count width x w in
      if off_screen height target_y
      then buf
      else if leb_ℤ count (pos 0)
      then buf
      else copy_words (pos_part count) (sy * pos_part w + pos_part (source_x x)) pixels
          (cell width (target_x x) target_y) buf

  -- A round of the second loop: the row `ty` of the title bar.
  pub draw_title_row : ℕ → List ℕ → List ℕ
  draw_title_row ty buf =
      let target_y = y +ℤ pos ty in
      let start_x = target_x x in
      if off_screen height target_y
      then buf
      else fill_words (pos_part (end_x width x w -ℤ start_x)) (cell width start_x target_y)
          (title_gradient (pos ty) (title_height h)) buf

  pub draw_pixels : List ℕ → List ℕ
  draw_pixels buf =
      let body = for_range (pos_part h) 0 draw_row buf in
      if eqb_ℤ layer.layer_type as_layer_app
      then for_range (pos_part (title_height h)) 0 draw_title_row body
      else body

pub draw_layer : ℤ → ℤ → Layer → List ℕ → List ℕ
unfolding draw_pixels
draw_layer width height layer buf =
    if layer.active
    then elim layer.pixels [ none ↦ buf | some pixels ↦ draw_pixels width height layer pixels buf ]
    else buf

abbrev pub no_layer : Layer
no_layer = record {
  id = pos 0;
  memfd = none;
  pixels = none;
  x = pos 0;
  y = pos 0;
  w = pos 0;
  h = pos 0;
  z_order = pos 0;
  layer_type = pos 0;
  active = false;
}

-- A round of the inner loop of `AutixSurf_Compose`.
pub compose_layer : Context → ℕ → ℕ → List ℕ → List ℕ
unfolding draw_layer
compose_layer ctx z i buf =
    let layer = get_or ctx.layers i no_layer in
    if layer.active
    then (if eqb_ℤ layer.z_order (pos z) then draw_layer ctx.width ctx.height layer buf else buf)
    else buf

unfoldable pub compose : Context → Context
compose ctx = record ctx {
  comp_buf =
      for_range max_surfaces 0 (λ z. for_range max_surfaces 0 (compose_layer ctx z))
        (replicate (pos_part ctx.width * pos_part ctx.height) 0);
}
