-- ===== src/Palette.antt =====
-- v0.1-alpha/API/libpalette.c: the shading of a base colour, and the blending of a colour over a
-- pixel of the screen.
mod Blend
mod Shade
mod Tests
use autumnos_mobile.Common.{
  ℕ, ◌+◌, ◌-◌, ◌*◌, ◌/◌, ◌%◌, Bool, ◌||◌, List, u8, u32, shl, shr, bit_or, if◌then◌else◌, get_or, ℤ,
  pos, pos_part, ◌+ℤ◌, ◌-ℤ◌, ◌*ℤ◌, div_trunc, ltb_ℤ, leb_ℤ,
}

-- `(color >> k) & 0xFF`.
abbrev pub channel_at : ℕ → ℕ → ℕ
channel_at color k = u8 (shr color k)

-- `(0xFF << 24) | (r << 16) | (g << 8) | b`.
pub opaque_color : ℕ → ℕ → ℕ → ℕ
opaque_color r g b = bit_or 0xFF000000 (bit_or (shl r 16) (bit_or (shl g 8) b))

-- A channel with the factor added, cut to a byte.
pub shift_channel : ℕ → ℤ → ℕ
shift_channel c factor =
    let sum = pos c +ℤ factor in
    if ltb_ℤ (pos 255) sum then 255 else if ltb_ℤ sum (pos 0) then 0 else pos_part sum

-- `factor` of row `y`.
pub shade_factor : (y start_y height : ℤ) → ℤ
shade_factor y start_y height = div_trunc ((y -ℤ start_y) *ℤ pos 40) height -ℤ pos 20

-- `AutumnAPI_GetGradientColor`.
pub get_gradient_color : ℕ → (y start_y height : ℤ) → ℕ
unfolding shift_channel shade_factor opaque_color
get_gradient_color base_color y start_y height =
    let factor = shade_factor y start_y height in
    opaque_color (shift_channel (channel_at base_color 16) factor)
      (shift_channel (channel_at base_color 8) factor)
      (shift_channel (channel_at base_color 0) factor)

-- `(fg * alpha + bg * (255 - alpha)) / 255`, stored in a byte.
pub mix : ℕ → ℕ → ℕ → ℕ
mix alpha fg bg = u8 ((fg * alpha + bg * (255 - alpha)) / 255)

-- `AutumnAPI_AlBlend` on a screen of `w` by `h` pixels. The case of `alpha <= 0` reads the pixel
-- without the test of its place that the case between has.
pub al_blend : (w h : ℕ) → List ℕ → (x y : ℤ) → ℕ → ℤ → ℕ
unfolding mix opaque_color
al_blend w h fb_pixels x y fg_color alpha =
    let bg_color = get_or fb_pixels (pos_part (y *ℤ pos w +ℤ x)) 0 in
    let a = pos_part alpha in
    if leb_ℤ alpha (pos 0)
    then bg_color
    else if leb_ℤ (pos 255) alpha
    then fg_color
    else if ltb_ℤ x (pos 0) || leb_ℤ (pos w) x || ltb_ℤ y (pos 0) || leb_ℤ (pos h) y
    then fg_color
    else opaque_color (mix a (channel_at fg_color 16) (channel_at bg_color 16))
        (mix a (channel_at fg_color 8) (channel_at bg_color 8))
        (mix a (channel_at fg_color 0) (channel_at bg_color 0))
