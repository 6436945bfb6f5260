-- ===== src/Palette/Shade.antt =====
-- The shading of a base colour along a bar.
use autumnos_mobile.Common.{
  ℕ, ◌+◌, ◌-◌, ◌*◌, ◌/◌, ◌<◌, ◌≡◌, ap, arith, ltb, if◌then◌else◌, ℤ, pos, ◌+ℤ◌, ◌-ℤ◌, ◌*ℤ◌,
  div_trunc, +ℤ_parts, -ℤ_parts, eq_of_parts,
}
use autumnos_mobile.Palette.{channel_at, shift_channel, shade_factor, get_gradient_color}
use autumnos_mobile.Palette.Blend.{opaque_color-channels}

quotient : (k height : ℕ) → div_trunc (pos k *ℤ pos 40) (pos height) ≡ pos (k * 40 / height)
unfolding div_trunc ◌*ℤ◌
quotient k height = ground arith

-- Row `k` of `height` is shaded by 40 parts, from -20 on.
shade_factor_lem :
    (start_y : ℤ) (k height : ℕ)
    → shade_factor (start_y +ℤ pos k) start_y (pos height) ≡ pos (k * 40 / height) -ℤ pos 20
unfolding shade_factor
shade_factor_lem start_y k height =
    let row : start_y +ℤ pos k -ℤ start_y ≡ pos k =
      eq_of_parts _ _
        (omega (arith, +ℤ_parts start_y (pos k), -ℤ_parts (start_y +ℤ pos k) start_y)) in
    rw row (ap (λ q. q -ℤ pos 20) (quotient k height))

-- A row of the bar is less than 40 parts down.
part_lt : (k height : ℕ) → k < height → k * 40 / height < 40
part_lt k height h = grind arith

-- A channel after the shift: cut to a byte.
pub shifted : ℕ → ℕ → ℕ
shifted c part = if ltb (255 + 20) (c + part) then 255 else (c + part) - 20

shift_channel_lem : (c part : ℕ) → shift_channel c (pos part -ℤ pos 20) ≡ shifted c part
unfolding shift_channel shifted ◌+ℤ◌ ◌-ℤ◌
shift_channel_lem c part = ground arith

shifted_lt : (c part : ℕ) → shifted c part < 256
unfolding shifted
shifted_lt c part = ground arith

-- On row `k` of a bar of `height` rows, each channel of the colour is that of the base colour, less
-- 20 and plus the `k`-th part of 40, rounded down, and cut to a byte at both ends.
pub get_gradient_color_lem :
    (base_color k height : ℕ) (start_y : ℤ)
    → k < height
    → let out = get_gradient_color base_color (start_y +ℤ pos k) start_y (pos height) in
      let part = k * 40 / height in
      (channel_at out 16 ≡ shifted (channel_at base_color 16) part)
      × (channel_at out 8 ≡ shifted (channel_at base_color 8) part)
      × (channel_at out 0 ≡ shifted (channel_at base_color 0) part)
      × (part < 40)
unfolding get_gradient_color
get_gradient_color_lem base_color k height start_y h =
    let part = k * 40 / height in
    let at =
      opaque_color-channels (shifted (channel_at base_color 16) part)
        (shifted (channel_at base_color 8) part) (shifted (channel_at base_color 0) part)
        (shifted_lt _ _) (shifted_lt _ _) (shifted_lt _ _) in
    rw
      (
        shade_factor_lem start_y k height,
        shift_channel_lem (channel_at base_color 16) part,
        shift_channel_lem (channel_at base_color 8) part,
        shift_channel_lem (channel_at base_color 0) part,
      )
      (at.0, at.1, at.2, part_lt k height h)
