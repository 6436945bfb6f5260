-- ===== src/Surf/Draw/Gradient.antt =====
-- The colours of a title bar: from 0x58A858 at its top row to 0x145214 at its bottom row.
use autumnos_mobile.Common.{
  ℕ, zero, suc, sub_ℕ, ◌+◌, ◌-◌, ◌*◌, ◌/◌, ◌^◌, ◌≤◌, ◌<◌, ◌≡◌, ap, ◌∙◌, arith, pos, ◌+ℤ◌, ◌-ℤ◌,
  ◌*ℤ◌, div_trunc, bit_or, shl, u32, bit_or-shl,
}
use autumnos_mobile.Surf.Draw.{title_gradient, channel, to_u32}

-- A channel that falls from `top` to `bottom`, on row `y` of `height`.
abbrev pub falling : ℕ → ℕ → ℕ → ℕ → ℕ
falling top bottom y height = top - (top - bottom) * y / (height - 1)

-- A part of a whole of `n`, scaled to `d`, is at most `d`.
part_le : (d y n : ℕ) → y ≤ n → d * y / n ≤ d
part_le d y n h = grind arith

-- The rounding towards zero of a quotient that is not positive.
div_trunc-neg : (m n : ℕ) → div_trunc (sub_ℕ 0 m) (pos n) ≡ sub_ℕ 0 (m / n)
unfolding div_trunc
div_trunc-neg zero n = ground arith
div_trunc-neg (suc m) n = ground arith

times_neg : (d y : ℕ) → sub_ℕ 0 d *ℤ pos y ≡ sub_ℕ 0 (d * y)
unfolding ◌*ℤ◌
times_neg zero y = ground arith
times_neg (suc d) y = ground arith

sub_below : (a b : ℕ) → a ≤ b → pos a -ℤ pos b ≡ sub_ℕ 0 (b - a)
unfolding ◌-ℤ◌
sub_below a b h = ground arith

sub_above : (a b : ℕ) → b ≤ a → pos a -ℤ pos b ≡ pos (a - b)
unfolding ◌-ℤ◌
sub_above a b h = ground arith

add_neg : (a m : ℕ) → m ≤ a → pos a +ℤ sub_ℕ 0 m ≡ pos (a - m)
unfolding ◌+ℤ◌
add_neg a m h = ground arith

channel_lem :
    (top bottom y height : ℕ)
    → bottom < top
    → y < height
    → 1 < height
    → channel top bottom (pos y) (pos height) ≡ pos (falling top bottom y height)
unfolding channel
channel_lem top bottom y height lt inside tall =
    let n = height - 1 in
    let d = top - bottom in
    rw
      (
        sub_below bottom top (omega arith),
        sub_above height 1 (omega arith),
        times_neg d y,
        div_trunc-neg (d * y) n,
      )
      (add_neg top (d * y / n) (omega (arith, part_le d y n (omega arith))))

falling_bounds :
    (top bottom y height : ℕ)
    → bottom < top
    → y < height
    → 1 < height
    → (bottom ≤ falling top bottom y height) × (falling top bottom y height ≤ top)
falling_bounds top bottom y height lt inside tall =
    omega (arith, part_le (top - bottom) y (height - 1) (omega arith))

to_u32-pos : (n : ℕ) → n < 2 ^ 32 → to_u32 (pos n) ≡ n
unfolding to_u32
to_u32-pos n h = omega arith

-- Four bytes put together.
packed :
    (r g b : ℕ)
    → r < 256
    → g < 256
    → b < 256
    → bit_or 0xFF000000 (bit_or (u32 (shl r 16)) (bit_or (u32 (shl g 8)) b))
      ≡ 0xFF000000 + r * 65536 + g * 256 + b
packed r g b hr hg hb =
    let red : u32 (shl r 16) ≡ shl r 16 = omega arith in
    let green : u32 (shl g 8) ≡ shl g 8 = omega arith in
    rw (red, green, bit_or-shl 8 g b hb, bit_or-shl 16 r (g * 256 + b) (omega arith))
      (bit_or-shl 24 255 (r * 65536 + (g * 256 + b)) (omega arith) ∙ omega arith)

-- On a title bar of at least two rows, row `y` has the opaque colour whose channels have gone the
-- `y`-th part of the way, rounded, from (0x58, 0xA8, 0x58) at the top to (0x14, 0x52, 0x14) at the
-- last row; every channel lies between its two ends.
title_gradient_lem :
    (y height : ℕ)
    → y < height
    → 1 < height
    → let r = falling 0x58 0x14 y height in
      let g = falling 0xA8 0x52 y height in
      (title_gradient (pos y) (pos height) ≡ 0xFF000000 + r * 65536 + g * 256 + r)
      × (0x14 ≤ r)
      × (r ≤ 0x58)
      × (0x52 ≤ g)
      × (g ≤ 0xA8)
unfolding title_gradient
title_gradient_lem y height h tall =
    let red = falling_bounds 0x58 0x14 y height (omega arith) h tall in
    let green = falling_bounds 0xA8 0x52 y height (omega arith) h tall in
    let r : to_u32 (channel 0x58 0x14 (pos y) (pos height)) ≡ falling 0x58 0x14 y height =
      ap to_u32 (channel_lem 0x58 0x14 y height (omega arith) h tall)
      ∙ to_u32-pos _ (omega arith) in
    let g : to_u32 (channel 0xA8 0x52 (pos y) (pos height)) ≡ falling 0xA8 0x52 y height =
      ap to_u32 (channel_lem 0xA8 0x52 y height (omega arith) h tall)
      ∙ to_u32-pos _ (omega arith) in
    (
      ground (
        arith,
        r,
        g,
        packed (falling 0x58 0x14 y height) (falling 0xA8 0x52 y height)
            (falling 0x58 0x14 y height) (omega arith) (omega arith) (omega arith),
      ),
      red.0,
      red.1,
      green.0,
      green.1,
    )
