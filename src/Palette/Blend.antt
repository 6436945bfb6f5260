-- ===== src/Palette/Blend.antt =====
-- Blending stays between its two colours, channel by channel.
use autumnos_mobile.Common.{
  ℕ, ◌+◌, ◌-◌, ◌*◌, ◌/◌, ◌≤◌, ◌<◌, ◌≡◌, refl, ap, ◌∙◌, ◌⊎◌, inl, inr, false, ◌||◌, List, arith,
  bit_or-shl, Bool-cases, get_or, ℤ, pos, pos_part, ◌+ℤ◌, ◌*ℤ◌, ltb_ℤ, leb_ℤ,
}
use native.Mathlib.Decide.{dec_le}
use autumnos_mobile.Palette.{channel_at, opaque_color, mix, al_blend}

opaque_color_lem :
    (r g b : ℕ)
    → r < 256
    → g < 256
    → b < 256
    → opaque_color r g b ≡ 0xFF000000 + r * 65536 + g * 256 + b
unfolding opaque_color
opaque_color_lem r g b hr hg hb =
    rw (bit_or-shl 8 g b hb, bit_or-shl 16 r (g * 256 + b) (omega arith))
      (bit_or-shl 24 255 (r * 65536 + (g * 256 + b)) (omega arith) ∙ omega arith)

-- The channels of a colour that is put together are its channels.
pub opaque_color-channels :
    (r g b : ℕ)
    → r < 256
    → g < 256
    → b < 256
    → (channel_at (opaque_color r g b) 16 ≡ r)
      × (channel_at (opaque_color r g b) 8 ≡ g)
      × (channel_at (opaque_color r g b) 0 ≡ b)
opaque_color-channels r g b hr hg hb =
    rw (opaque_color_lem r g b hr hg hb) (omega arith, omega arith, omega arith)

-- A weighted mean of two numbers lies between them.
mean :
    (a c low gap : ℕ)
    → a + c ≡ 255
    → (low ≤ (low * a + (low + gap) * c) / 255) × ((low * a + (low + gap) * c) / 255 ≤ low + gap)
mean a c low gap whole =
    let spread : low * a + (low + gap) * c ≡ low * (a + c) + gap * c = grind arith in
    let part : gap * c ≤ gap * 255 = grind arith in
    let sum : low * (a + c) ≡ low * 255 = ap (λ (t : ℕ). low * t) whole in
    omega (arith, spread, part, sum)

mix_lem :
    (alpha fg bg : ℕ)
    → alpha ≤ 255
    → fg < 256
    → bg < 256
    → ((fg ≤ mix alpha fg bg) × (mix alpha fg bg ≤ bg))
      ⊎ ((bg ≤ mix alpha fg bg) × (mix alpha fg bg ≤ fg))
unfolding mix
mix_lem alpha fg bg h hf hb = elim (dec_le fg bg) [
  | yes up ↦
      let same : bg ≡ fg + (bg - fg) = omega arith in
      let between = mean alpha (255 - alpha) fg (bg - fg) (omega arith) in
      let sum = ap (λ (t : ℕ). fg * alpha + t * (255 - alpha)) same in
      inl (omega (arith, between, sum))
  | no down ↦
      let same : fg ≡ bg + (fg - bg) = omega arith in
      let between = mean (255 - alpha) alpha bg (fg - bg) (omega arith) in
      let sum = ap (λ (t : ℕ). t * alpha + bg * (255 - alpha)) same in
      inr (omega (arith, between, sum))
]

mix_byte : (alpha fg bg : ℕ) → mix alpha fg bg < 256
unfolding mix
mix_byte alpha fg bg = omega arith

-- `c` lies between `a` and `b`.
abbrev pub Between : ℕ → ℕ → ℕ → Type 0
Between a c b = ((a ≤ c) × (c ≤ b)) ⊎ ((b ≤ c) × (c ≤ a))

word_index : (w x y : ℕ) → pos_part (pos y *ℤ pos w +ℤ pos x) ≡ y * w + x
unfolding ◌*ℤ◌ ◌+ℤ◌
word_index w x y = ground arith

-- The blended colour, in channels.
abbrev blended : ℕ → ℕ → ℕ → ℕ
blended a fg bg =
    opaque_color (mix a (channel_at fg 16) (channel_at bg 16))
      (mix a (channel_at fg 8) (channel_at bg 8)) (mix a (channel_at fg 0) (channel_at bg 0))

al_blend_cases :
    (w h x y fg_color : ℕ) (alpha : ℤ) (fb_pixels : List ℕ)
    → x < w
    → y < h
    → let out = al_blend w h fb_pixels (pos x) (pos y) fg_color alpha in
      let bg_color = get_or fb_pixels (y * w + x) 0 in
      (out ≡ bg_color)
      ⊎ (out ≡ fg_color)
      ⊎ ((out ≡ blended (pos_part alpha) fg_color bg_color) × (pos_part alpha ≤ 255))
unfolding al_blend
al_blend_cases w h x y fg_color alpha fb_pixels hx hy = elim (Bool-cases (leb_ℤ alpha (pos 0))) [
  | inl clear ↦ inl (rw clear (ap (λ k. get_or fb_pixels k 0) (word_index w x y)))
  | inr some_alpha ↦ elim (Bool-cases (leb_ℤ (pos 255) alpha)) [
    | inl full ↦ inr (inl (rw (some_alpha, full) refl))
    | inr partial ↦
        let inside : (ltb_ℤ (pos x) (pos 0)
              || leb_ℤ (pos w) (pos x)
              || ltb_ℤ (pos y) (pos 0)
              || leb_ℤ (pos h) (pos y))
            ≡ false =
          ground arith in
        inr (
          inr (
            rw (some_alpha, partial, inside)
                (ap (λ k. blended (pos_part alpha) fg_color (get_or fb_pixels k 0))
                  (word_index w x y)),
            ground (arith, partial),
          ))
  ]
]

blended-Between :
    (a fg bg : ℕ)
    → a ≤ 255
    → Between (channel_at fg 16) (channel_at (blended a fg bg) 16) (channel_at bg 16)
      × Between (channel_at fg 8) (channel_at (blended a fg bg) 8) (channel_at bg 8)
      × Between (channel_at fg 0) (channel_at (blended a fg bg) 0) (channel_at bg 0)
blended-Between a fg bg h =
    let red = mix a (channel_at fg 16) (channel_at bg 16) in
    let green = mix a (channel_at fg 8) (channel_at bg 8) in
    let blue = mix a (channel_at fg 0) (channel_at bg 0) in
    let at =
      opaque_color-channels red green blue (mix_byte a _ _) (mix_byte a _ _) (mix_byte a _ _) in
    rw (at.0, at.1, at.2)
      (
        mix_lem a (channel_at fg 16) (channel_at bg 16) h (omega arith) (omega arith),
        mix_lem a (channel_at fg 8) (channel_at bg 8) h (omega arith) (omega arith),
        mix_lem a (channel_at fg 0) (channel_at bg 0) h (omega arith) (omega arith),
      )

low_end : (a c b : ℕ) → c ≡ b → Between a c b
low_end a c b e = ground arith

high_end : (a c b : ℕ) → c ≡ a → Between a c b
high_end a c b e = ground arith

-- Blending a colour of any transparency over a pixel of the screen gives a colour whose red, green
-- and blue each lie between those of the two.
pub al_blend-Between :
    (w h x y fg_color : ℕ) (alpha : ℤ) (fb_pixels : List ℕ)
    → x < w
    → y < h
    → let out = al_blend w h fb_pixels (pos x) (pos y) fg_color alpha in
      let bg_color = get_or fb_pixels (y * w + x) 0 in
      Between (channel_at fg_color 16) (channel_at out 16) (channel_at bg_color 16)
      × Between (channel_at fg_color 8) (channel_at out 8) (channel_at bg_color 8)
      × Between (channel_at fg_color 0) (channel_at out 0) (channel_at bg_color 0)
al_blend-Between w h x y fg_color alpha fb_pixels hx hy =
    elim (al_blend_cases w h x y fg_color alpha fb_pixels hx hy) [
      | inl bg ↦ (
        low_end _ _ _ (ap (λ c. channel_at c 16) bg),
        low_end _ _ _ (ap (λ c. channel_at c 8) bg),
        low_end _ _ _ (ap (λ c. channel_at c 0) bg),
      )
      | inr (inl fg) ↦ (
        high_end _ _ _ (ap (λ c. channel_at c 16) fg),
        high_end _ _ _ (ap (λ c. channel_at c 8) fg),
        high_end _ _ _ (ap (λ c. channel_at c 0) fg),
      )
      | inr (inr (mixed, h)) ↦
          rw mixed (blended-Between (pos_part alpha) fg_color (get_or fb_pixels (y * w + x) 0) h)
    ]
