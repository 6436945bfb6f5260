-- ===== src/Fb/Refresh.antt =====
-- `AutumnAPI_FbRefresh` with pointers that are not NULL: the back buffer goes through the colour
-- filters to the memory of the screen.
use autumnos_mobile.Common.{
  ℕ, ◌+◌, ◌-◌, ◌*◌, ◌/◌, ◌<◌, ◌≡◌, ap, ◌∙◌, ◌==◌, ◌&&◌, Bool-cases, inl, inr, Bool, List, arith,
  if◌then◌else◌, u8, u32, shl, shr, bit_or, get_or, set, pos, ◌+ℤ◌, +ℤ_parts, one_part,
}
use autumnos_mobile.Fb.{FbDev, word_at, for_grid}
use autumnos_mobile.Fb.Pixel.{IsDisplay, Sized, pixel, is_at, write_word}
use autumnos_mobile.Fb.Rect.{for_grid_lem}

-- The offsets of the channels in a word, fields of `FbDev`, and the switches of the two filters.
pub record Filter : Type 0 where
  pub r_off : ℕ
  pub g_off : ℕ
  pub b_off : ℕ
  pub invert_colors : Bool
  pub eye_shield : Bool

-- A channel, which the shield moves towards `tint` by 30 parts in 255.
abbrev pub filter_channel : Filter → ℕ → ℕ → ℕ
filter_channel f c tint =
    let inverted = if f.invert_colors then 255 - c else c in
    if f.eye_shield then u8 ((inverted * (255 - 30) + tint * 30) / 255) else inverted

pub filter_word : Filter → ℕ → ℕ
filter_word f p =
    let r = filter_channel f (u8 (shr p f.r_off)) 255 in
    let g = filter_channel f (u8 (shr p f.g_off)) 180 in
    let b = filter_channel f (u8 (shr p f.b_off)) 100 in
    bit_or (bit_or (u32 (shl r f.r_off)) (u32 (shl g f.g_off))) (u32 (shl b f.b_off))

-- The two loops, from the back buffer `src` to the mapped memory `dst`.
pub fb_refresh : FbDev → Filter → List ℕ → List ℕ → List ℕ
unfolding filter_word
fb_refresh fb f src =
    for_grid (pos fb.w) (pos fb.h)
      (λ y x dst. set dst (word_at fb x y) (filter_word f (get_or src (word_at fb x y) 0)))

module _ (fb : FbDev) (d : IsDisplay fb) (px py : ℕ) (hx : px < fb.w) (hy : py < fb.h) where
  copied :
      (word : ℕ → ℕ) (i j : ℕ) (b : List ℕ)
      → j < fb.w
      → i < fb.h
      → Sized fb b
      → Sized fb (set b (word_at fb j i) (word (word_at fb j i)))
        × (pixel fb px py (set b (word_at fb j i) (word (word_at fb j i))) ≡ (
            if is_at px py (pos 0 +ℤ pos j) (pos 0 +ℤ pos i)
            then word (word_at fb px py)
            else pixel fb px py b))
  copied word i j b right low g =
      let written = write_word fb d px py hx hy j i (word (word_at fb j i)) b right low g in
      let place : is_at px py (pos 0 +ℤ pos j) (pos 0 +ℤ pos i) ≡ ((j == px) && (i == py)) =
        ground (
          arith,
          +ℤ_parts (pos 0) (pos i),
          +ℤ_parts (pos 0) (pos j),
          one_part (pos 0 +ℤ pos i),
          one_part (pos 0 +ℤ pos j),
        ) in
      elim (Bool-cases ((j == px) && (i == py))) [
        | inl here ↦
            let column : j ≡ px = ground (arith, here) in
            let row : i ≡ py = ground (arith, here) in
            let same =
              ap (λ k. word (word_at fb k i)) column ∙ ap (λ k. word (word_at fb px k)) row in
            (written.0, ground (arith, written, here, place, same))
        | inr away ↦ (written.0, ground (arith, written, away, place))
      ]

  -- On a display whose rows are whole words and hold its pixels, with memory of its size, every pixel
  -- of the screen shows the back buffer's pixel at its place through the filters.
  fb_refresh-pixel :
      (f : Filter) (src dst : List ℕ)
      → Sized fb dst
      → Sized fb (fb_refresh fb f src dst)
        × (pixel fb px py (fb_refresh fb f src dst) ≡ filter_word f (pixel fb px py src))
  unfolding fb_refresh
  fb_refresh-pixel f src dst e =
      let done =
        for_grid_lem fb px py (pos 0) (pos 0) (pos fb.w) (pos fb.h)
          (λ y x b. set b (word_at fb x y) (filter_word f (get_or src (word_at fb x y) 0)))
          (λ _. filter_word f (pixel fb px py src))
          (λ i j b low right g. copied (λ k. filter_word f (get_or src k 0)) i j b right low g) dst
          e in
      ground (
        arith,
        done,
        +ℤ_parts (pos 0) (pos fb.w),
        +ℤ_parts (pos 0) (pos fb.h),
        one_part (pos 0 +ℤ pos fb.w),
        one_part (pos 0 +ℤ pos fb.h),
      )
