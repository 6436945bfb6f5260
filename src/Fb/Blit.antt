-- ===== src/Fb/Blit.antt =====
-- Drawing pictures of v0.1-alpha/API/libfbdev.c: `AutumnAPI_DrawImg` and `AutumnAPI_DrawGifAni`, with
-- pointers that are not NULL. What giflib has decoded is an argument.
pub mod Pixel
use autumnos_mobile.Common.{
  ℕ, zero, suc, ◌+◌, ◌-◌, ◌*◌, ◌/◌, ◌%◌, ◌<◌, ◌≡◌, refl, sym, ap, ◌∙◌, inl, inr, Bool, true, false,
  not, ◌&&◌, ◌||◌, ◌==◌, Option, none, some, List, [], ◌∷◌, arith, if◌then◌else◌, Bool-cases, u8,
  u32, shl, shr, bit_or, bit_and, get_or, set, ℤ, pos, negsuc, pos_part, ◌+ℤ◌, ltb_ℤ, leb_ℤ, eqb_ℤ,
  +ℤ_parts, one_part, get_elem?, ltb,
}
use autumnos_mobile.Fb.{FbDev, word_at, for_grid}
use autumnos_mobile.Fb.Pixel.{IsDisplay, Sized, pixel, is_at, write_word}
use autumnos_mobile.Fb.Rect.{in_rect, offset, span_round, for_grid_lem}

-- The offsets of the channels in a word of the screen.
pub record Layout : Type 0 where
  pub r_off : ℕ
  pub g_off : ℕ
  pub b_off : ℕ

abbrev pub pack : Layout → ℕ → ℕ → ℕ → ℕ
pack l r g b = bit_or (bit_or (u32 (shl r l.r_off)) (u32 (shl g l.g_off))) (u32 (shl b l.b_off))

-- `(c * a + d * (255 - a)) / 255` as a byte.
abbrev pub over : ℕ → ℕ → ℕ → ℕ
over a c d = u8 ((c * a + d * (255 - a)) / 255)

-- A colour with transparency `a` over a word of the screen.
abbrev pub blend_word : Layout → ℕ → ℕ → ℕ → ℕ → ℕ → ℕ
blend_word l a r g b dest =
    pack l (over a r (u8 (shr dest l.r_off))) (over a g (u8 (shr dest l.g_off)))
      (over a b (u8 (shr dest l.b_off)))

-- The write of the word `k` with what `new` makes of the old one, or none.
pub put_word : (ℕ → Option ℕ) → ℕ → List ℕ → List ℕ
put_word new k buf = elim (new (get_or buf k 0)) [ none ↦ buf | some c ↦ set buf k c ]

-- The tests of the place, and the write.
pub blit_at : FbDev → ℤ → ℤ → (ℕ → Option ℕ) → List ℕ → List ℕ
unfolding put_word
blit_at fb target_x target_y new buf =
    if ltb_ℤ target_y (pos 0)
      || leb_ℤ (pos fb.h) target_y
      || ltb_ℤ target_x (pos 0)
      || leb_ℤ (pos fb.w) target_x
    then buf
    else put_word new (word_at fb (pos_part target_x) (pos_part target_y)) buf

-- A round of the two loops: row `i` and column `j` of a picture at (x, y), of which `paint` says the
-- new word for the old one, or that it is left alone.
pub blit_pix : FbDev → ℤ → ℤ → (ℕ → ℕ → ℕ → Option ℕ) → ℕ → ℕ → List ℕ → List ℕ
unfolding blit_at
blit_pix fb x y paint i j = blit_at fb (x +ℤ pos j) (y +ℤ pos i) (paint i j)

-- `AutumnImage`.
pub record AutumnImage : Type 0 where
  pub w : ℤ
  pub h : ℤ
  pub buffer : List ℕ

-- What a pixel of an image, with its bytes in the order alpha, blue, green, red, makes of a word.
unfoldable pub image_word : Layout → AutumnImage → ℕ → ℕ → ℕ → Option ℕ
image_word l img i j dest =
    let p = get_or img.buffer (i * pos_part img.w + j) 0 in
    let a = u8 (shr p 24) in
    let r = u8 p in
    let g = u8 (shr p 8) in
    let b = u8 (shr p 16) in
    if a == 0
    then none
    else if ltb a 255
    then some (blend_word l a r g b dest)
    else some (pack l r g b)

pub draw_img : FbDev → Layout → AutumnImage → ℤ → ℤ → List ℕ → List ℕ
unfolding blit_pix image_word
draw_img fb l img x y = for_grid img.w img.h (blit_pix fb x y (image_word l img))

-- A frame of a GIF: its place, its indices, its colours, and the first and the fourth byte of each
-- graphics extension.
pub record Frame : Type 0 where
  pub left : ℤ
  pub top : ℤ
  pub width : ℤ
  pub height : ℤ
  pub raster_bits : List ℕ
  pub colors : List (ℕ × ℕ × ℕ)
  pub extensions : List (ℕ × ℕ)

-- The loop that looks for the transparent index: the last extension with the bit wins.
pub trans_idx : List (ℕ × ℕ) → Option ℕ → Option ℕ
trans_idx [] found = found
trans_idx ((flags, idx) ∷ blocks) found =
    trans_idx blocks (if bit_and flags 1 == 0 then found else some (u8 idx))

abbrev is_index : ℕ → Option ℕ → Bool
is_index k none = false
is_index k (some t) = k == t

pub frame_word : Layout → Frame → ℕ → ℕ → ℕ → Option ℕ
unfolding trans_idx
frame_word l f i j dest =
    let pixel_idx = get_or f.raster_bits (i * pos_part f.width + j) 0 in
    if is_index pixel_idx (trans_idx f.extensions none)
    then none
    else let (r, g, b) = get_or f.colors pixel_idx (0, 0, 0) in some (pack l r g b)

-- `AutumnAPI_DrawGifAni` for a frame number of the GIF, whose indices have colours.
pub draw_gif_ani : FbDev → Layout → List Frame → ℤ → ℤ → ℤ → List ℕ → List ℕ
unfolding blit_pix frame_word
draw_gif_ani fb l frames x y idx buf = elim idx [
  | negsuc k ↦ buf
  | pos n ↦ elim (get_elem? frames n) [
    | none ↦ buf
    | some f ↦
        for_grid f.width f.height (blit_pix fb (x +ℤ f.left) (y +ℤ f.top) (frame_word l f)) buf
  ]
]

-- The word after what `new` says of it.
abbrev pub or_old : Option ℕ → ℕ → ℕ
or_old none old = old
or_old (some c) old = c
