-- ===== src/Fb/Blit/Pixel.antt =====
-- What pictures leave at one pixel of the back buffer.
use autumnos_mobile.Common.{
  ℕ, ◌+◌, ◌-◌, ◌*◌, ◌/◌, ◌%◌, ◌^◌, bit_or, get_or, pos_part, length, ◌≤◌, ◌<◌, ◌≡◌, refl, ap, ◌∙◌,
  inl, inr, Bool, true, false, ◌&&◌, ◌==◌, Option, none, some, List, arith, if◌then◌else◌,
  Bool-cases, set, ℤ, pos, negsuc, ◌+ℤ◌, get_elem?, ltb,
}
use autumnos_mobile.Fb.{FbDev, word_at, for_grid}
use autumnos_mobile.Fb.Pixel.{IsDisplay, Sized, pixel, is_at, write_word}
use autumnos_mobile.Fb.Rect.{in_rect, offset, span_round, for_grid_lem}
use autumnos_mobile.Fb.Blit.{
  Layout, put_word, blit_at, blit_pix, AutumnImage, image_word, draw_img, Frame, frame_word,
  draw_gif_ani, or_old,
}

-- A word of the screen with three channels at their offsets.
abbrev word_of : Layout → ℕ → ℕ → ℕ → ℕ
word_of l red green blue =
    bit_or (bit_or (red * 2 ^ l.r_off % 2 ^ 32) (green * 2 ^ l.g_off % 2 ^ 32))
      (blue * 2 ^ l.b_off % 2 ^ 32)

-- `part` of 255 of a channel, and the rest of what was there.
abbrev mixed : ℕ → ℕ → ℕ → ℕ
mixed part new old = (new * part + old * (255 - part)) / 255 % 2 ^ 8

-- A colour of a transparency over a word of the screen: 0 leaves it, 255 covers it.
abbrev pub laid_over : Layout → (alpha red green blue old : ℕ) → ℕ
laid_over l alpha red green blue old =
    if alpha == 0
    then old
    else if alpha == 255
    then word_of l red green blue
    else word_of l (mixed alpha red (old / 2 ^ l.r_off % 2 ^ 8))
        (mixed alpha green (old / 2 ^ l.g_off % 2 ^ 8))
        (mixed alpha blue (old / 2 ^ l.b_off % 2 ^ 8))

-- A pixel of a picture, with its bytes in the order alpha, blue, green, red, over a word.
abbrev pub picture_over : Layout → ℕ → ℕ → ℕ
picture_over l p old =
    laid_over l (p / 2 ^ 24 % 2 ^ 8) (p % 2 ^ 8) (p / 2 ^ 8 % 2 ^ 8) (p / 2 ^ 16 % 2 ^ 8) old

image_word-picture_over :
    (l : Layout) (img : AutumnImage) (i j old : ℕ)
    → or_old (image_word l img i j old) old
      ≡ picture_over l (get_or img.buffer (i * pos_part img.w + j) 0) old
unfolding image_word
image_word-picture_over l img i j old =
    let p = get_or img.buffer (i * pos_part img.w + j) 0 in
    let alpha = p / 2 ^ 24 % 2 ^ 8 in
    elim (Bool-cases (alpha == 0)) [
      | inl clear ↦ rw clear refl
      | inr seen ↦ elim (Bool-cases (alpha == 255)) [
        | inl full ↦
            let covers : ltb alpha 255 ≡ false = ground (arith, full) in
            rw (seen, full, covers) refl
        | inr part ↦
            let mixes : ltb alpha 255 ≡ true = ground (arith, part) in rw (seen, part, mixes) refl
      ]
    ]

module _ (fb : FbDev) (d : IsDisplay fb) (px py : ℕ) (hx : px < fb.w) (hy : py < fb.h) where
  -- A write at (a, b), seen at the pixel.
  put_word_lem :
      (new : ℕ → Option ℕ) (a b : ℕ) (buf : List ℕ)
      → a < fb.w
      → b < fb.h
      → Sized fb buf
      → Sized fb (put_word new (word_at fb a b) buf)
        × (pixel fb px py (put_word new (word_at fb a b) buf) ≡ (
            if (a == px) && (b == py)
            then or_old (new (pixel fb a b buf)) (pixel fb px py buf)
            else pixel fb px py buf))
  unfolding put_word
  put_word_lem new a b buf ina inb e = by_word (new (pixel fb a b buf))
    where
      by_word :
          (o : Option ℕ)
          → Sized fb (elim o [ none ↦ buf | some c ↦ set buf (word_at fb a b) c ])
            × (pixel fb px py (elim o [ none ↦ buf | some c ↦ set buf (word_at fb a b) c ]) ≡ (
                if (a == px) && (b == py)
                then or_old o (pixel fb px py buf)
                else pixel fb px py buf))
      by_word none = (e, same (pixel fb px py buf) ((a == px) && (b == py)))
        where
          same : (n : ℕ) (t : Bool) → n ≡ (if t then n else n)
          same n true = refl
          same n false = refl
      by_word (some c) = write_word fb d px py hx hy a b c buf ina inb e

  blit_at_lem :
      (tx ty : ℤ) (new : ℕ → Option ℕ) (buf : List ℕ)
      → Sized fb buf
      → Sized fb (blit_at fb tx ty new buf)
        × (pixel fb px py (blit_at fb tx ty new buf) ≡ (
            if is_at px py tx ty
            then or_old (new (pixel fb px py buf)) (pixel fb px py buf)
            else pixel fb px py buf))
  unfolding blit_at
  blit_at_lem (pos a) (pos b) new buf e = elim (Bool-cases (ltb b fb.h && ltb a fb.w)) [
    | inr off ↦ (ground (arith, e, off), ground (arith, off))
    | inl on ↦
        let (sized, seen) = put_word_lem new a b buf (ground (arith, on)) (ground (arith, on)) e in
        (
          ground (arith, on, sized),
          elim (Bool-cases ((a == px) && (b == py))) [
            | inl here ↦
                let column : a ≡ px = ground (arith, here) in
                let row : b ≡ py = ground (arith, here) in
                let same : or_old (new (pixel fb a b buf)) (pixel fb px py buf)
                    ≡ or_old (new (pixel fb px py buf)) (pixel fb px py buf) =
                  ap (λ k. or_old (new (pixel fb k b buf)) (pixel fb px py buf)) column
                  ∙ ap (λ k. or_old (new (pixel fb px k buf)) (pixel fb px py buf)) row in
                ground (arith, on, seen, here, same)
            | inr away ↦ ground (arith, on, seen, away)
          ],
        )
  ]
  blit_at_lem (pos a) (negsuc b) new buf e = (ground (arith, e), ground arith)
  blit_at_lem (negsuc a) ty new buf e = (ground (arith, e), ground arith)

  -- A picture with `w` columns and `h` rows.
  pub blit_lem :
      (x y w h : ℤ) (paint : ℕ → ℕ → ℕ → Option ℕ) (buf : List ℕ)
      → Sized fb buf
      → Sized fb (for_grid w h (blit_pix fb x y paint) buf)
        × (pixel fb px py (for_grid w h (blit_pix fb x y paint) buf) ≡ (
            if in_rect x y w h px py
            then or_old
                (paint (offset y py) (offset x px) (pixel fb px py buf))
                (pixel fb px py buf)
            else pixel fb px py buf))
  unfolding blit_pix
  blit_lem x y w h paint buf e =
      for_grid_lem fb px py x y w h (blit_pix fb x y paint)
        (λ old. or_old (paint (offset y py) (offset x px) old) old)
        (λ i j b low right g. round i j b g) buf e
    where
      round :
          (i j : ℕ) (b : List ℕ)
          → Sized fb b
          → Sized fb (blit_at fb (x +ℤ pos j) (y +ℤ pos i) (paint i j) b)
            × (pixel fb px py (blit_at fb (x +ℤ pos j) (y +ℤ pos i) (paint i j) b) ≡ (
                if is_at px py (x +ℤ pos j) (y +ℤ pos i)
                then or_old
                    (paint (offset y py) (offset x px) (pixel fb px py b))
                    (pixel fb px py b)
                else pixel fb px py b))
      round i j b g = elim (Bool-cases (is_at px py (x +ℤ pos j) (y +ℤ pos i))) [
        | inl here ↦
            let column : j ≡ offset x px = span_round x px j (ground (arith, here)) in
            let row : i ≡ offset y py = span_round y py i (ground (arith, here)) in
            let (sized, seen) = blit_at_lem (x +ℤ pos j) (y +ℤ pos i) (paint i j) b g in
            let old = pixel fb px py b in
            (
              sized,
              ground (
                arith,
                here,
                seen,
                ap (λ k. or_old (paint i k old) old) column,
                ap (λ k. or_old (paint k (offset x px) old) old) row,
              ),
            )
        | inr away ↦
            let (sized, seen) = blit_at_lem (x +ℤ pos j) (y +ℤ pos i) (paint i j) b g in
            (sized, ground (arith, away, seen))
      ]

  -- On a display whose rows are whole words and hold its pixels, with a buffer of its size, an image
  -- at (x, y) whose buffer has all its pixels changes only the pixels of the screen that lie in it: by
  -- the image's pixel at that place, which covers the old colour if it is opaque, leaves it if it is
  -- transparent, and is mixed with it, channel by channel, in between. The length of the buffer stays.
  pub draw_img-pixel :
      (l : Layout) (img : AutumnImage) (x y : ℤ) (buf : List ℕ)
      → pos_part img.w * pos_part img.h ≤ length img.buffer
      → Sized fb buf
      → let p = get_or img.buffer (offset y py * pos_part img.w + offset x px) 0 in
        Sized fb (draw_img fb l img x y buf)
        × (pixel fb px py (draw_img fb l img x y buf) ≡ (
            if in_rect x y img.w img.h px py
            then picture_over l p (pixel fb px py buf)
            else pixel fb px py buf))
  unfolding draw_img
  draw_img-pixel l img x y buf whole e =
      let same = image_word-picture_over l img (offset y py) (offset x px) (pixel fb px py buf) in
      rw (← same) (blit_lem x y img.w img.h (image_word l img) buf e)

  -- The same of a frame of a GIF that exists, at its own place in the picture, where the transparent
  -- index leaves a pixel alone.
  pub draw_gif_ani-pixel :
      (l : Layout) (frames : List Frame) (f : Frame) (x y : ℤ) (idx : ℕ) (buf : List ℕ)
      → get_elem? frames idx ≡ some f
      → Sized fb buf
      → Sized fb (draw_gif_ani fb l frames x y (pos idx) buf)
        × (pixel fb px py (draw_gif_ani fb l frames x y (pos idx) buf) ≡ (
            if in_rect (x +ℤ f.left) (y +ℤ f.top) f.width f.height px py
            then or_old
                (frame_word l f
                  (offset (y +ℤ f.top) py)
                  (offset (x +ℤ f.left) px)
                  (pixel fb px py buf))
                (pixel fb px py buf)
            else pixel fb px py buf))
  unfolding draw_gif_ani
  draw_gif_ani-pixel l frames f x y idx buf exists e =
      rw (draw_gif_ani, exists)
        (blit_lem (x +ℤ f.left) (y +ℤ f.top) f.width f.height (frame_word l f) buf e)
