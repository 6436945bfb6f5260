-- ===== src/Fb/Rect.antt =====
-- What the rectangles leave at one pixel of the back buffer.
use autumnos_mobile.Common.{
  ℕ, ◌<◌, ◌≡◌, inl, inr, Bool, true, false, ◌&&◌, ◌||◌, List, arith, if◌then◌else◌, Bool-cases,
  for_range, any_in, any_in-some, any_in-none, paint_range, paint_once, ℤ, pos, pos_part, ◌+ℤ◌,
  ◌-ℤ◌, ltb_ℤ, leb_ℤ, eqb_ℤ, one_part, +ℤ_parts, -ℤ_parts,
}
use autumnos_mobile.Fb.{FbDev, draw_pix, for_grid, draw_level, draw_upright, draw_rect}
use autumnos_mobile.Fb.Pixel.{IsDisplay, Sized, pixel, is_at, draw_pix_lem}

-- `p` is one of the `n` places from `x` on.
abbrev pub in_span : ℤ → ℤ → ℕ → Bool
in_span x n p = leb_ℤ x (pos p) && ltb_ℤ (pos p) (x +ℤ n)

-- The place in the span.
abbrev pub offset : ℤ → ℕ → ℕ
offset x p = pos_part (pos p -ℤ x)

-- The pixel lies in the rectangle.
abbrev pub in_rect : (x y w h : ℤ) → ℕ → ℕ → Bool
in_rect x y w h px py = in_span x w px && in_span y h py

-- One of the rounds of a loop over a span is at the place.
pub any_in-span :
    (x n : ℤ) (p : ℕ) (also : Bool)
    → any_in (λ k. eqb_ℤ (x +ℤ pos k) (pos p) && also) (pos_part n) 0 ≡ (in_span x n p && also)
any_in-span x n p also = elim (Bool-cases (in_span x n p && also)) [
  | inl inside ↦ ground (
    arith,
    inside,
    any_in-some (λ k. eqb_ℤ (x +ℤ pos k) (pos p) && also) (pos_part n) 0 (offset x p) (omega arith)
        (ground
          (arith, inside, +ℤ_parts x n, -ℤ_parts (pos p) x, one_part (pos p -ℤ x), one_part n))
        (ground (
          arith,
          inside,
          +ℤ_parts x (pos (offset x p)),
          -ℤ_parts (pos p) x,
          one_part (pos p -ℤ x),
        )),
  )
  | inr outside ↦ ground (
    arith,
    outside,
    any_in-none (λ k. eqb_ℤ (x +ℤ pos k) (pos p) && also) (pos_part n) 0
        (λ k lo hi. ground (arith, outside, +ℤ_parts x (pos k), +ℤ_parts x n, one_part n)),
  )
]

-- The round that is at the place.
pub span_round : (x : ℤ) (p k : ℕ) → eqb_ℤ (x +ℤ pos k) (pos p) ≡ true → k ≡ offset x p
span_round x p k e =
    ground (arith, e, +ℤ_parts x (pos k), -ℤ_parts (pos p) x, one_part (pos p -ℤ x))

module _ (fb : FbDev) (px py : ℕ) (x y w h : ℤ) where
  -- A double loop over a rectangle, of which only the round at the pixel's own column and row
  -- changes it, changes the pixel as that round does if it lies in the rectangle.
  pub for_grid_lem :
      (body : ℕ → ℕ → List ℕ → List ℕ) (f : ℕ → ℕ)
      → ((i j : ℕ) (buf : List ℕ)
          → i < pos_part h
          → j < pos_part w
          → Sized fb buf
          → Sized fb (body i j buf)
            × (pixel fb px py (body i j buf) ≡ (
                if is_at px py (x +ℤ pos j) (y +ℤ pos i)
                then f (pixel fb px py buf)
                else pixel fb px py buf)))
      → (buf : List ℕ) → Sized fb buf
      → Sized fb (for_grid w h body buf)
        × (pixel fb px py (for_grid w h body buf)
            ≡ (if in_rect x y w h px py then f (pixel fb px py buf) else pixel fb px py buf))
  for_grid_lem body f each buf e =
      let row : (i : ℕ) (b : List ℕ)
          → i < pos_part h
          → Sized fb b
          → Sized fb (for_range (pos_part w) 0 (body i) b)
            × (pixel fb px py (for_range (pos_part w) 0 (body i) b) ≡ (
                if eqb_ℤ (y +ℤ pos i) (pos py) && in_span x w px
                then f (pixel fb px py b)
                else pixel fb px py b)) =
        λ i b low g.
          let done =
            paint_once (Sized fb) (pixel fb px py) (body i)
              (λ j. eqb_ℤ (x +ℤ pos j) (pos px) && eqb_ℤ (y +ℤ pos i) (pos py)) f (offset x px)
              (λ j hit. span_round x px j (ground (arith, hit))) (pos_part w) 0
              (λ j s lo hi. each i j s low (omega arith)) b g in
          ground (arith, done, any_in-span x w px (eqb_ℤ (y +ℤ pos i) (pos py))) in
      let done =
        paint_once (Sized fb) (pixel fb px py) (λ i. for_range (pos_part w) 0 (body i))
          (λ i. eqb_ℤ (y +ℤ pos i) (pos py) && in_span x w px) f (offset y py)
          (λ i hit. span_round y py i (ground (arith, hit))) (pos_part h) 0
          (λ i s lo hi. row i s (omega arith)) buf e in
      ground (arith, done, any_in-span y h py (in_span x w px))

-- The pixel lies on the frame of the rectangle: in one of the two rows that the level lines take, or
-- in one of the two columns of the upright ones.
abbrev pub on_frame : (x y w h : ℤ) → ℕ → ℕ → Bool
on_frame x y w h px py =
    (in_span x w px && (eqb_ℤ y (pos py) || eqb_ℤ (y +ℤ h -ℤ pos 1) (pos py)))
    || (in_span y h py && (eqb_ℤ x (pos px) || eqb_ℤ (x +ℤ w -ℤ pos 1) (pos px)))

module _ (fb : FbDev) (d : IsDisplay fb) (px py : ℕ) (hx : px < fb.w) (hy : py < fb.h) where
  -- A line of the frame, twice: the rounds at `x + k` or `y + k` hit.
  level_lem :
      (x y w h : ℤ) (color : ℕ) (i : ℕ) (buf : List ℕ)
      → Sized fb buf
      → Sized fb (draw_level fb x y w h color i buf)
        × (pixel fb px py (draw_level fb x y w h color i buf) ≡ (
            if eqb_ℤ (x +ℤ pos i) (pos px) && (eqb_ℤ y (pos py) || eqb_ℤ (y +ℤ h -ℤ pos 1) (pos py))
            then color
            else pixel fb px py buf))
  unfolding draw_level
  level_lem x y w h color i buf e =
      let upper = draw_pix_lem fb d px py hx hy (x +ℤ pos i) y color buf e in
      let lower =
        draw_pix_lem fb d px py hx hy (x +ℤ pos i) (y +ℤ h -ℤ pos 1) color
          (draw_pix fb (x +ℤ pos i) y color buf) upper.0 in
      ground (arith, upper, lower)

  upright_lem :
      (x y w h : ℤ) (color : ℕ) (i : ℕ) (buf : List ℕ)
      → Sized fb buf
      → Sized fb (draw_upright fb x y w h color i buf)
        × (pixel fb px py (draw_upright fb x y w h color i buf) ≡ (
            if eqb_ℤ (y +ℤ pos i) (pos py) && (eqb_ℤ x (pos px) || eqb_ℤ (x +ℤ w -ℤ pos 1) (pos px))
            then color
            else pixel fb px py buf))
  unfolding draw_upright
  upright_lem x y w h color i buf e =
      let left = draw_pix_lem fb d px py hx hy x (y +ℤ pos i) color buf e in
      let right =
        draw_pix_lem fb d px py hx hy (x +ℤ w -ℤ pos 1) (y +ℤ pos i) color
          (draw_pix fb x (y +ℤ pos i) color buf) left.0 in
      ground (arith, left, right)

  -- On a display whose rows are whole words and hold its pixels, with a buffer of its size, a
  -- rectangle, filled or not, gives its colour to the pixels of the screen that lie in it, or on
  -- its frame, and changes no other, nor the buffer's length.
  pub draw_rect-pixel :
      (x y w h : ℤ) (color : ℕ) (fill : Bool) (buf : List ℕ)
      → Sized fb buf
      → Sized fb (draw_rect fb x y w h color fill buf)
        × (pixel fb px py (draw_rect fb x y w h color fill buf) ≡ (
            if (if fill then in_rect x y w h px py else on_frame x y w h px py)
            then color
            else pixel fb px py buf))
  unfolding draw_rect
  draw_rect-pixel x y w h color true buf e =
      for_grid_lem fb px py x y w h (λ i j. draw_pix fb (x +ℤ pos j) (y +ℤ pos i) color)
        (λ _. color)
        (λ i j b low right. draw_pix_lem fb d px py hx hy (x +ℤ pos j) (y +ℤ pos i) color b) buf e
  draw_rect-pixel x y w h color false buf e =
      let rows = eqb_ℤ y (pos py) || eqb_ℤ (y +ℤ h -ℤ pos 1) (pos py) in
      let columns = eqb_ℤ x (pos px) || eqb_ℤ (x +ℤ w -ℤ pos 1) (pos px) in
      let first =
        paint_range (Sized fb) (pixel fb px py) (draw_level fb x y w h color)
          (λ i. eqb_ℤ (x +ℤ pos i) (pos px) && rows) color (pos_part w) 0
          (λ i b lo hi. level_lem x y w h color i b) buf e in
      let second =
        paint_range (Sized fb) (pixel fb px py) (draw_upright fb x y w h color)
          (λ i. eqb_ℤ (y +ℤ pos i) (pos py) && columns) color (pos_part h) 0
          (λ i b lo hi. upright_lem x y w h color i b)
          (for_range (pos_part w) 0 (draw_level fb x y w h color) buf) first.0 in
      ground (arith, first, second, any_in-span x w px rows, any_in-span y h py columns)
