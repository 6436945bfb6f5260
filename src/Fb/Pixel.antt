-- ===== src/Fb/Pixel.antt =====
-- What a write of one pixel, and a double loop of them, leaves at one pixel of the back buffer.
use autumnos_mobile.Common.{
  ℕ, ◌*◌, ◌/◌, ◌%◌, ◌≤◌, ◌<◌, ◌≡◌, ap, ◌∙◌, inl, inr, Bool, true, ◌&&◌, List, arith, ◌==◌,
  if◌then◌else◌, Bool-cases, get_or, set, length, length-set, get_or-set_self, get_or-set_ne, ℤ,
  pos, pos_part, ltb_ℤ, leb_ℤ, eqb_ℤ, one_part, same_row, rows_apart,
}
use native.Mathlib.Decide.{ℕ_discrete}
use autumnos_mobile.Fb.{FbDev, word_at, draw_pix}

-- Rows are whole words, and hold the pixels of a line of the screen.
pub record IsDisplay (fb : FbDev) : Type 0 where
  pub whole : fb.stride % 4 ≡ 0
  pub fits : fb.w ≤ fb.stride / 4

-- The buffer of `h * stride` bytes.
abbrev pub Sized : FbDev → List ℕ → Type 0
Sized fb buf = length buf ≡ fb.h * (fb.stride / 4)

abbrev pub pixel : FbDev → ℕ → ℕ → List ℕ → ℕ
pixel fb px py buf = get_or buf (word_at fb px py) 0

-- Drawing at (x, y) is drawing at the pixel.
abbrev pub is_at : ℕ → ℕ → ℤ → ℤ → Bool
is_at px py x y = eqb_ℤ x (pos px) && eqb_ℤ y (pos py)

word_in :
    (fb : FbDev)
    → IsDisplay fb
    → (x y : ℕ) → x < fb.w
    → y < fb.h
    → word_at fb x y < fb.h * (fb.stride / 4)
word_in fb d x y hx hy = omega (arith, rows_apart (fb.stride / 4) y fb.h hy, d.fits)

-- A byte of a row's start, as a word.
row_word : (fb : FbDev) → IsDisplay fb → (y : ℕ) → y * fb.stride / 4 ≡ y * (fb.stride / 4)
row_word fb d y =
    let whole : fb.stride ≡ 4 * (fb.stride / 4) = omega (arith, d.whole) in
    let scaled : y * fb.stride ≡ 4 * (y * (fb.stride / 4)) =
      ap (λ (t : ℕ). y * t) whole ∙ swap y (fb.stride / 4) in
    omega (arith, scaled)
  where
    swap : (a b : ℕ) → a * (4 * b) ≡ 4 * (a * b)
    swap a b = grind arith

same_pixel :
    (fb : FbDev)
    → IsDisplay fb
    → (x y px py : ℕ) → x < fb.w
    → px < fb.w
    → word_at fb x y ≡ word_at fb px py
    → (x ≡ px) × (y ≡ py)
same_pixel fb d x y px py hx hpx e =
    let row : y ≡ py =
      same_row (fb.stride / 4) y x py px 1 (omega (arith, d.fits)) (omega (arith, d.fits))
        (omega (arith, e)) (omega (arith, e)) in
    (omega (arith, e, ap (λ (t : ℕ). t * (fb.stride / 4)) row), row)

module _ (fb : FbDev) (d : IsDisplay fb) (px py : ℕ) (hx : px < fb.w) (hy : py < fb.h) where
  -- A write at the word of (x, y).
  pub write_word :
      (x y color : ℕ) (buf : List ℕ)
      → x < fb.w
      → y < fb.h
      → Sized fb buf
      → Sized fb (set buf (word_at fb x y) color)
        × (pixel fb px py (set buf (word_at fb x y) color)
            ≡ (if (x == px) && (y == py) then color else pixel fb px py buf))
  write_word x y color buf inx iny e = elim (ℕ_discrete (word_at fb x y) (word_at fb px py)) [
    | yes hit ↦
        let same = same_pixel fb d x y px py inx hx hit in
        (
          length-set buf (word_at fb x y) color ∙ e,
          ground (
            arith,
            same,
            ap (λ k. get_or (set buf (word_at fb x y) color) k 0) hit,
            get_or-set_self buf (word_at fb x y) color 0
                (omega (arith, e, word_in fb d x y inx iny)),
          ),
        )
    | no miss ↦
        let other : ((x == px) && (y == py)) ≡ true → ⊥ =
          λ t. miss (ap (λ k. word_at fb k y) (first t) ∙ ap (λ k. word_at fb px k) (second t)) in
        (
          length-set buf (word_at fb x y) color ∙ e,
          ground (arith, other, get_or-set_ne buf (word_at fb x y) (word_at fb px py) color 0 miss),
        )
  ]
    where
      first : ((x == px) && (y == py)) ≡ true → x ≡ px
      first t = ground (arith, t)

      second : ((x == px) && (y == py)) ≡ true → y ≡ py
      second t = ground (arith, t)

  -- `AutumnAPI_DrawPix` gives the colour to the pixel at its place, if the screen has it, and
  -- changes no other.
  pub draw_pix_lem :
      (x y : ℤ) (color : ℕ) (buf : List ℕ)
      → Sized fb buf
      → Sized fb (draw_pix fb x y color buf)
        × (pixel fb px py (draw_pix fb x y color buf)
            ≡ (if is_at px py x y then color else pixel fb px py buf))
  unfolding draw_pix
  draw_pix_lem x y color buf e =
      elim (Bool-cases
        (leb_ℤ (pos 0) x && ltb_ℤ x (pos fb.w) && leb_ℤ (pos 0) y && ltb_ℤ y (pos fb.h))) [
          | inl on ↦
              let written =
                write_word (pos_part x) (pos_part y) color buf (ground (arith, on))
                  (ground (arith, on)) e in
              rw (on, row_word fb d (pos_part y))
                (ground (arith, on, written, one_part x, one_part y))
          | inr off ↦ ground (arith, off, e)
        ]
