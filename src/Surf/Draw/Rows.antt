-- ===== src/Surf/Draw/Rows.antt =====
-- What one round of the two loops of `AutixSurf_DrawLayer` leaves at one pixel of the screen.
use autumnos_mobile.Common.{
  ℕ, ◌+◌, ◌-◌, ◌*◌, ◌≤◌, ◌<◌, ◌≡◌, ap, Bool, true, false, ◌&&◌, List, ◌⊎◌, inl, inr, arith, ltb,
  leb, if◌then◌else◌, Bool-cases, get_or, length, ℤ, pos, pos_part, neg_part, ◌+ℤ◌, ◌-ℤ◌, ltb_ℤ,
  leb_ℤ, eqb_ℤ, one_part, +ℤ_parts, -ℤ_parts,
}
use autumnos_mobile.Surf.Types.{Layer}
use autumnos_mobile.Surf.Draw.{
  title_gradient, draw_row, draw_title_row, title_height, off_screen, target_x, source_x, row_count,
  end_x,
}
use autumnos_mobile.Surf.Draw.Words.{
  in_run-row, run_in, copy_words_lem, fill_words_lem, fill_words-zero,
}

module _ (layer : Layer) (px py : ℕ) where
  open layer use {x, y, w, h}

  -- The layer's columns take in the pixel.
  abbrev pub in_columns : Bool
  in_columns = leb_ℤ x (pos px) && ltb_ℤ (pos px) (x +ℤ w)

  abbrev pub in_rows : Bool
  in_rows = leb_ℤ y (pos py) && ltb_ℤ (pos py) (y +ℤ h)

  -- The pixel's place in the layer.
  abbrev pub local_x : ℕ
  local_x = pos_part (pos px -ℤ x)

  abbrev pub local_y : ℕ
  local_y = pos_part (pos py -ℤ y)

-- The cut of a row, at a column of the screen.
row_count_lem :
    (width px : ℕ) (x w : ℤ)
    → px < width
    → ((leb_ℤ (row_count (pos width) x w) (pos 0) ≡ false)
        → pos_part (target_x x) + pos_part (row_count (pos width) x w) ≤ width)
      × ((leb (pos_part (target_x x)) px
            && ltb px (pos_part (target_x x) + pos_part (row_count (pos width) x w)))
          ≡ (leb_ℤ x (pos px) && ltb_ℤ (pos px) (x +ℤ w)))
      × ((leb_ℤ x (pos px) && ltb_ℤ (pos px) (x +ℤ w)) ≡ true
          → pos_part (source_x x) + (px - pos_part (target_x x)) ≡ pos_part (pos px -ℤ x))
unfolding row_count ◌+ℤ◌ ◌-ℤ◌
row_count_lem width px x w h = (ground arith, ground arith, ground arith)

-- The columns that a row of the title bar fills.
end_x_lem :
    (width px : ℕ) (x w : ℤ)
    → px < width
    → let n = pos_part (end_x (pos width) x w -ℤ target_x x) in
      ((n ≡ 0) ⊎ (pos_part (target_x x) + n ≤ width))
      × ((leb (pos_part (target_x x)) px && ltb px (pos_part (target_x x) + n))
          ≡ (leb_ℤ x (pos px) && ltb_ℤ (pos px) (x +ℤ w)))
unfolding end_x target_x ◌+ℤ◌ ◌-ℤ◌
end_x_lem width px x w h = (ground arith, ground arith)

module _ (width height : ℕ) (layer : Layer) (pixels : List ℕ) (px py : ℕ) where
  open layer use {x, y, w, h}

  unfoldable pub row_hit : ℕ → Bool
  row_hit sy = eqb_ℤ (y +ℤ pos sy) (pos py) && in_columns layer px py

  -- A row that the screen has.
  on_screen : (t : ℤ) → off_screen (pos height) t ≡ false → (pos_part t < height) × (neg_part t ≡ 0)
  on_screen t e = ground (arith, one_part t)

  -- The row that hits is the pixel's row in the layer.
  pub hit_row : (sy : ℕ) → row_hit sy ≡ true → local_y layer px py ≡ sy
  unfolding row_hit
  hit_row sy hit =
      let row : pos_part (y +ℤ pos sy) ≡ py = ground (arith, hit, one_part (y +ℤ pos sy)) in
      let up : neg_part (y +ℤ pos sy) ≡ 0 = ground (arith, hit, one_part (y +ℤ pos sy)) in
      omega (arith, row, up, +ℤ_parts y (pos sy), -ℤ_parts (pos py) y, one_part (pos py -ℤ y))

  -- Where a hit row reads the layer's memory: at the pixel's place in the layer.
  source_at :
      (sy : ℕ)
      → px < width
      → row_hit sy ≡ true
      → sy * pos_part w
          + pos_part (source_x x)
          + ((py * width + px) - (pos_part (y +ℤ pos sy) * width + pos_part (target_x x)))
        ≡ local_y layer px py * pos_part w + local_x layer px py
  unfolding row_hit
  source_at sy hx hit =
      let columns : in_columns layer px py ≡ true = ground (arith, hit) in
      let across = (row_count_lem width px x w hx).2 columns in
      let seen : pos_part (target_x x) ≤ px =
        ground (arith, (row_count_lem width px x w hx).1, columns) in
      let row : pos_part (y +ℤ pos sy) ≡ py = ground (arith, hit, one_part (y +ℤ pos sy)) in
      let down = hit_row sy hit in
      omega
        (arith, across, seen, ap (λ (t : ℕ). t * width) row, ap (λ (t : ℕ). t * pos_part w) down)

  pub draw_row_lem :
      (sy : ℕ) (buf : List ℕ)
      → px < width
      → py < height
      → length buf ≡ width * height
      → (length (draw_row (pos width) (pos height) layer pixels sy buf) ≡ width * height)
        × (get_or (draw_row (pos width) (pos height) layer pixels sy buf) (py * width + px) 0 ≡ (
            if row_hit sy
            then get_or pixels (local_y layer px py * pos_part w + local_x layer px py) 0
            else get_or buf (py * width + px) 0))
  unfolding draw_row row_hit
  draw_row_lem sy buf hx hy e = elim (Bool-cases (off_screen (pos height) (y +ℤ pos sy))) [
    | inl off ↦ ground (arith, off, one_part (y +ℤ pos sy), e)
    | inr on ↦ elim (Bool-cases (leb_ℤ (row_count (pos width) x w) (pos 0))) [
      | inl none_left ↦ ground (
        arith,
        on,
        none_left,
        e,
        one_part (row_count (pos width) x w),
        (row_count_lem width px x w hx).1,
      )
      | inr some_left ↦
          let ty = pos_part (y +ℤ pos sy) in
          let tx = pos_part (target_x x) in
          let n = pos_part (row_count (pos width) x w) in
          let fits = (row_count_lem width px x w hx).0 some_left in
          let inside = run_in width height ty tx n (on_screen (y +ℤ pos sy) on).0 fits in
          let copied =
            copy_words_lem n (sy * pos_part w + pos_part (source_x x)) (ty * width + tx)
              (py * width + px) pixels buf (omega (arith, inside, e)) in
          let run = in_run-row width ty tx n py px fits hx in
          elim (Bool-cases (row_hit sy)) [
            | inl hit ↦ ground (
              arith,
              on,
              some_left,
              e,
              copied,
              run,
              hit,
              (on_screen (y +ℤ pos sy) on).1,
              (row_count_lem width px x w hx).1,
              ap (λ k. get_or pixels k 0) (source_at sy hx hit),
            )
            | inr miss ↦ ground (
              arith,
              on,
              some_left,
              e,
              copied,
              run,
              miss,
              (on_screen (y +ℤ pos sy) on).1,
              (row_count_lem width px x w hx).1,
            )
          ]
    ]
  ]

  pub draw_title_row_lem :
      (ty : ℕ) (buf : List ℕ)
      → px < width
      → py < height
      → length buf ≡ width * height
      → (length (draw_title_row (pos width) (pos height) layer pixels ty buf) ≡ width * height)
        × (get_or (draw_title_row (pos width) (pos height) layer pixels ty buf) (py * width + px) 0
            ≡ (if row_hit ty
                then title_gradient (pos (local_y layer px py)) (title_height h)
                else get_or buf (py * width + px) 0))
  unfolding draw_title_row row_hit
  draw_title_row_lem ty buf hx hy e = elim (Bool-cases (off_screen (pos height) (y +ℤ pos ty))) [
    | inl off ↦ ground (arith, off, one_part (y +ℤ pos ty), e)
    | inr on ↦
        let t = pos_part (y +ℤ pos ty) in
        let n = pos_part (end_x (pos width) x w -ℤ target_x x) in
        let color = title_gradient (pos ty) (title_height h) in
        let columns = end_x_lem width px x w hx in
        elim columns.0 [
          | inl empty ↦ ground (
            arith,
            on,
            e,
            (on_screen (y +ℤ pos ty) on).1,
            columns.1,
            empty,
            fill_words-zero n (t * width + pos_part (target_x x)) color buf empty,
          )
          | inr fits ↦
              let inside =
                run_in width height t (pos_part (target_x x)) n (on_screen (y +ℤ pos ty) on).0
                  fits in
              let filled =
                fill_words_lem n (t * width + pos_part (target_x x)) (py * width + px) color buf
                  (omega (arith, inside, e)) in
              let run = in_run-row width t (pos_part (target_x x)) n py px fits hx in
              elim (Bool-cases (row_hit ty)) [
                | inl hit ↦ ground (
                  arith,
                  on,
                  e,
                  filled,
                  run,
                  hit,
                  (on_screen (y +ℤ pos ty) on).1,
                  columns.1,
                  ap (λ k. title_gradient (pos k) (title_height h)) (hit_row ty hit),
                )
                | inr miss ↦
                    ground
                      (arith, on, e, filled, run, miss, (on_screen (y +ℤ pos ty) on).1, columns.1)
              ]
        ]
  ]
