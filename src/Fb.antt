-- ===== src/Fb.antt =====
-- v0.1-alpha/API/libfbdev.c: drawing into the back buffer `bk_bf` of the screen, which is passed as
-- the list of its 32-bit words. `w`, `h`, `stride` and the offsets are `uint32_t` values of the
-- display driver. Coordinates are `int`.
pub mod Pixel
pub mod Rect
pub mod Corners
pub mod Line
pub mod Refresh
pub mod Blit
pub mod Text
pub mod Box
mod Tests
use autumnos_mobile.Common.{
  ℕ, zero, suc, ◌+◌, ◌*◌, ◌/◌, Bool, true, false, not, ◌&&◌, ◌||◌, Option, none, some, List, ℤ, pos,
  negsuc, pos_part, neg_part, ◌+ℤ◌, ◌-ℤ◌, ◌*ℤ◌, ltb_ℤ, leb_ℤ, eqb_ℤ, if◌then◌else◌, set, for_range,
}

pub record FbDev : Type 0 where
  pub w : ℕ
  pub h : ℕ
  pub stride : ℕ

-- The word of the pixel (x, y) in code that steps by `stride / 4` words.
abbrev pub word_at : FbDev → ℕ → ℕ → ℕ
word_at fb x y = y * (fb.stride / 4) + x

-- `AutumnAPI_DrawPix`. The row starts at the byte `y * stride`.
pub draw_pix : FbDev → ℤ → ℤ → ℕ → List ℕ → List ℕ
draw_pix fb x y color buf =
    if leb_ℤ (pos 0) x && ltb_ℤ x (pos fb.w) && leb_ℤ (pos 0) y && ltb_ℤ y (pos fb.h)
    then set buf (pos_part y * fb.stride / 4 + pos_part x) color
    else buf

-- `for (i = 0; i < h; i++) for (j = 0; j < w; j++) body`.
abbrev pub for_grid : ℤ → ℤ → (ℕ → ℕ → List ℕ → List ℕ) → List ℕ → List ℕ
for_grid w h body = for_range (pos_part h) 0 (λ i. for_range (pos_part w) 0 (body i))

-- The two loops of `AutumnAPI_DrawRect` that draw the frame.
module _ (fb : FbDev) (x y w h : ℤ) (color : ℕ) where
  pub draw_level : ℕ → List ℕ → List ℕ
  unfolding draw_pix
  draw_level i buf =
      draw_pix fb (x +ℤ pos i) (y +ℤ h -ℤ pos 1) color (draw_pix fb (x +ℤ pos i) y color buf)

  pub draw_upright : ℕ → List ℕ → List ℕ
  unfolding draw_pix
  draw_upright i buf =
      draw_pix fb (x +ℤ w -ℤ pos 1) (y +ℤ pos i) color (draw_pix fb x (y +ℤ pos i) color buf)

-- `AutumnAPI_DrawRect`.
pub draw_rect : FbDev → (x y w h : ℤ) → ℕ → Bool → List ℕ → List ℕ
unfolding draw_level draw_upright
draw_rect fb x y w h color fill buf =
    if fill
    then for_grid w h (λ i j. draw_pix fb (x +ℤ pos j) (y +ℤ pos i) color) buf
    else for_range (pos_part h) 0 (draw_upright fb x y w h color)
        (for_range (pos_part w) 0 (draw_level fb x y w h color) buf)

-- `AutumnAPI_ClearFb`.
pub clear_fb : FbDev → ℕ → List ℕ → List ℕ
clear_fb fb color = for_grid (pos fb.w) (pos fb.h) (λ y x buf. set buf (word_at fb x y) color)

pub record CornerRadius : Type 0 where
  pub tl : ℤ
  pub tr : ℤ
  pub bl : ℤ
  pub br : ℤ

-- `dx * dx + dy * dy > r * r`.
abbrev pub beyond : ℤ → ℤ → ℤ → Bool
beyond dx dy r = ltb_ℤ (r *ℤ r) (dx *ℤ dx +ℤ dy *ℤ dy)

-- `draw` of `AutumnAPI_DrawAdvancedRect` for column `j` and row `i`.
pub kept_corner : ℤ → ℤ → CornerRadius → ℤ → ℤ → Bool
kept_corner w h r j i =
    if ltb_ℤ i r.tl && ltb_ℤ j r.tl
    then not (beyond (r.tl -ℤ j) (r.tl -ℤ i) r.tl)
    else if ltb_ℤ i r.tr && leb_ℤ (w -ℤ r.tr) j
    then not (beyond (j -ℤ (w -ℤ pos 1 -ℤ r.tr)) (r.tr -ℤ i) r.tr)
    else if leb_ℤ (h -ℤ r.bl) i && ltb_ℤ j r.bl
    then not (beyond (r.bl -ℤ j) (i -ℤ (h -ℤ pos 1 -ℤ r.bl)) r.bl)
    else if leb_ℤ (h -ℤ r.br) i && leb_ℤ (w -ℤ r.br) j
    then not (beyond (j -ℤ (w -ℤ pos 1 -ℤ r.br)) (i -ℤ (h -ℤ pos 1 -ℤ r.br)) r.br)
    else true

-- A round of `AutumnAPI_DrawAdvancedRect`, for row `i` and column `j`.
pub advanced_pix : FbDev → (x y w h : ℤ) → ℕ → CornerRadius → Bool → ℕ → ℕ → List ℕ → List ℕ
unfolding draw_pix kept_corner
advanced_pix fb x y w h color r fill i j buf =
    let target_x = x +ℤ pos j in
    let target_y = y +ℤ pos i in
    if ltb_ℤ target_x (pos 0)
      || leb_ℤ (pos fb.w) target_x
      || ltb_ℤ target_y (pos 0)
      || leb_ℤ (pos fb.h) target_y
    then buf
    else if kept_corner w h r (pos j) (pos i) && fill
    then draw_pix fb target_x target_y color buf
    else buf

pub draw_advanced_rect : FbDev → (x y w h : ℤ) → ℕ → CornerRadius → Bool → List ℕ → List ℕ
unfolding advanced_pix
draw_advanced_rect fb x y w h color r fill = for_grid w h (advanced_pix fb x y w h color r fill)

-- `dx` and `dy` of the rounded boxes: how far column `j` of `w` lies in a corner of radius `r`.
pub corner_part : ℤ → ℤ → ℤ → ℤ
corner_part r w j =
    if ltb_ℤ j r
    then r -ℤ j
    else if ltb_ℤ (w -ℤ pos 1 -ℤ r) j
    then j -ℤ (w -ℤ pos 1 -ℤ r)
    else pos 0

-- A round of `AutumnAPI_DrawWindowBody`, for row `i` and column `j`.
pub window_pix : FbDev → (x y w h r : ℤ) → (window_bg border_color : ℕ) → ℕ → ℕ → List ℕ → List ℕ
unfolding draw_rect corner_part
window_pix fb x y w h r window_bg border_color i j buf =
    let dx = corner_part r w (pos j) in
    let dy = corner_part r h (pos i) in
    let dist_sq = dx *ℤ dx +ℤ dy *ℤ dy in
    if leb_ℤ (r *ℤ r) dist_sq
    then buf
    else if leb_ℤ ((r -ℤ pos 1) *ℤ (r -ℤ pos 1)) dist_sq
    then draw_rect fb (x +ℤ pos j) (y +ℤ pos i) (pos 1) (pos 1) border_color true buf
    else draw_rect fb (x +ℤ pos j) (y +ℤ pos i) (pos 1) (pos 1) window_bg true buf

pub draw_window_body : FbDev → (x y w h r : ℤ) → (window_bg border_color : ℕ) → List ℕ → List ℕ
unfolding window_pix
draw_window_body fb x y w h r window_bg border_color =
    for_grid w h (window_pix fb x y w h r window_bg border_color)

-- `abs`, and the step of a line from `a` towards `b`.
abbrev pub distance : ℤ → ℤ → ℕ
distance a b = let d = b -ℤ a in pos_part d + neg_part d

abbrev pub direction : ℤ → ℤ → ℤ
direction a b = if ltb_ℤ a b then pos 1 else negsuc 0

-- The loop of `AutumnAPI_DrawLine` to (x1, y1). `dy` is the negative of the source's `dy`. `none` is
-- a loop that is still running when the fuel ends.
pub line_loop :
    FbDev → (x1 y1 sx sy : ℤ) (dx dy : ℕ) → ℕ → ℕ → (x0 y0 err : ℤ) → List ℕ → Option (List ℕ)
line_loop fb x1 y1 sx sy dx dy color zero x0 y0 err buf = none
line_loop fb x1 y1 sx sy dx dy color (suc fuel) x0 y0 err buf =
    let drawn = draw_pix fb x0 y0 color buf in
    let across = leb_ℤ (pos 0 -ℤ pos dy) (pos 2 *ℤ err) in
    let down = leb_ℤ (pos 2 *ℤ err) (pos dx) in
    let err' = if across then err -ℤ pos dy else err in
    let rest =
      line_loop fb x1 y1 sx sy dx dy color fuel (if across then x0 +ℤ sx else x0)
        (if down then y0 +ℤ sy else y0) (if down then err' +ℤ pos dx else err') drawn in
    if eqb_ℤ x0 x1 && eqb_ℤ y0 y1 then some drawn else rest

-- `AutumnAPI_DrawLine`.
pub draw_line : FbDev → ℕ → (x0 y0 x1 y1 : ℤ) → ℕ → List ℕ → Option (List ℕ)
unfolding line_loop
draw_line fb fuel x0 y0 x1 y1 color buf =
    let dx = distance x0 x1 in
    let dy = distance y0 y1 in
    line_loop fb x1 y1 (direction x0 x1) (direction y0 y1) dx dy color fuel x0 y0 (pos dx -ℤ pos dy)
      buf
