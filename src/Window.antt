-- ===== src/Window.antt =====
-- v0.1-alpha/API/libatmui.c: a window with its title, its message, its panel of buttons and its fading.
-- `round_sqrt n` is `(int)(sqrt((double)n) + 0.5)`, and `width_of` the width of a text that the
-- service table's GetStrWidth gives.
pub mod Fade
pub mod Frame
pub mod Text
mod Tests
use autumnos_mobile.Common.{
  ℕ, zero, suc, ◌+◌, ◌*◌, ◌/◌, Bool, true, false, ◌&&◌, Option, none, some, List, [], ◌∷◌, ◌++◌,
  ◌==◌, if◌then◌else◌, get_or, set, take, for_range, u32, shl, bit_or, ℤ, pos, pos_part, ◌+ℤ◌, ◌-ℤ◌,
  ◌*ℤ◌, div_trunc, ltb_ℤ, leb_ℤ, c_string,
}
use autumnos_mobile.Surf.Draw.{to_u32}
use autumnos_mobile.Palette.{get_gradient_color, al_blend}
use autumnos_mobile.Widget.{ButtonWidget, button_set}
use autumnos_mobile.Fb.{FbDev, word_at}

pub data Anim : Type 0 where
  fade_in : Anim
  fade_out : Anim

-- The fields of `Window` that the code uses; `anim` is none for NULL.
pub record Window : Type 0 where
  pub x : ℤ
  pub y : ℤ
  pub w : ℤ
  pub h : ℤ
  pub r : ℤ
  pub title : List ℕ
  pub message : List ℕ
  pub buttons : List ButtonWidget
  pub labels : List (List ℕ)
  pub btn_count : ℤ
  pub alpha : ℤ
  pub anim : Option Anim

-- `AutumnAPI_Anim_FadeIn`.
pub anim_fade_in : ℤ → Window → Window
anim_fade_in speed win =
    if ltb_ℤ win.alpha (pos 255)
    then (let alpha = win.alpha +ℤ speed in
        record win { alpha = if ltb_ℤ (pos 255) alpha then pos 255 else alpha })
    else record win { anim = none }

-- `AutumnAPI_Anim_FadeOut`.
pub anim_fade_out : ℤ → Window → Window
anim_fade_out speed win =
    if ltb_ℤ (pos 0) win.alpha
    then (let alpha = win.alpha -ℤ speed in
        record win { alpha = if ltb_ℤ alpha (pos 0) then pos 0 else alpha })
    else record win { anim = none }

-- The call through `win->anim`.
pub animate : ℤ → Option Anim → Window → Window
unfolding anim_fade_in anim_fade_out
animate speed none win = win
animate speed (some fade_in) win = anim_fade_in speed win
animate speed (some fade_out) win = anim_fade_out speed win

-- One pixel of the window: the colour is blended over the screen and goes into the back buffer.
pub blend_pix : FbDev → List ℕ → ℕ → ℤ → (target_x current_y : ℤ) → List ℕ → List ℕ
blend_pix fb screen color alpha target_x current_y buf =
    if leb_ℤ (pos 0) target_x
      && ltb_ℤ target_x (pos fb.w)
      && leb_ℤ (pos 0) current_y
      && ltb_ℤ current_y (pos fb.h)
    then set buf (word_at fb (pos_part target_x) (pos_part current_y))
        (al_blend fb.w fb.h screen target_x current_y color alpha)
    else buf

-- `for (px = start; px < end; px++)` in the row `py` of a shape at (x, y).
pub blend_row : FbDev → List ℕ → ℤ → (x y : ℤ) → (from to : ℤ) → ℕ → ℕ → List ℕ → List ℕ
blend_row fb screen alpha x y from to color py =
    for_range (pos_part (to -ℤ from)) 0
      (λ k. blend_pix fb screen color alpha (x +ℤ (from +ℤ pos k)) (y +ℤ pos py))

-- A shape of `h` rows, each inset by so much on both sides of the width `w`.
pub blend_shape :
    FbDev → List ℕ → ℤ → (x y w h : ℤ) → (inset : ℕ → ℤ) → (color : ℕ → ℕ) → List ℕ → List ℕ
blend_shape fb screen alpha x y w h inset color =
    for_range (pos_part h) 0
      (λ py. blend_row fb screen alpha x y (inset py) (w -ℤ inset py) (color py) py)

abbrev pub Rounding : Type 0
Rounding = ℤ → ℤ

-- `dx` of a rounded corner, `dy` rows from its centre.
pub corner_inset : Rounding → ℤ → ℤ → ℤ
corner_inset round_sqrt r dy = r -ℤ round_sqrt (r *ℤ r -ℤ dy *ℤ dy)

-- `start_offset` of a row of the window.
pub body_inset : Rounding → (h r : ℤ) → ℕ → ℤ
unfolding corner_inset
body_inset round_sqrt h r py =
    if ltb_ℤ (pos py) r
    then corner_inset round_sqrt r (r -ℤ pos py)
    else if leb_ℤ (h -ℤ r) (pos py)
    then corner_inset round_sqrt r (pos py -ℤ (h -ℤ r))
    else pos 0

-- `start_offset` of a row of the panel, which is round below only.
pub panel_inset : Rounding → ℤ → ℕ → ℤ
unfolding corner_inset
panel_inset round_sqrt r py =
    if leb_ℤ (pos 50 -ℤ r) (pos py)
    then corner_inset round_sqrt r (pos py -ℤ (pos 50 -ℤ r))
    else pos 0

abbrev pub dark_green_bg : ℕ
dark_green_bg = 0xFF1B4D3E

abbrev pub panel_y : Window → ℤ
panel_y win = win.y +ℤ win.h -ℤ pos 50 -ℤ pos 2

abbrev pub panel_r : Window → ℤ
panel_r win = let r = win.r -ℤ pos 2 in if ltb_ℤ r (pos 0) then pos 0 else r

-- The two loops of the body and the two of the panel.
pub draw_body : FbDev → Rounding → List ℕ → Window → List ℕ → List ℕ
draw_body fb round_sqrt screen win =
    blend_shape fb screen win.alpha win.x win.y win.w win.h (body_inset round_sqrt win.h win.r)
      (λ py. get_gradient_color dark_green_bg (pos py) (pos 0) win.h)

pub draw_panel : FbDev → Rounding → List ℕ → Window → List ℕ → List ℕ
draw_panel fb round_sqrt screen win =
    blend_shape fb screen win.alpha (win.x +ℤ pos 2) (panel_y win) (win.w -ℤ pos 4) (pos 50)
      (panel_inset round_sqrt (panel_r win)) (λ _. 0xFF808080)

-- `btn_x` of button `i`, and `btn_y`.
abbrev pub start_x : Window → ℤ
start_x win =
    win.x
    +ℤ div_trunc (win.w -ℤ (win.btn_count *ℤ pos 180 +ℤ (win.btn_count -ℤ pos 1) *ℤ pos 20)) (pos 2)

abbrev pub btn_x : Window → ℕ → ℤ
btn_x win i = start_x win +ℤ pos (i * 200)

abbrev pub btn_y : Window → ℤ
btn_y win = panel_y win +ℤ div_trunc (pos 50 -ℤ pos 50) (pos 2)

-- A button's box in the back buffer.
pub draw_btn : FbDev → List ℕ → Window → ℕ → List ℕ → List ℕ
draw_btn fb screen win i =
    blend_shape fb screen win.alpha (btn_x win i) (btn_y win) (pos 180) (pos 50) (λ _. pos 0)
      (λ _. 0xFFD3D3D3)

-- `symb->SetBtnEnv`, which is `Button_Set`, for the next `n` buttons, from button `i` on.
pub set_btns : Window → ℕ → ℕ → List ButtonWidget → List ButtonWidget
set_btns win zero i buttons = buttons
set_btns win (suc n) i [] = []
set_btns win (suc n) i (btn ∷ buttons) =
    button_set btn (btn_x win i) (btn_y win) (pos 180) (pos 50) 0xFFD3D3D3 0xFFE6A23C
      (get_or win.labels i [])
    ∷ set_btns win n (i + 1) buttons

-- The drawing up to the texts: body, panel and buttons.
pub draw_frame : FbDev → Rounding → List ℕ → Window → List ℕ → List ℕ
draw_frame fb round_sqrt screen win buf =
    for_range (pos_part win.btn_count) 0 (draw_btn fb screen win)
      (draw_panel fb round_sqrt screen win (draw_body fb round_sqrt screen win buf))
