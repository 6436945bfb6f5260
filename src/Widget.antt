-- ===== src/Widget.antt =====
-- v0.1-alpha/API/widget.c: the buttons, how they are set, touched and drawn.
mod Press
mod Redraw
mod Tests
use autumnos_mobile.Common.{
  ℕ, zero, suc, Bool, true, false, not, ◌&&◌, ◌||◌, Option, none, List, [], ◌∷◌, ◌++◌, ℤ, pos, ◌+ℤ◌,
  leb_ℤ, if◌then◌else◌, drop,
}
use autumnos_mobile.Tunnel.{strncpy}
use autumnos_mobile.Fb.{FbDev}
use autumnos_mobile.Fb.Blit.{Layout}
use autumnos_mobile.Fb.Box.{Font, draw_button}

-- `ButtonWidget`; of `OnClick` whether it is set. Its `icon` is not used.
pub record ButtonWidget : Type 0 where
  pub x : ℤ
  pub y : ℤ
  pub width : ℤ
  pub height : ℤ
  pub normal_color : ℕ
  pub press_color : ℕ
  pub text : List ℕ
  pub is_pressed : Bool
  pub has_on_click : Bool

-- `Button_Set`, where `strncpy` writes all bytes of the text but the last.
pub button_set : ButtonWidget → (x y w h : ℤ) → (n_color p_color : ℕ) → List ℕ → ButtonWidget
button_set btn x y w h n_color p_color txt = record btn {
  x = x;
  y = y;
  width = w;
  height = h;
  normal_color = n_color;
  press_color = p_color;
  is_pressed = false;
  text = strncpy txt 63 ++ drop 63 btn.text;
}

pub current_color : ButtonWidget → ℕ
current_color btn = if btn.is_pressed then btn.press_color else btn.normal_color

-- `CreateButton`; `shade` gives the colour of a row for a background colour.
pub create_button :
    FbDev → Layout → Font → ℕ → (ℕ → ℕ → ℕ) → ButtonWidget → List ℕ → Option (List ℕ)
unfolding current_color
create_button fb l font fuel shade btn buf =
    draw_button fb l font fuel btn.x btn.y btn.width btn.height (pos 15) (shade (current_color btn))
      btn.text 0 none buf

-- `inside` of `ChkTouchEv`.
pub inside : ButtonWidget → ℤ → ℤ → Bool
inside btn touch_x touch_y =
    leb_ℤ btn.x touch_x
    && leb_ℤ touch_x (btn.x +ℤ btn.width)
    && leb_ℤ btn.y touch_y
    && leb_ℤ touch_y (btn.y +ℤ btn.height)

-- What a touch event gives: the button, whether `OnClick` is called, and the result, true for 1.
pub record Touched : Type 0 where
  pub button : ButtonWidget
  pub clicked : Bool
  pub result : Bool

-- `ChkTouchEv`.
pub chk_touch_ev : ButtonWidget → ℤ → ℤ → Bool → Touched
unfolding inside
chk_touch_ev btn touch_x touch_y is_touched =
    if is_touched && inside btn touch_x touch_y
    then (if not btn.is_pressed
        then record {
          button = record btn { is_pressed = true };
          clicked = btn.has_on_click;
          result = true;
        }
        else record { button = btn; clicked = false; result = false })
    else record { button = record btn { is_pressed = false }; clicked = false; result = false }
