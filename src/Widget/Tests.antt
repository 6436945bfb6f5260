-- ===== src/Widget/Tests.antt =====
-- A row of acts on a button.
use autumnos_mobile.Common.{◌≡◌, true, false, none, replicate, List, [], ◌∷◌, pos, ◌+ℤ◌}
use autumnos_mobile.Widget.{ButtonWidget, inside, button_set}
use autumnos_mobile.Widget.Redraw.{
  Act, touches, sets, draws, result, drawn, run_acts, seen, run_acts-seen,
}
use autumnos_mobile.Fb.{FbDev}
use autumnos_mobile.Fb.Blit.{Layout}
use autumnos_mobile.Fb.Box.{Font, draw_button}

abbrev button : ButtonWidget
button = record {
  x = pos 10;
  y = pos 10;
  width = pos 20;
  height = pos 20;
  normal_color = 0xFF202020;
  press_color = 0xFF808080;
  text = replicate 64 0;
  is_pressed = false;
  has_on_click = true;
}

abbrev screen : FbDev
screen = record { w = 64; h = 64; stride = 256 }

abbrev rgb : Layout
rgb = record { r_off = 16; g_off = 8; b_off = 0 }

abbrev no_font : Font
no_font = record { face = λ c. none; step = λ c. pos 1; ascender = pos 1; descender = pos 0 }

-- Touched, drawn while it is held, set again to a wider frame, and still touched.
abbrev acts : List Act
acts =
    touches (record { touch_x = pos 15; touch_y = pos 15; is_touched = true })
    ∷ draws (replicate 4096 0)
    ∷ sets (pos 10) (pos 10) (pos 30) (pos 20) 1 2 (65 ∷ [])
    ∷ touches (record { touch_x = pos 35; touch_y = pos 15; is_touched = true })
    ∷ []

run_acts-seen_example :
    run_acts screen rgb no_font 4 (λ c i. c) button acts
    ≡ result true
      ∷ drawn (
          draw_button screen rgb no_font 4
            (pos 10)
            (pos 10)
            (pos 20)
            (pos 20)
            (pos 15)
            (λ i. 0xFF808080)
            (replicate 64 0)
            0
            none
            (replicate 4096 0))
      ∷ result true
      ∷ []
unfolding seen inside button_set ◌+ℤ◌
run_acts-seen_example = run_acts-seen screen rgb no_font 4 (λ c i. c) acts button
