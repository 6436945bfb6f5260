-- ===== src/Window/Tests.antt =====
-- A window of three pixels on a small screen, and its theorems at inputs that meet their hypotheses.
use autumnos_mobile.Common.{
  ℕ, ◌*◌, ◌≡◌, refl, none, some, List, [], ◌∷◌, arith, if◌then◌else◌, length, replicate, ℤ, pos,
  codes, leb_ℤ,
}
use autumnos_mobile.Fb.{FbDev}
use autumnos_mobile.Window.{Window, Rounding, fade_in}
use autumnos_mobile.Window.Text.{tokens_of}
use autumnos_mobile.Window.Fade.{Fading, after, after-Fading}

abbrev screen : FbDev
screen = record { w = 3; h = 2; stride = 16 }

abbrev black : List ℕ
black = replicate 8 0

-- The roots that a window of radius 1 needs.
abbrev round_sqrt : Rounding
round_sqrt n = if leb_ℤ n (pos 0) then pos 0 else pos 1

abbrev width_of : List ℕ → ℤ
width_of token = pos (8 * length token)

abbrev window : Window
window = record {
  x = pos 0;
  y = pos 0;
  w = pos 3;
  h = pos 2;
  r = pos 1;
  title = codes "T";
  message = codes "a message";
  buttons = [];
  labels = [];
  btn_count = pos 0;
  alpha = pos 100;
  anim = some fade_in;
}

message_tokens : tokens_of [] (codes " two  words ") ≡ codes "two" ∷ codes "words" ∷ []
unfolding tokens_of
message_tokens = refl

-- From 100 by 50 it takes three draws to 250, and the fifth ends the animation.
after-Fading_example :
    let next = after screen round_sqrt width_of black black 50 in
    Fading (next 3 window) 250 (some fade_in) × Fading (next 5 window) 255 none
after-Fading_example =
    after-Fading fade_in screen round_sqrt width_of black black 50 window 100 3 4 (omega arith)
      (omega arith) (record { at = refl; doing = refl }) (omega arith) (omega arith)
