-- ===== src/Widget/Redraw.antt =====
-- A button over a row of touch events, settings and drawings, as v0.1-alpha/API/libatmui.c does them.
use autumnos_mobile.Common.{
  ℕ, ◌≡◌, refl, ap, ◌∙◌, Bool, false, not, ◌&&◌, Option, none, List, [], ◌∷◌, ◌++◌, drop, ℤ, pos,
  if◌then◌else◌,
}
use autumnos_mobile.Fb.{FbDev}
use autumnos_mobile.Fb.Blit.{Layout}
use autumnos_mobile.Fb.Box.{Font, draw_button}
use autumnos_mobile.Widget.{ButtonWidget, button_set, create_button, current_color}
use autumnos_mobile.Tunnel.{strncpy}
use autumnos_mobile.Widget.Press.{Event, held, touch, touch_lem}

-- What is done to a button: a touch event, `Button_Set`, or `CreateButton` over a back buffer.
pub data Act : Type 0 where
  touches : Event → Act
  sets : (x y w h : ℤ) → (n_color p_color : ℕ) → List ℕ → Act
  draws : List ℕ → Act

-- What it gives: the result of `ChkTouchEv`, or the buffer.
pub data Seen : Type 0 where
  result : Bool → Seen
  drawn : Option (List ℕ) → Seen

module _ (fb : FbDev) (l : Layout) (font : Font) (fuel : ℕ) (shade : ℕ → ℕ → ℕ) where
  unfoldable pub run_acts : ButtonWidget → List Act → List Seen
  run_acts btn [] = []
  run_acts btn (touches e ∷ acts) = let t = touch btn e in result t.result ∷ run_acts t.button acts
  run_acts btn (sets x y w h n p txt ∷ acts) = run_acts (button_set btn x y w h n p txt) acts
  run_acts btn (draws buf ∷ acts) =
      drawn (create_button fb l font fuel shade btn buf) ∷ run_acts btn acts

  -- The button that a setting asks for: its frame, its colours, and a text of at most 63 bytes.
  abbrev pub as_set : ButtonWidget → (x y w h : ℤ) → (n p : ℕ) → List ℕ → ButtonWidget
  as_set btn x y w h n p txt = record {
    x = x;
    y = y;
    width = w;
    height = h;
    normal_color = n;
    press_color = p;
    text = strncpy txt 63 ++ drop 63 btn.text;
    is_pressed = false;
    has_on_click = btn.has_on_click;
  }

  button_set-as_set :
      (btn : ButtonWidget) (x y w h : ℤ) (n p : ℕ) (txt : List ℕ)
      → button_set btn x y w h n p txt ≡ as_set btn x y w h n p txt
  unfolding button_set
  button_set-as_set btn x y w h n p txt = refl

  -- The same without `is_pressed`: `was` says that the last event held the button and that the
  -- button was not set after it.
  unfoldable pub seen : ButtonWidget → Bool → List Act → List Seen
  seen btn was [] = []
  seen btn was (touches e ∷ acts) = result (held btn e && not was) ∷ seen btn (held btn e) acts
  seen btn was (sets x y w h n p txt ∷ acts) = seen (as_set btn x y w h n p txt) false acts
  seen btn was (draws buf ∷ acts) =
      drawn (
        draw_button fb l font fuel btn.x btn.y btn.width btn.height (pos 15)
          (shade (if was then btn.press_color else btn.normal_color)) btn.text 0 none buf)
      ∷ seen btn was acts

  seen-frame :
      (acts : List Act) (btn : ButtonWidget) (p was : Bool)
      → seen (record btn { is_pressed = p }) was acts ≡ seen btn was acts
  unfolding seen
  seen-frame [] btn p was = refl
  seen-frame (touches e ∷ acts) btn p was =
      ap (λ rest. result (held btn e && not was) ∷ rest) (seen-frame acts btn p (held btn e))
  seen-frame (sets x y w h n c txt ∷ acts) btn p was = refl
  seen-frame (draws buf ∷ acts) btn p was =
      ap
        (λ rest.
          drawn (
            draw_button fb l font fuel btn.x btn.y btn.width btn.height (pos 15)
              (shade (if was then btn.press_color else btn.normal_color)) btn.text 0 none buf)
          ∷ rest)
        (seen-frame acts btn p was)

  -- Over any row of touch events, settings and drawings, `ChkTouchEv` returns 1 exactly at a touch
  -- inside the button's frame whose event before did not hold the button, or after which the button
  -- was set again; and the button is drawn in its press colour exactly between a touch that holds it
  -- and the next event that does not or the next setting. At the start `is_pressed` stands for the
  -- event before.
  pub run_acts-seen :
      (acts : List Act) (btn : ButtonWidget) → run_acts btn acts ≡ seen btn btn.is_pressed acts
  unfolding run_acts seen create_button current_color
  run_acts-seen [] btn = refl
  run_acts-seen (touches e ∷ acts) btn =
      let t = touch_lem btn e in
      ap (λ r. result r ∷ run_acts (touch btn e).button acts) t.0
      ∙ (ap (λ b. result (held btn e && not btn.is_pressed) ∷ run_acts b acts) t.1
          ∙ ap (λ rest. result (held btn e && not btn.is_pressed) ∷ rest)
              (run_acts-seen acts (record btn { is_pressed = held btn e })
                ∙ seen-frame acts btn (held btn e) (held btn e)))
  run_acts-seen (sets x y w h n c txt ∷ acts) btn =
      ap (λ b. run_acts b acts) (button_set-as_set btn x y w h n c txt)
      ∙ run_acts-seen acts (as_set btn x y w h n c txt)
  run_acts-seen (draws buf ∷ acts) btn =
      ap (λ rest. drawn (create_button fb l font fuel shade btn buf) ∷ rest)
        (run_acts-seen acts btn)
