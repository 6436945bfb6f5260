-- ===== src/Widget/Press.antt =====
-- A button over a row of touch events.
use autumnos_mobile.Common.{
  ◌≡◌, refl, ap, ◌∙◌, Bool, not, ◌&&◌, arith, ◌+ℤ◌, leb_ℤ, List, [], ◌∷◌, ℤ, Bool-cases, inl, inr,
}
use autumnos_mobile.Widget.{ButtonWidget, Touched, inside, chk_touch_ev}

pub record Event : Type 0 where
  pub touch_x : ℤ
  pub touch_y : ℤ
  pub is_touched : Bool

-- A point of the button's frame, its edges among it.
abbrev pub in_frame : ButtonWidget → ℤ → ℤ → Bool
in_frame btn touch_x touch_y =
    (leb_ℤ btn.x touch_x && leb_ℤ touch_x (btn.x +ℤ btn.width))
    && (leb_ℤ btn.y touch_y && leb_ℤ touch_y (btn.y +ℤ btn.height))

inside-in_frame :
    (btn : ButtonWidget) (touch_x touch_y : ℤ)
    → inside btn touch_x touch_y ≡ in_frame btn touch_x touch_y
unfolding inside
inside-in_frame btn touch_x touch_y = ground arith

abbrev pub held : ButtonWidget → Event → Bool
held btn e = e.is_touched && in_frame btn e.touch_x e.touch_y

abbrev pub touch : ButtonWidget → Event → Touched
touch btn e = chk_touch_ev btn e.touch_x e.touch_y e.is_touched

-- The results of `ChkTouchEv` for the events in order.
unfoldable pub run : ButtonWidget → List Event → List Bool
run btn [] = []
run btn (e ∷ es) = let t = touch btn e in t.result ∷ run t.button es

-- Where the button begins to be held.
unfoldable pub presses : ButtonWidget → Bool → List Event → List Bool
presses btn was [] = []
presses btn was (e ∷ es) = (held btn e && not was) ∷ presses btn (held btn e) es

pub touch_lem :
    (btn : ButtonWidget) (e : Event)
    → ((touch btn e).result ≡ (held btn e && not btn.is_pressed))
      × ((touch btn e).button ≡ record btn { is_pressed = held btn e })
unfolding chk_touch_ev
touch_lem btn e =
    rw (chk_touch_ev, inside-in_frame btn e.touch_x e.touch_y)
      (elim (Bool-cases (held btn e)) [
        | inl on ↦ elim (Bool-cases btn.is_pressed) [
          | inl was ↦ rw (on, was) (refl, refl)
          | inr was_not ↦ rw (on, was_not) (refl, refl)
        ]
        | inr off ↦ rw off (refl, refl)
      ])

presses-frame :
    (es : List Event) (btn : ButtonWidget) (p was : Bool)
    → presses (record btn { is_pressed = p }) was es ≡ presses btn was es
unfolding presses
presses-frame [] btn p was = refl
presses-frame (e ∷ es) btn p was =
    ap (λ rest. (held btn e && not was) ∷ rest) (presses-frame es btn p (held btn e))

-- `ChkTouchEv` returns 1 exactly at the events at which the button begins to be held, that is, is
-- touched inside its frame and was not at the event before; holding on, moving inside and letting go
-- return 0.
pub run-presses :
    (es : List Event) (btn : ButtonWidget) → run btn es ≡ presses btn btn.is_pressed es
unfolding run presses
run-presses [] btn = refl
run-presses (e ∷ es) btn =
    let t = touch_lem btn e in
    ap (λ r. r ∷ run (touch btn e).button es) t.0
    ∙ (ap (λ b. (held btn e && not btn.is_pressed) ∷ run b es) t.1
        ∙ ap (λ rest. (held btn e && not btn.is_pressed) ∷ rest)
            (run-presses es (record btn { is_pressed = held btn e })
              ∙ presses-frame es btn (held btn e) (held btn e)))
