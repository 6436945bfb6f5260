-- ===== src/Window/Text.antt =====
-- The texts of a window, and the whole of `AutumnAPI_DrawWindow`.
use autumnos_mobile.Common.{
  ℕ, zero, suc, ◌+◌, ◌≡◌, refl, ◌⊎◌, inl, inr, Option, Bool, true, false, none, some, List, [], ◌∷◌,
  ◌++◌, map, arith, ◌==◌, if◌then◌else◌, Bool-cases, get_or, take, u32, shl, bit_or, ℤ, pos,
  pos_part, ◌+ℤ◌, ◌-ℤ◌, ◌*ℤ◌, ◌≤ℤ◌, div_trunc, ltb_ℤ, leb_ℤ, c_string,
}
use autumnos_mobile.Surf.Draw.{to_u32}
use autumnos_mobile.Fb.{FbDev}
use autumnos_mobile.Window.{
  Window, Rounding, Anim, fade_in, fade_out, animate, draw_frame, set_btns, btn_x, btn_y,
}

-- The calls through the service table that draw into the back buffer after the frame.
pub data Drawing : Type 0 where
  text : List ℕ → (x y : ℤ) → ℕ → Drawing
  line : (x0 y0 x1 y1 : ℤ) → ℕ → Drawing

-- `value * alpha / 255`.
pub dimmed : ℤ → ℤ → ℕ
dimmed value alpha = to_u32 (div_trunc (value *ℤ alpha) (pos 255))

-- `(0xFF << 24) | (r << 16) | (g << 8) | b`.
pub opaque : ℕ → ℕ → ℕ → ℕ
opaque r g b = bit_or 0xFF000000 (bit_or (u32 (shl r 16)) (bit_or (u32 (shl g 8)) b))

pub text_color : ℤ → ℕ
unfolding opaque dimmed
text_color alpha = let c = dimmed (pos 255) alpha in opaque c c c

pub green_line : ℤ → ℕ
unfolding opaque dimmed
green_line alpha = opaque 0 (dimmed (pos 255) alpha) 0

pub btn_text_c : ℤ → ℕ
unfolding opaque dimmed
btn_text_c alpha = let c = dimmed (pos 30) alpha in opaque c c c

abbrev pub emit : List ℕ → List (List ℕ) → List (List ℕ)
emit [] tokens = tokens
emit (c ∷ token) tokens = (c ∷ token) ∷ tokens

-- The tokens of `strtok` with " ", the one that is being read first.
unfoldable pub tokens_of : List ℕ → List ℕ → List (List ℕ)
tokens_of token [] = emit token []
tokens_of token (c ∷ s) = elim (c == b' ') [
  | true ↦ emit token (tokens_of [] s)
  | false ↦ tokens_of (token ++ c ∷ []) s
]

-- `buffer` after `strncpy(buffer, win->message, 255)`, up to a NUL; for 255 bytes without one the
-- code goes on into the byte behind, which it does not set.
pub message_text : List ℕ → List ℕ
message_text message = take 255 (c_string message)

-- A token and where it is drawn.
pub record Placed : Type 0 where
  pub token : List ℕ
  pub x : ℤ
  pub y : ℤ

-- The loop over the tokens, with `cur_x` and `cur_y`; `left` and `right` are `win->x + 10` and
-- `win->x + win->w - 10`.
pub place : (List ℕ → ℤ) → (left right : ℤ) → (cur_x cur_y : ℤ) → List (List ℕ) → List Placed
place width_of left right cur_x cur_y [] = []
place width_of left right cur_x cur_y (token ∷ tokens) =
    let tw = width_of token in
    let breaks = ltb_ℤ right (cur_x +ℤ tw) in
    let x = if breaks then left else cur_x in
    let y = if breaks then cur_y +ℤ pos 25 else cur_y in
    record { token = token; x = x; y = y }
    ∷ place width_of left right (x +ℤ (tw +ℤ pos 10)) y tokens

abbrev pub draw_placed : ℕ → Placed → Drawing
draw_placed color p = text p.token p.x p.y color

-- The labels of the next `n` buttons, from button `i` on.
pub draw_labels : (List ℕ → ℤ) → Window → ℕ → ℕ → List Drawing
unfolding btn_text_c
draw_labels width_of win zero i = []
draw_labels width_of win (suc n) i =
    let label = get_or win.labels i [] in
    text label (btn_x win i +ℤ div_trunc (pos 180 -ℤ width_of label) (pos 2))
      (btn_y win +ℤ div_trunc (pos 50) (pos 2) -ℤ pos 6) (btn_text_c win.alpha)
    ∷ draw_labels width_of win n (i + 1)

pub draw_texts : (List ℕ → ℤ) → Window → List Drawing
unfolding tokens_of message_text place draw_labels
draw_texts width_of win =
    text (c_string win.title) (win.x +ℤ pos 15) (win.y +ℤ pos 25) (text_color win.alpha)
      ∷ line (win.x +ℤ pos 10) (win.y +ℤ pos 40) (win.x +ℤ win.w -ℤ pos 10) (win.y +ℤ pos 40)
          (green_line win.alpha)
      ∷ map (draw_placed (text_color win.alpha)) (
          place width_of (win.x +ℤ pos 10) (win.x +ℤ win.w -ℤ pos 10) (win.x +ℤ pos 10)
            (win.y +ℤ pos 60) (tokens_of [] (message_text win.message)))
    ++ draw_labels width_of win (pos_part win.btn_count) 0

-- What one call gives: the window, the back buffer with the frame, and the drawings that follow.
pub record Shown : Type 0 where
  pub window : Window
  pub buffer : List ℕ
  pub drawings : List Drawing

-- The early return's test.
pub is_hidden : Window → Bool
is_hidden win = elim win.anim [ none ↦ leb_ℤ win.alpha (pos 0) | some anim ↦ false ]

pub centred : FbDev → Window → Window
centred fb win = record win {
  x = div_trunc (pos fb.w -ℤ win.w) (pos 2);
  y = div_trunc (pos fb.h -ℤ win.h) (pos 2);
}

-- `AutumnAPI_DrawWindow` over the words of the screen and of the back buffer.
unfoldable pub draw_window : FbDev → Rounding → (List ℕ → ℤ) → List ℕ → ℤ → Window → List ℕ → Shown
unfolding animate set_btns is_hidden centred
draw_window fb round_sqrt width_of screen an_speed win0 buf =
    let win1 = animate an_speed win0.anim win0 in
    let win = centred fb win1 in
    if is_hidden win1 then record { window = win1; buffer = buf; drawings = [] } else record {
      window = record win { buttons = set_btns win (pos_part win.btn_count) 0 win.buttons };
      buffer = draw_frame fb round_sqrt screen win buf;
      drawings = draw_texts width_of win;
    }

-- A window after one step of an animation: its transparency goes towards 255 or 0 by `speed` and stops
-- there, and one that is there loses the animation.
abbrev pub stepped : ℤ → Option Anim → Window → Window
stepped speed none win = win
stepped speed (some fade_in) win =
    if leb_ℤ (pos 255) win.alpha then record win { anim = none } else record win {
      alpha = if leb_ℤ (win.alpha +ℤ speed) (pos 255) then win.alpha +ℤ speed else pos 255;
    }
stepped speed (some fade_out) win =
    if leb_ℤ win.alpha (pos 0) then record win { anim = none } else record win {
      alpha = if leb_ℤ (pos 0) (win.alpha -ℤ speed) then win.alpha -ℤ speed else pos 0;
    }

-- A window without animation that is clear.
abbrev pub is_clear : Option Anim → Window → Bool
is_clear none win = leb_ℤ win.alpha (pos 0)
is_clear (some m) win = false

-- As much room on the left as on the right, and above as below, up to a half pixel.
abbrev pub in_middle : FbDev → Window → Window
in_middle fb win = record win {
  x = div_trunc (pos fb.w -ℤ win.w) (pos 2);
  y = div_trunc (pos fb.h -ℤ win.h) (pos 2);
}

-- Each word of the message begins at the left margin or ends before the right one.
pub Fits : (List ℕ → ℤ) → (left right : ℤ) → List Placed → Type 0
Fits width_of left right [] = Unit {0}
Fits width_of left right (p ∷ ps) =
    ((p.x ≡ left) ⊎ (p.x +ℤ width_of p.token ≤ℤ right)) × Fits width_of left right ps

pub place-Fits :
    (width_of : List ℕ → ℤ) (left right : ℤ) (tokens : List (List ℕ)) (cur_x cur_y : ℤ)
    → Fits width_of left right (place width_of left right cur_x cur_y tokens)
unfolding place Fits
place-Fits width_of left right [] cur_x cur_y = tt
place-Fits width_of left right (token ∷ tokens) cur_x cur_y =
    elim (Bool-cases (ltb_ℤ right (cur_x +ℤ width_of token))) [
      | inl breaks ↦ rw breaks (inl refl, place-Fits width_of left right tokens _ _)
      | inr fits ↦ rw fits (inr (ground (arith, fits)), place-Fits width_of left right tokens _ _)
    ]
