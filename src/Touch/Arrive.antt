-- ===== src/Touch/Arrive.antt =====
-- The position of a finger arrives in the session.
use autumnos_mobile.Common.{
  ℕ, ◌-◌, ◌*◌, ◌/◌, ◌≤◌, ◌<◌, ◌≡◌, refl, ap, sym, ◌∙◌, true, false, none, some, List, [], ◌∷◌, ◌++◌,
  arith, length, take, take_all, ℤ, pos, ◌*ℤ◌, ◌-ℤ◌, div_trunc, ltb_ℤ, leb_ℤ, Bool-cases, inl, inr,
  c_string, length-append, append-nil, min,
}
use autumnos_mobile.Tunnel.{
  Call, sends, receives, Reply, sent, received, run, create_mapping, written_slot,
}
use autumnos_mobile.Tunnel.Text.{written_slot_lem}
use autumnos_mobile.Tunnel.Queue
use autumnos_mobile.Tunnel.Refine.{run_refines, create_mapping-Holds}
use autumnos_mobile.Touch.{
  InputEvent, ev_abs, ev_key, ev_syn, abs_x, abs_y, btn_touch, syn_report, track, read_event,
  inputd, Finger, print_int, report, touch_event, y_label, t_label, scan_int, scan_touch,
  starts_with, Mouse, clamp, read_mouse,
}
use autumnos_mobile.Touch.Number.{FitsInt, scan_int-print_int, c_string-print_int, length-print_int}

-- The numbers of a finger are those of an `int`.
abbrev pub Fits : Finger → Type 0
Fits f = FitsInt f.current_x × FitsInt f.current_y × FitsInt f.current_touch

-- The text fits a message of 63 bytes and has no NUL.
c_string-report : (f : Finger) → c_string (report f) ≡ report f
unfolding report
c_string-report f =
    rw
      (
        c_string-print_int f.current_x
            (y_label ++ (print_int f.current_y ++ (t_label ++ print_int f.current_touch))),
        c_string-print_int f.current_y (t_label ++ print_int f.current_touch),
        touch_text,
      )
      refl
  where
    touch_text : c_string (print_int f.current_touch) ≡ print_int f.current_touch
    touch_text =
        ap c_string (sym (append-nil (print_int f.current_touch)))
        ∙ c_string-print_int f.current_touch []
        ∙ append-nil (print_int f.current_touch)

length-report : (f : Finger) → length (report f) ≤ 63
unfolding report
length-report f =
    let x = print_int f.current_x in
    let y = print_int f.current_y in
    let t = print_int f.current_touch in
    omega (
      arith,
      length-append x (y_label ++ (y ++ (t_label ++ t))),
      length-append y (t_label ++ t),
      length-print_int f.current_x,
      length-print_int f.current_y,
      length-print_int f.current_touch,
    )

scan_touch-report :
    (f : Finger) (m : Mouse)
    → Fits f
    → scan_touch (report f) m
      ≡ record { mouse_x = f.current_x; mouse_y = f.current_y; mouse_btn1 = f.current_touch }
unfolding scan_touch report
scan_touch-report f m (fx, fy, ft) =
    rw
      (
        scan_touch,
        scan_int-print_int f.current_x
            (y_label ++ (print_int f.current_y ++ (t_label ++ print_int f.current_touch))) fx refl,
        scan_int-print_int f.current_y (t_label ++ print_int f.current_touch) fy refl,
        last,
      )
      refl
  where
    last : scan_int (some (print_int f.current_touch)) ≡ some (f.current_touch, [])
    last =
        ap (λ s. scan_int (some s)) (sym (append-nil (print_int f.current_touch)))
        ∙ scan_int-print_int f.current_touch [] ft refl

-- The session's loop on what it receives.
unfoldable pub session : ℤ → ℤ → List Reply → Mouse → Mouse
unfolding read_mouse
session w h [] m = m
session w h (received (some m_buffer) ∷ replies) m = session w h replies (read_mouse w h m_buffer m)
session w h (received none ∷ replies) m = session w h replies m
session w h (sent ok ∷ replies) m = session w h replies m

abbrev pub send_all : List (List ℕ) → List Call
send_all [] = []
send_all (message ∷ messages) = sends message ∷ send_all messages

-- A finger at a place of the touch screen, which counts to 32767 in both directions.
abbrev pub touching : ℕ → ℕ → ℤ → List InputEvent
touching x y touch =
    record { kind = ev_abs; code = abs_x; value = pos x }
    ∷ record { kind = ev_abs; code = abs_y; value = pos y }
    ∷ record { kind = ev_key; code = btn_touch; value = touch }
    ∷ record { kind = ev_syn; code = syn_report; value = pos 0 }
    ∷ []

scaled_x : (v : ℕ) → div_trunc (pos v *ℤ pos 480) (pos 32767) ≡ pos (v * 480 / 32767)
unfolding div_trunc ◌*ℤ◌
scaled_x v = ground arith

scaled_y : (v : ℕ) → div_trunc (pos v *ℤ pos 800) (pos 32767) ≡ pos (v * 800 / 32767)
unfolding div_trunc ◌*ℤ◌
scaled_y v = ground arith

sub-pos : (n : ℕ) → 0 < n → pos n -ℤ pos 1 ≡ pos (n - 1)
unfolding ◌-ℤ◌
sub-pos n h = ground (arith, h)

clamp-inside : (size v : ℕ) → 0 < size → clamp (pos size) (pos v) ≡ pos (min v (size - 1))
unfolding ◌-ℤ◌
clamp-inside size v h = rw up (elim (Bool-cases (leb_ℤ (pos size) (pos v))) [
  | inl outside ↦ rw outside (last (ground (arith, outside)))
  | inr fits ↦ rw fits (ap pos (within (ground (arith, fits))))
])
  where
    up : ltb_ℤ (pos v) (pos 0) ≡ false
    up = ground arith

    last : size ≤ v → pos size -ℤ pos 1 ≡ pos (min v (size - 1))
    last beyond = sub-pos size h ∙ ap pos (omega (arith, beyond))

    within : v < size → v ≡ min v (size - 1)
    within less = omega (arith, less)

inputd-touching :
    (x y : ℕ) (touch : ℤ) (f : Finger)
    → inputd (touching x y touch) f
      ≡ report (record {
        current_x = pos (x * 480 / 32767);
        current_y = pos (y * 800 / 32767);
        current_touch = touch;
      })
        ∷ []
unfolding inputd read_event track
inputd-touching x y touch f = rw (scaled_x x, scaled_y y) refl

prefix-report : (f : Finger) → starts_with touch_event (report f) ≡ true
unfolding report
prefix-report f = refl

read_mouse-report :
    (w h : ℤ) (f : Finger) (m : Mouse)
    → Fits f
    → read_mouse w h (written_slot (report f)) m ≡ record {
      mouse_x = clamp w f.current_x;
      mouse_y = clamp h f.current_y;
      mouse_btn1 = f.current_touch;
    }
unfolding read_mouse
read_mouse-report w h f m fits =
    let text : c_string (written_slot (report f)) ≡ report f =
      (written_slot_lem (report f)).1
      ∙ ap (take 63) (c_string-report f)
      ∙ take_all 63 (report f) (length-report f) in
    rw (text, prefix-report f, scan_touch-report f m fits) refl

abbrev placed : ℤ → ℤ → ℤ → Mouse
placed a b touch = record { mouse_x = a; mouse_y = b; mouse_btn1 = touch }

-- A finger that touches the screen at `x` and `y`, each at most 32767, is seen by the session at that
-- place, scaled to 480 by 800 and moved inside a screen of `w` by `h` pixels: the input service turns
-- the four events of the touch into one message, the tunnel, empty before, carries it, and the
-- session reads from it the two coordinates and the value of the touch, which has at most ten digits.
pub touching-arrives :
    (w h x y : ℕ) (touch : ℤ) (f : Finger) (m : Mouse)
    → 0 < w
    → 0 < h
    → x ≤ 32767
    → y ≤ 32767
    → FitsInt touch
    → session
        (pos w)
        (pos h)
        (run create_mapping (send_all (inputd (touching x y touch) f) ++ receives ∷ []))
        m
      ≡ record {
        mouse_x = pos (min (x * 480 / 32767) (w - 1));
        mouse_y = pos (min (y * 800 / 32767) (h - 1));
        mouse_btn1 = touch;
      }
unfolding session Queue.run Queue.receive Queue.send
touching-arrives w h x y touch f m wide high fx fy ft =
    let g : Finger = record {
      current_x = pos (x * 480 / 32767);
      current_y = pos (y * 800 / 32767);
      current_touch = touch;
    } in
    rw (inputd-touching x y touch f) (
      ap (λ replies. session (pos w) (pos h) replies m)
        (run_refines (sends (report g) ∷ receives ∷ []) create_mapping [] create_mapping-Holds)
      ∙ read_mouse-report (pos w) (pos h) g m (omega (arith, fx), omega (arith, fy), ft)
      ∙ ap (λ a. placed a (clamp (pos h) g.current_y) touch) (clamp-inside w (x * 480 / 32767) wide)
      ∙ ap (λ b. placed (pos (min (x * 480 / 32767) (w - 1))) b touch)
          (clamp-inside h (y * 800 / 32767) high))
