-- ===== src/Touch.antt =====
-- v0.1-alpha/src/pthread/inputd.c and the loop of v0.1-alpha/src/session.c that reads what it sends:
-- the position of a finger, as text through the tunnel.
pub mod Number
mod Arrive
mod Tests
use autumnos_mobile.Common.{
  ℕ, zero, suc, ◌+◌, ◌-◌, ◌*◌, ◌/◌, ◌%◌, Bool, true, false, not, ◌&&◌, ◌||◌, Option, none, some,
  List, [], ◌∷◌, ◌++◌, ◌==◌, ltb, leb, if◌then◌else◌, ℤ, pos, negsuc, ltb_ℤ, leb_ℤ, ◌*ℤ◌, ◌-ℤ◌,
  div_trunc, c_string,
}

-- `struct input_event` without its time, and the numbers of linux/input.h.
pub record InputEvent : Type 0 where
  pub kind : ℕ
  pub code : ℕ
  pub value : ℤ

abbrev pub ev_syn : ℕ
ev_syn = 0

abbrev pub ev_key : ℕ
ev_key = 1

abbrev pub ev_abs : ℕ
ev_abs = 3

abbrev pub abs_x : ℕ
abs_x = 0

abbrev pub abs_y : ℕ
abs_y = 1

abbrev pub btn_left : ℕ
btn_left = 0x110

abbrev pub btn_touch : ℕ
btn_touch = 0x14A

abbrev pub syn_report : ℕ
syn_report = 0

-- The static variables of `inputd_main`.
pub record Finger : Type 0 where
  pub current_x : ℤ
  pub current_y : ℤ
  pub current_touch : ℤ

abbrev pub first_finger : Finger
first_finger = record { current_x = pos 240; current_y = pos 400; current_touch = pos 0 }

-- "%d"; ten digits are enough for an `int`.
abbrev pub digits : ℕ → ℕ → List ℕ
digits zero n = []
digits (suc fuel) n =
    let front = digits fuel (n / 10) in
    if ltb n 10 then (b'0' + n) ∷ [] else front ++ (b'0' + n % 10) ∷ []

abbrev pub print_int : ℤ → List ℕ
print_int (pos n) = digits 10 n
print_int (negsuc n) = b'-' ∷ digits 10 (suc n)

-- "TOUCH_EVENT", and the text of the `sprintf`.
abbrev pub touch_event : List ℕ
touch_event = b'T' ∷ b'O' ∷ b'U' ∷ b'C' ∷ b'H' ∷ b'_' ∷ b'E' ∷ b'V' ∷ b'E' ∷ b'N' ∷ b'T' ∷ []

abbrev pub x_label : List ℕ
x_label = touch_event ++ b' ' ∷ b'X' ∷ b':' ∷ []

abbrev pub y_label : List ℕ
y_label = b' ' ∷ b'Y' ∷ b':' ∷ []

abbrev pub t_label : List ℕ
t_label = b' ' ∷ b'T' ∷ b':' ∷ []

pub report : Finger → List ℕ
report f =
    x_label
    ++ (print_int f.current_x
        ++ (y_label ++ (print_int f.current_y ++ (t_label ++ print_int f.current_touch))))

-- One event of the loop: the variables, and the text that is sent.
pub track : InputEvent → Finger → Finger
track ev f =
    if ev.kind == ev_abs
    then (if ev.code == abs_x
        then record f { current_x = div_trunc (ev.value *ℤ pos 480) (pos 32767) }
        else if ev.code == abs_y
        then record f { current_y = div_trunc (ev.value *ℤ pos 800) (pos 32767) }
        else f)
    else if (ev.kind == ev_key) && ((ev.code == btn_touch) || (ev.code == btn_left))
    then record f { current_touch = ev.value }
    else f

pub read_event : InputEvent → Finger → Finger × Option (List ℕ)
unfolding track report
read_event ev f =
    let f' = track ev f in
    (f', if (ev.kind == ev_syn) && (ev.code == syn_report) then some (report f') else none)

-- The messages of some events.
pub inputd : List InputEvent → Finger → List (List ℕ)
unfolding read_event
inputd [] f = []
inputd (ev ∷ events) f =
    let (f', message) = read_event ev f in
    let later = inputd events f' in elim message [ none ↦ later | some text ↦ text ∷ later ]

-- `sscanf`: white space, "%d", and the text of a format, where a space stands for any white space.
abbrev pub is_space : ℕ → Bool
is_space c = (c == b' ') || (leb 9 c && leb c 13)

abbrev pub is_digit : ℕ → Bool
is_digit c = leb b'0' c && leb c b'9'

abbrev pub skip_space : List ℕ → List ℕ
skip_space [] = []
skip_space (c ∷ s) = if is_space c then skip_space s else c ∷ s

abbrev pub parse_digits : ℕ → List ℕ → ℕ × List ℕ
parse_digits acc [] = (acc, [])
parse_digits acc (c ∷ s) =
    if is_digit c then parse_digits (acc * 10 + (c - b'0')) s else (acc, c ∷ s)

abbrev pub scan_unsigned : List ℕ → Option (ℕ × List ℕ)
scan_unsigned [] = none
scan_unsigned (c ∷ s) = if is_digit c then some (parse_digits 0 (c ∷ s)) else none

abbrev pub negated : Option (ℕ × List ℕ) → Option (ℤ × List ℕ)
negated none = none
negated (some (zero, s)) = some (pos 0, s)
negated (some (suc n, s)) = some (negsuc n, s)

abbrev pub positive : Option (ℕ × List ℕ) → Option (ℤ × List ℕ)
positive none = none
positive (some (n, s)) = some (pos n, s)

abbrev pub scan_signed : List ℕ → Option (ℤ × List ℕ)
scan_signed [] = none
scan_signed (c ∷ s) =
    if c == b'-'
    then negated (scan_unsigned s)
    else if c == b'+'
    then positive (scan_unsigned s)
    else positive (scan_unsigned (c ∷ s))

abbrev pub match_text : List ℕ → List ℕ → Option (List ℕ)
match_text [] s = some s
match_text (f ∷ format) [] = if f == b' ' then match_text format [] else none
match_text (f ∷ format) (c ∷ s) =
    if f == b' '
    then match_text format (skip_space (c ∷ s))
    else if c == f
    then match_text format s
    else none

abbrev pub scan_int : Option (List ℕ) → Option (ℤ × List ℕ)
scan_int none = none
scan_int (some s) = scan_signed (skip_space s)

-- The variables of the session, and the `sscanf` into them, which leaves those that it does not reach.
pub record Mouse : Type 0 where
  pub mouse_x : ℤ
  pub mouse_y : ℤ
  pub mouse_btn1 : ℤ

pub scan_touch : List ℕ → Mouse → Mouse
scan_touch s m = elim (scan_int (match_text x_label s)) [
  | none ↦ m
  | some (x, s') ↦
      let m' : Mouse = record m { mouse_x = x } in
      elim (scan_int (match_text y_label s')) [
        | none ↦ m'
        | some (y, s'') ↦
            let m'' : Mouse = record m' { mouse_y = y } in
            elim (scan_int (match_text t_label s'')) [
              | none ↦ m''
              | some (t, rest) ↦ record m'' { mouse_btn1 = t }
            ]
      ]
]

abbrev pub starts_with : List ℕ → List ℕ → Bool
starts_with [] s = true
starts_with (p ∷ prefix) [] = false
starts_with (p ∷ prefix) (c ∷ s) = (p == c) && starts_with prefix s

abbrev pub clamp : ℤ → ℤ → ℤ
clamp size v =
    let v' = if ltb_ℤ v (pos 0) then pos 0 else v in if leb_ℤ size v' then size -ℤ pos 1 else v'

-- What the session does with one message; the screen is `w` by `h`.
pub read_mouse : ℤ → ℤ → List ℕ → Mouse → Mouse
unfolding scan_touch
read_mouse w h m_buffer m =
    let text = c_string m_buffer in
    let m' = if starts_with touch_event text then scan_touch text m else m in
    record m' { mouse_x = clamp w m'.mouse_x; mouse_y = clamp h m'.mouse_y }
