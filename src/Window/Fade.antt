-- ===== src/Window/Fade.antt =====
-- A window that is drawn again and again while it fades.
use autumnos_mobile.Common.{
  ℕ, zero, suc, ◌+◌, ◌-◌, ◌*◌, ◌≤◌, ◌<◌, ◌≡◌, ap, inl, inr, Option, none, some, List, arith,
  Bool-cases, min, ℤ, pos, ◌+ℤ◌, ◌-ℤ◌, +ℤ_parts, -ℤ_parts, one_part,
}
use mathlib.Core.Path.{subst}
use native.Mathlib.Decide.{dec_lt}
use autumnos_mobile.Fb.{FbDev}
use autumnos_mobile.Window.{
  Window, Rounding, Anim, fade_in, fade_out, anim_fade_in, anim_fade_out, animate,
}
use autumnos_mobile.Window.Text.{draw_window, is_hidden}

-- The transparency and the animation of a window.
pub record Fading (win : Window) (alpha : ℕ) (anim : Option Anim) : Type 0 where
  pub at : win.alpha ≡ pos alpha
  pub doing : win.anim ≡ anim

module _ (fb : FbDev) (round_sqrt : Rounding) (width_of : List ℕ → ℤ) (screen buf : List ℕ)
    (speed : ℕ) where
  pub after : ℕ → Window → Window
  after zero win = win
  after (suc n) win = after n (draw_window fb round_sqrt width_of screen (pos speed) win buf).window

  drawn_once :
      (win : Window) (alpha : ℕ) (anim : Option Anim)
      → Fading (animate (pos speed) win.anim win) alpha anim
      → Fading (draw_window fb round_sqrt width_of screen (pos speed) win buf).window alpha anim
  unfolding draw_window
  drawn_once win alpha anim f = elim (Bool-cases (is_hidden (animate (pos speed) win.anim win))) [
    | inl hidden ↦ rw hidden f
    | inr shown ↦ rw shown (record { at = f.at; doing = f.doing })
  ]

  animated :
      (win : Window) (m : Option Anim)
      → win.anim ≡ m
      → animate (pos speed) win.anim win ≡ animate (pos speed) m win
  animated win m e = ap (λ t. animate (pos speed) t win) e

  -- One call of an animation, before its end and there.
  rising :
      (win : Window) (a : ℕ)
      → a < 255
      → Fading win a (some fade_in)
      → Fading (anim_fade_in (pos speed) win) (min 255 (a + speed)) (some fade_in)
  unfolding anim_fade_in
  rising win a h f = record {
    at = ground (arith, h, f.at, +ℤ_parts win.alpha (pos speed), one_part (win.alpha +ℤ pos speed));
    doing = ground (arith, h, f.at, f.doing);
  }

  falling :
      (win : Window) (a : ℕ)
      → 0 < a
      → Fading win a (some fade_out)
      → Fading (anim_fade_out (pos speed) win) (a - speed) (some fade_out)
  unfolding anim_fade_out
  falling win a h f = record {
    at = ground (arith, h, f.at, -ℤ_parts win.alpha (pos speed), one_part (win.alpha -ℤ pos speed));
    doing = ground (arith, h, f.at, f.doing);
  }

  risen :
      (win : Window)
      → Fading win 255 (some fade_in)
      → Fading (anim_fade_in (pos speed) win) 255 none
  unfolding anim_fade_in
  risen win f = record { at = ground (arith, f.at); doing = ground (arith, f.at) }

  fallen :
      (win : Window) → Fading win 0 (some fade_out) → Fading (anim_fade_out (pos speed) win) 0 none
  unfolding anim_fade_out
  fallen win f = record { at = ground (arith, f.at); doing = ground (arith, f.at) }

  -- A draw of a window with an animation.
  drawn_by :
      (win : Window) (m anim : Option Anim) (alpha : ℕ)
      → win.anim ≡ m
      → Fading (animate (pos speed) m win) alpha anim
      → Fading (draw_window fb round_sqrt width_of screen (pos speed) win buf).window alpha anim
  drawn_by win m anim alpha e f = drawn_once win alpha anim (rw (animated win m e) f)

  rests : (n a : ℕ) (win : Window) → Fading win a none → Fading (after n win) a none
  unfolding after animate
  rests zero a win f = f
  rests (suc n) a win f = rests n a _ (drawn_by win none none a f.doing f)

  rises :
      (n a : ℕ) (win : Window)
      → 0 < speed
      → a + n * speed ≤ 255
      → Fading win a (some fade_in)
      → Fading (after n win) (a + n * speed) (some fade_in)
  unfolding after animate
  rises zero a win h lt f = let same : a ≡ a + 0 * speed = omega arith in rw (← same) f
  rises (suc n) a win h lt f =
      let more : suc n * speed ≡ n * speed + speed = grind arith in
      let value : min 255 (a + speed) + n * speed ≡ a + suc n * speed = omega (arith, lt, more) in
      rw (← value) (
        rises n (min 255 (a + speed)) _ h (omega (arith, lt, more)) (
          drawn_by win (some fade_in) (some fade_in) _ f.doing
            (rising win a (omega (arith, lt, more)) f)))

  full_rises :
      (n a : ℕ) (win : Window)
      → a ≡ 255
      → Fading win a (some fade_in)
      → Fading (after (suc n) win) 255 none
  unfolding after animate
  full_rises n a win same f = rests n 255 _ (
      drawn_by win (some fade_in) none 255 f.doing
        (risen win (subst (λ k. Fading win k (some fade_in)) same f)))

  rise_ends :
      (n a : ℕ) (win : Window)
      → a ≤ 255
      → 255 ≤ a + n * speed
      → Fading win a (some fade_in)
      → Fading (after (suc n) win) 255 none
  unfolding after animate
  rise_ends zero a win h enough f = full_rises 0 a win (omega (arith, enough)) f
  rise_ends (suc n) a win h enough f = elim (dec_lt a 255) [
    | no full ↦ full_rises (suc n) a win (omega (arith, h)) f
    | yes more ↦
        let step : suc n * speed ≡ n * speed + speed = grind arith in
        rise_ends n (min 255 (a + speed)) _ (omega arith) (omega (arith, enough, step))
          (drawn_by win (some fade_in) (some fade_in) _ f.doing (rising win a more f))
  ]

  falls :
      (n a : ℕ) (win : Window)
      → 0 < speed
      → n * speed ≤ a
      → Fading win a (some fade_out)
      → Fading (after n win) (a - n * speed) (some fade_out)
  unfolding after animate
  falls zero a win h le f = let same : a ≡ a - 0 * speed = omega arith in rw (← same) f
  falls (suc n) a win h le f =
      let more : suc n * speed ≡ n * speed + speed = grind arith in
      let value : a - speed - n * speed ≡ a - suc n * speed = omega (arith, le, more) in
      rw (← value) (
        falls n (a - speed) _ h (omega (arith, le, more)) (
          drawn_by win (some fade_out) (some fade_out) _ f.doing
            (falling win a (omega (arith, le, more)) f)))

  clear_falls :
      (n a : ℕ) (win : Window)
      → a ≡ 0
      → Fading win a (some fade_out)
      → Fading (after (suc n) win) 0 none
  unfolding after animate
  clear_falls n a win same f = rests n 0 _ (
      drawn_by win (some fade_out) none 0 f.doing
        (fallen win (subst (λ k. Fading win k (some fade_out)) same f)))

  fall_ends :
      (n a : ℕ) (win : Window)
      → a ≤ n * speed
      → Fading win a (some fade_out)
      → Fading (after (suc n) win) 0 none
  unfolding after animate
  fall_ends zero a win enough f = clear_falls 0 a win (omega (arith, enough)) f
  fall_ends (suc n) a win enough f = elim (dec_lt 0 a) [
    | no clear ↦ clear_falls (suc n) a win (omega arith) f
    | yes more ↦
        let step : suc n * speed ≡ n * speed + speed = grind arith in
        fall_ends n (a - speed) _ (omega (arith, enough, step))
          (drawn_by win (some fade_out) (some fade_out) _ f.doing (falling win a more f))
  ]

-- How far an animation has to go, where it has got to after `d`, and its end.
abbrev pub left : Anim → ℕ → ℕ
left fade_in a = 255 - a
left fade_out a = a

abbrev pub toward : Anim → ℕ → ℕ → ℕ
toward fade_in a d = a + d
toward fade_out a d = a - d

abbrev pub end : Anim → ℕ
end fade_in = 255
end fade_out = 0

-- A window of transparency `a` from 0 to 255 that fades in or out and is drawn again and again with
-- a positive speed has moved by the speed at each of the first draws, as long as it does not pass
-- its end, opaque or clear; and at the draw after so many that they reach its end, and ever after,
-- it is at its end and its animation is over.
pub after-Fading :
    (anim : Anim) (fb : FbDev) (round_sqrt : Rounding) (width_of : List ℕ → ℤ) (screen buf : List ℕ)
    (speed : ℕ) (win : Window) (a k n : ℕ)
    → 0 < speed
    → a ≤ 255
    → Fading win a (some anim)
    → k * speed ≤ left anim a
    → left anim a ≤ n * speed
    → let next = after fb round_sqrt width_of screen buf speed in
      Fading (next k win) (toward anim a (k * speed)) (some anim)
      × Fading (next (suc n) win) (end anim) none
after-Fading fade_in fb round_sqrt width_of screen buf speed win a k n h le f most enough = (
  rises fb round_sqrt width_of screen buf speed k a win h (omega (arith, le, most)) f,
  rise_ends fb round_sqrt width_of screen buf speed n a win le (omega (arith, le, enough)) f,
)
after-Fading fade_out fb round_sqrt width_of screen buf speed win a k n h le f most enough = (
  falls fb round_sqrt width_of screen buf speed k a win h most f,
  fall_ends fb round_sqrt width_of screen buf speed n a win enough f,
)
