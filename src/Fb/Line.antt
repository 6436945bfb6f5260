-- ===== src/Fb/Line.antt =====
-- `AutumnAPI_DrawLine` ends, draws both of its ends, and stays between them.
pub mod Steps
use autumnos_mobile.Common.{
  ℕ, zero, suc, ◌+◌, ◌*◌, ◌≤◌, ◌<◌, ◌≡◌, refl, ap, sym, ◌∙◌, ◌⊎◌, inl, inr, Bool, true, false, ◌&&◌,
  ◌||◌, List, some, arith, ◌==◌, leb, if◌then◌else◌, Bool-cases, ℤ, pos, negsuc, pos_part, neg_part,
  ◌+ℤ◌, ◌-ℤ◌, ◌*ℤ◌, ltb_ℤ, leb_ℤ, eqb_ℤ, one_part, +ℤ_parts, -ℤ_parts,
}
use autumnos_mobile.Fb.{FbDev, draw_pix, distance, direction, line_loop, draw_line}
use autumnos_mobile.Fb.Pixel.{IsDisplay, Sized, pixel, is_at, draw_pix_lem}
use autumnos_mobile.Fb.Line.Steps.{
  between, Ahead, forward, arrived, at_start, wider, times_suc, start_balance, across_lem, down_lem,
}

module _ (fb : FbDev) (d : IsDisplay fb) (px py : ℕ) (hx : px < fb.w) (hy : py < fb.h)
    (x1 y1 sx sy : ℤ) (dx dy color : ℕ) where
  -- Where the loop stands with `a` columns and `b` rows to go.
  record At (a b : ℕ) (x y err : ℤ) : Type 0 where
    ahead_x : Ahead sx x x1 a
    ahead_y : Ahead sy y y1 b
    a_in : a ≤ dx
    b_in : b ≤ dy
    balance : pos_part err + dx * b + dy ≡ neg_part err + dy * a + dx

  -- What the loop from (x, y) makes of the buffer.
  record Drawn (x y : ℤ) (buf out : List ℕ) : Type 0 where
    sized : Sized fb out
    only :
        (pixel fb px py out ≡ pixel fb px py buf)
        ⊎ ((pixel fb px py out ≡ color) × (between x px x1 ≡ true) × (between y py y1 ≡ true))
    first : is_at px py x y ≡ true → pixel fb px py out ≡ color
    last : is_at px py x1 y1 ≡ true → pixel fb px py out ≡ color

  go_across : (a b : ℕ) (x y err : ℤ) → At (suc a) b x y err → At a b (x +ℤ sx) y (err -ℤ pos dy)
  go_across a b x y err s = record {
    ahead_x = forward sx x x1 a s.ahead_x;
    ahead_y = s.ahead_y;
    a_in = omega (arith, s.a_in);
    b_in = s.b_in;
    balance = omega (arith, s.balance, -ℤ_parts err (pos dy), times_suc dy a);
  }

  go_down : (a b : ℕ) (x y err : ℤ) → At a (suc b) x y err → At a b x (y +ℤ sy) (err +ℤ pos dx)
  go_down a b x y err s = record {
    ahead_x = s.ahead_x;
    ahead_y = forward sy y y1 b s.ahead_y;
    a_in = s.a_in;
    b_in = omega (arith, s.b_in);
    balance = omega (arith, s.balance, +ℤ_parts err (pos dx), times_suc dx b);
  }

  -- No round steps past the end: with no column to go it goes down, with no row across, and
  -- otherwise at least one of the two.
  only_down :
      (b : ℕ) (x y err : ℤ)
      → At 0 (suc b) x y err
      → (leb_ℤ (pos 0 -ℤ pos dy) (pos 2 *ℤ err) ≡ false) × (leb_ℤ (pos 2 *ℤ err) (pos dx) ≡ true)
  only_down b x y err s =
      let e : pos_part err + dx * b + dy ≡ neg_part err =
        omega (arith, s.balance, times_suc dx b) in
      (across_lem dy err ∙ ground (arith, e, s.b_in), down_lem dx err ∙ ground (arith, e))

  only_across :
      (a : ℕ) (x y err : ℤ)
      → At (suc a) 0 x y err
      → (leb_ℤ (pos 0 -ℤ pos dy) (pos 2 *ℤ err) ≡ true) × (leb_ℤ (pos 2 *ℤ err) (pos dx) ≡ false)
  only_across a x y err s =
      let e : pos_part err ≡ neg_part err + dy * a + dx =
        omega (arith, s.balance, times_suc dy a) in
      (across_lem dy err ∙ ground (arith, e), down_lem dx err ∙ ground (arith, e, s.a_in))

  one_of_two :
      (err : ℤ)
      → leb_ℤ (pos 0 -ℤ pos dy) (pos 2 *ℤ err) ≡ false
      → leb_ℤ (pos 2 *ℤ err) (pos dx) ≡ true
  one_of_two err e = down_lem dx err ∙ ground (arith, sym (across_lem dy err) ∙ e)

  -- A round before the end, with its two tests decided.
  round :
      (fuel : ℕ) (x y err : ℤ) (buf : List ℕ) (across down : Bool)
      → (eqb_ℤ x x1 && eqb_ℤ y y1) ≡ false
      → leb_ℤ (pos 0 -ℤ pos dy) (pos 2 *ℤ err) ≡ across
      → leb_ℤ (pos 2 *ℤ err) (pos dx) ≡ down
      → line_loop fb x1 y1 sx sy dx dy color (suc fuel) x y err buf
        ≡ line_loop fb x1 y1 sx sy dx dy color fuel
            (if across then x +ℤ sx else x)
            (if down then y +ℤ sy else y)
            (if down
              then (if across then err -ℤ pos dy else err) +ℤ pos dx
              else (if across then err -ℤ pos dy else err))
            (draw_pix fb x y color buf)
  unfolding line_loop
  round fuel x y err buf across down going a b = rw (going, a, b) refl

  -- Drawing at (x, y) and then on from a place that lies no further from the end.
  draw_then :
      (x y x' y' : ℤ) (buf out : List ℕ)
      → Sized fb buf
      → (between x' px x1 ≡ true → between x px x1 ≡ true)
      → (between y' py y1 ≡ true → between y py y1 ≡ true)
      → Drawn x' y' (draw_pix fb x y color buf) out
      → Drawn x y buf out
  draw_then x y x' y' buf out e wide high rest =
      let drawn = draw_pix_lem fb d px py hx hy x y color buf e in
      record {
        sized = rest.sized;
        only = elim rest.only [
          | inl same ↦ elim (Bool-cases (is_at px py x y)) [
            | inl here ↦
                inr (same ∙ ground (arith, drawn, here), ground (arith, here), ground (arith, here))
            | inr away ↦ inl (same ∙ ground (arith, drawn, away))
          ]
          | inr (new, in_x, in_y) ↦ inr (new, wide in_x, high in_y)
        ];
        first = λ here. elim rest.only [
          | inl same ↦ same ∙ ground (arith, drawn, here)
          | inr (new, in_x, in_y) ↦ new
        ];
        last = rest.last;
      }

  Ends : ℕ → (x y err : ℤ) → List ℕ → Type 0
  Ends fuel x y err buf =
      (out : List ℕ) × (line_loop fb x1 y1 sx sy dx dy color fuel x y err buf ≡ some out)
      × Drawn x y buf out

  stop :
      (fuel : ℕ) (x y err : ℤ) (buf : List ℕ)
      → At 0 0 x y err
      → Sized fb buf
      → Ends (suc fuel) x y err buf
  unfolding Ends line_loop
  stop fuel x y err buf s e =
      let in_x = arrived sx x x1 0 s.ahead_x in
      let in_y = arrived sy y y1 0 s.ahead_y in
      let drawn = draw_pix_lem fb d px py hx hy x y color buf e in
      (
        draw_pix fb x y color buf,
        rw (in_x, in_y) refl,
        record {
          sized = drawn.0;
          only = elim (Bool-cases (is_at px py x y)) [
            | inl here ↦ inr (
              ground (arith, drawn, here),
              ground (arith, here, in_x),
              ground (arith, here, in_y),
            )
            | inr away ↦ inl (ground (arith, drawn, away))
          ];
          first = λ here. ground (arith, drawn, here);
          last = λ there. ground (arith, drawn, there, in_x, in_y);
        },
      )

  line_loop-Ends :
      (fuel a b : ℕ) (x y err : ℤ) (buf : List ℕ)
      → a + b < fuel
      → At a b x y err
      → Sized fb buf
      → Ends fuel x y err buf
  unfolding Ends
  line_loop-Ends zero a b x y err buf h s e = absurd (omega arith)
  line_loop-Ends (suc fuel) zero zero x y err buf h s e = stop fuel x y err buf s e
  line_loop-Ends (suc fuel) zero (suc b) x y err buf h s e =
      let tests = only_down b x y err s in
      let going = arrived sy y y1 (suc b) s.ahead_y in
      let (out, ends, rest) =
        line_loop-Ends fuel zero b x (y +ℤ sy) (err +ℤ pos dx) (draw_pix fb x y color buf)
          (omega arith) (go_down zero b x y err s)
          (draw_pix_lem fb d px py hx hy x y color buf e).0 in
      (
        out,
        round fuel x y err buf false true (ground (arith, going)) tests.0 tests.1 ∙ ends,
        draw_then x y x (y +ℤ sy) buf out e (λ b. b) (wider sy y y1 b py s.ahead_y) rest,
      )
  line_loop-Ends (suc fuel) (suc a) zero x y err buf h s e =
      let tests = only_across a x y err s in
      let going = arrived sx x x1 (suc a) s.ahead_x in
      let (out, ends, rest) =
        line_loop-Ends fuel a zero (x +ℤ sx) y (err -ℤ pos dy) (draw_pix fb x y color buf)
          (omega arith) (go_across a zero x y err s)
          (draw_pix_lem fb d px py hx hy x y color buf e).0 in
      (
        out,
        round fuel x y err buf true false (ground (arith, going)) tests.0 tests.1 ∙ ends,
        draw_then x y (x +ℤ sx) y buf out e (wider sx x x1 a px s.ahead_x) (λ b. b) rest,
      )
  line_loop-Ends (suc fuel) (suc a) (suc b) x y err buf h s e =
      let going : (eqb_ℤ x x1 && eqb_ℤ y y1) ≡ false =
        ground (arith, arrived sx x x1 (suc a) s.ahead_x) in
      let sized = (draw_pix_lem fb d px py hx hy x y color buf e).0 in
      elim (Bool-cases (leb_ℤ (pos 0 -ℤ pos dy) (pos 2 *ℤ err))) [
        | inr stay ↦
            let (out, ends, rest) =
              line_loop-Ends fuel (suc a) b x (y +ℤ sy) (err +ℤ pos dx) (draw_pix fb x y color buf)
                (omega arith) (go_down (suc a) b x y err s) sized in
            (
              out,
              round fuel x y err buf false true going stay (one_of_two err stay) ∙ ends,
              draw_then x y x (y +ℤ sy) buf out e (λ b. b) (wider sy y y1 b py s.ahead_y) rest,
            )
        | inl go ↦ elim (Bool-cases (leb_ℤ (pos 2 *ℤ err) (pos dx))) [
          | inr level ↦
              let (out, ends, rest) =
                line_loop-Ends fuel a (suc b) (x +ℤ sx) y (err -ℤ pos dy)
                  (draw_pix fb x y color buf) (omega arith) (go_across a (suc b) x y err s) sized in
              (
                out,
                round fuel x y err buf true false going go level ∙ ends,
                draw_then x y (x +ℤ sx) y buf out e (wider sx x x1 a px s.ahead_x) (λ b. b) rest,
              )
          | inl both ↦
              let (out, ends, rest) =
                line_loop-Ends fuel a b (x +ℤ sx) (y +ℤ sy) (err -ℤ pos dy +ℤ pos dx)
                  (draw_pix fb x y color buf) (omega arith)
                  (go_down a b (x +ℤ sx) y (err -ℤ pos dy) (go_across a (suc b) x y err s)) sized in
              (
                out,
                round fuel x y err buf true true going go both ∙ ends,
                draw_then x y (x +ℤ sx) (y +ℤ sy) buf out e (wider sx x x1 a px s.ahead_x)
                    (wider sy y y1 b py s.ahead_y) rest,
              )
        ]
      ]

module _ (fb : FbDev) (d : IsDisplay fb) (px py : ℕ) (hx : px < fb.w) (hy : py < fb.h) where
  -- On a display whose rows are whole words and hold its pixels, with a buffer of its size, and
  -- with as much fuel as the two distances together and one, a line between any two points, on
  -- the screen or not, is drawn to its end: both ends have the colour if they are on the screen,
  -- every other pixel has the colour or is as before, and is as before outside the rectangle that
  -- the two ends span.
  pub draw_line_lem :
      (x0 y0 x1 y1 : ℤ) (color : ℕ) (buf : List ℕ)
      → Sized fb buf
      → (out : List ℕ) × (draw_line fb (distance x0 x1 + distance y0 y1 + 1) x0 y0 x1 y1 color buf
          ≡ some out)
        × Sized fb out
        × ((pixel fb px py out ≡ pixel fb px py buf)
            ⊎ ((pixel fb px py out ≡ color)
                × (between x0 px x1 ≡ true)
                × (between y0 py y1 ≡ true)))
        × (is_at px py x0 y0 ≡ true → pixel fb px py out ≡ color)
        × (is_at px py x1 y1 ≡ true → pixel fb px py out ≡ color)
  unfolding draw_line Ends
  draw_line_lem x0 y0 x1 y1 color buf e =
      let dx = distance x0 x1 in
      let dy = distance y0 y1 in
      let (out, ends, drawn) =
        line_loop-Ends fb d px py hx hy x1 y1 (direction x0 x1) (direction y0 y1) dx dy color
          (dx + dy + 1) dx dy x0 y0 (pos dx -ℤ pos dy) buf (omega arith)
          (record {
            ahead_x = at_start x0 x1;
            ahead_y = at_start y0 y1;
            a_in = omega arith;
            b_in = omega arith;
            balance = start_balance dx dy;
          })
          e in
      (out, ends, drawn.sized, drawn.only, drawn.first, drawn.last)
