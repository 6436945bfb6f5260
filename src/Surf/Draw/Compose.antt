-- ===== src/Surf/Draw/Compose.antt =====
-- What `AutixSurf_Compose` leaves at one pixel: the topmost layer there.
use autumnos_mobile.Common.{
  ℕ, zero, suc, ◌+◌, ◌*◌, ◌<◌, ◌≡◌, ◌≢◌, refl, ap, sym, ◌∙◌, ◌⊎◌, inl, inr, Bool, true, false, ◌&&◌,
  List, none, some, arith, if◌then◌else◌, Bool-cases, Option-cases, get_or, length, replicate,
  length-replicate, for_range, for_range_keeps, last_round, no_round, pos, pos_part, neg_part,
  eqb_ℤ, eq_of_parts, ◌<ℤ◌,
}
use mathlib.Core.Path.{subst₂}
use native.Mathlib.Decide.{ℕ_discrete}
use autumnos_mobile.Surf.Types.{Layer, Context, max_surfaces}
use autumnos_mobile.Surf.Draw.{draw_layer, compose_layer, compose, no_layer}
use autumnos_mobile.Surf.Draw.Pixel.{covers, color_at, draw_layer-pixel}

-- The layer of slot `i`.
abbrev pub slot : Context → ℕ → Layer
slot ctx i = get_or ctx.layers i no_layer

-- The layer is active, has memory, and covers the pixel.
abbrev pub paints : Layer → ℕ → ℕ → Bool
paints layer px py = elim layer.pixels [
  | none ↦ false
  | some p ↦ layer.active && covers layer px py
]

abbrev pub shown : Layer → ℕ → ℕ → ℕ
shown layer px py = elim layer.pixels [ none ↦ 0 | some p ↦ color_at layer p px py ]

-- The layer is drawn before slot `i` at height `z`, or its height is none that is drawn.
abbrev pub Below : Layer → ℕ → ℕ → ℕ → Type 0
Below layer j z i =
    (layer.z_order <ℤ pos z) ⊎ ((layer.z_order ≡ pos z) × (j < i)) ⊎ (pos 31 <ℤ layer.z_order)

get-replicate : (n i : ℕ) → get_or (replicate {A = ℕ} n 0) i 0 ≡ 0
get-replicate zero i = refl
get-replicate (suc n) zero = refl
get-replicate (suc n) (suc i) = get-replicate n i

weaken : (layer : Layer) (j : ℕ) {z i : ℕ} → Below layer j z i → Below layer j z (suc i)
weaken layer j (inl low) = inl low
weaken layer j (inr (inl (at, before))) = inr (inl (at, omega arith))
weaken layer j (inr (inr high)) = inr (inr high)

-- A layer that lies below slot `i` at height `z` does not paint in a later round.
quiet_later :
    (layer : Layer) (px py j z i z' : ℕ)
    → (paints layer px py ≡ true → Below layer j z i)
    → (z < z') ⊎ ((z' ≡ z) × (i < j))
    → z' < max_surfaces
    → (eqb_ℤ layer.z_order (pos z') && paints layer px py) ≡ false
quiet_later layer px py j z i z' below late h =
    elim (Bool-cases (eqb_ℤ layer.z_order (pos z') && paints layer px py)) [
      | inl hit ↦ absurd (late_below (below (ground (arith, hit))) (ground (arith, hit)) late)
      | inr miss ↦ miss
    ]
  where
    late_below :
        Below layer j z i
        → eqb_ℤ layer.z_order (pos z') ≡ true
        → (z < z') ⊎ ((z' ≡ z) × (i < j))
        → ⊥
    late_below (inl low) e l = ground (arith, low, e, l)
    late_below (inr (inl (at, before))) e l =
        ground (arith, e, l, before, ap pos_part at, ap neg_part at)
    late_below (inr (inr high)) e l = ground (arith, high, e, l)

inactive-paints : (layer : Layer) (px py : ℕ) → layer.active ≡ false → paints layer px py ≡ false
inactive-paints layer px py off = elim (Option-cases layer.pixels) [
  | inl without ↦ ground (arith, without)
  | inr (p, there) ↦ ground (arith, there, off)
]

draw_layer-paints :
    (width height : ℕ) (layer : Layer) (px py : ℕ) (buf : List ℕ)
    → px < width
    → py < height
    → length buf ≡ width * height
    → (length (draw_layer (pos width) (pos height) layer buf) ≡ width * height)
      × (get_or (draw_layer (pos width) (pos height) layer buf) (py * width + px) 0
          ≡ (if paints layer px py then shown layer px py else get_or buf (py * width + px) 0))
unfolding draw_layer
draw_layer-paints width height layer px py buf hx hy e = elim (Option-cases layer.pixels) [
  | inl without ↦ ground (arith, without, e)
  | inr (p, there) ↦
      ground (arith, there, draw_layer-pixel width height layer p px py buf hx hy e there)
]

module _ (ctx : Context) (width height px py : ℕ) (wide : ctx.width ≡ pos width)
    (high : ctx.height ≡ pos height) (hx : px < width) (hy : py < height) where
  abbrev Sized : List ℕ → Type 0
  Sized buf = length buf ≡ width * height

  abbrev at_pixel : List ℕ → ℕ
  at_pixel buf = get_or buf (py * width + px) 0

  compose_layer_lem :
      (z i : ℕ) (buf : List ℕ)
      → Sized buf
      → Sized (compose_layer ctx z i buf)
        × (at_pixel (compose_layer ctx z i buf) ≡ (
            if eqb_ℤ (slot ctx i).z_order (pos z) && paints (slot ctx i) px py
            then shown (slot ctx i) px py
            else at_pixel buf))
  unfolding compose_layer
  compose_layer_lem z i buf e =
      let drawn =
        subst₂
          (λ w h.
            Sized (draw_layer w h (slot ctx i) buf)
            × (at_pixel (draw_layer w h (slot ctx i) buf)
                ≡ (if paints (slot ctx i) px py then shown (slot ctx i) px py else at_pixel buf)))
          (sym wide) (sym high) (draw_layer-paints width height (slot ctx i) px py buf hx hy e) in
      elim (Bool-cases (slot ctx i).active) [
        | inl on ↦ ground (arith, on, e, drawn)
        | inr off ↦ ground (arith, off, e, inactive-paints (slot ctx i) px py off)
      ]

  -- A round of the outer loop that no layer uses to paint the pixel.
  quiet_height :
      (z : ℕ)
      → ((j : ℕ)
          → j < max_surfaces
          → (eqb_ℤ (slot ctx j).z_order (pos z) && paints (slot ctx j) px py) ≡ false)
      → (buf : List ℕ) → Sized buf
      → Sized (for_range max_surfaces 0 (compose_layer ctx z) buf)
        × (at_pixel (for_range max_surfaces 0 (compose_layer ctx z) buf) ≡ at_pixel buf)
  quiet_height z quiet buf e =
      no_round Sized at_pixel (compose_layer ctx z) max_surfaces 0
        (λ j b lo hi g. ground (arith, compose_layer_lem z j b g, quiet j (omega arith))) buf e

  height_keeps :
      (z : ℕ) (buf : List ℕ)
      → Sized buf
      → Sized (for_range max_surfaces 0 (compose_layer ctx z) buf)
  height_keeps z buf e =
      for_range_keeps Sized (compose_layer ctx z) (λ j b g. (compose_layer_lem z j b g).0)
        max_surfaces 0 buf e

  cleared : List ℕ
  cleared = replicate (pos_part ctx.width * pos_part ctx.height) 0

  cleared_lem : Sized cleared × (at_pixel cleared ≡ 0)
  unfolding cleared
  cleared_lem = (
    rw (wide, high) (length-replicate (width * height) 0),
    get-replicate (pos_part ctx.width * pos_part ctx.height) (py * width + px),
  )

  -- The composite buffer shows at a pixel of the screen the layer of slot `i`, if that layer paints
  -- the pixel with a height from 0 to 31, and every other layer that paints the pixel lies below it:
  -- at a lower height, at the same height in a slot before, or at a height above 31, which is never
  -- drawn.
  pub compose-top :
      (i z : ℕ)
      → i < max_surfaces
      → z < max_surfaces
      → (slot ctx i).z_order ≡ pos z
      → paints (slot ctx i) px py ≡ true
      → ((j : ℕ)
          → j < max_surfaces
          → j ≢ i
          → paints (slot ctx j) px py ≡ true
          → Below (slot ctx j) j z i)
      → at_pixel (compose ctx).comp_buf ≡ shown (slot ctx i) px py
  unfolding compose cleared
  compose-top i z hi hz at_z painted below =
      last_round Sized at_pixel (λ z. for_range max_surfaces 0 (compose_layer ctx z))
        (shown (slot ctx i) px py) max_surfaces 0 z (omega arith) (omega arith)
        (λ z' b lo up g. height_keeps z' b g)
        (λ b g.
          last_round Sized at_pixel (compose_layer ctx z) (shown (slot ctx i) px py) max_surfaces 0
            i (omega arith) (omega arith) (λ j b lo up g. (compose_layer_lem z j b g).0)
            (λ b g.
              ground
                (arith, compose_layer_lem z i b g, painted, ap pos_part at_z, ap neg_part at_z))
            (λ j b lo up g.
              (ground (
                arith,
                compose_layer_lem z j b g,
                quiet_later (slot ctx j) px py j z i z (below j up (omega arith)) (inr (refl, lo))
                    hz,
              )))
            b g)
        (λ z' b lo up g.
          (quiet_height z'
            (λ j hj. quiet_later (slot ctx j) px py j z (suc i) z' (below_or_same j hj) (inl lo) up)
            b g).1)
        cleared cleared_lem.0
    where
      below_or_same :
          (j : ℕ)
          → j < max_surfaces
          → paints (slot ctx j) px py ≡ true
          → Below (slot ctx j) j z (suc i)
      below_or_same j hj = elim (ℕ_discrete j i) [
        | yes same ↦ λ _. inr (inl (ap (λ k. (slot ctx k).z_order) same ∙ at_z, omega arith))
        | no other ↦ λ paint. weaken (slot ctx j) j (below j hj other paint)
      ]

  -- The composite buffer is black (0) at a pixel of the screen that no layer with a height from 0 to
  -- 31 paints.
  pub compose-background :
      ((j z : ℕ)
        → j < max_surfaces
        → z < max_surfaces
        → (slot ctx j).z_order ≡ pos z
        → paints (slot ctx j) px py ≡ false)
      → at_pixel (compose ctx).comp_buf ≡ 0
  unfolding compose cleared
  compose-background clear =
      (no_round Sized at_pixel (λ z. for_range max_surfaces 0 (compose_layer ctx z)) max_surfaces 0
        (λ z b lo up g. quiet_height z (λ j hj. quiet j z hj up) b g) cleared cleared_lem.0).1
      ∙ cleared_lem.1
    where
      quiet :
          (j z : ℕ)
          → j < max_surfaces
          → z < max_surfaces
          → (eqb_ℤ (slot ctx j).z_order (pos z) && paints (slot ctx j) px py) ≡ false
      quiet j z hj hz = elim (Bool-cases (eqb_ℤ (slot ctx j).z_order (pos z))) [
        | inl at ↦ ground (
          arith,
          at,
          clear j z hj hz (eq_of_parts (slot ctx j).z_order (pos z) (ground (arith, at))),
        )
        | inr not_at ↦ ground (arith, not_at)
      ]
