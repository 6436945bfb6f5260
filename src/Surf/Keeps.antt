-- ===== src/Surf/Keeps.antt =====
-- Every call of the API keeps the invariant of the layer table.
use autumnos_mobile.Common.{
  ℕ, ◌≤◌, ◌<◌, ◌≡◌, refl, ap, sym, ◌∙◌, inl, inr, Bool, true, false, ◌||◌, none, some, List, [],
  ◌∷◌, arith, length, get_or, Bool-cases, Option-cases, ℤ, pos, pos_part, leb_ℤ, ltb_ℤ, ◌<ℤ◌,
  one_part,
}
use mathlib.Core.Path.{subst}
use autumnos_mobile.Surf.Types.{Layer, Context, max_surfaces}
use autumnos_mobile.Surf.Draw.{no_layer, compose}
use autumnos_mobile.Surf.{
  Surf, Os, Wish, start, init_context, first_free, close, release, with_layer, fill_slot, search,
  spawn_layer, destroy_layer, get_composite_buffer, set_display_size,
}
use autumnos_mobile.Surf.Slots.{
  count, holds, held, held-set, first_free-some, IsFirstFree, count-close, init_layers_lem,
}
use autumnos_mobile.Surf.Inv.{
  IsContext, ContextOk, IsValid, IsUsed, held_by, initialize-cases, close-same, set-IsContext,
  on-IsUsed, filled-IsValid, init_context-IsContext, no_layer-IsFree, start-IsValid,
}

-- A call of the API with its arguments, and with the system's answers.
pub data Call : Type 0 where
  spawns : Os → Bool → Wish → Call
  destroys : ℤ → Call
  composes : Call
  resizes : ℤ → ℤ → Call

pub step : Surf → Call → Surf
step s (spawns os outs wish) = (spawn_layer os outs wish s).0
step s (destroys layer_id) = (destroy_layer layer_id s).0
step s composes = (get_composite_buffer s).0
step s (resizes w h) = (set_display_size w h s).0

pub run : Surf → List Call → Surf
unfolding step
run s [] = s
run s (c ∷ cs) = run (step s c) cs

fill_slot-IsValid :
    (os : Os) (wish : Wish) (s : Surf) (c : Context) (i : ℕ)
    → s.g_ctx ≡ some c
    → IsValid s
    → pos 0 <ℤ wish.w
    → pos 0 <ℤ wish.h
    → IsFirstFree c.layers i
    → IsValid (fill_slot os wish s c i).0
unfolding fill_slot
fill_slot-IsValid os wish s c i e v wide high first = elim (Option-cases os.memfd) [
  | inl refused ↦ rw (refused, fill_slot) v
  | inr (fd, given) ↦
      let undone : IsValid (record s { fds = close fd (fd ∷ s.fds) }) =
        subst (λ k. IsValid (record s { fds = k })) (sym (close-same fd s.fds)) v in
      let filled = filled-IsValid wish s c i fd e v wide high first in
      elim (Bool-cases os.truncated) [
        | inr failed ↦ rw (given, failed, fill_slot) undone
        | inl done ↦ elim (Bool-cases os.mapped) [
          | inr failed ↦ rw (given, done, failed, fill_slot) undone
          | inl mapped ↦ rw (given, done, mapped, fill_slot) filled
        ]
      ]
]

search-IsValid :
    (os : Os) (wish : Wish) (s : Surf) (c : Context)
    → s.g_ctx ≡ some c
    → IsValid s
    → pos 0 <ℤ wish.w
    → pos 0 <ℤ wish.h
    → IsValid (search os wish s c).0
search-IsValid os wish s c e v wide high = elim (Option-cases (first_free c.layers 0)) [
  | inl full ↦ rw (full, search) v
  | inr (i, found) ↦
      let (d, at, first) = first_free-some c.layers 0 i found in
      let same : d ≡ i = omega arith in
      rw (found, search)
        (fill_slot-IsValid os wish s c i e v wide high (subst (IsFirstFree c.layers) same first))
]

-- A context that is made first holds nothing.
fresh-IsValid :
    (s : Surf)
    → s.g_ctx ≡ none
    → IsValid s
    → IsValid (record s { g_ctx = some (init_context s.g_width s.g_height) })
fresh-IsValid s e v = record {
  context = init_context-IsContext s.g_width s.g_height v.g_wide v.g_high;
  g_wide = v.g_wide;
  g_high = v.g_high;
  no_leak = λ k. v.no_leak k ∙ (ap (held_by k) e ∙ sym ((init_layers_lem max_surfaces 0).2 k));
}

spawn_layer-IsValid :
    (os : Os) (outs : Bool) (wish : Wish) (s : Surf)
    → IsValid s
    → IsValid (spawn_layer os outs wish s).0
unfolding spawn_layer
spawn_layer-IsValid os false wish s v = v
spawn_layer-IsValid os true wish s v =
    elim (Bool-cases (leb_ℤ wish.w (pos 0) || leb_ℤ wish.h (pos 0))) [
      | inl refused ↦ rw (refused, spawn_layer) v
      | inr sized ↦
          let wide : pos 0 <ℤ wish.w = ground (arith, sized) in
          let high : pos 0 <ℤ wish.h = ground (arith, sized) in
          elim (Option-cases s.g_ctx) [
            | inr (c, there) ↦
                rw (sized, there, spawn_layer) (search-IsValid os wish s c there v wide high)
            | inl absent ↦ elim (initialize-cases os s.g_width s.g_height) [
              | inl failed ↦ rw (sized, absent, failed, spawn_layer) v
              | inr made ↦
                  rw (sized, absent, made, spawn_layer)
                    (search-IsValid os wish
                      (record s { g_ctx = some (init_context s.g_width s.g_height) })
                      (init_context s.g_width s.g_height) refl (fresh-IsValid s absent v) wide high)
            ]
          ]
    ]

-- A layer's descriptor is among those that the table holds.
holds-le-held :
    (k : ℕ) (ls : List Layer) (i : ℕ) → i < length ls → holds k (get_or ls i no_layer) ≤ held k ls
holds-le-held k ls i h = omega (arith, held-set k ls i no_layer h)

destroyed-IsValid :
    (s : Surf) (c : Context) (i : ℕ) (k : ℤ)
    → s.g_ctx ≡ some c
    → IsValid s
    → i < max_surfaces
    → k ≡ pos i
    → IsUsed (get_or c.layers i no_layer)
    → IsValid (
        with_layer
          (record s { fds = release (get_or c.layers i no_layer) s.fds })
          c
          i
          (record no_layer { id = k }))
unfolding release
destroyed-IsValid s c i k e v lt at used =
    let cv : IsContext c = subst ContextOk e v.context in
    let inside : i < length c.layers = omega (arith, cv.slots) in
    record {
      context = set-IsContext c i (record no_layer { id = k }) cv lt (at, inl (no_layer-IsFree k));
      g_wide = v.g_wide;
      g_high = v.g_high;
      no_leak = λ j.
          let open_as : (m : ℕ) → count m s.fds ≡ held m c.layers =
            λ m. v.no_leak m ∙ ap (held_by m) e in
          ground (
            arith,
            used.has_fd,
            open_as j,
            open_as used.fd,
            held-set j c.layers i (record no_layer { id = k }) inside,
            holds-le-held used.fd c.layers i inside,
            count-close j used.fd s.fds,
          );
    }

destroy_layer-IsValid : (k : ℤ) (s : Surf) → IsValid s → IsValid (destroy_layer k s).0
unfolding destroy_layer
destroy_layer-IsValid k s v = elim (Option-cases s.g_ctx) [
  | inl absent ↦ rw (absent, destroy_layer) v
  | inr (c, there) ↦ elim (Bool-cases (ltb_ℤ k (pos 0) || leb_ℤ (pos max_surfaces) k)) [
    | inl outside ↦ rw (there, outside, destroy_layer) v
    | inr inside ↦ elim (Bool-cases (get_or c.layers (pos_part k) no_layer).active) [
      | inr off ↦ rw (there, inside, off, destroy_layer) v
      | inl on ↦
          let lt : pos_part k < max_surfaces = ground (arith, inside, one_part k) in
          let cv : IsContext c = subst ContextOk there v.context in
          rw (there, inside, on, destroy_layer)
            (destroyed-IsValid s c (pos_part k) k there v lt (ground (arith, inside, one_part k))
              (on-IsUsed _ (cv.each (pos_part k) lt) on))
    ]
  ]
]

get_composite_buffer-IsValid : (s : Surf) → IsValid s → IsValid (get_composite_buffer s).0
unfolding get_composite_buffer compose
get_composite_buffer-IsValid s v = elim (Option-cases s.g_ctx) [
  | inl absent ↦ rw (absent, get_composite_buffer) v
  | inr (c, there) ↦
      let cv : IsContext c = subst ContextOk there v.context in
      rw (there, get_composite_buffer)
        (record {
          context = record { slots = cv.slots; each = cv.each; wide = cv.wide; high = cv.high };
          g_wide = v.g_wide;
          g_high = v.g_high;
          no_leak = λ k. v.no_leak k ∙ ap (held_by k) there;
        })
]

set_display_size-IsValid : (w h : ℤ) (s : Surf) → IsValid s → IsValid (set_display_size w h s).0
unfolding set_display_size
set_display_size-IsValid w h s v = elim (Bool-cases (leb_ℤ w (pos 0) || leb_ℤ h (pos 0))) [
  | inl refused ↦ rw (refused, set_display_size) v
  | inr sized ↦ elim (Option-cases s.g_ctx) [
    | inr (c, there) ↦ rw (sized, there, set_display_size) v
    | inl absent ↦
        rw (sized, absent, set_display_size)
          (record {
            context = v.context;
            g_wide = ground (arith, sized);
            g_high = ground (arith, sized);
            no_leak = v.no_leak;
          })
  ]
]

step-IsValid : (s : Surf) (c : Call) → IsValid s → IsValid (step s c)
unfolding step
step-IsValid s (spawns os outs wish) v = spawn_layer-IsValid os outs wish s v
step-IsValid s (destroys k) v = destroy_layer-IsValid k s v
step-IsValid s composes v = get_composite_buffer-IsValid s v
step-IsValid s (resizes w h) v = set_display_size-IsValid w h s v

run-IsValid_from : (cs : List Call) (s : Surf) → IsValid s → IsValid (run s cs)
unfolding run
run-IsValid_from [] s v = v
run-IsValid_from (c ∷ cs) s v = run-IsValid_from cs (step s c) (step-IsValid s c v)

-- After any calls of the API, and whatever the system answers to them, every slot of the table is
-- free or a layer with a descriptor, positive sides and memory of its size, the display has positive
-- sides, and the open descriptors are exactly those that the layers hold, so that no failing path of
-- a spawn and no destruction leaks one.
pub run-IsValid : (cs : List Call) → IsValid (run start cs)
run-IsValid cs = run-IsValid_from cs start start-IsValid
