-- ===== src/Surf/Calls.antt =====
-- What the calls of the API return, and what they change.
use autumnos_mobile.Common.{
  ℕ, ◌+◌, ◌<◌, ◌≡◌, refl, ◌∙◌, inl, inr, true, some, List, ◌∷◌, arith, set, replicate, pos_part,
  ◌*◌, Option-cases, pos, ◌<ℤ◌,
}
use mathlib.Core.Path.{subst}
use autumnos_mobile.Surf.Types.{Layer, Context, max_surfaces}
use autumnos_mobile.Surf.{
  Surf, Os, Wish, first_free, new_layer, with_layer, fill_slot, search, spawn_layer, count_active,
}
use autumnos_mobile.Surf.Slots.{first_free-some, first_free-none, IsFirstFree, count_active-set}
use autumnos_mobile.Surf.Inv.{IsContext}

-- The system grants the descriptor `fd` and the memory.
pub record Grants (os : Os) (fd : ℕ) : Type 0 where
  pub memfd : os.memfd ≡ some fd
  pub truncated : os.truncated ≡ true
  pub mapped : os.mapped ≡ true

-- The layer that a client asks for: its own place, size, height and type, and memory of zeros for its
-- pixels.
abbrev pub asked : Wish → ℕ → ℕ → Layer
asked wish i fd = record {
  id = pos i;
  memfd = some fd;
  pixels = some (replicate (pos_part wish.w * pos_part wish.h) 0);
  x = wish.x;
  y = wish.y;
  w = wish.w;
  h = wish.h;
  z_order = wish.z_order;
  layer_type = wish.layer_type;
  active = true;
}

new_layer-asked : (wish : Wish) (i fd : ℕ) → new_layer wish i fd ≡ asked wish i fd
unfolding new_layer
new_layer-asked wish i fd = refl

one_more :
    (wish : Wish) (ls : List Layer) (i fd : ℕ)
    → IsFirstFree ls i
    → count_active (set ls i (new_layer wish i fd)) ≡ count_active ls + 1
unfolding new_layer
one_more wish ls i fd first =
    let same = count_active-set ls i (new_layer wish i fd) first.in_table in
    ground (arith, same, first.free)

module _ (os : Os) (wish : Wish) (s : Surf) (c : Context) (there : s.g_ctx ≡ some c)
    (wide : pos 0 <ℤ wish.w) (high : pos 0 <ℤ wish.h) where
  spawn-search : spawn_layer os true wish s ≡ search os wish s c
  unfolding spawn_layer
  spawn-search = ground (arith, there)

  fill_slot-Grants :
      (fd i : ℕ)
      → Grants os fd
      → fill_slot os wish s c i
        ≡ (with_layer (record s { fds = fd ∷ s.fds }) c i (new_layer wish i fd), some (i, fd))
  unfolding fill_slot
  fill_slot-Grants fd i g = rw g.memfd (rw g.truncated (rw g.mapped refl))

  spawn-found :
      (i : ℕ)
      → first_free c.layers 0 ≡ some i
      → spawn_layer os true wish s ≡ fill_slot os wish s c i
  spawn-found i found = spawn-search ∙ rw (search, found) refl

  -- In a context that is there already, a spawn of a layer with positive sides succeeds if the system grants memory and a slot is free:
  -- it returns the first free slot's number, makes that slot the layer asked for, with memory of
  -- zeros, changes no other slot, and counts one layer more.
  pub spawn_layer-Grants :
      (fd : ℕ)
      → IsContext c
      → Grants os fd
      → count_active c.layers < max_surfaces
      → (i : ℕ) × IsFirstFree c.layers i
        × (spawn_layer os true wish s
            ≡ (with_layer (record s { fds = fd ∷ s.fds }) c i (asked wish i fd), some (i, fd)))
        × (count_active (set c.layers i (asked wish i fd)) ≡ count_active c.layers + 1)
  spawn_layer-Grants fd v g room = elim (Option-cases (first_free c.layers 0)) [
    | inl full ↦ absurd (omega (arith, first_free-none c.layers 0 full, v.slots))
    | inr (i, found) ↦
        let (d, at, first) = first_free-some c.layers 0 i found in
        let same : d ≡ i = omega arith in
        let first' = subst (IsFirstFree c.layers) same first in
        (
          i,
          first',
          rw (← new_layer-asked wish i fd) (spawn-found i found ∙ fill_slot-Grants fd i g),
          rw (← new_layer-asked wish i fd) (one_more wish c.layers i fd first'),
        )
  ]
