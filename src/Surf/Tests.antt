-- ===== src/Surf/Tests.antt =====
-- Runs of the layer manager, and its theorems at inputs that meet their hypotheses.
use autumnos_mobile.Common.{
  ℕ, zero, suc, ◌+◌, ◌+ℤ◌, ◌-ℤ◌, ◌*◌, ◌<◌, ◌≡◌, ◌≢◌, refl, inl, true, false, some, List, [], ◌∷◌,
  arith, get_or, set, replicate, pos, negsuc,
}
use autumnos_mobile.Surf.Types.{Layer, Context, max_surfaces, as_layer_app, as_layer_systemui}
use autumnos_mobile.Surf.Draw.{compose}
use autumnos_mobile.Surf.Draw.Compose.{slot, paints, Below, compose-top}
use autumnos_mobile.Surf.{
  Surf, Os, Wish, start, init_layers, init_context, with_layer, spawn_layer, count_active,
}
use autumnos_mobile.Surf.Destroy.{destroy, mapped_by, destroy-releases}
use autumnos_mobile.Surf.Slots.{count, IsFirstFree}
use autumnos_mobile.Surf.Inv.{IsValid, init_context-IsContext}
use autumnos_mobile.Surf.Keeps.{Call, spawns, destroys, composes, resizes, run, run-IsValid}
use autumnos_mobile.Surf.Calls.{asked, spawn_layer-Grants}

-- A bar over the left part of the first row, above a square that hangs over the right edge.
abbrev bar : Layer
bar = record {
  id = pos 0;
  memfd = some 5;
  pixels = some (7 ∷ 8 ∷ []);
  x = pos 0;
  y = pos 0;
  w = pos 2;
  h = pos 1;
  z_order = pos 1;
  layer_type = as_layer_systemui;
  active = true;
}

abbrev square : Layer
square = record {
  id = pos 1;
  memfd = some 6;
  pixels = some (1 ∷ 2 ∷ 3 ∷ 4 ∷ []);
  x = pos 1;
  y = pos 0;
  w = pos 2;
  h = pos 2;
  z_order = pos 0;
  layer_type = as_layer_systemui;
  active = true;
}

abbrev two_layers : Context
two_layers = record {
  width = pos 3;
  height = pos 2;
  comp_buf = replicate 6 9;
  layers = bar ∷ square ∷ [];
}

compose-top_example : get_or (compose two_layers).comp_buf (0 * 3 + 1) 0 ≡ 8
unfolding ◌+ℤ◌ ◌-ℤ◌
compose-top_example =
    compose-top two_layers 3 2 1 0 refl refl (omega arith) (omega arith) 0 1 (omega arith)
      (omega arith) refl refl others
  where
    others :
        (j : ℕ)
        → j < max_surfaces
        → j ≢ 0
        → paints (slot two_layers j) 1 0 ≡ true
        → Below (slot two_layers j) j 1 0
    others zero h other paint = absurd (other refl)
    others (suc zero) h other paint = inl (omega arith)
    others (suc (suc j)) h other paint = inl (omega arith)

abbrev grant : ℕ → Os
grant fd = record {
  ctx_alloc = true;
  buf_alloc = true;
  memfd = some fd;
  truncated = true;
  mapped = true;
}

abbrev small : Wish
small = record {
  x = negsuc 0;
  y = pos 0;
  w = pos 2;
  h = pos 2;
  z_order = pos 3;
  layer_type = as_layer_app;
}

-- Two spawns, of which the second fails in `mmap`, a resize that comes too late, and a destruction.
abbrev calls : List Call
calls =
    resizes (pos 2) (pos 2)
    ∷ spawns (grant 7) true small
    ∷ spawns (record (grant 8) { mapped = false }) true small
    ∷ resizes (pos 9) (pos 9)
    ∷ composes
    ∷ destroys (pos 0)
    ∷ []

-- Two layers of two by two pixels, both on the screen's left edge.
abbrev both : Surf
both = run start (spawns (grant 7) true small ∷ spawns (grant 8) true small ∷ [])

destroy-releases_example :
    ((k : ℕ) → count k (destroy both.g_ctx both.fds).0 ≡ 0)
    × ((destroy both.g_ctx both.fds).1 ≡ mapped_by both.g_ctx)
destroy-releases_example =
    destroy-releases both
      (run-IsValid (spawns (grant 7) true small ∷ spawns (grant 8) true small ∷ []))

run-IsValid_example : IsValid (run start calls)
run-IsValid_example = run-IsValid calls

abbrev fresh : Context
fresh = init_context (pos 2) (pos 2)

abbrev opened : Surf
opened = record start { g_ctx = some fresh }

spawn_layer-Grants_example :
    (i : ℕ) × IsFirstFree fresh.layers i
    × (spawn_layer (grant 7) true small opened
        ≡ (with_layer (record opened { fds = 7 ∷ [] }) fresh i (asked small i 7), some (i, 7)))
    × (count_active (set fresh.layers i (asked small i 7)) ≡ count_active fresh.layers + 1)
unfolding count_active init_layers
spawn_layer-Grants_example =
    spawn_layer-Grants (grant 7) small opened fresh refl (omega arith) (omega arith) 7
      (init_context-IsContext (pos 2) (pos 2) (omega arith) (omega arith))
      (record { memfd = refl; truncated = refl; mapped = refl }) (omega arith)
