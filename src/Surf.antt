-- ===== src/Surf.antt =====
-- v0.1-alpha/API/libatmasurf.c: AutixSurf, the layers of the window manager. `Types` has the
-- records, `Draw` what draws, `Destroy` the end of a context; here are the table of layers and the
-- calls of the API. What the operating system answers to a call (allocation, `memfd_create`,
-- `ftruncate`, `mmap`) is an argument.
pub mod Types
pub mod Draw
pub mod Slots
pub mod Inv
pub mod Keeps
pub mod Calls
pub mod Destroy
mod Tests
use autumnos_mobile.Common.{
  ℕ, zero, suc, ◌+◌, ◌*◌, ◌≡◌, Bool, true, false, not, ◌||◌, Option, none, some, List, [], ◌∷◌,
  ◌==◌, if◌then◌else◌, ltb, ℤ, pos, pos_part, leb_ℤ, ltb_ℤ, get_or, set, replicate,
}
use autumnos_mobile.Surf.Types.{Layer, Context, max_surfaces}
use autumnos_mobile.Surf.Draw.{no_layer, compose}

-- The globals `g_ctx`, `g_width`, `g_height`, and the file descriptors that this code has open.
pub record Surf : Type 0 where
  pub g_ctx : Option Context
  pub g_width : ℤ
  pub g_height : ℤ
  pub fds : List ℕ

abbrev pub start : Surf
start = record { g_ctx = none; g_width = pos 1024; g_height = pos 768; fds = [] }

-- The answers of the system to the calls of one `AutumnAPI_SpawnLayer`.
pub record Os : Type 0 where
  pub ctx_alloc : Bool
  pub buf_alloc : Bool
  pub memfd : Option ℕ
  pub truncated : Bool
  pub mapped : Bool

-- The loop of `AutixSurf_Initialize` over zeroed slots, from slot `i` on.
pub init_layers : ℕ → ℕ → List Layer
init_layers zero i = []
init_layers (suc n) i = record no_layer { id = pos i } ∷ init_layers n (i + 1)

abbrev pub init_context : ℤ → ℤ → Context
init_context w h = record {
  width = w;
  height = h;
  comp_buf = replicate (pos_part w * pos_part h) 0;
  layers = init_layers max_surfaces 0;
}

pub initialize : Os → ℤ → ℤ → Option Context
initialize os w h =
    if not os.ctx_alloc then none else if not os.buf_alloc then none else some (init_context w h)

-- The search of `AutumnAPI_SpawnLayer`: the first slot, from slot `i` on, that is not active.
pub first_free : List Layer → ℕ → Option ℕ
first_free [] i = none
first_free (l ∷ ls) i = if l.active then first_free ls (i + 1) else some i

-- `close(fd)`.
pub close : ℕ → List ℕ → List ℕ
close fd [] = []
close fd (k ∷ ks) = if k == fd then ks else k ∷ close fd ks

-- The place, size, height and type that a client asks for.
pub record Wish : Type 0 where
  pub x : ℤ
  pub y : ℤ
  pub w : ℤ
  pub h : ℤ
  pub z_order : ℤ
  pub layer_type : ℤ

-- The layer that a slot becomes: mapped memory of zeros.
pub new_layer : Wish → ℕ → ℕ → Layer
new_layer wish i fd = record {
  id = pos i;
  memfd = some fd;
  pixels = some (replicate (pos_part wish.w * pos_part wish.h) 0);
  x = wish.x;
  y = wish.y;
  w = wish.w;
  h = wish.h;
  z_order = wish.z_order;
  layer_type = wish.layer_type;
  active = true;
}

abbrev with_layer : Surf → Context → ℕ → Layer → Surf
with_layer s c i l = record s { g_ctx = some (record c { layers = set c.layers i l }) }

-- The body of the search at the free slot `i`. The result is the layer's number with the descriptor
-- that goes through `memfd_out`; `none` is -1. (`pixels_out` is the layer's own memory.)
pub fill_slot : Os → Wish → Surf → Context → ℕ → Surf × Option (ℕ × ℕ)
unfolding new_layer
fill_slot os wish s c i = elim os.memfd [
  | none ↦ (s, none)
  | some fd ↦
      let opened = record s { fds = fd ∷ s.fds } in
      if not os.truncated
      then (record opened { fds = close fd opened.fds }, none)
      else if not os.mapped
      then (record opened { fds = close fd opened.fds }, none)
      else (with_layer opened c i (new_layer wish i fd), some (i, fd))
]

abbrev search : Os → Wish → Surf → Context → Surf × Option (ℕ × ℕ)
search os wish s c = elim (first_free c.layers 0) [
  | none ↦ (s, none)
  | some i ↦ fill_slot os wish s c i
]

-- `AutumnAPI_SpawnLayer`; `outs` says that neither of the two out pointers is NULL.
pub spawn_layer : Os → Bool → Wish → Surf → Surf × Option (ℕ × ℕ)
unfolding fill_slot
spawn_layer os outs wish s =
    if not outs
    then (s, none)
    else if leb_ℤ wish.w (pos 0) || leb_ℤ wish.h (pos 0)
    then (s, none)
    else elim s.g_ctx [
      | some c ↦ search os wish s c
      | none ↦ elim (initialize os s.g_width s.g_height) [
        | none ↦ (s, none)
        | some c ↦ search os wish (record s { g_ctx = some c }) c
      ]
    ]

-- `if (layer->memfd >= 0) close(layer->memfd);`
pub release : Layer → List ℕ → List ℕ
unfolding close
release l fds = elim l.memfd [ none ↦ fds | some fd ↦ close fd fds ]

-- `AutumnAPI_DestroyLayer`; the result is true for 0 and false for -1.
pub destroy_layer : ℤ → Surf → Surf × Bool
unfolding release
destroy_layer layer_id s = elim s.g_ctx [
  | none ↦ (s, false)
  | some c ↦
      let i = pos_part layer_id in
      let l = get_or c.layers i no_layer in
      if ltb_ℤ layer_id (pos 0) || leb_ℤ (pos max_surfaces) layer_id
      then (s, false)
      else if not l.active
      then (s, false)
      else (
        with_layer (record s { fds = release l s.fds }) c i (record no_layer { id = layer_id }),
        true,
      )
]

-- `AutumnAPI_GetCompositeBuffer`: width, height and pixels; `none` is NULL.
pub get_composite_buffer : Surf → Surf × Option (ℤ × ℤ × List ℕ)
get_composite_buffer s = elim s.g_ctx [
  | none ↦ (s, none)
  | some c ↦
      let c' = compose c in (record s { g_ctx = some c' }, some (c'.width, c'.height, c'.comp_buf))
]

-- `AutumnAPI_SetDisplaySize`; the result is true for 0 and false for -1.
pub set_display_size : ℤ → ℤ → Surf → Surf × Bool
set_display_size w h s = if leb_ℤ w (pos 0) || leb_ℤ h (pos 0) then (s, false) else elim s.g_ctx [
  | some c ↦ (s, false)
  | none ↦ (record s { g_width = w; g_height = h }, true)
]

pub count_active : List Layer → ℕ
count_active [] = 0
count_active (l ∷ ls) = (if l.active then 1 else 0) + count_active ls

-- `AutumnAPI_GetLayerCount`.
pub get_layer_count : Surf → ℕ
unfolding count_active
get_layer_count s = elim s.g_ctx [ none ↦ 0 | some c ↦ count_active c.layers ]
