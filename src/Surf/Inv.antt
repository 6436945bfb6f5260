-- ===== src/Surf/Inv.antt =====
-- The invariant of the layer table, kept by every call of the API, whatever the system answers.
use autumnos_mobile.Common.{
  ℕ, ◌+◌, ◌*◌, ◌<◌, ◌≡◌, refl, ap, sym, ◌∙◌, ◌⊎◌, inl, inr, true, false, Option, none, some, List,
  ◌∷◌, ◌==◌, if◌then◌else◌, arith, length, get_or, set, length-set, get_or-set_self, get_or-set_ne,
  replicate, length-replicate, ℤ, pos, pos_part, ◌<ℤ◌,
}
use mathlib.Core.Path.{subst}
use native.Mathlib.Decide.{ℕ_discrete}
use autumnos_mobile.Surf.Types.{Layer, Context, max_surfaces}
use autumnos_mobile.Surf.Draw.{no_layer}
use autumnos_mobile.Surf.{
  Surf, Os, Wish, start, init_context, initialize, close, new_layer, with_layer,
}
use autumnos_mobile.Surf.Slots.{
  count, holds, held, held-set, IsFirstFree, init_layers_lem, get-init_layers,
}

-- A slot is free and holds nothing, or is a layer with a descriptor and memory of its size.
pub record IsFree (l : Layer) : Type 0 where
  pub off : l.active ≡ false
  pub no_fd : l.memfd ≡ none
  pub no_pixels : l.pixels ≡ none

pub record IsUsed (l : Layer) : Type 0 where
  pub on : l.active ≡ true
  pub wide : pos 0 <ℤ l.w
  pub high : pos 0 <ℤ l.h
  pub fd : ℕ
  pub has_fd : l.memfd ≡ some fd
  pub memory : List ℕ
  pub has_pixels : l.pixels ≡ some memory
  pub sized : length memory ≡ pos_part l.w * pos_part l.h

-- The slot `i` of a table, with its number.
abbrev pub LayerOk : Layer → ℕ → Type 0
LayerOk l i = (l.id ≡ pos i) × (IsFree l ⊎ IsUsed l)

abbrev pub SlotOk : List Layer → ℕ → Type 0
SlotOk ls i = LayerOk (get_or ls i no_layer) i

pub record IsContext (c : Context) : Type 0 where
  pub slots : length c.layers ≡ max_surfaces
  pub each : (i : ℕ) → i < max_surfaces → SlotOk c.layers i
  pub wide : pos 0 <ℤ c.width
  pub high : pos 0 <ℤ c.height

-- The descriptors of a table of layers, or of none.
abbrev pub held_by : ℕ → Option Context → ℕ
held_by k none = 0
held_by k (some c) = held k c.layers

abbrev pub ContextOk : Option Context → Type 0
ContextOk none = Unit {0}
ContextOk (some c) = IsContext c

-- Every slot is sound, and the descriptors that are open are those that the layers hold, each as
-- often.
pub record IsValid (s : Surf) : Type 0 where
  pub context : ContextOk s.g_ctx
  pub g_wide : pos 0 <ℤ s.g_width
  pub g_high : pos 0 <ℤ s.g_height
  pub no_leak : (k : ℕ) → count k s.fds ≡ held_by k s.g_ctx

pub start-IsValid : IsValid start
start-IsValid = record {
  context = tt;
  g_wide = omega arith;
  g_high = omega arith;
  no_leak = λ k. refl;
}

-- A table with one slot changed.
set-SlotOk :
    (ls : List Layer) (i j : ℕ) (l : Layer)
    → i < length ls
    → LayerOk l i
    → SlotOk ls j
    → SlotOk (set ls i l) j
set-SlotOk ls i j l h new old = elim (ℕ_discrete i j) [
  | yes same ↦
      subst (λ k. SlotOk (set ls i l) k) same
        (subst (λ m. LayerOk m i) (sym (get_or-set_self ls i l no_layer h)) new)
  | no other ↦ subst (λ m. LayerOk m j) (sym (get_or-set_ne ls i j l no_layer other)) old
]

pub no_layer-IsFree : (k : ℤ) → IsFree (record no_layer { id = k })
no_layer-IsFree k = record { off = refl; no_fd = refl; no_pixels = refl }

pub init_context-IsContext : (w h : ℤ) → pos 0 <ℤ w → pos 0 <ℤ h → IsContext (init_context w h)
init_context-IsContext w h wide high = record {
  slots = (init_layers_lem max_surfaces 0).0;
  each = λ i lt.
      subst (λ m. LayerOk m i) (sym (get-init_layers max_surfaces 0 i lt ∙ zeroth i))
        (refl, inl (no_layer-IsFree (pos i)));
  wide = wide;
  high = high;
}
  where
    zeroth : (i : ℕ) → record no_layer { id = pos (0 + i) } ≡ record no_layer { id = pos i }
    zeroth i = let same : 0 + i ≡ i = omega arith in ap (λ k. record no_layer { id = pos k }) same

pub initialize-cases :
    (os : Os) (w h : ℤ) → (initialize os w h ≡ none) ⊎ (initialize os w h ≡ some (init_context w h))
unfolding initialize
initialize-cases os w h = ground arith

-- A descriptor that is opened and closed again leaves the open ones as they were.
pub close-same : (fd : ℕ) (fds : List ℕ) → close fd (fd ∷ fds) ≡ fds
unfolding close
close-same fd fds = ground arith

pub set-IsContext :
    (c : Context) (i : ℕ) (l : Layer)
    → IsContext c
    → i < max_surfaces
    → LayerOk l i
    → IsContext (record c { layers = set c.layers i l })
set-IsContext c i l v lt ok = record {
  slots = length-set c.layers i l ∙ v.slots;
  each = λ j h. set-SlotOk c.layers i j l (omega (arith, v.slots)) ok (v.each j h);
  wide = v.wide;
  high = v.high;
}

-- What a free slot holds, and a used one.
free-holds : (k : ℕ) (l : Layer) → IsFree l → holds k l ≡ 0
free-holds k l f = ground (arith, f.no_fd)

-- A slot that is not active is free.
off-IsFree : (l : Layer) {i : ℕ} → LayerOk l i → l.active ≡ false → IsFree l
off-IsFree l (_, inl f) off = f
off-IsFree l (_, inr u) off = absurd (ground (arith, u.on, off))

pub on-IsUsed : (l : Layer) {i : ℕ} → LayerOk l i → l.active ≡ true → IsUsed l
on-IsUsed l (_, inl f) on = absurd (ground (arith, f.off, on))
on-IsUsed l (_, inr u) on = u

new_layer-IsUsed :
    (wish : Wish) (i fd : ℕ) → pos 0 <ℤ wish.w → pos 0 <ℤ wish.h → LayerOk (new_layer wish i fd) i
unfolding new_layer
new_layer-IsUsed wish i fd wide high = (
  refl,
  inr (record {
    on = refl;
    wide = wide;
    high = high;
    fd = fd;
    has_fd = refl;
    memory = replicate (pos_part wish.w * pos_part wish.h) 0;
    has_pixels = refl;
    sized = length-replicate (pos_part wish.w * pos_part wish.h) 0;
  }),
)

new_layer-holds :
    (wish : Wish) (i fd k : ℕ) → holds k (new_layer wish i fd) ≡ (if fd == k then 1 else 0)
unfolding new_layer
new_layer-holds wish i fd k = refl

pub filled-IsValid :
    (wish : Wish) (s : Surf) (c : Context) (i fd : ℕ)
    → s.g_ctx ≡ some c
    → IsValid s
    → pos 0 <ℤ wish.w
    → pos 0 <ℤ wish.h
    → IsFirstFree c.layers i
    → IsValid (with_layer (record s { fds = fd ∷ s.fds }) c i (new_layer wish i fd))
filled-IsValid wish s c i fd e v wide high first =
    let cv : IsContext c = subst ContextOk e v.context in
    let lt : i < max_surfaces = omega (arith, first.in_table, cv.slots) in
    let free = off-IsFree (get_or c.layers i no_layer) (cv.each i lt) first.free in
    record {
      context =
          set-IsContext c i (new_layer wish i fd) cv lt (new_layer-IsUsed wish i fd wide high);
      g_wide = v.g_wide;
      g_high = v.g_high;
      no_leak = λ k.
          let before : count k s.fds ≡ held k c.layers = v.no_leak k ∙ ap (held_by k) e in
          omega (
            arith,
            before,
            held-set k c.layers i (new_layer wish i fd) first.in_table,
            free-holds k (get_or c.layers i no_layer) free,
            new_layer-holds wish i fd k,
          );
    }
