-- ===== src/Surf/Destroy.antt =====
-- v0.1-alpha/API/libatmasurf.c: `AutixSurf_Destroy`, which ends a window manager's context. `munmap`
-- is seen by the bytes that it is told to unmap.
use autumnos_mobile.Common.{
  ℕ, ◌+◌, ◌*◌, ◌≤◌, ◌<◌, ◌≡◌, refl, ap, ◌∙◌, sym, ◌⊎◌, inl, inr, not, Option, none, some, List, [],
  ◌∷◌, ◌++◌, ◌==◌, if◌then◌else◌, arith, length, get_or, pos_part, suc,
}
use mathlib.Core.Path.{subst}
use autumnos_mobile.Surf.Types.{Layer, Context}
use autumnos_mobile.Surf.Draw.{no_layer}
use autumnos_mobile.Surf.{Surf, release, close}
use autumnos_mobile.Surf.Slots.{count, count-close, holds, held}
use autumnos_mobile.Surf.Inv.{IsFree, IsUsed, IsContext, IsValid, ContextOk, held_by}

-- `if (layer->pixels && layer->memfd >= 0) munmap(layer->pixels, size);`, where the sides of an
-- active layer are positive.
pub unmap : Layer → List ℕ
unmap l = elim l.pixels [
  | none ↦ []
  | some words ↦ elim l.memfd [ none ↦ [] | some fd ↦ pos_part l.w * pos_part l.h * 4 ∷ [] ]
]

-- The loop of `AutixSurf_Destroy`: the descriptors that stay open, and what is unmapped. The slots
-- that it clears are freed after it.
pub destroy_slots : List Layer → List ℕ → List ℕ × List ℕ
unfolding unmap release
destroy_slots [] fds = (fds, [])
destroy_slots (l ∷ ls) fds =
    let rest = destroy_slots ls (if l.active then release l fds else fds) in
    if not l.active then rest else (rest.0, unmap l ++ rest.1)

-- `AutixSurf_Destroy` of a context, or of NULL.
pub destroy : Option Context → List ℕ → List ℕ × List ℕ
unfolding destroy_slots
destroy none fds = (fds, [])
destroy (some c) fds = destroy_slots c.layers fds

-- The bytes of the memory that each active slot has mapped.
pub mapped_bytes : List Layer → List ℕ
mapped_bytes [] = []
mapped_bytes (l ∷ ls) =
    let rest = mapped_bytes ls in
    elim l.pixels [ none ↦ rest | some words ↦ if l.active then length words * 4 ∷ rest else rest ]

pub mapped_by : Option Context → List ℕ
unfolding mapped_bytes
mapped_by none = []
mapped_by (some c) = mapped_bytes c.layers

abbrev Slots : List Layer → Type 0
Slots ls = (i : ℕ) → i < length ls → IsFree (get_or ls i no_layer) ⊎ IsUsed (get_or ls i no_layer)

tail-Slots : (l : Layer) (ls : List Layer) → Slots (l ∷ ls) → Slots ls
tail-Slots l ls ok i h = ok (suc i) (omega (arith, h))

used-release :
    (k : ℕ) (l : Layer) (u : IsUsed l) (fds : List ℕ)
    → ((j : ℕ) → holds j l ≤ count j fds)
    → count k (release l fds) + holds k l ≡ count k fds
unfolding release
used-release k l u fds enough =
    let closed : 0 < count u.fd fds
        → count k (close u.fd fds) + (if u.fd == k then 1 else 0) ≡ count k fds =
      count-close k u.fd fds in
    let own = enough u.fd in ground (arith, u.has_fd, closed, own)

destroy_slots_lem :
    (ls : List Layer) (fds : List ℕ)
    → Slots ls
    → ((k : ℕ) → held k ls ≤ count k fds)
    → ((k : ℕ) → count k (destroy_slots ls fds).0 + held k ls ≡ count k fds)
      × ((destroy_slots ls fds).1 ≡ mapped_bytes ls)
unfolding destroy_slots mapped_bytes
destroy_slots_lem [] fds ok enough = (λ k. omega arith, refl)
destroy_slots_lem (l ∷ ls) fds ok enough = elim (ok 0 (omega arith)) [
  | inl f ↦
      let none_held : (k : ℕ) → holds k l ≡ 0 = λ k. ground (arith, f.no_fd) in
      let rest =
        destroy_slots_lem ls fds (tail-Slots l ls ok) (λ k. omega (arith, enough k, none_held k)) in
      (
        λ k. ground (arith, f.off, none_held k, rest.0 k),
        ground (arith, f.off, f.no_pixels, rest.1),
      )
  | inr u ↦
      let released : (k : ℕ) → count k (release l fds) + holds k l ≡ count k fds =
        λ k. used-release k l u fds (λ j. omega (arith, enough j)) in
      let rest =
        destroy_slots_lem ls (release l fds) (tail-Slots l ls ok)
          (λ k. omega (arith, enough k, released k)) in
      (
        λ k. ground (arith, u.on, released k, rest.0 k),
        simp (u.on, unmap, u.has_pixels, u.has_fd, u.sized, rest.1),
      )
]

held-count :
    (s : Surf) (c : Context)
    → s.g_ctx ≡ some c
    → IsValid s
    → (k : ℕ) → held k c.layers ≡ count k s.fds
held-count s c e v k = sym (v.no_leak k ∙ ap (held_by k) e)

-- Where the window manager's state is valid, destroying its context closes every descriptor that is
-- open, and unmaps the memory of each active slot, in the order of the slots, whole.
pub destroy-releases :
    (s : Surf)
    → IsValid s
    → ((k : ℕ) → count k (destroy s.g_ctx s.fds).0 ≡ 0)
      × ((destroy s.g_ctx s.fds).1 ≡ mapped_by s.g_ctx)
unfolding destroy mapped_by
destroy-releases s v = go s.g_ctx refl
  where
    go :
        (m : Option Context)
        → s.g_ctx ≡ m
        → ((k : ℕ) → count k (destroy m s.fds).0 ≡ 0) × ((destroy m s.fds).1 ≡ mapped_by m)
    go none e = (λ k. v.no_leak k ∙ ap (held_by k) e, refl)
    go (some c) e =
        let cv : IsContext c = subst ContextOk e v.context in
        let all =
          destroy_slots_lem c.layers s.fds (λ i h. (cv.each i (omega (arith, h, cv.slots))).1)
            (λ k. omega (arith, held-count s c e v k)) in
        (λ k. omega (arith, all.0 k, held-count s c e v k), all.1)
