-- ===== src/Display/Setup.antt =====
-- What is held after a setup of the display, and after its end.
use autumnos_mobile.Common.{
  ℕ, suc, ◌≡◌, refl, ap, ◌∙◌, ◌⊎◌, inl, inr, Bool, true, false, Option, none, some, List, [], ◌∷◌,
  ◌++◌, ◌==◌, arith, if◌then◌else◌, Bool-cases, get_or, pos, negsuc,
}
use autumnos_mobile.Display.{
  Resource, card, resources, connector, property, mapping, Call, acquired, released, dumb_buffer,
  framebuffer, set_property, Connector, Os, Drm, Done, usable, find_connector, set_up, from_found,
  drm_init, hal_fbexit, give_back,
}

abbrev pub same : Resource → Resource → Bool
same card card = true
same resources resources = true
same (connector a) (connector b) = a == b
same (property a) (property b) = a == b
same (dumb_buffer a) (dumb_buffer b) = a == b
same (framebuffer a) (framebuffer b) = a == b
same mapping mapping = true
same _ _ = false

abbrev pub without : Resource → List Resource → List Resource
without r [] = []
without r (h ∷ held) = if same h r then held else h ∷ without r held

-- What is held after some calls.
abbrev pub holding : List Resource → List Call → List Resource
holding held [] = held
holding held (acquired r ∷ calls) = holding (r ∷ held) calls
holding held (released r ∷ calls) = holding (without r held) calls
holding held (set_property c p v ∷ calls) = holding held calls

pub holding-append :
    (held : List Resource) (a b : List Call) → holding held (a ++ b) ≡ holding (holding held a) b
holding-append held [] b = refl
holding-append held (acquired r ∷ a) b = holding-append (r ∷ held) a b
holding-append held (released r ∷ a) b = holding-append (without r held) a b
holding-append held (set_property c p v ∷ a) b = holding-append held a b

pub freed : (i : ℕ) (held : List Resource) → without (connector i) (connector i ∷ held) ≡ held
freed i held = ground arith

-- The connector that a search keeps is held, and no other.
abbrev keeps : Option (ℕ × Connector) → List Resource → List Resource
keeps none held = held
keeps (some (i, c)) held = connector i ∷ held

find_connector-holding :
    (cs : List (Option Connector)) (i : ℕ) (held : List Resource)
    → holding held (find_connector cs i).1 ≡ keeps (find_connector cs i).0 held
unfolding find_connector
find_connector-holding [] i held = refl
find_connector-holding (none ∷ cs) i held = find_connector-holding cs (suc i) held
find_connector-holding (some c ∷ cs) i held = elim (Bool-cases (usable c)) [
  | inl kept ↦ rw kept refl
  | inr passed ↦ rw passed (
      ap (λ h. holding h (find_connector cs (suc i)).1) (freed i held)
      ∙ find_connector-holding cs (suc i) held)
]

-- The kept connector is the first that is there, connected and with a mode.
abbrev pub FirstUsable : List (Option Connector) → Option Connector → Type 0
FirstUsable [] out = out ≡ none
FirstUsable (none ∷ cs) out = FirstUsable cs out
FirstUsable (some c ∷ cs) out =
    ((usable c ≡ true) × (out ≡ some c)) ⊎ ((usable c ≡ false) × FirstUsable cs out)

abbrev second : Option (ℕ × Connector) → Option Connector
second none = none
second (some (i, c)) = some c

find_connector-FirstUsable :
    (cs : List (Option Connector)) (i : ℕ) → FirstUsable cs (second (find_connector cs i).0)
unfolding find_connector
find_connector-FirstUsable [] i = refl
find_connector-FirstUsable (none ∷ cs) i = find_connector-FirstUsable cs (suc i)
find_connector-FirstUsable (some c ∷ cs) i = elim (Bool-cases (usable c)) [
  | inl kept ↦ rw kept (inl (refl, refl))
  | inr passed ↦ rw passed (inr (refl, find_connector-FirstUsable cs (suc i)))
]

-- Up to the connector: the file, the list, and the connector are held.
abbrev before : List (Option Connector) → List Call
before cs = acquired card ∷ acquired resources ∷ (find_connector cs 0).1

-- A file, a list, a connector, a buffer, a framebuffer and a mapping are held from the call that takes
-- them to the one that gives them back. A setup that fails still holds the buffer from where that is
-- made, and then the framebuffer and the mapping. One that succeeds has the size of the first mode of
-- the kept connector, and holds these three and the file; the end of the display after it gives the
-- mapping and the file back, not the framebuffer, and the buffer only if its handle is the one that
-- was in the context before.
pub data Outcome (os : Os) (ctx : Drm) (conn : Option Connector) (done : Done) : Type 0 where
  nothing_made :
      (os.opens ≡ false) ⊎ ((conn ≡ none) ⊎ (os.dumb ≡ none))
      → done.result ≡ negsuc 0
      → holding [] done.calls ≡ []
      → Outcome os ctx conn done
  no_framebuffer :
      (pitch size h : ℕ)
      → os.dumb ≡ some (pitch, size, h)
      → os.fb ≡ none
      → done.result ≡ negsuc 0
      → holding [] done.calls ≡ dumb_buffer h ∷ []
      → Outcome os ctx conn done
  not_mapped :
      (pitch size h f : ℕ)
      → os.dumb ≡ some (pitch, size, h)
      → os.fb ≡ some f
      → os.mapped ≡ false
      → done.result ≡ negsuc 0
      → holding [] done.calls ≡ framebuffer f ∷ dumb_buffer h ∷ []
      → Outcome os ctx conn done
  not_switched :
      (pitch size h f : ℕ)
      → os.dumb ≡ some (pitch, size, h)
      → os.fb ≡ some f
      → os.mapped ≡ true
      → os.crtc_set ≡ false
      → done.result ≡ negsuc 0
      → holding [] done.calls ≡ mapping ∷ framebuffer f ∷ dumb_buffer h ∷ []
      → Outcome os ctx conn done
  runs :
      (c : Connector) (pitch size h f : ℕ)
      → conn ≡ some c
      → os.dumb ≡ some (pitch, size, h)
      → os.fb ≡ some f
      → done.result ≡ pos 0
      → (done.ctx.width, done.ctx.height) ≡ get_or c.modes 0 (0, 0)
      → holding [] done.calls ≡ mapping ∷ framebuffer f ∷ dumb_buffer h ∷ card ∷ []
      → holding (mapping ∷ framebuffer f ∷ dumb_buffer h ∷ card ∷ []) (hal_fbexit done.ctx)
        ≡ framebuffer f ∷ (if h == ctx.handle then [] else dumb_buffer h ∷ [])
      → Outcome os ctx conn done

pub goes_on :
    {held out : List Resource} (calls more : List Call)
    → holding [] calls ≡ held
    → holding held more ≡ out
    → holding [] (calls ++ more) ≡ out
goes_on calls more e f = holding-append [] calls more ∙ (ap (λ h. holding h more) e ∙ f)

abbrev pub held_with : ℕ → List Resource
held_with i = connector i ∷ resources ∷ card ∷ []

pub given_back : (i : ℕ) → holding (held_with i) (give_back i) ≡ []
given_back i =
    ap (λ h. holding h (released resources ∷ released card ∷ [])) (freed i (resources ∷ card ∷ []))

abbrev answers :
    Bool
    → List ℕ
    → Option (ℕ × ℕ × ℕ)
    → Option ℕ
    → Bool
    → Bool
    → Option (List (Option Connector))
    → Os
answers opens crtcs dumb fb mapped crtc_set cs = record {
  opens = opens;
  connectors = cs;
  crtcs = crtcs;
  dumb = dumb;
  fb = fb;
  mapped = mapped;
  crtc_set = crtc_set;
}

module _ (crtcs : List ℕ) (cs : Option (List (Option Connector))) (ctx : Drm) (i : ℕ)
    (c : Connector) (calls : List Call) (e : holding [] calls ≡ held_with i) where
  made :
      (h f : ℕ)
      → holding [] ((calls ++ acquired (dumb_buffer h) ∷ []) ++ acquired (framebuffer f) ∷ [])
        ≡ framebuffer f ∷ dumb_buffer h ∷ held_with i
  made h f =
      goes_on (calls ++ acquired (dumb_buffer h) ∷ []) (acquired (framebuffer f) ∷ [])
        (goes_on calls (acquired (dumb_buffer h) ∷ []) e refl) refl

  abbrev all_made : ℕ → ℕ → List Call
  all_made h f =
      ((calls ++ acquired (dumb_buffer h) ∷ []) ++ acquired (framebuffer f) ∷ [])
      ++ acquired mapping ∷ []

  shown :
      (h f : ℕ) → holding [] (all_made h f) ≡ mapping ∷ framebuffer f ∷ dumb_buffer h ∷ held_with i
  shown h f =
      goes_on ((calls ++ acquired (dumb_buffer h) ∷ []) ++ acquired (framebuffer f) ∷ [])
        (acquired mapping ∷ []) (made h f) refl

  ended :
      (h f : ℕ)
      → holding
          (mapping ∷ framebuffer f ∷ dumb_buffer h ∷ card ∷ [])
          (released (dumb_buffer ctx.handle) ∷ released mapping ∷ released card ∷ [])
        ≡ framebuffer f ∷ (if h == ctx.handle then [] else dumb_buffer h ∷ [])
  ended h f = elim (Bool-cases (h == ctx.handle)) [ inl own ↦ rw own refl | inr old ↦ rw old refl ]

  set_up_cases :
      (dumb : Option (ℕ × ℕ × ℕ)) (fb : Option ℕ) (mapped crtc_set : Bool)
      → let os = answers true crtcs dumb fb mapped crtc_set cs in
        Outcome os ctx (some c) (set_up os ctx i c calls)
  unfolding set_up hal_fbexit
  set_up_cases none fb m s =
      Outcome.nothing_made (inr (inr refl)) refl (goes_on calls (give_back i) e (given_back i))
  set_up_cases (some (p, z, h)) none m s = Outcome.no_framebuffer p z h refl refl refl (
      goes_on (calls ++ acquired (dumb_buffer h) ∷ []) (give_back i)
        (goes_on calls (acquired (dumb_buffer h) ∷ []) e refl)
        (ap (λ t. holding (dumb_buffer h ∷ t) (released resources ∷ released card ∷ []))
          (freed i (resources ∷ card ∷ []))))
  set_up_cases (some (p, z, h)) (some f) false s = Outcome.not_mapped p z h f refl refl refl refl (
      goes_on ((calls ++ acquired (dumb_buffer h) ∷ []) ++ acquired (framebuffer f) ∷ [])
        (give_back i) (made h f)
        (ap
          (λ t.
            holding (framebuffer f ∷ dumb_buffer h ∷ t) (released resources ∷ released card ∷ []))
          (freed i (resources ∷ card ∷ []))))
  set_up_cases (some (p, z, h)) (some f) true false =
      Outcome.not_switched p z h f refl refl refl refl refl (
        goes_on (all_made h f) (give_back i) (shown h f) (
          ap
            (λ t.
              holding (mapping ∷ framebuffer f ∷ dumb_buffer h ∷ t)
                (released resources ∷ released card ∷ []))
            (freed i (resources ∷ card ∷ []))))
  set_up_cases (some (p, z, h)) (some f) true true =
      Outcome.runs c p z h f refl refl refl refl refl
        (goes_on (all_made h f) (released (connector i) ∷ released resources ∷ []) (shown h f) (
          ap (λ t. holding (mapping ∷ framebuffer f ∷ dumb_buffer h ∷ t) (released resources ∷ []))
            (freed i (resources ∷ card ∷ []))))
        (ended h f)

abbrev pub Chosen : Option (List (Option Connector)) → Option Connector → Type 0
Chosen none out = out ≡ none
Chosen (some cs) out = FirstUsable cs out

drm_init_cases :
    (opens : Bool) (connectors : Option (List (Option Connector))) (crtcs : List ℕ)
    (dumb : Option (ℕ × ℕ × ℕ)) (fb : Option ℕ) (mapped crtc_set : Bool) (ctx : Drm)
    → let os = answers opens crtcs dumb fb mapped crtc_set connectors in
      (conn : Option Connector) × Chosen connectors conn × Outcome os ctx conn (drm_init os ctx)
unfolding drm_init
drm_init_cases false none crtcs dumb fb m s ctx =
    (none, refl, Outcome.nothing_made (inl refl) refl refl)
drm_init_cases false (some cs) crtcs dumb fb m s ctx =
    (_, find_connector-FirstUsable cs 0, Outcome.nothing_made (inl refl) refl refl)
drm_init_cases true none crtcs dumb fb m s ctx =
    (none, refl, Outcome.nothing_made (inr (inl refl)) refl refl)
drm_init_cases true (some cs) crtcs dumb fb m s ctx = (
  second (find_connector cs 0).0,
  find_connector-FirstUsable cs 0,
  go (find_connector cs 0).0 (find_connector-holding cs 0 (resources ∷ card ∷ [])),
)
  where
    go :
        (found : Option (ℕ × Connector))
        → holding [] (before cs) ≡ keeps found (resources ∷ card ∷ [])
        → let os = answers true crtcs dumb fb m s (some cs) in
          Outcome os ctx (second found) (from_found os ctx (before cs) found)
    go none e =
        Outcome.nothing_made (inr (inl refl)) refl
          (goes_on (before cs) (released resources ∷ released card ∷ []) e refl)
    go (some (i, c)) e = set_up_cases crtcs (some cs) ctx i c (before cs) e dumb fb m s

-- On every answer of the system, `Outcome` says what a setup of the display returns and what its calls
-- have taken and not given back; what the kernel gives back by itself when the file is closed does
-- not count. A setup that fails always gives back the connector, the list and the file, but leaves the
-- buffer, the framebuffer and the mapping that it has made by then. The size is that of the first
-- mode of the first connector that is connected and has one. The end of the display after a setup
-- destroys the handle that was in the context before the setup, which does not store that of its
-- buffer.
pub drm_init-Outcome :
    (os : Os) (ctx : Drm)
    → (conn : Option Connector) × Chosen os.connectors conn × Outcome os ctx conn (drm_init os ctx)
drm_init-Outcome os ctx =
    drm_init_cases os.opens os.connectors os.crtcs os.dumb os.fb os.mapped os.crtc_set ctx
