-- ===== src/Display/Hdmi.antt =====
-- What hdmi.c does to a screen, and what it leaves held.
use autumnos_mobile.Common.{
  ℕ, suc, ◌≡◌, refl, ap, ◌∙◌, inl, inr, Bool, true, false, Option, none, some, List, [], ◌∷◌, ◌++◌,
  ◌==◌, arith, if◌then◌else◌, Bool-cases, text_eq, codes, append-nil,
}
use autumnos_mobile.Display.{
  Resource, card, resources, connector, property, Call, acquired, released, set_property, Property,
  Connector, find_connected, switch_on, from_connected, hal_hdmiact, give_back,
}
use autumnos_mobile.Display.Setup.{
  without, holding, holding-append, freed, goes_on, held_with, given_back,
}

-- The settings among some calls: connector, property and value.
abbrev pub settings : List Call → List (ℕ × ℕ × ℕ)
settings [] = []
settings (acquired r ∷ calls) = settings calls
settings (released r ∷ calls) = settings calls
settings (set_property c p v ∷ calls) = (c, p, v) ∷ settings calls

settings-append : (a b : List Call) → settings (a ++ b) ≡ settings a ++ settings b
settings-append [] b = refl
settings-append (acquired r ∷ a) b = settings-append a b
settings-append (released r ∷ a) b = settings-append a b
settings-append (set_property c p v ∷ a) b = ap (λ t. (c, p, v) ∷ t) (settings-append a b)

-- The properties that are called DPMS, switched on.
abbrev dpms_on : ℕ → List (Option Property) → List (ℕ × ℕ × ℕ)
dpms_on id [] = []
dpms_on id (none ∷ ps) = dpms_on id ps
dpms_on id (some p ∷ ps) =
    let rest = dpms_on id ps in
    if text_eq p.name (codes "DPMS") then (id, p.prop_id, 0) ∷ rest else rest

freed_prop : (i : ℕ) (held : List Resource) → without (property i) (property i ∷ held) ≡ held
freed_prop i held = ground arith

switch_on-settings :
    (id : ℕ) (ps : List (Option Property)) (i : ℕ) → settings (switch_on id ps i) ≡ dpms_on id ps
unfolding switch_on
switch_on-settings id [] i = refl
switch_on-settings id (none ∷ ps) i = switch_on-settings id ps (suc i)
switch_on-settings id (some p ∷ ps) i = elim (Bool-cases (text_eq p.name (codes "DPMS"))) [
  | inl on ↦ rw on (ap (λ t. (id, p.prop_id, 0) ∷ t) (switch_on-settings id ps (suc i)))
  | inr off ↦ rw off (switch_on-settings id ps (suc i))
]

switch_on-holding :
    (id : ℕ) (ps : List (Option Property)) (i : ℕ) (held : List Resource)
    → holding held (switch_on id ps i) ≡ held
unfolding switch_on
switch_on-holding id [] i held = refl
switch_on-holding id (none ∷ ps) i held = switch_on-holding id ps (suc i) held
switch_on-holding id (some p ∷ ps) i held = elim (Bool-cases (text_eq p.name (codes "DPMS"))) [
  | inl on ↦ rw on (
      ap (λ h. holding h (switch_on id ps (suc i))) (freed_prop i held)
      ∙ switch_on-holding id ps (suc i) held)
  | inr off ↦ rw off (
      ap (λ h. holding h (switch_on id ps (suc i))) (freed_prop i held)
      ∙ switch_on-holding id ps (suc i) held)
]

abbrev keeps : Option (ℕ × Connector) → List Resource → List Resource
keeps none held = held
keeps (some (i, c)) held = connector i ∷ held

find_connected-holding :
    (cs : List (Option Connector)) (i : ℕ) (held : List Resource)
    → holding held (find_connected cs i).1 ≡ keeps (find_connected cs i).0 held
unfolding find_connected
find_connected-holding [] i held = refl
find_connected-holding (none ∷ cs) i held = find_connected-holding cs (suc i) held
find_connected-holding (some c ∷ cs) i held = elim (Bool-cases c.connected) [
  | inl kept ↦ rw kept refl
  | inr passed ↦ rw passed (
      ap (λ h. holding h (find_connected cs (suc i)).1) (freed i held)
      ∙ find_connected-holding cs (suc i) held)
]

find_connected-settings :
    (cs : List (Option Connector)) (i : ℕ) → settings (find_connected cs i).1 ≡ []
unfolding find_connected
find_connected-settings [] i = refl
find_connected-settings (none ∷ cs) i = find_connected-settings cs (suc i)
find_connected-settings (some c ∷ cs) i = elim (Bool-cases c.connected) [
  | inl kept ↦ rw kept refl
  | inr passed ↦ rw passed (find_connected-settings cs (suc i))
]

-- The settings that switch on the first connected screen, where its number is not 0.
abbrev wanted : List (Option Connector) → List (ℕ × ℕ × ℕ)
wanted [] = []
wanted (none ∷ cs) = wanted cs
wanted (some c ∷ cs) =
    let rest = wanted cs in
    if c.connected
    then (if c.connector_id == 0 then [] else dpms_on c.connector_id c.props)
    else rest

abbrev set_on : Option (ℕ × Connector) → List (ℕ × ℕ × ℕ)
set_on none = []
set_on (some (i, c)) = if c.connector_id == 0 then [] else dpms_on c.connector_id c.props

find_connected-wanted :
    (cs : List (Option Connector)) (i : ℕ) → set_on (find_connected cs i).0 ≡ wanted cs
unfolding find_connected
find_connected-wanted [] i = refl
find_connected-wanted (none ∷ cs) i = find_connected-wanted cs (suc i)
find_connected-wanted (some c ∷ cs) i = elim (Bool-cases c.connected) [
  | inl kept ↦ rw kept refl
  | inr passed ↦ rw passed (find_connected-wanted cs (suc i))
]

-- No connector has the number 0.
abbrev Numbered : List (Option Connector) → Type 0
Numbered [] = Unit {0}
Numbered (none ∷ cs) = Numbered cs
Numbered (some c ∷ cs) = ((c.connector_id == 0) ≡ false) × Numbered cs

abbrev NumberedFound : Option (ℕ × Connector) → Type 0
NumberedFound none = Unit {0}
NumberedFound (some (i, c)) = (c.connector_id == 0) ≡ false

find_connected-Numbered :
    (cs : List (Option Connector)) (i : ℕ) → Numbered cs → NumberedFound (find_connected cs i).0
unfolding find_connected
find_connected-Numbered [] i h = tt
find_connected-Numbered (none ∷ cs) i h = find_connected-Numbered cs (suc i) h
find_connected-Numbered (some c ∷ cs) i h = elim (Bool-cases c.connected) [
  | inl kept ↦ rw kept h.0
  | inr passed ↦ rw passed (find_connected-Numbered cs (suc i) h.1)
]

from_connected_lem :
    (calls : List Call) (found : Option (ℕ × Connector))
    → NumberedFound found
    → holding [] calls ≡ keeps found (resources ∷ card ∷ [])
    → settings calls ≡ []
    → (holding [] (from_connected calls found) ≡ [])
      × (settings (from_connected calls found) ≡ set_on found)
unfolding from_connected
from_connected_lem calls none n e s = (
  goes_on calls (released resources ∷ released card ∷ []) e refl,
  settings-append calls (released resources ∷ released card ∷ []) ∙ ap (λ t. t ++ []) s,
)
from_connected_lem calls (some (i, c)) n e s =
    let on = switch_on c.connector_id c.props 0 in
    rw n (
      goes_on calls (on ++ give_back i) e (
          holding-append (held_with i) on (give_back i)
          ∙ (ap (λ h. holding h (give_back i))
                (switch_on-holding c.connector_id c.props 0 (held_with i))
              ∙ given_back i)),
      settings-append calls (on ++ give_back i)
          ∙ (ap (λ t. t ++ settings (on ++ give_back i)) s
              ∙ (settings-append on (give_back i)
                  ∙ (append-nil (settings on) ∙ switch_on-settings c.connector_id c.props 0))),
    )

abbrev wanted_of : Bool → Option (List (Option Connector)) → List (ℕ × ℕ × ℕ)
wanted_of false connectors = []
wanted_of true none = []
wanted_of true (some cs) = wanted cs

abbrev AllNumbered : Option (List (Option Connector)) → Type 0
AllNumbered none = Unit {0}
AllNumbered (some cs) = Numbered cs

-- Where libdrm numbers no connector 0, activating HDMI switches on every property called DPMS of
-- the first connector that is connected, of no other, and changes nothing else; it gives back all
-- that it took, whether or not the card opens and has such a connector.
pub hal_hdmiact_lem :
    (opens : Bool) (connectors : Option (List (Option Connector)))
    → AllNumbered connectors
    → (holding [] (hal_hdmiact opens connectors) ≡ [])
      × (settings (hal_hdmiact opens connectors) ≡ wanted_of opens connectors)
unfolding hal_hdmiact
hal_hdmiact_lem false none n = (refl, refl)
hal_hdmiact_lem false (some cs) n = (refl, refl)
hal_hdmiact_lem true none n = (refl, refl)
hal_hdmiact_lem true (some cs) n =
    let found = find_connected cs 0 in
    let done =
      from_connected_lem (acquired card ∷ acquired resources ∷ found.1) found.0
        (find_connected-Numbered cs 0 n) (find_connected-holding cs 0 (resources ∷ card ∷ []))
        (find_connected-settings cs 0) in
    (done.0, done.1 ∙ find_connected-wanted cs 0)
