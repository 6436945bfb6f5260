-- ===== src/Display.antt =====
-- The display: v0.1-alpha/src/HAL/drm.c, which sets up the screen, the end and the searches of
-- v0.1-alpha/src/HAL/fb_dev.c, and v0.1-alpha/src/HAL/hdmi.c. The answers of the system and of libdrm
-- are arguments; what is asked for and given back is recorded in order.
pub mod Setup
pub mod Hdmi
mod Tests
use autumnos_mobile.Common.{
  ℕ, suc, ◌+◌, ◌≡◌, refl, Bool, true, false, not, ◌&&◌, Option, none, some, List, [], ◌∷◌, ◌++◌,
  ◌==◌, if◌then◌else◌, get_or, length, ltb, ℤ, pos, negsuc, text_eq, codes, leb,
}

-- What is held: the card's file, the list of its resources, a connector and a property by their
-- numbers in the lists, and the mapped memory.
pub data Resource : Type 0 where
  card : Resource
  resources : Resource
  connector : ℕ → Resource
  property : ℕ → Resource
  dumb_buffer : ℕ → Resource
  framebuffer : ℕ → Resource
  mapping : Resource

pub data Call : Type 0 where
  acquired : Resource → Call
  released : Resource → Call
  set_property : ℕ → ℕ → ℕ → Call

pub record Property : Type 0 where
  pub prop_id : ℕ
  pub name : List ℕ

-- A mode is its `hdisplay` and `vdisplay`; a property is none where drmModeGetProperty gives NULL.
pub record Connector : Type 0 where
  pub connector_id : ℕ
  pub connected : Bool
  pub modes : List (ℕ × ℕ)
  pub props : List (Option Property)

-- The answers to one `DRMinit`; the answers of the ioctl for the buffer are pitch, size and handle.
pub record Os : Type 0 where
  pub opens : Bool
  pub connectors : Option (List (Option Connector))
  pub crtcs : List ℕ
  pub dumb : Option (ℕ × ℕ × ℕ)
  pub fb : Option ℕ
  pub mapped : Bool
  pub crtc_set : Bool

-- The fields of `DRMStruct` that these functions use; `ptr` says whether the memory is mapped.
pub record Drm : Type 0 where
  pub width : ℕ
  pub height : ℕ
  pub crtc_id : ℕ
  pub stride : ℕ
  pub size : ℕ
  pub handle : ℕ
  pub fb_id : ℕ
  pub ptr : Bool

-- `conn->connection == DRM_MODE_CONNECTED && conn->count_modes > 0`.
pub usable : Connector → Bool
usable c = c.connected && ltb 0 (length c.modes)

-- The loop of `DRMinit` over the connectors from connector `i` on: the one that it keeps.
pub find_connector : List (Option Connector) → ℕ → Option (ℕ × Connector) × List Call
unfolding usable
find_connector [] i = (none, [])
find_connector (none ∷ cs) i = find_connector cs (suc i)
find_connector (some c ∷ cs) i =
    let rest = find_connector cs (suc i) in
    if usable c
    then (some (i, c), acquired (connector i) ∷ [])
    else (rest.0, acquired (connector i) ∷ released (connector i) ∷ rest.1)

-- What `DRMinit` returns, its context, and the calls.
pub record Done : Type 0 where
  pub result : ℤ
  pub ctx : Drm
  pub calls : List Call

abbrev give_back : ℕ → List Call
give_back i = released (connector i) ∷ released resources ∷ released card ∷ []

abbrev failed : Drm → List Call → Done
failed ctx calls = record { result = negsuc 0; ctx = ctx; calls = calls }

-- `DRMinit` from the connector on. A new handle stays in a variable of the function.
pub set_up : Os → Drm → ℕ → Connector → List Call → Done
set_up os ctx i conn calls =
    let mode = get_or conn.modes 0 (0, 0) in
    let ctx1 : Drm = record ctx {
      width = mode.0;
      height = mode.1;
      crtc_id = get_or os.crtcs 0 0;
    } in
    elim os.dumb [
      | none ↦ failed ctx1 (calls ++ give_back i)
      | some (pitch, size, handle) ↦
          let ctx2 : Drm = record ctx1 { stride = pitch; size = size } in
          let made = calls ++ acquired (dumb_buffer handle) ∷ [] in
          elim os.fb [
            | none ↦ failed ctx2 (made ++ give_back i)
            | some fb_id ↦
                let ctx3 : Drm = record ctx2 { fb_id = fb_id; ptr = os.mapped } in
                let with_fb = made ++ acquired (framebuffer fb_id) ∷ [] in
                if not os.mapped
                then failed ctx3 (with_fb ++ give_back i)
                else (let shown = with_fb ++ acquired mapping ∷ [] in
                    if not os.crtc_set then failed ctx3 (shown ++ give_back i) else record {
                      result = pos 0;
                      ctx = ctx3;
                      calls = shown ++ released (connector i) ∷ released resources ∷ [];
                    })
          ]
    ]

-- What follows the loop.
pub from_found : Os → Drm → List Call → Option (ℕ × Connector) → Done
unfolding set_up
from_found os ctx calls none = failed ctx (calls ++ released resources ∷ released card ∷ [])
from_found os ctx calls (some (i, conn)) = set_up os ctx i conn calls

-- `DRMinit`.
pub drm_init : Os → Drm → Done
unfolding find_connector from_found
drm_init os ctx = if not os.opens then failed ctx [] else elim os.connectors [
  | none ↦ failed ctx (acquired card ∷ released card ∷ [])
  | some cs ↦
      let found = find_connector cs 0 in
      from_found os ctx (acquired card ∷ acquired resources ∷ found.1) found.0
]

-- `hal_fbexit`.
pub hal_fbexit : Drm → List Call
hal_fbexit ctx = released (dumb_buffer ctx.handle) ∷ released mapping ∷ released card ∷ []

-- The globals `screen_width` and `screen_height` of fb_dev.c, and the calls of `hal_drmres`.
pub record Measured : Type 0 where
  pub screen : ℕ × ℕ
  pub calls : List Call

-- The loop of `hal_drmres` from connector `i` on.
pub measure : (ℕ × ℕ) → List (Option Connector) → ℕ → Measured
unfolding usable
measure screen [] i = record { screen = screen; calls = [] }
measure screen (none ∷ cs) i = measure screen cs (suc i)
measure screen (some c ∷ cs) i =
    let rest = measure screen cs (suc i) in
    let both = acquired (connector i) ∷ released (connector i) ∷ [] in
    if usable c
    then record { screen = get_or c.modes 0 (0, 0); calls = both }
    else record { screen = rest.screen; calls = both ++ rest.calls }

pub hal_drmres : Option (List (Option Connector)) → (ℕ × ℕ) → Measured
unfolding measure
hal_drmres none screen = record { screen = screen; calls = [] }
hal_drmres (some cs) screen =
    let m = measure screen cs 0 in
    record { screen = m.screen; calls = acquired resources ∷ m.calls ++ released resources ∷ [] }

-- The loop of `get_prop_id` from property `i` on.
pub find_prop : List ℕ → List (Option Property) → ℕ → ℕ × List Call
find_prop name [] i = (0, [])
find_prop name (none ∷ ps) i = find_prop name ps (suc i)
find_prop name (some p ∷ ps) i =
    let rest = find_prop name ps (suc i) in
    let both = acquired (property i) ∷ released (property i) ∷ [] in
    if text_eq p.name name then (p.prop_id, both) else (rest.0, both ++ rest.1)

-- `get_prop_id` of the connector that libdrm gives for the number.
pub get_prop_id : Option Connector → List ℕ → ℕ × List Call
unfolding find_prop
get_prop_id none name = (0, [])
get_prop_id (some c) name =
    let found = find_prop name c.props 0 in
    (found.0, acquired (connector 0) ∷ found.1 ++ released (connector 0) ∷ [])

-- `hal_fbreset` of a screen on the connector `id`.
pub hal_fbreset : ℕ → Option Connector → ℕ → List Call
unfolding get_prop_id
hal_fbreset id c mode =
    let found = get_prop_id c (codes "DPMS") in
    if found.0 == 0 then found.1 else found.1 ++ set_property id found.0 mode ∷ []

-- The first loop of `hal_hdmiact` from connector `i` on: the connector that is connected.
pub find_connected : List (Option Connector) → ℕ → Option (ℕ × Connector) × List Call
find_connected [] i = (none, [])
find_connected (none ∷ cs) i = find_connected cs (suc i)
find_connected (some c ∷ cs) i =
    let rest = find_connected cs (suc i) in
    if c.connected
    then (some (i, c), acquired (connector i) ∷ [])
    else (rest.0, acquired (connector i) ∷ released (connector i) ∷ rest.1)

-- The second, over the properties from property `i` on.
pub switch_on : ℕ → List (Option Property) → ℕ → List Call
switch_on id [] i = []
switch_on id (none ∷ ps) i = switch_on id ps (suc i)
switch_on id (some p ∷ ps) i =
    let on = if text_eq p.name (codes "DPMS") then set_property id p.prop_id 0 ∷ [] else [] in
    acquired (property i) ∷ on ++ released (property i) ∷ switch_on id ps (suc i)

-- What follows the first loop. A connector whose number is 0 counts as none.
pub from_connected : List Call → Option (ℕ × Connector) → List Call
unfolding switch_on
from_connected calls none = calls ++ released resources ∷ released card ∷ []
from_connected calls (some (i, c)) =
    if c.connector_id == 0
    then calls ++ released resources ∷ released card ∷ []
    else calls ++ (switch_on c.connector_id c.props 0 ++ give_back i)

-- `hal_hdmiact`.
pub hal_hdmiact : Bool → Option (List (Option Connector)) → List Call
unfolding find_connected from_connected
hal_hdmiact opens connectors = if not opens then [] else elim connectors [
  | none ↦ acquired card ∷ released card ∷ []
  | some cs ↦
      let found = find_connected cs 0 in
      from_connected (acquired card ∷ acquired resources ∷ found.1) found.0
]
