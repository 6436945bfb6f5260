-- ===== src/Display/Tests.antt =====
-- A card with an unplugged and a plugged screen, and the theorems at inputs that meet their hypotheses.
use autumnos_mobile.Common.{
  ◌≡◌, refl, true, false, Option, none, some, List, [], ◌∷◌, pos, codes, text_eq,
}
use autumnos_mobile.Display.{Connector, Os, Drm, drm_init, hal_hdmiact}
use autumnos_mobile.Display.Setup.{Chosen, Outcome, holding, drm_init-Outcome}
use autumnos_mobile.Display.Hdmi.{settings, hal_hdmiact_lem}

abbrev unplugged : Connector
unplugged = record { connector_id = 30; connected = false; modes = []; props = [] }

abbrev plugged : Connector
plugged = record {
  connector_id = 31;
  connected = true;
  modes = (480, 800) ∷ [];
  props = none ∷ some (record { prop_id = 2; name = codes "DPMS" }) ∷ [];
}

abbrev connectors : List (Option Connector)
connectors = some unplugged ∷ none ∷ some plugged ∷ []

-- Everything works but switching the screen on.
abbrev os : Os
os = record {
  opens = true;
  connectors = some connectors;
  crtcs = 7 ∷ [];
  dumb = some (1920, 1536000, 4);
  fb = some 9;
  mapped = true;
  crtc_set = false;
}

abbrev ctx : Drm
ctx = record {
  width = 0;
  height = 0;
  crtc_id = 0;
  stride = 0;
  size = 0;
  handle = 0;
  fb_id = 0;
  ptr = false;
}

drm_init-Outcome_example :
    (conn : Option Connector) × Chosen (some connectors) conn
    × Outcome os ctx conn (drm_init os ctx)
drm_init-Outcome_example = drm_init-Outcome os ctx

hal_hdmiact_lem_example :
    (holding [] (hal_hdmiact true (some connectors)) ≡ [])
    × (settings (hal_hdmiact true (some connectors)) ≡ (31, 2, 0) ∷ [])
unfolding text_eq
hal_hdmiact_lem_example = hal_hdmiact_lem true (some connectors) (refl, (refl, tt))

setup_works : (drm_init (record os { crtc_set = true }) ctx).result ≡ pos 0
unfolding drm_init
setup_works = refl
