-- ===== src/Probe/Tests.antt =====
-- A phone with one card, and its devices.
use autumnos_mobile.Common.{◌≡◌, refl, true, false, none, some, List, [], ◌∷◌, text_eq, codes}
use autumnos_mobile.Probe.{
  named, net_name, chkdrm, chk_ethint, chk_sndev, Machine, session_args, Entry, find_pointer,
  is_pointer, hal_msdevinit,
}
use autumnos_mobile.Probe.Session.{Starts, session_args-Starts}
use autumnos_mobile.Probe.Input.{Selects, holding, kept, hal_msdevinit-Selects}

abbrev phone : Machine
phone = record {
  dri = some (codes "." ∷ codes ".." ∷ codes "renderD128" ∷ codes "card0" ∷ []);
  net = some (codes "." ∷ codes ".." ∷ codes "lo" ∷ codes "wlan0" ∷ []);
  dsp = false;
  snd = none;
}

phone_args :
    session_args phone
    ≡ some (codes "/dev/dri/card0" ∷ codes "wlan0" ∷ codes "/dev/snd/pcmC0D0p" ∷ [])
unfolding session_args chkdrm chk_ethint chk_sndev named net_name text_eq
phone_args = refl

session_args-Starts_example : Starts phone (session_args phone)
session_args-Starts_example = session_args-Starts phone

-- A key, a file that does not open, and a touch screen.
abbrev inputs : List Entry
inputs =
    record { name = codes "event0"; opens = true; evbits = some 2 }
    ∷ record { name = codes "event1"; opens = false; evbits = none }
    ∷ record { name = codes "event2"; opens = true; evbits = some 11 }
    ∷ []

third_is_touched : (hal_msdevinit (some inputs)).0 ≡ some 2
unfolding hal_msdevinit find_pointer is_pointer
third_is_touched = refl

hal_msdevinit-Selects_example :
    Selects 0 inputs (hal_msdevinit (some inputs)).0
    × (holding [] (hal_msdevinit (some inputs)).1 ≡ kept (hal_msdevinit (some inputs)).0 [])
hal_msdevinit-Selects_example = hal_msdevinit-Selects (some inputs)
