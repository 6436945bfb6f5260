-- ===== src/Power/Tests.antt =====
-- Runs of the power service, and its theorems at inputs that meet their hypotheses.
use autumnos_mobile.Common.{
  ℕ, ◌≡◌, refl, if◌then◌else◌, true, none, some, List, [], ◌∷◌, arith, ℤ, pos, negsuc, c_string,
  codes, text_eq,
}
use autumnos_mobile.Tunnel.{create_mapping, send_msg, receive_from_friend}
use autumnos_mobile.Tunnel.Refine.{create_mapping-Holds}
use autumnos_mobile.Touch.{scan_int}
use autumnos_mobile.Power.{Files, getbatcpc, Os, Service, serve_round}
use autumnos_mobile.Power.Serve.{Outcome, Waiting, sent_more, serve-Waiting}
use autumnos_mobile.Power.Capacity.{Capacity, getcpc-Capacity}

-- Mains power, whose entry has no capacity, and a battery at 87.
abbrev files : Files
files path =
    if text_eq path (codes "/sys/class/power_supply/bat/capacity")
    then some (some (pos 87))
    else none

abbrev os : Os
os = record {
  supplies = some (codes "." ∷ codes ".." ∷ codes "ac" ∷ codes "bat" ∷ []);
  files = files;
  reboot_result = some (negsuc 0);
  pwroff_result = none;
}

bat_is_found : getbatcpc os.supplies os.files ≡ pos 87
unfolding getbatcpc text_eq
bat_is_found = refl

abbrev asks : List ℕ → Service
asks text = record {
  request = (send_msg create_mapping text).0;
  response = create_mapping;
  done = [];
  up = true;
}

asks-Waiting : (text : List ℕ) → Waiting (asks text) (text ∷ []) [] [] true
asks-Waiting text = record {
  requests = sent_more create_mapping [] text create_mapping-Holds (omega arith);
  responses = create_mapping-Holds;
  actions_done = refl;
  is_up = refl;
}

getcpc-Capacity_example :
    (slot : List ℕ) × (v : ℤ) × ((receive_from_friend
        (serve_round os (asks (codes "GETCPC"))).response).1
      ≡ some slot)
    × (scan_int (some (c_string slot)) ≡ some (v, []))
    × Capacity os.supplies os.files v
getcpc-Capacity_example = getcpc-Capacity os (asks (codes "GETCPC")) (asks-Waiting (codes "GETCPC"))

-- A reboot that fails, and a round in which nothing waits.
serve-Waiting_example : Outcome (os ∷ os ∷ []) (asks (codes "RBT")) (codes "RBT" ∷ []) [] []
serve-Waiting_example =
    serve-Waiting (os ∷ os ∷ []) (asks (codes "RBT")) (codes "RBT" ∷ []) [] [] (omega arith)
      (omega arith) (asks-Waiting (codes "RBT"))
