-- ===== src/Power.antt =====
-- The power service v0.1-alpha/src/HAL/Service/power.c, which answers requests out of one tunnel
-- through another, and the battery v0.1-alpha/src/HAL/SysFS_Node/bat.c that it asks. Directories,
-- files and `reboot` answer by arguments.
pub mod Command
pub mod Serve
pub mod Capacity
mod Tests
use autumnos_mobile.Common.{
  ℕ, ◌+◌, Bool, true, false, not, ◌&&◌, Option, none, some, List, [], ◌∷◌, ◌++◌, ◌==◌, ltb, leb,
  if◌then◌else◌, length, ℤ, pos, negsuc, leb_ℤ, c_string, text_eq, codes, first_hit,
}
use autumnos_mobile.Tunnel.{ChatTunnel, receive_from_friend, send_msg}
use autumnos_mobile.Touch.{print_int}

-- The files under their paths: `none` for one that does not open, and what `fscanf` of "%d" makes of
-- one that does.
abbrev pub Files : Type 0
Files = List ℕ → Option (Option ℤ)

-- "%s/%s/capacity"; none where it does not fit into `path`.
pub capacity_path : List ℕ → Option (List ℕ)
capacity_path name =
    let path = codes "/sys/class/power_supply/" ++ (name ++ codes "/capacity") in
    if leb 256 (length path) then none else some path

abbrev pub is_hidden : List ℕ → Bool
is_hidden [] = false
is_hidden (c ∷ name) = c == b'.'

-- A round of `_AutumnSys_getbatcpc`: the capacity that the entry gives.
pub supply_capacity : Files → List ℕ → Option ℤ
unfolding capacity_path
supply_capacity files name = if is_hidden name then none else elim (capacity_path name) [
  | none ↦ none
  | some path ↦ elim (files path) [
    | none ↦ none
    | some read ↦ elim read [
      | none ↦ none
      | some value ↦ if leb_ℤ (pos 0) value && leb_ℤ value (pos 100) then some value else none
    ]
  ]
]

-- `capacity` at the end, which starts as -1.
abbrev pub or_unknown : Option ℤ → ℤ
or_unknown none = negsuc 0
or_unknown (some value) = value

-- `_AutumnSys_getbatcpc`; `none` for a directory that does not open.
pub getbatcpc : Option (List (List ℕ)) → Files → ℤ
unfolding supply_capacity
getbatcpc none files = negsuc 0
getbatcpc (some names) files = or_unknown (first_hit (supply_capacity files) names)

-- The answers of the system in one round: the supplies, and what a `reboot` gives, 0 or `-errno`, or
-- `none` for one that does not come back, since the machine goes down.
pub record Os : Type 0 where
  pub supplies : Option (List (List ℕ))
  pub files : Files
  pub reboot_result : Option ℤ
  pub pwroff_result : Option ℤ

pub data Action : Type 0 where
  synced : Action
  autoboot : Action
  power_off : Action

abbrev pub printed : Option ℤ → Option (List ℕ)
printed none = none
printed (some result) = some (print_int result)

-- The answer to one command: the `strcmp` chain of `main`; `none` where the service does not get to
-- answer.
pub answer : Os → List ℕ → Option (List ℕ)
unfolding getbatcpc
answer os command =
    if text_eq command (codes "GETCPC")
    then some (print_int (getbatcpc os.supplies os.files))
    else if text_eq command (codes "RBT")
    then printed os.reboot_result
    else if text_eq command (codes "POWEROFF")
    then printed os.pwroff_result
    else some (codes "UNKNOWN_COMMAND")

-- What is done for a command.
pub actions : List ℕ → List Action
actions command =
    if text_eq command (codes "GETCPC")
    then []
    else if text_eq command (codes "RBT")
    then synced ∷ autoboot ∷ []
    else if text_eq command (codes "POWEROFF")
    then synced ∷ power_off ∷ []
    else []

-- The two tunnels, what has been done, and whether the machine is up.
pub record Service : Type 0 where
  pub request : ChatTunnel
  pub response : ChatTunnel
  pub done : List Action
  pub up : Bool

-- The service does not look at what the send returns.
abbrev pub respond : Service → ChatTunnel → List Action → Option (List ℕ) → Service
respond s request' acts none = record {
  request = request';
  response = s.response;
  done = s.done ++ acts;
  up = false;
}
respond s request' acts (some text) = record {
  request = request';
  response = (send_msg s.response text).0;
  done = s.done ++ acts;
  up = s.up;
}

-- The rest of a round after the receive.
pub handle : Os → Service → ChatTunnel → Option (List ℕ) → Service
unfolding answer actions
handle os s request' none = s
handle os s request' (some slot) =
    respond s request' (actions (c_string slot)) (answer os (c_string slot))

-- A round of the loop of `main`.
pub serve_round : Os → Service → Service
unfolding handle
serve_round os s = let received = receive_from_friend s.request in handle os s received.0 received.1

-- As many rounds as the system answers for, while the machine is up.
pub serve : List Os → Service → Service
unfolding serve_round
serve [] s = s
serve (os ∷ rounds) s = let after = serve rounds (serve_round os s) in if s.up then after else s
