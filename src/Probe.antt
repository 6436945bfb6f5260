-- ===== src/Probe.antt =====
-- The searches for devices: those of v0.1-alpha/src/init.c, which hands what it finds to the session,
-- and that of v0.1-alpha/src/HAL/input.c for the touch screen. Directories and files answer by
-- arguments; a directory is the names of its entries, or `none` where it does not open.
pub mod Session
pub mod Input
mod Tests
use autumnos_mobile.Common.{
  ℕ, zero, suc, ◌-◌, ◌/◌, ◌%◌, Bool, true, false, not, ◌&&◌, ◌||◌, Option, none, some, List, [],
  ◌∷◌, ◌++◌, ◌==◌, if◌then◌else◌, take, get_or, text_eq, codes, first_hit,
}
use autumnos_mobile.Touch.{starts_with}

abbrev pub Directory : Type 0
Directory = Option (List (List ℕ))

-- The first hit in a directory.
abbrev pub find_in : (List ℕ → Option (List ℕ)) → Directory → Option (List ℕ)
find_in test none = none
find_in test (some names) = first_hit test names

-- A test for the start of a name, with what `snprintf` makes of the path in `max_l` bytes.
pub named : List ℕ → List ℕ → ℕ → List ℕ → Option (List ℕ)
named start path max_l name =
    if starts_with start name then some (take (max_l - 1) (path ++ name)) else none

pub chkdrm : ℕ → Directory → Option (List ℕ)
chkdrm max_l dri = find_in (named (codes "card") (codes "/dev/dri/") max_l) dri

-- The test of `chk_ethint`.
pub net_name : ℕ → List ℕ → Option (List ℕ)
unfolding text_eq
net_name max_l name =
    if not (text_eq name (codes "."))
      && (not (text_eq name (codes "..")) && not (text_eq name (codes "lo")))
    then some (take (max_l - 1) name)
    else none

pub chk_ethint : ℕ → Directory → Option (List ℕ)
chk_ethint max_l net = find_in (net_name max_l) net

-- `chk_sndev`; the first argument says whether there is "/dev/dsp".
pub chk_sndev : ℕ → Bool → Directory → Option (List ℕ)
chk_sndev max_l dsp snd =
    if dsp
    then some (take (max_l - 1) (codes "/dev/dsp"))
    else find_in (named (codes "pcm") (codes "/dev/snd/") max_l) snd

abbrev pub or_text : Option (List ℕ) → List ℕ → List ℕ
or_text none text = text
or_text (some found) text = found

-- What `main` of init finds on the machine.
pub record Machine : Type 0 where
  pub dri : Directory
  pub net : Directory
  pub dsp : Bool
  pub snd : Directory

abbrev pub args_with : Option (List ℕ) → List ℕ → List ℕ → Option (List (List ℕ))
args_with none netint_targ snd_targ = none
args_with (some drm_targ) netint_targ snd_targ = some (drm_targ ∷ netint_targ ∷ snd_targ ∷ [])

-- The arguments that `main` starts the session with, or `none` where it falls back to the shell alone.
pub session_args : Machine → Option (List (List ℕ))
session_args m =
    let netint_targ = or_text (chk_ethint 32 m.net) (codes "eth0") in
    let snd_targ = or_text (chk_sndev 64 m.dsp m.snd) (codes "/dev/snd/pcmC0D0p") in
    args_with (chkdrm 64 m.dri) netint_targ snd_targ

-- An entry of "/dev/input": whether its file opens, and the first byte of its event types, `none` for
-- an error of the ioctl.
pub record Entry : Type 0 where
  pub name : List ℕ
  pub opens : Bool
  pub evbits : Option ℕ

-- The calls of `hal_msdevinit` on the entries, by their places.
pub data Call : Type 0 where
  opened : ℕ → Call
  closed : ℕ → Call
  grabbed : ℕ → Call

-- `has_abs || has_rel`: EV_ABS is 3 and EV_REL is 2.
pub is_pointer : Option ℕ → Bool
is_pointer none = false
is_pointer (some bits) = (bits / 8 % 2 == 1) || (bits / 4 % 2 == 1)

-- The loop of `hal_msdevinit` from place `i` on: the place of the entry whose file it returns.
pub find_pointer : ℕ → List Entry → Option ℕ × List Call
find_pointer i [] = (none, [])
find_pointer i (e ∷ entries) =
    let rest = find_pointer (suc i) entries in
    if not (starts_with (codes "event") e.name && e.opens)
    then rest
    else if is_pointer e.evbits
    then (some i, opened i ∷ grabbed i ∷ [])
    else (rest.0, opened i ∷ closed i ∷ rest.1)

-- `hal_msdevinit`.
pub hal_msdevinit : Option (List Entry) → Option ℕ × List Call
unfolding find_pointer
hal_msdevinit none = (none, [])
hal_msdevinit (some entries) = find_pointer 0 entries
