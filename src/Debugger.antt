-- ===== src/Debugger.antt =====
-- v0.1-alpha/src/autumn-atxdb.c: the service that shows a shell on the USB port. It sets a USB gadget
-- up, opens the three end points of it and a pseudo terminal with a shell behind it, and passes on
-- what it reads from one side to the other. What the system answers is an argument; becoming a
-- daemon is left out.
pub mod Relay
pub mod Holding
pub mod Held
mod Tests
use autumnos_mobile.Common.{
  ℕ, Bool, true, false, not, ◌||◌, Option, none, some, List, [], ◌∷◌, ◌++◌, ltb, if◌then◌else◌,
  length, take, codes, first_hit,
}
use autumnos_mobile.Power.{is_hidden}

-- The calls of `u_gad_set`: `mkdir`, `ufwrite`, `mount` and `symlink`.
pub data Setup : Type 0 where
  made : List ℕ → Setup
  wrote : List ℕ → List ℕ → Setup
  mounted : List ℕ → Setup
  linked : List ℕ → List ℕ → Setup

abbrev pub gadget_dir : List ℕ
gadget_dir = codes "/sys/kernel/config/usb_gadget/atxdb"

abbrev pub ffs_dir : List ℕ
ffs_dir = codes "/dev/usb-ffs/atxdb"

-- Up to the symbolic link.
pub described : List Setup
described =
    made gadget_dir
    ∷ wrote (gadget_dir ++ codes "/idVendor") (codes "0x4154")
    ∷ wrote (gadget_dir ++ codes "/idProduct") (codes "0x1EAF")
    ∷ wrote (gadget_dir ++ codes "/bcdDevice") (codes "0x0100")
    ∷ wrote (gadget_dir ++ codes "/bcdUSB") (codes "0x0200")
    ∷ made (gadget_dir ++ codes "/strings/0x409")
    ∷ wrote (gadget_dir ++ codes "/strings/0x409/serialnumber") (codes "AUTUMN-D1-001")
    ∷ wrote (gadget_dir ++ codes "/strings/0x409/manufacturer") (codes "Autix Ecosystem")
    ∷ wrote (gadget_dir ++ codes "/strings/0x409/product") (codes "AutumnOS Debug Terminal")
    ∷ made (gadget_dir ++ codes "/configs/c.1/strings/0x409")
    ∷ wrote (gadget_dir ++ codes "/configs/c.1/strings/0x409/configuration") (codes "Config 1")
    ∷ wrote (gadget_dir ++ codes "/configs/c.1/MaxPower") (codes "120")
    ∷ made (gadget_dir ++ codes "/functions/ffs.atxdb")
    ∷ made (codes "/dev/usb-ffs")
    ∷ made ffs_dir
    ∷ mounted ffs_dir
    ∷ linked (gadget_dir ++ codes "/functions/ffs.atxdb")
        (gadget_dir ++ codes "/configs/c.1/ffs.atxdb")
    ∷ []

-- A round of the loop over "/sys/class/udc".
pub controller : List ℕ → Option (List ℕ)
controller name = if is_hidden name then none else some name

abbrev pub bind : Option (List ℕ) → List Setup
bind none = []
bind (some name) = wrote (gadget_dir ++ codes "/UDC") name ∷ []

-- The entries of "/sys/class/udc", `none` where it does not open.
abbrev pub bind_first : Option (List (List ℕ)) → List Setup
bind_first none = []
bind_first (some names) = bind (first_hit controller names)

-- `u_gad_set`: whether the gadget is there, and the controllers.
pub u_gad_set : Bool → Option (List (List ℕ)) → List Setup
u_gad_set there controllers = if there then [] else described ++ bind_first controllers

-- The descriptors of `main`. Those that are open are different numbers.
pub data Fd : Type 0 where
  ep0 : Fd
  ep_out : Fd
  ep_in : Fd
  epoll : Fd
  master : Fd

-- What `main` does; `got` is a `read` that gives some bytes, and `put` a call of `write`.
pub data Call : Type 0 where
  opened : Fd → Call
  closed : Fd → Call
  watched : Fd → Call
  got : Fd → List ℕ → Call
  put : Fd → List ℕ → Call

-- A descriptor that is ready, and what there is to read: `none` for an error.
pub record Event : Type 0 where
  pub fd : Fd
  pub waiting : Option (List ℕ)

-- What `epoll_wait` gives: EINTR, another error, or descriptors.
pub data Wait : Type 0 where
  interrupted : Wait
  broken : Wait
  ready : List Event → Wait

-- `read` into `buf` and `write` of it; `none` for the `break`.
pub pass_on : Fd → Fd → Option (List ℕ) → Option (List Call)
pass_on from into none = none
pass_on from into (some bytes) =
    let chunk = take 4096 bytes in
    if ltb 0 (length chunk) then some (got from chunk ∷ put into chunk ∷ []) else none

abbrev pub go_on : Option (List Call) → List Call → List Call
go_on none rest = []
go_on (some calls) rest = calls ++ rest

-- The `for` loop over the events of one `epoll_wait`.
pub handle_events : List Event → List Call
handle_events [] = []
handle_events (e ∷ events) = elim e.fd [
  | ep_out ↦ go_on (pass_on ep_out master e.waiting) (handle_events events)
  | master ↦ go_on (pass_on master ep_in e.waiting) (handle_events events)
  | ep0 ↦ handle_events events
  | ep_in ↦ handle_events events
  | epoll ↦ handle_events events
]

-- `while (1)` on what the calls of `epoll_wait` give: the calls, and whether the loop was left. At
-- the end of the list it waits.
pub serve_events : List Wait → List Call × Bool
serve_events [] = ([], false)
serve_events (interrupted ∷ waits) = serve_events waits
serve_events (broken ∷ waits) = ([], true)
serve_events (ready events ∷ waits) =
    let rest = serve_events waits in (handle_events (take 10 events) ++ rest.0, rest.1)

-- `forkpty`: an error, the child with which of its two shells start, or the parent.
pub data Forked : Type 0 where
  no_fork : Forked
  child : Bool → Bool → Forked
  parent : Forked

-- Which descriptors `main` gets.
pub record Answers : Type 0 where
  pub ep0_opens : Bool
  pub ep_out_opens : Bool
  pub ep_in_opens : Bool
  pub epoll_opens : Bool
  pub forked : Forked

pub data Result : Type 0 where
  running : Result
  exited : ℕ → Result
  became : List ℕ → Result

pub record Done : Type 0 where
  pub calls : List Call
  pub result : Result

abbrev pub opened_if : Bool → Fd → List Call
opened_if opens fd = if opens then opened fd ∷ [] else []

-- The end of `main`.
abbrev pub close_all : List Call
close_all = closed master ∷ closed epoll ∷ closed ep0 ∷ closed ep_out ∷ closed ep_in ∷ []

-- From `forkpty` on; the terminal is open in the parent.
pub with_fork : Forked → List Wait → Done
with_fork no_fork waits = record {
  calls = closed epoll ∷ closed ep0 ∷ closed ep_out ∷ closed ep_in ∷ [];
  result = exited 1;
}
with_fork (child mksh sh) waits = record {
  calls = [];
  result =
      if mksh
      then became (codes "/bin/mksh")
      else if sh
      then became (codes "/bin/sh")
      else exited 127;
}
with_fork parent waits =
    let served = serve_events waits in
    record {
      calls =
          opened master ∷ watched ep_out ∷ watched master ∷ served.0
          ++ (if served.1 then close_all else []);
      result = if served.1 then exited 0 else running;
    }

abbrev pub after_calls : List Call → Done → Done
after_calls calls done = record { calls = calls ++ done.calls; result = done.result }

-- `main` from the opening of the end points on.
pub main : Answers → List Wait → Done
main a waits =
    let ends = opened ep0 ∷ opened_if a.ep_out_opens ep_out ++ opened_if a.ep_in_opens ep_in in
    if not a.ep0_opens
    then record { calls = []; result = exited 1 }
    else if not a.ep_out_opens || not a.ep_in_opens
    then record { calls = ends ++ closed ep0 ∷ []; result = exited 1 }
    else if not a.epoll_opens
    then record {
      calls = ends ++ closed ep0 ∷ closed ep_out ∷ closed ep_in ∷ [];
      result = exited 1;
    }
    else after_calls (ends ++ opened epoll ∷ []) (with_fork a.forked waits)
