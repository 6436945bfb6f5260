-- ===== src/Debugger/Tests.antt =====
-- Runs of the debugger, and its theorem at an input with a hang-up.
use autumnos_mobile.Common.{◌≡◌, refl, false, none, some, List, [], ◌∷◌, ◌++◌, codes}
use autumnos_mobile.Debugger.{
  wrote, gadget_dir, described, controller, u_gad_set, ep_out, master, Wait, broken, interrupted,
  ready, parent, exited, with_fork, serve_events, main,
}
use autumnos_mobile.Debugger.Relay.{offered}
use autumnos_mobile.Debugger.Held.{full, Course, main-Course}

-- A command, its answer, and a hang-up of the port before more of the answer.
abbrev session : List Wait
session =
    interrupted
    ∷ ready (record { fd = ep_out; waiting = some (codes "ls") } ∷ [])
    ∷ ready (
        record { fd = master; waiting = some (codes "a b") }
        ∷ record { fd = ep_out; waiting = none }
        ∷ record { fd = master; waiting = some (codes "c") }
        ∷ [])
    ∷ broken
    ∷ []

first_controller :
    u_gad_set false (some (codes "." ∷ codes ".." ∷ codes "musb-hdrc" ∷ []))
    ≡ described ++ wrote (gadget_dir ++ codes "/UDC") (codes "musb-hdrc") ∷ []
unfolding u_gad_set controller
first_controller = refl

answer_is_cut : offered master session ≡ codes "a b" ∷ []
answer_is_cut = refl

main_ends : (main (full parent) session).result ≡ exited 0
unfolding main with_fork serve_events
main_ends = refl

main-Course_example : Course (full parent) session (main (full parent) session)
main-Course_example = main-Course (full parent) session
