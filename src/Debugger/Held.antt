-- ===== src/Debugger/Held.antt =====
-- What `main` of the debugger holds, and how it ends.
use autumnos_mobile.Common.{
  ℕ, ◌≡◌, refl, ap, ◌∙◌, inl, inr, Bool, true, false, not, ◌&&◌, ◌||◌, List, [], ◌∷◌, ◌++◌,
  append-nil, if◌then◌else◌, Bool-cases, codes,
}
use autumnos_mobile.Debugger.{
  Fd, ep0, ep_out, ep_in, epoll, master, Call, Wait, serve_events, Forked, no_fork, child, parent,
  Answers, running, exited, became, Done, close_all, with_fork, main,
}
use autumnos_mobile.Debugger.Relay.{
  chunks_got, chunks_put, offered, Relays, chunks_got-append, chunks_put-append,
  serve_events-Relays,
}
use autumnos_mobile.Debugger.Holding.{
  holding, holding-append, serve_events-holding, one_fails, serve_events-left,
}

-- The end points that are open when the other one does not open.
abbrev left_open : Answers → List Fd
left_open a =
    if not a.ep0_opens || (a.ep_out_opens && a.ep_in_opens)
    then []
    else if a.ep_out_opens
    then ep_out ∷ []
    else if a.ep_in_opens
    then ep_in ∷ []
    else []

abbrev all_held : List Fd
all_held = epoll ∷ ep_in ∷ ep_out ∷ ep0 ∷ []

-- All descriptors open.
abbrev pub full : Forked → Answers
full forked = record {
  ep0_opens = true;
  ep_out_opens = true;
  ep_in_opens = true;
  epoll_opens = true;
  forked = forked;
}

abbrev forks : Forked → Bool
forks no_fork = false
forks (child mksh sh) = true
forks parent = true

-- All descriptors open, and `forkpty` works.
abbrev starts : Answers → Bool
starts a = a.ep0_opens && (a.ep_out_opens && (a.ep_in_opens && (a.epoll_opens && forks a.forked)))

-- How `main` goes. Without all of its descriptors and its child it ends with 1 and holds none, but
-- for an end point whose other one does not open. The child is a shell, or ends with 127, and holds
-- the end points. The parent relays; it runs on with all descriptors until a wait fails, and then ends
-- with none.
pub data Course (a : Answers) (waits : List Wait) (done : Done) : Type 0 where
  refuses :
      starts a ≡ false
      → done.result ≡ exited 1
      → holding [] done.calls ≡ left_open a
      → Course a waits done
  is_child :
      (mksh sh : Bool)
      → a ≡ full (child mksh sh)
      → done.result ≡ (
          if mksh
          then became (codes "/bin/mksh")
          else if sh
          then became (codes "/bin/sh")
          else exited 127)
      → holding [] done.calls ≡ all_held
      → Course a waits done
  serves :
      a ≡ full parent
      → one_fails waits ≡ false
      → done.result ≡ running
      → holding [] done.calls ≡ master ∷ all_held
      → Relays done.calls (λ side. offered side waits)
      → Course a waits done
  ends :
      a ≡ full parent
      → one_fails waits ≡ true
      → done.result ≡ exited 0
      → holding [] done.calls ≡ []
      → Relays done.calls (λ side. offered side waits)
      → Course a waits done

-- The end of `main` adds nothing that is read or written.
quiet_end :
    (fd : Fd) (calls : List Call)
    → (chunks_got fd (calls ++ close_all) ≡ chunks_got fd calls)
      × (chunks_put fd (calls ++ close_all) ≡ chunks_put fd calls)
quiet_end fd calls = (
  chunks_got-append fd calls close_all ∙ append-nil (chunks_got fd calls),
  chunks_put-append fd calls close_all ∙ append-nil (chunks_put fd calls),
)

Relays-end :
    (calls : List Call) (offers : Fd → List (List ℕ))
    → Relays calls offers
    → Relays (calls ++ close_all) offers
Relays-end calls offers r = (
  (quiet_end ep_out calls).0 ∙ r.0,
  (quiet_end master calls).1 ∙ r.1,
  (quiet_end master calls).0 ∙ r.2,
  (quiet_end ep_in calls).1 ∙ r.3,
)

forked-Course :
    (forked : Forked) (waits : List Wait) → Course (full forked) waits (main (full forked) waits)
unfolding main with_fork
forked-Course no_fork waits = Course.refuses refl refl refl
forked-Course (child mksh sh) waits = Course.is_child mksh sh refl refl refl
forked-Course parent waits =
    let relays = serve_events-Relays waits in
    let held = serve_events-holding waits (master ∷ all_held) in
    elim (Bool-cases (one_fails waits)) [
      | inl fails ↦
          let left : (serve_events waits).1 ≡ true = serve_events-left waits ∙ fails in
          Course.ends refl fails (rw left refl)
            (rw left (
              holding-append (master ∷ all_held) (serve_events waits).0 close_all
              ∙ ap (λ h. holding h close_all) held))
            (rw left (Relays-end (serve_events waits).0 (λ side. offered side waits) relays))
      | inr on ↦
          let stays : (serve_events waits).1 ≡ false = serve_events-left waits ∙ on in
          Course.serves refl on (rw stays refl) (rw (stays, append-nil (serve_events waits).0) held)
            (rw (stays, append-nil (serve_events waits).0) relays)
    ]

abbrev answers : Bool → Bool → Bool → Bool → Forked → Answers
answers zero_opens out_opens in_opens poll_opens forked = record {
  ep0_opens = zero_opens;
  ep_out_opens = out_opens;
  ep_in_opens = in_opens;
  epoll_opens = poll_opens;
  forked = forked;
}

answers-Course :
    (zero_opens out_opens in_opens poll_opens : Bool) (forked : Forked) (waits : List Wait)
    → let a = answers zero_opens out_opens in_opens poll_opens forked in
      Course a waits (main a waits)
unfolding main
answers-Course false out_opens in_opens poll_opens forked waits = Course.refuses refl refl refl
answers-Course true false false poll_opens forked waits = Course.refuses refl refl refl
answers-Course true false true poll_opens forked waits = Course.refuses refl refl refl
answers-Course true true false poll_opens forked waits = Course.refuses refl refl refl
answers-Course true true true false forked waits = Course.refuses refl refl refl
answers-Course true true true true forked waits = forked-Course forked waits

-- How the debugger goes, for what the system answers: `Course` says how it ends, what it holds then,
-- and what it relays.
pub main-Course : (a : Answers) (waits : List Wait) → Course a waits (main a waits)
main-Course a waits =
    answers-Course a.ep0_opens a.ep_out_opens a.ep_in_opens a.epoll_opens a.forked waits
