-- ===== src/Debugger/Holding.antt =====
-- What the calls of the debugger's loop hold, and when it is left.
use autumnos_mobile.Common.{
  ℕ, ◌≡◌, refl, ap, ◌∙◌, inl, inr, Bool, true, false, Option, none, some, List, [], ◌∷◌, ◌++◌, ltb,
  if◌then◌else◌, Bool-cases, length, take,
}
use autumnos_mobile.Debugger.{
  Fd, ep0, ep_out, ep_in, epoll, master, Call, opened, closed, watched, got, put, Event, Wait,
  interrupted, broken, ready, pass_on, go_on, handle_events, serve_events,
}
use autumnos_mobile.Debugger.Relay.{same}

abbrev without : Fd → List Fd → List Fd
without fd [] = []
without fd (h ∷ held) = if same h fd then held else h ∷ without fd held

-- What is held after some calls.
abbrev pub holding : List Fd → List Call → List Fd
holding held [] = held
holding held (opened fd ∷ calls) = holding (fd ∷ held) calls
holding held (closed fd ∷ calls) = holding (without fd held) calls
holding held (watched fd ∷ calls) = holding held calls
holding held (got fd chunk ∷ calls) = holding held calls
holding held (put fd chunk ∷ calls) = holding held calls

pub holding-append :
    (held : List Fd) (a b : List Call) → holding held (a ++ b) ≡ holding (holding held a) b
holding-append held [] b = refl
holding-append held (opened fd ∷ a) b = holding-append (fd ∷ held) a b
holding-append held (closed fd ∷ a) b = holding-append (without fd held) a b
holding-append held (watched fd ∷ a) b = holding-append held a b
holding-append held (got fd chunk ∷ a) b = holding-append held a b
holding-append held (put fd chunk ∷ a) b = holding-append held a b

pass_on-holding :
    (from into : Fd) (waiting : Option (List ℕ)) (held : List Fd) (rest : List Call)
    → holding held rest ≡ held
    → holding held (go_on (pass_on from into waiting) rest) ≡ held
unfolding pass_on
pass_on-holding from into none held rest e = refl
pass_on-holding from into (some bytes) held rest e =
    elim (Bool-cases (ltb 0 (length (take 4096 bytes)))) [
      | inl some_bytes ↦ rw some_bytes e
      | inr no_bytes ↦ rw no_bytes refl
    ]

handle_event-holding :
    (fd : Fd) (waiting : Option (List ℕ)) (events : List Event) (held : List Fd)
    → holding held (handle_events events) ≡ held
    → holding held (handle_events (record { fd = fd; waiting = waiting } ∷ events)) ≡ held
unfolding handle_events
handle_event-holding ep0 waiting events held e = e
handle_event-holding ep_in waiting events held e = e
handle_event-holding epoll waiting events held e = e
handle_event-holding ep_out waiting events held e =
    pass_on-holding ep_out master waiting held (handle_events events) e
handle_event-holding master waiting events held e =
    pass_on-holding master ep_in waiting held (handle_events events) e

handle_events-holding :
    (events : List Event) (held : List Fd) → holding held (handle_events events) ≡ held
unfolding handle_events
handle_events-holding [] held = refl
handle_events-holding (e ∷ events) held =
    handle_event-holding e.fd e.waiting events held (handle_events-holding events held)

pub serve_events-holding :
    (waits : List Wait) (held : List Fd) → holding held (serve_events waits).0 ≡ held
unfolding serve_events
serve_events-holding [] held = refl
serve_events-holding (interrupted ∷ waits) held = serve_events-holding waits held
serve_events-holding (broken ∷ waits) held = refl
serve_events-holding (ready events ∷ waits) held =
    holding-append held (handle_events (take 10 events)) (serve_events waits).0
    ∙ (ap (λ h. holding h (serve_events waits).0) (handle_events-holding (take 10 events) held)
        ∙ serve_events-holding waits held)

-- A wait fails.
abbrev pub one_fails : List Wait → Bool
one_fails [] = false
one_fails (interrupted ∷ waits) = one_fails waits
one_fails (broken ∷ waits) = true
one_fails (ready events ∷ waits) = one_fails waits

pub serve_events-left : (waits : List Wait) → (serve_events waits).1 ≡ one_fails waits
unfolding serve_events
serve_events-left [] = refl
serve_events-left (interrupted ∷ waits) = serve_events-left waits
serve_events-left (broken ∷ waits) = refl
serve_events-left (ready events ∷ waits) = serve_events-left waits
