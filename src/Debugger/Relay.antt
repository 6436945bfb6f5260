-- ===== src/Debugger/Relay.antt =====
-- What the loop of the debugger passes on.
use autumnos_mobile.Common.{
  ℕ, ◌≡◌, refl, ap, ◌∙◌, inl, inr, Bool, true, false, ◌&&◌, ◌||◌, Option, none, some, List, [], ◌∷◌,
  ◌++◌, ◌==◌, arith, ltb, if◌then◌else◌, Bool-cases, length, take,
}
use autumnos_mobile.Debugger.{
  Fd, ep0, ep_out, ep_in, epoll, master, Call, opened, closed, watched, got, put, Event, Wait,
  interrupted, broken, ready, pass_on, handle_events, serve_events,
}

abbrev pub same : Fd → Fd → Bool
same ep0 ep0 = true
same ep_out ep_out = true
same ep_in ep_in = true
same epoll epoll = true
same master master = true
same _ _ = false

-- What the calls read from one descriptor.
abbrev pub chunks_got : Fd → List Call → List (List ℕ)
chunks_got fd [] = []
chunks_got fd (got from chunk ∷ calls) =
    let rest = chunks_got fd calls in if same from fd then chunk ∷ rest else rest
chunks_got fd (put into chunk ∷ calls) = chunks_got fd calls
chunks_got fd (opened f ∷ calls) = chunks_got fd calls
chunks_got fd (closed f ∷ calls) = chunks_got fd calls
chunks_got fd (watched f ∷ calls) = chunks_got fd calls

-- What the calls write to one descriptor.
abbrev pub chunks_put : Fd → List Call → List (List ℕ)
chunks_put fd [] = []
chunks_put fd (put into chunk ∷ calls) =
    let rest = chunks_put fd calls in if same into fd then chunk ∷ rest else rest
chunks_put fd (got from chunk ∷ calls) = chunks_put fd calls
chunks_put fd (opened f ∷ calls) = chunks_put fd calls
chunks_put fd (closed f ∷ calls) = chunks_put fd calls
chunks_put fd (watched f ∷ calls) = chunks_put fd calls

-- The bytes that one read takes.
abbrev chunk_of : Option (List ℕ) → List ℕ
chunk_of none = []
chunk_of (some bytes) = take 4096 bytes

-- One of the two sides has nothing to read, or fails.
abbrev is_dead : Event → Bool
is_dead e = (same e.fd ep_out || same e.fd master) && (length (chunk_of e.waiting) == 0)

-- What one side offers in one wait, up to the first event that is dead.
abbrev offered_in : Fd → List Event → List (List ℕ)
offered_in side [] = []
offered_in side (e ∷ events) =
    let rest = offered_in side events in
    if is_dead e then [] else if same e.fd side then chunk_of e.waiting ∷ rest else rest

-- What one side offers until a wait fails.
abbrev pub offered : Fd → List Wait → List (List ℕ)
offered side [] = []
offered side (interrupted ∷ waits) = offered side waits
offered side (broken ∷ waits) = []
offered side (ready events ∷ waits) = offered_in side (take 10 events) ++ offered side waits

-- The calls read what the two sides offer, and write it to the other side.
abbrev pub Relays : List Call → (Fd → List (List ℕ)) → Type 0
Relays calls offers =
    (chunks_got ep_out calls ≡ offers ep_out)
    × (chunks_put master calls ≡ offers ep_out)
    × (chunks_got master calls ≡ offers master)
    × (chunks_put ep_in calls ≡ offers master)

pub chunks_got-append :
    (fd : Fd) (a b : List Call) → chunks_got fd (a ++ b) ≡ chunks_got fd a ++ chunks_got fd b
chunks_got-append fd [] b = refl
chunks_got-append fd (got from chunk ∷ a) b = elim (Bool-cases (same from fd)) [
  | inl at ↦ rw at (ap (λ t. chunk ∷ t) (chunks_got-append fd a b))
  | inr off ↦ rw off (chunks_got-append fd a b)
]
chunks_got-append fd (put into chunk ∷ a) b = chunks_got-append fd a b
chunks_got-append fd (opened f ∷ a) b = chunks_got-append fd a b
chunks_got-append fd (closed f ∷ a) b = chunks_got-append fd a b
chunks_got-append fd (watched f ∷ a) b = chunks_got-append fd a b

pub chunks_put-append :
    (fd : Fd) (a b : List Call) → chunks_put fd (a ++ b) ≡ chunks_put fd a ++ chunks_put fd b
chunks_put-append fd [] b = refl
chunks_put-append fd (put into chunk ∷ a) b = elim (Bool-cases (same into fd)) [
  | inl at ↦ rw at (ap (λ t. chunk ∷ t) (chunks_put-append fd a b))
  | inr off ↦ rw off (chunks_put-append fd a b)
]
chunks_put-append fd (got from chunk ∷ a) b = chunks_put-append fd a b
chunks_put-append fd (opened f ∷ a) b = chunks_put-append fd a b
chunks_put-append fd (closed f ∷ a) b = chunks_put-append fd a b
chunks_put-append fd (watched f ∷ a) b = chunks_put-append fd a b

abbrev event : Fd → Option (List ℕ) → Event
event fd waiting = record { fd = fd; waiting = waiting }

handle_event-Relays :
    (fd : Fd) (waiting : Option (List ℕ)) (events : List Event)
    → Relays (handle_events events) (λ side. offered_in side events)
    → Relays
        (handle_events (event fd waiting ∷ events))
        (λ side. offered_in side (event fd waiting ∷ events))
unfolding handle_events pass_on
handle_event-Relays ep0 waiting events r = r
handle_event-Relays ep_in waiting events r = r
handle_event-Relays epoll waiting events r = r
handle_event-Relays ep_out none events r = (refl, refl, refl, refl)
handle_event-Relays master none events r = (refl, refl, refl, refl)
handle_event-Relays ep_out (some bytes) events r =
    elim (Bool-cases (ltb 0 (length (take 4096 bytes)))) [
      | inl some_bytes ↦
          let full : (length (take 4096 bytes) == 0) ≡ false = ground arith in
          rw (some_bytes, full)
            (ap (λ t. take 4096 bytes ∷ t) r.0, ap (λ t. take 4096 bytes ∷ t) r.1, r.2, r.3)
      | inr no_bytes ↦
          let empty : (length (take 4096 bytes) == 0) ≡ true = ground arith in
          rw (no_bytes, empty) (refl, refl, refl, refl)
    ]
handle_event-Relays master (some bytes) events r =
    elim (Bool-cases (ltb 0 (length (take 4096 bytes)))) [
      | inl some_bytes ↦
          let full : (length (take 4096 bytes) == 0) ≡ false = ground arith in
          rw (some_bytes, full)
            (r.0, r.1, ap (λ t. take 4096 bytes ∷ t) r.2, ap (λ t. take 4096 bytes ∷ t) r.3)
      | inr no_bytes ↦
          let empty : (length (take 4096 bytes) == 0) ≡ true = ground arith in
          rw (no_bytes, empty) (refl, refl, refl, refl)
    ]

handle_events-Relays :
    (events : List Event) → Relays (handle_events events) (λ side. offered_in side events)
unfolding handle_events
handle_events-Relays [] = (refl, refl, refl, refl)
handle_events-Relays (e ∷ events) =
    handle_event-Relays e.fd e.waiting events (handle_events-Relays events)

Relays-append :
    (a b : List Call) (f g : Fd → List (List ℕ))
    → Relays a f
    → Relays b g
    → Relays (a ++ b) (λ side. f side ++ g side)
Relays-append a b f g r s = (
  chunks_got-append ep_out a b ∙ rw (r.0, s.0) refl,
  chunks_put-append master a b ∙ rw (r.1, s.1) refl,
  chunks_got-append master a b ∙ rw (r.2, s.2) refl,
  chunks_put-append ep_in a b ∙ rw (r.3, s.3) refl,
)

-- The loop reads from the USB port what it offers, in chunks of at most 4096 bytes, and hands each
-- chunk to one write to the shell's terminal; in the same way it reads from the terminal and writes
-- to the port. In one wait it takes at most ten events, and none behind one of the two sides that
-- has nothing to read; it ends with the first wait that fails.
pub serve_events-Relays :
    (waits : List Wait) → Relays (serve_events waits).0 (λ side. offered side waits)
unfolding serve_events
serve_events-Relays [] = (refl, refl, refl, refl)
serve_events-Relays (interrupted ∷ waits) = serve_events-Relays waits
serve_events-Relays (broken ∷ waits) = (refl, refl, refl, refl)
serve_events-Relays (ready events ∷ waits) =
    Relays-append (handle_events (take 10 events)) (serve_events waits).0
      (λ side. offered_in side (take 10 events)) (λ side. offered side waits)
      (handle_events-Relays (take 10 events)) (serve_events-Relays waits)
