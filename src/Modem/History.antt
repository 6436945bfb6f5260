-- ===== src/Modem/History.antt =====
-- The state of the driver, described by the ioctls that came before.
use autumnos_mobile.Common.{
  ℕ, ◌<◌, ◌≡◌, ◌≢◌, refl, ◌∙◌, Bool, true, false, Option, none, some, List, [], ◌∷◌, arith, pos,
  ◌⊎◌, inl, inr,
}
use autumnos_mobile.Modem.{
  Ports, Event, opened, wrote, closed, Modem, start, tty_path, answers_ok, Request, scan, get_stat,
  send_cmd, read_resp, other, mdioctl, mdscan, Scanned,
}
use autumnos_mobile.Modem.Scan.{Silent, Finds, mdscan-Finds}

-- One ioctl with what the ports do during it. A history has its last ioctl first.
pub record Moment : Type 0 where
  pub ports : Ports
  pub request : Request

pub after : List Moment → Modem
unfolding mdioctl
after [] = start
after (moment ∷ earlier) = (mdioctl moment.ports moment.request (after earlier)).modem

abbrev pub at_scan : Ports → Moment
at_scan ports = record { ports = ports; request = scan }

-- The port that the last scan with success found, and whether the last scan of all had success.
pub data Knows : List Moment → Option ℕ → ℕ → Type 0 where
  nothing : Knows [] none 0
  answered :
      (h : List Moment) (port : Option ℕ) (ready : ℕ) (ports : Ports) (i : ℕ)
      → Knows h port ready
      → i < 8
      → answers_ok (ports (tty_path i)) ≡ true
      → Silent ports 0 i
      → Knows (at_scan ports ∷ h) (some i) 1
  unanswered :
      (h : List Moment) (port : Option ℕ) (ready : ℕ) (ports : Ports)
      → Knows h port ready
      → Silent ports 0 8
      → Knows (at_scan ports ∷ h) port 0
  between :
      (h : List Moment) (port : Option ℕ) (ready : ℕ) (moment : Moment)
      → Knows h port ready
      → moment.request ≢ scan
      → Knows (moment ∷ h) port ready

-- The state that a description stands for.
abbrev pub state_of : Option ℕ → ℕ → Modem
state_of none ready = record start { modem_ready = ready }
state_of (some i) ready = record { modem_ready = ready; act_port_idx = pos i; path = tty_path i }

keeps :
    (ports : Ports) (request : Request) (m : Modem)
    → request ≢ scan
    → (mdioctl ports request m).modem ≡ m
unfolding mdioctl
keeps ports scan m h = absurd (h refl)
keeps ports (get_stat true) m h = refl
keeps ports (get_stat false) m h = refl
keeps ports (send_cmd none) m h = refl
keeps ports (send_cmd (some k_cmd)) m h = refl
keeps ports (read_resp copied) m h = refl
keeps ports other m h = refl

clash : {b : Bool} → b ≡ false → ¬ (b ≡ true)
clash f t = cc

-- Two ports that are both the first one to answer are the same.
first_unique :
    (ports : Ports) (i j : ℕ)
    → answers_ok (ports (tty_path i)) ≡ true
    → answers_ok (ports (tty_path j)) ≡ true
    → Silent ports 0 i
    → Silent ports 0 j
    → i ≡ j
first_unique ports i j oki okj qi qj = elim (order i j) [
  | inl e ↦ e
  | inr (inl lt) ↦ absurd (clash (qj i (omega arith) lt) oki)
  | inr (inr gt) ↦ absurd (clash (qi j (omega arith) gt) okj)
]
  where
    order : (a b : ℕ) → (a ≡ b) ⊎ ((a < b) ⊎ (b < a))
    order a b = ground arith

abbrev after_scan : Scanned → Modem
after_scan scanned = record scanned.modem { modem_ready = scanned.result }

answered-state :
    (ports : Ports) (m : Modem) (i : ℕ) (scanned : Scanned)
    → i < 8
    → answers_ok (ports (tty_path i)) ≡ true
    → Silent ports 0 i
    → Finds ports m 0 8 scanned
    → after_scan scanned ≡ state_of (some i) 1
answered-state ports m i scanned small ok quiet (Finds.found j range okj qj result state) =
    rw (result, state, first_unique ports j i okj ok qj quiet) refl
answered-state ports m i scanned small ok quiet (Finds.missing silent result state) =
    absurd (clash (silent i (omega arith) small) ok)

unanswered-state :
    (ports : Ports) (port : Option ℕ) (ready : ℕ) (scanned : Scanned)
    → Silent ports 0 8
    → Finds ports (state_of port ready) 0 8 scanned
    → after_scan scanned ≡ state_of port 0
unanswered-state ports port ready scanned quiet (Finds.found j (lo, hi) ok qj result state) =
    absurd (clash (quiet j lo hi) ok)
unanswered-state ports none ready scanned quiet (Finds.missing silent result state) =
    rw (result, state) refl
unanswered-state ports (some i) ready scanned quiet (Finds.missing silent result state) =
    rw (result, state) refl

pub after-state :
    (h : List Moment) (port : Option ℕ) (ready : ℕ)
    → Knows h port ready
    → after h ≡ state_of port ready
unfolding after mdioctl start
after-state _ _ _ Knows.nothing = refl
after-state _ _ _ (Knows.answered earlier old was ports i k small ok quiet) =
    let (finds, tidied) = mdscan-Finds ports (after earlier) in
    answered-state ports (after earlier) i (mdscan ports (after earlier)) small ok quiet finds
after-state _ _ _ (Knows.unanswered earlier port was ports k quiet) =
    let (finds, tidied) = mdscan-Finds ports (state_of port was) in
    rw (after-state earlier port was k)
      (unanswered-state ports port was (mdscan ports (state_of port was)) quiet finds)
after-state _ _ _ (Knows.between earlier port ready moment k differs) =
    keeps moment.ports moment.request (after earlier) differs ∙ after-state earlier port ready k

-- What a command does.
abbrev pub sent : Option ℕ → List ℕ → List Event
sent none text = []
sent (some i) text = opened (tty_path i) ∷ wrote (tty_path i) text ∷ closed (tty_path i) ∷ []

-- Every history has a description.
data Known (h : List Moment) : Type 0 where
  known : (port : Option ℕ) (ready : ℕ) → Knows h port ready → Known h

after_scan-Known :
    (ports : Ports) (m : Modem) (h : List Moment) (scanned : Scanned)
    → Known h
    → Finds ports m 0 8 scanned
    → Known (at_scan ports ∷ h)
after_scan-Known ports m h scanned (Known.known port ready k)
      (Finds.found i (lo, hi) ok quiet result state) =
    Known.known (some i) 1 (Knows.answered h port ready ports i k hi ok quiet)
after_scan-Known ports m h scanned (Known.known port ready k) (Finds.missing quiet result state) =
    Known.known port 0 (Knows.unanswered h port ready ports k quiet)

between-Known :
    (ports : Ports) (request : Request) (h : List Moment)
    → request ≢ scan
    → Known h
    → Known (record { ports = ports; request = request } ∷ h)
between-Known ports request h differs (Known.known port ready k) =
    Known.known port ready
      (Knows.between h port ready (record { ports = ports; request = request }) k differs)

step-Known :
    (ports : Ports) (request : Request) (h : List Moment)
    → Known h
    → Known (record { ports = ports; request = request } ∷ h)
step-Known ports scan h k =
    let (finds, tidied) = mdscan-Finds ports start in
    after_scan-Known ports start h (mdscan ports start) k finds
step-Known ports (get_stat copied) h k = between-Known ports (get_stat copied) h (λ e. cc) k
step-Known ports (send_cmd cmd) h k = between-Known ports (send_cmd cmd) h (λ e. cc) k
step-Known ports (read_resp copied) h k = between-Known ports (read_resp copied) h (λ e. cc) k
step-Known ports other h k = between-Known ports other h (λ e. cc) k

history-Known : (h : List Moment) → Known h
history-Known [] = Known.known none 0 Knows.nothing
history-Known (moment ∷ earlier) =
    step-Known moment.ports moment.request earlier (history-Known earlier)
