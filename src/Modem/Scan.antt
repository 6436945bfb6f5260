-- ===== src/Modem/Scan.antt =====
-- What a scan finds, and that it leaves no file open.
use autumnos_mobile.Common.{
  ℕ, zero, suc, ◌+◌, ◌≤◌, ◌<◌, ◌≡◌, refl, inl, inr, Bool, true, false, Option, none, some, List, [],
  ◌∷◌, ◌++◌, arith, pos, if◌then◌else◌, text_eq, text_eq_refl, Bool-cases, ◌==◌,
}
use autumnos_mobile.Modem.{
  Tty, Ports, Event, opened, wrote, closed, Modem, tty_path, answers_ok, probe_events, Scanned,
  scan_ports, mdscan,
}

-- No port from `from` on and before `limit` answers.
abbrev pub Silent : Ports → ℕ → ℕ → Type 0
Silent ports from limit = (k : ℕ) → from ≤ k → k < limit → answers_ok (ports (tty_path k)) ≡ false

-- The files that are open after some events are `file`, at most one at a time, and only an open file
-- is written.
abbrev pub tidy : Option (List ℕ) → List Event → Bool
tidy none [] = true
tidy (some name) [] = false
tidy none (opened name ∷ events) = tidy (some name) events
tidy (some name) (opened new ∷ events) = false
tidy none (wrote name bytes ∷ events) = false
tidy (some name) (wrote to bytes ∷ events) =
    if text_eq name to then tidy (some name) events else false
tidy none (closed name ∷ events) = false
tidy (some name) (closed old ∷ events) = if text_eq name old then tidy none events else false

pub data Finds (ports : Ports) (m : Modem) (from limit : ℕ) (scanned : Scanned) : Type 0 where
  found :
      (i : ℕ)
      → (from ≤ i) × (i < limit)
      → answers_ok (ports (tty_path i)) ≡ true
      → Silent ports from i
      → scanned.result ≡ 1
      → scanned.modem ≡ record m { act_port_idx = pos i; path = tty_path i }
      → Finds ports m from limit scanned
  missing :
      Silent ports from limit
      → scanned.result ≡ 0
      → scanned.modem ≡ m
      → Finds ports m from limit scanned

Silent-cons :
    (ports : Ports) (from limit : ℕ)
    → answers_ok (ports (tty_path from)) ≡ false
    → Silent ports (suc from) limit
    → Silent ports from limit
Silent-cons ports from limit here later k lo hi = elim (Bool-cases (k == from)) [
  | inl e ↦ rw (equal e) here
  | inr e ↦ later k (ground (arith, e, lo)) hi
]
  where
    equal : (k == from) ≡ true → k ≡ from
    equal t = ground (arith, t)

both : (p q : Bool) → (if p then q else false) ≡ true → (p ≡ true) × (q ≡ true)
both p q t = (ground (arith, t), ground (arith, t))

tidy-append :
    (first rest : List Event) (file : Option (List ℕ))
    → tidy file first ≡ true
    → tidy none rest ≡ true
    → tidy file (first ++ rest) ≡ true
tidy-append [] rest none h g = g
tidy-append [] rest (some name) h g = cc
tidy-append (opened new ∷ first) rest none h g = tidy-append first rest (some new) h g
tidy-append (opened new ∷ first) rest (some name) h g = cc
tidy-append (wrote to bytes ∷ first) rest none h g = cc
tidy-append (wrote to bytes ∷ first) rest (some name) h g =
    let (e, later) = both (text_eq name to) (tidy (some name) first) h in
    rw e (tidy-append first rest (some name) later g)
tidy-append (closed old ∷ first) rest none h g = cc
tidy-append (closed old ∷ first) rest (some name) h g =
    let (e, later) = both (text_eq name old) (tidy none first) h in
    rw e (tidy-append first rest none later g)

tidy-probe : (tty : Tty) (name : List ℕ) → tidy none (probe_events tty name) ≡ true
tidy-probe tty name = by_cases tty.failure tty.writable tty.waiting
  where
    by_cases :
        (f : Option ℕ) (w : Bool) (a : Option (List ℕ))
        → tidy none (probe_events (record { failure = f; writable = w; waiting = a }) name) ≡ true
    by_cases (some k) w a = refl
    by_cases none true a = rw (text_eq_refl name) refl
    by_cases none false a = rw (text_eq_refl name) refl

Finds-later :
    (ports : Ports) (m : Modem) (i limit : ℕ) (rest : Scanned) (events : List Event)
    → answers_ok (ports (tty_path i)) ≡ false
    → Finds ports m (suc i) limit rest
    → Finds ports m i limit (record rest { events = events })
Finds-later ports m i limit rest events here (Finds.found j (lo, hi) ok quiet result state) =
    Finds.found j (omega (arith, lo), hi) ok (Silent-cons ports i j here quiet) result state
Finds-later ports m i limit rest events here (Finds.missing quiet result state) =
    Finds.missing (Silent-cons ports i limit here quiet) result state

next_limit : (i left : ℕ) → i + suc left ≡ suc i + left
next_limit i left = omega arith

scan_ports-Finds :
    (ports : Ports) (m : Modem) (left i : ℕ)
    → Finds ports m i (i + left) (scan_ports ports m left i)
unfolding scan_ports
scan_ports-Finds ports m zero i = Finds.missing (λ k lo hi. absurd (omega arith)) refl refl
scan_ports-Finds ports m (suc left) i = elim (Bool-cases (answers_ok (ports (tty_path i)))) [
  | inl ok ↦
      rw ok
        (Finds.found i (omega arith, omega arith) ok (λ k lo hi. absurd (omega arith)) refl refl)
  | inr bad ↦
      rw (bad, next_limit i left)
        (Finds-later ports m i (suc i + left) (scan_ports ports m left (suc i))
          (probe_events (ports (tty_path i)) (tty_path i)
            ++ (scan_ports ports m left (suc i)).events)
          bad (scan_ports-Finds ports m left (suc i)))
]

scan_ports-tidy :
    (ports : Ports) (m : Modem) (left i : ℕ) → tidy none (scan_ports ports m left i).events ≡ true
unfolding scan_ports
scan_ports-tidy ports m zero i = refl
scan_ports-tidy ports m (suc left) i = elim (Bool-cases (answers_ok (ports (tty_path i)))) [
  | inl ok ↦ rw ok (tidy-probe (ports (tty_path i)) (tty_path i))
  | inr bad ↦ rw bad (
      tidy-append (probe_events (ports (tty_path i)) (tty_path i))
        (scan_ports ports m left (suc i)).events none (tidy-probe (ports (tty_path i)) (tty_path i))
        (scan_ports-tidy ports m left (suc i)))
]

-- `mdscan` tries the ports 0 to 7 in order: it returns 1 and keeps the number and the path of the
-- first one that opens and answers something with "OK", or it returns 0, where none of the eight
-- does, and changes nothing. It has at most one file open at a time, writes to no other, and has
-- closed every file that it opened.
pub mdscan-Finds :
    (ports : Ports) (m : Modem)
    → Finds ports m 0 8 (mdscan ports m) × (tidy none (mdscan ports m).events ≡ true)
unfolding mdscan
mdscan-Finds ports m = (scan_ports-Finds ports m 8 0, scan_ports-tidy ports m 8 0)
