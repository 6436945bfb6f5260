-- ===== src/Modem/Tests.antt =====
-- A modem on the third port, and the theorems at inputs that meet their hypotheses.
use autumnos_mobile.Common.{
  ℕ, zero, suc, ◌≡◌, refl, sym, Bool, true, false, none, some, List, [], ◌∷◌, arith, pos, replicate,
  if◌then◌else◌, ltb,
}
use autumnos_mobile.Modem.{
  Tty, Ports, start, tty_path, mdscan, scan_ports, mdioctl, get_stat, send_cmd, status, code,
  cmd_text,
}
use autumnos_mobile.Modem.Scan.{Silent}
use autumnos_mobile.Modem.History.{Moment, after, Knows, sent, at_scan}
use autumnos_mobile.Modem.Found.{send-Knows}

abbrev empty_port : Tty
empty_port = record { failure = some 5; writable = true; waiting = none }

abbrev modem_port : Tty
modem_port = record {
  failure = none;
  writable = true;
  waiting = some (13 ∷ 10 ∷ b'O' ∷ b'K' ∷ 13 ∷ 10 ∷ []);
}

-- Only /dev/ttyS2 opens.
abbrev last_is : ℕ → List ℕ → Bool
last_is c [] = false
last_is c (d ∷ []) = if ltb c d then false else if ltb d c then false else true
last_is c (d ∷ e ∷ s) = last_is c (e ∷ s)

abbrev third_port : Ports
third_port name = if last_is b'2' name then modem_port else empty_port

abbrev no_port : Ports
no_port name = empty_port

mdscan-third :
    (mdscan third_port start).modem
    ≡ record { modem_ready = 0; act_port_idx = pos 2; path = tty_path 2 }
unfolding mdscan scan_ports tty_path start
mdscan-third = refl

abbrev command : List ℕ
command = b'A' ∷ b'T' ∷ b'H' ∷ replicate 125 0

Silent-before : Silent third_port 0 2
unfolding tty_path
Silent-before zero lo hi = refl
Silent-before (suc zero) lo hi = refl
Silent-before (suc (suc k)) lo hi = absurd (omega arith)

Silent-all : Silent no_port 0 8
Silent-all k lo hi = refl

-- A scan that finds the third port, and one that finds nothing.
abbrev history : List Moment
history = at_scan no_port ∷ at_scan third_port ∷ []

history-example : Knows history (some 2) 0
unfolding tty_path
history-example =
    Knows.unanswered (at_scan third_port ∷ []) (some 2) 1 no_port
      (Knows.answered [] none 0 third_port 2 Knows.nothing (omega arith) refl Silent-before)
      Silent-all

opens-third :
    (i : ℕ)
    → some 2 ≡ some i
    → ((third_port (tty_path i)).failure ≡ none) × ((third_port (tty_path i)).writable ≡ true)
unfolding tty_path
opens-third i e = let two : 2 ≡ i = cc in rw (sym two) (refl, refl)

send-Knows_example :
    ((mdioctl third_port (get_stat true) (after history)).reply ≡ status 0)
    × ((mdioctl third_port (send_cmd (some command)) (after history)).reply ≡ code (pos 0))
    × ((mdioctl third_port (send_cmd (some command)) (after history)).events
        ≡ some (sent (some 2) (b'A' ∷ b'T' ∷ b'H' ∷ [])))
unfolding cmd_text
send-Knows_example =
    send-Knows history (some 2) 0 third_port command (b'A' ∷ b'T' ∷ b'H' ∷ []) history-example refl
      opens-third
