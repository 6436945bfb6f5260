-- ===== src/Phone/Tests.antt =====
-- The theorems about the phone at a modem on the third port.
use autumnos_mobile.Common.{
  ℕ, zero, suc, ◌≡◌, refl, true, none, some, List, [], ◌∷◌, ◌++◌, map, arith, pos, if◌then◌else◌,
  text_eq, codes,
}
use autumnos_mobile.Modem.{Ports, tty_path, mdioctl, read_resp}
use autumnos_mobile.Modem.Scan.{Silent}
use autumnos_mobile.Modem.History.{Moment, after, Knows, sent, at_scan}
use autumnos_mobile.Phone.{closed_fd, hal_modemopen, hal_sendsms, hal_modemcheckpin}
use autumnos_mobile.Phone.Send.{Works, done_by, hal_sendsms-sent}
use autumnos_mobile.Phone.Pin.{hal_modemcheckpin_lem}

abbrev answers : List ℕ → Ports
answers text name = record {
  failure = if text_eq name (codes "/dev/ttyS2") then none else some 5;
  writable = true;
  waiting = some text;
}

Silent-before : Silent (answers (codes "OK")) 0 2
unfolding tty_path text_eq
Silent-before zero lo hi = refl
Silent-before (suc zero) lo hi = refl
Silent-before (suc (suc k)) lo hi = absurd (omega arith)

abbrev history : List Moment
history = at_scan (answers (codes "OK")) ∷ []

history-Knows : Knows history (some 2) 1
unfolding tty_path text_eq
history-Knows =
    Knows.answered [] none 0 (answers (codes "OK")) 2 Knows.nothing (omega arith) refl Silent-before

works : (k : ℕ) → Works (some 2) (answers [])
unfolding tty_path text_eq
works k zero e = absurd cc
works k (suc zero) e = absurd cc
works k (suc (suc zero)) e = (refl, refl)
works k (suc (suc (suc i))) e = absurd cc

hal_sendsms-sent_example :
    done_by
      (λ k. answers [])
      0
      history
      (hal_sendsms (λ text. some (7 ∷ [])) closed_fd (pos 3) (codes "112") (codes "fire")).1
    ≡ map
        (λ text. some (sent (some 2) text))
        ((codes "AT+CMGF=1" ++ 13 ∷ 10 ∷ [])
          ∷ (codes "AT+CMGS=" ++ b'"' ∷ codes "112" ++ b'"' ∷ 13 ∷ 10 ∷ [])
          ∷ codes "fire"
          ∷ (0x1A ∷ [])
          ∷ [])
unfolding tty_path text_eq hal_modemopen
hal_sendsms-sent_example =
    hal_sendsms-sent (λ k. answers []) (λ text. 7 ∷ []) history (some 2) 1 closed_fd (pos 3)
      (codes "112") (codes "fire") history-Knows works refl (ground arith) (omega arith)
      (ground arith) (omega arith)

hal_modemcheckpin_lem_example :
    hal_modemcheckpin closed_fd
      (pos 3)
      (mdioctl (answers (codes "+CPIN: READY")) (read_resp true) (after history)).reply
    ≡ 1
unfolding tty_path text_eq hal_modemopen
hal_modemcheckpin_lem_example =
    hal_modemcheckpin_lem history 2 1 (answers (codes "+CPIN: READY")) (codes "+CPIN: READY")
      closed_fd (pos 3) history-Knows refl refl refl
