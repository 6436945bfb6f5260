-- ===== src/Phone/Send.antt =====
-- What a message or a call makes the modem receive, through the driver.
use autumnos_mobile.Common.{
  ℕ, ◌+◌, ◌≤◌, ◌≡◌, refl, ap, ◌∙◌, true, false, Option, none, some, List, [], ◌∷◌, ◌++◌, map, arith,
  ℤ, pos, ltb_ℤ, length, length-append, length-take, take_all, codes,
}
use autumnos_mobile.Modem.{Ports, Event, tty_path, Request, send_cmd, mdioctl}
use autumnos_mobile.Modem.Command.{IsText, IsText-append, IsText-take, cmd_text-short}
use autumnos_mobile.Modem.History.{Moment, after, Knows, sent}
use autumnos_mobile.Modem.Found.{send-Knows}
use autumnos_mobile.Phone.{
  Memory, send_text, commands, with_modem, hal_modemopen, sms_command, sms_texts, hal_sendsms,
}

-- What the driver does at the ioctls, where the ports may behave differently at each.
abbrev pub done_by : (ℕ → Ports) → ℕ → List Moment → List Request → List (Option (List Event))
done_by ports i h [] = []
done_by ports i h (request ∷ requests) =
    (mdioctl (ports i) request (after h)).events
    ∷ done_by ports (i + 1) (record { ports = ports i; request = request } ∷ h) requests

-- The port opens and can be written to.
abbrev pub Works : Option ℕ → Ports → Type 0
Works port ports =
    (i : ℕ)
    → port ≡ some i
    → ((ports (tty_path i)).failure ≡ none) × ((ports (tty_path i)).writable ≡ true)

-- The texts fit into a command, and the memory behind them can be read.
abbrev Fits : Memory → List (List ℕ) → Type 0
Fits memory [] = Unit
Fits memory (text ∷ texts) =
    (IsText text × (length text ≤ 127) × ((rest : List ℕ) × (memory text ≡ some rest)))
    × Fits memory texts

commands-sent :
    (ports : ℕ → Ports) (memory : Memory) (texts : List (List ℕ)) (i : ℕ) (h : List Moment)
    (port : Option ℕ) (ready : ℕ)
    → Knows h port ready
    → ((k : ℕ) → Works port (ports k))
    → Fits memory texts
    → done_by ports i h (commands memory texts) ≡ map (λ text. some (sent port text)) texts
unfolding send_text
commands-sent ports memory [] i h port ready k works fits = refl
commands-sent ports memory (text ∷ texts) i h port ready k works fits =
    let ((is_text, small, (rest, reads)), others) = fits in
    let request = send_cmd (some (text ++ 0 ∷ rest)) in
    let found = cmd_text-short text rest is_text small in
    let here = send-Knows h port ready (ports i) (text ++ 0 ∷ rest) text k found (works i) in
    let later =
      Knows.between h port ready (record { ports = ports i; request = request }) k (λ e. cc) in
    rw (reads, here.2)
      (ap (λ t. some (sent port text) ∷ t)
        (commands-sent ports memory texts (i + 1)
          (record { ports = ports i; request = request } ∷ h) port ready later works others))

-- The command of a message to a number that fits.
whole_number :
    (num : List ℕ)
    → length num ≤ 115
    → sms_command num ≡ codes "AT+CMGS=" ++ b'"' ∷ num ++ b'"' ∷ 13 ∷ 10 ∷ []
unfolding sms_command
whole_number num h =
    take_all 127 (codes "AT+CMGS=" ++ b'"' ∷ num ++ b'"' ∷ 13 ∷ 10 ∷ [])
      (omega (arith, h, length-append num (b'"' ∷ 13 ∷ 10 ∷ [])))

sms_IsText : (num : List ℕ) → IsText num → IsText (b'"' ∷ num ++ b'"' ∷ 13 ∷ 10 ∷ [])
sms_IsText num t = (
  omega arith,
  IsText-append num (b'"' ∷ 13 ∷ 10 ∷ []) t (omega arith, (omega arith, (omega arith, tt))),
)

sms_command-IsText : (num : List ℕ) → IsText num → IsText (sms_command num)
unfolding sms_command
sms_command-IsText num t = IsText-take 127 (codes "AT+CMGS=" ++ b'"' ∷ num ++ b'"' ∷ 13 ∷ 10 ∷ []) (
    IsText-append (codes "AT+CMGS=") (b'"' ∷ num ++ b'"' ∷ 13 ∷ 10 ∷ []) (ground arith)
      (sms_IsText num t))

sms_command-small : (num : List ℕ) → length (sms_command num) ≤ 127
unfolding sms_command
sms_command-small num =
    omega (arith, length-take 127 (codes "AT+CMGS=" ++ b'"' ∷ num ++ b'"' ∷ 13 ∷ 10 ∷ []))

-- A message to a number of at most 115 bytes, of at most 127 bytes itself, through an open device:
-- after any ioctls of which the last successful scan found port `i`, the modem on that port, if its
-- file opens and can be written to, receives the switch to text mode, the command with the whole
-- number, the message, and the byte that ends it, in this order, each in an opening of its own;
-- where no scan has found a port, nobody receives anything.
pub hal_sendsms-sent :
    (ports : ℕ → Ports) (rest : List ℕ → List ℕ) (h : List Moment) (port : Option ℕ) (ready : ℕ)
    (modem_fd opens : ℤ) (num msg : List ℕ)
    → Knows h port ready
    → ((k : ℕ) → Works port (ports k))
    → ltb_ℤ (hal_modemopen modem_fd opens) (pos 0) ≡ false
    → IsText num
    → length num ≤ 115
    → IsText msg
    → length msg ≤ 127
    → done_by ports 0 h (hal_sendsms (λ text. some (rest text)) modem_fd opens num msg).1
      ≡ map
          (λ text. some (sent port text))
          ((codes "AT+CMGF=1" ++ 13 ∷ 10 ∷ [])
            ∷ (codes "AT+CMGS=" ++ b'"' ∷ num ++ b'"' ∷ 13 ∷ 10 ∷ [])
            ∷ msg
            ∷ (0x1A ∷ [])
            ∷ [])
unfolding hal_sendsms with_modem
hal_sendsms-sent ports rest h port ready modem_fd opens num msg k works is_open t small u short =
    let memory : Memory = λ text. some (rest text) in
    rw is_open (
      commands-sent ports memory (sms_texts num msg) 0 h port ready k works (
        (ground arith, omega arith, (rest (codes "AT+CMGF=1" ++ 13 ∷ 10 ∷ []), refl)),
        (
          (sms_command-IsText num t, sms_command-small num, (rest (sms_command num), refl)),
          (
            (u, short, (rest msg, refl)),
            (((omega arith, tt), omega arith, (rest (0x1A ∷ []), refl)), tt),
          ),
        ),
      )
      ∙ rw (whole_number num small) refl)
