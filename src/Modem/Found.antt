-- ===== src/Modem/Found.antt =====
-- Where the commands of a program go, and what it reads.
use autumnos_mobile.Common.{
  ℕ, ◌≡◌, refl, ap, ◌∙◌, true, false, Option, none, some, List, [], arith, pos, negsuc, ltb_ℤ, ◌-◌,
  ◌++◌, take, length, replicate,
}
use autumnos_mobile.Modem.{
  Ports, start, tty_path, get_stat, send_cmd, read_resp, mdioctl, mdwrite, cmd_text, drop_result,
  status, code, mdread, response,
}
use autumnos_mobile.Modem.History.{Moment, after, Knows, state_of, after-state, sent}

found_port : (i : ℕ) → ltb_ℤ (pos i) (pos 0) ≡ false
found_port i = ground arith

mdwrite-none :
    (ports : Ports) (ready : ℕ) (k_cmd : List ℕ)
    → mdwrite ports (state_of none ready) k_cmd ≡ some (negsuc 18, [])
unfolding mdwrite start
mdwrite-none ports ready k_cmd = refl

mdwrite-port :
    (ports : Ports) (i ready : ℕ) (k_cmd text : List ℕ)
    → cmd_text k_cmd ≡ some text
    → (ports (tty_path i)).failure ≡ none
    → (ports (tty_path i)).writable ≡ true
    → mdwrite ports (state_of (some i) ready) k_cmd ≡ some (pos 0, sent (some i) text)
unfolding mdwrite
mdwrite-port ports i ready k_cmd text t opens writes = rw (found_port i, opens, writes, t) refl

mdread-port :
    (ports : Ports) (i ready : ℕ) (bytes : List ℕ)
    → (ports (tty_path i)).failure ≡ none
    → (ports (tty_path i)).waiting ≡ some bytes
    → (mdread ports (state_of (some i) ready)).0
      ≡ take 127 bytes ++ replicate (128 - length (take 127 bytes)) 0
unfolding mdread
mdread-port ports i ready bytes opens reads = rw (found_port i, opens, reads) refl

-- A program reads what waits at the port that the last successful scan found.
pub read_resp-Knows :
    (h : List Moment) (i ready : ℕ) (ports : Ports) (bytes : List ℕ)
    → Knows h (some i) ready
    → (ports (tty_path i)).failure ≡ none
    → (ports (tty_path i)).waiting ≡ some bytes
    → (mdioctl ports (read_resp true) (after h)).reply
      ≡ response (take 127 bytes ++ replicate (128 - length (take 127 bytes)) 0)
unfolding mdioctl
read_resp-Knows h i ready ports bytes k opens reads =
    ap (λ m. response (mdread ports m).0) (after-state h (some i) ready k)
    ∙ ap response (mdread-port ports i ready bytes opens reads)

-- After any ioctls of which the last successful scan found port `i`: a status request answers whether
-- the last scan of all was successful, and a command whose 128 bytes have a NUL is, if the port's
-- file opens and can be written, written as the text before that NUL to port `i` and no other, with
-- the file closed again, also if a later scan has failed. Without a port the program is told 0 as
-- well, and nothing is opened.
pub send-Knows :
    (h : List Moment) (port : Option ℕ) (ready : ℕ) (ports : Ports) (k_cmd text : List ℕ)
    → Knows h port ready
    → cmd_text k_cmd ≡ some text
    → ((i : ℕ)
        → port ≡ some i
        → ((ports (tty_path i)).failure ≡ none) × ((ports (tty_path i)).writable ≡ true))
    → ((mdioctl ports (get_stat true) (after h)).reply ≡ status ready)
      × ((mdioctl ports (send_cmd (some k_cmd)) (after h)).reply ≡ code (pos 0))
      × ((mdioctl ports (send_cmd (some k_cmd)) (after h)).events ≡ some (sent port text))
unfolding mdioctl
send-Knows h none ready ports k_cmd text k t works =
    let state = after-state h none ready k in
    (
      ap (λ m. status m.modem_ready) state,
      refl,
      ap (λ m. drop_result (mdwrite ports m k_cmd)) state
          ∙ ap drop_result (mdwrite-none ports ready k_cmd),
    )
send-Knows h (some i) ready ports k_cmd text k t works =
    let (opens, writes) = works i refl in
    let state = after-state h (some i) ready k in
    (
      ap (λ m. status m.modem_ready) state,
      refl,
      ap (λ m. drop_result (mdwrite ports m k_cmd)) state
          ∙ ap drop_result (mdwrite-port ports i ready k_cmd text t opens writes),
    )
