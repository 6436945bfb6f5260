-- ===== src/Modem.antt =====
-- v0.1-alpha/kernel/module/s800modem.c: the driver that looks for a modem on the serial ports and
-- passes commands to it. What the ports do during one ioctl is an argument.
pub mod Scan
pub mod Command
pub mod History
pub mod Found
mod Tests
use autumnos_mobile.Common.{
  ℕ, zero, suc, ◌+◌, ◌-◌, Bool, true, false, not, ◌&&◌, ◌||◌, Option, none, some, List, [], ◌∷◌,
  ◌++◌, ◌==◌, ltb, if◌then◌else◌, ℤ, pos, negsuc, ltb_ℤ, length, take, replicate, c_string, text_eq,
}

-- How the file of a port behaves while it is open: the error of `filp_open`, whether it has a
-- `write`, and what a `read` gives, at most as many bytes as it asks for: `none` without a `read`
-- or for an error of it.
pub record Tty : Type 0 where
  pub failure : Option ℕ
  pub writable : Bool
  pub waiting : Option (List ℕ)

abbrev pub Ports : Type 0
Ports = List ℕ → Tty

pub data Event : Type 0 where
  opened : List ℕ → Event
  wrote : List ℕ → List ℕ → Event
  closed : List ℕ → Event

-- The static variables.
pub record Modem : Type 0 where
  pub modem_ready : ℕ
  pub act_port_idx : ℤ
  pub path : List ℕ

pub start : Modem
start = record { modem_ready = 0; act_port_idx = negsuc 0; path = [] }

-- "/dev/ttyS%d" for a number below 10.
unfoldable pub tty_path : ℕ → List ℕ
tty_path i = b'/' ∷ b'd' ∷ b'e' ∷ b'v' ∷ b'/' ∷ b't' ∷ b't' ∷ b'y' ∷ b'S' ∷ (b'0' + i) ∷ []

abbrev at_command : List ℕ
at_command = b'A' ∷ b'T' ∷ 13 ∷ 10 ∷ []

abbrev write_events : Tty → List ℕ → List ℕ → List Event
write_events tty name bytes = if tty.writable then wrote name bytes ∷ [] else []

-- `strstr(s, "OK")` on the bytes of a C string.
abbrev pub has_ok : List ℕ → Bool
has_ok [] = false
has_ok (c ∷ []) = false
has_ok (c ∷ d ∷ s) = ((c == b'O') && (d == b'K')) || has_ok (d ∷ s)

-- The test of one port in `mdscan`: whether it is the modem's.
abbrev pub answers_ok : Tty → Bool
answers_ok tty = elim tty.failure [
  | some k ↦ false
  | none ↦ elim tty.waiting [
    | none ↦ false
    | some bytes ↦ ltb 0 (length (take 63 bytes)) && has_ok (c_string (take 63 bytes))
  ]
]

abbrev probe_events : Tty → List ℕ → List Event
probe_events tty name = elim tty.failure [
  | some k ↦ []
  | none ↦ opened name ∷ (write_events tty name at_command ++ closed name ∷ [])
]

-- The loop of `mdscan`, with the rounds left: what it returns, the variables, and what it did.
pub record Scanned : Type 0 where
  pub result : ℕ
  pub modem : Modem
  pub events : List Event

pub scan_ports : Ports → Modem → ℕ → ℕ → Scanned
scan_ports ports m zero i = record { result = 0; modem = m; events = [] }
scan_ports ports m (suc left) i =
    let name = tty_path i in
    let rest = scan_ports ports m left (suc i) in
    if answers_ok (ports name)
    then record {
      result = 1;
      modem = record m { act_port_idx = pos i; path = name };
      events = probe_events (ports name) name;
    }
    else record rest { events = probe_events (ports name) name ++ rest.events }

pub mdscan : Ports → Modem → Scanned
unfolding scan_ports
mdscan ports m = scan_ports ports m 8 0

-- The 128 bytes of `k_cmd` up to the first NUL; `none` if there is none, where `strlen` reads on
-- beyond them.
pub cmd_text : List ℕ → Option (List ℕ)
cmd_text k_cmd =
    if length (c_string (take 128 k_cmd)) == 128 then none else some (c_string (take 128 k_cmd))

-- What `mdwrite` returns and does; -ENODEV is -19.
pub mdwrite : Ports → Modem → List ℕ → Option (ℤ × List Event)
unfolding cmd_text
mdwrite ports m cmd =
    if ltb_ℤ m.act_port_idx (pos 0) then some (negsuc 18, []) else elim (ports m.path).failure [
      | some k ↦ some (negsuc k, [])
      | none ↦
          if (ports m.path).writable
          then elim (cmd_text cmd) [
            | none ↦ none
            | some text ↦ some (pos 0, opened m.path ∷ wrote m.path text ∷ closed m.path ∷ [])
          ]
          else some (pos 0, opened m.path ∷ closed m.path ∷ [])
    ]

-- The buffer after `mdread`, which is zero before, and what it does.
pub mdread : Ports → Modem → List ℕ × List Event
mdread ports m =
    if ltb_ℤ m.act_port_idx (pos 0) then (replicate 128 0, []) else elim (ports m.path).failure [
      | some k ↦ (replicate 128 0, [])
      | none ↦ (
        elim (ports m.path).waiting [
          | none ↦ replicate 128 0
          | some bytes ↦ take 127 bytes ++ replicate (128 - length (take 127 bytes)) 0
        ],
        opened m.path ∷ closed m.path ∷ [],
      )
    ]

-- An ioctl, with whether the copy from or to the program works.
pub data Request : Type 0 where
  scan : Request
  get_stat : Bool → Request
  send_cmd : Option (List ℕ) → Request
  read_resp : Bool → Request
  other : Request

-- What the program gets: the result with the number or the bytes that are copied to it.
pub data Reply : Type 0 where
  code : ℤ → Reply
  status : ℕ → Reply
  response : List ℕ → Reply

pub record Done : Type 0 where
  pub reply : Reply
  pub modem : Modem
  pub events : Option (List Event)

-- `mdioctl` drops what `mdwrite` returns.
abbrev pub drop_result : Option (ℤ × List Event) → Option (List Event)
drop_result none = none
drop_result (some (result, events)) = some events

-- `mdioctl`; -EFAULT is -14 and -EINVAL is -22.
pub mdioctl : Ports → Request → Modem → Done
unfolding mdscan mdwrite mdread
mdioctl ports scan m =
    let found = mdscan ports m in
    record {
      reply = code (pos 0);
      modem = record found.modem { modem_ready = found.result };
      events = some found.events;
    }
mdioctl ports (get_stat true) m = record {
  reply = status m.modem_ready;
  modem = m;
  events = some [];
}
mdioctl ports (get_stat false) m = record { reply = code (negsuc 13); modem = m; events = some [] }
mdioctl ports (send_cmd none) m = record { reply = code (negsuc 13); modem = m; events = some [] }
mdioctl ports (send_cmd (some k_cmd)) m = record {
  reply = code (pos 0);
  modem = m;
  events = drop_result (mdwrite ports m k_cmd);
}
mdioctl ports (read_resp copied) m =
    let (k_buf, events) = mdread ports m in
    record {
      reply = if copied then response k_buf else code (negsuc 13);
      modem = m;
      events = some events;
    }
mdioctl ports other m = record { reply = code (negsuc 21); modem = m; events = some [] }
