-- ===== src/Phone.antt =====
-- v0.1-alpha/src/HAL/modem.c: the access layer of the modem, which makes ioctls of the driver Modem.
-- The answer of opening the device is an argument, and so is the memory behind a text, of which the
-- driver copies 128 bytes in all.
pub mod Send
pub mod Pin
mod Tests
use autumnos_mobile.Common.{
  ℕ, Bool, true, false, Option, none, some, List, [], ◌∷◌, ◌++◌, ◌||◌, ◌&&◌, ◌==◌, if◌then◌else◌, ℤ,
  pos, negsuc, ltb_ℤ, take, replicate, c_string, codes,
}
use autumnos_mobile.Touch.{starts_with}
use autumnos_mobile.Modem.{
  Request, scan, get_stat, send_cmd, read_resp, Reply, status, response, code,
}

-- `modem_fd` at the start.
abbrev pub closed_fd : ℤ
closed_fd = negsuc 0

-- `hal_modemopen` on `modem_fd`, for the answer of the system.
pub hal_modemopen : ℤ → ℤ → ℤ
hal_modemopen modem_fd opens = if ltb_ℤ modem_fd (pos 0) then opens else modem_fd

-- `hal_modemcls`: `modem_fd`, and the descriptor that is closed.
pub hal_modemcls : ℤ → ℤ × Option ℤ
hal_modemcls modem_fd =
    if ltb_ℤ modem_fd (pos 0) then (modem_fd, none) else (closed_fd, some modem_fd)

-- What stands in memory behind the NUL of a text; `none` where the 128 bytes cannot be read.
abbrev pub Memory : Type 0
Memory = List ℕ → Option (List ℕ)

abbrev behind : List ℕ → Option (List ℕ) → Request
behind text none = send_cmd none
behind text (some rest) = send_cmd (some (text ++ 0 ∷ rest))

-- `ioctl(modem_fd, IOCMODSNDCMD, text)`.
pub send_text : Memory → List ℕ → Request
send_text memory text = behind text (memory text)

abbrev pub commands : Memory → List (List ℕ) → List Request
commands memory [] = []
commands memory (text ∷ texts) = send_text memory text ∷ commands memory texts

-- A function that opens the device and then makes ioctls: `modem_fd` and the ioctls.
pub with_modem : ℤ → ℤ → List Request → ℤ × List Request
unfolding hal_modemopen
with_modem modem_fd opens requests =
    let fd = hal_modemopen modem_fd opens in (fd, if ltb_ℤ fd (pos 0) then [] else requests)

pub hal_modeminit : ℤ → ℤ → ℤ × List Request
hal_modeminit modem_fd opens = with_modem modem_fd opens (scan ∷ [])

-- "AT+CMGS=\"%s\"\r\n" in 128 bytes.
pub sms_command : List ℕ → List ℕ
sms_command num = take 127 (codes "AT+CMGS=" ++ b'"' ∷ num ++ b'"' ∷ 13 ∷ 10 ∷ [])

abbrev pub sms_texts : List ℕ → List ℕ → List (List ℕ)
sms_texts num msg = (codes "AT+CMGF=1" ++ 13 ∷ 10 ∷ []) ∷ sms_command num ∷ msg ∷ (0x1A ∷ []) ∷ []

pub hal_sendsms : Memory → ℤ → ℤ → List ℕ → List ℕ → ℤ × List Request
hal_sendsms memory modem_fd opens num msg =
    with_modem modem_fd opens (commands memory (sms_texts num msg))

-- "ATD%s\r\n" in 64 bytes.
pub call_command : List ℕ → List ℕ
call_command num = take 63 (codes "ATD" ++ num ++ 13 ∷ 10 ∷ [])

pub hal_modemcall : Memory → ℤ → ℤ → List ℕ → ℤ × List Request
hal_modemcall memory modem_fd opens num =
    with_modem modem_fd opens (commands memory (call_command num ∷ []))

pub hal_callanswer : Memory → ℤ → ℤ → ℤ × List Request
hal_callanswer memory modem_fd opens =
    with_modem modem_fd opens (commands memory ((codes "ATA" ++ 13 ∷ 10 ∷ []) ∷ []))

pub hal_callreject : Memory → ℤ → ℤ → ℤ × List Request
hal_callreject memory modem_fd opens =
    with_modem modem_fd opens (commands memory ((codes "ATH" ++ 13 ∷ 10 ∷ []) ∷ []))

-- The ioctls of `hal_modemcheckpin`.
pub checkpin_requests : Memory → ℤ → ℤ → ℤ × List Request
checkpin_requests memory modem_fd opens =
    with_modem modem_fd opens
      (commands memory ((codes "AT+CPIN?" ++ 13 ∷ 10 ∷ []) ∷ []) ++ read_resp true ∷ [])

-- What `hal_modemok` returns, for the reply to its ioctl IOCMODGETSTAT.
pub hal_modemok : ℤ → ℤ → Reply → ℕ
unfolding hal_modemopen
hal_modemok modem_fd opens reply =
    if ltb_ℤ (hal_modemopen modem_fd opens) (pos 0)
    then 0
    else elim reply [ code result ↦ 0 | status ready ↦ ready | response bytes ↦ 0 ]

-- `strstr(text, word) != NULL`.
abbrev pub contains : List ℕ → List ℕ → Bool
contains word [] = starts_with word []
contains word (c ∷ text) = starts_with word (c ∷ text) || contains word text

-- What `hal_modemcheckpin` returns, for the reply to its ioctl IOCMODRDRESP; `buf` is zero before.
pub hal_modemcheckpin : ℤ → ℤ → Reply → ℕ
unfolding hal_modemopen
hal_modemcheckpin modem_fd opens reply =
    if ltb_ℤ (hal_modemopen modem_fd opens) (pos 0) then 0 else elim reply [
      | code result ↦ 0
      | status ready ↦ 0
      | response bytes ↦ if contains (codes "READY") (c_string bytes) then 1 else 0
    ]
