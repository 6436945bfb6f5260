-- ===== src/Signals.antt =====
-- v0.1-alpha/src/sigf.c: the name of a signal, written into a caller's buffer, and the handler that
-- ends a process at its tenth call. The numbers of the signals are those of Linux.
pub mod Name
mod Tests
use autumnos_mobile.Common.{
  ℕ, zero, suc, ◌+◌, ◌/◌, ◌%◌, List, [], ◌∷◌, ◌++◌, ◌==◌, ltb, leb, if◌then◌else◌, length, set,
  codes,
}

abbrev sigill : ℕ
sigill = 4

abbrev sigabrt : ℕ
sigabrt = 6

abbrev sigbus : ℕ
sigbus = 7

abbrev sigfpe : ℕ
sigfpe = 8

abbrev pub sigsegv : ℕ
sigsegv = 11

-- The `switch` of `get_sig_name`.
pub sig_text : ℕ → List ℕ
sig_text sig =
    if sig == sigsegv
    then codes "SEGMENTATION FAULT"
    else if sig == sigfpe
    then codes "MATH ERROR"
    else if sig == sigill
    then codes "ILLEGAL INSTR"
    else if sig == sigbus
    then codes "BUS ERROR"
    else if sig == sigabrt
    then codes "ABORTED"
    else codes "UNKNOWN SIGNAL"

-- `while (name[i] != '\0') { buffer[i] = name[i]; i++; }` from index `i` on.
pub copy_name : List ℕ → ℕ → List ℕ → List ℕ
copy_name [] i buffer = buffer
copy_name (c ∷ name) i buffer = copy_name name (i + 1) (set buffer i c)

-- What is stored for the number: the index behind it, and the buffer.
pub write_number : ℕ → ℕ → List ℕ → ℕ × List ℕ
write_number sig i buffer =
    if ltb sig 10
    then (i + 1, set buffer i (b'0' + sig))
    else (i + 1 + 1, set (set buffer i (b'0' + sig / 10)) (i + 1) (b'0' + sig % 10))

-- `get_sig_name` for a signal's number: the buffer.
pub get_sig_name : ℕ → List ℕ → List ℕ
get_sig_name sig buffer =
    let name = sig_text sig in
    let i = length name in
    let opened = set (set (copy_name name 0 buffer) i b' ') (i + 1) b'(' in
    let numbered = write_number sig (i + 1 + 1) opened in
    set (set numbered.1 numbered.0 b')') (numbered.0 + 1) 0

-- How a call of `atmsig_handle` ends: `_exit(1)` after `sync`, or the jump out of it.
pub data Ending : Type 0 where
  halted : Ending
  jumped : ℕ → Ending

-- `atmsig_handle` with its static counter; what it prints is left out.
pub atmsig_handle : ℕ → ℕ → ℕ × Ending
atmsig_handle crash_count sig =
    let count = crash_count + 1 in (count, if leb 10 count then halted else jumped sig)
