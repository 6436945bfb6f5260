-- ===== src/Tabl.antt =====
-- v0.1-alpha/kernel/module/tabloader.c: the device that keeps the address of the service table. The
-- process that registers first owns it.
mod Owner
mod Tests
use autumnos_mobile.Common.{ℕ, Bool, true, false, not, ◌==◌, if◌then◌else◌}

-- `reg_srv_data` and `session_pid`, with 0 for no owner.
pub record Table : Type 0 where
  pub reg_srv_data : ℕ
  pub session_pid : ℕ

abbrev pub start : Table
start = record { reg_srv_data = 0; session_pid = 0 }

-- An `ioctl`. `gets` says whether the copy to the caller's memory succeeds.
pub data Command : Type 0 where
  registers : (arg : ℕ) → Command
  gets : (copied : Bool) → Command
  other : Command

pub data Answer : Type 0 where
  success : Answer
  found : ℕ → Answer
  eperm : Answer
  efault : Answer
  einval : Answer

-- `dioctl` by the process `pid`.
unfoldable pub dioctl : ℕ → Command → Table → Table × Answer
dioctl pid (registers arg) t =
    let session_pid = if t.session_pid == 0 then pid else t.session_pid in
    if not (pid == session_pid)
    then (record t { session_pid = session_pid }, eperm)
    else (record { session_pid = session_pid; reg_srv_data = arg }, success)
dioctl pid (gets copied) t = if copied then (t, found t.reg_srv_data) else (t, efault)
dioctl pid other t = (t, einval)
