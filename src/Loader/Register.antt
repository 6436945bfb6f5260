-- ===== src/Loader/Register.antt =====
-- The service table on its way through the device of Tabl.
use autumnos_mobile.Common.{
  ℕ, suc, ◌≡◌, refl, Bool, true, ◌||◌, Option, none, some, [], arith, ◌==◌,
}
use autumnos_mobile.Tabl.{Table, registers, dioctl}
use autumnos_mobile.Loader.{
  Session, System, Mapping, failed, mapped, map_table, ldinit, save_table, load_hal_directory,
  load_api_directory, api_path, hal_path,
}

-- What the rest of the system sees: the address that is returned, the one that the device keeps, and
-- the number of open files on the device.
abbrev pub seen : Option (ℕ × Session) → Option (ℕ × ℕ × ℕ)
seen none = none
seen (some (address, p)) = some (address, p.table.reg_srv_data, p.open_files)

abbrev pub or_else : Option ℕ → ℕ → ℕ
or_else none d = d
or_else (some x) d = x

-- The files on the device that are open after a mapping that is made or not.
abbrev pub files_after : Option ℕ → ℕ → ℕ
files_after none before = suc before
files_after (some address) before = suc (suc before)

-- The table is free or the process's own.
abbrev pub may_register : ℕ → Table → Bool
may_register pid t = (t.session_pid == 0) || (t.session_pid == pid)

registered :
    (pid arg : ℕ) (t : Table)
    → may_register pid t ≡ true
    → (dioctl pid (registers arg) t).0 ≡ record { reg_srv_data = arg; session_pid = pid }
unfolding dioctl
registered pid arg t free = ground (arith, free)

again :
    (pid arg first : ℕ)
    → (dioctl pid (registers arg) (record { reg_srv_data = first; session_pid = pid })).0
      ≡ record { reg_srv_data = arg; session_pid = pid }
unfolding dioctl
again pid arg first = ground arith

-- The process after a start with success.
started : System → Session → Session
started sys p = record p {
  symb = sys.allocated;
  table = record { reg_srv_data = sys.allocated; session_pid = p.pid };
  open_files = suc p.open_files;
  loader =
      load_api_directory api_path sys.api
        (load_hal_directory hal_path sys.hal (record p.loader { loaded_handles = [] }));
}

ldinit-started :
    (sys : System) (p : Session)
    → sys.device_opens ≡ true
    → p.sym ≡ 0
    → may_register p.pid p.table ≡ true
    → ldinit sys p ≡ some (record (started sys p) { sym = 0 })
unfolding ldinit started
ldinit-started sys p opens none_yet free =
    rw (opens, none_yet, registered p.pid sys.allocated p.table free) refl

map_table-asks :
    (a : Mapping) (p : Session) (m : Option ℕ)
    → a.opens ≡ true
    → a.copied ≡ true
    → a.mmap p.table.reg_srv_data ≡ m
    → map_table a p ≡ elim m [
      | none ↦ failed (record p { sym = 0 })
      | some address ↦
          mapped p.table.reg_srv_data (record p { sym = address; open_files = suc p.open_files })
    ]
unfolding map_table dioctl
map_table-asks a p m reopens copied answer = rw (reopens, copied, answer) refl

answered :
    (sys : System) (a : Mapping) (p : Session) (m : Option ℕ)
    → sys.device_opens ≡ true
    → p.sym ≡ 0
    → may_register p.pid p.table ≡ true
    → a.opens ≡ true
    → a.copied ≡ true
    → a.mmap sys.allocated ≡ m
    → seen (save_table sys a p)
      ≡ some (or_else m 0, or_else m sys.allocated, files_after m p.open_files)
unfolding save_table started
answered sys a p none opens none_yet free reopens copied e =
    rw
      (
        ldinit-started sys p opens none_yet free,
        map_table-asks a (record (started sys p) { sym = 0 }) none reopens copied e,
        none_yet,
      )
      refl
answered sys a p (some address) opens none_yet free reopens copied e =
    rw
      (
        ldinit-started sys p opens none_yet free,
        map_table-asks a (record (started sys p) { sym = 0 }) (some address) reopens copied e,
        again p.pid address sys.allocated,
        none_yet,
      )
      refl

-- A process without a table that may register one, on a system where the device opens both times and
-- the ioctls work, asks for a mapping of as many bytes as the address of the table that the loader
-- has registered just before says, since the device answers with what was registered. If the mapping
-- is made, the process gets its address, which the device keeps from then on, and leaves two files
-- open; if it is not, it gets NULL, the device keeps the loader's table, and one file stays open.
save_table-asks :
    (sys : System) (a : Mapping) (p : Session)
    → sys.device_opens ≡ true
    → p.sym ≡ 0
    → may_register p.pid p.table ≡ true
    → a.opens ≡ true
    → a.copied ≡ true
    → seen (save_table sys a p)
      ≡ some (
        or_else (a.mmap sys.allocated) 0,
        or_else (a.mmap sys.allocated) sys.allocated,
        files_after (a.mmap sys.allocated) p.open_files,
      )
save_table-asks sys a p opens none_yet free reopens copied =
    answered sys a p (a.mmap sys.allocated) opens none_yet free reopens copied refl
