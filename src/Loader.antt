-- ===== src/Loader.antt =====
-- v0.1-alpha/src/loader.c and v0.1-alpha/src/tabldioctl.c: loading the libraries of the services, and
-- the service table that goes to the device of Tabl. A directory is its entries in the order of
-- `readdir`, and a link in it stands for what `stat` finds; paths are shorter than 1,024 bytes.
pub mod Order
mod Register
mod Tests
use autumnos_mobile.Common.{
  ℕ, zero, suc, ◌-◌, Bool, true, false, not, ◌&&◌, ◌||◌, Option, none, some, List, [], ◌∷◌, ◌++◌,
  ◌==◌, ltb, if◌then◌else◌, length, drop, get_elem?, text_eq, ◌+◌,
}
use autumnos_mobile.Tabl
use autumnos_mobile.Tabl.{Table, Answer, registers, gets, dioctl}

-- A file that is not a directory: the handle that `dlopen` gives for it, and whether it has the
-- function that is called first.
mutual
  pub data Node : Type 0 where
    folder : Entries → Node
    closed_folder : Node
    regular : (handle : Option ℕ) (has_init : Bool) → Node
    special : Node

  pub data Entries : Type 0 where
    no_entry : Entries
    entry : (name : List ℕ) → Node → Entries → Entries

pub data Event : Type 0 where
  loaded : List ℕ → ℕ → Event
  hal_init : ℕ → Event
  api_init : ℕ → Event
  closed : ℕ → Event

-- `loaded_handles` up to `handle_count`, and what has happened, the first thing first.
pub record Loader : Type 0 where
  pub loaded_handles : List ℕ
  pub events : List Event

abbrev pub record_handle : ℕ → Loader → Loader
record_handle handle s =
    if ltb (length s.loaded_handles) 128
    then record s { loaded_handles = s.loaded_handles ++ handle ∷ [] }
    else s

abbrev pub log : List Event → Loader → Loader
log new s = record s { events = s.events ++ new }

abbrev pub is_dot : List ℕ → Bool
is_dot name = text_eq name (b'.' ∷ []) || text_eq name (b'.' ∷ b'.' ∷ [])

-- A name that ends with ".so" and is longer than that.
abbrev pub is_library : List ℕ → Bool
is_library name =
    ltb 3 (length name) && text_eq (drop (length name - 3) name) (b'.' ∷ b's' ∷ b'o' ∷ [])

abbrev pub join : List ℕ → List ℕ → List ℕ
join base name = base ++ b'/' ∷ name

-- One library, with the call that its first function is for.
pub load_library : (ℕ → Event) → List ℕ → Option ℕ → Bool → Loader → Loader
load_library init path none has_init s = s
load_library init path (some handle) has_init s =
    log (loaded path handle ∷ (if has_init then init handle ∷ [] else [])) (record_handle handle s)

-- The body of the two functions that walk a directory, which differ in the function they call.
unfoldable mutual
  unfolding load_library

  pub load_node : (ℕ → Event) → List ℕ → List ℕ → Node → Loader → Loader
  load_node init path name (folder es) s = load_entries init path es s
  load_node init path name closed_folder s = s
  load_node init path name (regular handle has_init) s =
      if is_library name then load_library init path handle has_init s else s
  load_node init path name special s = s

  pub load_entries : (ℕ → Event) → List ℕ → Entries → Loader → Loader
  load_entries init base no_entry s = s
  load_entries init base (entry name node es) s =
      load_entries init base es
        (if is_dot name then s else load_node init (join base name) name node s)

pub load_directory : (ℕ → Event) → List ℕ → Option Entries → Loader → Loader
unfolding load_entries
load_directory init base none s = s
load_directory init base (some es) s = load_entries init base es s

pub load_hal_directory : List ℕ → Option Entries → Loader → Loader
unfolding load_directory
load_hal_directory base_path dir s = load_directory hal_init base_path dir s

pub load_api_directory : List ℕ → Option Entries → Loader → Loader
unfolding load_directory
load_api_directory base_path dir s = load_directory api_init base_path dir s

-- The loop of `cleanup` for the indices below `i`.
pub close_below : List ℕ → ℕ → List Event
close_below handles zero = []
close_below handles (suc i) = elim (get_elem? handles i) [
  | none ↦ close_below handles i
  | some handle ↦ closed handle ∷ close_below handles i
]

pub cleanup : Loader → Loader
unfolding close_below
cleanup s = record {
  loaded_handles = [];
  events = s.events ++ close_below s.loaded_handles (length s.loaded_handles);
}

-- The two directories.
abbrev pub hal_path : List ℕ
hal_path = b'/' ∷ b'u' ∷ b's' ∷ b'r' ∷ b'/' ∷ b'l' ∷ b'i' ∷ b'b' ∷ b'/' ∷ b'h' ∷ b'a' ∷ b'l' ∷ []

abbrev pub api_path : List ℕ
api_path = b'/' ∷ b'u' ∷ b's' ∷ b'r' ∷ b'/' ∷ b'l' ∷ b'i' ∷ b'b' ∷ b'/' ∷ b'a' ∷ b'p' ∷ b'i' ∷ []

-- The process and the system that it runs on: `sym` and `symb` with 0 for NULL, the table of the
-- device, the number of its files on the device that are open, and the loaded libraries.
pub record Session : Type 0 where
  pub pid : ℕ
  pub sym : ℕ
  pub symb : ℕ
  pub table : Table
  pub open_files : ℕ
  pub loader : Loader

-- What the system answers: whether the device opens, the memory that `calloc` gives, and the trees.
pub record System : Type 0 where
  pub device_opens : Bool
  pub allocated : ℕ
  pub hal : Option Entries
  pub api : Option Entries

-- `ldinit`; `none` is `exit(1)`. The device stays open.
pub ldinit : System → Session → Option Session
unfolding load_hal_directory load_api_directory
ldinit sys p =
    if not sys.device_opens
    then none
    else let symb = if p.sym == 0 then sys.allocated else p.sym in
      let fresh : Loader = record p.loader { loaded_handles = [] } in
      some (record p {
        symb = symb;
        table = (dioctl p.pid (registers symb) p.table).0;
        open_files = suc p.open_files;
        loader = load_api_directory api_path sys.api (load_hal_directory hal_path sys.hal fresh);
      })

-- The answers to the calls after `ldinit`, where the device opens again or not: whether the ioctl can
-- write, and the address of the mapping of that many bytes.
pub record Mapping : Type 0 where
  pub opens : Bool
  pub copied : Bool
  pub mmap : ℕ → Option ℕ

pub data Mapped : Type 0 where
  failed : Session → Mapped
  mapped : (table_s : ℕ) → Session → Mapped

-- What `_AutumnSys_SaveTable` and `_AutumnSys_GetTable` have in common. The result has the size of
-- the mapping that was made.
pub map_table : Mapping → Session → Mapped
map_table a p = if not a.opens then failed p else elim (dioctl p.pid (gets a.copied) p.table).1 [
  | Answer.found table_s ↦ elim (a.mmap table_s) [
    | none ↦ failed (record p { sym = 0 })
    | some address ↦ mapped table_s (record p { sym = address; open_files = suc p.open_files })
  ]
  | Answer.success ↦ failed p
  | Answer.eperm ↦ failed p
  | Answer.efault ↦ failed p
  | Answer.einval ↦ failed p
]

-- The address that is returned, with 0 for NULL, and the process; `none` is the end of the process.
pub save_table : System → Mapping → Session → Option (ℕ × Session)
save_table sys a p = if not (p.sym == 0) then some (p.sym, p) else elim (ldinit sys p) [
  | none ↦ none
  | some p' ↦ elim (map_table a p') [
    | failed p'' ↦ some (0, p'')
    | mapped table_s p'' ↦
        some (p''.sym, record p'' { table = (dioctl p''.pid (registers p''.sym) p''.table).0 })
  ]
]

pub get_table : System → Mapping → Session → Option (ℕ × Session)
get_table sys a p = if not (p.sym == 0) then some (p.sym, p) else elim (ldinit sys p) [
  | none ↦ none
  | some p' ↦ elim (map_table a p') [
    | failed p'' ↦ some (0, p'')
    | mapped table_s p'' ↦ some (p''.sym, p'')
  ]
]
