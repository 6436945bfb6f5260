-- ===== src/Loader/Tests.antt =====
-- A tree of libraries, and the theorems at inputs that meet their hypotheses.
use autumnos_mobile.Common.{
  ℕ, ◌≡◌, refl, ◌++◌, true, false, none, some, List, [], ◌∷◌, text_eq, take,
}
use autumnos_mobile.Loader.{
  folder, closed_folder, regular, Entries, no_entry, entry, loaded, hal_init, api_init,
  load_entries, load_library, load_directory, load_hal_directory, hal_path, api_path, join, Session,
  System, ldinit, Mapping,
}
use autumnos_mobile.Loader.Order.{root_libraries, events_of, handles, close_reversed}
use autumnos_mobile.Loader.Order.Close.{cleaned, ldinit-cleanup}

abbrev a_so : List ℕ
a_so = b'a' ∷ b'.' ∷ b's' ∷ b'o' ∷ []

abbrev b_so : List ℕ
b_so = b'b' ∷ b'.' ∷ b's' ∷ b'o' ∷ []

-- /usr/lib/hal with a directory "x" that holds "b.so" and a link to itself, before "a.so" and a text.
abbrev hal_tree : Entries
hal_tree = entry (b'.' ∷ []) closed_folder (
    entry (b'x' ∷ [])
      (folder
        (entry b_so (regular (some 11) false) (entry (b'.' ∷ b'.' ∷ []) closed_folder no_entry)))
      (entry a_so (regular (some 12) true) (entry (b't' ∷ []) (regular (some 13) true) no_entry)))

abbrev system : System
system = record {
  device_opens = true;
  allocated = 4096;
  hal = some hal_tree;
  api = some (entry a_so (regular (some 14) true) no_entry);
}

abbrev process : Session
process = record {
  pid = 7;
  sym = 0;
  symb = 0;
  table = record { reg_srv_data = 0; session_pid = 0 };
  open_files = 0;
  loader = record { loaded_handles = []; events = [] };
}

load-hal :
    (load_hal_directory hal_path (some hal_tree) process.loader).events
    ≡ loaded (join (join hal_path (b'x' ∷ [])) b_so) 11
      ∷ loaded (join hal_path a_so) 12
      ∷ hal_init 12
      ∷ []
unfolding load_hal_directory load_directory load_entries load_library text_eq
load-hal = refl

ldinit-cleanup_example :
    let hal = root_libraries hal_path system.hal in
    let api = root_libraries api_path system.api in
    cleaned (ldinit system process)
    ≡ some (record {
      loaded_handles = [];
      events =
          (([] ++ events_of hal_init hal) ++ events_of api_init api)
          ++ close_reversed (take 128 (handles hal ++ handles api));
    })
ldinit-cleanup_example = ldinit-cleanup system process refl

-- A device without a mapping, as that of Tabl is.
abbrev no_mapping : Mapping
no_mapping = record { opens = true; copied = true; mmap = λ size. none }
