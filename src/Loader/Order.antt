-- ===== src/Loader/Order.antt =====
-- The libraries in the order in which they are loaded, and what closes them.
pub mod Close
use autumnos_mobile.Common.{
  ℕ, zero, suc, ◌+◌, ◌-◌, ◌≤◌, ◌<◌, ◌≡◌, refl, ap, sym, ◌∙◌, Bool, true, false, not, Option, none,
  some, List, [], ◌∷◌, ◌++◌, map, arith, ltb, if◌then◌else◌, length, take, get_elem?, length-append,
  length-take, min, Bool-cases, inl, inr, append-nil, append_assoc, take_all,
}
use autumnos_mobile.Tabl.{Table}
use autumnos_mobile.Loader.{
  Node, folder, closed_folder, regular, special, Entries, no_entry, entry, Event, loaded, hal_init,
  api_init, closed, Loader, is_dot, is_library, join, record_handle, load_library, load_node,
  load_entries, load_directory, load_hal_directory, load_api_directory, close_below, cleanup,
  hal_path, api_path, Session, System, ldinit,
}

-- A library that `dlopen` takes.
pub record Library : Type 0 where
  pub path : List ℕ
  pub handle : ℕ
  pub has_init : Bool

abbrev opened_library : List ℕ → Option ℕ → Bool → List Library
opened_library path none has_init = []
opened_library path (some handle) has_init =
    record { path = path; handle = handle; has_init = has_init } ∷ []

-- The libraries of a tree: a directory's entries in order, with those of a directory in its place.
mutual
  pub node_libraries : List ℕ → List ℕ → Node → List Library
  node_libraries path name (folder es) = libraries path es
  node_libraries path name closed_folder = []
  node_libraries path name (regular handle has_init) =
      if is_library name then opened_library path handle has_init else []
  node_libraries path name special = []

  pub libraries : List ℕ → Entries → List Library
  libraries base no_entry = []
  libraries base (entry name node es) =
      (if is_dot name then [] else node_libraries (join base name) name node) ++ libraries base es

abbrev pub root_libraries : List ℕ → Option Entries → List Library
unfolding libraries
root_libraries base none = []
root_libraries base (some es) = libraries base es

load_all : (ℕ → Event) → List Library → Loader → Loader
unfolding load_library
load_all init [] s = s
load_all init (l ∷ libs) s =
    load_all init libs (load_library init l.path (some l.handle) l.has_init s)

load_all-append :
    (init : ℕ → Event) (a b : List Library) (s : Loader)
    → load_all init (a ++ b) s ≡ load_all init b (load_all init a s)
unfolding load_all
load_all-append init [] b s = refl
load_all-append init (l ∷ a) b s =
    load_all-append init a b (load_library init l.path (some l.handle) l.has_init s)

mutual
  unfolding load_node node_libraries load_all

  load_node-libraries :
      (init : ℕ → Event) (path name : List ℕ) (node : Node) (s : Loader)
      → load_node init path name node s ≡ load_all init (node_libraries path name node) s
  load_node-libraries init path name (folder es) s = load_entries-libraries init path es s
  load_node-libraries init path name closed_folder s = refl
  load_node-libraries init path name (regular none has_init) s =
      elim (Bool-cases (is_library name)) [ inl e ↦ rw e refl | inr e ↦ rw e refl ]
  load_node-libraries init path name (regular (some handle) has_init) s =
      elim (Bool-cases (is_library name)) [ inl e ↦ rw e refl | inr e ↦ rw e refl ]
  load_node-libraries init path name special s = refl

  load_entries-libraries :
      (init : ℕ → Event) (base : List ℕ) (es : Entries) (s : Loader)
      → load_entries init base es s ≡ load_all init (libraries base es) s
  load_entries-libraries init base no_entry s = refl
  load_entries-libraries init base (entry name node es) s = elim (Bool-cases (is_dot name)) [
    | inl e ↦ rw e (load_entries-libraries init base es s)
    | inr e ↦ rw e (
        load_entries-libraries init base es (load_node init (join base name) name node s)
        ∙ ap (load_all init (libraries base es))
            (load_node-libraries init (join base name) name node s)
        ∙ sym (
            load_all-append init (node_libraries (join base name) name node) (libraries base es) s))
  ]

-- What loading libraries does.
abbrev pub events_of : (ℕ → Event) → List Library → List Event
events_of init [] = []
events_of init (l ∷ libs) =
    loaded l.path l.handle
    ∷ ((if l.has_init then init l.handle ∷ [] else []) ++ events_of init libs)

abbrev pub handles : List Library → List ℕ
handles [] = []
handles (l ∷ libs) = l.handle ∷ handles libs

abbrev pub close_reversed : List ℕ → List Event
close_reversed [] = []
close_reversed (h ∷ hs) = close_reversed hs ++ closed h ∷ []

-- What is beyond the first `n` does not matter.
take-append : (n : ℕ) (a b : List ℕ) → n ≤ length a → take n (a ++ b) ≡ take n a
take-append zero a b h = refl
take-append (suc n) [] b h = absurd (omega (arith, h))
take-append (suc n) (x ∷ a) b h = ap (λ t. x ∷ t) (take-append n a b (omega (arith, h)))

record_handle-room :
    (h : ℕ) (s : Loader)
    → length s.loaded_handles ≤ 128
    → (length (record_handle h s).loaded_handles ≤ 128) × ((record_handle h s).events ≡ s.events)
record_handle-room h s small = elim (Bool-cases (ltb (length s.loaded_handles) 128)) [
  | inl room ↦ rw room (more (ground (arith, room)), refl)
  | inr full ↦ rw full (small, refl)
]
  where
    more : length s.loaded_handles < 128 → length (s.loaded_handles ++ h ∷ []) ≤ 128
    more less = omega (arith, less, length-append s.loaded_handles (h ∷ []))

record_handle-first :
    (h : ℕ) (later : List ℕ) (s : Loader)
    → take 128 ((record_handle h s).loaded_handles ++ later)
      ≡ take 128 (s.loaded_handles ++ h ∷ later)
record_handle-first h later s = elim (Bool-cases (ltb (length s.loaded_handles) 128)) [
  | inl room ↦ rw room (ap (take 128) (append_assoc s.loaded_handles (h ∷ []) later))
  | inr full ↦ rw full (
      take-append 128 s.loaded_handles later (ground (arith, full))
      ∙ sym (take-append 128 s.loaded_handles (h ∷ later) (ground (arith, full))))
]

-- The state after loading libraries in a state with at most 128 handles.
after_libraries : (ℕ → Event) → List Library → Loader → Loader
after_libraries init libs s = record {
  loaded_handles = take 128 (s.loaded_handles ++ handles libs);
  events = s.events ++ events_of init libs;
}

after_one :
    (init : ℕ → Event) (l : Library) (libs : List Library) (s : Loader)
    → length s.loaded_handles ≤ 128
    → after_libraries init libs (load_library init l.path (some l.handle) l.has_init s)
      ≡ after_libraries init (l ∷ libs) s
unfolding after_libraries load_library
after_one init l libs s small =
    let (room, quiet) = record_handle-room l.handle s small in
    rw (record_handle-first l.handle (handles libs) s, quiet)
      (rw (append_assoc s.events (one l) (events_of init libs)) refl)
  where
    one : Library → List Event
    one k = loaded k.path k.handle ∷ (if k.has_init then init k.handle ∷ [] else [])

load_all-State :
    (init : ℕ → Event) (libs : List Library) (s : Loader)
    → length s.loaded_handles ≤ 128
    → load_all init libs s ≡ after_libraries init libs s
unfolding load_all load_library after_libraries
load_all-State init [] s h =
    rw (append-nil s.loaded_handles, append-nil s.events, take_all 128 s.loaded_handles h) refl
load_all-State init (l ∷ libs) s h =
    let (room, quiet) = record_handle-room l.handle s h in
    load_all-State init libs (load_library init l.path (some l.handle) l.has_init s) room
    ∙ after_one init l libs s h
