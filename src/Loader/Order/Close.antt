-- ===== src/Loader/Order/Close.antt =====
-- A whole start of the loader, and the end that follows it.
use autumnos_mobile.Common.{
  ℕ, zero, suc, ◌≤◌, ◌≡◌, refl, ap, ◌∙◌, true, Option, none, some, List, [], ◌∷◌, ◌++◌, arith,
  length, take, get_elem?, length-take,
}
use autumnos_mobile.Loader.{
  Entries, Event, hal_init, api_init, closed, Loader, load_directory, load_hal_directory,
  load_api_directory, close_below, cleanup, hal_path, api_path, Session, System, ldinit,
}
use autumnos_mobile.Loader.Order.{
  Library, root_libraries, libraries, load_all, load_all-State, load_entries-libraries,
  after_libraries, events_of, handles, close_reversed,
}

close_below-cons :
    (h : ℕ) (hs : List ℕ) (i : ℕ)
    → i ≤ length hs
    → close_below (h ∷ hs) (suc i) ≡ close_below hs i ++ closed h ∷ []
unfolding close_below
close_below-cons h hs zero small = refl
close_below-cons h hs (suc i) small =
    by_element (get_elem? hs i) (close_below-cons h hs i (omega (arith, small)))
  where
    by_element :
        (e : Option ℕ) {below : List Event}
        → below ≡ close_below hs i ++ closed h ∷ []
        → (elim e [ none ↦ below | some handle ↦ closed handle ∷ below ])
          ≡ (elim e [ none ↦ close_below hs i | some handle ↦ closed handle ∷ close_below hs i ])
            ++ closed h ∷ []
    by_element none e = e
    by_element (some handle) e = ap (λ t. closed handle ∷ t) e

close_below-all : (hs : List ℕ) → close_below hs (length hs) ≡ close_reversed hs
unfolding close_below
close_below-all [] = refl
close_below-all (h ∷ hs) =
    close_below-cons h hs (length hs) (omega arith)
    ∙ ap (λ t. t ++ closed h ∷ []) (close_below-all hs)

take-take_append : (n : ℕ) (a b : List ℕ) → take n (take n a ++ b) ≡ take n (a ++ b)
take-take_append zero a b = refl
take-take_append (suc n) [] b = refl
take-take_append (suc n) (x ∷ a) b = ap (λ t. x ∷ t) (take-take_append n a b)

load_directory-libraries :
    (init : ℕ → Event) (base : List ℕ) (dir : Option Entries) (s : Loader)
    → length s.loaded_handles ≤ 128
    → load_directory init base dir s ≡ after_libraries init (root_libraries base dir) s
unfolding load_directory root_libraries load_all
load_directory-libraries init base none s small = load_all-State init [] s small
load_directory-libraries init base (some es) s small =
    load_entries-libraries init base es s ∙ load_all-State init (libraries base es) s small

-- `cleanup` after a start.
abbrev pub cleaned : Option Session → Option Loader
unfolding cleanup
cleaned none = none
cleaned (some p) = some (cleanup p.loader)

short :
    (libs : List Library) (s : Loader)
    → s.loaded_handles ≡ []
    → length (after_libraries hal_init libs s).loaded_handles ≤ 128
unfolding after_libraries
short libs s e = omega (arith, length-take 128 (s.loaded_handles ++ handles libs))

cleanup-libraries :
    (hal api : List Library) (s : Loader)
    → s.loaded_handles ≡ []
    → cleanup (after_libraries api_init api (after_libraries hal_init hal s)) ≡ record {
      loaded_handles = [];
      events =
          ((s.events ++ events_of hal_init hal) ++ events_of api_init api)
          ++ close_reversed (take 128 (handles hal ++ handles api));
    }
unfolding cleanup after_libraries
cleanup-libraries hal api s e =
    rw
      (
        e,
        close_below-all (take 128 (take 128 (handles hal) ++ handles api)),
        take-take_append 128 (handles hal) (handles api),
      )
      refl

-- A start on a system where the device opens loads all libraries of /usr/lib/hal and then all of
-- /usr/lib/api, each tree in the order of its directories, a directory's files where it stands, and
-- calls the first function of each right after it is loaded. The end after it closes the first 128 of
-- the handles, which are all if there are no more, in the reverse of the order of their loading, and
-- keeps none. Files that are no libraries, cannot be loaded or are named by a dot or two are left out.
pub ldinit-cleanup :
    (sys : System) (p : Session)
    → sys.device_opens ≡ true
    → let hal = root_libraries hal_path sys.hal in
      let api = root_libraries api_path sys.api in
      cleaned (ldinit sys p)
      ≡ some (record {
        loaded_handles = [];
        events =
            ((p.loader.events ++ events_of hal_init hal) ++ events_of api_init api)
            ++ close_reversed (take 128 (handles hal ++ handles api));
      })
unfolding ldinit cleanup cleaned load_hal_directory load_api_directory
ldinit-cleanup sys p opens =
    let fresh : Loader = record p.loader { loaded_handles = [] } in
    let hal = root_libraries hal_path sys.hal in
    let api = root_libraries api_path sys.api in
    let first = load_directory-libraries hal_init hal_path sys.hal fresh (omega arith) in
    let second =
      load_directory-libraries api_init api_path sys.api (after_libraries hal_init hal fresh)
        (short hal fresh refl) in
    rw opens (
      ap (λ l. some (cleanup l)) (ap (load_directory api_init api_path sys.api) first ∙ second)
      ∙ ap some (cleanup-libraries hal api fresh refl))
