-- ===== src/Video/Owner.antt =====
-- What a video that was loaded holds until it is stopped.
use autumnos_mobile.Common.{
  ℕ, zero, suc, ◌≡◌, refl, ap, sym, ◌∙◌, Bool, true, false, Option, none, some, List, [], ◌∷◌, ◌++◌,
  arith, if◌then◌else◌, ℤ, pos, negsuc, ltb_ℤ, eqb_ℤ, ◌==◌, Bool-cases, inl, inr,
}
use autumnos_mobile.Video.{
  Video, Event, opened, closed, allocated, freed, Answers, Loaded, load_vid, get_next_vid_frm,
  read_frame, stop_vid, pause_vid, resume_vid, replay_vid, cleared,
}
use autumnos_mobile.Video.Load.{
  Handle, file, memory, holding, same_file, same_memory, Loads, load_vid-Loads,
}
use autumnos_mobile.Video.Inv.{Call, loads, shows, stops, pauses, resumes, replays, step, run}

-- The file and the memory of a video are those that are held, or it has none.
pub data Owns (v : Video) : List Handle → Type 0 where
  loaded :
      (f : ℤ) (b : ℕ)
      → v.fd ≡ f
      → ltb_ℤ f (pos 0) ≡ false
      → v.buf ≡ some b
      → Owns v (memory b ∷ file f ∷ [])
  stopped : v.fd ≡ negsuc 0 → v.buf ≡ none → Owns v []

-- Calls that load nothing.
abbrev pub plays_only : List Call → Bool
plays_only [] = true
plays_only (loads a ∷ calls) = false
plays_only (call ∷ calls) = plays_only calls

-- The next state still owns what is held after the events.
record Keeps (held : List Handle) (next : Video × List Event) : Type 0 where
  holds : List Handle
  reached : holding held next.1 ≡ some holds
  owns : Owns next.0 holds

same_handles :
    (v w : Video) (held : List Handle) → v.fd ≡ w.fd → v.buf ≡ w.buf → Owns v held → Owns w held
same_handles v w held ef eb (Owns.loaded f b fd up buf) =
    Owns.loaded f b (sym ef ∙ fd) up (sym eb ∙ buf)
same_handles v w held ef eb (Owns.stopped fd buf) = Owns.stopped (sym ef ∙ fd) (sym eb ∙ buf)

stop-Keeps : (v : Video) (held : List Handle) → Owns v held → Keeps held (stop_vid v)
unfolding stop_vid
stop-Keeps v held (Owns.loaded f b fd up buf) = record {
  holds = [];
  reached = rw (fd, buf, up, same_memory b, same_file f) refl;
  owns = Owns.stopped (rw (fd, up) refl) refl;
}
stop-Keeps v held (Owns.stopped fd buf) = record {
  holds = [];
  reached = rw (fd, buf) refl;
  owns = Owns.stopped (rw fd refl) refl;
}

unchanged :
    (v w : Video) (held : List Handle)
    → v.fd ≡ w.fd
    → v.buf ≡ w.buf
    → Owns v held
    → Keeps held (w, [])
unchanged v w held ef eb owns = record {
  holds = held;
  reached = refl;
  owns = same_handles v w held ef eb owns;
}

-- Showing a frame, pausing and starting again leave the file and the memory as they are.
shows-handles :
    (v : Video) (frm_siz : ℕ) (seek r : ℤ)
    → (v.fd ≡ (get_next_vid_frm v frm_siz seek r).video.fd)
      × (v.buf ≡ (get_next_vid_frm v frm_siz seek r).video.buf)
unfolding get_next_vid_frm read_frame
shows-handles v frm_siz seek (negsuc k) = (ground arith, ground arith)
shows-handles v frm_siz seek (pos zero) = (ground arith, ground arith)
shows-handles v frm_siz seek (pos (suc n)) = (ground arith, ground arith)

replay-handles :
    (v : Video) (b : Option ℕ)
    → v.buf ≡ b
    → (v.fd ≡ (replay_vid v).1.fd) × (v.buf ≡ (replay_vid v).1.buf)
unfolding replay_vid
replay-handles v none e = rw e (refl, refl)
replay-handles v (some address) e = rw e (refl, refl)

step-Keeps :
    (v : Video) (call : Call) (held : List Handle)
    → plays_only (call ∷ []) ≡ true
    → Owns v held
    → Keeps held (step v call)
unfolding step pause_vid resume_vid
step-Keeps v (loads a) held only owns = cc
step-Keeps v (shows frm_siz seek r) held only owns =
    let (ef, eb) = shows-handles v frm_siz seek r in
    unchanged v (get_next_vid_frm v frm_siz seek r).video held ef eb owns
step-Keeps v stops held only owns = stop-Keeps v held owns
step-Keeps v pauses held only owns =
    unchanged v (pause_vid v) held (ground arith) (ground arith) owns
step-Keeps v resumes held only owns =
    unchanged v (resume_vid v) held (ground arith) (ground arith) owns
step-Keeps v replays held only owns =
    let (ef, eb) = replay-handles v v.buf refl in unchanged v (replay_vid v).1 held ef eb owns

stop-Nothing :
    (v : Video) (held : List Handle) → Owns v held → holding held (stop_vid v).1 ≡ some []
unfolding stop_vid
stop-Nothing v held (Owns.loaded f b fd up buf) = rw (fd, buf, up, same_memory b, same_file f) refl
stop-Nothing v held (Owns.stopped fd buf) = rw (fd, buf) refl

mismatch : {held : List Handle} → ¬ (none ≡ some held)
mismatch e = cc

no_success : (k : ℕ) → ¬ (negsuc k ≡ pos 0)
no_success k e = cc

plays_only-cons :
    (call : Call) (calls : List Call)
    → plays_only (call ∷ calls) ≡ true
    → (plays_only (call ∷ []) ≡ true) × (plays_only calls ≡ true)
plays_only-cons (loads a) calls e = cc
plays_only-cons (shows frm_siz seek r) calls e = (refl, e)
plays_only-cons stops calls e = (refl, e)
plays_only-cons pauses calls e = (refl, e)
plays_only-cons resumes calls e = (refl, e)
plays_only-cons replays calls e = (refl, e)

-- Events that end with `held` go on from there.
holding-append :
    (from held : List Handle) (events later : List Event)
    → holding from events ≡ some held
    → holding from (events ++ later) ≡ holding held later
holding-append from held [] later e = ap (λ h. holding h later) (some_injective from held e)
  where
    some_injective : (x y : List Handle) → some x ≡ some y → x ≡ y
    some_injective x y t = cc
holding-append from held (opened f ∷ events) later e =
    holding-append (file f ∷ from) held events later e
holding-append from held (allocated b ∷ events) later e =
    holding-append (memory b ∷ from) held events later e
holding-append [] held (closed f ∷ events) later e = cc
holding-append (file g ∷ from) held (closed f ∷ events) later e = elim (Bool-cases (eqb_ℤ g f)) [
  | inl same ↦ rw same (
      holding-append from held events later
        (sym (ap (λ t. if t then holding from events else none) same) ∙ e))
  | inr other ↦
      absurd (mismatch (sym (ap (λ t. if t then holding from events else none) other) ∙ e))
]
holding-append (memory b ∷ from) held (closed f ∷ events) later e = cc
holding-append [] held (freed b ∷ events) later e = cc
holding-append (file g ∷ from) held (freed b ∷ events) later e = cc
holding-append (memory c ∷ from) held (freed b ∷ events) later e = elim (Bool-cases (c == b)) [
  | inl same ↦ rw same (
      holding-append from held events later
        (sym (ap (λ t. if t then holding from events else none) same) ∙ e))
  | inr other ↦
      absurd (mismatch (sym (ap (λ t. if t then holding from events else none) other) ∙ e))
]

run-Keeps :
    (calls : List Call) (v : Video) (held : List Handle)
    → plays_only calls ≡ true
    → Owns v held
    → Keeps held (run v calls)
unfolding run
run-Keeps [] v held only owns = record { holds = held; reached = refl; owns = owns }
run-Keeps (call ∷ calls) v held only owns =
    let (first, others) = plays_only-cons call calls only in
    let one = step-Keeps v call held first owns in
    let rest = run-Keeps calls (step v call).0 one.holds others one.owns in
    record {
      holds = rest.holds;
      reached =
          holding-append held one.holds (step v call).1 (run (step v call).0 calls).1 one.reached
          ∙ rest.reached;
      owns = rest.owns;
    }

opened-Owns :
    (a : Answers) (l : Loaded) → Loads a l → l.result ≡ pos 0 → Keeps [] (l.video, l.events)
unfolding cleared
opened-Owns a l (Loads.refused k b result video events) success =
    absurd (no_success k (sym result ∙ success))
opened-Owns a l (Loads.succeeds address mp4 up demux result video events) success = record {
  holds = memory address ∷ file a.file ∷ [];
  reached = rw events refl;
  owns = rw video (Owns.loaded a.file address refl up refl);
}

-- A video that was loaded with success, then shown, paused, resumed, replayed and stopped in any
-- order, and stopped at the end, has its file closed and its memory freed, each once and in that
-- order after its opening, whatever the system answers: nothing is held at the end.
pub stop_vid-releases :
    (a : Answers) (calls : List Call)
    → (load_vid a).result ≡ pos 0
    → plays_only calls ≡ true
    → let l = load_vid a in
      let (v, events) = run l.video calls in
      holding [] (l.events ++ (events ++ (stop_vid v).1)) ≡ some []
stop_vid-releases a calls success only =
    let l = load_vid a in
    let start = opened-Owns a l (load_vid-Loads a) success in
    let played = run-Keeps calls l.video start.holds only start.owns in
    let ended = stop-Nothing (run l.video calls).0 played.holds played.owns in
    holding-append [] start.holds l.events
      ((run l.video calls).1 ++ (stop_vid (run l.video calls).0).1) start.reached
    ∙ holding-append start.holds played.holds (run l.video calls).1
        (stop_vid (run l.video calls).0).1 played.reached
    ∙ ended
