-- ===== src/Video/Inv.antt =====
-- The invariant of the video over any calls.
use autumnos_mobile.Common.{
  ℕ, zero, suc, ◌≤◌, ◌<◌, ◌≡◌, refl, sym, ◌∙◌, Bool, true, false, not, ◌||◌, Option, none, some,
  List, [], ◌∷◌, ◌++◌, arith, ltb, ℤ, pos, negsuc, Bool-cases, inl, inr,
}
use autumnos_mobile.Video.Load.{Loads, load_vid-Loads}
use autumnos_mobile.Video.{
  Loaded, Video, Event, cleared, Answers, load_vid, get_next_vid_frm, read_frame, stop_vid,
  pause_vid, resume_vid, replay_vid,
}

pub data Call : Type 0 where
  loads : Answers → Call
  shows : ℕ → ℤ → ℤ → Call
  stops : Call
  pauses : Call
  resumes : Call
  replays : Call

-- The video after a call, and what the call acquired and gave back.
unfoldable pub step : Video → Call → Video × List Event
unfolding load_vid get_next_vid_frm stop_vid pause_vid resume_vid replay_vid
step v (loads a) = let l = load_vid a in (l.video, l.events)
step v (shows frm_siz seek r) = ((get_next_vid_frm v frm_siz seek r).video, [])
step v stops = stop_vid v
step v pauses = (pause_vid v, [])
step v resumes = (resume_vid v, [])
step v replays = ((replay_vid v).1, [])

unfoldable pub run : Video → List Call → Video × List Event
unfolding step
run v [] = (v, [])
run v (call ∷ calls) =
    let (v', events) = step v call in let (v'', later) = run v' calls in (v'', events ++ later)

-- The next frame is one of the video's or the end, and only what is played is paused.
pub record IsValid (v : Video) : Type 0 where
  pub in_file : v.cur_frm ≤ v.tot_frm
  pub paused_plays : v.paused ≡ true → v.playing ≡ true

pub cleared-IsValid : (f : ℤ) (b : Option ℕ) → IsValid (record cleared { fd = f; buf = b })
unfolding cleared
cleared-IsValid f b = record { in_file = omega arith; paused_plays = λ e. cc }

load_vid-IsValid : (a : Answers) (l : Loaded) → Loads a l → IsValid l.video
unfolding cleared
load_vid-IsValid a l (Loads.refused k b result video events) = rw video (cleared-IsValid a.file b)
load_vid-IsValid a l (Loads.succeeds address mp4 up demux result video events) =
    rw video (record { in_file = omega arith; paused_plays = λ e. refl })

read_frame-IsValid :
    (v : Video) (frm_siz : ℕ) (frame : ℕ × ℕ) (seek r : ℤ)
    → IsValid v
    → v.cur_frm < v.tot_frm
    → IsValid (read_frame v frm_siz frame seek r).video
unfolding read_frame
read_frame-IsValid v frm_siz frame seek (negsuc k) valid more = ground (arith, valid)
read_frame-IsValid v frm_siz frame seek (pos zero) valid more = ground (arith, valid)
read_frame-IsValid v frm_siz frame seek (pos (suc n)) valid more = ground (arith, valid, more)

shows-IsValid :
    (v : Video) (frm_siz : ℕ) (seek r : ℤ)
    → IsValid v
    → IsValid (get_next_vid_frm v frm_siz seek r).video
unfolding get_next_vid_frm
shows-IsValid v frm_siz seek r valid = elim (Bool-cases (not v.playing || v.paused)) [
  | inl idle ↦ rw idle valid
  | inr busy ↦ rw busy (elim (Bool-cases (ltb v.cur_frm v.tot_frm)) [
    | inl more ↦
        rw more
          (read_frame-IsValid v frm_siz (v.mp4.frame_offset v.cur_frm) seek r valid (below more))
    | inr end ↦
        rw end
          (record { in_file = valid.in_file; paused_plays = not_paused v.playing v.paused busy })
  ])
]
  where
    below : ltb v.cur_frm v.tot_frm ≡ true → v.cur_frm < v.tot_frm
    below t = ground (arith, t)

    not_paused : (p q : Bool) → not p || q ≡ false → q ≡ true → false ≡ true
    not_paused p q e t = ground (arith, e, t)

replay_vid-IsValid : (v : Video) (b : Option ℕ) → v.buf ≡ b → IsValid v → IsValid (replay_vid v).1
unfolding replay_vid
replay_vid-IsValid v none e valid =
    rw e (record { in_file = valid.in_file; paused_plays = valid.paused_plays })
replay_vid-IsValid v (some address) e valid =
    rw e (record { in_file = omega arith; paused_plays = λ t. refl })

step-IsValid : (v : Video) (call : Call) → IsValid v → IsValid (step v call).0
unfolding step stop_vid pause_vid resume_vid
step-IsValid v (loads a) valid = load_vid-IsValid a (load_vid a) (load_vid-Loads a)
step-IsValid v (shows frm_siz seek r) valid = shows-IsValid v frm_siz seek r valid
step-IsValid v stops valid = record { in_file = omega arith; paused_plays = λ e. cc }
step-IsValid v pauses valid = elim (Bool-cases v.playing) [
  | inl on ↦ rw on (record { in_file = valid.in_file; paused_plays = λ t. refl })
  | inr off ↦
      rw off
        (record { in_file = valid.in_file; paused_plays = λ t. sym off ∙ valid.paused_plays t })
]
step-IsValid v resumes valid = elim (Bool-cases v.playing) [
  | inl on ↦ rw on (record { in_file = valid.in_file; paused_plays = λ t. cc })
  | inr off ↦
      rw off
        (record { in_file = valid.in_file; paused_plays = λ t. sym off ∙ valid.paused_plays t })
]
step-IsValid v replays valid = replay_vid-IsValid v v.buf refl valid

-- Whatever the system, the file and minimp4 answer, any calls of the API, loads that fail among
-- them, lead from a valid state to a valid one: the frame that is next lies in the video or is its
-- end, and only a video that plays is paused.
pub run-IsValid : (calls : List Call) (v : Video) → IsValid v → IsValid (run v calls).0
unfolding run
run-IsValid [] v valid = valid
run-IsValid (call ∷ calls) v valid = run-IsValid calls (step v call).0 (step-IsValid v call valid)
