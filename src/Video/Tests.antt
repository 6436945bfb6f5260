-- ===== src/Video/Tests.antt =====
-- A video of two frames, and the theorems at inputs that meet their hypotheses.
use autumnos_mobile.Common.{◌+◌, ◌≡◌, refl, false, some, List, [], ◌∷◌, ◌++◌, arith, pos, negsuc}
use autumnos_mobile.Video.{Demux, cleared, closed, Answers, load_vid, open_mp4, stop_vid}
use autumnos_mobile.Video.Load.{holding}
use autumnos_mobile.Video.Inv.{Call, shows, stops, pauses, resumes, replays, run}
use autumnos_mobile.Video.Owner.{stop_vid-releases}
use autumnos_mobile.Video.Progress.{show_frames, in_order, Fits, load_vid-shows}

abbrev two_frames : Demux
two_frames = record {
  track_count = 1;
  sample_count = 2;
  track_width = 480;
  track_height = 800;
  frame_offset = λ k. (1000 + k, 100 + k);
}

abbrev present : Answers
present = record {
  file = pos 3;
  size = pos 1102;
  address = some 4096;
  reads = 1000 ∷ 102 ∷ [];
  demux = some two_frames;
}

abbrev calls : List Call
calls =
    shows 512 (pos 0) (pos 100)
    ∷ pauses
    ∷ resumes
    ∷ stops
    ∷ replays
    ∷ shows 512 (pos 0) (negsuc 0)
    ∷ []

-- Before any load, a stop closes the file descriptor 0.
stop_vid-first : (stop_vid cleared).1 ≡ closed (pos 0) ∷ []
unfolding stop_vid cleared
stop_vid-first = refl

stop_vid-releases_example :
    let l = load_vid present in
    let (v, events) = run l.video calls in
    holding [] (l.events ++ (events ++ (stop_vid v).1)) ≡ some []
unfolding load_vid open_mp4
stop_vid-releases_example = stop_vid-releases present calls refl refl

all_fit : Fits two_frames 512 2
all_fit k less = (omega arith, omega arith)

load_vid-shows_example :
    let (shown, last) = show_frames (λ k. 1000 + k) (λ k. k) 512 3 0 (load_vid present).video in
    (shown ≡ in_order two_frames 2 0) × (last.playing ≡ false) × (last.cur_frm ≡ 2)
unfolding load_vid open_mp4
load_vid-shows_example =
    load_vid-shows present two_frames (λ k. 1000 + k) (λ k. k) 512 refl refl (omega arith) all_fit
