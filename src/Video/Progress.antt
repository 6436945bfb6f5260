-- ===== src/Video/Progress.antt =====
-- A loaded video is shown frame by frame to its end.
use autumnos_mobile.Common.{
  ℕ, zero, suc, ◌+◌, ◌≤◌, ◌<◌, ◌≡◌, refl, ap, sym, ◌∙◌, true, false, Option, none, some, List, [],
  ◌∷◌, arith, ltb, ℤ, pos, negsuc, ltb_ℤ,
}
use autumnos_mobile.Video.{
  Demux, Video, Answers, load_vid, Loaded, get_next_vid_frm, read_frame, cleared,
}
use autumnos_mobile.Video.Load.{Loads, load_vid-Loads}

-- Some calls of `get_next_vid_frm` with a buffer of `frm_siz` bytes: what each returns and where it
-- seeks, and the video at the end. Call `i` seeks to the place `seeks i` and reads `suc (sizes i)`
-- bytes.
pub show_frames : (ℕ → ℕ) → (ℕ → ℕ) → ℕ → ℕ → ℕ → Video → List (ℤ × Option ℕ) × Video
unfolding get_next_vid_frm
show_frames seeks sizes frm_siz zero i v = ([], v)
show_frames seeks sizes frm_siz (suc n) i v =
    let frame = get_next_vid_frm v frm_siz (pos (seeks i)) (pos (suc (sizes i))) in
    let (later, last) = show_frames seeks sizes frm_siz n (suc i) frame.video in
    ((frame.result, frame.sought) ∷ later, last)

-- The frames of a file from number `i` on, and the end of the video.
abbrev pub in_order : Demux → ℕ → ℕ → List (ℤ × Option ℕ)
in_order mp4 zero i = (pos 0, none) ∷ []
in_order mp4 (suc left) i = (pos 1, some (mp4.frame_offset i).0) ∷ in_order mp4 left (suc i)

-- A video that is being shown, with frame `i` next.
abbrev showing : ℤ → Option ℕ → Demux → ℕ → ℕ → ℕ → ℕ → Video
showing f b mp4 w h total i = record {
  fd = f;
  buf = b;
  mp4 = mp4;
  cur_frm = i;
  tot_frm = total;
  playing = true;
  paused = false;
  width = w;
  height = h;
}

is_below : (x y : ℕ) → x < y → ltb x y ≡ true
is_below x y t = ground (arith, t)

not_below : (x y : ℕ) → y ≤ x → ltb x y ≡ false
not_below x y t = ground (arith, t)

at_end : (k n : ℕ) → k + 0 ≡ n → k ≡ n
at_end k n t = omega (arith, t)

-- Every frame has bytes, and no more than the buffer.
abbrev pub Fits : Demux → ℕ → ℕ → Type 0
Fits mp4 frm_siz total =
    (k : ℕ) → k < total → (0 < (mp4.frame_offset k).1) × ((mp4.frame_offset k).1 ≤ frm_siz)

module _ (f : ℤ) (b : Option ℕ) (mp4 : Demux) (w h total frm_siz : ℕ) (up : ltb_ℤ f (pos 0) ≡ false)
    (fits : Fits mp4 frm_siz total) where
  one_frame :
      (i k r : ℕ)
      → i < total
      → get_next_vid_frm (showing f b mp4 w h total i) frm_siz (pos k) (pos (suc r)) ≡ record {
        result = pos 1;
        sought = some (mp4.frame_offset i).0;
        out_size = some (suc r);
        video = showing f b mp4 w h total (suc i);
      }
  unfolding get_next_vid_frm read_frame
  one_frame i k r less =
      let (some_bytes, small) = fits i less in
      let arrives : ltb_ℤ (pos k) (pos 0) ≡ false = ground arith in
      rw
        (
          is_below i total less,
          is_below 0 (mp4.frame_offset i).1 some_bytes,
          not_below frm_siz (mp4.frame_offset i).1 small,
          up,
          arrives,
        )
        refl

  no_more :
      (i : ℕ) (seek r : ℤ)
      → i ≡ total
      → get_next_vid_frm (showing f b mp4 w h total i) frm_siz seek r ≡ record {
        result = pos 0;
        sought = none;
        out_size = none;
        video = record (showing f b mp4 w h total i) { playing = false };
      }
  unfolding get_next_vid_frm
  no_more i seek r e = rw (not_below i total (omega (arith, e))) refl

  show_frames-in_order :
      (seeks sizes : ℕ → ℕ) (left i : ℕ)
      → i + left ≡ total
      → let (shown, last) =
          show_frames seeks sizes frm_siz (suc left) i (showing f b mp4 w h total i) in
        (shown ≡ in_order mp4 left i) × (last.playing ≡ false) × (last.cur_frm ≡ total)
  unfolding show_frames
  show_frames-in_order seeks sizes zero i e =
      rw (no_more i (pos (seeks i)) (pos (suc (sizes i))) (at_end i total e))
        (refl, refl, at_end i total e)
  show_frames-in_order seeks sizes (suc left) i e =
      let (shown, off, last) = show_frames-in_order seeks sizes left (suc i) (omega (arith, e)) in
      rw (one_frame i (seeks i) (sizes i) (omega (arith, e)))
        (ap (λ l. (pos 1, some (mp4.frame_offset i).0) ∷ l) shown, off, last)

loaded-shows :
    (a : Answers) (mp4 : Demux) (seeks sizes : ℕ → ℕ) (frm_siz : ℕ) (l : Loaded)
    → Loads a l
    → l.result ≡ pos 0
    → a.demux ≡ some mp4
    → 0 < mp4.track_count
    → Fits mp4 frm_siz mp4.sample_count
    → let (shown, last) = show_frames seeks sizes frm_siz (suc mp4.sample_count) 0 l.video in
      (shown ≡ in_order mp4 mp4.sample_count 0)
      × (last.playing ≡ false)
      × (last.cur_frm ≡ mp4.sample_count)
unfolding cleared
loaded-shows a mp4 seeks sizes frm_siz l (Loads.refused k b result video events) ok demux track
      fits =
    absurd (clash (sym result ∙ ok))
  where
    clash : ¬ (negsuc k ≡ pos 0)
    clash t = cc
loaded-shows a mp4 seeks sizes frm_siz l (Loads.succeeds address other up found result video events)
      ok demux track fits =
    rw (video, same other (sym found ∙ demux), is_below 0 mp4.track_count track)
      (show_frames-in_order a.file (some address) mp4 mp4.track_width mp4.track_height
        mp4.sample_count frm_siz up fits seeks sizes mp4.sample_count 0 (omega arith))
  where
    same : (d : Demux) → some d ≡ some mp4 → d ≡ mp4
    same d t = cc

-- A file that was loaded with success, of which every frame has at least one byte and fits the
-- buffer, is shown to its end in order, if no seek fails, wherever it says that it arrives, and each
-- read gives some bytes: as many calls as there are frames
-- return 1 and read the frames one after the other from their places, the next call returns 0, and
-- the video no longer plays.
pub load_vid-shows :
    (a : Answers) (mp4 : Demux) (seeks sizes : ℕ → ℕ) (frm_siz : ℕ)
    → (load_vid a).result ≡ pos 0
    → a.demux ≡ some mp4
    → 0 < mp4.track_count
    → Fits mp4 frm_siz mp4.sample_count
    → let (shown, last) =
        show_frames seeks sizes frm_siz (suc mp4.sample_count) 0 (load_vid a).video in
      (shown ≡ in_order mp4 mp4.sample_count 0)
      × (last.playing ≡ false)
      × (last.cur_frm ≡ mp4.sample_count)
load_vid-shows a mp4 seeks sizes frm_siz success demux track fits =
    loaded-shows a mp4 seeks sizes frm_siz (load_vid a) (load_vid-Loads a) success demux track fits
