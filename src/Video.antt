-- ===== src/Video.antt =====
-- v0.1-alpha/API/libatmvidec.c: the video that is played. The answers of the system and of minimp4,
-- which is not in the repository, are arguments.
pub mod Load
pub mod Inv
mod Owner
mod Progress
mod Tests
use autumnos_mobile.Common.{
  ℕ, zero, suc, ◌+◌, ◌/◌, Bool, true, false, not, ◌&&◌, ◌||◌, Option, none, some, List, [], ◌∷◌,
  ◌++◌, ◌==◌, ltb, if◌then◌else◌, ℤ, pos, negsuc, ltb_ℤ, leb_ℤ,
}

-- What minimp4 tells of a file: the frames of the first track with its width and height, if there is
-- a track, and the place and length of each frame.
pub record Demux : Type 0 where
  pub track_count : ℕ
  pub sample_count : ℕ
  pub track_width : ℕ
  pub track_height : ℕ
  pub frame_offset : ℕ → ℕ × ℕ

abbrev pub no_demux : Demux
no_demux = record {
  track_count = 0;
  sample_count = 0;
  track_width = 0;
  track_height = 0;
  frame_offset = λ k. (0, 0);
}

-- `vctx`; a buffer is known by its address.
pub record Video : Type 0 where
  pub fd : ℤ
  pub buf : Option ℕ
  pub mp4 : Demux
  pub cur_frm : ℕ
  pub tot_frm : ℕ
  pub playing : Bool
  pub paused : Bool
  pub width : ℕ
  pub height : ℕ

pub cleared : Video
cleared = record {
  fd = pos 0;
  buf = none;
  mp4 = no_demux;
  cur_frm = 0;
  tot_frm = 0;
  playing = false;
  paused = false;
  width = 0;
  height = 0;
}

pub data Event : Type 0 where
  opened : ℤ → Event
  closed : ℤ → Event
  allocated : ℕ → Event
  freed : ℕ → Event

-- The answers to one load: the file and its size or errors, the address of the buffer, the sizes of
-- the reads that give something, and what minimp4 makes of the file.
pub record Answers : Type 0 where
  pub file : ℤ
  pub size : ℤ
  pub address : Option ℕ
  pub reads : List ℕ
  pub demux : Option Demux

-- The loop that reads the file, for the bytes that are left.
pub read_file : ℤ → ℕ → List ℕ → ℕ
read_file size tot_rd [] = tot_rd
read_file size tot_rd (r ∷ reads) =
    let rest = read_file size (tot_rd + r) reads in if ltb_ℤ (pos tot_rd) size then rest else tot_rd

pub record Loaded : Type 0 where
  pub result : ℤ
  pub video : Video
  pub tot_rd : ℕ
  pub events : List Event

abbrev failed : ℕ → Video → ℕ → List Event → Loaded
failed k v tot_rd events = record { result = negsuc k; video = v; tot_rd = tot_rd; events = events }

-- The part of `LoadVid` from MP4D_open on, with the buffer read.
pub open_mp4 : Answers → ℕ → ℕ → Loaded
open_mp4 a address tot_rd =
    let v : Video = record cleared { fd = a.file; buf = some address } in
    elim a.demux [
      | none ↦
          failed 3 v tot_rd (opened a.file ∷ allocated address ∷ freed address ∷ closed a.file ∷ [])
      | some mp4 ↦ record {
        result = pos 0;
        video = record v {
          mp4 = mp4;
          tot_frm = if ltb 0 mp4.track_count then mp4.sample_count else 0;
          width = if ltb 0 mp4.track_count then mp4.track_width else 0;
          height = if ltb 0 mp4.track_count then mp4.track_height else 0;
          playing = true;
        };
        tot_rd = tot_rd;
        events = opened a.file ∷ allocated address ∷ [];
      }
    ]

-- `AutumnAPI_LoadVid`; what `vctx` was before is forgotten.
pub load_vid : Answers → Loaded
unfolding open_mp4 read_file
load_vid a =
    let v : Video = record cleared { fd = a.file } in
    if ltb_ℤ a.file (pos 0)
    then failed 0 v 0 []
    else if ltb_ℤ a.size (pos 0)
    then failed 1 v 0 (opened a.file ∷ closed a.file ∷ [])
    else elim a.address [
      | none ↦ failed 2 v 0 (opened a.file ∷ closed a.file ∷ [])
      | some address ↦ open_mp4 a address (read_file a.size 0 a.reads)
    ]

-- The seconds that `AutumnAPI_GetVidPlayTime` gives, at 30 frames in a second.
pub get_vid_play_time : Video → ℕ × ℕ
get_vid_play_time v = (v.cur_frm / 30, v.tot_frm / 30)

-- What one call of `AutumnAPI_GetNextVidFrm` gives: its result, the place in the file that it seeks,
-- and the size it stores.
pub record Frame : Type 0 where
  pub result : ℤ
  pub sought : Option ℕ
  pub out_size : Option ℕ
  pub video : Video

abbrev pub no_frame : ℤ → Option ℕ → Video → Frame
no_frame result sought v = record { result = result; sought = sought; out_size = none; video = v }

-- The part for a frame of `frame_bytes` bytes at `offset`.
pub read_frame : Video → ℕ → ℕ × ℕ → ℤ → ℤ → Frame
read_frame v frm_siz (offset, frame_bytes) seek r =
    if not (ltb 0 frame_bytes)
    then no_frame (pos 0) none v
    else if ltb frm_siz frame_bytes || ltb_ℤ v.fd (pos 0)
    then no_frame (negsuc 0) none v
    else if ltb_ℤ seek (pos 0)
    then no_frame (pos 0) (some offset) v
    else elim r [
      | negsuc k ↦ no_frame (negsuc 0) (some offset) v
      | pos zero ↦ no_frame (negsuc 0) (some offset) v
      | pos (suc n) ↦ record {
        result = pos 1;
        sought = some offset;
        out_size = some (suc n);
        video = record v { cur_frm = suc v.cur_frm };
      }
    ]

-- The arguments after the first are the size of the buffer, and the answers of the seek and the read.
pub get_next_vid_frm : Video → ℕ → ℤ → ℤ → Frame
unfolding read_frame
get_next_vid_frm v frm_siz seek r =
    if not v.playing || v.paused
    then no_frame (pos 0) none v
    else if ltb v.cur_frm v.tot_frm
    then read_frame v frm_siz (v.mp4.frame_offset v.cur_frm) seek r
    else no_frame (pos 0) none (record v { playing = false })

-- `AutumnAPI_StopVid`, with what it gives back. MP4D_close frees what `mp4` points to.
pub stop_vid : Video → Video × List Event
stop_vid v = (
  record v {
    playing = false;
    paused = false;
    cur_frm = 0;
    buf = none;
    fd = if ltb_ℤ v.fd (pos 0) then v.fd else negsuc 0;
  },
  (elim v.buf [ none ↦ [] | some address ↦ freed address ∷ [] ])
      ++ (if ltb_ℤ v.fd (pos 0) then [] else closed v.fd ∷ []),
)

pub pause_vid : Video → Video
pause_vid v = if v.playing then record v { paused = true } else v

pub resume_vid : Video → Video
resume_vid v = if v.playing then record v { paused = false } else v

pub replay_vid : Video → ℤ × Video
replay_vid v = elim v.buf [
  | none ↦ (negsuc 0, v)
  | some address ↦ (pos 0, record v { cur_frm = 0; paused = false; playing = true })
]

pub get_vid_stat : Video → Bool
get_vid_stat v = v.playing && not v.paused
