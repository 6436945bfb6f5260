-- ===== src/Player.antt =====
-- v0.1-alpha/API/libatmsndec.c: playing a decoded MP3. The decoder (minimp3) and the sound functions
-- of the symbol table are not part of this file; what they answer is an argument. The decoded
-- samples are passed as the number of them, and the cursor as the offset into them.
pub mod Inv
pub mod Progress
mod Tests
use autumnos_mobile.Common.{
  ℕ, zero, suc, ◌+◌, ◌-◌, ◌*◌, ◌/◌, Bool, true, false, not, ◌&&◌, ◌||◌, Option, none, some, List,
  [], ◌∷◌, ◌==◌, ltb, if◌then◌else◌, ℤ, pos, negsuc, pos_part, ◌+ℤ◌, ◌-ℤ◌, ltb_ℤ, leb_ℤ,
}

-- The fields of `mp3dec_file_info_t` that the code reads.
pub record Info : Type 0 where
  pub samples : ℕ
  pub channels : ℕ
  pub hz : ℕ

-- The file's `ctx`.
pub record Player : Type 0 where
  pub info : Info
  pub open info use {samples, channels, hz}
  pub playing : Bool
  pub paused : Bool
  pub pcm_cursor : ℤ
  pub samples_left : ℤ

-- The zeroed `ctx` of a static object.
abbrev pub start : Player
start = record {
  info = record { samples = 0; channels = 0; hz = 0 };
  playing = false;
  paused = false;
  pcm_cursor = pos 0;
  samples_left = pos 0;
}

-- `AutumnAPI_LoadMp3`: `loaded` is what the decoder made of the file, `ready` that the sound device
-- could be initialised. The result is the code's.
pub load_mp3 : Option Info → Bool → Player → Player × ℤ
load_mp3 none ready p = (p, negsuc 0)
load_mp3 (some new_info) ready p = if not ready then (p, negsuc 1) else (
  record {
    info = new_info;
    playing = true;
    paused = false;
    pcm_cursor = pos 0;
    samples_left = pos new_info.samples;
  },
  pos 0,
)

-- `AutumnAPI_PlayTime`: the two numbers of seconds.
pub play_time : Player → ℕ × ℕ
play_time p =
    let samples_per_second = p.hz * p.channels in
    if ltb 0 samples_per_second
    then (pos_part p.pcm_cursor / samples_per_second, p.samples / samples_per_second)
    else (0, 0)

-- `AutumnAPI_PlayAudio`: `written` is what the write to the device returns, or 0 if the symbol table
-- has no such function.
pub play_audio : ℤ → Player → Player
play_audio written p =
    if not p.playing || p.paused
    then p
    else if ltb_ℤ (pos 0) p.samples_left
    then (if ltb_ℤ (pos 0) written
        then record p {
          pcm_cursor = p.pcm_cursor +ℤ written;
          samples_left = p.samples_left -ℤ written;
        }
        else p)
    else record p { playing = false }

pub stop_audio : Player → Player
stop_audio p = record p {
  playing = false;
  paused = false;
  pcm_cursor = pos 0;
  samples_left = pos p.samples;
}

pub pause : Player → Player
pause p = if p.playing then record p { paused = true } else p

pub resume : Player → Player
resume p = if p.playing then record p { paused = false } else p

-- `AutumnAPI_Replay`; the result is true for 0 and false for -1.
pub replay : Player → Player × Bool
replay p =
    if not p.playing
    then (p, false)
    else (record p { pcm_cursor = pos 0; samples_left = pos p.samples; paused = false }, true)

-- `AutumnAPI_PCMCleanup`.
pub pcm_cleanup : Player → Player
pcm_cleanup p = record p { playing = false }
