-- ===== src/Player/Inv.antt =====
-- The invariant of the player over any calls of its API.
use autumnos_mobile.Common.{
  ◌+◌, ◌≡◌, refl, Bool, Option, none, some, arith, ℤ, pos_part, neg_part, ◌+ℤ◌, ◌-ℤ◌, ◌≤ℤ◌,
  +ℤ_parts, -ℤ_parts, one_part,
}
use autumnos_mobile.Player.{
  Info, Player, start, load_mp3, play_audio, stop_audio, pause, resume, replay, pcm_cleanup,
}

pub data Call : Type 0 where
  loads : Option Info → Bool → Call
  plays : ℤ → Call
  stops : Call
  pauses : Call
  resumes : Call
  replays : Call
  cleans : Call

unfoldable pub step : Player → Call → Player
unfolding load_mp3 play_audio stop_audio pause resume replay pcm_cleanup
step p (loads loaded ready) = (load_mp3 loaded ready p).0
step p (plays written) = play_audio written p
step p stops = stop_audio p
step p pauses = pause p
step p resumes = resume p
step p replays = (replay p).0
step p cleans = pcm_cleanup p

-- A device takes at most as many samples as it is offered.
abbrev pub Takes : Player → Call → Type 0
Takes p (plays written) = written ≤ℤ p.samples_left
Takes p _ = Unit {0}

-- The calls in order, where every write takes at most what is left at that point.
pub data Reach : Player → Type 0 where
  here : Reach start
  then_call : {p : Player} → Reach p → (c : Call) → Takes p c → Reach (step p c)

-- The cursor and what is left are the whole, and neither is negative.
pub record IsValid (p : Player) : Type 0 where
  pub whole : pos_part p.pcm_cursor + pos_part p.samples_left ≡ p.samples
  pub cursor_up : neg_part p.pcm_cursor ≡ 0
  pub left_up : neg_part p.samples_left ≡ 0

play_audio-IsValid :
    (written : ℤ) (p : Player)
    → written ≤ℤ p.samples_left
    → IsValid p
    → IsValid (play_audio written p)
unfolding play_audio
play_audio-IsValid written p takes v = ground (
  arith,
  takes,
  +ℤ_parts p.pcm_cursor written,
  -ℤ_parts p.samples_left written,
  one_part (p.pcm_cursor +ℤ written),
  one_part (p.samples_left -ℤ written),
  one_part written,
)

step-IsValid : (p : Player) (c : Call) → Takes p c → IsValid p → IsValid (step p c)
unfolding step
step-IsValid p (loads none ready) takes v = ground (arith, v)
step-IsValid p (loads (some new_info) ready) takes v = ground (arith, v)
step-IsValid p (plays written) takes v = play_audio-IsValid written p takes v
step-IsValid p stops takes v = ground (arith, v)
step-IsValid p pauses takes v = ground (arith, v)
step-IsValid p resumes takes v = ground (arith, v)
step-IsValid p replays takes v = ground (arith, v)
step-IsValid p cleans takes v = ground (arith, v)

-- After any calls of the API, as long as the device takes no more than it is offered, the samples
-- that are played and those that are left are together the file's, and neither number is
-- negative: the cursor lies in the decoded samples.
pub Reach-IsValid : {p : Player} → Reach p → IsValid p
Reach-IsValid Reach.here = record { whole = refl; cursor_up = refl; left_up = refl }
Reach-IsValid (Reach.then_call {p} r c takes) = step-IsValid p c takes (Reach-IsValid r)
