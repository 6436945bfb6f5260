-- ===== src/Player/Tests.antt =====
-- Runs of the player, and its theorems at inputs that meet their hypotheses.
use autumnos_mobile.Common.{◌≡◌, refl, true, false, some, arith, pos}
use autumnos_mobile.Player.{Info, Player, start, load_mp3, play_time}
use autumnos_mobile.Player.Inv.{loads, plays, pauses, step, Reach, IsValid, Reach-IsValid}
use autumnos_mobile.Player.Progress.{play_on, load_mp3-plays}

abbrev tune : Info
tune = record { samples = 10; channels = 1; hz = 2 }

-- Loaded, played for four samples, then paused: a call that writes changes nothing.
abbrev played : Player
played = record start {
  info = tune;
  playing = true;
  paused = true;
  pcm_cursor = pos 4;
  samples_left = pos 6;
}

loaded-Reach : Reach (step (step (step start (loads (some tune) true)) (plays (pos 4))) pauses)
unfolding step
loaded-Reach =
    Reach.then_call
      (Reach.then_call (Reach.then_call Reach.here (loads (some tune) true) tt) (plays (pos 4))
        (omega arith))
      pauses tt

Reach-IsValid_example :
    IsValid (step (step (step start (loads (some tune) true)) (plays (pos 4))) pauses)
Reach-IsValid_example = Reach-IsValid loaded-Reach

halfway : play_time played ≡ (2, 5)
unfolding play_time
halfway = refl

load_mp3-plays_example :
    let q = play_on (λ k. 3) 11 0 (load_mp3 (some tune) true start).0 in
    (q.playing ≡ false) × (q.pcm_cursor ≡ pos 10) × ((play_time q).0 ≡ (play_time q).1)
load_mp3-plays_example = load_mp3-plays tune start (λ k. 3)
