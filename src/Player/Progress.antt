-- ===== src/Player/Progress.antt =====
-- Playing goes on to the end.
use autumnos_mobile.Common.{
  ℕ, zero, suc, ◌+◌, ◌≤◌, ◌<◌, ◌≡◌, refl, ap, sym, ◌∙◌, ◌⊎◌, some, true, false, arith, ltb,
  if◌then◌else◌, for_range, Bool-cases, inl, inr, ℤ, pos, negsuc, pos_part, neg_part, ◌+ℤ◌, ◌-ℤ◌,
  +ℤ_parts, -ℤ_parts, one_part, eq_of_parts,
}
use autumnos_mobile.Player.{Info, Player, load_mp3, play_audio, play_time}
use autumnos_mobile.Player.Inv.{IsValid}

-- A device that takes at least one sample of those it is offered: at call `k`, `suc (room k)` of
-- them or what is left.
abbrev pub taken : (ℕ → ℕ) → ℕ → Player → ℤ
taken room k p =
    if ltb (room k) (pos_part p.samples_left) then pos (suc (room k)) else p.samples_left

pub play_on : (ℕ → ℕ) → ℕ → ℕ → Player → Player
play_on room n i = for_range n i (λ k p. play_audio (taken room k p) p)

idle : (written : ℤ) (p : Player) → p.playing ≡ false → play_audio written p ≡ p
unfolding play_audio
idle written p off = ground (arith, off)

stopped : (room : ℕ → ℕ) (n i : ℕ) (p : Player) → p.playing ≡ false → play_on room n i p ≡ p
unfolding play_on for_range
stopped room zero i p off = refl
stopped room (suc n) i p off =
    ap (play_on room n (i + 1)) (idle (taken room i p) p off) ∙ stopped room n (i + 1) p off

-- What is taken, where samples are left.
taken_lem :
    (room : ℕ → ℕ) (k left : ℕ) (p : Player)
    → p.samples_left ≡ pos (suc left)
    → (w : ℕ) × (w ≤ left) × (taken room k p ≡ pos (suc w))
taken_lem room k left p some_left = elim (Bool-cases (ltb (room k) (suc left))) [
  | inl less ↦ (room k, ground (arith, less), rw (some_left, less) refl)
  | inr all ↦ (left, omega arith, rw (some_left, all) refl)
]

-- A call that plays `suc w` samples of those that are left.
record Plays (w left : ℕ) (p q : Player) : Type 0 where
  on : q.playing ≡ true
  going : q.paused ≡ false
  valid : IsValid q
  same : q.info ≡ p.info
  less : pos_part q.samples_left ≤ left

wrote :
    (w left : ℕ) (p : Player)
    → p.playing ≡ true
    → p.paused ≡ false
    → p.samples_left ≡ pos (suc left)
    → w ≤ left
    → IsValid p
    → play_audio (pos (suc w)) p ≡ record p {
      pcm_cursor = p.pcm_cursor +ℤ pos (suc w);
      samples_left = p.samples_left -ℤ pos (suc w);
    }
unfolding play_audio
wrote w left p on going some_left h v = ground (arith, on, going, some_left)

one_call :
    (w left : ℕ) (p : Player)
    → p.playing ≡ true
    → p.paused ≡ false
    → p.samples_left ≡ pos (suc left)
    → w ≤ left
    → IsValid p
    → Plays w left p (play_audio (pos (suc w)) p)
one_call w left p on going some_left h v = rw (wrote w left p on going some_left h v) (
    let up = ap pos_part some_left in
    let c = +ℤ_parts p.pcm_cursor (pos (suc w)) in
    let l = -ℤ_parts p.samples_left (pos (suc w)) in
    let c1 = one_part (p.pcm_cursor +ℤ pos (suc w)) in
    let l1 = one_part (p.samples_left -ℤ pos (suc w)) in
    record {
      on = on;
      going = going;
      valid = record {
        whole = omega (arith, up, c, l, c1, l1, v);
        cursor_up = omega (arith, up, c, l, c1, l1, v);
        left_up = omega (arith, up, c, l, c1, l1, v);
      };
      same = refl;
      less = omega (arith, up, c, l, c1, l1, v);
    })

finish :
    (written : ℤ) (p : Player)
    → p.playing ≡ true
    → p.paused ≡ false
    → p.samples_left ≡ pos 0
    → play_audio written p ≡ record p { playing = false }
unfolding play_audio
finish written p on going nothing = ground (arith, on, going, nothing)

left_cases : (a : ℤ) → neg_part a ≡ 0 → (a ≡ pos 0) ⊎ ((n : ℕ) × (a ≡ pos (suc n)))
left_cases (pos zero) e = inl refl
left_cases (pos (suc n)) e = inr (n, refl)
left_cases (negsuc n) e = absurd (omega (arith, e))

plays_to_end :
    (room : ℕ → ℕ) (n i : ℕ) (p : Player)
    → p.playing ≡ true
    → p.paused ≡ false
    → IsValid p
    → pos_part p.samples_left < n
    → let q = play_on room n i p in
      (q.playing ≡ false) × (q.pcm_cursor ≡ pos p.samples) × (q.info ≡ p.info)
unfolding play_on for_range
plays_to_end room zero i p on going v h = absurd (omega arith)
plays_to_end room (suc n) i p on going v h = elim (left_cases p.samples_left v.left_up) [
  | inl nothing ↦
      let ended =
        ap (play_on room n (i + 1)) (finish (taken room i p) p on going nothing)
        ∙ stopped room n (i + 1) (record p { playing = false }) refl in
      (
        ap (λ q. q.playing) ended,
        ap (λ q. q.pcm_cursor) ended
            ∙ eq_of_parts p.pcm_cursor (pos p.samples) (omega (arith, ap pos_part nothing, v)),
        ap (λ q. q.info) ended,
      )
  | inr (left, some_left) ↦
      let (w, small, take) = taken_lem room i left p some_left in
      let went = one_call w left p on going some_left small v in
      let on_from = ap (λ t. play_on room n (i + 1) (play_audio t p)) take in
      let rest =
        plays_to_end room n (i + 1) (play_audio (pos (suc w)) p) went.on went.going went.valid
          (omega (arith, went.less, ap pos_part some_left)) in
      (
        ap (λ q. q.playing) on_from ∙ rest.0,
        ap (λ q. q.pcm_cursor) on_from ∙ (rest.1 ∙ ap (λ i. pos i.samples) went.same),
        ap (λ q. q.info) on_from ∙ (rest.2 ∙ went.same),
      )
]

all_played : (q : Player) → q.pcm_cursor ≡ pos q.samples → (play_time q).0 ≡ (play_time q).1
unfolding play_time
all_played q e = ground (arith, ap pos_part e)

-- A file that is loaded is played to its end: with a device that takes at least one of the
-- samples it is offered at each call, playing has stopped after as many calls as there are
-- samples and one, the cursor is at the end, and the time elapsed is the whole time.
pub load_mp3-plays :
    (new_info : Info) (p : Player) (room : ℕ → ℕ)
    → let q = play_on room (suc new_info.samples) 0 (load_mp3 (some new_info) true p).0 in
      (q.playing ≡ false)
      × (q.pcm_cursor ≡ pos new_info.samples)
      × ((play_time q).0 ≡ (play_time q).1)
unfolding load_mp3
load_mp3-plays new_info p room =
    let loaded = (load_mp3 (some new_info) true p).0 in
    let ends =
      plays_to_end room (suc new_info.samples) 0 loaded refl refl
        (record { whole = omega arith; cursor_up = refl; left_up = refl }) (omega arith) in
    (
      ends.0,
      ends.1,
      all_played (play_on room (suc new_info.samples) 0 loaded)
          (ends.1 ∙ ap (λ i. pos i.samples) (sym ends.2)),
    )
