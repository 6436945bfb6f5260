-- ===== src/Sudo/Line.antt =====
-- The line that `getminput` reads, against a line editor on lists.
use autumnos_mobile.Common.{
  ℕ, zero, suc, drop, ◌+◌, ◌-◌, ◌≤◌, ◌<◌, ◌≡◌, refl, ap, ◌∙◌, sym, inl, inr, Bool, true, false,
  Option, some, List, [], ◌∷◌, ◌++◌, arith, ltb, if◌then◌else◌, u64, length, set, take, c_string,
  Bool-cases, length-set, take-set, take-take, take_all, c_string-set, length-take, ◌^◌,
}
use autumnos_mobile.Sudo.{is_end, is_erase, put_key, getminput}

-- One key: an erase key takes the last character away, another one is appended while there is room.
abbrev pub type_key : ℕ → ℕ → List ℕ → List ℕ
type_key room ch line =
    if is_erase ch
    then take (length line - 1) line
    else if ltb (length line) room
    then line ++ ch ∷ []
    else line

abbrev pub type_keys : ℕ → List ℕ → List ℕ → List ℕ
type_keys room line [] = line
type_keys room line (ch ∷ keys) = type_keys room (type_key room ch line) keys

abbrev pub no_end : List ℕ → Bool
no_end [] = true
no_end (ch ∷ keys) = if is_end ch then false else no_end keys

-- The buffer holds the line in its first bytes, and from `max_len` on what it held before.
pub record Holds (max_len : ℕ) (before buf : List ℕ) (i : ℕ) (line : List ℕ) : Type 0 where
  pub room : i < max_len
  pub space : length buf ≡ length before
  pub untouched : drop max_len buf ≡ drop max_len before
  pub text : take i buf ≡ line

drop-set : (buf : List ℕ) (i ch n : ℕ) → i < n → drop n (set buf i ch) ≡ drop n buf
drop-set buf i ch zero h = absurd (omega (arith, h))
drop-set [] i ch (suc n) h = refl
drop-set (b ∷ buf) zero ch (suc n) h = refl
drop-set (b ∷ buf) (suc i) ch (suc n) h = drop-set buf i ch n (omega (arith, h))

last_place : (n : ℕ) → 0 < n → n < 2 ^ 64 → u64 (n + (2 ^ 64 - 1)) ≡ n - 1
last_place n h g = omega arith

length-held :
    (n i : ℕ) (before buf line : List ℕ)
    → n ≤ length before
    → Holds n before buf i line
    → length line ≡ i
length-held n i before buf line big h =
    omega (arith, h.room, h.space, ap length h.text, length-take i buf)

put_key-Holds :
    (n ch i : ℕ) (before buf line : List ℕ)
    → 0 < n
    → n < 2 ^ 64
    → n ≤ length before
    → Holds n before buf i line
    → let (buf', i') = put_key n ch (buf, i) in Holds n before buf' i' (type_key (n - 1) ch line)
unfolding put_key
put_key-Holds n ch i before buf line pos small big h =
    rw (last_place n pos small, length-held n i before buf line big h)
      (elim (Bool-cases (is_erase ch)) [
        | inl erase ↦ rw erase (elim (Bool-cases (ltb 0 i)) [
          | inl some_left ↦ rw some_left (record {
            room = omega arith;
            space = h.space;
            untouched = h.untouched;
            text = sym (take-take (i - 1) i buf (omega arith)) ∙ ap (take (i - 1)) h.text;
          })
          | inr empty ↦ rw (empty, take_all (i - 1) line (none_left (ground (arith, empty)))) h
        ])
        | inr other ↦ rw other (elim (Bool-cases (ltb i (n - 1))) [
          | inl fits ↦ rw fits (record {
            room = ground (arith, fits);
            space = omega (arith, length-set buf i ch, h.space);
            untouched = drop-set buf i ch n (omega (arith, h.room)) ∙ h.untouched;
            text =
                take-set buf i ch (omega (arith, h.room, h.space)) ∙ ap (λ l. l ++ ch ∷ []) h.text;
          })
          | inr full ↦ rw full h
        ])
      ])
  where
    none_left : i ≤ 0 → length line ≤ i - 1
    none_left z = omega (arith, length-held n i before buf line big h)

-- The buffer holds what the line editor on lists makes of the keys, and from `max_len` on what it held
-- before.
pub record Typed (max_len : ℕ) (before line rest : List ℕ) (result : Option (List ℕ × List ℕ))
    : Type 0 where
  pub buffer : List ℕ
  pub returned : result ≡ some (buffer, rest)
  pub kept_size : length buffer ≡ length before
  pub untouched : drop max_len buffer ≡ drop max_len before
  pub reads : c_string buffer ≡ c_string line

getminput_run :
    (n e : ℕ) (keys rest : List ℕ) (i : ℕ) (before buf line : List ℕ)
    → 0 < n
    → n < 2 ^ 64
    → n ≤ length before
    → no_end keys ≡ true
    → is_end e ≡ true
    → Holds n before buf i line
    → Typed n before (type_keys (n - 1) line keys) rest (getminput n (keys ++ e ∷ rest) (buf, i))
unfolding getminput
getminput_run n e [] rest i before buf line pos small big quiet ends h = rw ends (record {
  buffer = set buf i 0;
  returned = refl;
  kept_size = length-set buf i 0 ∙ h.space;
  untouched = drop-set buf i 0 n h.room ∙ h.untouched;
  reads = c_string-set buf i (omega (arith, h.room, h.space)) ∙ ap c_string h.text;
})
getminput_run n e (ch ∷ keys) rest i before buf line pos small big quiet ends h =
    let next = put_key n ch (buf, i) in
    rw (good ch keys quiet) (
      getminput_run n e keys rest next.1 before next.0 (type_key (n - 1) ch line) pos small big
        (others ch keys quiet) ends (put_key-Holds n ch i before buf line pos small big h))
  where
    good : (c : ℕ) (s : List ℕ) → no_end (c ∷ s) ≡ true → is_end c ≡ false
    good c s q = ground (arith, q)

    others : (c : ℕ) (s : List ℕ) → no_end (c ∷ s) ≡ true → no_end s ≡ true
    others c s q = ground (arith, q)

-- `getminput` with room for `max_len` bytes: keys up to an end of line, erase keys among them, leave
-- in the buffer the text that a line editor holds which takes its last character away for an erase
-- key and appends any other while it has fewer than `max_len - 1` of them. No byte of memory from
-- `max_len` on changes, and the input after the end of line is left to the next reader.
pub getminput_lem :
    (max_len e : ℕ) (keys rest buf : List ℕ)
    → 0 < max_len
    → max_len < 2 ^ 64
    → max_len ≤ length buf
    → no_end keys ≡ true
    → is_end e ≡ true
    → Typed max_len buf
        (type_keys (max_len - 1) [] keys)
        rest
        (getminput max_len (keys ++ e ∷ rest) (buf, 0))
getminput_lem max_len e keys rest buf pos small big quiet ends =
    getminput_run max_len e keys rest 0 buf buf [] pos small big quiet ends
      (record { room = pos; space = refl; untouched = refl; text = refl })
