-- ===== src/Surf/Draw/Words.antt =====
-- What copying and filling a run of words leaves at one index.
use autumnos_mobile.Common.{
  ℕ, ◌+◌, ◌-◌, ◌≤◌, ◌<◌, ◌≡◌, refl, ap, ◌∙◌, Bool, ◌&&◌, List, inl, inr, arith, ◌==◌, ltb, leb,
  if◌then◌else◌, Bool-cases, get_or, set, length, length-set, get_or-set_self, get_or-set_ne,
  for_range, any_in, any_in-some, any_in-none, paint_range, same_row, rows_apart, ◌*◌,
}
use native.Mathlib.Decide.{ℕ_discrete}
use autumnos_mobile.Surf.Draw.{copy_words, fill_words}

-- The index `p` lies among the `n` from `d` on.
abbrev pub in_run : ℕ → ℕ → ℕ → Bool
in_run d n p = leb d p && ltb p (d + n)

any_in-run : (d p n : ℕ) → any_in (λ k. (d + k) == p) n 0 ≡ in_run d n p
any_in-run d p n = elim (Bool-cases (in_run d n p)) [
  | inl inside ↦ ground (
    arith,
    inside,
    any_in-some (λ k. (d + k) == p) n 0 (p - d) (ground arith) (ground arith) (ground arith),
  )
  | inr outside ↦
      ground (arith, outside, any_in-none (λ k. (d + k) == p) n 0 (λ k lo hi. ground arith))
]

-- A write of `v` at `i`, seen at `p`, where it should leave `u` if it goes there.
set_word :
    (buf : List ℕ) (total i p v u : ℕ)
    → length buf ≡ total
    → i < total
    → (i ≡ p → v ≡ u)
    → (length (set buf i v) ≡ total)
      × (get_or (set buf i v) p 0 ≡ (if i == p then u else get_or buf p 0))
set_word buf total i p v u e h same = elim (ℕ_discrete i p) [
  | yes hit ↦ (
    length-set buf i v ∙ e,
    ground (
      arith,
      ap (λ k. get_or (set buf i v) k 0) hit,
      same hit,
      get_or-set_self buf i v 0 (omega arith),
    ),
  )
  | no miss ↦ (length-set buf i v ∙ e, ground (arith, get_or-set_ne buf i p v 0 miss))
]

-- Copying keeps the length, and puts the source's words in the run alone.
pub copy_words_lem :
    (n s d p : ℕ) (src dst : List ℕ)
    → d + n ≤ length dst
    → (length (copy_words n s src d dst) ≡ length dst)
      × (get_or (copy_words n s src d dst) p 0
          ≡ (if in_run d n p then get_or src (s + (p - d)) 0 else get_or dst p 0))
unfolding copy_words
copy_words_lem n s d p src dst h = rw (← any_in-run d p n) (
    paint_range (λ buf. length buf ≡ length dst) (λ buf. get_or buf p 0)
      (λ k buf. set buf (d + k) (get_or src (s + k) 0)) (λ k. (d + k) == p)
      (get_or src (s + (p - d)) 0) n 0
      (λ k buf lo hi e. set_word buf (length dst) (d + k) p _ _ e (omega arith) (source k)) dst
      refl)
  where
    source : (k : ℕ) → d + k ≡ p → get_or src (s + k) 0 ≡ get_or src (s + (p - d)) 0
    source k e = let same : s + k ≡ s + (p - d) = omega arith in ap (λ j. get_or src j 0) same

-- Filling keeps the length, and puts the colour in the run alone.
pub fill_words_lem :
    (n d p color : ℕ) (dst : List ℕ)
    → d + n ≤ length dst
    → (length (fill_words n d color dst) ≡ length dst)
      × (get_or (fill_words n d color dst) p 0 ≡ (if in_run d n p then color else get_or dst p 0))
unfolding fill_words
fill_words_lem n d p color dst h = rw (← any_in-run d p n) (
    paint_range (λ buf. length buf ≡ length dst) (λ buf. get_or buf p 0)
      (λ k buf. set buf (d + k) color) (λ k. (d + k) == p) color n 0
      (λ k buf lo hi e. set_word buf (length dst) (d + k) p _ _ e (omega arith) (λ _. refl)) dst
      refl)

-- A run of no words is no write.
pub fill_words-zero : (n d color : ℕ) (dst : List ℕ) → n ≡ 0 → fill_words n d color dst ≡ dst
unfolding fill_words for_range
fill_words-zero n d color dst e = rw e

-- A run of cells within row `ty` of a grid.
pub in_run-row :
    (width ty tx n py px : ℕ)
    → tx + n ≤ width
    → px < width
    → in_run (ty * width + tx) n (py * width + px) ≡ ((ty == py) && (leb tx px && ltb px (tx + n)))
in_run-row width ty tx n py px fits h = elim (ℕ_discrete ty py) [
  | yes e ↦ ground (arith, ap (λ k. k * width) e)
  | no ne ↦ elim (Bool-cases (in_run (ty * width + tx) n (py * width + px))) [
    | inl hit ↦ absurd (ne (same_row width ty tx py px n fits h (ground arith) (ground arith)))
    | inr miss ↦ ground (arith, miss)
  ]
]

-- A run within a row of the grid lies in the grid.
pub run_in :
    (width height ty tx n : ℕ) → ty < height → tx + n ≤ width → ty * width + tx + n ≤ width * height
run_in width height ty tx n hy fits = omega (arith, rows_apart width ty height hy)
