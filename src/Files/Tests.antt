-- ===== src/Files/Tests.antt =====
-- Copies and moves, and the theorems at inputs that meet their hypotheses.
use autumnos_mobile.Common.{
  ℕ, ◌≡◌, refl, ap, sym, ◌∙◌, inl, inr, Bool-cases, true, some, List, [], ◌∷◌, arith, pos, negsuc,
  if◌then◌else◌, ltb,
}
use autumnos_mobile.Files.{
  src_file, dst_file, Written, fails, writes, f_cp, copy_chunks, write_chunk,
}
use autumnos_mobile.Files.Copy.{Copies, Moves, concat, f_cp-Copies}

-- Two bytes are written by each call, and the fourth one fails.
abbrev two_each : ℕ → Written
two_each n = if ltb n 3 then writes 2 else fails

abbrev reads : List (List ℕ)
reads = (1 ∷ 2 ∷ 3 ∷ []) ∷ (4 ∷ []) ∷ []

f_cp-whole :
    f_cp true true two_each 4096 reads
    ≡ some (record {
      result = pos 0;
      dst = some (1 ∷ 2 ∷ 3 ∷ 4 ∷ []);
      closes = src_file ∷ dst_file ∷ [];
    })
unfolding f_cp copy_chunks write_chunk
f_cp-whole = refl

f_cp-broken :
    f_cp true true two_each 4096 ((1 ∷ 2 ∷ 3 ∷ 4 ∷ 5 ∷ []) ∷ (6 ∷ []) ∷ [])
    ≡ some (record {
      result = negsuc 0;
      dst = some (1 ∷ 2 ∷ 3 ∷ 4 ∷ 5 ∷ []);
      closes = src_file ∷ dst_file ∷ [];
    })
unfolding f_cp copy_chunks write_chunk
f_cp-broken = refl

two_each-Moves : Moves two_each
two_each-Moves n k e = elim (Bool-cases (ltb n 3)) [
  | inl before ↦
      let two : 2 ≡ k = written (sym (ap (λ t. if t then writes 2 else fails) before) ∙ e) in
      omega (arith, two)
  | inr after ↦ absurd (failed (sym (ap (λ t. if t then writes 2 else fails) after) ∙ e))
]
  where
    written : writes 2 ≡ writes k → 2 ≡ k
    written t = cc

    failed : ¬ (fails ≡ writes k)
    failed t = cc

f_cp-Copies_example : Copies two_each (concat reads) (f_cp true true two_each 4096 reads)
f_cp-Copies_example =
    f_cp-Copies two_each 4096 reads two_each-Moves
      (omega arith, omega arith, (omega arith, omega arith, tt))
