-- ===== src/Nls/Tests.antt =====
-- Runs of the decoder, and its theorems at inputs that meet their hypotheses.
use autumnos_mobile.Common.{ℕ, ◌≡◌, refl, some, none, List, [], ◌∷◌, ◌++◌, arith}
use autumnos_mobile.Nls.{unicode_tf8, code_points}
use autumnos_mobile.Nls.Decode.{encode, encode_all, code_points-encode_all}
use autumnos_mobile.Nls.Stuck.{code_points-truncated}

-- "ş" and a euro sign.
abbrev two_letters : List ℕ
two_letters = 0x15F ∷ 0x20AC ∷ []

encode_two : encode_all two_letters ≡ 0xC5 ∷ 0x9F ∷ 0xE2 ∷ 0x82 ∷ 0xAC ∷ []
unfolding encode_all encode
encode_two = refl

decode_first : unicode_tf8 (0xC5 ∷ 0x9F ∷ b'x' ∷ []) ≡ (0x15F, b'x' ∷ [])
unfolding unicode_tf8
decode_first = refl

code_points-encode_all_example : code_points 3 (encode_all two_letters) ≡ some two_letters
code_points-encode_all_example = code_points-encode_all two_letters (omega arith)

code_points-truncated_example : code_points 1000 (encode_all two_letters ++ 0xE2 ∷ 0x82 ∷ []) ≡ none
code_points-truncated_example =
    code_points-truncated 1000 two_letters 0xE2 (0x82 ∷ []) (omega arith) (omega arith)
