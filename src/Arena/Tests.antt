-- ===== src/Arena/Tests.antt =====
-- Runs of the arena, and its theorems at inputs that meet their hypotheses.
use autumnos_mobile.Common.{ℕ, ◌≤◌, ◌↔◌, ◌≡◌, refl, List, [], ◌∷◌, arith, replicate}
use autumnos_mobile.Arena.{MemoryAr, alloc, alloc_all}
use autumnos_mobile.Arena.Blocks.{Apart, alloc_all-starts}
use autumnos_mobile.Arena.Message.{data_len, copy_payload, IsSafe, copy_payload-IsSafe}

abbrev fresh : MemoryAr
fresh = record { offset = 0 }

abbrev nearly_full : MemoryAr
nearly_full = record { offset = 1048568 }

three_blocks : alloc_all fresh (5 ∷ 16 ∷ 1 ∷ []) ≡ 0 ∷ 8 ∷ 24 ∷ []
unfolding alloc_all alloc
three_blocks = refl

starts_over : alloc nearly_full 9 ≡ (0, record { offset = 16 })
unfolding alloc
starts_over = refl

alloc_all-starts_example :
    (alloc_all fresh (5 ∷ 16 ∷ []) ≡ 0 ∷ 8 ∷ [])
    × Apart 0 (5 ∷ 16 ∷ []) (alloc_all fresh (5 ∷ 16 ∷ []))
alloc_all-starts_example =
    alloc_all-starts (5 ∷ 16 ∷ []) fresh (record { aligned = refl; inside = omega arith })
      (omega arith)

-- A message of type 1 that claims 300 bytes.
abbrev claims_300 : List ℕ
claims_300 = 1 ∷ 44 ∷ 1 ∷ replicate 61 0

data_len-claims_300 : data_len claims_300 ≡ 300
unfolding data_len
data_len-claims_300 = refl

copy_payload-IsSafe_example : IsSafe (copy_payload fresh claims_300).0 ↔ (data_len claims_300 ≤ 55)
copy_payload-IsSafe_example = copy_payload-IsSafe fresh claims_300 (omega arith)
