-- ===== src/Tunnel/Text.antt =====
-- The text that a message slot carries.
use autumnos_mobile.Common.{
  ℕ, zero, suc, ◌≡◌, refl, ap, List, [], ◌∷◌, ◌++◌, arith, length, take, length-append, c_string,
}
use autumnos_mobile.Tunnel.{strncpy, written_slot, cleared_slot}

length-strncpy : (src : List ℕ) (n : ℕ) → length (strncpy src n) ≡ n
unfolding strncpy
length-strncpy src zero = refl
length-strncpy [] (suc n) = ap suc (length-strncpy [] n)
length-strncpy (zero ∷ src) (suc n) = ap suc (length-strncpy [] n)
length-strncpy (suc c ∷ src) (suc n) = ap suc (length-strncpy src n)

c_string-strncpy :
    (src rest : List ℕ) (n : ℕ) → c_string (strncpy src n ++ zero ∷ rest) ≡ take n (c_string src)
unfolding strncpy
c_string-strncpy src rest zero = refl
c_string-strncpy [] rest (suc n) = refl
c_string-strncpy (zero ∷ src) rest (suc n) = refl
c_string-strncpy (suc c ∷ src) rest (suc n) = ap (λ s. suc c ∷ s) (c_string-strncpy src rest n)

-- A slot that a send writes has exactly MSG_LEN bytes, and what a reader of the slot sees as a C
-- string is the first 63 bytes of the text that was sent.
pub written_slot_lem :
    (text : List ℕ)
    → (length (written_slot text) ≡ 64) × (c_string (written_slot text) ≡ take 63 (c_string text))
unfolding written_slot cleared_slot
written_slot_lem text = (
  omega (arith, length-append (strncpy text 63) (0 ∷ []), length-strncpy text 63),
  c_string-strncpy text [] 63,
)
