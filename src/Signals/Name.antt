-- ===== src/Signals/Name.antt =====
-- What stands in the buffer after `get_sig_name`.
use autumnos_mobile.Common.{
  ℕ, suc, ◌+◌, ◌/◌, ◌≤◌, ◌<◌, ◌≡◌, refl, sym, ap, ◌∙◌, inl, inr, true, List, [], ◌∷◌, ◌++◌,
  append_assoc, arith, ltb, Bool-cases, length, set, drop, length-append, codes,
}
use native.Mathlib.Nat.{le_trans}
use autumnos_mobile.Touch.{digits}
use autumnos_mobile.Signals.{sig_text, copy_name, write_number, get_sig_name}

-- The text.
abbrev pub shown : ℕ → List ℕ
shown sig = sig_text sig ++ (codes " (" ++ (digits 10 sig ++ codes ")"))

-- A write behind what has been written.
write_next :
    (done : List ℕ) (c : ℕ) (rest : List ℕ)
    → 0 < length rest
    → set (done ++ rest) (length done) c ≡ done ++ c ∷ drop 1 rest
write_next [] c [] h = absurd (omega arith)
write_next [] c (x ∷ rest) h = refl
write_next (d ∷ done) c rest h = ap (λ t. d ∷ t) (write_next done c rest h)

-- Bytes that are written one after the other replace as many of the buffer.
abbrev write_all : List ℕ → ℕ → List ℕ → List ℕ
write_all [] i buffer = buffer
write_all (c ∷ cs) i buffer = write_all cs (i + 1) (set buffer i c)

write_all-append :
    (a b : List ℕ) (i : ℕ) (buffer : List ℕ)
    → write_all (a ++ b) i buffer ≡ write_all b (i + length a) (write_all a i buffer)
write_all-append [] b i buffer =
    let same : i ≡ i + 0 = omega arith in ap (λ k. write_all b k buffer) same
write_all-append (c ∷ a) b i buffer =
    let same : i + 1 + length a ≡ i + suc (length a) = omega arith in
    write_all-append a b (i + 1) (set buffer i c)
    ∙ ap (λ k. write_all b k (write_all a (i + 1) (set buffer i c))) same

write_all-behind :
    (cs done rest : List ℕ) (i : ℕ)
    → i ≡ length done
    → length cs ≤ length rest
    → write_all cs i (done ++ rest) ≡ done ++ (cs ++ drop (length cs) rest)
write_all-behind [] done rest i e h = refl
write_all-behind (c ∷ cs) done [] i e h = absurd (omega (arith, h))
write_all-behind (c ∷ cs) done (x ∷ rest) i e h =
    let written : set (done ++ x ∷ rest) i c ≡ (done ++ c ∷ []) ++ rest =
      ap (λ k. set (done ++ x ∷ rest) k c) e
      ∙ (write_next done c (x ∷ rest) (omega arith) ∙ sym (append_assoc done (c ∷ []) rest)) in
    ap (write_all cs (i + 1)) written
    ∙ (write_all-behind cs (done ++ c ∷ []) rest (i + 1)
          (omega (arith, e, length-append done (c ∷ []))) (omega (arith, h))
        ∙ append_assoc done (c ∷ []) (cs ++ drop (length cs) rest))

copy_name-write_all :
    (name : List ℕ) (i : ℕ) (buffer : List ℕ) → copy_name name i buffer ≡ write_all name i buffer
unfolding copy_name
copy_name-write_all [] i buffer = refl
copy_name-write_all (c ∷ name) i buffer = copy_name-write_all name (i + 1) (set buffer i c)

-- A number of one or two digits is written as it is printed.
write_number_lem :
    (sig i : ℕ) (buffer : List ℕ)
    → sig < 100
    → (write_number sig i buffer).1 ≡ write_all (digits 10 sig) i buffer
      × ((write_number sig i buffer).0 ≡ i + length (digits 10 sig))
unfolding write_number
write_number_lem sig i buffer h = elim (Bool-cases (ltb sig 10)) [
  | inl small ↦ rw small (refl, refl)
  | inr big ↦
      let one : ltb (sig / 10) 10 ≡ true = ground (arith, h) in rw (big, one) (refl, omega arith)
]

name_small : (sig : ℕ) → length (sig_text sig) ≤ 18
unfolding sig_text
name_small sig = ground arith

number_small : (sig : ℕ) → sig < 100 → length (digits 10 sig) ≤ 2
number_small sig h = elim (Bool-cases (ltb sig 10)) [
  | inl small ↦ rw small (omega arith)
  | inr big ↦ let one : ltb (sig / 10) 10 ≡ true = ground (arith, h) in rw (big, one) (omega arith)
]

-- The parts, written one behind the other.
in_parts :
    (name number : List ℕ) (buffer : List ℕ) (i : ℕ) (written : ℕ × List ℕ)
    → i ≡ length name
    → written.1 ≡ write_all number (i + 1 + 1) (write_all (codes " (") i (write_all name 0 buffer))
    → written.0 ≡ i + 1 + 1 + length number
    → set (set written.1 written.0 b')') (written.0 + 1) 0
      ≡ write_all ((name ++ (codes " (" ++ (number ++ codes ")"))) ++ 0 ∷ []) 0 buffer
in_parts name number buffer i written at bytes index =
    let rest = number ++ b')' ∷ 0 ∷ [] in
    let start : 0 + length name ≡ i = omega arith in
    let whole : (name ++ (codes " (" ++ (number ++ codes ")"))) ++ 0 ∷ []
        ≡ name ++ (codes " (" ++ rest) =
      append_assoc name (codes " (" ++ (number ++ codes ")")) (0 ∷ [])
      ∙ ap (λ t. name ++ (codes " (" ++ t)) (append_assoc number (codes ")") (0 ∷ [])) in
    sym (
      ap (λ t. write_all t 0 buffer) whole
      ∙ (write_all-append name (codes " (" ++ rest) 0 buffer
          ∙ (ap (λ k. write_all (codes " (" ++ rest) k (write_all name 0 buffer)) start
              ∙ (write_all-append number (b')' ∷ 0 ∷ []) (i + 1 + 1)
                    (write_all (codes " (") i (write_all name 0 buffer))
                  ∙ rw (← bytes, ← index) refl))))

get_sig_name-write_all :
    (sig : ℕ) (buffer : List ℕ)
    → sig < 100
    → get_sig_name sig buffer ≡ write_all (shown sig ++ 0 ∷ []) 0 buffer
unfolding get_sig_name
get_sig_name-write_all sig buffer h =
    let name = sig_text sig in
    let i = length name in
    let opened = set (set (copy_name name 0 buffer) i b' ') (i + 1) b'(' in
    let numbered = write_number_lem sig (i + 1 + 1) opened h in
    in_parts name (digits 10 sig) buffer i (write_number sig (i + 1 + 1) opened) refl
      (numbered.0
        ∙ ap (λ t. write_all (digits 10 sig) (i + 1 + 1) (write_all (codes " (") i t))
            (copy_name-write_all name 0 buffer))
      numbered.1

parts_small :
    (name number : List ℕ)
    → length name ≤ 18
    → length number ≤ 2
    → length (name ++ (codes " (" ++ (number ++ codes ")"))) + 1 ≤ 24
parts_small name number h k = omega (
  arith,
  h,
  k,
  length-append name (codes " (" ++ (number ++ codes ")")),
  length-append number (codes ")"),
)

ended :
    (t buffer : List ℕ)
    → length t + 1 ≤ length buffer
    → write_all (t ++ 0 ∷ []) 0 buffer ≡ t ++ 0 ∷ drop (length t + 1) buffer
ended t buffer room =
    let size : length (t ++ 0 ∷ []) ≡ length t + 1 = omega (arith, length-append t (0 ∷ [])) in
    write_all-behind (t ++ 0 ∷ []) [] buffer 0 refl (omega (arith, room, size))
    ∙ (append_assoc t (0 ∷ []) (drop (length (t ++ 0 ∷ [])) buffer)
        ∙ ap (λ k. t ++ 0 ∷ drop k buffer) size)

-- For a signal below 100, a buffer of 24 bytes is enough: the name of the signal, its number in
-- decimal between brackets, and a NUL stand at its start, and the rest of it is as before.
pub get_sig_name-shown :
    (sig : ℕ) (buffer : List ℕ)
    → sig < 100
    → 24 ≤ length buffer
    → (get_sig_name sig buffer ≡ shown sig ++ 0 ∷ drop (length (shown sig) + 1) buffer)
      × (length (shown sig) + 1 ≤ 24)
get_sig_name-shown sig buffer h room =
    let small = parts_small (sig_text sig) (digits 10 sig) (name_small sig) (number_small sig h) in
    (get_sig_name-write_all sig buffer h ∙ ended (shown sig) buffer (le_trans small room), small)
