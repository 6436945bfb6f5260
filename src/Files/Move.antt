-- ===== src/Files/Move.antt =====
-- The name that a moved file gets.
use autumnos_mobile.Common.{
  ℕ, ◌≤◌, ◌≡◌, refl, Bool, true, false, none, some, List, [], ◌∷◌, ◌++◌, ◌==◌, arith, length,
  if◌then◌else◌, take_all,
}
use autumnos_mobile.Files.{after_slash, base_name, f_mv}

abbrev pub no_slash : List ℕ → Bool
no_slash [] = true
no_slash (c ∷ name) = if c == b'/' then false else no_slash name

after_slash-none : (name : List ℕ) → no_slash name ≡ true → after_slash name ≡ none
unfolding after_slash
after_slash-none [] h = refl
after_slash-none (c ∷ name) h =
    let (other, rest) = split (c == b'/') (no_slash name) h in
    rw (after_slash-none name rest, other) refl
  where
    split : (p q : Bool) → (if p then false else q) ≡ true → (p ≡ false) × (q ≡ true)
    split p q t = (ground (arith, t), ground (arith, t))

after_slash-append :
    (dir name : List ℕ) → no_slash name ≡ true → after_slash (dir ++ b'/' ∷ name) ≡ some name
unfolding after_slash
after_slash-append [] name h = rw (after_slash-none name h) refl
after_slash-append (c ∷ dir) name h = rw (after_slash-append dir name h) refl

-- A file whose path ends with a slash and a name without slashes is moved to that name in the
-- directory of the destination, if the new path is shorter than 512 bytes.
pub f_mv-name :
    (dir name dst_p : List ℕ)
    → no_slash name ≡ true
    → length (dst_p ++ b'/' ∷ name) ≤ 511
    → f_mv (dir ++ b'/' ∷ name) dst_p ≡ (dir ++ b'/' ∷ name, dst_p ++ b'/' ∷ name)
unfolding f_mv base_name
f_mv-name dir name dst_p h short =
    rw (base_name, after_slash-append dir name h, take_all 511 (dst_p ++ b'/' ∷ name) short) refl
