-- ===== src/Sudo/Create.antt =====
-- The creation of a password.
use autumnos_mobile.Common.{
  ℕ, ◌≡◌, refl, inl, inr, true, false, not, ◌&&◌, ◌||◌, none, some, List, ◌∷◌, ◌++◌, arith, ◌==◌,
  length, c_string, text_eq, Bool-cases,
}
use autumnos_mobile.Sudo.{
  is_end, Stack, Process, exited, create_password, opens_for_writing, save_password, dash_k, main,
}
use autumnos_mobile.Sudo.Line.{no_end, getminput_lem}

missing_stays : (p : Process) → p.file ≡ none → opens_for_writing p ≡ false
unfolding opens_for_writing
missing_stays p missing = rw missing refl

save_password-none :
    (p : Process) (first second : List ℕ) → p.file ≡ none → save_password p first second ≡ none
unfolding save_password
save_password-none p first second missing =
    let stays = missing_stays p missing in
    elim (Bool-cases
      (not (text_eq (c_string first) (c_string second)) || (length (c_string first) == 0))) [
        | inl refused ↦ rw (save_password, refused) refl
        | inr good ↦ rw (save_password, good, stays) refl
      ]

-- Where there is no password file, an ordinary user who starts a program and types two lines gets no
-- further: `main` exits with 1 whatever the lines are and whatever the system answers, since the
-- file is opened without the flag that would create it. No password can be set in this way.
pub main-refused :
    (stack : Stack) (p : Process) (arg once twice rest : List ℕ) (args : List (List ℕ)) (e : ℕ)
    → (length args == 0) && text_eq arg dash_k ≡ false
    → (p.ruid == 0) ≡ false
    → p.file ≡ none
    → (length stack.p1 ≡ 64) × (length stack.p2 ≡ 64)
    → no_end once ≡ true
    → no_end twice ≡ true
    → is_end e ≡ true
    → main stack p (arg ∷ args) (once ++ e ∷ (twice ++ e ∷ rest)) ≡ some (exited 1)
unfolding main create_password
main-refused stack p arg once twice rest args e starts user missing (size1, size2) one two ends =
    let typed =
      getminput_lem 64 e once (twice ++ e ∷ rest) stack.p1 (omega arith) (omega arith)
        (omega (arith, size1)) one ends in
    let typed' =
      getminput_lem 64 e twice rest stack.p2 (omega arith) (omega arith) (omega (arith, size2)) two
        ends in
    rw
      (
        starts,
        user,
        missing,
        create_password,
        typed.returned,
        typed'.returned,
        save_password-none p typed.buffer typed'.buffer missing,
      )
      refl
