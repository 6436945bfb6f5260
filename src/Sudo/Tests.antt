-- ===== src/Sudo/Tests.antt =====
-- Passwords that are typed, and the theorems at inputs that meet their hypotheses.
use autumnos_mobile.Common.{
  ℕ, ◌≡◌, refl, true, false, ◌&&◌, none, some, List, [], ◌∷◌, ◌++◌, arith, if◌then◌else◌, take,
  replicate, text_eq,
}
use autumnos_mobile.Sudo.{
  Stack, Process, exited, as_root, getminput, strcspn, read_pass, verify, to_root, check_password,
  main, put_key, dash_k,
}
use autumnos_mobile.Sudo.Line.{Typed, type_keys, getminput_lem}
use autumnos_mobile.Sudo.Root.{typed_text, first_line, main-checked}
use autumnos_mobile.Sudo.Create.{main-refused}

abbrev frame : Stack
frame = record { p1 = replicate 64 7; p2 = replicate 64 8; input_p = replicate 64 9 }

-- "abx", the last key erased, and "c".
abbrev keys_abc : List ℕ
keys_abc = b'a' ∷ b'b' ∷ b'x' ∷ 127 ∷ b'c' ∷ []

abbrev abc_file : List ℕ
abc_file = b'a' ∷ b'b' ∷ b'c' ∷ 10 ∷ []

abbrev shell : List ℕ
shell = b's' ∷ b'h' ∷ []

abbrev with_file : Process
with_file = record {
  ruid = 1000;
  file = some abc_file;
  writable = false;
  stored = 64;
  reopened = true;
  readable = true;
  user_ok = true;
  root_ok = true;
  exec_ok = true;
}

abbrev without_file : Process
without_file = record with_file { file = none; writable = true }

main-right : main frame with_file (shell ∷ []) (keys_abc ++ 10 ∷ []) ≡ some as_root
unfolding main check_password verify read_pass strcspn getminput put_key text_eq to_root
main-right = refl

main-wrong : main frame with_file (shell ∷ []) (b'a' ∷ 10 ∷ []) ≡ some (exited 1)
unfolding main check_password verify read_pass strcspn getminput put_key text_eq to_root
main-wrong = refl

-- An empty file is the password that an empty line gives.
main-empty_file :
    main frame (record with_file { file = some [] }) (shell ∷ []) (13 ∷ []) ≡ some as_root
unfolding main check_password verify read_pass strcspn getminput put_key text_eq to_root
main-empty_file = refl

main-drop_root : main frame with_file (dash_k ∷ []) [] ≡ some (exited 0)
unfolding main text_eq
main-drop_root = refl

getminput_lem_example :
    Typed 4
      (replicate 4 9 ++ 77 ∷ [])
      (type_keys 3 [] keys_abc)
      (5 ∷ [])
      (getminput 4 (keys_abc ++ 13 ∷ 5 ∷ []) (replicate 4 9 ++ 77 ∷ [], 0))
getminput_lem_example =
    getminput_lem 4 13 keys_abc (5 ∷ []) (replicate 4 9 ++ 77 ∷ []) (omega arith) (omega arith)
      (omega arith) refl refl

main-refused_example :
    main frame without_file (shell ∷ []) (keys_abc ++ 10 ∷ (keys_abc ++ 10 ∷ keys_abc))
    ≡ some (exited 1)
unfolding text_eq
main-refused_example =
    main-refused frame without_file shell keys_abc keys_abc keys_abc [] 10 refl refl refl
      (refl, refl) refl refl refl

main-checked_example :
    main frame with_file (shell ∷ []) (keys_abc ++ 10 ∷ [])
    ≡ some (
        if true
          && text_eq (typed_text keys_abc) (first_line (take 63 (if true then abc_file else [])))
          && (true && true)
        then as_root
        else exited 1)
unfolding text_eq
main-checked_example =
    main-checked frame with_file shell abc_file keys_abc [] [] 10 refl refl refl refl refl refl
