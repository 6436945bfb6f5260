-- ===== src/Sudo/Root.antt =====
-- Who becomes root.
use autumnos_mobile.Common.{
  ℕ, zero, suc, ◌-◌, ◌≡◌, refl, ap, inl, inr, Bool, true, false, ◌&&◌, ◌||◌, some, List, [], ◌∷◌,
  ◌++◌, arith, ltb, ◌==◌, if◌then◌else◌, length, set, take, replicate, c_string, text_eq,
  Bool-cases,
}
use autumnos_mobile.Sudo.{
  is_end, strcspn, Stack, Process, exited, as_root, read_pass, verify, to_root, check_password,
  dash_k, main,
}
use autumnos_mobile.Sudo.Line.{type_keys, no_end, getminput_lem}

-- The text of the first line of a file, up to the first NUL.
abbrev pub first_line : List ℕ → List ℕ
first_line [] = []
first_line (c ∷ s) = if (c == 0) || is_end c then [] else c ∷ first_line s

-- What a line leaves of the keys that are typed for it.
abbrev pub typed_text : List ℕ → List ℕ
typed_text keys = c_string (type_keys 63 [] keys)

pub not_nul : (c : ℕ) → (suc c == 0) ≡ false
not_nul c = ground arith

c_string-cut :
    (s : List ℕ) (k : ℕ)
    → c_string (set (s ++ replicate k 0) (strcspn (s ++ replicate k 0)) 0) ≡ first_line s
unfolding strcspn
c_string-cut [] zero = refl
c_string-cut [] (suc k) = refl
c_string-cut (zero ∷ s) k = refl
c_string-cut (suc c ∷ s) k = elim (Bool-cases (is_end (suc c))) [
  | inl e ↦ rw (not_nul c, e) refl
  | inr e ↦ rw (not_nul c, e) (ap (λ t. suc c ∷ t) (c_string-cut s k))
]

-- The password of a file is the first line of its first 63 bytes.
read_pass_text : (content : List ℕ) → c_string (read_pass content) ≡ first_line (take 63 content)
unfolding read_pass
read_pass_text content = elim (Bool-cases (ltb 0 (length (take 63 content)))) [
  | inl some_bytes ↦ rw some_bytes (c_string-cut (take 63 content) (64 - length (take 63 content)))
  | inr none_read ↦ rw none_read (empty (take 63 content) none_read)
]
  where
    empty :
        (s : List ℕ)
        → ltb 0 (length s) ≡ false
        → c_string (s ++ replicate (64 - length s) 0) ≡ first_line s
    empty [] e = refl
    empty (c ∷ s) e = absurd (ground (arith, e))

pub check_password_result :
    (stack : Stack) (p : Process) (content keys rest : List ℕ) (e : ℕ)
    → length stack.input_p ≡ 64
    → no_end keys ≡ true
    → is_end e ≡ true
    → check_password stack p content (keys ++ e ∷ rest)
      ≡ some (
          if p.reopened
            && text_eq (typed_text keys) (first_line (take 63 (if p.readable then content else [])))
            && (p.root_ok && p.exec_ok)
          then as_root
          else exited 1)
unfolding check_password verify to_root
check_password_result stack p content keys rest e size quiet ends =
    let read = if p.readable then content else [] in
    let typed =
      getminput_lem 64 e keys rest stack.input_p (omega arith) (omega arith) (omega (arith, size))
        quiet ends in
    elim (Bool-cases p.reopened) [
      | inl opened ↦
          rw (opened, typed.returned, typed.reads, read_pass_text read)
            (granted (text_eq (typed_text keys) (first_line (take 63 read)))
              (p.root_ok && p.exec_ok))
      | inr closed ↦ rw closed refl
    ]
  where
    granted :
        (ok root : Bool)
        → some (if ok then (if root then as_root else exited 1) else exited 1)
          ≡ some (if ok && root then as_root else exited 1)
    granted true root = refl
    granted false root = refl

-- The password check of a user: for a program to start, an ordinary user, a password file that
-- exists and a buffer of 64 bytes, a line of keys (without an end of line among them) and its end of
-- line make `main` start the program as root if the file opens again, the text that the line editor
-- leaves is the first line of the file's first 63 bytes, and `setreuid` and `execvp` succeed; otherwise
-- it exits with 1. If the file opens and then cannot be read, the empty line is what is compared.
-- Nothing else has an influence, in particular not what the buffer held before.
pub main-checked :
    (stack : Stack) (p : Process) (arg content keys rest : List ℕ) (args : List (List ℕ)) (e : ℕ)
    → (length args == 0) && text_eq arg dash_k ≡ false
    → (p.ruid == 0) ≡ false
    → p.file ≡ some content
    → length stack.input_p ≡ 64
    → no_end keys ≡ true
    → is_end e ≡ true
    → main stack p (arg ∷ args) (keys ++ e ∷ rest)
      ≡ some (
          if p.reopened
            && text_eq (typed_text keys) (first_line (take 63 (if p.readable then content else [])))
            && (p.root_ok && p.exec_ok)
          then as_root
          else exited 1)
unfolding main
main-checked stack p arg content keys rest args e starts user exists size quiet ends =
    rw (starts, user, exists) (check_password_result stack p content keys rest e size quiet ends)
