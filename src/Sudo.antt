-- ===== src/Sudo.antt =====
-- v0.1-alpha/src/autumn-sudo.c: the password that stands before root. The password file is its
-- bytes, `none` if there is none. What the program prints is left out.
pub mod Line
pub mod Root
mod Create
mod Tests
use autumnos_mobile.Common.{
  ℕ, zero, suc, ◌+◌, ◌-◌, Bool, true, false, not, ◌&&◌, ◌||◌, Option, none, some, List, [], ◌∷◌,
  ◌++◌, ◌==◌, ltb, if◌then◌else◌, u64, length, set, take, replicate, c_string, text_eq, ◌^◌, bit_or,
  bit_and,
}

-- The loop of `getminput`: `i` and the buffer, and what `getchar` gives. The result is the buffer
-- with the rest of the input; `none` is an input without an end of line, where the loop never ends.
abbrev pub is_end : ℕ → Bool
is_end ch = (ch == 10) || (ch == 13)

abbrev pub is_erase : ℕ → Bool
is_erase ch = (ch == 127) || (ch == 8)

-- A key that does not end the line.
pub put_key : ℕ → ℕ → List ℕ × ℕ → List ℕ × ℕ
put_key max_len ch (buf, i) =
    if is_erase ch
    then (if ltb 0 i then (buf, i - 1) else (buf, i))
    else if ltb i (u64 (max_len + (2 ^ 64 - 1)))
    then (set buf i ch, suc i)
    else (buf, i)

pub getminput : ℕ → List ℕ → List ℕ × ℕ → Option (List ℕ × List ℕ)
unfolding put_key
getminput max_len [] (buf, i) = none
getminput max_len (ch ∷ input) (buf, i) =
    if is_end ch
    then some (set buf i 0, input)
    else getminput max_len input (put_key max_len ch (buf, i))

-- `strcspn(s, "\r\n")`.
pub strcspn : List ℕ → ℕ
strcspn [] = 0
strcspn (c ∷ s) = if (c == 0) || is_end c then 0 else suc (strcspn s)

-- The 64 bytes of `p1`, `p2` and `input_p`, which hold anything at first.
pub record Stack : Type 0 where
  pub p1 : List ℕ
  pub p2 : List ℕ
  pub input_p : List ℕ

-- The process: the real user, the password file, the answer to opening a file that is there for
-- writing, and how many bytes the `write` of a new password stores (0 where it fails); the answers to
-- opening and to reading the file in `verify`, to the two calls of `setreuid`, and to `execvp`.
pub record Process : Type 0 where
  pub ruid : ℕ
  pub file : Option (List ℕ)
  pub writable : Bool
  pub stored : ℕ
  pub reopened : Bool
  pub readable : Bool
  pub user_ok : Bool
  pub root_ok : Bool
  pub exec_ok : Bool

-- `A_CRT` and `A_WRONLY | A_CRT | A_TRUNC` of include/HAL/io.h.
abbrev pub a_crt : ℕ
a_crt = 0

abbrev pub psw_flags : ℕ
psw_flags = bit_or (bit_or 1 a_crt) 0x200

-- The answer of Linux to opening the file for writing: a file that is not there is made only with the
-- flag O_CREAT, which is 0x40.
pub opens_for_writing : Process → Bool
opens_for_writing p = elim p.file [
  | none ↦ not (bit_and psw_flags 0x40 == 0) && p.writable
  | some content ↦ p.writable
]

-- `setpswd`: the new file, or `none` for `exit(1)`.
pub save_password : Process → List ℕ → List ℕ → Option (List ℕ)
unfolding opens_for_writing
save_password p first second =
    if not (text_eq (c_string first) (c_string second)) || (length (c_string first) == 0)
    then none
    else if opens_for_writing p
    then some (take p.stored (c_string first))
    else none

-- A result of the program: its exit code, or the program that it starts as root.
pub data Outcome : Type 0 where
  exited : ℕ → Outcome
  as_root : Outcome

-- `pass` of `verify` for the file's bytes.
pub read_pass : List ℕ → List ℕ
unfolding strcspn
read_pass content =
    let pass = take 63 content ++ replicate (64 - length (take 63 content)) 0 in
    if ltb 0 (length (take 63 content)) then set pass (strcspn pass) 0 else pass

-- `verify`, from what is read of the opened file on.
pub verify : Stack → List ℕ → List ℕ → Option Bool
unfolding getminput read_pass
verify stack content input = elim (getminput 64 input (stack.input_p, 0)) [
  | none ↦ none
  | some (typed, rest) ↦ some (text_eq (c_string typed) (c_string (read_pass content)))
]

-- The part of `main` from `verify` on. A failing `execvp` comes back, and `main` returns 1.
pub to_root : Process → Outcome
to_root p = if p.root_ok && p.exec_ok then as_root else exited 1

pub check_password : Stack → Process → List ℕ → List ℕ → Option Outcome
unfolding verify to_root
check_password stack p content input =
    if p.reopened
    then elim (verify stack (if p.readable then content else []) input) [
      | none ↦ none
      | some ok ↦ some (if ok then to_root p else exited 1)
    ]
    else some (exited 1)

-- `setpswd` and then `verify`.
pub create_password : Stack → Process → List ℕ → Option Outcome
unfolding getminput save_password check_password
create_password stack p input = elim (getminput 64 input (stack.p1, 0)) [
  | none ↦ none
  | some (first, input') ↦ elim (getminput 64 input' (stack.p2, 0)) [
    | none ↦ none
    | some (second, input'') ↦ elim (save_password p first second) [
      | none ↦ some (exited 1)
      | some content ↦ check_password stack p content input''
    ]
  ]
]

-- `main`, for the arguments after the program's name. `none` waits for an end of line for ever.
abbrev pub dash_k : List ℕ
dash_k = b'-' ∷ b'k' ∷ []

pub main : Stack → Process → List (List ℕ) → List ℕ → Option Outcome
unfolding create_password check_password to_root
main stack p [] input = some (exited 1)
main stack p (arg ∷ args) input =
    if (length args == 0) && text_eq arg dash_k
    then some (exited (if p.user_ok then 0 else 1))
    else if p.ruid == 0
    then some (to_root p)
    else elim p.file [
      | none ↦ create_password stack p input
      | some content ↦ check_password stack p content input
    ]
