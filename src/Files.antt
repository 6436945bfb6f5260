-- ===== src/Files.antt =====
-- v0.1-alpha/API/libatmio.c: copying and moving files. The answers of the system are arguments.
mod Copy
mod Move
mod Tests
use autumnos_mobile.Common.{
  ℕ, zero, suc, ◌+◌, ◌-◌, Bool, true, false, not, ◌&&◌, ◌||◌, Option, none, some, List, [], ◌∷◌,
  ◌++◌, ◌==◌, ltb, if◌then◌else◌, length, take, drop, ℤ, pos, negsuc, c_string,
}

-- The answer to a call of `write`: an error, or that many bytes, at most those it is offered.
pub data Written : Type 0 where
  fails : Written
  writes : ℕ → Written

-- The loop that writes what was read, for the bytes that are left; `n` counts the calls of `write`.
-- The result has the bytes that the destination has then, and the calls made so far; `stuck` is a
-- loop that needs more rounds than the fuel.
pub data Chunk : Type 0 where
  stuck : Chunk
  broken : List ℕ → Chunk
  whole : List ℕ → ℕ → Chunk

pub write_chunk : (ℕ → Written) → ℕ → ℕ → List ℕ → List ℕ → Chunk
write_chunk answer fuel n [] dst = whole dst n
write_chunk answer zero n (b ∷ bytes) dst = stuck
write_chunk answer (suc fuel) n (b ∷ bytes) dst = elim (answer n) [
  | fails ↦ broken dst
  | writes k ↦ write_chunk answer fuel (suc n) (drop k (b ∷ bytes)) (dst ++ take k (b ∷ bytes))
]

-- The two files of a copy.
pub data CopyFile : Type 0 where
  src_file : CopyFile
  dst_file : CopyFile

-- What `AutumnAPI_FCp` returns, the bytes of the destination if it was opened, and the files that it
-- closes before it returns.
pub record Copied : Type 0 where
  pub result : ℤ
  pub dst : Option (List ℕ)
  pub closes : List CopyFile

-- The loop over the reads, which give these bytes and then nothing or an error.
pub copy_chunks : (ℕ → Written) → ℕ → ℕ → List (List ℕ) → List ℕ → Option Copied
unfolding write_chunk
copy_chunks answer fuel n [] dst =
    some (record { result = pos 0; dst = some dst; closes = src_file ∷ dst_file ∷ [] })
copy_chunks answer fuel n ([] ∷ reads) dst =
    some (record { result = pos 0; dst = some dst; closes = src_file ∷ dst_file ∷ [] })
copy_chunks answer fuel n ((b ∷ bytes) ∷ reads) dst =
    elim (write_chunk answer fuel n (b ∷ bytes) dst) [
      | stuck ↦ none
      | broken written ↦
          some (record { result = negsuc 0; dst = some written; closes = src_file ∷ dst_file ∷ [] })
      | whole written n' ↦ copy_chunks answer fuel n' reads written
    ]

-- `AutumnAPI_FCp`, for whether the source and the destination open, which is emptied then.
pub f_cp : Bool → Bool → (ℕ → Written) → ℕ → List (List ℕ) → Option Copied
unfolding copy_chunks
f_cp false dst_opens answer fuel reads =
    some (record { result = negsuc 0; dst = none; closes = [] })
f_cp true false answer fuel reads =
    some (record { result = negsuc 0; dst = none; closes = src_file ∷ [] })
f_cp true true answer fuel reads = copy_chunks answer fuel 0 reads []

-- `strrchr(path, '/')`: what follows the last slash, if there is one.
pub after_slash : List ℕ → Option (List ℕ)
after_slash [] = none
after_slash (c ∷ path) = elim (after_slash path) [
  | some name ↦ some name
  | none ↦ if c == b'/' then some path else none
]

-- The two names that `AutumnAPI_FMv` gives to `rename`.
pub base_name : List ℕ → List ℕ
unfolding after_slash
base_name path = elim (after_slash path) [ none ↦ path | some name ↦ name ]

pub f_mv : List ℕ → List ℕ → List ℕ × List ℕ
unfolding base_name
f_mv src_p dst_p = (src_p, take 511 (dst_p ++ b'/' ∷ base_name src_p))
