-- ===== src/Files/Copy.antt =====
-- A copy has the bytes of its source.
use autumnos_mobile.Common.{
  ℕ, true, zero, suc, ◌≤◌, ◌<◌, ◌≡◌, refl, ap, sym, ◌∙◌, Option, none, some, List, [], ◌∷◌, ◌++◌,
  arith, length, take, drop, pos, negsuc, append-nil, append_assoc, length-drop,
}
use autumnos_mobile.Files.{
  src_file, dst_file, Written, fails, writes, Chunk, stuck, broken, whole, write_chunk, Copied,
  copy_chunks, f_cp,
}

-- The bytes of all reads.
abbrev pub concat : List (List ℕ) → List ℕ
concat [] = []
concat (chunk ∷ reads) = chunk ++ concat reads

take-drop : (k : ℕ) (s : List ℕ) → take k s ++ drop k s ≡ s
take-drop zero s = refl
take-drop (suc k) [] = refl
take-drop (suc k) (b ∷ s) = ap (λ t. b ∷ t) (take-drop k s)

-- A write that does not fail writes at least one of the bytes.
abbrev pub Moves : (ℕ → Written) → Type 0
Moves answer = (n k : ℕ) → answer n ≡ writes k → 0 < k

-- The reads give at least one byte each and no more than the fuel.
abbrev pub Reads : ℕ → List (List ℕ) → Type 0
Reads fuel [] = Unit {0}
Reads fuel (chunk ∷ reads) = (0 < length chunk) × (length chunk ≤ fuel) × Reads fuel reads

-- The chunk is written whole, or a write has failed before its end.
data Writes (answer : ℕ → Written) (dst bytes : List ℕ) : Chunk → Type 0 where
  all : (n : ℕ) (after : List ℕ) → after ≡ dst ++ bytes → Writes answer dst bytes (whole after n)
  part :
      (n : ℕ) (after rest : List ℕ)
      → answer n ≡ fails
      → after ++ rest ≡ dst ++ bytes
      → Writes answer dst bytes (broken after)

later-Writes :
    (answer : ℕ → Written) (k : ℕ) (dst bytes : List ℕ) (chunk : Chunk)
    → Writes answer (dst ++ take k bytes) (drop k bytes) chunk
    → Writes answer dst bytes chunk
later-Writes answer k dst bytes chunk (Writes.all n after e) = Writes.all n after (e ∙ joined)
  where
    joined : (dst ++ take k bytes) ++ drop k bytes ≡ dst ++ bytes
    joined = append_assoc dst (take k bytes) (drop k bytes) ∙ ap (λ t. dst ++ t) (take-drop k bytes)
later-Writes answer k dst bytes chunk (Writes.part n after rest f e) =
    Writes.part n after rest f (e ∙ joined)
  where
    joined : (dst ++ take k bytes) ++ drop k bytes ≡ dst ++ bytes
    joined = append_assoc dst (take k bytes) (drop k bytes) ∙ ap (λ t. dst ++ t) (take-drop k bytes)

write_chunk-Writes :
    (answer : ℕ → Written) (fuel n : ℕ) (bytes dst : List ℕ)
    → Moves answer
    → length bytes ≤ fuel
    → Writes answer dst bytes (write_chunk answer fuel n bytes dst)
unfolding write_chunk
write_chunk-Writes answer fuel n [] dst moves h = Writes.all n dst (sym (append-nil dst))
write_chunk-Writes answer zero n (b ∷ bytes) dst moves h = absurd (omega (arith, h))
write_chunk-Writes answer (suc fuel) n (b ∷ bytes) dst moves h = answered (answer n) refl (λ k less.
    write_chunk-Writes answer fuel (suc n) (drop k (b ∷ bytes)) (dst ++ take k (b ∷ bytes)) moves
      less)
  where
    answered :
        (a : Written)
        → answer n ≡ a
        → ((k : ℕ)
            → length (drop k (b ∷ bytes)) ≤ fuel
            → Writes answer
                (dst ++ take k (b ∷ bytes))
                (drop k (b ∷ bytes))
                (write_chunk answer fuel (suc n) (drop k (b ∷ bytes)) (dst ++ take k (b ∷ bytes))))
        → Writes answer dst (b ∷ bytes) (elim a [
          | fails ↦ broken dst
          | writes k ↦
              write_chunk answer fuel (suc n) (drop k (b ∷ bytes)) (dst ++ take k (b ∷ bytes))
        ])
    answered fails e rest = Writes.part n dst (b ∷ bytes) e refl
    answered (writes k) e rest =
        later-Writes answer k dst (b ∷ bytes)
          (write_chunk answer fuel (suc n) (drop k (b ∷ bytes)) (dst ++ take k (b ∷ bytes)))
          (rest k (omega (arith, h, moves n k e, length-drop k (b ∷ bytes))))

-- The copy has all that was read, or a write has failed and what is there is a beginning of that.
pub data Copies (answer : ℕ → Written) (content : List ℕ) (copied : Option Copied) : Type 0 where
  copied_all :
      copied
        ≡ some (record { result = pos 0; dst = some content; closes = src_file ∷ dst_file ∷ [] })
      → Copies answer content copied
  copied_part :
      (n : ℕ) (first rest : List ℕ)
      → answer n ≡ fails
      → first ++ rest ≡ content
      → copied
        ≡ some (record { result = negsuc 0; dst = some first; closes = src_file ∷ dst_file ∷ [] })
      → Copies answer content copied

copy_chunks-Copies :
    (answer : ℕ → Written) (fuel n : ℕ) (reads : List (List ℕ)) (dst : List ℕ)
    → Moves answer
    → Reads fuel reads
    → Copies answer (dst ++ concat reads) (copy_chunks answer fuel n reads dst)
unfolding copy_chunks
copy_chunks-Copies answer fuel n [] dst moves h = Copies.copied_all (rw (append-nil dst) refl)
copy_chunks-Copies answer fuel n ([] ∷ reads) dst moves (some_bytes, short, later) =
    absurd (omega arith)
copy_chunks-Copies answer fuel n ((b ∷ bytes) ∷ reads) dst moves (some_bytes, short, later) =
    written (write_chunk answer fuel n (b ∷ bytes) dst)
      (write_chunk-Writes answer fuel n (b ∷ bytes) dst moves short)
      (λ n' after. copy_chunks-Copies answer fuel n' reads after moves later)
  where
    written :
        (chunk : Chunk)
        → Writes answer dst (b ∷ bytes) chunk
        → ((k : ℕ) (start : List ℕ)
            → Copies answer (start ++ concat reads) (copy_chunks answer fuel k reads start))
        → Copies answer (dst ++ concat ((b ∷ bytes) ∷ reads)) (elim chunk [
          | stuck ↦ none
          | broken after ↦
              some
                (record { result = negsuc 0; dst = some after; closes = src_file ∷ dst_file ∷ [] })
          | whole after n' ↦ copy_chunks answer fuel n' reads after
        ])
    written _ (Writes.all n' after e) rest =
        rw (sym (append_assoc dst (b ∷ bytes) (concat reads)), sym e) (rest n' after)
    written _ (Writes.part n' after rest f e) more =
        Copies.copied_part n' after (rest ++ concat reads) f
          (sym (append_assoc after rest (concat reads))
            ∙ ap (λ t. t ++ concat reads) e
            ∙ append_assoc dst (b ∷ bytes) (concat reads))
          refl

-- A copy of a file that opens to one that opens, where the reads give between one byte and `fuel`
-- each until one gives none, and a write that does not fail writes at least one byte, ends within
-- `fuel` writes for each read, with both files closed, each once: it returns 0 and the destination has
-- all bytes of these reads in order, or a write has failed, it returns -1 and the destination has the
-- first of them. The code takes a read that fails for the end of the file: then, too, it returns 0,
-- with the bytes that were read before.
pub f_cp-Copies :
    (answer : ℕ → Written) (fuel : ℕ) (reads : List (List ℕ))
    → Moves answer
    → Reads fuel reads
    → Copies answer (concat reads) (f_cp true true answer fuel reads)
unfolding f_cp
f_cp-Copies answer fuel reads moves h = copy_chunks-Copies answer fuel 0 reads [] moves h
