-- ===== src/Arena/Blocks.antt =====
-- Where the blocks of the arena lie.
use autumnos_mobile.Common.{
  ℕ, ◌+◌, ◌*◌, ◌/◌, ◌%◌, ◌^◌, ◌≤◌, ◌<◌, ◌≡◌, refl, List, [], ◌∷◌, arith, ap,
}
use autumnos_mobile.Arena.{MemoryAr, arena_size, round_up, alloc, alloc_all}

-- The offset is a multiple of eight inside the arena, or at its end.
pub record IsValid (a : MemoryAr) : Type 0 where
  pub aligned : a.offset % 8 ≡ 0
  pub inside : a.offset ≤ arena_size

-- Rounding up gives the least multiple of eight that is no less, if it does not wrap.
pub round_up_lem :
    (size : ℕ)
    → size + 7 < 2 ^ 64
    → (round_up size % 8 ≡ 0) × (size ≤ round_up size) × (round_up size < size + 8)
unfolding round_up
round_up_lem size h = omega arith

-- A request of at most the arena's size gets a block that lies in the arena, starts at a multiple
-- of eight, and leaves the arena valid.
pub alloc_in_bounds :
    (a : MemoryAr) (size : ℕ)
    → IsValid a
    → size ≤ arena_size
    → ((alloc a size).0 + size ≤ arena_size) × ((alloc a size).0 % 8 ≡ 0) × IsValid (alloc a size).1
unfolding alloc
alloc_in_bounds a size v h = ground (arith, round_up_lem size (omega arith))

-- The least multiple of eight that is no less.
abbrev pub next_eight : ℕ → ℕ
next_eight size = (size + 7) / 8 * 8

-- The room that some blocks take.
abbrev pub total : List ℕ → ℕ
total [] = 0
total (size ∷ sizes) = next_eight size + total sizes

-- Where the blocks should start: each just behind the one before.
abbrev pub starts : ℕ → List ℕ → List ℕ
starts from [] = []
starts from (size ∷ sizes) = from ∷ starts (from + next_eight size) sizes

-- Blocks of some sizes at some places lie between `from` and the arena's end at multiples of eight,
-- each behind the bytes of all those before it.
pub data Apart : (from : ℕ) → List ℕ → List ℕ → Type 0 where
  done : (from : ℕ) → from ≤ arena_size → Apart from [] []
  block :
      (from size place : ℕ) (sizes places : List ℕ)
      → from ≤ place
      → place % 8 ≡ 0
      → Apart (place + size) sizes places
      → Apart from (size ∷ sizes) (place ∷ places)

round_up-next_eight : (size : ℕ) → next_eight size ≤ arena_size → round_up size ≡ next_eight size
unfolding round_up
round_up-next_eight size h = omega (arith, h)

-- A request that fits behind the offset is put there.
alloc_fits :
    (a : MemoryAr) (size : ℕ)
    → a.offset + next_eight size ≤ arena_size
    → alloc a size ≡ (a.offset, record a { offset = a.offset + next_eight size })
unfolding alloc
alloc_fits a size h =
    let rounded = round_up-next_eight size (omega (arith, h)) in
    rw (alloc, rounded) (ground (arith, h))

starts-Apart :
    (sizes : List ℕ) (from offset : ℕ)
    → from ≤ offset
    → offset % 8 ≡ 0
    → offset + total sizes ≤ arena_size
    → Apart from sizes (starts offset sizes)
starts-Apart [] from offset le m h = Apart.done from (omega arith)
starts-Apart (size ∷ sizes) from offset le m h =
    Apart.block from size offset sizes (starts (offset + next_eight size) sizes) le m (
      starts-Apart sizes (offset + size) (offset + next_eight size) (omega arith) (omega arith)
        (omega arith))

alloc_all-places :
    (sizes : List ℕ) (a : MemoryAr)
    → a.offset + total sizes ≤ arena_size
    → alloc_all a sizes ≡ starts a.offset sizes
unfolding alloc_all
alloc_all-places [] a h = refl
alloc_all-places (size ∷ sizes) a h = rw (alloc_fits a size (omega arith)) (
    ap (λ r. a.offset ∷ r)
      (alloc_all-places sizes (record a { offset = a.offset + next_eight size }) (omega arith)))

-- From a valid arena that has room for all of them, each size taken up to the next multiple of
-- eight, the blocks of a row of allocations lie one behind the other from the offset on: each starts
-- at a multiple of eight, behind the bytes of every block before it, and all end inside the arena.
pub alloc_all-starts :
    (sizes : List ℕ) (a : MemoryAr)
    → IsValid a
    → a.offset + total sizes ≤ arena_size
    → (alloc_all a sizes ≡ starts a.offset sizes) × Apart a.offset sizes (alloc_all a sizes)
alloc_all-starts sizes a v h =
    let places = alloc_all-places sizes a h in
    (places, rw places (starts-Apart sizes a.offset a.offset (omega arith) v.aligned h))
