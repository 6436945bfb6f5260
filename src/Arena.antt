-- ===== src/Arena.antt =====
-- v0.1-alpha/src/pthread/avm.c: the arena of the Autumn virtual machine, and its use by a message.
-- An address is the offset into `global_a.buffer`. `size_t` has 64 bits.
pub mod Blocks
pub mod Message
mod Tests
use autumnos_mobile.Common.{
  ℕ, suc, zero, ◌+◌, ◌-◌, ◌*◌, ◌/◌, ◌%◌, Bool, Option, none, some, List, [], ◌∷◌, ◌==◌, ltb,
  if◌then◌else◌, u64, get_or, length, take, drop,
}

abbrev pub arena_size : ℕ
arena_size = 1024 * 1024

pub record MemoryAr : Type 0 where
  pub offset : ℕ

-- `(size + 7) & ~7`: the three low bits are cleared.
pub round_up : ℕ → ℕ
round_up size = let s = u64 (size + 7) in s - s % 8

-- `AutumnVM_Alloc`: the offset of the block, and the arena afterwards.
pub alloc : MemoryAr → ℕ → ℕ × MemoryAr
unfolding round_up
alloc a requested =
    let size = round_up requested in
    let start = if ltb arena_size (u64 (a.offset + size)) then 0 else a.offset in
    (start, record a { offset = u64 (start + size) })

-- Allocations one after the other: where each block starts.
pub alloc_all : MemoryAr → List ℕ → List ℕ
alloc_all a [] = []
alloc_all a (size ∷ sizes) = let (start, a') = alloc a size in start ∷ alloc_all a' sizes
