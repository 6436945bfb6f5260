-- ===== src/Arena/Message.antt =====
-- The handling of one message by `avm`: what it copies out of the message into the arena.
use autumnos_mobile.Common.{ℕ, suc, zero, ◌+◌, ◌*◌, ◌≤◌, ◌↔◌, List, arith, get_or, drop}
use autumnos_mobile.Arena.{MemoryAr, arena_size, alloc}
use autumnos_mobile.Arena.Blocks.{IsValid, alloc_in_bounds}
use autumnos_mobile.Tunnel.{msg_len}

-- A number of `n` bytes, the lowest first.
unfoldable pub little_endian : ℕ → List ℕ → ℕ
little_endian zero bytes = 0
little_endian (suc n) bytes = get_or bytes 0 0 + 256 * little_endian n (drop 1 bytes)

-- `task_pack`, packed: the type, the length, the payload.
unfoldable pub task_type : List ℕ → ℕ
task_type raw = get_or raw 0 0

unfoldable pub data_len : List ℕ → ℕ
unfolding little_endian
data_len raw = little_endian 8 (drop 1 raw)

-- A `memcpy` from the message to the arena.
pub record Copy : Type 0 where
  pub source : ℕ
  pub target : ℕ
  pub count : ℕ

-- `AutumnVM_Alloc(t->data_len)` and the `memcpy` of the payload, which starts at byte 9.
unfoldable pub copy_payload : MemoryAr → List ℕ → Copy × MemoryAr
copy_payload a raw =
    let (block, a') = alloc a (data_len raw) in
    (record { source = 9; target = block; count = data_len raw }, a')

-- The copy stays inside the message and inside the arena.
pub record IsSafe (c : Copy) : Type 0 where
  pub source_in : c.source + c.count ≤ msg_len
  pub target_in : c.target + c.count ≤ arena_size

-- With a valid arena, the copy stays inside the message and inside the arena exactly if the
-- length that the message states is at most that of its payload, 55.
pub copy_payload-IsSafe :
    (a : MemoryAr) (raw : List ℕ) → IsValid a → IsSafe (copy_payload a raw).0 ↔ (data_len raw ≤ 55)
unfolding copy_payload
copy_payload-IsSafe a raw v = (
  λ s. omega (arith, s.source_in),
  λ h. ground (arith, alloc_in_bounds a (data_len raw) v (omega arith)),
)
