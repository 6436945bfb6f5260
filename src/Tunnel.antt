-- ===== src/Tunnel.antt =====
-- v0.1-alpha/API/libatmchtn.c and v0.1-alpha/include/libatmchtn.h: the ChatTunnel, a ring of
-- fixed-length messages in shared memory between one sender and one receiver.
pub mod Queue
pub mod Refine
pub mod Text
pub mod Spsc
mod Tests
use autumnos_mobile.Common.{
  ℕ, suc, zero, ◌+◌, ◌%◌, Bool, true, false, Option, none, some, List, [], ◌∷◌, ◌++◌, ◌==◌,
  if◌then◌else◌, get_or, set, drop, replicate,
}

abbrev pub tunnel_size : ℕ
tunnel_size = 256

abbrev pub msg_len : ℕ
msg_len = 64

-- The indices start at 0 and are only ever stored reduced, so they are natural numbers.
pub record ChatTunnel : Type 0 where
  pub head : ℕ
  pub tail : ℕ
  pub buffer : List (List ℕ)

-- What `strncpy(dst, src, n)` puts into `dst`: the bytes up to the NUL, and NULs up to `n`. The end
-- of the list is the terminator of a text that the list holds without it.
pub strncpy : List ℕ → ℕ → List ℕ
strncpy src zero = []
strncpy [] (suc n) = 0 ∷ strncpy [] n
strncpy (zero ∷ src) (suc n) = 0 ∷ strncpy [] n
strncpy (suc c ∷ src) (suc n) = suc c ∷ strncpy src n

-- `memset(slot, 0, MSG_LEN)`.
pub cleared_slot : List ℕ
cleared_slot = replicate msg_len 0

-- `strncpy(slot, data, MSG_LEN - 1)` over the cleared slot.
pub written_slot : List ℕ → List ℕ
unfolding cleared_slot
written_slot text = strncpy text 63 ++ drop 63 cleared_slot

abbrev pub next : ℕ → ℕ
next i = (i + 1) % tunnel_size

-- The mapping of `AutumnAPI_Tunnel_Create`: memory filled with zeros, both indices 0.
pub create_mapping : ChatTunnel
unfolding cleared_slot
create_mapping = record { head = 0; tail = 0; buffer = replicate tunnel_size cleared_slot }

-- `AutumnAPI_Tunnel_ReceiveFromFriend`. The option is the Boolean result with the bytes that go
-- through `buffer`. `Refine.Holds` rules out a read outside the ring.
pub receive_from_friend : ChatTunnel → ChatTunnel × Option (List ℕ)
receive_from_friend t =
    if head == tail
    then (t, none)
    else (record t { head = next head }, some (get_or buffer head []))
  where
    open t use {head, tail, buffer}

-- `AutumnAPI_Tunnel_Send_Msg`: both writes into the slot, then the new tail.
pub send_msg : ChatTunnel → List ℕ → ChatTunnel × Bool
send_msg t text = if next tail == head then (t, false) else (
  record t {
    tail = next tail;
    buffer = set (set buffer tail cleared_slot) tail (written_slot text);
  },
  true,
)
  where
    open t use {head, tail, buffer}

pub data Call : Type 0 where
  sends : List ℕ → Call
  receives : Call

pub data Reply : Type 0 where
  sent : Bool → Reply
  received : Option (List ℕ) → Reply

-- A client's calls in order, with what each returns.
pub run : ChatTunnel → List Call → List Reply
run t [] = []
run t (sends text ∷ cs) = let (t', ok) = send_msg t text in sent ok ∷ run t' cs
run t (receives ∷ cs) = let (t', out) = receive_from_friend t in received out ∷ run t' cs
