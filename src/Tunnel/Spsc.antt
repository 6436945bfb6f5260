-- ===== src/Tunnel/Spsc.antt =====
-- One sender and one receiver at work at once: every atomic load, store and slot access of
-- `AutumnAPI_Tunnel_Send_Msg` and `AutumnAPI_Tunnel_ReceiveFromFriend` is a step of its own, and
-- the steps of the two threads come in any order. Memory is sequentially consistent here; the
-- code's acquire loads and release stores give the order that the steps rely on.
pub mod Inv
pub mod Order
use autumnos_mobile.Common.{
  ℕ, zero, suc, ◌+◌, ◌%◌, ◌≤◌, ◌<◌, ◌≡◌, ◌≢◌, refl, ap, List, [], ◌∷◌, ◌++◌, arith, length, get_or,
  set, drop,
}
use autumnos_mobile.Tunnel.{ChatTunnel, next, cleared_slot, written_slot, create_mapping}
use autumnos_mobile.Tunnel.Queue.{Queue}

-- Where the sender stands in `Send_Msg`, with its local variables.
pub data Sender : Type 0 where
  idle : Sender
  tail_loaded : (text : List ℕ) (tail : ℕ) → Sender
  head_loaded : (text : List ℕ) (tail head : ℕ) → Sender
  slot_cleared : (text : List ℕ) (tail : ℕ) → Sender
  slot_written : (text : List ℕ) (tail : ℕ) → Sender

-- Where the receiver stands in `ReceiveFromFriend`.
pub data Receiver : Type 0 where
  idle : Receiver
  head_loaded : (head : ℕ) → Receiver
  tail_loaded : (head tail : ℕ) → Receiver
  slot_copied : (head : ℕ) (message : List ℕ) → Receiver

-- The shared ring, the two threads, and three records of the history: the messages whose send has
-- returned true, those whose receive has, and those between.
pub record System : Type 0 where
  pub tunnel : ChatTunnel
  pub open tunnel use *
  pub sender : Sender
  pub receiver : Receiver
  pub sent : Queue
  pub waiting : Queue
  pub received : Queue

abbrev pub start : System
start = record {
  tunnel = create_mapping;
  sender = Sender.idle;
  receiver = Receiver.idle;
  sent = [];
  waiting = [];
  received = [];
}

pub data Step (s : System) : System → Type 0 where
  load_tail :
      (text : List ℕ)
      → s.sender ≡ Sender.idle
      → Step s (record s { sender = Sender.tail_loaded text s.tail })
  load_head :
      (text : List ℕ) (tail : ℕ)
      → s.sender ≡ Sender.tail_loaded text tail
      → Step s (record s { sender = Sender.head_loaded text tail s.head })
  refuse :
      (text : List ℕ) (tail head : ℕ)
      → s.sender ≡ Sender.head_loaded text tail head
      → next tail ≡ head
      → Step s (record s { sender = Sender.idle })
  clear_slot :
      (text : List ℕ) (tail head : ℕ)
      → s.sender ≡ Sender.head_loaded text tail head
      → next tail ≢ head
      → Step s (record s {
        tunnel = record s.tunnel { buffer = set s.buffer tail cleared_slot };
        sender = Sender.slot_cleared text tail;
      })
  write_slot :
      (text : List ℕ) (tail : ℕ)
      → s.sender ≡ Sender.slot_cleared text tail
      → Step s (record s {
        tunnel = record s.tunnel { buffer = set s.buffer tail (written_slot text) };
        sender = Sender.slot_written text tail;
      })
  store_tail :
      (text : List ℕ) (tail : ℕ)
      → s.sender ≡ Sender.slot_written text tail
      → Step s (record s {
        tunnel = record s.tunnel { tail = next tail };
        sender = Sender.idle;
        sent = s.sent ++ written_slot text ∷ [];
        waiting = s.waiting ++ written_slot text ∷ [];
      })
  receive_head :
      s.receiver ≡ Receiver.idle → Step s (record s { receiver = Receiver.head_loaded s.head })
  receive_tail :
      (head : ℕ)
      → s.receiver ≡ Receiver.head_loaded head
      → Step s (record s { receiver = Receiver.tail_loaded head s.tail })
  find_empty :
      (head tail : ℕ)
      → s.receiver ≡ Receiver.tail_loaded head tail
      → head ≡ tail
      → Step s (record s { receiver = Receiver.idle })
  copy_slot :
      (head tail : ℕ)
      → s.receiver ≡ Receiver.tail_loaded head tail
      → head ≢ tail
      → Step s (record s { receiver = Receiver.slot_copied head (get_or s.buffer head []) })
  store_head :
      (head : ℕ) (message : List ℕ)
      → s.receiver ≡ Receiver.slot_copied head message
      → Step s (record s {
        tunnel = record s.tunnel { head = next head };
        receiver = Receiver.idle;
        waiting = drop 1 s.waiting;
        received = s.received ++ message ∷ [];
      })

pub data Reach : System → Type 0 where
  here : Reach start
  then_step : {s t : System} → Reach s → Step s t → Reach t
