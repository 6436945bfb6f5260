-- ===== src/Tunnel/Spsc/Inv.antt =====
-- What each thread knows of the ring between its steps, and the lemmas on the ring that its steps need.
use autumnos_mobile.Common.{
  ℕ, suc, ◌+◌, ◌%◌, ◌≤◌, ◌<◌, ◌≡◌, ◌≢◌, refl, ap, sym, ◌∙◌, List, [], ◌∷◌, ◌++◌, arith, length,
  get_or, set, drop, length-set, length-append, get_or-append_left, append_assoc,
}
use autumnos_mobile.Tunnel.{ChatTunnel, next, written_slot}
use autumnos_mobile.Tunnel.Queue.{Queue}
use mathlib.Core.Path.{subst}
use native.Mathlib.Decide.{dec_lt}
use autumnos_mobile.Tunnel.Refine.{
  Holds, window-set, window-extend, create_mapping-Holds, received-Holds, first-message,
}
use autumnos_mobile.Tunnel.Spsc.{Sender, Receiver, System, start}

-- The sender's variables: its tail is the ring's, and its head is one from which the receiver has
-- taken `k` messages since, so that room it has seen is still there.
abbrev pub SenderKnows : Sender → ChatTunnel → Queue → Type 0
SenderKnows Sender.idle t q = Unit {0}
SenderKnows (Sender.tail_loaded text tail) t q = tail ≡ t.tail
SenderKnows (Sender.head_loaded text tail head) t q =
    (k : ℕ) × (tail ≡ t.tail) × (head < 256) × ((head + k) % 256 ≡ t.head) × (k + length q ≤ 255)
SenderKnows (Sender.slot_cleared text tail) t q = (tail ≡ t.tail) × (length q < 255)
SenderKnows (Sender.slot_written text tail) t q =
    (tail ≡ t.tail) × (length q < 255) × (get_or t.buffer tail [] ≡ written_slot text)

-- The receiver's variables: its head is the ring's, and its tail is one behind `k` messages that
-- still wait.
abbrev pub ReceiverKnows : Receiver → ChatTunnel → Queue → Type 0
ReceiverKnows Receiver.idle t q = Unit {0}
ReceiverKnows (Receiver.head_loaded head) t q = head ≡ t.head
ReceiverKnows (Receiver.tail_loaded head tail) t q =
    (k : ℕ) × (head ≡ t.head) × (k ≤ length q) × (tail ≡ (t.head + k) % 256)
ReceiverKnows (Receiver.slot_copied head m) t q =
    (head ≡ t.head) × (0 < length q) × (get_or q 0 [] ≡ m)

pub record Inv (s : System) : Type 0 where
  pub holds : Holds s.tunnel s.waiting
  pub sender_knows : SenderKnows s.sender s.tunnel s.waiting
  pub receiver_knows : ReceiverKnows s.receiver s.tunnel s.waiting
  pub history : s.received ++ s.waiting ≡ s.sent

pub start-Inv : Inv start
start-Inv = record {
  holds = create_mapping-Holds;
  sender_knows = tt;
  receiver_knows = tt;
  history = refl;
}

-- The receiver's knowledge outlasts a write to a slot and a new tail.
pub ReceiverKnows-buffer :
    (r : Receiver) (t : ChatTunnel) (q : Queue) (b : List (List ℕ))
    → ReceiverKnows r t q
    → ReceiverKnows r (record t { buffer = b }) q
ReceiverKnows-buffer Receiver.idle t q b k = k
ReceiverKnows-buffer (Receiver.head_loaded head) t q b k = k
ReceiverKnows-buffer (Receiver.tail_loaded head tail) t q b k = k
ReceiverKnows-buffer (Receiver.slot_copied head m) t q b k = k

pub ReceiverKnows-sent :
    (r : Receiver) (t : ChatTunnel) (q : Queue) (tail : ℕ) (m : List ℕ)
    → ReceiverKnows r t q
    → ReceiverKnows r (record t { tail = tail }) (q ++ m ∷ [])
ReceiverKnows-sent Receiver.idle t q tail m k = k
ReceiverKnows-sent (Receiver.head_loaded head) t q tail m k = k
ReceiverKnows-sent (Receiver.tail_loaded head old) t q tail m (k, e, le, at) =
    (k, e, omega (arith, length-append q (m ∷ [])), at)
ReceiverKnows-sent (Receiver.slot_copied head m') t q tail m (e, some_wait, first) = (
  e,
  omega (arith, length-append q (m ∷ [])),
  get_or-append_left q (m ∷ []) 0 [] some_wait ∙ first,
)

-- The sender's knowledge outlasts a message that is taken.
pub SenderKnows-received :
    (p : Sender) (t : ChatTunnel) (m : List ℕ) (q : Queue)
    → t.head < 256
    → SenderKnows p t (m ∷ q)
    → SenderKnows p (record t { head = next t.head }) q
SenderKnows-received Sender.idle t m q lt k = k
SenderKnows-received (Sender.tail_loaded text tail) t m q lt k = k
SenderKnows-received (Sender.head_loaded text tail head) t m q lt (k, e, h, at, room) =
    (suc k, e, h, omega arith, omega arith)
SenderKnows-received (Sender.slot_cleared text tail) t m q lt (e, room) = (e, omega arith)
SenderKnows-received (Sender.slot_written text tail) t m q lt (e, room, there) =
    (e, omega arith, there)

-- The new tail is not where the receiver's head was, so the ring has room.
pub room_seen :
    (t : ChatTunnel) (q : Queue) (tail head k : ℕ)
    → Holds t q
    → tail ≡ t.tail
    → (head + k) % 256 ≡ t.head
    → head < 256
    → k + length q ≤ 255
    → next tail ≢ head
    → length q < 255
room_seen t q tail head k h e at lt room ne = elim (dec_lt (length q) 255) [
  | yes small ↦ small
  | no full ↦ absurd (ne (omega (arith, h.tail_at)))
]

-- A write to the slot at the tail.
pub set-Holds :
    (t : ChatTunnel) (q : Queue) (tail : ℕ) (m : List ℕ)
    → Holds t q
    → tail ≡ t.tail
    → length q < 255
    → Holds (record t { buffer = set t.buffer tail m }) q
set-Holds t q tail m h e room = record {
  head_in = h.head_in;
  small = h.small;
  tail_at = h.tail_at;
  slots = length-set t.buffer tail m ∙ h.slots;
  window = window-set t.buffer q t.head tail m (omega arith) (e ∙ h.tail_at) h.window;
}

-- The new tail, behind a slot that holds the message.
pub tail-Holds :
    (t : ChatTunnel) (q : Queue) (tail : ℕ) (m : List ℕ)
    → Holds t q
    → tail ≡ t.tail
    → length q < 255
    → get_or t.buffer tail [] ≡ m
    → Holds (record t { tail = next tail }) (q ++ m ∷ [])
tail-Holds t q tail m h e room there = record {
  head_in = h.head_in;
  small = omega (arith, length-append q (m ∷ []));
  tail_at = omega (arith, length-append q (m ∷ []), h.tail_at);
  slots = h.slots;
  window = window-extend t.buffer q t.head tail m (e ∙ h.tail_at) there h.window;
}

pub sender_at : {s : System} {p : Sender} → Inv s → s.sender ≡ p → SenderKnows p s.tunnel s.waiting
sender_at {s} v e = subst (λ p. SenderKnows p s.tunnel s.waiting) e v.sender_knows

pub receiver_at :
    {s : System} {r : Receiver} → Inv s → s.receiver ≡ r → ReceiverKnows r s.tunnel s.waiting
receiver_at {s} v e = subst (λ r. ReceiverKnows r s.tunnel s.waiting) e v.receiver_knows

-- Taking the first message of a queue that has one.
pub taken :
    (s : System) (q : Queue) (m : List ℕ)
    → Holds s.tunnel q
    → SenderKnows s.sender s.tunnel q
    → s.received ++ q ≡ s.sent
    → 0 < length q
    → get_or q 0 [] ≡ m
    → Holds (record s.tunnel { head = next s.head }) (drop 1 q)
      × SenderKnows s.sender (record s.tunnel { head = next s.head }) (drop 1 q)
      × ((s.received ++ m ∷ []) ++ drop 1 q ≡ s.sent)
taken s [] m h k past some_wait first = absurd (omega arith)
taken s (m' ∷ q) m h k past some_wait first = (
  received-Holds s.tunnel m' q h,
  SenderKnows-received s.sender s.tunnel m' q h.head_in k,
  append_assoc s.received (m ∷ []) q ∙ (ap (λ x. s.received ++ x ∷ q) (sym first) ∙ past),
)

-- What the receiver copies is the oldest message that waits.
pub copied :
    (t : ChatTunnel) (q : Queue)
    → Holds t q
    → 0 < length q
    → get_or q 0 [] ≡ get_or t.buffer t.head []
copied t [] h some_wait = absurd (omega arith)
copied t (m ∷ q) h some_wait = sym (first-message t m q h)
