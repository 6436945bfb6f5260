-- ===== src/Tunnel/Refine.antt =====
-- A tunnel whose window holds a queue behaves as that queue.
use autumnos_mobile.Common.{
  ℕ, suc, ◌+◌, ◌%◌, ◌≤◌, ◌<◌, ◌≡◌, refl, sym, ◌↔◌, ◌∙◌, ap, inl, inr, List, [], ◌∷◌, ◌++◌, arith,
  ◌==◌, true, false, Bool-cases, length, get_or, set, length-set, length-append, get_or-set_self,
  get_or-set_ne, get_or-append_left, get_or-append_end, length-replicate,
}
use native.Mathlib.Decide.{dec_lt}
use autumnos_mobile.Tunnel.{
  ChatTunnel, next, cleared_slot, written_slot, create_mapping, receive_from_friend, send_msg, Call,
  sends, receives, run,
}
use autumnos_mobile.Tunnel.Queue
use autumnos_mobile.Tunnel.Queue.{Queue}

-- The messages of `q` lie in the ring from `head` on, and `tail` is just behind them.
pub record Holds (t : ChatTunnel) (q : Queue) : Type 0 where
  pub head_in : t.head < 256
  pub small : length q ≤ 255
  pub tail_at : t.tail ≡ (t.head + length q) % 256
  pub slots : length t.buffer ≡ 256
  pub window : (i : ℕ) → i < length q → get_or t.buffer ((t.head + i) % 256) [] ≡ get_or q i []

-- A write behind a window of fewer than 256 slots leaves the window alone.
pub window-set :
    (buf : List (List ℕ)) (q : Queue) (head tail : ℕ) (m : List ℕ)
    → length q < 256
    → tail ≡ (head + length q) % 256
    → ((i : ℕ) → i < length q → get_or buf ((head + i) % 256) [] ≡ get_or q i [])
    → (i : ℕ) → i < length q
    → get_or (set buf tail m) ((head + i) % 256) [] ≡ get_or q i []
window-set buf q head tail m small e w i h =
    get_or-set_ne buf tail ((head + i) % 256) m [] (omega arith) ∙ w i h

-- With the message in place, the window may be extended by it.
pub window-extend :
    (buf : List (List ℕ)) (q : Queue) (head tail : ℕ) (m : List ℕ)
    → tail ≡ (head + length q) % 256
    → get_or buf tail [] ≡ m
    → ((i : ℕ) → i < length q → get_or buf ((head + i) % 256) [] ≡ get_or q i [])
    → (i : ℕ) → i < length (q ++ m ∷ [])
    → get_or buf ((head + i) % 256) [] ≡ get_or (q ++ m ∷ []) i []
window-extend buf q head tail m e there w i h = elim (Bool-cases (i == length q)) [
  | inl last ↦ ground (
    arith,
    get_or-append_end q m [] i,
    ap (λ k. get_or buf ((head + k) % 256) []) (the_same i (length q) last),
    ap (λ k. get_or buf k []) e,
  )
  | inr inside ↦
      w i (below i (length q) inside (omega (arith, length-append q (m ∷ []))))
      ∙ sym (
          get_or-append_left q (m ∷ []) i []
            (below i (length q) inside (omega (arith, length-append q (m ∷ [])))))
]
  where
    the_same : (a b : ℕ) → (a == b) ≡ true → a ≡ b
    the_same a b t = ground arith

    below : (a b : ℕ) → (a == b) ≡ false → a < b + 1 → a < b
    below a b f lt = ground arith

-- The ring that `AutumnAPI_Tunnel_Create` maps holds the empty queue.
pub create_mapping-Holds : Holds create_mapping []
unfolding create_mapping
create_mapping-Holds = record {
  head_in = omega arith;
  small = omega arith;
  tail_at = refl;
  slots = length-replicate 256 cleared_slot;
  window = λ i h. absurd (omega arith);
}

-- The ring after the writes of a successful send.
sent-Holds :
    (t : ChatTunnel) (q : Queue) (text : List ℕ)
    → Holds t q
    → length q < 255
    → Holds
        (record t {
          tail = next t.tail;
          buffer = set (set t.buffer t.tail cleared_slot) t.tail (written_slot text);
        })
        (q ++ written_slot text ∷ [])
sent-Holds t q text h room = record {
  head_in = h.head_in;
  small = omega (arith, length-append q (written_slot text ∷ []));
  tail_at = omega (arith, length-append q (written_slot text ∷ []), h.tail_at);
  slots =
      length-set (set t.buffer t.tail cleared_slot) t.tail (written_slot text)
      ∙ (length-set t.buffer t.tail cleared_slot ∙ h.slots);
  window =
      window-extend _ q t.head t.tail (written_slot text) h.tail_at
        (get_or-set_self (set t.buffer t.tail cleared_slot) t.tail (written_slot text) []
          (omega (arith, length-set t.buffer t.tail cleared_slot)))
        (window-set _ q t.head t.tail _ (omega arith) h.tail_at
          (window-set _ q t.head t.tail _ (omega arith) h.tail_at h.window));
}

-- The test of the code says whether the queue is full.
full_iff : (t : ChatTunnel) (q : Queue) → Holds t q → (next t.tail ≡ t.head) ↔ (length q ≡ 255)
full_iff t q h = (λ e. omega arith, λ e. omega arith)

pub send-Holds :
    (t : ChatTunnel) (q : Queue) (text : List ℕ)
    → Holds t q
    → Holds (send_msg t text).0 (Queue.send q text).0
      × ((send_msg t text).1 ≡ (Queue.send q text).1)
unfolding send_msg Queue.send
send-Holds t q text h = elim (dec_lt (length q) 255) [
  | yes room ↦ ground (arith, sent-Holds t q text h room, full_iff t q h)
  | no full ↦ ground (arith, h, full_iff t q h)
]

-- The ring after a successful receive.
pub received-Holds :
    (t : ChatTunnel) (m : List ℕ) (q : Queue)
    → Holds t (m ∷ q)
    → Holds (record t { head = next t.head }) q
received-Holds t m q h = record {
  head_in = omega arith;
  small = omega (arith, h.small);
  tail_at = omega (arith, h.tail_at);
  slots = h.slots;
  window = λ i lt. ap (λ k. get_or t.buffer k []) (shift i) ∙ h.window (suc i) (omega arith);
}
  where
    shift : (i : ℕ) → ((t.head + 1) % 256 + i) % 256 ≡ (t.head + suc i) % 256
    shift i = omega arith

pub first-message :
    (t : ChatTunnel) (m : List ℕ) (q : Queue) → Holds t (m ∷ q) → get_or t.buffer t.head [] ≡ m
first-message t m q h =
    ap (λ k. get_or t.buffer k []) (same t.head h.head_in) ∙ h.window 0 (omega arith)
  where
    same : (k : ℕ) → k < 256 → k ≡ (k + 0) % 256
    same k lt = omega arith

pub receive-Holds :
    (t : ChatTunnel) (q : Queue)
    → Holds t q
    → Holds (receive_from_friend t).0 (Queue.receive q).0
      × ((receive_from_friend t).1 ≡ (Queue.receive q).1)
unfolding receive_from_friend Queue.receive
receive-Holds t [] h = ground (arith, h)
receive-Holds t (m ∷ q) h = ground (arith, received-Holds t m q h, first-message t m q h)

-- No sequence of sends and receives tells a tunnel that holds a queue from that queue: each call
-- returns what the bounded queue of 255 messages returns, in particular a send fails exactly when
-- 255 messages wait, and a receive gives the oldest message or fails when none waits.
pub run_refines :
    (cs : List Call) (t : ChatTunnel) (q : Queue) → Holds t q → run t cs ≡ Queue.run q cs
unfolding run Queue.run
run_refines [] t q h = refl
run_refines (sends text ∷ cs) t q h =
    let s = send-Holds t q text h in cc (run_refines cs _ _ s.0, s.1)
run_refines (receives ∷ cs) t q h = let s = receive-Holds t q h in cc (run_refines cs _ _ s.0, s.1)
