-- ===== src/Tunnel/Spsc/Order.antt =====
-- What every interleaving keeps: the receiver gets the messages that were sent, whole and in order.
use autumnos_mobile.Common.{
  ◌≤◌, ◌<◌, ◌≡◌, refl, ap, sym, ◌∙◌, [], ◌∷◌, ◌++◌, arith, length, get_or, drop, get_or-set_self,
  append_assoc,
}
use autumnos_mobile.Tunnel.{next, cleared_slot, written_slot}
use mathlib.Core.Path.{subst}
use autumnos_mobile.Tunnel.Refine.{Holds}
use autumnos_mobile.Tunnel.Spsc.{System, Step, Reach, here, then_step}
use autumnos_mobile.Tunnel.Spsc.Inv.{
  SenderKnows, Inv, start-Inv, ReceiverKnows-buffer, ReceiverKnows-sent, room_seen, set-Holds,
  tail-Holds, sender_at, receiver_at, taken, copied,
}

-- Every step of either thread keeps the invariant.
pub Step-Inv : {s t : System} → Inv s → Step s t → Inv t
Step-Inv {s} v (Step.load_tail text e) = record {
  holds = v.holds;
  sender_knows = refl;
  receiver_knows = v.receiver_knows;
  history = v.history;
}
Step-Inv {s} v (Step.load_head text tail e) = record {
  holds = v.holds;
  sender_knows = (
    0,
    sender_at v e,
    v.holds.head_in,
    omega (arith, v.holds.head_in),
    omega (arith, v.holds.small),
  );
  receiver_knows = v.receiver_knows;
  history = v.history;
}
Step-Inv {s} v (Step.refuse text tail head e full) = record {
  holds = v.holds;
  sender_knows = tt;
  receiver_knows = v.receiver_knows;
  history = v.history;
}
Step-Inv {s} v (Step.clear_slot text tail head e ne) =
    let k = sender_at v e in
    let room = room_seen s.tunnel s.waiting tail head k.0 v.holds k.1 k.3 k.2 k.4 ne in
    record {
      holds = set-Holds s.tunnel s.waiting tail cleared_slot v.holds k.1 room;
      sender_knows = (k.1, room);
      receiver_knows = ReceiverKnows-buffer s.receiver s.tunnel s.waiting _ v.receiver_knows;
      history = v.history;
    }
Step-Inv {s} v (Step.write_slot text tail e) =
    let k = sender_at v e in
    record {
      holds = set-Holds s.tunnel s.waiting tail (written_slot text) v.holds k.0 k.1;
      sender_knows = (
        k.0,
        k.1,
        get_or-set_self s.buffer tail (written_slot text) []
            (omega (arith, k.0, v.holds.tail_at, v.holds.slots)),
      );
      receiver_knows = ReceiverKnows-buffer s.receiver s.tunnel s.waiting _ v.receiver_knows;
      history = v.history;
    }
Step-Inv {s} v (Step.store_tail text tail e) =
    let k = sender_at v e in
    record {
      holds = tail-Holds s.tunnel s.waiting tail (written_slot text) v.holds k.0 k.1 k.2;
      sender_knows = tt;
      receiver_knows =
          ReceiverKnows-sent s.receiver s.tunnel s.waiting _ (written_slot text) v.receiver_knows;
      history =
          sym (append_assoc s.received s.waiting (written_slot text ∷ []))
          ∙ ap (λ h. h ++ written_slot text ∷ []) v.history;
    }
Step-Inv {s} v (Step.receive_head e) = record {
  holds = v.holds;
  sender_knows = v.sender_knows;
  receiver_knows = refl;
  history = v.history;
}
Step-Inv {s} v (Step.receive_tail head e) = record {
  holds = v.holds;
  sender_knows = v.sender_knows;
  receiver_knows = (length s.waiting, receiver_at v e, omega arith, v.holds.tail_at);
  history = v.history;
}
Step-Inv {s} v (Step.find_empty head tail e same) = record {
  holds = v.holds;
  sender_knows = v.sender_knows;
  receiver_knows = tt;
  history = v.history;
}
Step-Inv {s} v (Step.copy_slot head tail e ne) =
    let k = receiver_at v e in
    let some_wait : 0 < length s.waiting = omega (arith, k.1, k.2, k.3, v.holds.head_in) in
    record {
      holds = v.holds;
      sender_knows = v.sender_knows;
      receiver_knows = (
        k.1,
        some_wait,
        copied s.tunnel s.waiting v.holds some_wait ∙ ap (λ h. get_or s.buffer h []) (sym k.1),
      );
      history = v.history;
    }
Step-Inv {s} v (Step.store_head head m e) =
    let k = receiver_at v e in
    let done = taken s s.waiting m v.holds v.sender_knows v.history k.1 k.2 in
    let at_head = sym k.0 in
    record {
      holds =
          subst (λ h. Holds (record s.tunnel { head = next h }) (drop 1 s.waiting)) at_head done.0;
      sender_knows =
          subst (λ h. SenderKnows s.sender (record s.tunnel { head = next h }) (drop 1 s.waiting))
            at_head done.1;
      receiver_knows = tt;
      history = done.2;
    }

Reach-Inv : {s : System} → Reach s → Inv s
Reach-Inv here = start-Inv
Reach-Inv (then_step r st) = Step-Inv (Reach-Inv r) st

-- In every state that the two threads can reach, by whatever interleaving of their loads, stores
-- and slot accesses, the messages received are a first part of the messages sent, each as it was
-- written and in the order of the sends; at most 255 wait.
pub Reach-received :
    {s : System} → Reach s → (s.received ++ s.waiting ≡ s.sent) × (length s.waiting ≤ 255)
Reach-received r = let v = Reach-Inv r in (v.history, v.holds.small)
