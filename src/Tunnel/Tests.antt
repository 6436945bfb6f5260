-- ===== src/Tunnel/Tests.antt =====
-- Runs of the tunnel, and its theorems at inputs that meet their hypotheses.
use autumnos_mobile.Common.{
  ℕ, ◌≡◌, ◌≤◌, refl, List, [], ◌∷◌, ◌++◌, length, set, arith, true, some, none,
}
use autumnos_mobile.Tunnel.{
  next, Call, sends, receives, run, create_mapping, written_slot, cleared_slot, send_msg,
  receive_from_friend, sent, received,
}
use autumnos_mobile.Tunnel.Queue
use autumnos_mobile.Tunnel.Refine.{create_mapping-Holds, run_refines}
use autumnos_mobile.Tunnel.Spsc.{System, Sender, Receiver, start, Step, Reach, here, then_step}
use autumnos_mobile.Tunnel.Spsc.Order.{Reach-received}

abbrev touch : List ℕ
touch = b'T' ∷ b'O' ∷ b'U' ∷ b'C' ∷ b'H' ∷ []

abbrev script : List Call
script = sends touch ∷ receives ∷ receives ∷ []

run-script :
    run create_mapping script
    ≡ sent true ∷ received (some (written_slot touch)) ∷ received none ∷ []
unfolding run create_mapping send_msg receive_from_friend
run-script = refl

run_refines_example : run create_mapping script ≡ Queue.run [] script
run_refines_example = run_refines script create_mapping [] create_mapping-Holds

-- The receiver reads the indices of the empty ring between the sender's two loads, and finds it
-- empty; it comes back when the message is there.
abbrev loading : System
loading = record start {
  sender = Sender.tail_loaded touch start.tail;
  receiver = Receiver.tail_loaded start.head start.tail;
}

abbrev ready : System
ready = record loading {
  sender = Sender.head_loaded touch start.tail start.head;
  receiver = Receiver.idle;
}

abbrev cleared : System
cleared = record ready {
  tunnel = record start.tunnel { buffer = set start.buffer start.tail cleared_slot };
  sender = Sender.slot_cleared touch start.tail;
}

abbrev written : System
written = record cleared {
  tunnel = record cleared.tunnel { buffer = set cleared.buffer start.tail (written_slot touch) };
  sender = Sender.slot_written touch start.tail;
}

abbrev published : System
published = record written {
  tunnel = record written.tunnel { tail = next start.tail };
  sender = Sender.idle;
  sent = [] ++ written_slot touch ∷ [];
  waiting = [] ++ written_slot touch ∷ [];
}

published-Reach : Reach published
unfolding create_mapping
published-Reach =
    let one = then_step here (Step.load_tail touch refl) in
    let two = then_step one (Step.receive_head refl) in
    let three = then_step two (Step.receive_tail 0 refl) in
    let four = then_step three (Step.find_empty 0 0 refl refl) in
    let five = then_step four (Step.load_head touch 0 refl) in
    let six = then_step five (Step.clear_slot touch 0 0 refl (omega arith)) in
    let seven = then_step six (Step.write_slot touch 0 refl) in
    then_step seven (Step.store_tail touch 0 refl)

Reach-received_example :
    ([] ++ published.waiting ≡ published.sent) × (length published.waiting ≤ 255)
Reach-received_example = Reach-received published-Reach
