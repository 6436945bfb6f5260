-- ===== src/Tunnel/Queue.antt =====
-- What a tunnel promises: a queue of at most 255 messages, oldest first.
use autumnos_mobile.Common.{
  ℕ, Bool, true, false, Option, none, some, List, [], ◌∷◌, ◌++◌, ltb, if◌then◌else◌, length,
}
use autumnos_mobile.Tunnel.{written_slot, Call, sends, receives, Reply, sent, received}

abbrev pub Queue : Type 0
Queue = List (List ℕ)

unfoldable pub send : Queue → List ℕ → Queue × Bool
send q text = if ltb (length q) 255 then (q ++ written_slot text ∷ [], true) else (q, false)

unfoldable pub receive : Queue → Queue × Option (List ℕ)
receive [] = ([], none)
receive (m ∷ q) = (q, some m)

unfoldable pub run : Queue → List Call → List Reply
run q [] = []
run q (sends text ∷ cs) = let (q', ok) = send q text in sent ok ∷ run q' cs
run q (receives ∷ cs) = let (q', out) = receive q in received out ∷ run q' cs
