-- ===== src/Power/Serve.antt =====
-- Requests and their answers, through both tunnels.
use autumnos_mobile.Common.{
  ℕ, suc, ◌+◌, ◌≤◌, ◌<◌, ◌≡◌, refl, ap, Option, none, List, [], ◌∷◌, ◌++◌, true, map, append-nil,
  append_assoc, arith, length, take, length-append, c_string, ltb, Bool, false, if◌then◌else◌, ◌∙◌,
  some,
}
use mathlib.Core.List.{map-append}
use mathlib.Core.Path.{subst}
use autumnos_mobile.Tunnel.{ChatTunnel, written_slot, receive_from_friend, send_msg}
use autumnos_mobile.Tunnel.Queue
use autumnos_mobile.Tunnel.Refine.{Holds, send-Holds, receive-Holds}
use autumnos_mobile.Tunnel.Text.{written_slot_lem}
use autumnos_mobile.Power.{
  Os, Action, answer, actions, Service, handle, serve_round, serve, respond,
}
use autumnos_mobile.Power.Command.{Serves, answer-Serves}

-- What is in the tunnels when some requests are waiting.
pub record Waiting (s : Service) (texts : List (List ℕ)) (answered : List (List ℕ))
    (did : List Action) (up : Bool) : Type 0 where
  pub requests : Holds s.request (map written_slot texts)
  pub responses : Holds s.response (map written_slot answered)
  pub actions_done : s.done ≡ did
  pub is_up : s.up ≡ up

-- A round that finds the tunnel as a receive from the queue of requests does.
round-handle :
    (os : Os) (s : Service) (out : Option (List ℕ))
    → (receive_from_friend s.request).1 ≡ out
    → serve_round os s ≡ handle os s (receive_from_friend s.request).0 out
unfolding serve_round
round-handle os s out e = ap (handle os s (receive_from_friend s.request).0) e

idle_round :
    (os : Os) (s : Service) (answered : List (List ℕ)) (did : List Action)
    → Waiting s [] answered did true
    → Waiting (serve_round os s) [] answered did true
unfolding handle Queue.receive
idle_round os s answered did w =
    let empty = (receive-Holds s.request [] w.requests).1 in rw (round-handle os s none empty) w

length-map : (texts : List (List ℕ)) → length (map written_slot texts) ≡ length texts
length-map [] = refl
length-map (text ∷ texts) = ap suc (length-map texts)

-- A send where there is room.
pub sent_more :
    (t : ChatTunnel) (answered : List (List ℕ)) (text : List ℕ)
    → Holds t (map written_slot answered)
    → length answered < 255
    → Holds (send_msg t text).0 (map written_slot (answered ++ text ∷ []))
unfolding Queue.send
sent_more t answered text h room =
    let sent = (send-Holds t (map written_slot answered) text h).0 in
    let fits : ltb (length (map written_slot answered)) 255 ≡ true =
      ground (arith, room, length-map answered) in
    rw (map-append written_slot answered (text ∷ [])) (rw fits at sent)

-- A round that takes a request out.
taken_round :
    (os : Os) (s : Service) (text : List ℕ) (texts answered : List (List ℕ)) (did : List Action)
    → Waiting s (text ∷ texts) answered did true
    → let command = take 63 (c_string text) in
      let request' = (receive_from_friend s.request).0 in
      Holds request' (map written_slot texts)
      × (serve_round os s ≡ respond s request' (actions command) (answer os command))
unfolding handle Queue.receive
taken_round os s text texts answered did w =
    let got = receive-Holds s.request (map written_slot (text ∷ texts)) w.requests in
    let content = (written_slot_lem text).1 in
    let request' = (receive_from_friend s.request).0 in
    (
      got.0,
      round-handle os s _ got.1 ∙ ap (λ c. respond s request' (actions c) (answer os c)) content,
    )

pub busy_round :
    (os : Os) (s : Service) (text reply : List ℕ) (texts answered : List (List ℕ))
    (did : List Action)
    → Waiting s (text ∷ texts) answered did true
    → length answered < 255
    → answer os (take 63 (c_string text)) ≡ some reply
    → Waiting
        (serve_round os s)
        texts
        (answered ++ reply ∷ [])
        (did ++ actions (take 63 (c_string text)))
        true
busy_round os s text reply texts answered did w room e =
    let (taken, round) = taken_round os s text texts answered did w in
    rw (round, e)
      (record {
        requests = taken;
        responses = sent_more s.response answered reply w.responses room;
        actions_done = ap (λ a. a ++ actions (take 63 (c_string text))) w.actions_done;
        is_up = w.is_up;
      })

down_round :
    (os : Os) (s : Service) (text : List ℕ) (texts answered : List (List ℕ)) (did : List Action)
    → Waiting s (text ∷ texts) answered did true
    → answer os (take 63 (c_string text)) ≡ none
    → Waiting (serve_round os s) texts answered (did ++ actions (take 63 (c_string text))) false
down_round os s text texts answered did w e =
    let (taken, round) = taken_round os s text texts answered did w in
    rw (round, e)
      (record {
        requests = taken;
        responses = w.responses;
        actions_done = ap (λ a. a ++ actions (take 63 (c_string text))) w.actions_done;
        is_up = refl;
      })

-- How requests are served, one in each round: the answers, what is done, the requests that are left,
-- and whether the machine is up. Each command is the first 63 bytes of the text of its request.
pub data Served
    : List Os
      → (texts answers : List (List ℕ)) → List Action
      → (left : List (List ℕ)) → Bool
      → Type 0 where
  all : (rounds : List Os) → Served rounds [] [] [] [] true
  goes_on :
      (os : Os) (rounds : List Os) (text reply : List ℕ) (texts answers left : List (List ℕ))
      (acts more : List Action) (up : Bool)
      → Serves os (take 63 (c_string text)) (some reply) acts
      → Served rounds texts answers more left up
      → Served (os ∷ rounds) (text ∷ texts) (reply ∷ answers) (acts ++ more) left up
  goes_down :
      (os : Os) (rounds : List Os) (text : List ℕ) (texts : List (List ℕ)) (acts : List Action)
      → Serves os (take 63 (c_string text)) none acts
      → Served (os ∷ rounds) (text ∷ texts) [] acts texts false

-- The service has served requests, whatever the tunnels and the history were before.
pub record Outcome (rounds : List Os) (s : Service) (texts answered : List (List ℕ))
    (did : List Action) : Type 0 where
  pub answers : List (List ℕ)
  pub acts : List Action
  pub left : List (List ℕ)
  pub up : Bool
  pub served : Served rounds texts answers acts left up
  pub waiting : Waiting (serve rounds s) left (answered ++ answers) (did ++ acts) up

up_round :
    (os : Os) (rounds : List Os) (s : Service)
    → s.up ≡ true
    → serve (os ∷ rounds) s ≡ serve rounds (serve_round os s)
unfolding serve
up_round os rounds s e = ap (λ t. if t then serve rounds (serve_round os s) else s) e

stopped_round :
    (os : Os) (rounds : List Os) (s : Service) → s.up ≡ false → serve (os ∷ rounds) s ≡ s
unfolding serve
stopped_round os rounds s e = ap (λ t. if t then serve rounds (serve_round os s) else s) e

idle_rounds :
    (rounds : List Os) (s : Service) (answered : List (List ℕ)) (did : List Action)
    → Waiting s [] answered did true
    → Waiting (serve rounds s) [] answered did true
unfolding serve
idle_rounds [] s answered did w = w
idle_rounds (os ∷ rounds) s answered did w =
    rw (up_round os rounds s w.is_up)
      (idle_rounds rounds (serve_round os s) answered did (idle_round os s answered did w))

down_rounds :
    (rounds : List Os) (s : Service) (texts answered : List (List ℕ)) (did : List Action)
    → Waiting s texts answered did false
    → Waiting (serve rounds s) texts answered did false
unfolding serve
down_rounds [] s texts answered did w = w
down_rounds (os ∷ rounds) s texts answered did w = rw (stopped_round os rounds s w.is_up) w

-- Where a ring of requests waits and the answers to all of them fit behind those that wait in the
-- other ring, as many rounds as there are requests, or more, serve the requests in order: each is
-- answered once, behind those before, and what it asks for is done once. A restart or a power off that
-- does not come back ends this: what waits then is left, and nothing more is answered or done.
pub serve-Waiting :
    (rounds : List Os) (s : Service) (texts answered : List (List ℕ)) (did : List Action)
    → length texts ≤ length rounds
    → length answered + length texts ≤ 255
    → Waiting s texts answered did true
    → Outcome rounds s texts answered did
serve-Waiting rounds s [] answered did enough room w = record {
  answers = [];
  acts = [];
  left = [];
  up = true;
  served = Served.all rounds;
  waiting = rw (append-nil answered, append-nil did) (idle_rounds rounds s answered did w);
}
serve-Waiting [] s (text ∷ texts) answered did enough room w = absurd (omega (arith, enough))
serve-Waiting (os ∷ rounds) s (text ∷ texts) answered did enough room w =
    by_answer (answer os (take 63 (c_string text))) refl (λ reply w'.
      serve-Waiting rounds (serve_round os s) texts (answered ++ reply ∷ [])
        (did ++ actions (take 63 (c_string text))) (omega (arith, enough))
        (omega (arith, room, length-append answered (reply ∷ []))) w')
  where
    by_answer :
        (o : Option (List ℕ))
        → answer os (take 63 (c_string text)) ≡ o
        → ((reply : List ℕ)
            → Waiting
                (serve_round os s)
                texts
                (answered ++ reply ∷ [])
                (did ++ actions (take 63 (c_string text)))
                true
            → Outcome rounds
                (serve_round os s)
                texts
                (answered ++ reply ∷ [])
                (did ++ actions (take 63 (c_string text))))
        → Outcome (os ∷ rounds) s (text ∷ texts) answered did
    by_answer none e later = record {
      answers = [];
      acts = actions (take 63 (c_string text));
      left = texts;
      up = false;
      served = Served.goes_down os rounds text texts _ (
          subst (λ a. Serves os (take 63 (c_string text)) a (actions (take 63 (c_string text)))) e
            (answer-Serves os (take 63 (c_string text))));
      waiting =
          rw (up_round os rounds s w.is_up, append-nil answered)
            (down_rounds rounds (serve_round os s) texts answered _
              (down_round os s text texts answered did w e));
    }
    by_answer (some reply) e later =
        let rest =
          later reply (busy_round os s text reply texts answered did w (omega (arith, room)) e) in
        record {
          answers = reply ∷ rest.answers;
          acts = actions (take 63 (c_string text)) ++ rest.acts;
          left = rest.left;
          up = rest.up;
          served =
              Served.goes_on os rounds text reply texts rest.answers rest.left _ rest.acts rest.up
                (subst
                  (λ a. Serves os (take 63 (c_string text)) a (actions (take 63 (c_string text)))) e
                  (answer-Serves os (take 63 (c_string text))))
                rest.served;
          waiting =
              rw
                (
                  up_round os rounds s w.is_up,
                  ← append_assoc answered (reply ∷ []) rest.answers,
                  ← append_assoc did (actions (take 63 (c_string text))) rest.acts,
                )
                rest.waiting;
        }
