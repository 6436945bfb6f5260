-- ===== src/Power/Capacity.antt =====
-- A client that asks for the battery's capacity.
use autumnos_mobile.Common.{
  ℕ, ◌<◌, ◌++◌, ◌&&◌, true, false, length, leb, leb_ℤ, ◌≡◌, refl, sym, ap, ◌∙◌, ◌⊎◌, inl, inr,
  Option, none, some, List, [], ◌∷◌, append-nil, arith, take, take_all, ℤ, pos, negsuc, ◌≤ℤ◌,
  c_string, codes, first_hit, NoHit, first_hit-cases, text_eq,
}
use autumnos_mobile.Tunnel.{written_slot, receive_from_friend}
use autumnos_mobile.Tunnel.Queue
use autumnos_mobile.Tunnel.Refine.{receive-Holds}
use autumnos_mobile.Tunnel.Text.{written_slot_lem}
use autumnos_mobile.Touch.{print_int, scan_int, starts_with}
use autumnos_mobile.Touch.Number.{FitsInt, scan_int-print_int, c_string-print_int, length-print_int}
use autumnos_mobile.Power.{
  is_hidden, capacity_path, Files, supply_capacity, or_unknown, getbatcpc, Os, Action, answer,
  Service, serve_round,
}
use autumnos_mobile.Power.Serve.{Waiting, busy_round}

-- The supply `name` reports `v`: it is no hidden entry, the path of its capacity has less than 256
-- bytes, and the file there opens and begins with `v`, which is from 0 to 100.
pub record Reports (files : Files) (name : List ℕ) (v : ℤ) : Type 0 where
  pub shown : starts_with (codes ".") name ≡ false
  pub short : length (codes "/sys/class/power_supply/" ++ (name ++ codes "/capacity")) < 256
  pub reads :
      files (codes "/sys/class/power_supply/" ++ (name ++ codes "/capacity")) ≡ some (some v)
  pub low : pos 0 ≤ℤ v
  pub high : v ≤ℤ pos 100

-- No supply among some reports anything.
abbrev pub Silent : Files → List (List ℕ) → Type 0
Silent files [] = Unit
Silent files (name ∷ names) = ((v : ℤ) → ¬ Reports files name v) × Silent files names

-- `v` is what the supplies give: what the first one that reports something reports, or -1 where none
-- does.
pub data Capacity (supplies : Option (List (List ℕ))) (files : Files) (v : ℤ) : Type 0 where
  unknown :
      v ≡ negsuc 0
      → (names : List (List ℕ)) → (supplies ≡ none) ⊎ ((supplies ≡ some names) × Silent files names)
      → Capacity supplies files v
  known :
      (before after : List (List ℕ)) (name : List ℕ)
      → supplies ≡ some (before ++ name ∷ after)
      → Silent files before
      → Reports files name v
      → Capacity supplies files v

is_hidden-starts_with : (name : List ℕ) → is_hidden name ≡ starts_with (codes ".") name
is_hidden-starts_with [] = refl
is_hidden-starts_with (c ∷ name) = ground arith

supply-Reports :
    (files : Files) (name : List ℕ) (v : ℤ)
    → supply_capacity files name ≡ some v
    → Reports files name v
unfolding supply_capacity capacity_path
supply-Reports files name v e = record {
  shown = sym (is_hidden-starts_with name) ∙ ground arith;
  short = ground arith;
  reads = ground arith;
  low = ground arith;
  high = ground arith;
}

Reports-supply :
    (files : Files) (name : List ℕ) (v : ℤ)
    → Reports files name v
    → supply_capacity files name ≡ some v
unfolding supply_capacity capacity_path
Reports-supply files name v r =
    let shown : is_hidden name ≡ false = is_hidden-starts_with name ∙ r.shown in
    let fits : leb 256 (length (codes "/sys/class/power_supply/" ++ (name ++ codes "/capacity")))
        ≡ false =
      ground (arith, r.short) in
    let good : (leb_ℤ (pos 0) v && leb_ℤ v (pos 100)) ≡ true = ground (arith, r.low, r.high) in
    rw (supply_capacity, shown, capacity_path, fits, r.reads, good) refl

NoHit-Silent :
    (files : Files) (names : List (List ℕ))
    → NoHit (supply_capacity files) names
    → Silent files names
NoHit-Silent files [] h = tt
NoHit-Silent files (name ∷ names) (e, h) =
    (λ v r. clash (sym e ∙ Reports-supply files name v r), NoHit-Silent files names h)
  where
    clash : {v : ℤ} → ¬ (none ≡ some v)
    clash t = cc

getbatcpc-hit :
    (names : List (List ℕ)) (files : Files) (hit : Option ℤ)
    → first_hit (supply_capacity files) names ≡ hit
    → getbatcpc (some names) files ≡ or_unknown hit
unfolding getbatcpc
getbatcpc-hit names files hit e = ap or_unknown e

getbatcpc-none : (files : Files) → getbatcpc none files ≡ negsuc 0
unfolding getbatcpc
getbatcpc-none files = refl

getbatcpc-Capacity :
    (supplies : Option (List (List ℕ))) (files : Files)
    → Capacity supplies files (getbatcpc supplies files)
getbatcpc-Capacity none files = Capacity.unknown (getbatcpc-none files) [] (inl refl)
getbatcpc-Capacity (some names) files = elim (first_hit-cases (supply_capacity files) names) [
  | inl (e, no_hit) ↦
      Capacity.unknown (getbatcpc-hit names files none e) names
        (inr (refl, NoHit-Silent files names no_hit))
  | inr (v, e, f) ↦ rw (getbatcpc-hit names files (some v) e) (
      Capacity.known f.before f.after f.entry (ap some f.splits)
        (NoHit-Silent files f.before f.first) (supply-Reports files f.entry v f.hits))
]

small-FitsInt : (v : ℤ) → negsuc 0 ≤ℤ v → v ≤ℤ pos 100 → FitsInt v
small-FitsInt (pos n) lo hi = omega arith
small-FitsInt (negsuc n) lo hi = omega arith

Capacity-FitsInt :
    (supplies : Option (List (List ℕ))) (files : Files) (v : ℤ)
    → Capacity supplies files v
    → FitsInt v
Capacity-FitsInt supplies files v (Capacity.unknown e names c) =
    small-FitsInt v (ground (arith, e)) (ground (arith, e))
Capacity-FitsInt supplies files v (Capacity.known before after name e silent r) =
    small-FitsInt v (omega (arith, r.low)) r.high

-- A number that is sent is read from the slot that is received.
scan_int-slot :
    (v : ℤ) → FitsInt v → scan_int (some (c_string (written_slot (print_int v)))) ≡ some (v, [])
scan_int-slot v fits =
    let text : c_string (written_slot (print_int v)) ≡ print_int v =
      (written_slot_lem (print_int v)).1
      ∙ (ap (λ t. take 63 (c_string t)) (sym (append-nil (print_int v)))
          ∙ (ap (take 63) (c_string-print_int v [] ∙ append-nil (print_int v))
              ∙ take_all 63 (print_int v) (omega (arith, length-print_int v)))) in
    rw (text, sym (append-nil (print_int v))) (scan_int-print_int v [] fits refl)

getcpc_answer :
    (os : Os)
    → answer os (take 63 (c_string (codes "GETCPC")))
      ≡ some (print_int (getbatcpc os.supplies os.files))
unfolding answer text_eq
getcpc_answer os = refl

-- Where the request GETCPC waits and no answer does, one round answers it: the client that then
-- receives gets a slot whose text is read as the capacity of the first supply, in the order of the
-- directory, that has one from 0 to 100, or as -1 if the directory does not open or no supply has
-- one.
pub getcpc-Capacity :
    (os : Os) (s : Service) {did : List Action}
    → Waiting s (codes "GETCPC" ∷ []) [] did true
    → (slot : List ℕ) × (v : ℤ) × ((receive_from_friend (serve_round os s).response).1 ≡ some slot)
      × (scan_int (some (c_string slot)) ≡ some (v, []))
      × Capacity os.supplies os.files v
unfolding Queue.receive
getcpc-Capacity os s {did} w =
    let v = getbatcpc os.supplies os.files in
    let c = getbatcpc-Capacity os.supplies os.files in
    let after =
      busy_round os s (codes "GETCPC") (print_int v) [] [] did w (omega arith) (getcpc_answer os) in
    let got = (receive-Holds (serve_round os s).response _ after.responses).1 in
    (
      written_slot (print_int v),
      v,
      got,
      scan_int-slot v (Capacity-FitsInt os.supplies os.files v c),
      c,
    )
