-- ===== src/Surf/Slots.antt =====
-- The table of layers: free slots, counting, and the descriptors that it holds.
use autumnos_mobile.Common.{
  ℕ, zero, suc, ◌+◌, ◌≤◌, ◌<◌, ◌≡◌, refl, ap, ◌∙◌, true, false, none, some, List, [], ◌∷◌, ◌==◌,
  if◌then◌else◌, arith, length, get_or, set, inl, inr, Bool-cases, pos,
}
use autumnos_mobile.Surf.Types.{Layer}
use autumnos_mobile.Surf.Draw.{no_layer}
use autumnos_mobile.Surf.{init_layers, first_free, close, count_active}

abbrev pub count : ℕ → List ℕ → ℕ
count k [] = 0
count k (x ∷ xs) = (if x == k then 1 else 0) + count k xs

-- How often a slot holds the descriptor `k`.
abbrev pub holds : ℕ → Layer → ℕ
holds k l = elim l.memfd [ none ↦ 0 | some fd ↦ if fd == k then 1 else 0 ]

-- How often the table holds it.
abbrev pub held : ℕ → List Layer → ℕ
held k [] = 0
held k (l ∷ ls) = holds k l + held k ls

abbrev pub is_active : Layer → ℕ
is_active l = if l.active then 1 else 0

pub held-set :
    (k : ℕ) (ls : List Layer) (i : ℕ) (l : Layer)
    → i < length ls
    → held k (set ls i l) + holds k (get_or ls i no_layer) ≡ held k ls + holds k l
held-set k [] i l h = absurd (omega arith)
held-set k (x ∷ ls) zero l h = omega arith
held-set k (x ∷ ls) (suc i) l h = omega (arith, held-set k ls i l (omega arith))

pub count_active-set :
    (ls : List Layer) (i : ℕ) (l : Layer)
    → i < length ls
    → count_active (set ls i l) + is_active (get_or ls i no_layer) ≡ count_active ls + is_active l
unfolding count_active
count_active-set [] i l h = absurd (omega arith)
count_active-set (x ∷ ls) zero l h = omega arith
count_active-set (x ∷ ls) (suc i) l h = omega (arith, count_active-set ls i l (omega arith))

pub count_active-le : (ls : List Layer) → count_active ls ≤ length ls
unfolding count_active
count_active-le [] = omega arith
count_active-le (l ∷ ls) = ground (arith, count_active-le ls)

-- Slot `d` is the first of the table that is not active.
pub record IsFirstFree (ls : List Layer) (d : ℕ) : Type 0 where
  pub in_table : d < length ls
  pub free : (get_or ls d no_layer).active ≡ false
  pub before : (j : ℕ) → j < d → (get_or ls j no_layer).active ≡ true

pub first_free-some :
    (ls : List Layer) (from i : ℕ)
    → first_free ls from ≡ some i
    → (d : ℕ) × (i ≡ from + d) × IsFirstFree ls d
unfolding first_free
first_free-some [] from i e = absurd (cc)
first_free-some (l ∷ ls) from i e = elim (Bool-cases l.active) [
  | inl on ↦
      let (d, at, first) = first_free-some ls (from + 1) i (rw on at e) in
      (
        suc d,
        omega arith,
        record {
          in_table = omega (arith, first.in_table);
          free = first.free;
          before = later d first on;
        },
      )
  | inr off ↦ (
    0,
    ground (arith, off, e),
    record { in_table = omega arith; free = off; before = λ j h. absurd (omega arith) },
  )
]
  where
    later :
        (d : ℕ)
        → IsFirstFree ls d
        → l.active ≡ true
        → (j : ℕ) → j < suc d
        → (get_or (l ∷ ls) j no_layer).active ≡ true
    later d first on zero h = on
    later d first on (suc j) h = first.before j (omega arith)

-- The search finds none exactly in a full table.
pub first_free-none :
    (ls : List Layer) (from : ℕ) → first_free ls from ≡ none → count_active ls ≡ length ls
unfolding first_free count_active
first_free-none [] from e = refl
first_free-none (l ∷ ls) from e = elim (Bool-cases l.active) [
  | inl on ↦ ground (arith, on, first_free-none ls (from + 1))
  | inr off ↦ ground (arith, off)
]

pub count-close :
    (k fd : ℕ) (fds : List ℕ)
    → 0 < count fd fds
    → count k (close fd fds) + (if fd == k then 1 else 0) ≡ count k fds
unfolding close
count-close k fd [] h = absurd (omega arith)
count-close k fd (x ∷ fds) h = ground (arith, count-close k fd fds)

-- A fresh table is not active anywhere and holds nothing.
pub init_layers_lem :
    (n i : ℕ)
    → (length (init_layers n i) ≡ n)
      × (count_active (init_layers n i) ≡ 0)
      × ((k : ℕ) → held k (init_layers n i) ≡ 0)
unfolding init_layers count_active
init_layers_lem zero i = (refl, refl, λ k. refl)
init_layers_lem (suc n) i =
    let rest = init_layers_lem n (i + 1) in
    (omega (arith, rest.0), omega (arith, rest.1), λ k. omega (arith, rest.2 k))

pub get-init_layers :
    (n i j : ℕ) → j < n → get_or (init_layers n i) j no_layer ≡ record no_layer { id = pos (i + j) }
unfolding init_layers
get-init_layers zero i j h = absurd (omega arith)
get-init_layers (suc n) i zero h =
    let same : i ≡ i + 0 = omega arith in ap (λ k. record no_layer { id = pos k }) same
get-init_layers (suc n) i (suc j) h =
    let same : i + 1 + j ≡ i + suc j = omega arith in
    get-init_layers n (i + 1) j (omega arith) ∙ ap (λ k. record no_layer { id = pos k }) same
