-- ===== src/Probe/Input.antt =====
-- What the search for the touch screen opens and keeps.
use autumnos_mobile.Common.{
  ℕ, suc, ◌≡◌, refl, ap, ◌∙◌, inl, inr, Bool, true, false, ◌&&◌, Option, none, some, List, [], ◌∷◌,
  ◌++◌, ◌==◌, arith, if◌then◌else◌, Bool-cases, codes, length, ◌+◌,
}
use autumnos_mobile.Touch.{starts_with}
use autumnos_mobile.Probe.{
  Entry, Call, opened, closed, grabbed, is_pointer, find_pointer, hal_msdevinit,
}

abbrev without : ℕ → List ℕ → List ℕ
without i [] = []
without i (h ∷ held) = if h == i then held else h ∷ without i held

-- What is held after some calls.
abbrev pub holding : List ℕ → List Call → List ℕ
holding held [] = held
holding held (opened i ∷ calls) = holding (i ∷ held) calls
holding held (closed i ∷ calls) = holding (without i held) calls
holding held (grabbed i ∷ calls) = holding held calls

-- The events of a touch screen or a mouse, of a file that opens.
abbrev pub is_suitable : Entry → Bool
is_suitable e = (starts_with (codes "event") e.name && e.opens) && is_pointer e.evbits

abbrev pub NoneSuits : List Entry → Type 0
NoneSuits [] = Unit
NoneSuits (e ∷ entries) = (is_suitable e ≡ false) × NoneSuits entries

abbrev pub kept : Option ℕ → List ℕ → List ℕ
kept none held = held
kept (some i) held = i ∷ held

-- The first suitable entry, by its place from `start` on.
pub data Selects (start : ℕ) (entries : List Entry) : Option ℕ → Type 0 where
  nothing : NoneSuits entries → Selects start entries none
  selects :
      (before after : List Entry) (e : Entry) (i : ℕ)
      → entries ≡ before ++ e ∷ after
      → NoneSuits before
      → is_suitable e ≡ true
      → i ≡ start + length before
      → Selects start entries (some i)

passes :
    (start : ℕ) (e : Entry) (entries : List Entry) (out : Option ℕ)
    → is_suitable e ≡ false
    → Selects (suc start) entries out
    → Selects start (e ∷ entries) out
passes start e entries _ fails (Selects.nothing none_suits) = Selects.nothing (fails, none_suits)
passes start e entries _ fails
      (Selects.selects before after chosen i splits none_before yes_here place) =
    Selects.selects (e ∷ before) after chosen i (ap (λ t. e ∷ t) splits) (fails, none_before)
      yes_here (omega (arith, place))

freed : (i : ℕ) (held : List ℕ) → without i (i ∷ held) ≡ held
freed i held = ground arith

find_pointer-holding :
    (entries : List Entry) (i : ℕ) (held : List ℕ)
    → holding held (find_pointer i entries).1 ≡ kept (find_pointer i entries).0 held
unfolding find_pointer
find_pointer-holding [] i held = refl
find_pointer-holding (e ∷ entries) i held =
    elim (Bool-cases (starts_with (codes "event") e.name && e.opens)) [
      | inr skips ↦ rw skips (find_pointer-holding entries (suc i) held)
      | inl tries ↦ elim (Bool-cases (is_pointer e.evbits)) [
        | inl suits ↦ rw (tries, suits) refl
        | inr other ↦
            rw (tries, other)
              (ap (λ h. holding h (find_pointer (suc i) entries).1) (freed i held)
                ∙ find_pointer-holding entries (suc i) held)
      ]
    ]

find_pointer-Selects : (entries : List Entry) (i : ℕ) → Selects i entries (find_pointer i entries).0
unfolding find_pointer
find_pointer-Selects [] i = Selects.nothing tt
find_pointer-Selects (e ∷ entries) i =
    elim (Bool-cases (starts_with (codes "event") e.name && e.opens)) [
      | inr skips ↦
          let fails : is_suitable e ≡ false = rw skips refl in
          rw skips (
            passes i e entries (find_pointer (suc i) entries).0 fails
              (find_pointer-Selects entries (suc i)))
      | inl tries ↦ elim (Bool-cases (is_pointer e.evbits)) [
        | inl suits ↦
            let yes_here : is_suitable e ≡ true = rw (tries, suits) refl in
            rw (tries, suits) (Selects.selects [] entries e i refl tt yes_here (omega arith))
        | inr other ↦
            let fails : is_suitable e ≡ false = rw (tries, other) refl in
            rw (tries, other)
              (passes i e entries (find_pointer (suc i) entries).0 fails
                (find_pointer-Selects entries (suc i)))
      ]
    ]

abbrev pub or_empty : Option (List Entry) → List Entry
or_empty none = []
or_empty (some entries) = entries

-- The search returns the file of the first entry whose name starts with "event", which opens, and
-- which has absolute or relative movements, and holds that file and no other at its end; it returns
-- nothing, and holds nothing, exactly where there is no such entry.
pub hal_msdevinit-Selects :
    (entries : Option (List Entry))
    → Selects 0 (or_empty entries) (hal_msdevinit entries).0
      × (holding [] (hal_msdevinit entries).1 ≡ kept (hal_msdevinit entries).0 [])
unfolding hal_msdevinit
hal_msdevinit-Selects none = (Selects.nothing tt, refl)
hal_msdevinit-Selects (some entries) =
    (find_pointer-Selects entries 0, find_pointer-holding entries 0 [])
