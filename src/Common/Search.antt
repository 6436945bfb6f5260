-- ===== src/Common/Search.antt =====
-- Searches through a list, and text literals as bytes.
use Prim.Native.Char.{code}
use Prim.Native.String.{String}
use Prim.Native.Nat.{ℕ}
use mathlib.Core.Path.{◌≡◌, refl, ap}
use mathlib.Core.Logic.{◌⊎◌, inl, inr}
use mathlib.Core.Option.{Option, none, some}
use mathlib.Core.List.{List, [], ◌∷◌, ◌++◌}
use autumnos_mobile.Common.Tests.{Option-cases}

-- The bytes of an ASCII text.
abbrev pub codes : String → List ℕ
codes String.[] = []
codes (String.◌∷◌ c s) = code c ∷ codes s

module _ {ℓ κ} {A : Type ℓ} {B : Type κ} where
  -- The first hit: `while ((entry = readdir(dir)) != NULL) if (hit) { ...; break; }`.
  abbrev pub first_hit : (A → Option B) → List A → Option B
  first_hit test [] = none
  first_hit test (x ∷ xs) = elim (test x) [ some b ↦ some b | none ↦ first_hit test xs ]

  -- No entry is a hit.
  abbrev pub NoHit : (A → Option B) → List A → Type κ
  NoHit test [] = Unit
  NoHit test (x ∷ xs) = (test x ≡ none) × NoHit test xs

  -- `b` is the hit of an entry before which none is a hit.
  pub record FirstHit (test : A → Option B) (xs : List A) (b : B) : Type (ℓ ⊔ κ) where
    pub before : List A
    pub entry : A
    pub after : List A
    pub splits : xs ≡ before ++ entry ∷ after
    pub hits : test entry ≡ some b
    pub first : NoHit test before

  pub first_hit-cases :
      (test : A → Option B) (xs : List A)
      → ((first_hit test xs ≡ none) × NoHit test xs)
        ⊎ ((b : B) × (first_hit test xs ≡ some b) × FirstHit test xs b)
  first_hit-cases test [] = inl (refl, tt)
  first_hit-cases test (x ∷ xs) = elim (Option-cases (test x)) [
    | inr (b, e) ↦ inr (
      b,
      rw (first_hit, e) refl,
      record { before = []; entry = x; after = xs; splits = refl; hits = e; first = tt },
    )
    | inl e ↦ elim (first_hit-cases test xs) [
      | inl (rest, no_hit) ↦ inl (rw (first_hit, e) rest, (e, no_hit))
      | inr (b, rest, f) ↦ inr (
        b,
        rw (first_hit, e) rest,
        record {
          before = x ∷ f.before;
          entry = f.entry;
          after = f.after;
          splits = ap (λ t. x ∷ t) f.splits;
          hits = f.hits;
          first = (e, f.first);
        },
      )
    ]
  ]
