-- ===== src/Fb/Line/Steps.antt =====
-- The steps of `AutumnAPI_DrawLine` along one axis, and its two tests.
use autumnos_mobile.Common.{
  ℕ, suc, ◌+◌, ◌*◌, ◌≡◌, refl, ap, ◌⊎◌, inl, inr, Bool, true, ◌&&◌, ◌||◌, arith, ◌==◌, leb,
  Bool-cases, ℤ, pos, negsuc, pos_part, neg_part, ◌+ℤ◌, ◌-ℤ◌, ◌*ℤ◌, ltb_ℤ, leb_ℤ, eqb_ℤ, one_part,
  +ℤ_parts, -ℤ_parts,
}
use autumnos_mobile.Fb.{distance, direction}

-- `p` lies between the ends, or at one.
abbrev pub between : ℤ → ℕ → ℤ → Bool
between a p b = (leb_ℤ a (pos p) && leb_ℤ (pos p) b) || (leb_ℤ b (pos p) && leb_ℤ (pos p) a)

-- `n` steps of `s`, which is 1 or -1, go from `x` to `x1`.
abbrev pub Ahead : ℤ → ℤ → ℤ → ℕ → Type 0
Ahead s x x1 n =
    ((s ≡ pos 1) × (pos_part x1 + neg_part x ≡ neg_part x1 + pos_part x + n))
    ⊎ ((s ≡ negsuc 0) × (pos_part x1 + neg_part x + n ≡ neg_part x1 + pos_part x))

pub forward : (s x x1 : ℤ) (n : ℕ) → Ahead s x x1 (suc n) → Ahead s (x +ℤ s) x1 n
forward s x x1 n (inl (up, e)) = rw up (inl (refl, omega (arith, e, +ℤ_parts x (pos 1))))
forward s x x1 n (inr (back, e)) = rw back (inr (refl, omega (arith, e, +ℤ_parts x (negsuc 0))))

pub arrived : (s x x1 : ℤ) (n : ℕ) → Ahead s x x1 n → eqb_ℤ x x1 ≡ (n == 0)
arrived s x x1 n (inl (up, e)) = ground (arith, e)
arrived s x x1 n (inr (back, e)) = ground (arith, e)

pub at_start : (x x1 : ℤ) → Ahead (direction x x1) x x1 (distance x x1)
at_start x x1 = elim (Bool-cases (ltb_ℤ x x1)) [
  | inl less ↦ rw less (inl (refl, ground (arith, less, -ℤ_parts x1 x, one_part (x1 -ℤ x))))
  | inr more ↦ rw more (inr (refl, ground (arith, more, -ℤ_parts x1 x, one_part (x1 -ℤ x))))
]

pub wider :
    (s x x1 : ℤ) (n p : ℕ)
    → Ahead s x x1 (suc n)
    → between (x +ℤ s) p x1 ≡ true
    → between x p x1 ≡ true
wider s x x1 n p (inl (up, e)) b =
    ground (arith, e, b, ap pos_part up, ap neg_part up, +ℤ_parts x s)
wider s x x1 n p (inr (back, e)) b =
    ground (arith, e, b, ap pos_part back, ap neg_part back, +ℤ_parts x s)

pub times_suc : (d n : ℕ) → d * suc n ≡ d * n + d
times_suc d n = grind arith

pub start_balance :
    (dx dy : ℕ)
    → pos_part (pos dx -ℤ pos dy) + dx * dy + dy ≡ neg_part (pos dx -ℤ pos dy) + dy * dx + dx
start_balance dx dy = omega (arith, -ℤ_parts (pos dx) (pos dy), commuted dx dy)
  where
    commuted : (a b : ℕ) → a * b ≡ b * a
    commuted a b = grind arith

-- The two tests of a round, on the parts of `err`.
pub across_lem :
    (dy : ℕ) (err : ℤ)
    → leb_ℤ (pos 0 -ℤ pos dy) (pos 2 *ℤ err) ≡ leb (2 * neg_part err) (2 * pos_part err + dy)
unfolding ◌-ℤ◌ ◌*ℤ◌
across_lem dy err = ground arith

pub down_lem :
    (dx : ℕ) (err : ℤ)
    → leb_ℤ (pos 2 *ℤ err) (pos dx) ≡ leb (2 * pos_part err) (dx + 2 * neg_part err)
unfolding ◌*ℤ◌
down_lem dx err = ground arith
