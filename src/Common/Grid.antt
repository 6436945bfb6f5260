-- ===== src/Common/Grid.antt =====
-- The cells of a grid whose rows have `w` cells, in one list.
use Prim.Native.Nat.{ℕ, ◌+◌, ◌*◌, ◌≤◌, ◌<◌}
use mathlib.Core.Path.{◌≡◌}
use native.Mathlib.Omega.{arith}
use native.Mathlib.Decide.{dec_lt}

pub rows_apart : (w a c : ℕ) → a < c → a * w + w ≤ c * w
rows_apart w a c h = grind arith

-- A cell that lies in a run of cells of row `a` is in that row.
pub same_row :
    (w a b c e n : ℕ)
    → b + n ≤ w
    → e < w
    → a * w + b ≤ c * w + e
    → c * w + e < a * w + b + n
    → a ≡ c
same_row w a b c e n fits inside lo hi = elim (dec_lt a c) [
  | yes before ↦ absurd (omega (arith, rows_apart w a c before))
  | no not_before ↦ elim (dec_lt c a) [
    | yes after ↦ absurd (omega (arith, rows_apart w c a after))
    | no not_after ↦ omega arith
  ]
]

-- A cell of the grid lies in its list.
pub cell_in : (w h x y : ℕ) → x < w → y < h → y * w + x < w * h
cell_in w h x y hx hy = omega (arith, rows_apart w y h hy)
