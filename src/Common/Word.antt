-- ===== src/Common/Word.antt =====
-- Machine words as native numbers: a w-bit value is below 2 ^ w, and wrap-around is `%`.
use Prim.Native.Nat.{ℕ, zero, suc, ◌+◌, ◌-◌, ◌*◌, ◌/◌, ◌%◌, ◌^◌, ◌≤◌, ◌<◌, max}
use Prim.Native.Nat.{bit_or, digits, bit_or-bitwise}
use mathlib.Core.Path.{◌≡◌, refl, ap, ◌∙◌}
use native.Mathlib.Nat.{pow-suc}
use native.Mathlib.Omega.{arith}

abbrev pub u8 : ℕ → ℕ
u8 x = x % 2 ^ 8

abbrev pub u32 : ℕ → ℕ
u32 x = x % 2 ^ 32

abbrev pub u64 : ℕ → ℕ
u64 x = x % 2 ^ 64

-- `x << k` before it is cut to a width, and `x >> k`.
abbrev pub shl : ℕ → ℕ → ℕ
shl x k = x * 2 ^ k

abbrev pub shr : ℕ → ℕ → ℕ
shr x k = x / 2 ^ k

-- `x & (2^k - 1)`.
abbrev pub low_bits : ℕ → ℕ → ℕ
low_bits x k = x % 2 ^ k

-- The native `bit_or` as a fold over `rounds` binary digits, the lowest first.
abbrev or_digits : ℕ → ℕ → ℕ → ℕ
or_digits rounds = digits (λ d. d) max rounds

-- Rounds beyond the number's own size add nothing.
round_beyond : (rounds x y : ℕ) → x ≤ rounds → or_digits (suc rounds) x y ≡ or_digits rounds x y
round_beyond rounds zero y fits = zero_case rounds
  where
    zero_case : (r : ℕ) → or_digits (suc r) 0 y ≡ or_digits r 0 y
    zero_case zero = refl
    zero_case (suc r) = refl
round_beyond zero (suc x) y fits = absurd (omega arith)
round_beyond (suc rounds) (suc x) y fits =
    let rest = round_beyond rounds (suc x / 2) (y / 2) (omega arith) in
    ap (λ high. high * 2 + max (suc x % 2) (y % 2)) rest

rounds_beyond : (extra x y : ℕ) → or_digits (extra + x) x y ≡ or_digits x x y
rounds_beyond zero x y = let same : 0 + x ≡ x = omega arith in ap (λ r. or_digits r x y) same
rounds_beyond (suc extra) x y =
    let same : suc extra + x ≡ suc (extra + x) = omega arith in
    ap (λ r. or_digits r x y) same
    ∙ (round_beyond (extra + x) x y (omega arith) ∙ rounds_beyond extra x y)

-- `|` on the lowest digit and on the rest.
bit_or_digit : (x y : ℕ) → bit_or x y ≡ bit_or (x / 2) (y / 2) * 2 + max (x % 2) (y % 2)
bit_or_digit zero y = omega (arith, bit_or-bitwise 0 (y / 2), bit_or-bitwise 0 y)
bit_or_digit (suc x) y =
    let half = suc x / 2 in
    let same : x - half + half ≡ x = omega arith in
    let rest = ap (λ r. or_digits r half (y / 2)) same in
    omega (
      arith,
      rest,
      rounds_beyond (x - half) half (y / 2),
      bit_or-bitwise half (y / 2),
      bit_or-bitwise (suc x) y,
    )

bit_or-zero : (bound x : ℕ) → x ≤ bound → bit_or x 0 ≡ x
bit_or-zero bound zero fits = refl
bit_or-zero zero (suc x) fits = absurd (omega arith)
bit_or-zero (suc bound) (suc x) fits =
    let half = bit_or-zero bound (suc x / 2) (omega arith) in
    omega (arith, half, bit_or_digit (suc x) 0)

-- `(high << k) | low` is a sum where `low` lies below the shifted bits.
pub bit_or-shl : (k high low : ℕ) → low < 2 ^ k → bit_or (shl high k) low ≡ shl high k + low
bit_or-shl zero high low h =
    let none_low : low ≡ 0 = omega arith in
    ap (λ t. bit_or (high * 1) t) none_low
    ∙ (bit_or-zero (high * 1) (high * 1) (omega arith) ∙ omega arith)
bit_or-shl (suc k) high low h =
    let power : high * 2 ^ suc k ≡ 2 * (high * 2 ^ k) =
      omega (arith, ap (λ (t : ℕ). high * t) (pow-suc 2 k)) in
    let shifted : high * 2 ^ suc k / 2 ≡ high * 2 ^ k = omega (arith, power) in
    let rest = bit_or-shl k high (low / 2) (omega (arith, pow-suc 2 k)) in
    bit_or_digit (high * 2 ^ suc k) low
    ∙ (ap (λ t. bit_or t (low / 2) * 2 + max (high * 2 ^ suc k % 2) (low % 2)) shifted
        ∙ omega (arith, rest, power))
