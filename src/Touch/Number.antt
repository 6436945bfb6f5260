-- ===== src/Touch/Number.antt =====
-- A number that is printed is read back.
use autumnos_mobile.Common.{
  ℕ, zero, suc, ◌+◌, ◌-◌, ◌*◌, ◌/◌, ◌%◌, ◌≤◌, ◌<◌, ◌≡◌, refl, ap, ◌∙◌, Bool, true, false, not, some,
  List, [], ◌∷◌, ◌++◌, ◌==◌, arith, ltb, length, ℤ, pos, negsuc, c_string, append_assoc,
  length-append, Bool-cases, inl, inr,
}
use autumnos_mobile.Touch.{
  digits, print_int, is_space, is_digit, parse_digits, scan_unsigned, scan_int, negated, positive,
}

abbrev pub pow10 : ℕ → ℕ
pow10 zero = 1
pow10 (suc fuel) = 10 * pow10 fuel

-- The text behind a number goes on with no digit.
abbrev pub ends_number : List ℕ → Bool
ends_number [] = true
ends_number (c ∷ s) = not (is_digit c)

digit_char : (d : ℕ) → d < 10 → is_digit (b'0' + d) ≡ true
digit_char d h = ground (arith, h)

-- One more digit.
next_digit :
    (acc d : ℕ) (rest : List ℕ)
    → d < 10
    → parse_digits acc ((b'0' + d) ∷ rest) ≡ parse_digits (acc * 10 + d) rest
next_digit acc d rest h = rw (digit_char d h, value) refl
  where
    value : acc * 10 + ((b'0' + d) - b'0') ≡ acc * 10 + d
    value = omega arith

parse_digits-digits :
    (fuel n : ℕ) (rest : List ℕ)
    → n < pow10 fuel
    → parse_digits 0 (digits fuel n ++ rest) ≡ parse_digits n rest
parse_digits-digits zero n rest h =
    let none_left : 0 ≡ n = omega (arith, h) in ap (λ k. parse_digits k rest) none_left
parse_digits-digits (suc fuel) n rest h = elim (Bool-cases (ltb n 10)) [
  | inl small ↦
      rw small
        (next_digit 0 n rest (ground (arith, small)) ∙ ap (λ k. parse_digits k rest) zero_front)
  | inr big ↦
      rw (big, append_assoc (digits fuel (n / 10)) ((b'0' + n % 10) ∷ []) rest)
        (parse_digits-digits fuel (n / 10) ((b'0' + n % 10) ∷ rest) (omega (arith, h))
          ∙ next_digit (n / 10) (n % 10) rest (omega arith)
          ∙ ap (λ k. parse_digits k rest) whole)
]
  where
    zero_front : 0 * 10 + n ≡ n
    zero_front = omega arith

    whole : n / 10 * 10 + n % 10 ≡ n
    whole = omega arith

-- A number begins with a digit.
data Digits (s : List ℕ) : Type 0 where
  starts : (d : ℕ) (t : List ℕ) → d < 10 → s ≡ (b'0' + d) ∷ t → Digits s

digits-Digits :
    (fuel n : ℕ) (rest : List ℕ) → n < pow10 (suc fuel) → Digits (digits (suc fuel) n ++ rest)
digits-Digits zero n rest h =
    let small : ltb n 10 ≡ true = ground (arith, h) in
    rw small (Digits.starts n rest (omega (arith, h)) refl)
digits-Digits (suc fuel) n rest h = elim (Bool-cases (ltb n 10)) [
  | inl small ↦ rw small (Digits.starts n rest (ground (arith, small)) refl)
  | inr big ↦
      rw (big, append_assoc (digits (suc fuel) (n / 10)) ((b'0' + n % 10) ∷ []) rest)
        (digits-Digits fuel (n / 10) ((b'0' + n % 10) ∷ rest) (omega (arith, h)))
]

parse_digits-stops :
    (n : ℕ) (rest : List ℕ) → ends_number rest ≡ true → parse_digits n rest ≡ (n, rest)
parse_digits-stops n [] h = refl
parse_digits-stops n (c ∷ rest) h = rw (other c h) refl
  where
    other : (k : ℕ) → not (is_digit k) ≡ true → is_digit k ≡ false
    other k t = ground (arith, t)

scan_unsigned-Digits : (s : List ℕ) → Digits s → scan_unsigned s ≡ some (parse_digits 0 s)
scan_unsigned-Digits s (Digits.starts d t h e) = rw (e, digit_char d h) refl

scan_int-Digits : (s : List ℕ) → Digits s → scan_int (some s) ≡ positive (scan_unsigned s)
scan_int-Digits s (Digits.starts d t h e) = rw (e, no_space, no_minus, no_plus) refl
  where
    no_space : is_space (b'0' + d) ≡ false
    no_space = ground (arith, h)

    no_minus : (b'0' + d == b'-') ≡ false
    no_minus = ground arith

    no_plus : (b'0' + d == b'+') ≡ false
    no_plus = ground arith

scan_unsigned-digits :
    (n : ℕ) (rest : List ℕ)
    → n < pow10 10
    → ends_number rest ≡ true
    → scan_unsigned (digits 10 n ++ rest) ≡ some (n, rest)
scan_unsigned-digits n rest h ends =
    scan_unsigned-Digits (digits 10 n ++ rest) (digits-Digits 9 n rest h)
    ∙ ap some (parse_digits-digits 10 n rest h ∙ parse_digits-stops n rest ends)

-- The values of an `int`, and some more.
abbrev pub FitsInt : ℤ → Type 0
FitsInt (pos n) = n < pow10 10
FitsInt (negsuc n) = suc n < pow10 10

pub scan_int-print_int :
    (v : ℤ) (rest : List ℕ)
    → FitsInt v
    → ends_number rest ≡ true
    → scan_int (some (print_int v ++ rest)) ≡ some (v, rest)
scan_int-print_int (pos n) rest h ends =
    scan_int-Digits (digits 10 n ++ rest) (digits-Digits 9 n rest h)
    ∙ ap positive (scan_unsigned-digits n rest h ends)
scan_int-print_int (negsuc n) rest h ends = ap negated (scan_unsigned-digits (suc n) rest h ends)

c_string-char : (d : ℕ) (rest : List ℕ) → c_string ((b'0' + d) ∷ rest) ≡ (b'0' + d) ∷ c_string rest
c_string-char d rest = let printed : b'0' + d ≡ suc (47 + d) = omega arith in rw printed refl

-- A printed number has no NUL and at most eleven bytes.
c_string-digits :
    (fuel n : ℕ) (rest : List ℕ) → c_string (digits fuel n ++ rest) ≡ digits fuel n ++ c_string rest
c_string-digits zero n rest = refl
c_string-digits (suc fuel) n rest = elim (Bool-cases (ltb n 10)) [
  | inl small ↦ rw small (c_string-char n rest)
  | inr big ↦
      rw
        (
          big,
          append_assoc (digits fuel (n / 10)) ((b'0' + n % 10) ∷ []) rest,
          append_assoc (digits fuel (n / 10)) ((b'0' + n % 10) ∷ []) (c_string rest),
        )
        (c_string-digits fuel (n / 10) ((b'0' + n % 10) ∷ rest)
          ∙ ap (λ t. digits fuel (n / 10) ++ t) (c_string-char (n % 10) rest))
]

length-digits : (fuel n : ℕ) → length (digits fuel n) ≤ fuel
length-digits zero n = omega arith
length-digits (suc fuel) n = elim (Bool-cases (ltb n 10)) [
  | inl small ↦ rw small (omega arith)
  | inr big ↦ rw big (
      omega (
        arith,
        length-digits fuel (n / 10),
        length-append (digits fuel (n / 10)) ((b'0' + n % 10) ∷ []),
      ))
]

pub c_string-print_int :
    (v : ℤ) (rest : List ℕ) → c_string (print_int v ++ rest) ≡ print_int v ++ c_string rest
c_string-print_int (pos n) rest = c_string-digits 10 n rest
c_string-print_int (negsuc n) rest = ap (λ t. b'-' ∷ t) (c_string-digits 10 (suc n) rest)

pub length-print_int : (v : ℤ) → length (print_int v) ≤ 11
length-print_int (pos n) = omega (arith, length-digits 10 n)
length-print_int (negsuc n) = omega (arith, length-digits 10 (suc n))
