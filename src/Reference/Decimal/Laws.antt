-- ===== src/Reference/Decimal/Laws.antt =====
-- Decimal digits: what `bigint.toString()` and `padStart` return is read back as the number, and
-- its length tells the number's size.
use identifold.Prelude.{
  ℕ, zero, suc, ◌+◌, ◌-◌, ◌/◌, ◌%◌, ◌^◌, ◌≤◌, ◌<◌, ◌≡◌, ◌↔◌, refl, true, [], ◌∷◌, ◌++◌, arith,
  length, length-append, length-replicate, replicate, all, all-append, Text, is_digit, ◌==◌,
  Bool-cases, inl, inr, ==_iff,
}
use native.Mathlib.Nat.{pow-suc}
use identifold.Reference.CheckSymbol.Value.{digit_value}
use identifold.Reference.CheckSymbol.Positional.{positional}
use identifold.Reference.Decimal.{decimal_digits, to_decimal, pad_start}

-- The number that decimal digits stand for.
abbrev pub decimal_value : Text → ℕ
decimal_value s = positional 10 digit_value s 0

value-decimal_digits :
    (fuel n : ℕ) (out : Text)
    → n < fuel
    → decimal_value (decimal_digits fuel n out) ≡ positional 10 digit_value out n
unfolding decimal_digits
value-decimal_digits zero n out h = absurd (omega arith)
value-decimal_digits (suc fuel) n out h =
    ground (arith, value-decimal_digits fuel (n / 10) ((b'0' + n % 10) ∷ out))

digits-decimal_digits :
    (fuel n : ℕ) (out : Text)
    → all is_digit out ≡ true
    → all is_digit (decimal_digits fuel n out) ≡ true
unfolding decimal_digits
digits-decimal_digits zero n out h = h
digits-decimal_digits (suc fuel) n out h =
    ground (arith, digits-decimal_digits fuel (n / 10) ((b'0' + n % 10) ∷ out))

length-decimal_digits_ge :
    (fuel n : ℕ) (out : Text) → n < fuel → length out + 1 ≤ length (decimal_digits fuel n out)
unfolding decimal_digits
length-decimal_digits_ge zero n out h = absurd (omega arith)
length-decimal_digits_ge (suc fuel) n out h =
    ground (arith, length-decimal_digits_ge fuel (n / 10) ((b'0' + n % 10) ∷ out))

pub pow-pos : (w : ℕ) → 1 ≤ 10 ^ w
pow-pos zero = omega arith
pow-pos (suc w) = omega (arith, pow-suc 10 w, pow-pos w)

-- A number has at most `w + 1` digits exactly if it is below 10 ^ (w + 1).
length-decimal_digits :
    (fuel n w : ℕ) (out : Text)
    → n < fuel
    → (length (decimal_digits fuel n out) ≤ length out + suc w) ↔ (n < 10 ^ suc w)
unfolding decimal_digits
length-decimal_digits zero n w out h = absurd (omega arith)
length-decimal_digits (suc fuel) n zero out h =
    ground (arith, pow-suc 10 0, length-decimal_digits_ge fuel (n / 10) ((b'0' + n % 10) ∷ out))
length-decimal_digits (suc fuel) n (suc w) out h = elim (Bool-cases (n / 10 == 0)) [
  | inl small ↦ rw small (
    λ _. omega (arith, (==_iff _ _).0 small, pow-suc 10 (suc w), pow-pos (suc w)),
    λ _. omega arith,
  )
  | inr large ↦
      let (to, from) =
        length-decimal_digits fuel (n / 10) w ((b'0' + n % 10) ∷ out) (ground arith) in
      rw large (
        λ k. omega (arith, to (omega arith), pow-suc 10 (suc w)),
        λ k. omega (arith, from (omega (arith, pow-suc 10 (suc w)))),
      )
]

-- `toString` writes decimal digits that are read back as the number.
pub to_decimal_lem :
    (n : ℕ) → (decimal_value (to_decimal n) ≡ n) × (all is_digit (to_decimal n) ≡ true)
unfolding to_decimal
to_decimal_lem n =
    (value-decimal_digits (suc n) n [] (omega arith), digits-decimal_digits (suc n) n [] refl)

pub length-to_decimal : (n w : ℕ) → (length (to_decimal n) ≤ suc w) ↔ (n < 10 ^ suc w)
unfolding to_decimal
length-to_decimal n w =
    let (to, from) = length-decimal_digits (suc n) n w [] (omega arith) in
    (λ h. to (omega arith), λ h. omega (arith, from h))

value-zeros : (k : ℕ) (s : Text) → decimal_value (replicate k b'0' ++ s) ≡ decimal_value s
value-zeros zero s = refl
value-zeros (suc k) s = value-zeros k s

digits-zeros : (k : ℕ) → all is_digit (replicate k b'0') ≡ true
digits-zeros zero = refl
digits-zeros (suc k) = digits-zeros k

-- Padding changes the length and not the value.
pub pad_start_lem :
    (width : ℕ) (s : Text)
    → length s ≤ width
    → all is_digit s ≡ true
    → (length (pad_start width s) ≡ width)
      × (decimal_value (pad_start width s) ≡ decimal_value s)
      × (all is_digit (pad_start width s) ≡ true)
unfolding pad_start
pad_start_lem width s h k = (
  omega (
    arith,
    length-append (replicate (width - length s) b'0') s,
    length-replicate {A = ℕ} (width - length s) b'0',
  ),
  value-zeros (width - length s) s,
  rw (all-append is_digit, digits-zeros) k,
)
