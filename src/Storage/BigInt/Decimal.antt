-- ===== src/Storage/BigInt/Decimal.antt =====
-- `BigInt` reads what `toString` writes of a natural number.
use identifold.Prelude.{
  ℕ, ◌≡◌, refl, true, false, some, [], ◌∷◌, arith, all, &&-eq-true, Text, is_digit,
}
use identifold.Reference.Decimal.{to_decimal, pos}
use identifold.Reference.Decimal.Laws.{decimal_value, to_decimal_lem}
use identifold.Reference.Parse.{is_all_digits}
use identifold.Storage.BigInt.{
  is_white_space, trim_start, trim_end, integer_literal, big_int_of_text,
}

digit-not_white : (c : ℕ) → is_digit c ≡ true → is_white_space c ≡ false
unfolding is_white_space
digit-not_white c h = ground arith

trim_start-digits : (s : Text) → all is_digit s ≡ true → trim_start s ≡ s
unfolding trim_start
trim_start-digits [] h = refl
trim_start-digits (c ∷ rest) h =
    let (first, others) = &&-eq-true (is_digit c) _ h in rw (digit-not_white c first) refl

trim_end-digits : (s : Text) → all is_digit s ≡ true → trim_end s ≡ s
unfolding trim_end
trim_end-digits [] h = refl
trim_end-digits (c ∷ []) h =
    let (first, others) = &&-eq-true (is_digit c) _ h in rw (digit-not_white c first) refl
trim_end-digits (c ∷ d ∷ rest) h =
    let (first, others) = &&-eq-true (is_digit c) _ h in rw (trim_end-digits (d ∷ rest) others) refl

integer_literal-digits :
    (s : Text) → all is_digit s ≡ true → integer_literal s ≡ some (pos (decimal_value s))
unfolding integer_literal is_all_digits
integer_literal-digits [] h = refl
integer_literal-digits (c ∷ rest) h = rw h refl

pub big_int_of_text-to_decimal : (n : ℕ) → big_int_of_text (to_decimal n) ≡ some (pos n)
unfolding big_int_of_text
big_int_of_text-to_decimal n =
    let (value, digits) = to_decimal_lem n in
    rw
      (trim_start-digits _ digits, trim_end-digits _ digits, integer_literal-digits _ digits, value)
      refl
