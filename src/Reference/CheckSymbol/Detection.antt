-- ===== src/Reference/CheckSymbol/Detection.antt =====
-- Which transcription errors the check symbols of reference.ts reveal.
use identifold.Prelude.{
  ℕ, ◌+◌, ◌*◌, ◌%◌, ◌<◌, ◌≡◌, ◌≢◌, Bool, true, [], ◌∷◌, ◌++◌, arith, all, &&-eq-true, Text,
  is_digit,
}
use identifold.Reference.CheckSymbol.{
  calculate_reference_check_symbol, calculate_sequential_check_symbol,
}
use identifold.Reference.CheckSymbol.Positional.{positional_middle, cong32, step32, cong10, step10}
use identifold.Reference.CheckSymbol.Value.{
  is_data_symbol, symbol_value, digit_value, symbol_value-lt, symbol_value_injective, ne_nil,
  same_value, same_digits,
}

all_middle : (q : ℕ → Bool) (p s : Text) (c : ℕ) → all q (p ++ c ∷ s) ≡ true → q c ≡ true
all_middle q [] s c h = ground arith
all_middle q (d ∷ p) s c h = all_middle q p s c (&&-eq-true (q d) _ h).1

all_drop_second :
    (q : ℕ → Bool) (p s : Text) (a b : ℕ)
    → all q (p ++ a ∷ b ∷ s) ≡ true
    → all q (p ++ a ∷ s) ≡ true
all_drop_second q [] s a b h = ground arith
all_drop_second q (d ∷ p) s a b h = ground (arith, all_drop_second q p s a b)

differ32 : (m a b : ℕ) → a < 32 → b < 32 → (m * 32 + a) % 37 ≡ (m * 32 + b) % 37 → a ≡ b
differ32 m a b ha hb h = omega arith

swap32 :
    (m a b : ℕ)
    → a < 32
    → b < 32
    → ((m * 32 + a) * 32 + b) % 37 ≡ ((m * 32 + b) * 32 + a) % 37
    → a ≡ b
swap32 m a b ha hb h = omega arith

digit_value_injective :
    (m a b : ℕ)
    → is_digit a ≡ true
    → is_digit b ≡ true
    → (m * 10 + digit_value a) % 37 ≡ (m * 10 + digit_value b) % 37
    → a ≡ b
digit_value_injective m a b ha hb h = ground arith

digit_swap :
    (m a b : ℕ)
    → is_digit a ≡ true
    → is_digit b ≡ true
    → ((m * 10 + digit_value a) * 10 + digit_value b) % 37
      ≡ ((m * 10 + digit_value b) * 10 + digit_value a) % 37
    → a ≡ b
digit_swap m a b ha hb h = ground arith

reference_substitution :
    (p s : Text) (a b : ℕ)
    → all is_data_symbol (p ++ a ∷ s) ≡ true
    → all is_data_symbol (p ++ b ∷ s) ≡ true
    → a ≢ b
    → calculate_reference_check_symbol (p ++ a ∷ s) ≢ calculate_reference_check_symbol (p ++ b ∷ s)
reference_substitution p s a b ha hb d e =
    let same = same_value _ _ (ne_nil p s a) (ne_nil p s b) ha hb e in
    let middle = positional_middle 32 symbol_value cong32 step32 p (a ∷ []) (b ∷ []) s 0 same in
    d (
      symbol_value_injective a b (all_middle is_data_symbol p s a ha)
        (all_middle is_data_symbol p s b hb)
        (differ32 _ _ _ (symbol_value-lt a) (symbol_value-lt b) middle))

reference_transposition :
    (p s : Text) (a b : ℕ)
    → all is_data_symbol (p ++ a ∷ b ∷ s) ≡ true
    → all is_data_symbol (p ++ b ∷ a ∷ s) ≡ true
    → a ≢ b
    → calculate_reference_check_symbol (p ++ a ∷ b ∷ s)
      ≢ calculate_reference_check_symbol (p ++ b ∷ a ∷ s)
reference_transposition p s a b ha hb d e =
    let same = same_value _ _ (ne_nil p (b ∷ s) a) (ne_nil p (a ∷ s) b) ha hb e in
    let middle =
      positional_middle 32 symbol_value cong32 step32 p (a ∷ b ∷ []) (b ∷ a ∷ []) s 0 same in
    d (
      symbol_value_injective a b (all_middle is_data_symbol p (b ∷ s) a ha)
        (all_middle is_data_symbol p (a ∷ s) b hb)
        (swap32 _ _ _ (symbol_value-lt a) (symbol_value-lt b) middle))

-- Replacing one symbol of a random payload by another data symbol, or exchanging two neighbouring
-- symbols that differ, changes the check symbol.
pub reference_detection :
    (p s : Text) (a b : ℕ)
    → all is_data_symbol (p ++ a ∷ b ∷ s) ≡ true
    → all is_data_symbol (p ++ b ∷ a ∷ s) ≡ true
    → a ≢ b
    → (calculate_reference_check_symbol (p ++ a ∷ s)
        ≢ calculate_reference_check_symbol (p ++ b ∷ s))
      × (calculate_reference_check_symbol (p ++ a ∷ b ∷ s)
          ≢ calculate_reference_check_symbol (p ++ b ∷ a ∷ s))
reference_detection p s a b ha hb d = (
  reference_substitution p s a b (all_drop_second is_data_symbol p s a b ha)
      (all_drop_second is_data_symbol p s b a hb) d,
  reference_transposition p s a b ha hb d,
)

-- Replacing one digit of a sequential payload by another, or exchanging two neighbouring digits
-- that differ, changes the check symbol.
pub sequential_detection :
    (p s : Text) (a b : ℕ)
    → all is_digit (p ++ a ∷ b ∷ s) ≡ true
    → all is_digit (p ++ b ∷ a ∷ s) ≡ true
    → a ≢ b
    → (calculate_sequential_check_symbol (p ++ a ∷ s)
        ≢ calculate_sequential_check_symbol (p ++ b ∷ s))
      × (calculate_sequential_check_symbol (p ++ a ∷ b ∷ s)
          ≢ calculate_sequential_check_symbol (p ++ b ∷ a ∷ s))
sequential_detection p s a b ha hb d =
    let da = all_middle is_digit p (b ∷ s) a ha in
    let db = all_middle is_digit p (a ∷ s) b hb in
    (
      λ e.
          let same =
            same_digits _ _ (ne_nil p s a) (ne_nil p s b) (all_drop_second is_digit p s a b ha)
              (all_drop_second is_digit p s b a hb) e in
          d (
            digit_value_injective _ a b da db
              (positional_middle 10 digit_value cong10 step10 p (a ∷ []) (b ∷ []) s 0 same)),
      λ e.
          let same = same_digits _ _ (ne_nil p (b ∷ s) a) (ne_nil p (a ∷ s) b) ha hb e in
          d (
            digit_swap _ a b da db (
              positional_middle 10 digit_value cong10 step10 p (a ∷ b ∷ []) (b ∷ a ∷ []) s 0 same)),
    )
