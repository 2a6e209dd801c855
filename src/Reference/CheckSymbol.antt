-- ===== src/Reference/CheckSymbol.antt =====
-- The check symbols of reference.ts. A `for … of` loop goes by code points and this one by code
-- units: they differ on surrogate pairs alone, and there both stop at an invalid symbol.
pub mod Positional
pub mod Value
pub mod Detection
use identifold.Prelude.{
  ℕ, ◌+◌, ◌-◌, ◌*◌, ◌%◌, Option, none, some, [], ◌∷◌, ◌++◌, Text, codes, index_of, char_at,
  is_digit, if◌then◌else◌,
}
use identifold.Errors.{Result, ok, fail, invalid_ref_length, invalid_ref_symbol, ◌>>=◌, ◌>>◌}

-- `DATA_ALPHABET`
abbrev pub data_alphabet : Text
data_alphabet = codes "0123456789ABCDEFGHJKMNPQRSTVWXYZ"

-- `CHECK_ALPHABET`
abbrev pub check_alphabet : Text
check_alphabet = data_alphabet ++ codes "*~$=U"

-- `DATA_ALPHABET.indexOf(symbol)`; `none` stands for -1.
unfoldable pub data_value : ℕ → Option ℕ
data_value symbol = index_of data_alphabet symbol

-- `DATA_ALPHABET.charAt(index)`
unfoldable pub data_symbol_at : ℕ → Text
data_symbol_at index = char_at data_alphabet index

-- `CHECK_ALPHABET.charAt(remainder)`
unfoldable pub check_symbol_at : ℕ → Text
check_symbol_at remainder = char_at check_alphabet remainder

-- The loop of `calculateReferenceCheckSymbol`.
unfoldable pub reference_remainder : Text → ℕ → Result ℕ
reference_remainder [] remainder = ok remainder
reference_remainder (symbol ∷ payload) remainder = elim (data_value symbol) [
  | none ↦ fail invalid_ref_symbol
  | some value ↦ reference_remainder payload ((remainder * 32 + value) % 37)
]

unfoldable pub calculate_reference_check_symbol : Text → Result Text
calculate_reference_check_symbol [] = fail invalid_ref_length
calculate_reference_check_symbol (symbol ∷ payload) = do
  remainder ← reference_remainder (symbol ∷ payload) 0
  ok (check_symbol_at remainder)

-- The loop of `calculateSequentialCheckSymbol`.
unfoldable pub sequential_remainder : Text → ℕ → Result ℕ
sequential_remainder [] remainder = ok remainder
sequential_remainder (symbol ∷ payload) remainder =
    if is_digit symbol
    then sequential_remainder payload ((remainder * 10 + (symbol - b'0')) % 37)
    else fail invalid_ref_symbol

unfoldable pub calculate_sequential_check_symbol : Text → Result Text
calculate_sequential_check_symbol [] = fail invalid_ref_length
calculate_sequential_check_symbol (symbol ∷ payload) = do
  remainder ← sequential_remainder (symbol ∷ payload) 0
  ok (check_symbol_at remainder)
