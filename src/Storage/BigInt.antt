-- ===== src/Storage/BigInt.antt =====
-- `BigInt` of a text, as the adapter of sqlite.ts applies it: ECMAScript's StringToBigInt. White
-- space around is skipped, nothing is 0, a decimal may have a sign, and the prefixes 0x, 0o and 0b
-- name another radix. On any other text `BigInt` throws.
use identifold.Prelude.{
  ℕ, zero, suc, ◌+◌, ◌*◌, Bool, not, ◌&&◌, ◌||◌, Option, none, some, [], ◌∷◌, ltb, leb, ◌==◌,
  if◌then◌else◌, Text,
}
use identifold.Reference.Decimal.{ℤ, pos, negsuc}
use identifold.Reference.Decimal.Laws.{decimal_value}
use identifold.Reference.Parse.{is_all_digits}
use identifold.Storage.Bytes.{is_hex, hex_value}
pub mod Decimal

unfoldable pub is_white_space : ℕ → Bool
is_white_space c =
    leb 9 c && leb c 13
    || c == 32
    || c == 160
    || c == 5760
    || leb 8192 c && leb c 8202
    || c == 8232
    || c == 8233
    || c == 8239
    || c == 8287
    || c == 12288
    || c == 65279

unfoldable pub trim_start : Text → Text
trim_start [] = []
trim_start (c ∷ rest) = if is_white_space c then trim_start rest else c ∷ rest

unfoldable pub trim_end : Text → Text
trim_end [] = []
trim_end (c ∷ rest) = elim (trim_end rest) [
  | [] ↦ if is_white_space c then [] else c ∷ []
  | d ∷ kept ↦ c ∷ d ∷ kept
]

-- The value of digits of a radix, after those that stand for `value`.
unfoldable pub radix_value : ℕ → ℕ → Text → Option ℤ
radix_value radix value [] = some (pos value)
radix_value radix value (c ∷ rest) =
    let next = radix_value radix (value * radix + hex_value c) rest in
    if is_hex c && ltb (hex_value c) radix then next else none

-- The digits behind a prefix; there is at least one.
abbrev radix_literal : ℕ → Text → Option ℤ
radix_literal radix [] = none
radix_literal radix (c ∷ digits) = radix_value radix 0 (c ∷ digits)

abbrev opposite : ℕ → ℤ
opposite zero = pos zero
opposite (suc n) = negsuc n

-- What follows a 0 that is not the first of several digits.
abbrev prefixed : Text → Option ℤ
prefixed [] = none
prefixed (c ∷ digits) =
    if c == b'x' || c == b'X'
    then radix_literal 16 digits
    else if c == b'o' || c == b'O'
    then radix_literal 8 digits
    else if c == b'b' || c == b'B'
    then radix_literal 2 digits
    else none

abbrev signed : ℕ → Text → Option ℤ
signed c rest =
    if c == b'0'
    then prefixed rest
    else if not (is_all_digits rest)
    then none
    else if c == b'+'
    then some (pos (decimal_value rest))
    else if c == b'-'
    then some (opposite (decimal_value rest))
    else none

unfoldable pub integer_literal : Text → Option ℤ
integer_literal [] = some (pos 0)
integer_literal (c ∷ rest) =
    if is_all_digits (c ∷ rest) then some (pos (decimal_value (c ∷ rest))) else signed c rest

unfoldable pub big_int_of_text : Text → Option ℤ
big_int_of_text t = integer_literal (trim_end (trim_start t))
