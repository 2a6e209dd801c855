-- ===== src/Reference/Decimal.antt =====
-- `bigint.toString()`, `padStart` and `BigInt(digits)`, as reference.ts and the storage adapters
-- use them.
pub mod Laws
use identifold.Prelude.{
  ℕ, zero, suc, ◌+◌, ◌-◌, ◌/◌, ◌%◌, [], ◌∷◌, ◌++◌, length, replicate, Text, ◌==◌, if◌then◌else◌,
}

-- A signed integer, which is what a `bigint` holds; `negsuc n` is -(n + 1).
pub data ℤ : Type 0 where
  pos : ℕ → ℤ
  negsuc : ℕ → ℤ

-- The digits of a number in front of `out`. A number has fewer digits than it has units, so the
-- fuel that `to_decimal` gives is never used up.
unfoldable pub decimal_digits : ℕ → ℕ → Text → Text
decimal_digits zero n out = out
decimal_digits (suc fuel) n out =
    let rest = decimal_digits fuel (n / 10) ((b'0' + n % 10) ∷ out) in
    if n / 10 == 0 then (b'0' + n % 10) ∷ out else rest

unfoldable pub to_decimal : ℕ → Text
to_decimal n = decimal_digits (suc n) n []

-- `text.padStart(width, "0")`
unfoldable pub pad_start : ℕ → Text → Text
pad_start width text = replicate (width - length text) b'0' ++ text
