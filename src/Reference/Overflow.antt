-- ===== src/Reference/Overflow.antt =====
-- The bound of `formatSequentialReference` (reference.ts).
use identifold.Errors.{fail, invalid_ref, sequence_overflow, ok}
use identifold.Prelude.{
  ℕ, zero, suc, ◌%◌, ◌^◌, ◌≤◌, ◌<◌, ◌≡◌, refl, ◌↔◌, ◌⊎◌, inl, inr, true, false, Option, none, some,
  ◌++◌, arith, length, all, ltb, leb, Bool-cases, Text, is_digit,
}
use identifold.Reference.CheckSymbol.{check_symbol_at}
use identifold.Reference.CheckSymbol.Positional.{positional}
use identifold.Reference.CheckSymbol.Value.{digit_value, calculate_sequential_check_symbol_lem}
use identifold.Reference.Decimal.{to_decimal, pad_start, ℤ, pos, negsuc}
use identifold.Reference.Decimal.Laws.{to_decimal_lem, length-to_decimal, pad_start_lem}
use identifold.Reference.Format.{
  format_sequential_parts, require_sequential_namespace, format_sequential_reference,
}
use identifold.Reference.Parse.{has_scope}
use identifold.Reference.RoundTrip.Random.{nonempty_of_length}
use identifold.Reference.Sequence.{leb-le, ScopeFits, sequential_payload-fits, ScopeFits-digits}
use identifold.Registry.{RegisteredSequentialReferenceDefinition, NamespaceRegistry}

fits_width :
    (n width : ℕ) → 1 ≤ width → (leb (length (to_decimal n)) width ≡ true) ↔ (n < 10 ^ width)
fits_width n zero h = absurd (omega arith)
fits_width n (suc w) h =
    let (to, from) = length-to_decimal n w in (λ k. to (leb-le _ _ k), λ k. le-leb _ _ (from k))
  where
    le-leb : (a b : ℕ) → a ≤ b → leb a b ≡ true
    le-leb a b k = ground arith

below_or_not : (a b : ℕ) → (a < b) ⊎ (b ≤ a)
below_or_not a b = elim (Bool-cases (ltb a b)) [
  | inl h ↦ inl (ground arith)
  | inr h ↦ inr (ground arith)
]

bound_pos :
    (registry : NamespaceRegistry) (namespace : Text) (n : ℕ) (scope : Option Text)
    (r : RegisteredSequentialReferenceDefinition) (payload : Text)
    → require_sequential_namespace registry namespace ≡ ok r
    → 1 ≤ r.width
    → ScopeFits r scope (pad_start r.width (to_decimal n)) payload
    → ((n < 10 ^ r.width)
        × (reference : Text) × (format_sequential_reference registry namespace (pos n) scope
            ≡ ok reference))
      ⊎ ((10 ^ r.width ≤ n)
          × (format_sequential_reference registry namespace (pos n) scope ≡ fail sequence_overflow))
unfolding format_sequential_reference
bound_pos registry namespace n scope r payload required wide fits =
    elim (below_or_not n (10 ^ r.width)) [
      | inl small ↦
          let fitting = (fits_width n r.width wide).1 small in
          let (size, _, numeric) =
            pad_start_lem r.width (to_decimal n) (leb-le _ _ fitting) (to_decimal_lem n).1 in
          let (filled, spelled) =
            ScopeFits-digits r scope (pad_start r.width (to_decimal n)) payload fits
              (omega (arith, size)) numeric in
          inl (
            small,
            format_sequential_parts r.prefix (pad_start r.width (to_decimal n))
                (check_symbol_at (positional 10 digit_value payload 0 % 37)) scope,
            rw (
              required,
              fitting,
              sequential_payload-fits r scope (pad_start r.width (to_decimal n)) payload fits,
              calculate_sequential_check_symbol_lem payload (nonempty_of_length payload filled)
                  spelled,
            ),
          )
      | inr large ↦ elim (Bool-cases (leb (length (to_decimal n)) r.width)) [
        | inl fitting ↦ absurd (omega (arith, (fits_width n r.width wide).0 fitting))
        | inr long ↦ inr (large, rw (required, long))
      ]
    ]

-- A year of four digits where the profile has a scope, and none where it has no scope.
abbrev pub HasFittingScope : RegisteredSequentialReferenceDefinition → Option Text → Type 0
HasFittingScope r none = has_scope r ≡ false
HasFittingScope r (some year) =
    (has_scope r ≡ true) × (length year ≡ 4) × (all is_digit year ≡ true)

fitting_payload :
    (r : RegisteredSequentialReferenceDefinition) (scope : Option Text) (digits : Text)
    → HasFittingScope r scope
    → (payload : Text) × ScopeFits r scope digits payload
fitting_payload r none digits unscoped = (digits, (unscoped, refl))
fitting_payload r (some year) digits (scoped, four, numeric) =
    (year ++ digits, (scoped, four, numeric, refl))

-- For a sequential namespace of positive width and a scope that fits it,
-- `formatSequentialReference` fails with `invalid_ref` on a negative number, succeeds on a number
-- from 0 to below 10 ^ width, and fails with `sequence_overflow` on any other.
pub format_sequential_reference_bound :
    (registry : NamespaceRegistry) (namespace : Text) (number : ℤ) (scope : Option Text)
    (r : RegisteredSequentialReferenceDefinition)
    → require_sequential_namespace registry namespace ≡ ok r
    → 1 ≤ r.width
    → HasFittingScope r scope
    → ((n : ℕ) × (number ≡ negsuc n)
        × (format_sequential_reference registry namespace number scope ≡ fail invalid_ref))
      ⊎ (((n : ℕ) × (number ≡ pos n)
            × (n < 10 ^ r.width)
            × (reference : Text) × (format_sequential_reference registry namespace number scope
                ≡ ok reference))
          ⊎ ((n : ℕ) × (number ≡ pos n)
              × (10 ^ r.width ≤ n)
              × (format_sequential_reference registry namespace number scope
                  ≡ fail sequence_overflow)))
unfolding format_sequential_reference
format_sequential_reference_bound registry namespace (negsuc n) scope r required wide fits =
    inl (n, refl, rw required refl)
format_sequential_reference_bound registry namespace (pos n) scope r required wide fits =
    let (payload, fit) = fitting_payload r scope (pad_start r.width (to_decimal n)) fits in
    elim (bound_pos registry namespace n scope r payload required wide fit) [
      | inl (small, reference, written) ↦ inr (inl (n, refl, small, reference, written))
      | inr (large, failed) ↦ inr (inr (n, refl, large, failed))
    ]
