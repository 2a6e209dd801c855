-- ===== src/Reference/Format.antt =====
-- Writing references (reference.ts). The source of random bytes is an argument: it is given the
-- size and a state of the world, and returns an array of bytes, or some other value (`none`).
use identifold.Prelude.{
  ℕ, ◌%◌, Bool, false, Option, none, some, List, [], ◌∷◌, ◌++◌, length, all, leb, ◌==◌, Text, codes,
  text_eq, is_digit, ◌&&◌, if◌then◌else◌,
}
use identifold.Errors.{
  Result, ok, err, fail, guard, ◌>>=◌, unknown_namespace, invalid_namespace_definition,
  invalid_random_source, invalid_ref, sequence_overflow, ◌>>◌,
}
use identifold.Registry.{
  Number, whole, negative, not_integer, RegisteredRandomReferenceDefinition,
  RegisteredSequentialReferenceDefinition, random, sequence, NamespaceRegistry,
  get_by_public_prefix,
}
use identifold.Reference.CheckSymbol.{
  calculate_reference_check_symbol, calculate_sequential_check_symbol,
}
use identifold.Reference.CheckSymbol
use identifold.Reference.Hyphens.{hyphen, groups, join_hyphens}
use identifold.Reference.Decimal.{ℤ, pos, negsuc, to_decimal, pad_start}

unfoldable pub format_reference : Text → Text → Text → Text
format_reference prefix payload check_symbol =
    prefix ++ hyphen ∷ (join_hyphens (groups payload) ++ hyphen ∷ check_symbol)

unfoldable pub format_sequential_parts : Text → Text → Text → Option Text → Text
format_sequential_parts prefix digits check_symbol none =
    prefix ++ hyphen ∷ (digits ++ hyphen ∷ check_symbol)
format_sequential_parts prefix digits check_symbol (some scope) =
    prefix ++ hyphen ∷ (scope ++ hyphen ∷ (digits ++ hyphen ∷ check_symbol))

-- `requireRandomNamespace`, which returns the definition of the reference.
unfoldable pub require_random_namespace :
    NamespaceRegistry → Text → Result RegisteredRandomReferenceDefinition
require_random_namespace registry namespace = elim (get_by_public_prefix registry namespace) [
  | none ↦ fail unknown_namespace
  | some definition ↦ elim definition.reference [
    | none ↦ fail invalid_namespace_definition
    | some (sequence s) ↦ fail invalid_namespace_definition
    | some (random r) ↦ ok r
  ]
]

-- `requireSequentialNamespace`, which returns the definition of the reference.
unfoldable pub require_sequential_namespace :
    NamespaceRegistry → Text → Result RegisteredSequentialReferenceDefinition
require_sequential_namespace registry namespace = elim (get_by_public_prefix registry namespace) [
  | none ↦ fail unknown_namespace
  | some definition ↦ elim definition.reference [
    | none ↦ fail invalid_namespace_definition
    | some (sequence s) ↦ ok s
    | some (random r) ↦ fail invalid_namespace_definition
  ]
]

-- `length === number`
abbrev pub is_length : ℕ → Number → Bool
is_length n (whole m) = n == m
is_length n (negative m) = false
is_length n not_integer = false

-- `DATA_ALPHABET.charAt(byte & 31)`; the low five bits of a byte are its remainder by 32.
unfoldable pub byte_symbol : ℕ → Text
byte_symbol byte = CheckSymbol.data_symbol_at (byte % 32)

unfoldable pub payload_of_bytes : List ℕ → Text
payload_of_bytes [] = []
payload_of_bytes (byte ∷ bytes) = byte_symbol byte ++ payload_of_bytes bytes

-- What becomes of the bytes that the source returned.
unfoldable pub candidate_of_bytes :
    RegisteredRandomReferenceDefinition → Option (List ℕ) → Result Text
candidate_of_bytes reference none = fail invalid_random_source
candidate_of_bytes reference (some bytes) = do
  guard (is_length (length bytes) reference.payload_length) invalid_random_source
  let payload = payload_of_bytes bytes
  check_symbol ← calculate_reference_check_symbol payload
  ok (format_reference reference.prefix payload check_symbol)

module _ {W : Type 0} where
  abbrev pub draw :
      RegisteredRandomReferenceDefinition → Result (Option (List ℕ)) × W → Result Text × W
  draw reference (ok bytes, w) = (candidate_of_bytes reference bytes, w)
  draw reference (err e, w) = (err e, w)

  unfoldable pub create_reference_candidate :
      (Number → W → Result (Option (List ℕ)) × W) → NamespaceRegistry → Text → W → Result Text × W
  create_reference_candidate random_bytes registry namespace w =
      elim (require_random_namespace registry namespace) [
        | err e ↦ (err e, w)
        | ok reference ↦ draw reference (random_bytes reference.payload_length w)
      ]

-- `/^\d{4}$/.test(scope)`
abbrev pub is_four_digits : Text → Bool
is_four_digits scope = all is_digit scope && length scope == 4

-- The digits that the check symbol of a sequential reference is computed from.
unfoldable pub sequential_payload : Text → Option Text → Text → Result Text
sequential_payload policy scope padded =
    if text_eq policy (codes "calendar-year")
    then elim scope [
      | none ↦ fail invalid_ref
      | some year ↦ if is_four_digits year then ok (year ++ padded) else fail invalid_ref
    ]
    else elim scope [ none ↦ ok padded | some _ ↦ fail invalid_ref ]

unfoldable pub format_sequential_reference :
    NamespaceRegistry → Text → ℤ → Option Text → Result Text
format_sequential_reference registry namespace (negsuc n) scope =
    require_sequential_namespace registry namespace >>= λ _. fail invalid_ref
format_sequential_reference registry namespace (pos n) scope = do
  reference ← require_sequential_namespace registry namespace
  let digits = to_decimal n
  guard (leb (length digits) reference.width) sequence_overflow
  let padded = pad_start reference.width digits
  payload ← sequential_payload reference.scope scope padded
  check_symbol ← calculate_sequential_check_symbol payload
  ok (format_sequential_parts reference.prefix padded check_symbol scope)
