-- ===== src/Reference/Parse.antt =====
-- Reading references (reference.ts).
use identifold.Prelude.{
  ℕ, zero, suc, ◌+◌, Bool, false, ◌&&◌, ◌||◌, Option, none, some, List, [], ◌∷◌, length, take, drop,
  all, leb, ◌==◌, if◌then◌else◌, Text, codes, text_eq, includes, index_of, starts_with, is_digit,
  is_lower, is_upper, to_upper,
}
use identifold.Errors.{
  Result, ok, fail, guard, ◌>>=◌, unknown_namespace, invalid_namespace_definition, invalid_ref,
  invalid_ref_length, invalid_ref_symbol, invalid_checksum, ◌>>◌,
}
use identifold.Registry.{
  Number, whole, negative, not_integer, RegisteredRandomReferenceDefinition,
  RegisteredSequentialReferenceDefinition, random, sequence, RegisteredNamespaceDefinition,
  NamespaceRegistry, get_by_reference_prefix, reference_prefix,
}
use identifold.Reference.CheckSymbol.{
  data_alphabet, check_alphabet, calculate_reference_check_symbol,
  calculate_sequential_check_symbol,
}
use identifold.Reference.Hyphens.{
  hyphen, remove_hyphens, validate_hyphenation, validate_sequential_hyphenation,
}
use identifold.Reference.Format.{is_length, format_reference, format_sequential_parts}

pub data Strategy : Type 0 where
  by_random by_sequence : Strategy

pub record ParsedReference : Type 0 where
  pub value : Text
  pub namespace : Text
  pub payload : Text
  pub scope : Option Text
  pub sequence : Option Text
  pub check_symbol : Text
  pub strategy : Strategy

-- `[A-Za-z0-9*~$=_-]`
abbrev pub is_reference_unit : ℕ → Bool
is_reference_unit c =
    is_upper c
    || is_lower c
    || is_digit c
    || c == b'*'
    || c == b'~'
    || c == b'$'
    || c == b'='
    || c == b'_'
    || c == b'-'

-- The test at the head of `parseReference`.
unfoldable pub is_reference_text : Text → Bool
is_reference_text [] = false
is_reference_text (c ∷ value) = leb (length (c ∷ value)) 100 && all is_reference_unit (c ∷ value)

pub record Located : Type 0 where
  pub body : Text
  pub definition : RegisteredNamespaceDefinition

-- The loop of `locateNamespace` over the definitions.
unfoldable pub locate_prefix : List RegisteredNamespaceDefinition → Text → Result Located
locate_prefix [] value = fail unknown_namespace
locate_prefix (definition ∷ definitions) value = elim definition.reference [
  | none ↦ locate_prefix definitions value
  | some reference ↦
      if starts_with value (reference_prefix reference)
      then ok (record {
        body = drop (length (reference_prefix reference)) value;
        definition = definition;
      })
      else locate_prefix definitions value
]

unfoldable pub locate_namespace : Text → NamespaceRegistry → Result Located
locate_namespace value registry = elim (index_of value hyphen) [
  | some first_hyphen ↦ elim (get_by_reference_prefix registry (take first_hyphen value)) [
    | none ↦ fail unknown_namespace
    | some definition ↦
        ok (record { body = drop (first_hyphen + 1) value; definition = definition })
  ]
  | none ↦ locate_prefix registry.definitions value
]

-- `text.slice(0, -1)`
abbrev pub drop_last : Text → Text
drop_last [] = []
drop_last (c ∷ []) = []
drop_last (c ∷ d ∷ text) = c ∷ drop_last (d ∷ text)

-- `text.slice(-1)`
abbrev pub last_unit : Text → Text
last_unit [] = []
last_unit (c ∷ []) = c ∷ []
last_unit (c ∷ d ∷ text) = last_unit (d ∷ text)

abbrev pub alias : ℕ → ℕ
alias c = if c == b'O' then b'0' else if c == b'I' || c == b'L' then b'1' else c

-- `DATA_ALPHABET.includes(symbol)`
unfoldable pub in_data_alphabet : ℕ → Bool
in_data_alphabet symbol = includes data_alphabet (symbol ∷ [])

-- `CHECK_ALPHABET.includes(checkSymbol)`
unfoldable pub in_check_alphabet : Text → Bool
in_check_alphabet check_symbol = includes check_alphabet check_symbol

unfoldable pub normalize_payload : Text → Result Text
normalize_payload [] = ok []
normalize_payload (raw ∷ payload) =
    if in_data_alphabet (alias raw)
    then (normalize_payload payload >>= λ rest. ok (alias raw ∷ rest))
    else fail invalid_ref_symbol

-- `number + 1`
abbrev pub plus_one : Number → Number
plus_one (whole n) = whole (suc n)
plus_one (negative zero) = whole 0
plus_one (negative (suc n)) = negative n
plus_one not_integer = not_integer

-- The part of `parseReference` behind `locateNamespace`, for the random strategy.
unfoldable pub parse_random_reference :
    Text → Text → RegisteredRandomReferenceDefinition → Result ParsedReference
parse_random_reference body_with_hyphens namespace reference = do
  let body = remove_hyphens body_with_hyphens
  guard (is_length (length body) (plus_one reference.payload_length)) invalid_ref_length
  validate_hyphenation body_with_hyphens reference.payload_length
  let check_symbol = last_unit body
  payload ← normalize_payload (drop_last body)
  guard (in_check_alphabet check_symbol) invalid_ref_symbol
  calculated ← calculate_reference_check_symbol payload
  guard (text_eq calculated check_symbol) invalid_checksum
  ok (record {
    value = format_reference reference.prefix payload check_symbol;
    namespace = namespace;
    payload = payload;
    scope = none;
    sequence = none;
    check_symbol = check_symbol;
    strategy = by_random;
  })

-- `/^\d+$/.test(text)`
unfoldable pub is_all_digits : Text → Bool
is_all_digits [] = false
is_all_digits (c ∷ text) = all is_digit (c ∷ text)

abbrev pub has_scope : RegisteredSequentialReferenceDefinition → Bool
has_scope reference = text_eq reference.scope (codes "calendar-year")

abbrev pub payload_scope : Bool → Text → Option Text
payload_scope scoped payload = if scoped then some (take 4 payload) else none

abbrev pub payload_sequence : Bool → Text → Text
payload_sequence scoped payload = if scoped then drop 4 payload else payload

unfoldable pub parse_sequential_reference :
    Text → Text → RegisteredSequentialReferenceDefinition → Result ParsedReference
parse_sequential_reference body_with_hyphens namespace reference = do
  let scoped = has_scope reference
  let payload_length = reference.width + (if scoped then 4 else 0)
  let body = remove_hyphens body_with_hyphens
  guard (length body == payload_length + 1) invalid_ref_length
  validate_sequential_hyphenation body_with_hyphens reference.width scoped
  let payload = drop_last body
  let check_symbol = last_unit body
  guard (is_all_digits payload && in_check_alphabet check_symbol) invalid_ref_symbol
  calculated ← calculate_sequential_check_symbol payload
  guard (text_eq calculated check_symbol) invalid_checksum
  let scope = payload_scope scoped payload
  let digits = payload_sequence scoped payload
  ok (record {
    value = format_sequential_parts reference.prefix digits check_symbol scope;
    namespace = namespace;
    payload = payload;
    scope = scope;
    sequence = some digits;
    check_symbol = check_symbol;
    strategy = by_sequence;
  })

-- What `parseReference` does with the located definition.
unfoldable pub parse_located : Located → Result ParsedReference
parse_located located = elim located.definition.reference [
  | none ↦ fail invalid_namespace_definition
  | some (sequence s) ↦ parse_sequential_reference located.body located.definition.public_prefix s
  | some (random r) ↦ parse_random_reference located.body located.definition.public_prefix r
]

unfoldable pub parse_reference : Text → NamespaceRegistry → Result ParsedReference
parse_reference value registry = do
  guard (is_reference_text value) invalid_ref
  located ← locate_namespace (to_upper value) registry
  parse_located located

unfoldable pub normalize_reference : Text → NamespaceRegistry → Result Text
normalize_reference value registry = do parsed ← parse_reference value registry; ok parsed.value
