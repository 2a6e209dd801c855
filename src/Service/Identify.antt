-- ===== src/Service/Identify.antt =====
-- `parse`, `normalize`, `validate` and `inspect` of service.ts, with the functions behind them.
use identifold.Prelude.{
  ℕ, ◌+◌, Bool, true, false, ◌&&◌, ◌||◌, Option, none, some, [], ◌∷◌, map, length, all, leb, ◌==◌,
  if◌then◌else◌, Text, text_eq, includes, is_digit, is_lower, is_upper,
}
use identifold.Errors.{
  Code, identifold_error, boundary_error, foreign, Result, ok, err, fail, ◌>>=◌, invalid_kind,
  unknown_namespace, invalid_ref, invalid_checksum,
}
use identifold.Registry.{NamespaceRegistry, get_by_public_prefix}
use identifold.Machine.Defs.{UuidLibrary, parse_machine_id}
use identifold.Public.Defs.{TypeIdLibrary, ParsedPublicId, parse_public_id}
use identifold.Reference.Hyphens.{hyphen, split_hyphens}
use identifold.Reference.Parse.{ParsedReference, parse_reference}

pub data IdentifierKind : Type 0 where
  mid pid ref : IdentifierKind

-- The constructor is the field `kind`. A machine identifier is its own value.
pub data ParsedIdentifier : Type 0 where
  of_mid : Text → ParsedIdentifier
  of_pid : ParsedPublicId → ParsedIdentifier
  of_ref : ParsedReference → ParsedIdentifier

-- The field `value`.
abbrev pub parsed_value : ParsedIdentifier → Text
parsed_value (of_mid machine_id) = machine_id
parsed_value (of_pid parsed) = parsed.value
parsed_value (of_ref parsed) = parsed.value

abbrev pub parsed_kind : ParsedIdentifier → IdentifierKind
parsed_kind (of_mid machine_id) = mid
parsed_kind (of_pid parsed) = pid
parsed_kind (of_ref parsed) = ref

abbrev pub is_letter : ℕ → Bool
is_letter c = is_lower c || is_upper c

-- `[0-9a-f]` and the hyphen, in either case.
abbrev pub is_uuid_unit : ℕ → Bool
is_uuid_unit c = is_digit c || leb b'a' c && leb c b'f' || leb b'A' c && leb c b'F' || c == hyphen

-- The test for groups of 8, 4, 4, 4 and 12 hexadecimal digits.
unfoldable pub has_uuid_shape : Text → Bool
has_uuid_shape value =
    all is_uuid_unit value && text_eq (map length (split_hyphens value)) (8 ∷ 4 ∷ 4 ∷ 4 ∷ 12 ∷ [])

-- The letters at the head are read; `seen` counts them. `[a-z]{2,8}` takes all of them, since no
-- letter is a hyphen or a digit.
unfoldable pub starts_like_reference : ℕ → Text → Bool
starts_like_reference seen [] = false
starts_like_reference seen (c ∷ value) =
    let rest = starts_like_reference (seen + 1) value in
    if is_letter c then rest else leb 2 seen && leb seen 8 && (c == hyphen || is_digit c)

unfoldable pub detect_identifier_kind : Text → Option IdentifierKind
detect_identifier_kind value =
    if includes value (b'_' ∷ [])
    then some pid
    else if has_uuid_shape value
    then some mid
    else if starts_like_reference 0 value
    then some ref
    else none

unfoldable pub classify_identifier : Text → Result IdentifierKind
classify_identifier value = elim (detect_identifier_kind value) [
  | some kind ↦ ok kind
  | none ↦ fail invalid_kind
]

pub record IdentityInspection : Type 0 where
  pub checksum_valid : Option Bool
  pub error_code : Option Code
  pub kind : Option IdentifierKind
  pub machine_id : Option Text
  pub namespace : Option Text
  pub normalized : Option Text
  pub registry_recognized : Bool
  pub resolution_not_requested : Bool
  pub uuid_version : Option ℕ
  pub valid : Bool

abbrev pub unknown_inspection : IdentityInspection
unknown_inspection = record {
  checksum_valid = none;
  error_code = some invalid_kind;
  kind = none;
  machine_id = none;
  namespace = none;
  normalized = none;
  registry_recognized = false;
  resolution_not_requested = false;
  uuid_version = none;
  valid = false;
}

unfoldable pub inspect_parsed : ParsedIdentifier → IdentityInspection
inspect_parsed (of_mid value) = record {
  checksum_valid = none;
  error_code = none;
  kind = some mid;
  machine_id = some value;
  namespace = none;
  normalized = some value;
  registry_recognized = false;
  resolution_not_requested = false;
  uuid_version = some 7;
  valid = true;
}
inspect_parsed (of_pid parsed) = record {
  checksum_valid = none;
  error_code = none;
  kind = some pid;
  machine_id = some parsed.machine_id;
  namespace = some parsed.namespace;
  normalized = some parsed.value;
  registry_recognized = true;
  resolution_not_requested = false;
  uuid_version = some 7;
  valid = true;
}
inspect_parsed (of_ref parsed) = record {
  checksum_valid = some true;
  error_code = none;
  kind = some ref;
  machine_id = none;
  namespace = some parsed.namespace;
  normalized = some parsed.value;
  registry_recognized = true;
  resolution_not_requested = true;
  uuid_version = none;
  valid = true;
}

abbrev is_ref : IdentifierKind → Bool
is_ref ref = true
is_ref _ = false

-- `error.code !== "invalid_ref" && error.code !== "unknown_namespace"`
abbrev pub tells_registration : Code → Bool
tells_registration invalid_ref = false
tells_registration unknown_namespace = false
tells_registration _ = true

abbrev pub is_checksum_error : Code → Bool
is_checksum_error invalid_checksum = true
is_checksum_error _ = false

unfoldable pub inspect_error : IdentifierKind → Code → IdentityInspection
inspect_error kind code = record {
  checksum_valid = if is_ref kind && is_checksum_error code then some false else none;
  error_code = some code;
  kind = some kind;
  machine_id = none;
  namespace = none;
  normalized = none;
  registry_recognized = is_ref kind && tells_registration code;
  resolution_not_requested = is_ref kind;
  uuid_version = none;
  valid = false;
}

-- `catch (error)` in `inspect`: an error of another class is thrown on.
abbrev pub inspect_result : IdentifierKind → Result ParsedIdentifier → Result IdentityInspection
inspect_result kind (ok parsed) = ok (inspect_parsed parsed)
inspect_result kind (err (identifold_error code)) = ok (inspect_error kind code)
inspect_result kind (err (boundary_error code)) = err (boundary_error code)
inspect_result kind (err (foreign e)) = err (foreign e)

-- `catch (error)` in `validate`.
abbrev pub validate_result : Result ParsedIdentifier → Result Bool
validate_result (ok parsed) = ok true
validate_result (err (identifold_error code)) = ok false
validate_result (err (boundary_error code)) = err (boundary_error code)
validate_result (err (foreign e)) = err (foreign e)

module _ (uuid : UuidLibrary) (type_id : TypeIdLibrary) (registry : NamespaceRegistry) where
  unfoldable pub parse_identifier : Text → IdentifierKind → Result ParsedIdentifier
  parse_identifier value mid = do machine_id ← parse_machine_id uuid value; ok (of_mid machine_id)
  parse_identifier value pid = do
    parsed ← parse_public_id uuid type_id value none
    elim (get_by_public_prefix registry parsed.namespace) [
      | none ↦ fail unknown_namespace
      | some definition ↦ ok (of_pid parsed)
    ]
  parse_identifier value ref = do parsed ← parse_reference value registry; ok (of_ref parsed)

  unfoldable pub parse : Text → Result ParsedIdentifier
  parse value = do kind ← classify_identifier value; parse_identifier value kind

  unfoldable pub normalize : Text → Result Text
  normalize value = do
    kind ← classify_identifier value
    parsed ← parse_identifier value kind
    ok (parsed_value parsed)

  unfoldable pub validate : Text → Result Bool
  validate value =
      validate_result (classify_identifier value >>= λ kind. parse_identifier value kind)

  unfoldable pub inspect : Text → Result IdentityInspection
  inspect value = elim (detect_identifier_kind value) [
    | none ↦ ok unknown_inspection
    | some kind ↦ inspect_result kind (parse_identifier value kind)
  ]
