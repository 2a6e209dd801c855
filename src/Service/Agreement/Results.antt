-- ===== src/Service/Agreement/Results.antt =====
-- `normalize`, `validate` and `inspect` (service.ts) by what `parse` answers, as the code builds their
-- answers from it.
use identifold.Errors.{
  fail, ◌>>=◌, Result-cases, Result, invalid_kind, identifold_error, boundary_error, foreign, ok,
  err,
}
use identifold.Machine.Defs.{UuidLibrary}
use identifold.Prelude.{◌≡◌, refl, inl, inr, none, some, Option-cases, Text}
use identifold.Public.Defs.{TypeIdLibrary}
use identifold.Registry.{NamespaceRegistry}
use identifold.Service.Agreement.Refusal.{IsRefusal, inspect_error-IsRefusal}
use identifold.Service.Identify.{
  parsed_value, detect_identifier_kind, classify_identifier, unknown_inspection, inspect_parsed,
  inspect_result, validate_result, parse_identifier, parse, normalize, validate, inspect,
  IdentifierKind, ParsedIdentifier, IdentityInspection,
}

abbrev pub value_result : Result ParsedIdentifier → Result Text
value_result (ok parsed) = ok (parsed_value parsed)
value_result (err e) = err e

-- What `inspect` answers for a text, by what `parse` answers.
unfoldable pub IsInspectionOf : Text → Result ParsedIdentifier → Result IdentityInspection → Type 0
IsInspectionOf value (ok parsed) answer = answer ≡ ok (inspect_parsed parsed)
IsInspectionOf value (err (identifold_error code)) answer =
    (inspection : IdentityInspection) × (answer ≡ ok inspection)
    × IsRefusal (detect_identifier_kind value) code inspection
IsInspectionOf value (err (boundary_error code)) answer = answer ≡ err (boundary_error code)
IsInspectionOf value (err (foreign e)) answer = answer ≡ err (foreign e)

inspect_result-agrees :
    (value : Text) (kind : IdentifierKind) (r : Result ParsedIdentifier)
    → detect_identifier_kind value ≡ some kind
    → IsInspectionOf value r (inspect_result kind r)
unfolding IsInspectionOf
inspect_result-agrees value kind (ok parsed) h = refl
inspect_result-agrees value kind (err (identifold_error code)) h =
    (_, refl, rw h (inspect_error-IsRefusal kind code))
inspect_result-agrees value kind (err (boundary_error code)) h = refl
inspect_result-agrees value kind (err (foreign e)) h = refl

unknown_is :
    (value : Text)
    → detect_identifier_kind value ≡ none
    → IsInspectionOf value (fail invalid_kind) (ok unknown_inspection)
unfolding IsInspectionOf IsRefusal
unknown_is value e = (
  unknown_inspection,
  refl,
  rw e (
    refl,
    refl,
    refl,
    refl,
    refl,
    refl,
    refl,
    (λ h. cc h, λ (h, _). cc h),
    (λ h. cc h),
    (λ h. cc h, λ (h, _, _). cc h),
    (λ h. cc h, λ h. cc h),
  ),
)

module _ (uuid : UuidLibrary) (type_id : TypeIdLibrary) (registry : NamespaceRegistry) where
  normalize-parse :
      (value : Text)
      → normalize uuid type_id registry value ≡ value_result (parse uuid type_id registry value)
  unfolding normalize parse
  normalize-parse value = elim (Result-cases (classify_identifier value)) [
    | inl (kind, e) ↦ rw e (value-again (parse_identifier uuid type_id registry value kind))
    | inr (t, e) ↦ rw e refl
  ]
    where
      value-again :
          (r : Result ParsedIdentifier)
          → (r >>= λ parsed. ok (parsed_value parsed)) ≡ value_result r
      value-again (ok parsed) = refl
      value-again (err e) = refl

  parse-detected :
      (value : Text) (kind : IdentifierKind)
      → detect_identifier_kind value ≡ some kind
      → (parse uuid type_id registry value ≡ parse_identifier uuid type_id registry value kind)
        × (inspect uuid type_id registry value
            ≡ inspect_result kind (parse_identifier uuid type_id registry value kind))
  unfolding parse inspect classify_identifier
  parse-detected value kind e = (rw (e, parse, classify_identifier), rw (e, inspect))

  parse-undetected :
      (value : Text)
      → detect_identifier_kind value ≡ none
      → (parse uuid type_id registry value ≡ fail invalid_kind)
        × (inspect uuid type_id registry value ≡ ok unknown_inspection)
  unfolding parse inspect classify_identifier
  parse-undetected value e = (rw (e, parse, classify_identifier), rw (e, inspect))

  inspect-parse :
      (value : Text)
      → IsInspectionOf value
          (parse uuid type_id registry value)
          (inspect uuid type_id registry value)
  inspect-parse value = elim (Option-cases (detect_identifier_kind value)) [
    | inl e ↦
        let (parses, inspects) = parse-undetected value e in
        rw (parses, inspects) (unknown_is value e)
    | inr (kind, e) ↦
        let (parses, inspects) = parse-detected value kind e in
        rw (parses, inspects)
          (inspect_result-agrees value kind (parse_identifier uuid type_id registry value kind) e)
  ]

  pub result_of_parse :
      (value : Text)
      → (normalize uuid type_id registry value ≡ value_result (parse uuid type_id registry value))
        × (validate uuid type_id registry value
            ≡ validate_result (parse uuid type_id registry value))
        × IsInspectionOf value
            (parse uuid type_id registry value)
            (inspect uuid type_id registry value)
  unfolding validate parse
  result_of_parse value = (normalize-parse value, refl, inspect-parse value)
