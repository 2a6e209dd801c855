-- ===== src/Zod.antt =====
-- zod.ts: the schemas for the library zod, which calls the function given to `transform` on a text.
-- What that function returns is a value, or the message of the issue that it adds.
use identifold.Errors.{
  fail, ◌>>=◌, guard, >>=-eq-ok, ok-injective, guard-passes, Code, Thrown, Result, invalid_pid,
  invalid_public_prefix, invalid_ref, identifold_error, boundary_error, foreign, ok, err,
}
use identifold.Machine.{parse_machine_id_idempotent}
use identifold.Machine.Defs.{parse_machine_id, UuidLibrary}
use identifold.Prelude.{
  ◌≡◌, refl, sym, ap, ◌∙◌, ◌↔◌, ◌⊎◌, inl, inr, Bool, true, false, not, Option, none, some,
  if◌then◌else◌, Bool-cases, Text, text_eq, text_eq_iff, to_lower,
}
use identifold.Public.Defs.{
  or_invalid_pid, is_expected, parse_public_id, TypeIdLibrary, ParsedPublicId,
}
use identifold.Reference.Canonical.{parse_reference_canonical}
use identifold.Reference.Parse.{parse_reference, ParsedReference}
use identifold.Registry.{is_empty, NamespaceRegistry}
use identifold.Registry.WellFormed.{IsWellFormed}

pub data IssueMessage : Type 0 where
  code_message : Code → IssueMessage
  invalid_identifier_message : IssueMessage

-- `addIdentifierIssue`
abbrev identifier_issue : Thrown → IssueMessage
identifier_issue (identifold_error code) = code_message code
identifier_issue (boundary_error code) = invalid_identifier_message
identifier_issue (foreign e) = invalid_identifier_message

-- `catch (error)`
abbrev or_issue : {A : Type 0} → Result A → IssueMessage ⊎ A
or_issue (ok value) = inr value
or_issue (err e) = inl (identifier_issue e)

-- `namespace !== undefined && parsed.namespace !== namespace`
abbrev is_other_namespace : Option Text → Text → Bool
is_other_namespace none actual = false
is_other_namespace (some namespace) actual = not (text_eq actual namespace)

unfoldable pub reference_schema : NamespaceRegistry → Option Text → Text → IssueMessage ⊎ Text
reference_schema registry namespace value = or_issue (
    parse_reference value registry >>= λ parsed.
    if is_other_namespace namespace parsed.namespace then fail invalid_ref else ok parsed.value)

module _ (uuid : UuidLibrary) (type_id : TypeIdLibrary) where
  unfoldable pub machine_id_schema : Text → IssueMessage ⊎ Text
  machine_id_schema value = or_issue (parse_machine_id uuid value)

  unfoldable pub public_id_schema : Text → Text → IssueMessage ⊎ Text
  public_id_schema namespace value = or_issue (
      parse_public_id uuid type_id value none >>= λ parsed.
      if not (text_eq parsed.namespace namespace) then fail invalid_pid else ok parsed.value)

or_issue-eq-inr : {A : Type 0} {a : A} (r : Result A) → or_issue r ≡ inr a → r ≡ ok a
or_issue-eq-inr (ok b) h = cc
or_issue-eq-inr (err e) h = cc

machine_id_schema_iff :
    (uuid : UuidLibrary) (type_id : TypeIdLibrary) (value result : Text)
    → (machine_id_schema uuid type_id value ≡ inr result)
      ↔ ((parse_machine_id uuid value ≡ ok result) × (parse_machine_id uuid result ≡ ok result))
unfolding machine_id_schema
machine_id_schema_iff uuid type_id value result = (
  λ h. let read = or_issue-eq-inr _ h in (read, parse_machine_id_idempotent uuid value result read),
  λ (read, _). ap or_issue read,
)

expected_iff :
    (namespace : Option Text) (actual : Text)
    → (is_other_namespace namespace actual ≡ false)
      ↔ ((namespace ≡ none) ⊎ (namespace ≡ some actual))
expected_iff none actual = (λ h. inl refl, λ h. refl)
expected_iff (some namespace) actual = (
  λ h. elim (Bool-cases (text_eq actual namespace)) [
    | inl same ↦ inr (ap some (sym ((text_eq_iff actual namespace).0 same)))
    | inr other ↦ cc (rw other at h)
  ],
  λ h. elim h [
    | inl e ↦ cc e
    | inr e ↦
        let same : actual ≡ namespace = cc e in rw ((text_eq_iff actual namespace).1 same) refl
  ],
)

reference_schema_iff :
    (registry : NamespaceRegistry) (namespace : Option Text) (value result : Text)
    → IsWellFormed registry
    → (reference_schema registry namespace value ≡ inr result) ↔ (
        (parsed : ParsedReference) × (parse_reference value registry ≡ ok parsed)
        × (parsed.value ≡ result)
        × (parse_reference result registry ≡ ok parsed)
        × ((namespace ≡ none) ⊎ (namespace ≡ some parsed.namespace)))
unfolding reference_schema
reference_schema_iff registry namespace value result w = (
  λ h.
      let (parsed, read, end) =
        >>=-eq-ok (parse_reference value registry) _ (or_issue-eq-inr _ h) in
      elim (Bool-cases (is_other_namespace namespace parsed.namespace)) [
        | inl other ↦ cc (rw other at end)
        | inr expected ↦
            let is : parsed.value ≡ result = ok-injective (rw expected at end) in
            (
              parsed,
              read,
              is,
              rw⁻¹ is (parse_reference_canonical registry value parsed w read),
              (expected_iff namespace parsed.namespace).0 expected,
            )
      ],
  λ (parsed, read, is, _, expected).
      rw (read, (expected_iff namespace parsed.namespace).1 expected, is) refl,
)

-- The namespace of a public identifier that is read, with whatever expectation it meets.
read_expecting :
    (uuid : UuidLibrary) (type_id : TypeIdLibrary) (value : Text) (parsed : ParsedPublicId)
    (expected other : Option Text)
    → parse_public_id uuid type_id value expected ≡ ok parsed
    → (is_expected expected parsed.namespace ≡ true)
      × (parsed.value ≡ value)
      × (is_expected other parsed.namespace ≡ true
          → parse_public_id uuid type_id value other ≡ ok parsed)
unfolding parse_public_id
read_expecting uuid type_id value parsed expected other h =
    let (_, lower, h1) = >>=-eq-ok (guard (text_eq value (to_lower value)) invalid_pid) _ h in
    let (id, text_read, h2) = >>=-eq-ok (or_invalid_pid (type_id.from_string value)) _ h1 in
    let (_, named, h3) =
      >>=-eq-ok (guard (not (is_empty (type_id.get_type id))) invalid_public_prefix) _ h2 in
    let (_, met, h4) =
      >>=-eq-ok (guard (is_expected expected (type_id.get_type id)) invalid_public_prefix) _ h3 in
    let (t, _, h5) = >>=-eq-ok (type_id.to_uuid id) _ h4 in
    let (m, _, h6) = >>=-eq-ok (parse_machine_id uuid t) _ h5 in
    let is : type_id.get_type id ≡ parsed.namespace =
      ap (λ (p : ParsedPublicId). p.namespace) (ok-injective h6) in
    (
      rw⁻¹ is (guard-passes (is_expected expected (type_id.get_type id)) _ met),
      sym (ap (λ (p : ParsedPublicId). p.value) (ok-injective h6)),
      λ meets.
          let meets' : is_expected other (type_id.get_type id) ≡ true = rw is meets in
          rw (lower, text_read, named, meets') h4,
    )

public_id_schema_iff :
    (uuid : UuidLibrary) (type_id : TypeIdLibrary) (namespace value result : Text)
    → (public_id_schema uuid type_id namespace value ≡ inr result) ↔ (
        (result ≡ value)
        × (parsed : ParsedPublicId) × (parse_public_id uuid type_id value (some namespace)
            ≡ ok parsed))
unfolding public_id_schema
public_id_schema_iff uuid type_id namespace value result = (
  λ h.
      let (parsed, read, end) =
        >>=-eq-ok (parse_public_id uuid type_id value none) _ (or_issue-eq-inr _ h) in
      let (_, same, expecting) =
        read_expecting uuid type_id value parsed none (some namespace) read in
      elim (Bool-cases (text_eq parsed.namespace namespace)) [
        | inl expected ↦
            (sym (ok-injective (rw expected at end)) ∙ same, parsed, expecting expected)
        | inr other ↦ cc (rw other at end)
      ],
  λ (is, parsed, read).
      let (expected, same, freely) =
        read_expecting uuid type_id value parsed (some namespace) none read in
      rw (freely refl, expected, same, is) refl,
)

-- In a well-formed registry, the schema for machine identifiers accepts a text with a result exactly
-- if `parseMachineId` reads it with that result, which it reads again; the schema for public
-- identifiers exactly if `parsePublicId` reads it when it expects the schema's namespace, and the
-- result is the text; and the schema for references exactly if `parseReference` reads it, with that
-- result as the value, as a reference of the schema's namespace if there is one, and then it reads
-- the result as the same reference.
pub schemas_iff :
    (uuid : UuidLibrary) (type_id : TypeIdLibrary) (registry : NamespaceRegistry)
    (namespace : Option Text) (pid_namespace value result : Text)
    → IsWellFormed registry
    → ((machine_id_schema uuid type_id value ≡ inr result)
        ↔ ((parse_machine_id uuid value ≡ ok result) × (parse_machine_id uuid result ≡ ok result)))
      × ((public_id_schema uuid type_id pid_namespace value ≡ inr result) ↔ (
          (result ≡ value)
          × (parsed : ParsedPublicId) × (parse_public_id uuid type_id value (some pid_namespace)
              ≡ ok parsed)))
      × ((reference_schema registry namespace value ≡ inr result) ↔ (
          (parsed : ParsedReference) × (parse_reference value registry ≡ ok parsed)
          × (parsed.value ≡ result)
          × (parse_reference result registry ≡ ok parsed)
          × ((namespace ≡ none) ⊎ (namespace ≡ some parsed.namespace))))
schemas_iff uuid type_id registry namespace pid_namespace value result w = (
  machine_id_schema_iff uuid type_id value result,
  public_id_schema_iff uuid type_id pid_namespace value result,
  reference_schema_iff registry namespace value result w,
)
