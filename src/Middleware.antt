-- ===== src/Middleware.antt =====
-- middleware.ts: `createIdentifierParser`, the parser for what a request holds. A value of type
-- `unknown` that is no text is `none`.
use identifold.Errors.{
  fail, ◌>>=◌, ok-injective, Code, Result, invalid_identifier, unexpected_identifier_kind,
  identifold_error, boundary_error, foreign, ok, err,
}
use identifold.Machine.Defs.{UuidLibrary}
use identifold.Prelude.{
  ◌≡◌, sym, ap, ◌∙◌, ◌≢◌, ◌↔◌, inl, inr, Bool, true, false, Option, none, some, if◌then◌else◌,
  Bool-cases, Text,
}
use identifold.Public.Defs.{TypeIdLibrary}
use identifold.Registry.{NamespaceRegistry}
use identifold.Service.Identify.{
  mid, pid, ref, parsed_kind, parse, IdentifierKind, ParsedIdentifier,
}

same_kind : IdentifierKind → IdentifierKind → Bool
same_kind mid mid = true
same_kind pid pid = true
same_kind ref ref = true
same_kind _ _ = false

-- `expectedKind === undefined || parsed.kind === expectedKind`
pub is_expected_kind : Option IdentifierKind → ParsedIdentifier → Bool
is_expected_kind none parsed = true
is_expected_kind (some kind) parsed = same_kind (parsed_kind parsed) kind

-- `catch (error)`
abbrev as_boundary_error : Result ParsedIdentifier → Result ParsedIdentifier
as_boundary_error (ok parsed) = ok parsed
as_boundary_error (err (boundary_error code)) = err (boundary_error code)
as_boundary_error (err (identifold_error code)) = err (boundary_error invalid_identifier)
as_boundary_error (err (foreign e)) = err (foreign e)

-- The body of `try`.
abbrev check_kind : Option IdentifierKind → ParsedIdentifier → Result ParsedIdentifier
check_kind expected parsed =
    if is_expected_kind expected parsed
    then ok parsed
    else err (boundary_error unexpected_identifier_kind)

module _ (uuid : UuidLibrary) (type_id : TypeIdLibrary) (registry : NamespaceRegistry) where
  pub create_identifier_parser : Option IdentifierKind → Option Text → Result ParsedIdentifier
  create_identifier_parser expected none = err (boundary_error invalid_identifier)
  create_identifier_parser expected (some value) =
      as_boundary_error (parse uuid type_id registry value >>= check_kind expected)

  check_kind_iff :
      (expected : Option IdentifierKind) (r : Result ParsedIdentifier) (parsed : ParsedIdentifier)
      → (as_boundary_error (r >>= check_kind expected) ≡ ok parsed)
        ↔ ((r ≡ ok parsed) × (is_expected_kind expected parsed ≡ true))
  check_kind_iff expected (ok p) parsed = elim (Bool-cases (is_expected_kind expected p)) [
    | inl holds ↦ (
      λ h. let same = ok-injective (rw holds at h) in (ap ok same, rw (← same) holds),
      λ (same, _). rw (holds, ok-injective same),
    )
    | inr fails ↦ (
      λ h. cc (rw fails at h),
      λ (same, holds).
          let expects : is_expected_kind expected p ≡ true = rw (ok-injective same) holds in
          cc (sym fails ∙ expects),
    )
  ]
  check_kind_iff expected (err (identifold_error c)) parsed = (λ h. cc, λ (h, _). cc)
  check_kind_iff expected (err (boundary_error c)) parsed = (λ h. cc, λ (h, _). cc)
  check_kind_iff expected (err (foreign e)) parsed = (λ h. cc, λ (h, _). cc)

  no_code :
      (expected : Option IdentifierKind) (r : Result ParsedIdentifier) (code : Code)
      → as_boundary_error (r >>= check_kind expected) ≢ fail code
  no_code expected (ok p) code h = elim (Bool-cases (is_expected_kind expected p)) [
    | inl holds ↦ cc (rw holds at h)
    | inr fails ↦ cc (rw fails at h)
  ]
  no_code expected (err (identifold_error c)) code h = cc
  no_code expected (err (boundary_error c)) code h = cc
  no_code expected (err (foreign e)) code h = cc

  -- The parser for requests returns exactly what `parse` reads of a text, if it is of the expected
  -- kind or no kind is expected, and it throws no `IdentifoldError`.
  pub create_identifier_parser_iff :
      (expected : Option IdentifierKind) (value : Text) (parsed : ParsedIdentifier) (code : Code)
      → ((create_identifier_parser expected (some value) ≡ ok parsed) ↔ (
          (parse uuid type_id registry value ≡ ok parsed)
          × (is_expected_kind expected parsed ≡ true)))
        × (create_identifier_parser expected (some value) ≢ fail code)
  unfolding create_identifier_parser
  create_identifier_parser_iff expected value parsed code = (
    check_kind_iff expected (parse uuid type_id registry value) parsed,
    no_code expected (parse uuid type_id registry value) code,
  )
