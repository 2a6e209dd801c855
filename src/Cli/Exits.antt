-- ===== src/Cli/Exits.antt =====
-- The exit codes of the command line (cli.ts).
use mathlib.Core.Path.{subst}
use identifold.Cli.{
  Exit, or_thrown, handle_error, exit_of, inspection_exit, validity_exit, normalized_exit,
  load_registry, answer, answer_loaded, process_identifier, Options, CliError, Platform, Command,
  configuration, thrown, inspect_command, validate_command, normalize_command,
}
use identifold.Errors.{
  ◌>>=◌, Result-cases, Thrown, Result, identifold_error, boundary_error, foreign, ok, err,
}
use identifold.Machine.Defs.{UuidLibrary}
use identifold.Prelude.{
  ℕ, ◌≤◌, ◌≡◌, refl, sym, ap, ◌∙◌, ◌↔◌, ◌⊎◌, inl, inr, true, List, [], ◌∷◌, arith, Text,
}
use identifold.Public.Defs.{TypeIdLibrary}
use identifold.Registry.{NamespaceRegistry}
use identifold.Service.Agreement.Refusal.{IsRefusal}
use identifold.Service.Agreement.Results.{value_result, IsInspectionOf, result_of_parse}
use identifold.Service.Identify.{
  inspect_parsed, validate_result, parse, normalize, validate, inspect, ParsedIdentifier, of_mid,
  of_pid, of_ref,
}

inspect_parsed-valid : (parsed : ParsedIdentifier) → (inspect_parsed parsed).valid ≡ true
unfolding inspect_parsed
inspect_parsed-valid (of_mid value) = refl
inspect_parsed-valid (of_pid parsed) = refl
inspect_parsed-valid (of_ref parsed) = refl

-- The exit code of a command, by what the service answers.
by_answer :
    {R A : Type 0} (next : A → Result (Exit R)) (P : ℕ → Type 0) {r r' : Result A}
    → r ≡ r'
    → P (exit_of (or_thrown (r' >>= next))).0
    → P (exit_of (or_thrown (r >>= next))).0
by_answer next P is holds = subst (λ x. P (exit_of (or_thrown (x >>= next))).0) (sym is) holds

module _ (uuid : UuidLibrary) (type_id : TypeIdLibrary) {W R : Type 0}
    (platform : Platform W R) where
  abbrev exit_code : Command → NamespaceRegistry → Text → ℕ
  exit_code command registry value =
      (exit_of (or_thrown (answer uuid type_id platform command registry value))).0

  module _ (registry : NamespaceRegistry) (value : Text) where
    inspection_of :
        (r : Result ParsedIdentifier)
        → parse uuid type_id registry value ≡ r
        → IsInspectionOf value r (inspect uuid type_id registry value)
    inspection_of r is =
        let (_, _, inspected_as) = result_of_parse uuid type_id registry value in
        subst
          (λ (x : Result ParsedIdentifier).
            IsInspectionOf value x (inspect uuid type_id registry value))
          is inspected_as

    normalizes :
        normalize uuid type_id registry value ≡ value_result (parse uuid type_id registry value)
    normalizes = (result_of_parse uuid type_id registry value).0

    validated :
        validate uuid type_id registry value ≡ validate_result (parse uuid type_id registry value)
    validated = (result_of_parse uuid type_id registry value).1

    exit_code-ok :
        (command : Command) (parsed : ParsedIdentifier)
        → parse uuid type_id registry value ≡ ok parsed
        → exit_code command registry value ≡ 0
    unfolding answer IsInspectionOf
    exit_code-ok inspect_command parsed read =
        let is : inspect uuid type_id registry value ≡ ok (inspect_parsed parsed) =
          inspection_of (ok parsed) read in
        by_answer inspection_exit (λ n. n ≡ 0) is (rw (inspect_parsed-valid parsed) refl)
    exit_code-ok validate_command parsed read =
        by_answer validity_exit (λ n. n ≡ 0) (validated ∙ ap validate_result read) refl
    exit_code-ok normalize_command parsed read =
        by_answer normalized_exit (λ n. n ≡ 0) (normalizes ∙ ap value_result read) refl

    exit_code-err :
        (command : Command) (e : Thrown)
        → parse uuid type_id registry value ≡ err e
        → 2 ≤ exit_code command registry value
    unfolding answer handle_error IsInspectionOf IsRefusal
    exit_code-err inspect_command (identifold_error code) failed =
        let (inspection, is, refusal) = inspection_of (err (identifold_error code)) failed in
        by_answer inspection_exit (λ n. 2 ≤ n) is (rw refusal.0 (omega arith))
    exit_code-err inspect_command (boundary_error code) failed =
        let is = inspection_of (err (boundary_error code)) failed in
        by_answer inspection_exit (λ n. 2 ≤ n) is (omega arith)
    exit_code-err inspect_command (foreign e) failed =
        let is = inspection_of (err (foreign e)) failed in
        by_answer inspection_exit (λ n. 2 ≤ n) is (omega arith)
    exit_code-err validate_command (identifold_error code) failed =
        by_answer validity_exit (λ n. 2 ≤ n) (validated ∙ ap validate_result failed) (omega arith)
    exit_code-err validate_command (boundary_error code) failed =
        by_answer validity_exit (λ n. 2 ≤ n) (validated ∙ ap validate_result failed) (omega arith)
    exit_code-err validate_command (foreign e) failed =
        by_answer validity_exit (λ n. 2 ≤ n) (validated ∙ ap validate_result failed) (omega arith)
    exit_code-err normalize_command (identifold_error code) failed =
        by_answer normalized_exit (λ n. 2 ≤ n) (normalizes ∙ ap value_result failed) (omega arith)
    exit_code-err normalize_command (boundary_error code) failed =
        by_answer normalized_exit (λ n. 2 ≤ n) (normalizes ∙ ap value_result failed) (omega arith)
    exit_code-err normalize_command (foreign e) failed =
        by_answer normalized_exit (λ n. 2 ≤ n) (normalizes ∙ ap value_result failed) (omega arith)

    exit_code_iff :
        (command : Command)
        → (exit_code command registry value ≡ 0)
          ↔ ((parsed : ParsedIdentifier) × (parse uuid type_id registry value ≡ ok parsed))
    exit_code_iff command = (
      λ zero_code. elim (Result-cases (parse uuid type_id registry value)) [
        | inl read ↦ read
        | inr (e, failed) ↦
            let high = exit_code-err command e failed in absurd (omega (arith, zero_code, high))
      ],
      λ (parsed, read). exit_code-ok command parsed read,
    )

  handle_error-code : (e : CliError) → 2 ≤ (handle_error {R = R} e).0
  unfolding handle_error
  handle_error-code configuration = omega arith
  handle_error-code (thrown (identifold_error code)) = omega arith
  handle_error-code (thrown (boundary_error code)) = omega arith
  handle_error-code (thrown (foreign e)) = omega arith

  -- The registry is loaded, and `parse` reads the argument in it.
  abbrev pub ReadsLoaded : Text → (CliError ⊎ NamespaceRegistry) × W → Type 0
  ReadsLoaded value p =
      (registry : NamespaceRegistry) × (w' : W) × (p ≡ (inr registry, w'))
      × (parsed : ParsedIdentifier) × (parse uuid type_id registry value ≡ ok parsed)

  answer_loaded_iff :
      (command : Command) (value : Text) (p : (CliError ⊎ NamespaceRegistry) × W)
      → ((answer_loaded uuid type_id platform command value p).0.0 ≡ 0) ↔ ReadsLoaded value p
  answer_loaded_iff command value (inl e, w) = (
    λ zero_code. let high = handle_error-code e in absurd (omega (arith, zero_code, high)),
    λ (registry, w', loaded, parsed, read).
        let sides : ◌≡◌ {A = CliError ⊎ NamespaceRegistry} (inl e) (inr registry) =
          ap (λ (p : (CliError ⊎ NamespaceRegistry) × W). p.0) loaded in
        cc sides,
  )
  answer_loaded_iff command value (inr registry, w) = (
    λ zero_code.
        let (parsed, read) = (exit_code_iff registry value command).0 zero_code in
        (registry, w, refl, parsed, read),
    λ (registry', w', loaded, parsed, read).
        let sides : ◌≡◌ {A = CliError ⊎ NamespaceRegistry} (inr registry) (inr registry') =
          ap (λ (p : (CliError ⊎ NamespaceRegistry) × W). p.0) loaded in
        let same_registry : registry ≡ registry' = cc sides in
        (exit_code_iff registry value command).1 (parsed, rw same_registry read),
  )

  -- The commands `inspect`, `validate` and `normalize` exit with 0 in the same cases: when there is one
  -- argument, the registry is loaded, and `parse` reads the argument in it.
  pub process_identifier_iff :
      (command : Command) (options : Options) (w : W)
      → ((process_identifier uuid type_id platform command options w).0.0 ≡ 0) ↔ (
          (value : Text) × (options.positional ≡ value ∷ [])
          × ReadsLoaded value (load_registry uuid type_id platform options.registry value w))
  unfolding process_identifier
  process_identifier_iff command options w = by_arguments options.positional refl
    where
      by_arguments :
          (arguments : List Text)
          → options.positional ≡ arguments
          → ((process_identifier uuid type_id platform command options w).0.0 ≡ 0) ↔ (
              (value : Text) × (options.positional ≡ value ∷ [])
              × ReadsLoaded value (load_registry uuid type_id platform options.registry value w))
      by_arguments [] is = (
        λ zero_code. absurd (omega (arith, rw (process_identifier, is) at zero_code)),
        λ (value, one, _). cc (is, one),
      )
      by_arguments (value ∷ []) is =
          let (to, from) =
            answer_loaded_iff command value
              (load_registry uuid type_id platform options.registry value w) in
          (
            λ zero_code. (value, is, to (rw (process_identifier, is) at zero_code)),
            λ (value', one, loaded).
                let same_value : value' ≡ value = cc (is, one) in
                let loaded' : ReadsLoaded value
                    (load_registry uuid type_id platform options.registry value w) =
                  subst
                    (λ v. ReadsLoaded v (load_registry uuid type_id platform options.registry v w))
                    same_value loaded in
                rw (process_identifier, is) (from loaded'),
          )
      by_arguments (value ∷ next ∷ more) is = (
        λ zero_code. absurd (omega (arith, rw (process_identifier, is) at zero_code)),
        λ (value', one, _). cc (is, one),
      )
