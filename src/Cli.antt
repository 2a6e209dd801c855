-- ===== src/Cli.antt =====
-- cli.ts: the command line. The platform (files, how paths are resolved, the process that runs the
-- conformance suite, the source of machine identifiers) is an argument. What the program prints is a
-- value here; each is an object, so that `write` prints it as JSON whether or not the option asks for
-- it.
use identifold.Errors.{
  ◌>>=◌, Code, Thrown, Result, identifold_error, boundary_error, foreign, ok, err,
}
use identifold.Machine.Defs.{UuidLibrary}
use identifold.Prelude.{
  ℕ, zero, suc, ◌⊎◌, inl, inr, Bool, true, false, Option, none, some, List, [], ◌∷◌, ◌++◌, take,
  ◌==◌, if◌then◌else◌, Text, codes, text_eq, index_of,
}
use identifold.Public.Defs.{public_id_from_machine_id, TypeIdLibrary}
use identifold.Registry.{create_namespace_registry, NamespaceDefinition, NamespaceRegistry}
use identifold.Service.Identify.{normalize, validate, inspect, IdentityInspection}
pub mod Exits

pub record Options : Type 0 where
  pub adapter : Option Text
  json : Bool
  pub registry : Option Text
  pub positional : List Text

abbrev no_options : Options
no_options = record { adapter = none; json = false; registry = none; positional = [] }

abbrev with_adapter : Option Text → Options → Options
with_adapter path options = record {
  adapter = path;
  json = options.json;
  registry = options.registry;
  positional = options.positional;
}

abbrev with_registry : Option Text → Options → Options
with_registry path options = record {
  adapter = options.adapter;
  json = options.json;
  registry = path;
  positional = options.positional;
}

abbrev with_json : Options → Options
with_json options = record {
  adapter = options.adapter;
  json = true;
  registry = options.registry;
  positional = options.positional;
}

abbrev with_positional : Text → Options → Options
with_positional argument options = record {
  adapter = options.adapter;
  json = options.json;
  registry = options.registry;
  positional = options.positional ++ argument ∷ [];
}

-- The loop of `parseOptions`. The value of an option is the next argument, or `undefined` at the end.
pub data Argument : Type 0 where
  json_flag adapter_option registry_option positional_argument : Argument

abbrev argument_kind : Text → Argument
argument_kind argument =
    if text_eq argument (codes "--json")
    then json_flag
    else if text_eq argument (codes "--adapter")
    then adapter_option
    else if text_eq argument (codes "--registry")
    then registry_option
    else positional_argument

unfoldable mutual
  pub read_options : Options → List Text → Options
  read_options options [] = options
  read_options options (argument ∷ rest) = elim (argument_kind argument) [
    | json_flag ↦ read_options (with_json options) rest
    | adapter_option ↦ read_value (λ path. with_adapter path options) rest
    | registry_option ↦ read_value (λ path. with_registry path options) rest
    | positional_argument ↦ read_options (with_positional argument options) rest
  ]

  read_value : (Option Text → Options) → List Text → Options
  read_value set [] = set none
  read_value set (value ∷ rest) = read_options (set (some value)) rest

unfoldable pub parse_options : List Text → Options
parse_options arguments = read_options no_options arguments

-- The text under `error` of what is printed.
pub data ErrorName : Type 0 where
  invalid_command invalid_input conformance_failed configuration_error runtime_error : ErrorName
  coded : Code → ErrorName

pub data Written (R : Type 0) : Type 0 where
  failure : ErrorName → Written R
  made : Text → Text → Written R
  inspected : IdentityInspection → Written R
  validity : Bool → Written R
  normalized : Text → Written R
  reported : R → Written R

-- An exit code, and what is printed.
abbrev pub Exit : Type 0 → Type 0
Exit R = ℕ × Written R

-- `ConfigurationError`, or anything else that is thrown.
pub data CliError : Type 0 where
  configuration : CliError
  thrown : Thrown → CliError

-- What `JSON.parse` returns, as far as it is looked at. The elements are cast to definitions.
pub data ParsedFile : Type 0 where
  definition_array : List NamespaceDefinition → ParsedFile
  object_with_namespaces : List NamespaceDefinition → ParsedFile
  any_other : ParsedFile

-- The exit status of the process, or `null`, and what `JSON.parse` makes of its output.
pub record Spawned (R : Type 0) : Type 0 where
  pub status : Option ℕ
  pub report : Result R

pub record Platform (W R : Type 0) : Type 0 where
  pub create_machine_id : W → Result Text × W
  pub read_json : Text → W → Result ParsedFile × W
  pub spawn : Option Text → W → Spawned R × W

pub data Command : Type 0 where
  inspect_command validate_command normalize_command : Command

abbrev definitions_of : ParsedFile → Option (List NamespaceDefinition)
definitions_of (definition_array definitions) = some definitions
definitions_of (object_with_namespaces definitions) = some definitions
definitions_of any_other = none

-- `catch (error)` in `loadRegistry`.
abbrev configured : {A : Type 0} → Result A → CliError ⊎ A
configured (ok a) = inr a
configured (err (identifold_error code)) = inl (thrown (identifold_error code))
configured (err (boundary_error code)) = inl configuration
configured (err (foreign e)) = inl configuration

abbrev registry_of_file : ParsedFile → CliError ⊎ NamespaceRegistry
registry_of_file parsed = elim (definitions_of parsed) [
  | none ↦ inl configuration
  | some definitions ↦ configured (create_namespace_registry definitions)
]

-- The registry of the prefix before the first `_`, if there is one.
abbrev prefix_definitions : Text → List NamespaceDefinition
prefix_definitions value = elim (index_of value b'_') [
  | none ↦ []
  | some zero ↦ []
  | some (suc n) ↦ record { public_prefix = take (suc n) value; reference = none } ∷ []
]

abbrev pub or_thrown : {A : Type 0} → Result A → CliError ⊎ A
or_thrown (ok a) = inr a
or_thrown (err e) = inl (thrown e)

module _ {R : Type 0} where
  pub handle_error : CliError → Exit R
  handle_error configuration = (3, failure configuration_error)
  handle_error (thrown (identifold_error code)) = (2, failure (coded code))
  handle_error (thrown (boundary_error code)) = (3, failure runtime_error)
  handle_error (thrown (foreign e)) = (3, failure runtime_error)

  abbrev pub exit_of : CliError ⊎ Exit R → Exit R
  exit_of (inl e) = handle_error e
  exit_of (inr exit) = exit

  abbrev pub inspection_exit : IdentityInspection → Result (Exit R)
  inspection_exit inspection = ok (if inspection.valid then 0 else 2, inspected inspection)

  abbrev pub validity_exit : Bool → Result (Exit R)
  validity_exit valid = ok (if valid then 0 else 2, validity valid)

  abbrev pub normalized_exit : Text → Result (Exit R)
  normalized_exit text = ok (0, normalized text)

  abbrev conformance_exit : Spawned R → Result (Exit R)
  conformance_exit spawned = elim spawned.status [
    | none ↦ ok (3, failure configuration_error)
    | some status ↦
        if status == 0
        then (spawned.report >>= λ report. ok (0, reported report))
        else ok (3, failure (if status == 1 then conformance_failed else configuration_error))
  ]

module _ (uuid : UuidLibrary) (type_id : TypeIdLibrary) {W R : Type 0}
    (platform : Platform W R) where
  abbrev made_public : Text → Text → Result (Exit R)
  made_public namespace mid =
      public_id_from_machine_id uuid type_id mid namespace >>= λ pid. ok (0, made mid pid)

  unfoldable create_new : Options → W → Exit R × W
  create_new options w = elim options.positional [
    | namespace ∷ [] ↦
        let (r, w1) = platform.create_machine_id w in
        (exit_of (or_thrown (r >>= made_public namespace)), w1)
    | _ ↦ ((2, failure invalid_input), w)
  ]

  unfoldable pub load_registry : Option Text → Text → W → (CliError ⊎ NamespaceRegistry) × W
  load_registry none value w = (or_thrown (create_namespace_registry (prefix_definitions value)), w)
  load_registry (some path) value w =
      let (r, w1) = platform.read_json path w in
      (elim (configured r) [ inl e ↦ inl e | inr parsed ↦ registry_of_file parsed ], w1)

  -- The command on the service.
  unfoldable pub answer : Command → NamespaceRegistry → Text → Result (Exit R)
  answer inspect_command registry value = inspect uuid type_id registry value >>= inspection_exit
  answer validate_command registry value = validate uuid type_id registry value >>= validity_exit
  answer normalize_command registry value =
      normalize uuid type_id registry value >>= normalized_exit

  abbrev pub answer_loaded : Command → Text → (CliError ⊎ NamespaceRegistry) × W → Exit R × W
  answer_loaded command value (inl e, w) = (handle_error e, w)
  answer_loaded command value (inr registry, w) =
      (exit_of (or_thrown (answer command registry value)), w)

  unfoldable pub process_identifier : Command → Options → W → Exit R × W
  process_identifier command options w = elim options.positional [
    | value ∷ [] ↦ answer_loaded command value (load_registry options.registry value w)
    | _ ↦ ((2, failure invalid_input), w)
  ]

  unfoldable run_conformance : Options → W → Result (Exit R) × W
  run_conformance options w =
      let (spawned, w1) = platform.spawn options.adapter w in (conformance_exit spawned, w1)

  abbrev exits : Exit R × W → Result (Exit R) × W
  exits (exit, w) = (ok exit, w)

  abbrev run_main : Text → Options → W → Result (Exit R) × W
  run_main command options w =
      if text_eq command (codes "conformance")
      then run_conformance options w
      else if text_eq command (codes "new")
      then exits (create_new options w)
      else if text_eq command (codes "inspect")
      then exits (process_identifier inspect_command options w)
      else if text_eq command (codes "validate")
      then exits (process_identifier validate_command options w)
      else if text_eq command (codes "normalize")
      then exits (process_identifier normalize_command options w)
      else (ok (2, failure invalid_command), w)

  -- The exit code of the process is the first component; an error that is thrown ends it with 1.
  unfoldable main : List Text → W → Result (Exit R) × W
  main [] w = (ok (2, failure invalid_command), w)
  main (command ∷ arguments) w = run_main command (parse_options arguments) w
