-- ===== src/Tests/Clients.antt =====
-- The command line, the schemas and the OpenAPI components.
use mathlib.Core.List.{Memᴰ}
use identifold.Cli.{
  read_options, parse_options, load_registry, answer, process_identifier, Options, Platform,
  normalized, any_other, normalize_command,
}
use identifold.Cli.Exits.{ReadsLoaded, process_identifier_iff}
use identifold.Errors.{ok}
use identifold.Machine.Defs.{parse_machine_id}
use identifold.OpenApi.{create_open_api_components, is_sorted, create_open_api_components_lem}
use identifold.Prelude.{
  ℕ, ◌+◌, ◌≡◌, refl, ◌↔◌, ◌⊎◌, inr, true, none, some, [], ◌∷◌, Text, codes, upper_unit, lower_unit,
}
use identifold.Public.Defs.{parse_public_id, ParsedPublicId}
use identifold.Reference.CheckSymbol.{
  data_value, check_symbol_at, reference_remainder, calculate_reference_check_symbol,
}
use identifold.Reference.Format.{format_reference}
use identifold.Reference.Hyphens.{remove_hyphens, split_hyphens, join_hyphens, groups, check_groups}
use identifold.Reference.Parse.{
  is_reference_text, locate_namespace, in_data_alphabet, in_check_alphabet, normalize_payload,
  parse_random_reference, parse_located, parse_reference, ParsedReference,
}
use identifold.Registry.{
  upper_case, get_by_public_prefix, is_type_id_prefix, register_all, create_namespace_registry,
  RegisteredNamespaceDefinition,
}
use identifold.Samples.{
  sample_registry, sample_registry-IsWellFormed, sample_uuid, sample_mid, sample_type_id,
}
use identifold.Service.Identify.{
  has_uuid_shape, detect_identifier_kind, classify_identifier, parse_identifier, normalize,
}
use identifold.Zod.{reference_schema, machine_id_schema, public_id_schema, schemas_iff}

abbrev empty_platform : Platform ℕ ℕ
empty_platform = record {
  create_machine_id = λ w. (ok sample_mid, w);
  read_json = λ path w. (ok any_other, w);
  spawn = λ adapter w. (record { status = some 0; report = ok 0 }, w + 1);
}

abbrev sample_options : Options
sample_options = parse_options (codes "--json" ∷ sample_mid ∷ [])

process_identifier_iff_example :
    ((process_identifier sample_uuid sample_type_id empty_platform normalize_command sample_options
        0).0.0
      ≡ 0)
    ↔ ((value : Text) × (sample_options.positional ≡ value ∷ [])
        × ReadsLoaded sample_uuid sample_type_id empty_platform value (
            load_registry sample_uuid sample_type_id empty_platform sample_options.registry value
              0))
process_identifier_iff_example =
    process_identifier_iff sample_uuid sample_type_id empty_platform normalize_command
      sample_options 0

-- The command exits with 0.
sample_run :
    process_identifier sample_uuid sample_type_id empty_platform normalize_command sample_options 0
    ≡ ((0, normalized sample_mid), 0)
unfolding process_identifier parse_options read_options load_registry create_namespace_registry
    register_all answer normalize classify_identifier detect_identifier_kind has_uuid_shape
    split_hyphens parse_identifier parse_machine_id lower_unit
sample_run = refl

create_open_api_components_lem_example :
    (is_sorted (create_open_api_components sample_registry).namespaces ≡ true)
    × (is_sorted (create_open_api_components sample_registry).prefixes ≡ true)
    × (Memᴰ (codes "order") (create_open_api_components sample_registry).namespaces ↔ (
        (d : RegisteredNamespaceDefinition) × (get_by_public_prefix sample_registry (codes "order")
          ≡ some d)))
create_open_api_components_lem_example =
    create_open_api_components_lem sample_registry (codes "order") sample_registry-IsWellFormed

abbrev sample_pid : Text
sample_pid = codes "order_01890a5d-ac96-774b-bcce-b302099a8057"

abbrev upper_mid : Text
upper_mid = codes "01890A5D-AC96-774B-BCCE-B302099A8057"

mid_accepted : machine_id_schema sample_uuid sample_type_id upper_mid ≡ inr sample_mid
unfolding machine_id_schema parse_machine_id has_uuid_shape split_hyphens lower_unit
mid_accepted = refl

pid_accepted :
    public_id_schema sample_uuid sample_type_id (codes "order") sample_pid ≡ inr sample_pid
unfolding public_id_schema parse_public_id is_type_id_prefix parse_machine_id lower_unit
    has_uuid_shape split_hyphens
pid_accepted = refl

reference_accepted :
    reference_schema sample_registry (some (codes "order")) (codes "ord-o123456789p")
    ≡ inr (codes "ORD-0123-4567-89-P")
unfolding reference_schema parse_reference is_reference_text locate_namespace upper_case upper_unit
    parse_located parse_random_reference remove_hyphens check_groups normalize_payload
    in_data_alphabet in_check_alphabet calculate_reference_check_symbol reference_remainder
    data_value check_symbol_at format_reference groups join_hyphens
reference_accepted = refl

schemas_iff_example :
    ((machine_id_schema sample_uuid sample_type_id (codes "ord-o123456789p")
        ≡ inr (codes "ORD-0123-4567-89-P"))
      ↔ ((parse_machine_id sample_uuid (codes "ord-o123456789p") ≡ ok (codes "ORD-0123-4567-89-P"))
          × (parse_machine_id sample_uuid (codes "ORD-0123-4567-89-P")
              ≡ ok (codes "ORD-0123-4567-89-P"))))
    × ((public_id_schema sample_uuid sample_type_id (codes "order") (codes "ord-o123456789p")
          ≡ inr (codes "ORD-0123-4567-89-P"))
        ↔ ((codes "ORD-0123-4567-89-P" ≡ codes "ord-o123456789p")
            × (parsed : ParsedPublicId) × (parse_public_id sample_uuid sample_type_id
                  (codes "ord-o123456789p")
                  (some (codes "order"))
                ≡ ok parsed)))
    × ((reference_schema sample_registry (some (codes "order")) (codes "ord-o123456789p")
          ≡ inr (codes "ORD-0123-4567-89-P"))
        ↔ ((parsed : ParsedReference) × (parse_reference (codes "ord-o123456789p") sample_registry
              ≡ ok parsed)
            × (parsed.value ≡ codes "ORD-0123-4567-89-P")
            × (parse_reference (codes "ORD-0123-4567-89-P") sample_registry ≡ ok parsed)
            × ((some (codes "order") ≡ none) ⊎ (some (codes "order") ≡ some parsed.namespace))))
schemas_iff_example =
    schemas_iff sample_uuid sample_type_id sample_registry (some (codes "order")) (codes "order")
      (codes "ord-o123456789p") (codes "ORD-0123-4567-89-P") sample_registry-IsWellFormed
