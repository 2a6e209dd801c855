-- ===== src/Tests/Boundaries.antt =====
-- The parser for requests and the resolver.
use identifold.Errors.{fail, Result, invalid_checksum, ok}
use identifold.Machine.Defs.{parse_machine_id}
use identifold.Middleware.{is_expected_kind, create_identifier_parser, create_identifier_parser_iff}
use identifold.Prelude.{
  ℕ, ◌+◌, ◌≡◌, refl, ◌≢◌, ◌↔◌, true, Option, some, Text, codes, upper_unit, lower_unit,
}
use identifold.Registry.{upper_case}
use identifold.Reference.CheckSymbol.{
  data_value, check_symbol_at, reference_remainder, calculate_reference_check_symbol,
}
use identifold.Reference.Format.{format_reference}
use identifold.Reference.Hyphens.{remove_hyphens, split_hyphens, join_hyphens, groups, check_groups}
use identifold.Reference.Parse.{
  is_reference_text, locate_namespace, in_data_alphabet, in_check_alphabet, normalize_payload,
  parse_random_reference, parse_located, parse_reference, ParsedReference,
}
use identifold.Reference.RoundTrip.Random.{parsed_random}
use identifold.Resolver.{
  resolve_answer, resolve, resolve_sound, ReferenceLookupResult, ResolvedReference,
}
use identifold.Samples.{
  order_reference, order, sample_registry, sample_registry-IsWellFormed, sample_uuid, sample_mid,
  sample_type_id,
}
use identifold.Service.Identify.{has_uuid_shape, parse, IdentifierKind, ParsedIdentifier}

abbrev order_parsed : ParsedReference
order_parsed = parsed_random order order_reference (codes "0123456789") (codes "P")

create_identifier_parser_iff_example :
    ((create_identifier_parser sample_uuid sample_type_id sample_registry
          (some IdentifierKind.mid)
          (some (codes "ord-o123456789p"))
        ≡ ok (ParsedIdentifier.of_ref order_parsed))
      ↔ ((parse sample_uuid sample_type_id sample_registry (codes "ord-o123456789p")
            ≡ ok (ParsedIdentifier.of_ref order_parsed))
          × (is_expected_kind (some IdentifierKind.mid) (ParsedIdentifier.of_ref order_parsed)
              ≡ true)))
    × (create_identifier_parser sample_uuid sample_type_id sample_registry
          (some IdentifierKind.mid)
          (some (codes "ord-o123456789p"))
        ≢ fail invalid_checksum)
create_identifier_parser_iff_example =
    create_identifier_parser_iff sample_uuid sample_type_id sample_registry
      (some IdentifierKind.mid) (codes "ord-o123456789p") (ParsedIdentifier.of_ref order_parsed)
      invalid_checksum

-- A lookup that knows every reference and counts its calls.
abbrev sample_lookup : Text → Text → ℕ → Result (Option ReferenceLookupResult) × ℕ
sample_lookup reference namespace w =
    (ok (some (record { machine_id = sample_mid; namespace = namespace })), w + 1)

abbrev sample_resolved : ResolvedReference
sample_resolved = record {
  machine_id = sample_mid;
  namespace = codes "order";
  reference = codes "ORD-0123-4567-89-P";
}

sample_resolution :
    resolve sample_uuid sample_registry sample_lookup (codes "ord-o123456789p") 0
    ≡ (ok (some sample_resolved), 1)
unfolding resolve resolve_answer parse_machine_id has_uuid_shape split_hyphens lower_unit
    parse_reference is_reference_text locate_namespace upper_case upper_unit parse_located
    parse_random_reference remove_hyphens check_groups normalize_payload in_data_alphabet
    in_check_alphabet calculate_reference_check_symbol reference_remainder data_value
    check_symbol_at format_reference groups join_hyphens
sample_resolution = refl

resolve_sound_example :
    (parsed : ParsedReference) × (parse_reference (codes "ord-o123456789p") sample_registry
      ≡ ok parsed)
    × (parse_reference sample_resolved.reference sample_registry ≡ ok parsed)
    × (sample_resolved.reference ≡ parsed.value)
    × (sample_resolved.namespace ≡ parsed.namespace)
    × (result : ReferenceLookupResult) × (sample_lookup sample_resolved.reference
          sample_resolved.namespace 0
        ≡ (ok (some result), 1))
    × (result.namespace ≡ sample_resolved.namespace)
    × (parse_machine_id sample_uuid result.machine_id ≡ ok sample_resolved.machine_id)
resolve_sound_example =
    resolve_sound sample_uuid sample_registry sample_lookup (codes "ord-o123456789p") 0 1
      sample_resolved sample_registry-IsWellFormed sample_resolution
