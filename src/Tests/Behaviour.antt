-- ===== src/Tests/Behaviour.antt =====
-- Runs on single inputs.
use identifold.Errors.{fail, invalid_pid, ok}
use identifold.Json.{serialize_identity, is_registered, deserialize_reference, deserialize_identity}
use identifold.Machine.Defs.{parse_machine_id}
use identifold.Prelude.{◌≡◌, refl, none, some, Text, codes, upper_unit, lower_unit}
use identifold.Public.Defs.{parse_public_id}
use identifold.Reference.CheckSymbol.{
  data_value, check_symbol_at, reference_remainder, calculate_reference_check_symbol,
}
use identifold.Reference.Format.{format_reference}
use identifold.Reference.Hyphens.{
  remove_hyphens, split_hyphens, join_hyphens, groups, group_lengths, check_groups,
}
use identifold.Reference.Parse.{
  is_reference_text, locate_namespace, in_data_alphabet, in_check_alphabet, normalize_payload,
  parse_random_reference, parse_located, parse_reference, normalize_reference,
}
use identifold.Registry.{upper_case, is_type_id_prefix, profile_length, not_integer}
use identifold.Samples.{sample_registry, sample_uuid, sample_mid, sample_type_id}
use identifold.Service.Identify.{
  ref, has_uuid_shape, starts_like_reference, detect_identifier_kind, inspect_parsed,
  parse_identifier, inspect, ParsedIdentifier,
}

abbrev loose : Text
loose = codes "ord-o123456789p"

loose_normalized : normalize_reference loose sample_registry ≡ ok (codes "ORD-0123-4567-89-P")
unfolding normalize_reference parse_reference is_reference_text locate_namespace upper_case
    upper_unit parse_located parse_random_reference remove_hyphens check_groups normalize_payload
    in_data_alphabet in_check_alphabet calculate_reference_check_symbol reference_remainder
    data_value check_symbol_at format_reference groups join_hyphens group_lengths
loose_normalized = refl

-- A reference without hyphens is found by its prefix, up to eight letters before a digit; behind
-- more letters its kind is unknown, although the parser for references reads it.
eight_letters : detect_identifier_kind (codes "ordabcde123456") ≡ some ref
unfolding detect_identifier_kind starts_like_reference has_uuid_shape split_hyphens
eight_letters = refl

ten_letters : detect_identifier_kind (codes "ordabcdefgh12*") ≡ none
unfolding detect_identifier_kind starts_like_reference has_uuid_shape split_hyphens
ten_letters = refl

-- A profile that is the name of an inherited property is registered.
inherited_profile : profile_length (codes "toString") ≡ some not_integer
unfolding profile_length
inherited_profile = refl

mid_inspected :
    inspect sample_uuid sample_type_id sample_registry sample_mid
    ≡ ok (inspect_parsed (ParsedIdentifier.of_mid sample_mid))
unfolding inspect detect_identifier_kind has_uuid_shape split_hyphens starts_like_reference
    parse_identifier parse_machine_id lower_unit inspect_parsed
mid_inspected = refl

-- What JSON holds is read as an identity only if the public identifier is that of the machine
-- identifier.
other_mid :
    deserialize_identity sample_uuid sample_type_id
      (serialize_identity (record {
        mid = codes "01890a5d-ac96-774b-bcce-b302099a8058";
        pid = codes "order_01890a5d-ac96-774b-bcce-b302099a8057";
        ref = none;
      }))
      sample_registry
    ≡ fail invalid_pid
unfolding deserialize_identity serialize_identity deserialize_reference is_registered
    parse_machine_id has_uuid_shape split_hyphens lower_unit parse_public_id is_type_id_prefix
other_mid = refl
