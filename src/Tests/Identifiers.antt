-- ===== src/Tests/Identifiers.antt =====
-- Machine identifiers and public identifiers under the sample libraries.
use identifold.Errors.{ok}
use identifold.Legacy.{
  is_integer_text, is_ulid_text, is_nanoid_text, is_short_code_text, legacy_kind,
  inspect_legacy_identifier, plan_with, plan_legacy_migration, plan_legacy_migration_sound,
  LegacyIdentifierKind, LegacyMigrationPlan,
}
use identifold.Machine.{parse_machine_id_iff}
use identifold.Machine.Defs.{parse_machine_id}
use identifold.Prelude.{
  ℕ, ◌+◌, ◌≡◌, refl, true, none, some, length, Text, codes, lower_unit, to_lower,
}
use identifold.Public.Defs.{is_expected, public_id_from_machine_id, parse_public_id, ParsedPublicId}
use identifold.Public.RoundTrip.{
  parse_public_id-public_id_from_machine_id, public_id_from_machine_id-parse_public_id,
}
use identifold.Reference.Hyphens.{split_hyphens}
use identifold.Registry.{is_type_id_prefix}
use identifold.Samples.{sample_uuid, sample_mid, sample_type_id, sample_type_id-IsTypeIdLibrary}
use identifold.Service.Identify.{has_uuid_shape}

abbrev upper_mid : Text
upper_mid = codes "01890A5D-AC96-774B-BCCE-B302099A8057"

mid_read : parse_machine_id sample_uuid upper_mid ≡ ok sample_mid
unfolding parse_machine_id lower_unit has_uuid_shape split_hyphens
mid_read = refl

parse_machine_id_iff_example :
    (sample_mid ≡ to_lower upper_mid)
    × (length sample_mid ≡ 36)
    × (sample_uuid.validate sample_mid ≡ true)
    × (sample_uuid.version sample_mid ≡ 7)
parse_machine_id_iff_example = (parse_machine_id_iff sample_uuid upper_mid sample_mid).0 mid_read

abbrev sample_pid : Text
sample_pid = codes "order_01890a5d-ac96-774b-bcce-b302099a8057"

pid_written :
    public_id_from_machine_id sample_uuid sample_type_id upper_mid (codes "order") ≡ ok sample_pid
unfolding public_id_from_machine_id is_type_id_prefix parse_machine_id lower_unit has_uuid_shape
    split_hyphens
pid_written = refl

abbrev sample_parsed : ParsedPublicId
sample_parsed = record { value = sample_pid; namespace = codes "order"; machine_id = sample_mid }

parse_public_id-public_id_from_machine_id_example :
    parse_public_id sample_uuid sample_type_id sample_pid (some (codes "order")) ≡ ok sample_parsed
parse_public_id-public_id_from_machine_id_example =
    parse_public_id-public_id_from_machine_id sample_uuid sample_type_id upper_mid (codes "order")
      sample_pid sample_mid (some (codes "order")) sample_type_id-IsTypeIdLibrary mid_read refl
      pid_written

pid_read : parse_public_id sample_uuid sample_type_id sample_pid none ≡ ok sample_parsed
unfolding parse_public_id is_type_id_prefix parse_machine_id lower_unit has_uuid_shape split_hyphens
pid_read = refl

public_id_from_machine_id-parse_public_id_example :
    (public_id_from_machine_id sample_uuid sample_type_id sample_mid (codes "order")
      ≡ ok sample_pid)
    × (sample_parsed.value ≡ sample_pid)
    × (is_expected none (codes "order") ≡ true)
public_id_from_machine_id-parse_public_id_example =
    public_id_from_machine_id-parse_public_id sample_uuid sample_type_id sample_pid none
      sample_parsed sample_type_id-IsTypeIdLibrary pid_read

abbrev sample_plan : LegacyMigrationPlan
sample_plan = record {
  legacy = record { kind = LegacyIdentifierKind.integer; value = codes "420" };
  machine_id = sample_mid;
  namespace = codes "order";
}

planned :
    plan_legacy_migration {W = ℕ} sample_uuid sample_type_id
      (codes "420")
      (codes "order")
      (λ w. (ok upper_mid, w + 1))
      0
    ≡ (ok sample_plan, 1)
unfolding plan_legacy_migration inspect_legacy_identifier legacy_kind is_integer_text plan_with
    public_id_from_machine_id is_type_id_prefix parse_machine_id lower_unit has_uuid_shape
    split_hyphens
planned = refl

plan_legacy_migration_sound_example :
    (legacy_kind sample_uuid (codes "420") ≡ some sample_plan.legacy.kind)
    × (sample_plan.legacy.value ≡ codes "420")
    × (sample_plan.namespace ≡ codes "order")
    × (parse_machine_id sample_uuid sample_plan.machine_id ≡ ok sample_plan.machine_id)
    × (pid : Text) × (public_id_from_machine_id sample_uuid sample_type_id sample_plan.machine_id
          (codes "order")
        ≡ ok pid)
plan_legacy_migration_sound_example =
    plan_legacy_migration_sound {W = ℕ} sample_uuid sample_type_id (codes "420") (codes "order")
      (λ w. (ok upper_mid, w + 1)) 0 1 sample_plan planned

-- Kinds of older identifiers, and texts that are none.
ulid_kind :
    legacy_kind sample_uuid (codes "01ARZ3NDEKTSV4RRFFQ69G5FAV") ≡ some LegacyIdentifierKind.ulid
unfolding legacy_kind is_integer_text is_ulid_text lower_unit has_uuid_shape split_hyphens
ulid_kind = refl

short_kind : legacy_kind sample_uuid (codes "A-1") ≡ some LegacyIdentifierKind.short_code
unfolding legacy_kind is_integer_text is_ulid_text is_nanoid_text is_short_code_text lower_unit
    has_uuid_shape split_hyphens
short_kind = refl

no_kind : legacy_kind sample_uuid (codes "042") ≡ none
unfolding legacy_kind is_integer_text is_ulid_text is_nanoid_text is_short_code_text lower_unit
    has_uuid_shape split_hyphens
no_kind = refl
