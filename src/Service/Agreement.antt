-- ===== src/Service/Agreement.antt =====
-- How `parse`, `normalize`, `validate` and `inspect` (service.ts) agree on a text.
use identifold.Errors.{fail, Result, identifold_error, boundary_error, foreign, ok, err}
use identifold.Machine.Defs.{UuidLibrary}
use identifold.Prelude.{◌≡◌, Bool, true, false, none, some, Text}
use identifold.Public.Defs.{TypeIdLibrary}
use identifold.Registry.{NamespaceRegistry}
use identifold.Service.Agreement.Refusal.{IsRefusal}
use identifold.Service.Agreement.Results.{value_result, IsInspectionOf, result_of_parse}
use identifold.Service.Identify.{
  mid, pid, ref, detect_identifier_kind, inspect_parsed, validate_result, parse, normalize,
  validate, inspect, ParsedIdentifier, IdentityInspection, of_mid, of_pid, of_ref,
}
pub mod Refusal
pub mod Results

-- What `normalize`, `validate` and `inspect` answer for a text, by what `parse` answers.
unfoldable pub Agree :
    Text → Result ParsedIdentifier → Result Text → Result Bool → Result IdentityInspection → Type 0
Agree value (ok (of_mid m)) normalized valid inspection =
    (normalized ≡ ok m)
    × (valid ≡ ok true)
    × (inspection
        ≡ ok (record {
          checksum_valid = none;
          error_code = none;
          kind = some mid;
          machine_id = some m;
          namespace = none;
          normalized = some m;
          registry_recognized = false;
          resolution_not_requested = false;
          uuid_version = some 7;
          valid = true;
        }))
Agree value (ok (of_pid p)) normalized valid inspection =
    (normalized ≡ ok p.value)
    × (valid ≡ ok true)
    × (inspection
        ≡ ok (record {
          checksum_valid = none;
          error_code = none;
          kind = some pid;
          machine_id = some p.machine_id;
          namespace = some p.namespace;
          normalized = some p.value;
          registry_recognized = true;
          resolution_not_requested = false;
          uuid_version = some 7;
          valid = true;
        }))
Agree value (ok (of_ref r)) normalized valid inspection =
    (normalized ≡ ok r.value)
    × (valid ≡ ok true)
    × (inspection
        ≡ ok (record {
          checksum_valid = some true;
          error_code = none;
          kind = some ref;
          machine_id = none;
          namespace = some r.namespace;
          normalized = some r.value;
          registry_recognized = true;
          resolution_not_requested = true;
          uuid_version = none;
          valid = true;
        }))
Agree value (err (identifold_error code)) normalized valid inspection =
    (normalized ≡ fail code)
    × (valid ≡ ok false)
    × (i : IdentityInspection) × (inspection ≡ ok i)
    × IsRefusal (detect_identifier_kind value) code i
Agree value (err (boundary_error code)) normalized valid inspection =
    (normalized ≡ err (boundary_error code))
    × (valid ≡ err (boundary_error code))
    × (inspection ≡ err (boundary_error code))
Agree value (err (foreign e)) normalized valid inspection =
    (normalized ≡ err (foreign e)) × (valid ≡ err (foreign e)) × (inspection ≡ err (foreign e))

results-Agree :
    (value : Text) (r : Result ParsedIdentifier) (normalized : Result Text) (valid : Result Bool)
    (inspection : Result IdentityInspection)
    → normalized ≡ value_result r
    → valid ≡ validate_result r
    → IsInspectionOf value r inspection
    → Agree value r normalized valid inspection
unfolding Agree IsInspectionOf inspect_parsed
results-Agree value (ok (of_mid m)) normalized valid inspection n v i = (n, v, i)
results-Agree value (ok (of_pid p)) normalized valid inspection n v i = (n, v, i)
results-Agree value (ok (of_ref r)) normalized valid inspection n v i = (n, v, i)
results-Agree value (err (identifold_error code)) normalized valid inspection n v i =
    let (answer, is, refusal) = i in (n, v, answer, is, refusal)
results-Agree value (err (boundary_error code)) normalized valid inspection n v i = (n, v, i)
results-Agree value (err (foreign e)) normalized valid inspection n v i = (n, v, i)

module _ (uuid : UuidLibrary) (type_id : TypeIdLibrary) (registry : NamespaceRegistry) where
  -- Where `parse` reads a text, `normalize` returns the value read, `validate` returns true, and
  -- every field of what `inspect` returns is as given above for the kind that is read. Where `parse`
  -- throws an `IdentifoldError`, `normalize` throws it, `validate` returns false, and `inspect`
  -- returns an inspection with `valid` false, the code, the detected kind, no identifier and no
  -- namespace, `checksumValid` false exactly for a reference with a wrong check symbol, and
  -- `registryRecognized` exactly for a reference whose error is neither `invalid_ref` nor
  -- `unknown_namespace`. What else `parse` throws, all three throw.
  pub parse_agreement :
      (value : Text)
      → Agree value
          (parse uuid type_id registry value)
          (normalize uuid type_id registry value)
          (validate uuid type_id registry value)
          (inspect uuid type_id registry value)
  parse_agreement value =
      let (n, v, i) = result_of_parse uuid type_id registry value in
      results-Agree value (parse uuid type_id registry value) _ _ _ n v i
