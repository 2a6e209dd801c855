-- ===== src/Service/Agreement/Refusal.antt =====
-- What `inspect` (service.ts) answers for a text that `parse` refuses.
use identifold.Errors.{
  Code, allocation_conflict, allocation_exhausted, allocation_required, ambiguous_ref_prefix,
  duplicate_public_prefix, duplicate_ref_prefix, invalid_allocation_policy, invalid_checksum,
  invalid_kind, invalid_mid, invalid_namespace_definition, invalid_pid, invalid_public_prefix,
  invalid_random_source, invalid_ref, invalid_ref_length, invalid_ref_prefix, invalid_ref_symbol,
  invalid_uuid_version, sequence_overflow, unknown_namespace,
}
use identifold.Prelude.{◌≡◌, refl, ◌↔◌, Bool, true, false, Option, none, some, if◌then◌else◌}
use identifold.Service.Identify.{
  mid, pid, ref, tells_registration, is_checksum_error, inspect_error, IdentifierKind,
  IdentityInspection,
}

-- The inspection of a text of such a kind, or of none, that `parse` refuses with this code: there is
-- nothing but the kind and the code, the checksum of a reference is wrong exactly when the code
-- says so, and its prefix is registered unless the code says otherwise.
unfoldable pub IsRefusal : Option IdentifierKind → Code → IdentityInspection → Type 0
IsRefusal kind code i =
    (i.valid ≡ false)
    × (i.error_code ≡ some code)
    × (i.kind ≡ kind)
    × (i.machine_id ≡ none)
    × (i.namespace ≡ none)
    × (i.normalized ≡ none)
    × (i.uuid_version ≡ none)
    × ((i.checksum_valid ≡ some false) ↔ ((kind ≡ some ref) × (code ≡ invalid_checksum)))
    × ¬ (i.checksum_valid ≡ some true)
    × ((i.registry_recognized ≡ true)
        ↔ ((kind ≡ some ref) × ¬ (code ≡ invalid_ref) × ¬ (code ≡ unknown_namespace)))
    × ((i.resolution_not_requested ≡ true) ↔ (kind ≡ some ref))

is_checksum_error_iff : (code : Code) → (is_checksum_error code ≡ true) ↔ (code ≡ invalid_checksum)
is_checksum_error_iff allocation_conflict = (λ h. cc h, λ h. cc h)
is_checksum_error_iff allocation_exhausted = (λ h. cc h, λ h. cc h)
is_checksum_error_iff allocation_required = (λ h. cc h, λ h. cc h)
is_checksum_error_iff ambiguous_ref_prefix = (λ h. cc h, λ h. cc h)
is_checksum_error_iff duplicate_public_prefix = (λ h. cc h, λ h. cc h)
is_checksum_error_iff duplicate_ref_prefix = (λ h. cc h, λ h. cc h)
is_checksum_error_iff invalid_allocation_policy = (λ h. cc h, λ h. cc h)
is_checksum_error_iff invalid_checksum = (λ h. refl, λ h. refl)
is_checksum_error_iff invalid_kind = (λ h. cc h, λ h. cc h)
is_checksum_error_iff invalid_mid = (λ h. cc h, λ h. cc h)
is_checksum_error_iff invalid_namespace_definition = (λ h. cc h, λ h. cc h)
is_checksum_error_iff invalid_pid = (λ h. cc h, λ h. cc h)
is_checksum_error_iff invalid_public_prefix = (λ h. cc h, λ h. cc h)
is_checksum_error_iff invalid_random_source = (λ h. cc h, λ h. cc h)
is_checksum_error_iff invalid_ref = (λ h. cc h, λ h. cc h)
is_checksum_error_iff invalid_ref_length = (λ h. cc h, λ h. cc h)
is_checksum_error_iff invalid_ref_prefix = (λ h. cc h, λ h. cc h)
is_checksum_error_iff invalid_ref_symbol = (λ h. cc h, λ h. cc h)
is_checksum_error_iff invalid_uuid_version = (λ h. cc h, λ h. cc h)
is_checksum_error_iff sequence_overflow = (λ h. cc h, λ h. cc h)
is_checksum_error_iff unknown_namespace = (λ h. cc h, λ h. cc h)

tells_registration_iff :
    (code : Code)
    → (tells_registration code ≡ true) ↔ (¬ (code ≡ invalid_ref) × ¬ (code ≡ unknown_namespace))
tells_registration_iff allocation_conflict = (λ h. (λ k. cc k, λ k. cc k), λ h. refl)
tells_registration_iff allocation_exhausted = (λ h. (λ k. cc k, λ k. cc k), λ h. refl)
tells_registration_iff allocation_required = (λ h. (λ k. cc k, λ k. cc k), λ h. refl)
tells_registration_iff ambiguous_ref_prefix = (λ h. (λ k. cc k, λ k. cc k), λ h. refl)
tells_registration_iff duplicate_public_prefix = (λ h. (λ k. cc k, λ k. cc k), λ h. refl)
tells_registration_iff duplicate_ref_prefix = (λ h. (λ k. cc k, λ k. cc k), λ h. refl)
tells_registration_iff invalid_allocation_policy = (λ h. (λ k. cc k, λ k. cc k), λ h. refl)
tells_registration_iff invalid_checksum = (λ h. (λ k. cc k, λ k. cc k), λ h. refl)
tells_registration_iff invalid_kind = (λ h. (λ k. cc k, λ k. cc k), λ h. refl)
tells_registration_iff invalid_mid = (λ h. (λ k. cc k, λ k. cc k), λ h. refl)
tells_registration_iff invalid_namespace_definition = (λ h. (λ k. cc k, λ k. cc k), λ h. refl)
tells_registration_iff invalid_pid = (λ h. (λ k. cc k, λ k. cc k), λ h. refl)
tells_registration_iff invalid_public_prefix = (λ h. (λ k. cc k, λ k. cc k), λ h. refl)
tells_registration_iff invalid_random_source = (λ h. (λ k. cc k, λ k. cc k), λ h. refl)
tells_registration_iff invalid_ref = (λ h. cc h, λ (k, _). absurd (k refl))
tells_registration_iff invalid_ref_length = (λ h. (λ k. cc k, λ k. cc k), λ h. refl)
tells_registration_iff invalid_ref_prefix = (λ h. (λ k. cc k, λ k. cc k), λ h. refl)
tells_registration_iff invalid_ref_symbol = (λ h. (λ k. cc k, λ k. cc k), λ h. refl)
tells_registration_iff invalid_uuid_version = (λ h. (λ k. cc k, λ k. cc k), λ h. refl)
tells_registration_iff sequence_overflow = (λ h. (λ k. cc k, λ k. cc k), λ h. refl)
tells_registration_iff unknown_namespace = (λ h. cc h, λ (_, k). absurd (k refl))

flag_iff : (b : Bool) → ((if b then some false else none) ≡ some false) ↔ (b ≡ true)
flag_iff true = (λ h. refl, λ h. refl)
flag_iff false = (λ h. cc h, λ h. cc h)

never_true : (b : Bool) → ¬ ((if b then some false else none) ≡ some true)
never_true true h = cc h
never_true false h = cc h

other_kind-IsRefusal :
    (kind : IdentifierKind) (code : Code)
    → ¬ (kind ≡ ref)
    → IsRefusal (some kind) code (inspect_error kind code)
unfolding IsRefusal inspect_error
other_kind-IsRefusal mid code other = (
  refl,
  refl,
  refl,
  refl,
  refl,
  refl,
  refl,
  (λ h. cc h, λ (h, _). cc h),
  (λ h. cc h),
  (λ h. cc h, λ (h, _, _). cc h),
  (λ h. cc h, λ h. cc h),
)
other_kind-IsRefusal pid code other = (
  refl,
  refl,
  refl,
  refl,
  refl,
  refl,
  refl,
  (λ h. cc h, λ (h, _). cc h),
  (λ h. cc h),
  (λ h. cc h, λ (h, _, _). cc h),
  (λ h. cc h, λ h. cc h),
)
other_kind-IsRefusal ref code other = absurd (other refl)

ref-IsRefusal : (code : Code) → IsRefusal (some ref) code (inspect_error ref code)
unfolding IsRefusal inspect_error
ref-IsRefusal code =
    let flag = flag_iff (is_checksum_error code) in
    let checksum = is_checksum_error_iff code in
    let told = tells_registration_iff code in
    (
      refl,
      refl,
      refl,
      refl,
      refl,
      refl,
      refl,
      (λ h. (refl, checksum.0 (flag.0 h)), λ (_, h). flag.1 (checksum.1 h)),
      never_true (is_checksum_error code),
      (λ h. let (k, l) = told.0 h in (refl, k, l), λ (_, k, l). told.1 (k, l)),
      (λ h. refl, λ h. refl),
    )

pub inspect_error-IsRefusal :
    (kind : IdentifierKind) (code : Code) → IsRefusal (some kind) code (inspect_error kind code)
inspect_error-IsRefusal mid code = other_kind-IsRefusal mid code (λ h. cc h)
inspect_error-IsRefusal pid code = other_kind-IsRefusal pid code (λ h. cc h)
inspect_error-IsRefusal ref code = ref-IsRefusal code
