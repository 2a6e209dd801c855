-- ===== src/Json/RoundTrip.antt =====
-- An identity survives the way out and in (json.ts), also one that `create` (service.ts) returned.
use identifold.Errors.{◌>>=◌, ◌>>◌, Result, ok}
use identifold.Json.{
  serialize_identity, is_registered, deserialize_reference, deserialize_identity, of_text,
}
use identifold.Machine.Defs.{parse_machine_id, UuidLibrary}
use identifold.Prelude.{◌≡◌, refl, ap, Bool, true, ◌&&◌, none, some, Text, text_eq, text_eq_refl}
use identifold.Public.Defs.{public_id_from_machine_id, parse_public_id, TypeIdLibrary}
use identifold.Public.RoundTrip.{parse_public_id-public_id_from_machine_id, IsTypeIdLibrary}
use identifold.Reference.Parse.{parse_reference, ParsedReference}
use identifold.Registry.{
  get_by_public_prefix, RegisteredRandomReferenceDefinition, RegisteredNamespaceDefinition,
  NamespaceRegistry, random,
}
use identifold.Registry.WellFormed.{IsWellFormed}
use identifold.Service.Create.Defs.{
  registry_of_ids, create, ReferenceReservation, Identity, Identifold,
}
use identifold.Service.Create.Reserved.{create_reserved}

registered :
    (registry : NamespaceRegistry) (namespace : Text) (d : RegisteredNamespaceDefinition)
    → get_by_public_prefix registry namespace ≡ some d
    → is_registered registry namespace ≡ true
unfolding is_registered
registered registry namespace d found = rw (found, is_registered)

reference_read :
    (registry : NamespaceRegistry) (m namespace p reference : Text) (parsed : ParsedReference)
    → parse_reference reference registry ≡ ok parsed
    → parsed.value ≡ reference
    → parsed.namespace ≡ namespace
    → deserialize_reference registry m
        (record { value = p; namespace = namespace; machine_id = m })
        (of_text reference)
      ≡ ok (record { mid = m; pid = p; ref = some reference })
unfolding deserialize_reference
reference_read registry m namespace p reference parsed reads same named =
    rw (reads, ◌>>=◌, named, text_eq_refl namespace, same)

module _ (uuid : UuidLibrary) (type_id : TypeIdLibrary) (laws : IsTypeIdLibrary uuid type_id) where
  reads_public :
      (mid namespace pid : Text)
      → parse_machine_id uuid mid ≡ ok mid
      → public_id_from_machine_id uuid type_id mid namespace ≡ ok pid
      → parse_public_id uuid type_id pid none
        ≡ ok (record { value = pid; namespace = namespace; machine_id = mid })
  reads_public m namespace p valid made =
      parse_public_id-public_id_from_machine_id uuid type_id m namespace p m none laws valid refl
        made

  deserialize_of_parts :
      (registry : NamespaceRegistry) (mid namespace pid reference : Text) (parsed : ParsedReference)
      (d : RegisteredNamespaceDefinition)
      → get_by_public_prefix registry namespace ≡ some d
      → parse_machine_id uuid mid ≡ ok mid
      → public_id_from_machine_id uuid type_id mid namespace ≡ ok pid
      → parse_reference reference registry ≡ ok parsed
      → parsed.value ≡ reference
      → parsed.namespace ≡ namespace
      → deserialize_identity uuid type_id
          (serialize_identity (record { mid = mid; pid = pid; ref = some reference }))
          registry
        ≡ ok (record { mid = mid; pid = pid; ref = some reference })
  unfolding deserialize_identity serialize_identity
  deserialize_of_parts registry m namespace p reference parsed d found valid made reads same named =
      let member : (is_registered registry namespace && text_eq m m) ≡ true =
        rw (registered registry namespace d found, text_eq_refl m) in
      rw (valid, reads_public m namespace p valid made, ◌>>=◌, member, ◌>>◌)
        (reference_read registry m namespace p reference parsed reads same named)

  -- Under the laws of the TypeID library, an identity that `create` returned for a random namespace
  -- of a well-formed registry is read back, unchanged, by `deserializeIdentity` from what
  -- `serializeIdentity` wrote.
  pub deserialize_identity-create :
      {W : Type 0} (ids : Identifold W) (namespace : Text) (d : RegisteredNamespaceDefinition)
      (r : RegisteredRandomReferenceDefinition)
      (reserve : ReferenceReservation → W → Result Bool × W) (w w' : W) (identity : Identity)
      → IsWellFormed (registry_of_ids uuid type_id ids)
      → get_by_public_prefix (registry_of_ids uuid type_id ids) namespace ≡ some d
      → d.reference ≡ some (random r)
      → ids.options.reference_store ≡ some reserve
      → create uuid type_id ids namespace w ≡ (ok identity, w')
      → deserialize_identity uuid type_id
          (serialize_identity identity)
          (registry_of_ids uuid type_id ids)
        ≡ ok identity
  deserialize_identity-create ids namespace d r reserve w w' identity f found has stored h =
      let (reference, holds, v, _, parsed, reads, same, named, valid, made) =
        create_reserved uuid type_id ids namespace d r reserve w w' identity f found has stored h in
      let parts : identity
          ≡ record { mid = identity.mid; pid = identity.pid; ref = some reference } =
        ap (λ x. record { mid = identity.mid; pid = identity.pid; ref = x }) holds in
      rw parts (
        deserialize_of_parts (registry_of_ids uuid type_id ids) identity.mid namespace identity.pid
          reference parsed d found valid made reads same named)
