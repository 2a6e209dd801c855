-- ===== src/Public/RoundTrip.antt =====
-- A public identifier and its machine identifier determine one another (public.ts).
use identifold.Prelude.{
  ◌≡◌, ◌≢◌, ap, sym, ◌∙◌, true, false, not, ◌||◌, Option, Text, [], ◌∷◌, arith, text_eq,
  text_eq_refl, to_lower,
}
use identifold.Errors.{
  Result, ok, err, ok-injective, guard, >>=-eq-ok, guard-passes, guard-eq-ok, invalid_pid,
  invalid_public_prefix,
}
use identifold.Registry.{is_empty, is_type_id_prefix}
use identifold.Machine.Defs.{UuidLibrary, parse_machine_id}
use identifold.Machine.{parse_machine_id_idempotent}
use identifold.Public.Defs.{
  TypeIdLibrary, ParsedPublicId, or_invalid_pid, is_expected, public_id_from_machine_id,
  parse_public_id,
}

-- What TypeID 0.3 and typeid-js document, for machine identifiers: `to_string` and `from_string`
-- undo one another, `get_type` and `to_uuid` give back the parts of `from_uuid`, the text is in
-- lower case, a parsed prefix follows the grammar, and `from_uuid` gives back a parsed identifier
-- from its parts.
pub record IsTypeIdLibrary (uuid : UuidLibrary) (type_id : TypeIdLibrary) : Type 1 where
  pub string_of_uuid :
      (mid prefix : Text) (id : type_id.TypeId)
      → parse_machine_id uuid mid ≡ ok mid
      → is_type_id_prefix prefix ≡ true
      → type_id.from_uuid mid prefix ≡ ok id
      → type_id.from_string (type_id.to_string id) ≡ ok id
  pub type_of_uuid :
      (mid prefix : Text) (id : type_id.TypeId)
      → type_id.from_uuid mid prefix ≡ ok id
      → type_id.get_type id ≡ prefix
  pub uuid_of_uuid :
      (mid prefix : Text) (id : type_id.TypeId)
      → parse_machine_id uuid mid ≡ ok mid
      → type_id.from_uuid mid prefix ≡ ok id
      → type_id.to_uuid id ≡ ok mid
  pub lower_of_uuid :
      (mid prefix : Text) (id : type_id.TypeId)
      → parse_machine_id uuid mid ≡ ok mid
      → is_type_id_prefix prefix ≡ true
      → type_id.from_uuid mid prefix ≡ ok id
      → to_lower (type_id.to_string id) ≡ type_id.to_string id
  pub to_string_of_string :
      (s : Text) (id : type_id.TypeId) → type_id.from_string s ≡ ok id → type_id.to_string id ≡ s
  pub prefix_of_string :
      (s : Text) (id : type_id.TypeId)
      → type_id.from_string s ≡ ok id
      → is_type_id_prefix (type_id.get_type id) ≡ true
  pub uuid_of_string :
      (s text mid : Text) (id : type_id.TypeId)
      → type_id.from_string s ≡ ok id
      → type_id.to_uuid id ≡ ok text
      → parse_machine_id uuid text ≡ ok mid
      → type_id.from_uuid mid (type_id.get_type id) ≡ ok id

or_invalid_pid-ok : {A : Type 0} {a : A} (m : Result A) → or_invalid_pid m ≡ ok a → m ≡ ok a
or_invalid_pid-ok (ok b) h = h
or_invalid_pid-ok (err e) h = cc

is_empty-false : (s : Text) → is_empty s ≡ false → s ≢ []
is_empty-false [] h = cc
is_empty-false (c ∷ s) h = cc

module _ (uuid : UuidLibrary) (type_id : TypeIdLibrary) where
  -- Under the laws of the TypeID library, what `publicIdFromMachineId` returns is read back by
  -- `parsePublicId`, with or without the namespace as the expected one, as the same namespace and
  -- the machine identifier in canonical form.
  pub parse_public_id-public_id_from_machine_id :
      (machine_id namespace pid mid : Text) (expected : Option Text)
      → IsTypeIdLibrary uuid type_id
      → parse_machine_id uuid machine_id ≡ ok mid
      → is_expected expected namespace ≡ true
      → public_id_from_machine_id uuid type_id machine_id namespace ≡ ok pid
      → parse_public_id uuid type_id pid expected
        ≡ ok (record { value = pid; namespace = namespace; machine_id = mid })
  unfolding public_id_from_machine_id parse_public_id
  parse_public_id-public_id_from_machine_id machine_id namespace pid mid expected l parsed expects
        h =
      let again = parse_machine_id_idempotent uuid machine_id mid parsed in
      let (canonical, c, h1) = >>=-eq-ok (parse_machine_id uuid machine_id) _ h in
      let (_, g, h2) =
        >>=-eq-ok
          (guard (not (is_empty namespace || not (is_type_id_prefix namespace)))
            invalid_public_prefix)
          _ h1 in
      let (id, made, h3) = >>=-eq-ok (type_id.from_uuid canonical namespace) _ h2 in
      let made' : type_id.from_uuid mid namespace ≡ ok id =
        rw (ok-injective (sym parsed ∙ c)) made in
      let (filled, spelled) = namespace_test namespace (guard-eq-ok _ _ g) in
      let written = sym (ok-injective h3) in
      rw (
        written,
        l.lower_of_uuid mid namespace id again spelled made',
        text_eq_refl (type_id.to_string id),
        l.string_of_uuid mid namespace id again spelled made',
        l.type_of_uuid mid namespace id made',
        filled,
        expects,
        l.uuid_of_uuid mid namespace id again made',
        again,
      )
    where
      namespace_test :
          (s : Text)
          → (is_empty s || not (is_type_id_prefix s)) ≡ false
          → (is_empty s ≡ false) × (is_type_id_prefix s ≡ true)
      namespace_test s k = ground arith

  -- Under the laws of the TypeID library, a parsed public identifier is what `publicIdFromMachineId`
  -- writes for its machine identifier and namespace, its value is the text that was read, and the
  -- expected namespace is its own.
  pub public_id_from_machine_id-parse_public_id :
      (value : Text) (expected : Option Text) (parsed : ParsedPublicId)
      → IsTypeIdLibrary uuid type_id
      → parse_public_id uuid type_id value expected ≡ ok parsed
      → (public_id_from_machine_id uuid type_id parsed.machine_id parsed.namespace ≡ ok value)
        × (parsed.value ≡ value)
        × (is_expected expected parsed.namespace ≡ true)
  unfolding public_id_from_machine_id parse_public_id
  public_id_from_machine_id-parse_public_id value expected parsed l h =
      let (_, g1, h1) = >>=-eq-ok (guard (text_eq value (to_lower value)) invalid_pid) _ h in
      let (id, read, h2) = >>=-eq-ok (or_invalid_pid (type_id.from_string value)) _ h1 in
      let read' = or_invalid_pid-ok (type_id.from_string value) read in
      let (_, g2, h3) =
        >>=-eq-ok (guard (not (is_empty (type_id.get_type id))) invalid_public_prefix) _ h2 in
      let (_, g3, h4) =
        >>=-eq-ok (guard (is_expected expected (type_id.get_type id)) invalid_public_prefix) _ h3 in
      let (text, decoded, h5) = >>=-eq-ok (type_id.to_uuid id) _ h4 in
      let (mid, valid, h6) = >>=-eq-ok (parse_machine_id uuid text) _ h5 in
      let same = sym (ok-injective h6) in
      (
        rw
            (
              same,
              parse_machine_id_idempotent uuid text mid valid,
              guard-eq-ok _ _ g2,
              l.prefix_of_string value id read',
              l.uuid_of_string value text mid id read' decoded valid,
            )
            (ap ok (l.to_string_of_string value id read')),
        rw same,
        rw same (guard-passes _ _ g3),
      )
