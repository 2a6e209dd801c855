-- ===== src/Json.antt =====
-- json.ts: an identity written for JSON and read back. A value of type `unknown` is seen through
-- the three properties that are read of it.
use identifold.Errors.{
  fail, ◌>>=◌, guard, ◌>>◌, Code, Result, invalid_kind, invalid_pid, invalid_ref, ok,
}
use identifold.Machine.Defs.{parse_machine_id, UuidLibrary}
use identifold.Prelude.{Bool, true, false, ◌&&◌, none, some, Text, text_eq}
use identifold.Public.Defs.{parse_public_id, TypeIdLibrary, ParsedPublicId}
use identifold.Reference.Parse.{parse_reference}
use identifold.Registry.{get_by_public_prefix, NamespaceRegistry}
use identifold.Service.Create.Defs.{Identity}
pub mod RoundTrip

-- A property of an object: absent, no text, or a text.
pub data Property : Type 0 where
  undefined not_text : Property
  of_text : Text → Property

pub record IdentityRecord : Type 0 where
  pub mid : Property
  pub pid : Property
  pub ref : Property

pub data Json : Type 0 where
  no_record : Json
  of_record : IdentityRecord → Json

unfoldable pub serialize_identity : Identity → Json
serialize_identity identity = of_record (record {
  mid = of_text identity.mid;
  pid = of_text identity.pid;
  ref = elim identity.ref [ none ↦ undefined | some reference ↦ of_text reference ];
})

-- `registry.getByPublicPrefix(namespace) !== undefined`
unfoldable pub is_registered : NamespaceRegistry → Text → Bool
is_registered registry namespace = elim (get_by_public_prefix registry namespace) [
  | none ↦ false
  | some definition ↦ true
]

-- `typeof text !== "string"`
abbrev text_of : Property → Code → Result Text
text_of undefined code = fail code
text_of not_text code = fail code
text_of (of_text text) code = ok text

-- The part of `deserializeIdentity` behind the test of the public identifier.
unfoldable pub deserialize_reference :
    NamespaceRegistry → Text → ParsedPublicId → Property → Result Identity
deserialize_reference registry mid pid undefined =
    ok (record { mid = mid; pid = pid.value; ref = none })
deserialize_reference registry mid pid not_text = fail invalid_ref
deserialize_reference registry mid pid (of_text text) = do
  parsed ← parse_reference text registry
  guard (text_eq parsed.namespace pid.namespace) invalid_ref
  ok (record { mid = mid; pid = pid.value; ref = some parsed.value })

module _ (uuid : UuidLibrary) (type_id : TypeIdLibrary) where
  unfoldable pub deserialize_identity : Json → NamespaceRegistry → Result Identity
  deserialize_identity no_record registry = fail invalid_kind
  deserialize_identity (of_record value) registry = do
    mid_text ← text_of value.mid invalid_kind
    pid_text ← text_of value.pid invalid_kind
    mid ← parse_machine_id uuid mid_text
    pid ← parse_public_id uuid type_id pid_text none
    guard (is_registered registry pid.namespace && text_eq pid.machine_id mid) invalid_pid
    deserialize_reference registry mid pid value.ref
