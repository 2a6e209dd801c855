-- ===== src/Exchange/Defs.antt =====
-- The definitions of exchange.ts. An element of the array `namespaces` is cast to a namespace
-- definition by the source, and has that type here.
use identifold.Prelude.{ℕ, Bool, false, Option, none, some, List, map, codes, ◌==◌, if◌then◌else◌}
use identifold.Errors.{Result, fail, invalid_namespace_definition}
use identifold.Registry.{
  Number, whole, not_integer, ReferenceDefinition, NamespaceDefinition,
  RegisteredReferenceDefinition, random, sequence, RegisteredNamespaceDefinition, NamespaceRegistry,
  create_namespace_registry,
}

-- An object with the two properties that are read. `version` is `none` if it is no number, and
-- `namespaces` is `none` if it is no array.
pub record ExchangeRecord : Type 0 where
  pub version : Option Number
  pub namespaces : Option (List NamespaceDefinition)

-- A value of type `unknown`: `isRecord` holds of the second kind.
pub data Exchange : Type 0 where
  no_record : Exchange
  of_record : ExchangeRecord → Exchange

pub record RegistryExchangeV1 : Type 0 where
  pub version : ℕ
  pub namespaces : List NamespaceDefinition

-- A property that the object literal does not have is `none`, or no number.
unfoldable pub export_reference : RegisteredReferenceDefinition → ReferenceDefinition
export_reference (random r) = record {
  prefix = r.prefix;
  strategy = codes "random";
  profile = some r.profile;
  scope = none;
  width = not_integer;
}
export_reference (sequence s) = record {
  prefix = s.prefix;
  strategy = codes "sequence";
  profile = none;
  scope = some s.scope;
  width = whole s.width;
}

unfoldable pub export_definition : RegisteredNamespaceDefinition → NamespaceDefinition
export_definition definition = record {
  public_prefix = definition.public_prefix;
  reference = elim definition.reference [
    | none ↦ none
    | some reference ↦ some (export_reference reference)
  ];
}

unfoldable pub export_registry : NamespaceRegistry → RegistryExchangeV1
export_registry registry = record {
  version = 1;
  namespaces = map export_definition registry.definitions;
}

-- `version === 1`
abbrev is_version_1 : Option Number → Bool
is_version_1 (some (whole n)) = n == 1
is_version_1 _ = false

unfoldable pub import_registry : Exchange → Result NamespaceRegistry
import_registry no_record = fail invalid_namespace_definition
import_registry (of_record exchange) =
    if is_version_1 exchange.version
    then elim exchange.namespaces [
      | none ↦ fail invalid_namespace_definition
      | some namespaces ↦ create_namespace_registry namespaces
    ]
    else fail invalid_namespace_definition

-- A registry in exchange form, handed on as a value.
abbrev pub as_exchange : RegistryExchangeV1 → Exchange
as_exchange e =
    of_record (record { version = some (whole e.version); namespaces = some e.namespaces })
