-- ===== src/Exchange/RoundTrip.antt =====
-- A registry survives the way out and in (exchange.ts).
use identifold.Prelude.{◌≡◌, refl, Option, none, some, List, [], ◌∷◌, map, arith, All}
use identifold.Errors.{ok}
use identifold.Registry.{
  RegisteredReferenceDefinition, random, sequence, RegisteredNamespaceDefinition, NamespaceRegistry,
  register_reference, register_strategy, register_random, register_sequence, register_width,
}
use identifold.Registry.WellFormed.{ValidReference, ValidDefinition, IsWellFormed}
use identifold.Registry.Creation.{Registers, create_namespace_registry_iff}
use identifold.Exchange.Defs.{
  export_reference, export_definition, export_registry, import_registry, as_exchange,
}

-- A valid reference registers again as itself.
register_reference-export_reference :
    (r : RegisteredReferenceDefinition)
    → ValidReference (some r)
    → register_reference (some (export_reference r)) ≡ ok (some r)
unfolding register_reference register_strategy register_random register_sequence register_width
    export_reference
register_reference-export_reference (random r) v = ground arith
register_reference-export_reference (sequence s) v = ground arith

Registers-export :
    (ds : List RegisteredNamespaceDefinition)
    → All ValidDefinition ds
    → Registers (map export_definition ds) ds
unfolding export_definition register_reference
Registers-export [] v = tt
Registers-export (d ∷ ds) v = ((refl, again d.reference v.0.2), Registers-export ds v.1)
  where
    again :
        (o : Option RegisteredReferenceDefinition)
        → ValidReference o
        → register_reference (elim o [ none ↦ none | some r ↦ some (export_reference r) ]) ≡ ok o
    again none w = refl
    again (some r) w = register_reference-export_reference r w

-- Reading in what `exportRegistry` wrote of a well-formed registry gives the registry back, with
-- the same definitions in the same order and the same two maps.
pub import_registry-export_registry :
    (registry : NamespaceRegistry)
    → IsWellFormed registry
    → import_registry (as_exchange (export_registry registry)) ≡ ok registry
unfolding import_registry export_registry
import_registry-export_registry registry w =
    (create_namespace_registry_iff (map export_definition registry.definitions) registry).1
      (Registers-export registry.definitions w.valid, w)
