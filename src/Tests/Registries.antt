-- ===== src/Tests/Registries.antt =====
-- The sample registry, created, searched, exported and imported.
use mathlib.Core.List.{Memᴰ}
use identifold.Errors.{ok}
use identifold.Exchange.{import_registry-export_registry}
use identifold.Exchange.Defs.{export_registry, import_registry, as_exchange}
use identifold.Prelude.{◌≡◌, refl, ◌↔◌, none, some, List, [], ◌∷◌, codes, upper_unit}
use identifold.Registry.{
  get_by_public_prefix, upper_case, get_by_reference_prefix, is_type_id_prefix, is_reference_prefix,
  validate_public_prefix, profile_length, register_random, register_width, register_sequence,
  register_strategy, register_reference, check_prefix_free, check_reference_prefix, add_namespace,
  register, register_all, create_namespace_registry, NamespaceDefinition, whole, not_integer,
}
use identifold.Registry.Creation.{Registers, create_namespace_registry_iff}
use identifold.Registry.Lookup.{
  HasReferencePrefix, get_by_public_prefix_iff, get_by_reference_prefix_iff,
}
use identifold.Registry.WellFormed.{IsWellFormed}
use identifold.Samples.{invoice, sample_registry, sample_registry-IsWellFormed}

abbrev sample_definitions : List NamespaceDefinition
sample_definitions =
    record {
      public_prefix = codes "order";
      reference = some (record {
        prefix = codes "ORD";
        strategy = codes "random";
        profile = none;
        scope = none;
        width = not_integer;
      });
    }
    ∷ record {
      public_prefix = codes "invoice";
      reference = some (record {
        prefix = codes "INV";
        strategy = codes "sequence";
        profile = none;
        scope = some (codes "calendar-year");
        width = whole 6;
      });
    }
    ∷ []

sample_created : create_namespace_registry sample_definitions ≡ ok sample_registry
unfolding create_namespace_registry register_all register validate_public_prefix is_type_id_prefix
    register_reference is_reference_prefix register_strategy register_random register_sequence
    register_width profile_length check_reference_prefix check_prefix_free add_namespace upper_unit
sample_created = refl

create_namespace_registry_iff_example :
    Registers sample_definitions sample_registry.definitions × IsWellFormed sample_registry
create_namespace_registry_iff_example =
    (create_namespace_registry_iff sample_definitions sample_registry).0 sample_created

import_registry-export_registry_example :
    import_registry (as_exchange (export_registry sample_registry)) ≡ ok sample_registry
import_registry-export_registry_example =
    import_registry-export_registry sample_registry sample_registry-IsWellFormed

get_by_public_prefix_iff_example :
    (get_by_public_prefix sample_registry (codes "invoice") ≡ some invoice)
    ↔ (Memᴰ invoice sample_registry.definitions × (invoice.public_prefix ≡ codes "invoice"))
get_by_public_prefix_iff_example =
    get_by_public_prefix_iff sample_registry (codes "invoice") invoice sample_registry-IsWellFormed

get_by_reference_prefix_iff_example :
    (get_by_reference_prefix sample_registry (codes "inv") ≡ some invoice) ↔ (
      Memᴰ invoice sample_registry.definitions
      × HasReferencePrefix invoice (upper_case (codes "inv")))
get_by_reference_prefix_iff_example =
    get_by_reference_prefix_iff sample_registry (codes "inv") invoice sample_registry-IsWellFormed
