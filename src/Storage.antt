-- ===== src/Storage.antt =====
-- storage.ts: the contract that a storage adapter fills, a store for random references, an
-- allocator for sequential ones, and a lookup for both. Each acts on a state of the world. The
-- children model what the adapters share.
use identifold.Errors.{Result}
use identifold.Prelude.{Bool, Option, Text}
use identifold.Reference.Decimal.{ℤ}
use identifold.Resolver.{ReferenceLookupResult}
use identifold.Service.Create.Defs.{ReferenceReservation, SequenceAllocationRequest}
pub mod Values
pub mod Bytes
pub mod Sequential
pub mod BigInt

-- `IdentifoldStorageAdapter`
pub record IdentifoldStorageAdapter (W : Type 0) : Type 0 where
  pub reference_store : ReferenceReservation → W → Result Bool × W
  pub sequence_allocator : SequenceAllocationRequest → W → Result ℤ × W
  pub lookup : Text → Text → W → Result (Option ReferenceLookupResult) × W

-- The same three functions, in a new object.
unfoldable pub create_storage_adapter :
    {W : Type 0} → IdentifoldStorageAdapter W → IdentifoldStorageAdapter W
create_storage_adapter adapter = record {
  reference_store = adapter.reference_store;
  sequence_allocator = adapter.sequence_allocator;
  lookup = adapter.lookup;
}
