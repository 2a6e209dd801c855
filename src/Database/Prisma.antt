-- ===== src/Database/Prisma.antt =====
-- prisma.ts: a client that takes the values as further arguments and returns the rows.
use identifold.Database.{DatabaseQuery, database_reserve, database_allocate, DatabaseStatement}
use identifold.Errors.{Result}
use identifold.Prelude.{Bool, List}
use identifold.Reference.Decimal.{ℤ}
use identifold.Service.Create.Defs.{ReferenceReservation, SequenceAllocationRequest}
use identifold.Storage.Values.{Row, Value}

module _ {W : Type 0}
    (query_raw_unsafe : DatabaseStatement → List Value → W → Result (List Row) × W) where
  unfoldable prisma_query : DatabaseQuery W
  prisma_query statement values w = query_raw_unsafe statement values w

  unfoldable create_prisma_reference_store : ReferenceReservation → W → Result Bool × W
  create_prisma_reference_store = database_reserve prisma_query

  unfoldable create_prisma_sequence_allocator : SequenceAllocationRequest → W → Result ℤ × W
  create_prisma_sequence_allocator = database_allocate prisma_query
