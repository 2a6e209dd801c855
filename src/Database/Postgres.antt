-- ===== src/Database/Postgres.antt =====
-- postgres.ts: a client whose `query` returns an object with the rows.
use identifold.Database.{
  DatabaseQuery, database_reserve, database_allocate, database_lookup, DatabaseStatement,
}
use identifold.Errors.{Result, ok}
use identifold.Prelude.{List}
use identifold.Service.Create.Defs.{return, then_do}
use identifold.Storage.{create_storage_adapter, IdentifoldStorageAdapter}
use identifold.Storage.Values.{Row, Value}

pub record PostgresResult : Type 0 where
  pub rows : List Row

module _ {W : Type 0}
    (client : DatabaseStatement → List Value → W → Result PostgresResult × W) where
  -- `async (text, values) => (await client.query(text, values)).rows`
  unfoldable postgres_query : DatabaseQuery W
  postgres_query statement values w =
      then_do (client statement values w) (λ result. return (ok result.rows))

  -- `createPostgresStorageAdapter`, with the three functions that it puts together.
  unfoldable create_postgres_storage_adapter : IdentifoldStorageAdapter W
  create_postgres_storage_adapter = create_storage_adapter (record {
    reference_store = database_reserve postgres_query;
    sequence_allocator = database_allocate postgres_query;
    lookup = database_lookup postgres_query;
  })
