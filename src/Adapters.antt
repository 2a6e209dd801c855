-- ===== src/Adapters.antt =====
-- What the storage adapters (database.ts, mysql.ts, sqlite.ts) have in common.
use identifold.Database.{DatabaseQuery, database_reserve, database_allocate, database_lookup}
use identifold.Database.Outcome.{database_throws}
use identifold.Mysql.{MySqlQuery, mysql_reserve, mysql_allocate, mysql_lookup}
use identifold.Mysql.Throws.{mysql_throws}
use identifold.Prelude.{ℕ, Text}
use identifold.Service.Create.Defs.{ReferenceReservation, SequenceAllocationRequest}
use identifold.Sqlite.{sqlite_reserve, sqlite_allocate, sqlite_lookup, SqliteDatabase}
use identifold.Sqlite.Throws.{sqlite_throws}
use identifold.Storage.Values.{ThrowsIdentifold}

-- Whatever the clients of the databases do, the store, the allocator and the lookup of each of the
-- three adapters throw nothing but an `IdentifoldError`.
pub adapters_throw :
    {W : Type 0} (query : DatabaseQuery W) (mysql : MySqlQuery W) (wait : ℕ → W → W)
    (sqlite : SqliteDatabase W) (reservation : ReferenceReservation)
    (request : SequenceAllocationRequest) (reference namespace : Text) (w : W)
    → (ThrowsIdentifold (database_reserve query reservation w).0
        × ThrowsIdentifold (database_allocate query request w).0
        × ThrowsIdentifold (database_lookup query reference namespace w).0)
      × (ThrowsIdentifold (mysql_reserve mysql reservation w).0
          × ThrowsIdentifold (mysql_allocate mysql wait request w).0
          × ThrowsIdentifold (mysql_lookup mysql reference namespace w).0)
      × (ThrowsIdentifold (sqlite_reserve sqlite reservation w).0
          × ThrowsIdentifold (sqlite_allocate sqlite request w).0
          × ThrowsIdentifold (sqlite_lookup sqlite reference namespace w).0)
adapters_throw query mysql wait sqlite reservation request reference namespace w = (
  database_throws query reservation request reference namespace w,
  mysql_throws mysql wait reservation request reference namespace w,
  sqlite_throws sqlite reservation request reference namespace w,
)
