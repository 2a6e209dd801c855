-- ===== src/Sqlite/Throws.antt =====
-- What the SQLite adapter (sqlite.ts) throws.
use identifold.Errors.{
  Code, Thrown, Result, allocation_conflict, identifold_error, boundary_error, foreign, ok, err,
}
use identifold.Prelude.{◌≡◌, refl, inl, inr, ◌&&◌, leb, Bool-cases, Text}
use identifold.Reference.Decimal.{ℤ}
use identifold.Service.Create.Defs.{ReferenceReservation, SequenceAllocationRequest}
use identifold.Sqlite.{
  map_sqlite_error, sqlite_reserve, roll_back, sqlite_allocate, sqlite_lookup, SqliteDatabase,
}
use identifold.Storage.Values.{ThrowsIdentifold, rethrow-ThrowsIdentifold}

map_sqlite_error-code : (e : Thrown) → (c : Code) × (map_sqlite_error e ≡ identifold_error c)
unfolding map_sqlite_error
map_sqlite_error-code (identifold_error c) = (c, refl)
map_sqlite_error-code (boundary_error c) = (allocation_conflict, refl)
map_sqlite_error-code (foreign e) = (allocation_conflict, refl)

roll_back-ThrowsIdentifold :
    {W : Type 0} (database : SqliteDatabase W) (p : Result ℤ × W)
    → ThrowsIdentifold (roll_back database p).0
unfolding roll_back
roll_back-ThrowsIdentifold database (ok n, w) = tt
roll_back-ThrowsIdentifold database (err e, w) = let (c, is) = map_sqlite_error-code e in rw is tt

sqlite_allocate-ThrowsIdentifold :
    {W : Type 0} (database : SqliteDatabase W) (request : SequenceAllocationRequest) (w : W)
    → ThrowsIdentifold (sqlite_allocate database request w).0
unfolding sqlite_allocate
sqlite_allocate-ThrowsIdentifold database request w =
    elim (Bool-cases (leb 4 request.width && leb request.width 18)) [
      | inl inside ↦ rw inside (roll_back-ThrowsIdentifold database _)
      | inr outside ↦ rw outside tt
    ]

-- Whatever the database does, the store, the allocator and the lookup throw nothing but an
-- `IdentifoldError`.
pub sqlite_throws :
    {W : Type 0} (database : SqliteDatabase W) (reservation : ReferenceReservation)
    (request : SequenceAllocationRequest) (reference namespace : Text) (w : W)
    → ThrowsIdentifold (sqlite_reserve database reservation w).0
      × ThrowsIdentifold (sqlite_allocate database request w).0
      × ThrowsIdentifold (sqlite_lookup database reference namespace w).0
unfolding sqlite_reserve sqlite_lookup
sqlite_throws database reservation request reference namespace w = (
  rethrow-ThrowsIdentifold map_sqlite_error map_sqlite_error-code _,
  sqlite_allocate-ThrowsIdentifold database request w,
  rethrow-ThrowsIdentifold map_sqlite_error map_sqlite_error-code _,
)
