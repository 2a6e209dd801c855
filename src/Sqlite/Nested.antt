-- ===== src/Sqlite/Nested.antt =====
-- An allocation of sqlite.ts while the caller has a transaction open.
use identifold.Errors.{fail, Foreign, Result, allocation_conflict, foreign, ok, err}
use identifold.Prelude.{ℕ, ◌≤◌, ◌≡◌, refl, ap, ◌∙◌, true, ◌&&◌, arith, leb}
use identifold.Reference.Decimal.{ℤ}
use identifold.Service.Create.Defs.{then_do, SequenceAllocationRequest}
use identifold.Sqlite.{
  map_sqlite_error, allocation_transaction, roll_back, sqlite_allocate, SqliteDatabase,
}
use identifold.Sqlite.Laws.{SqliteLaws}
use identifold.Sqlite.Tables.{closed, in_transaction, rolled_back, Tables, Session}

module _ {W : Type 0} (database : SqliteDatabase W) (view : W → Session)
    (laws : SqliteLaws database view) (request : SequenceAllocationRequest) where
  failed_begin :
      (count : ℕ) (before : Tables) (p : Result (Unit {0}) × W) (f : Unit {0} → W → Result ℤ × W)
      (e : Foreign)
      → p.0 ≡ err (foreign e)
      → rolled_back (view p.1) ≡ closed count before
      → ((roll_back database (then_do p f)).0 ≡ fail allocation_conflict)
        × (view (roll_back database (then_do p f)).1 ≡ closed count before)
  unfolding roll_back map_sqlite_error
  failed_begin count before (ok done, v) f e is undone = cc is
  failed_begin count before (err x, v) f e is undone =
      let thrown : x ≡ foreign e = cc is in rw thrown (refl, laws.rollback_restores v ∙ undone)

  -- When a transaction is open, an allocation for a width that is allowed fails with
  -- `allocation_conflict`, and its `ROLLBACK` ends that transaction: the tables are again those from
  -- before it began.
  pub sqlite_allocate_nested :
      (count : ℕ) (before t : Tables) (w : W)
      → view w ≡ in_transaction count before t
      → 4 ≤ request.width
      → request.width ≤ 18
      → ((sqlite_allocate database request w).0 ≡ fail allocation_conflict)
        × (view (sqlite_allocate database request w).1 ≡ closed count before)
  unfolding sqlite_allocate allocation_transaction rolled_back
  sqlite_allocate_nested count before t w opened low high =
      let (e, is, same_view) = laws.begin_nested w count before t opened in
      let inside : (leb 4 request.width && leb request.width 18) ≡ true = ground arith in
      rw inside (failed_begin count before _ _ e is (ap rolled_back (same_view ∙ opened)))
