-- ===== src/Database/Drizzle.antt =====
-- drizzle.ts: a client that takes a query built by the template `sql` of drizzle-orm, and returns
-- an array of rows, an object with such an array, or something else.
use identifold.Database.{
  DatabaseQuery, reservation_values, request_values, database_reserve, database_allocate,
  DatabaseStatement, reserve_reference_sql, allocate_sequence_sql, resolve_reference_sql,
}
use identifold.Errors.{Thrown, Result, ok, err}
use identifold.Prelude.{
  ◌≡◌, refl, ◌⊎◌, inl, inr, Bool, Option, none, some, List, [], ◌∷◌, map, get_elem?,
}
use identifold.Reference.Decimal.{ℤ}
use identifold.Service.Create.Defs.{
  return, then_do, ReferenceReservation, SequenceAllocationRequest,
}
use identifold.Storage.Values.{Row, Value}

-- The query that is built: a template filled with values, where a value that is not there is
-- `none`, or a raw text.
pub data Sql : Type 0 where
  reserve_template : Option Value → Option Value → Option Value → Sql
  allocate_template : Option Value → Option Value → Option Value → Option Value → Option Value → Sql
  raw : DatabaseStatement → Sql

pub data Executed : Type 0 where
  row_array : List Row → Executed
  object_with_rows : List Row → Executed
  something_else : Executed

drizzle_sql : DatabaseStatement → List Value → Sql
drizzle_sql reserve_reference_sql values =
    reserve_template (get_elem? values 0) (get_elem? values 1) (get_elem? values 2)
drizzle_sql allocate_sequence_sql values =
    allocate_template (get_elem? values 0) (get_elem? values 1) (get_elem? values 2)
      (get_elem? values 3) (get_elem? values 4)
drizzle_sql resolve_reference_sql values = raw resolve_reference_sql

unfoldable pub executed_rows : Executed → List Row
executed_rows (row_array rows) = rows
executed_rows (object_with_rows rows) = rows
executed_rows something_else = []

module _ {W : Type 0} (client : Sql → W → Result Executed × W) where
  drizzle_execute : DatabaseQuery W
  drizzle_execute statement values w =
      then_do (client (drizzle_sql statement values) w)
        (λ result. return (ok (executed_rows result)))

  pub create_drizzle_reference_store : ReferenceReservation → W → Result Bool × W
  create_drizzle_reference_store = database_reserve drizzle_execute

  pub create_drizzle_sequence_allocator : SequenceAllocationRequest → W → Result ℤ × W
  create_drizzle_sequence_allocator = database_allocate drizzle_execute

-- What a query of drizzle-orm stands for: the statement with its values bound in order.
abbrev pub bound : Sql → Option (DatabaseStatement × List (Option Value))
bound (reserve_template a b c) = some (reserve_reference_sql, a ∷ b ∷ c ∷ [])
bound (allocate_template a b c d e) = some (allocate_sequence_sql, a ∷ b ∷ c ∷ d ∷ e ∷ [])
bound (raw statement) = none

-- The client returns the rows that the function returns, in an array or in an object, or it throws
-- what the function throws.
abbrev pub Gives : {W : Type 0} → Result (List Row) × W → Result Executed × W → Type 0
Gives p q =
    (((rows : List Row) × (p.0 ≡ ok rows)
        × ((q.0 ≡ ok (row_array rows)) ⊎ (q.0 ≡ ok (object_with_rows rows))))
      ⊎ ((e : Thrown) × (p.0 ≡ err e) × (q.0 ≡ err e)))
    × (p.1 ≡ q.1)

executed-Gives :
    {W : Type 0} (p : Result (List Row) × W) (q : Result Executed × W)
    → Gives p q
    → then_do q (λ result. return (ok (executed_rows result))) ≡ p
unfolding executed_rows
executed-Gives {W} (r, v) (x, u) (inl (rows, is, inl array), same) = rw (is, array, same) refl
executed-Gives {W} (r, v) (x, u) (inl (rows, is, inr object), same) = rw (is, object, same) refl
executed-Gives {W} (r, v) (x, u) (inr (e, is, thrown), same) = rw (is, thrown, same) refl

module _ {W : Type 0} (query : DatabaseQuery W) (client : Sql → W → Result Executed × W)
    (runs : (sql : Sql) (statement : DatabaseStatement) (values : List Value) (w : W)
      → bound sql ≡ some (statement, map some values)
      → Gives (query statement values w) (client sql w)) where
  executed :
      (sql : Sql) (statement : DatabaseStatement) (values : List Value) (w : W)
      → bound sql ≡ some (statement, map some values)
      → then_do (client sql w) (λ result. return (ok (executed_rows result)))
        ≡ query statement values w
  executed sql statement values w h = executed-Gives _ _ (runs sql statement values w h)

  -- When the client runs the statement of a template with its values in order, and returns the rows
  -- of a function that runs statements, in an array or in the field `rows` of an object, or throws
  -- what that function throws, then the store and the allocator do what those of database.ts do with
  -- the function.
  pub drizzle_agrees :
      (reservation : ReferenceReservation) (request : SequenceAllocationRequest) (w : W)
      → (create_drizzle_reference_store client reservation w ≡ database_reserve query reservation w)
        × (create_drizzle_sequence_allocator client request w ≡ database_allocate query request w)
  unfolding create_drizzle_reference_store create_drizzle_sequence_allocator database_reserve
      database_allocate drizzle_execute drizzle_sql
  drizzle_agrees reservation request w = (
    rw (executed _ reserve_reference_sql (reservation_values reservation) w refl),
    rw (executed _ allocate_sequence_sql (request_values request) w refl),
  )
