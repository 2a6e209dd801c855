-- ===== src/Database.antt =====
-- database.ts: the adapter over a function that runs a statement and returns rows.
use identifold.Errors.{
  fail, Foreign, Thrown, Result, allocation_conflict, invalid_allocation_policy, sequence_overflow,
  identifold_error, boundary_error, foreign, ok,
}
use identifold.Prelude.{
  Bool, false, Option, none, some, List, [], ◌∷◌, if◌then◌else◌, Text, codes, text_eq,
}
use identifold.Reference.Decimal.{ℤ}
use identifold.Registry.{whole}
use identifold.Resolver.{ReferenceLookupResult}
use identifold.Service.Create.Defs.{
  return, then_do, ReferenceReservation, SequenceAllocationRequest,
}
use identifold.Storage.Values.{
  Row, property, as_text, first_property, sequence_number, rethrow, Value,
}
pub mod Postgres
pub mod Prisma
pub mod Drizzle
pub mod Outcome

-- The three texts of SQL.
pub data DatabaseStatement : Type 0 where
  reserve_reference_sql allocate_sequence_sql resolve_reference_sql : DatabaseStatement

abbrev pub DatabaseQuery : Type 0 → Type 0
DatabaseQuery W = DatabaseStatement → List Value → W → Result (List Row) × W

-- `isDatabaseError(error) && error.code === code`
abbrev pub has_code : Foreign → Text → Bool
has_code e code = elim e.code [ none ↦ false | some c ↦ text_eq c code ]

pub map_database_error : Thrown → Thrown
map_database_error (identifold_error code) = identifold_error code
map_database_error (boundary_error code) = identifold_error allocation_conflict
map_database_error (foreign e) =
    if has_code e (codes "22003")
    then identifold_error sequence_overflow
    else if has_code e (codes "22023")
    then identifold_error invalid_allocation_policy
    else identifold_error allocation_conflict

unfoldable read_reserved : List Row → Result Bool
read_reserved rows = elim (first_property rows (codes "reserved")) [
  | some (Value.boolean reserved) ↦ ok reserved
  | _ ↦ fail allocation_conflict
]

unfoldable read_sequence : List Row → Result ℤ
read_sequence rows = elim (sequence_number (first_property rows (codes "sequence"))) [
  | some n ↦ ok n
  | none ↦ fail allocation_conflict
]

unfoldable pub read_mapping : List Row → Result (Option ReferenceLookupResult)
read_mapping [] = ok none
read_mapping (row ∷ []) = elim (as_text (property row (codes "machine_id"))) [
  | none ↦ fail allocation_conflict
  | some machine_id ↦ elim (as_text (property row (codes "namespace"))) [
    | none ↦ fail allocation_conflict
    | some namespace ↦ ok (some (record { machine_id = machine_id; namespace = namespace }))
  ]
]
read_mapping (row ∷ next ∷ rows) = fail allocation_conflict

-- `scope` as a parameter: `null` or a text.
abbrev pub scope_value : Option Text → Value
scope_value none = Value.null
scope_value (some scope) = Value.text scope

abbrev pub reservation_values : ReferenceReservation → List Value
reservation_values reservation =
    Value.text reservation.machine_id
    ∷ Value.text reservation.namespace
    ∷ Value.text reservation.reference
    ∷ []

abbrev pub request_values : SequenceAllocationRequest → List Value
request_values request =
    Value.text request.machine_id
    ∷ Value.text request.namespace
    ∷ Value.text request.reference_prefix
    ∷ scope_value request.scope
    ∷ Value.number (whole request.width)
    ∷ []

module _ {W : Type 0} (query : DatabaseQuery W) where
  -- `createDatabaseReferenceStore`
  pub database_reserve : ReferenceReservation → W → Result Bool × W
  database_reserve reservation w = rethrow map_database_error (
      then_do (query reserve_reference_sql (reservation_values reservation) w)
        λ rows. return (read_reserved rows))

  -- `createDatabaseSequenceAllocator`
  pub database_allocate : SequenceAllocationRequest → W → Result ℤ × W
  database_allocate request w = rethrow map_database_error (
      then_do (query allocate_sequence_sql (request_values request) w)
        λ rows. return (read_sequence rows))

  -- `createDatabaseReferenceLookup`
  unfoldable pub database_lookup : Text → Text → W → Result (Option ReferenceLookupResult) × W
  database_lookup reference namespace w = rethrow map_database_error (
      then_do (query resolve_reference_sql (Value.text reference ∷ Value.text namespace ∷ []) w)
        λ rows. return (read_mapping rows))
