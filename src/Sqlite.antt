-- ===== src/Sqlite.antt =====
-- sqlite.ts: the adapter over a SQLite database, whose allocations are transactions. What the
-- database does with a statement is a parameter.
use identifold.Errors.{
  fail, ◌>>=◌, Thrown, Result, allocation_conflict, invalid_allocation_policy, sequence_overflow,
  identifold_error, boundary_error, foreign, ok, err,
}
use identifold.Prelude.{
  ℕ, zero, suc, ◌+◌, ◌-◌, ◌^◌, Bool, false, ◌&&◌, Option, none, some, List, [], ◌∷◌, leb, ◌==◌,
  if◌then◌else◌, Text, codes, text_eq,
}
use identifold.Reference.Decimal.{ℤ, pos, negsuc}
use identifold.Registry.{Number, whole, sequence}
use identifold.Resolver.{ReferenceLookupResult}
use identifold.Service.Create.Defs.{
  throw, return, then_do, ReferenceReservation, SequenceAllocationRequest,
}
use identifold.Storage.{create_storage_adapter, IdentifoldStorageAdapter}
use identifold.Storage.BigInt.{big_int_of_text}
use identifold.Storage.Bytes.{machine_id_to_bytes, bytes_to_machine_id}
use identifold.Storage.Sequential.{parse_sequential_parts, SequentialReferenceParts}
use identifold.Storage.Values.{Row, property, as_text, rethrow, Value}
pub mod Tables
pub mod Laws
pub mod Specification
pub mod Refinement
pub mod Sound
pub mod Safety
pub mod Lookup
pub mod Resolution
pub mod Reservation
pub mod Nested
pub mod Throws

-- A value that `get` returns: an object that is no array, or anything else.
pub data Got : Type 0 where
  record_of : Row → Got
  no_object : Got

-- The statements, by their texts.
pub data SqliteCommand : Type 0 where
  begin_immediate commit rollback : SqliteCommand

pub data SqliteStatement : Type 0 where
  insert_reference select_allocation insert_sequence select_state update_sequence : SqliteStatement
  insert_allocation select_random select_sequential : SqliteStatement

-- `SqliteDatabase` with its `SqliteStatement`s: `prepare` may throw, and a statement that was
-- prepared is asked for a row or run, which returns the number of changes.
pub record SqliteDatabase (W : Type 0) : Type 0 where
  pub exec : SqliteCommand → W → Result (Unit {0}) × W
  pub prepare : SqliteStatement → W → Result (Unit {0}) × W
  pub get : SqliteStatement → List Value → W → Result Got × W
  pub run : SqliteStatement → List Value → W → Result Number × W

-- `recordOrNull`
unfoldable pub record_or_null : Got → Option Row
record_or_null (record_of r) = some r
record_or_null no_object = none

pub map_sqlite_error : Thrown → Thrown
map_sqlite_error (identifold_error code) = identifold_error code
map_sqlite_error (boundary_error code) = identifold_error allocation_conflict
map_sqlite_error (foreign e) = identifold_error allocation_conflict

-- `mappingFromRecord`
pub mapping_from_record : Row → Result ReferenceLookupResult
mapping_from_record r = elim (as_text (property r (codes "namespace"))) [
  | none ↦ fail allocation_conflict
  | some namespace ↦ bytes_to_machine_id (property r (codes "machine_id")) >>= λ machine_id.
      ok (record { machine_id = machine_id; namespace = namespace })
]

-- `value === text`, and `value === n` for an integer `n` that is not negative.
abbrev is_text : Option Value → Text → Bool
is_text value t = elim (as_text value) [ none ↦ false | some s ↦ text_eq s t ]

abbrev pub is_number : Option Value → ℕ → Bool
is_number (some (Value.number (whole m))) n = m == n
is_number _ n = false

-- `request.scope ?? ""`
abbrev pub scope_or_empty : Option Text → Text
scope_or_empty none = []
scope_or_empty (some scope) = scope

-- `BigInt(text)`
abbrev pub to_big_int : Text → Result ℤ
to_big_int t = elim (big_int_of_text t) [
  | some n ↦ ok n
  | none ↦ err (foreign (record { code = none; sql_state = none }))
]

-- The column of a row that must have the prefix and the width of the request; the column is a text.
unfoldable pub matching_text : SequenceAllocationRequest → Text → Row → Result Text
matching_text request column r =
    if is_text (property r (codes "reference_prefix")) request.reference_prefix
      && is_number (property r (codes "width")) request.width
    then elim (as_text (property r column)) [
      | some t ↦ ok t
      | none ↦ fail invalid_allocation_policy
    ]
    else fail invalid_allocation_policy

-- The number after `current`, unless there is none of the width.
unfoldable pub next_number : ℕ → ℤ → Result ℤ
next_number width (pos current) =
    if leb (10 ^ width - 1) current then fail sequence_overflow else ok (pos (current + 1))
next_number width (negsuc zero) = ok (pos 0)
next_number width (negsuc (suc n)) = ok (negsuc n)

module _ {W : Type 0} (database : SqliteDatabase W) where
  -- `prepare(…).get(…)` and `prepare(…).run(…)`. The values are evaluated in between.
  abbrev pub get_row : SqliteStatement → Result (List Value) → W → Result (Option Row) × W
  get_row statement values w = then_do (database.prepare statement w) λ done w1.
      then_do (return values w1)
        λ bound w2. then_do (database.get statement bound w2) (λ r. return (ok (record_or_null r)))

  abbrev pub run_with : SqliteStatement → Result (List Value) → W → Result Number × W
  run_with statement values w =
      then_do (database.prepare statement w)
        λ done w1. then_do (return values w1) (λ bound. database.run statement bound)

  -- The statement of the store is prepared when the store is created.
  unfoldable pub sqlite_reserve : ReferenceReservation → W → Result Bool × W
  sqlite_reserve reservation w = rethrow map_sqlite_error (
      then_do (return (machine_id_to_bytes reservation.machine_id) w) λ b w1.
        then_do
          (database.run insert_reference
            (Value.text reservation.reference
              ∷ Value.text reservation.namespace
              ∷ Value.bytes b
              ∷ [])
            w1)
          λ changes. return (ok (is_number (some (Value.number changes)) 1)))

  -- What is left to do when the allocation was found.
  pub return_existing : SequenceAllocationRequest → Row → W → Result ℤ × W
  return_existing request r w =
      then_do (return (matching_text request (codes "sequence") r) w)
        λ sequence w1. then_do (database.exec commit w1) (λ done. return (to_big_int sequence))

  -- The number is stored for the sequence and for the machine identifier.
  unfoldable pub store_allocated : SequenceAllocationRequest → Text → ℤ → W → Result ℤ × W
  store_allocated request scope allocated w =
      then_do
        (run_with update_sequence
          (ok (Value.bigint allocated ∷ Value.text request.namespace ∷ Value.text scope ∷ [])) w)
        λ stored w1.
          then_do
            (run_with insert_allocation
              (machine_id_to_bytes request.machine_id >>= λ b. ok (
                Value.text request.namespace
                ∷ Value.text scope
                ∷ Value.bigint allocated
                ∷ Value.bytes b
                ∷ Value.text request.reference_prefix
                ∷ Value.number (whole request.width)
                ∷ []))
              w1)
            λ added w2. then_do (database.exec commit w2) (λ done. return (ok allocated))

  -- The rest for a sequence whose row is read.
  unfoldable pub allocate_next : SequenceAllocationRequest → Text → Option Row → W → Result ℤ × W
  allocate_next request scope none w = throw (identifold_error invalid_allocation_policy) w
  allocate_next request scope (some r) w =
      then_do
        (return
          (matching_text request (codes "last_value") r >>= λ last_value.
            to_big_int last_value >>= next_number request.width)
          w)
        (store_allocated request scope)

  -- What is left to do when there is no allocation.
  unfoldable pub allocate_new : SequenceAllocationRequest → Text → W → Result ℤ × W
  allocate_new request scope w =
      then_do
        (run_with insert_sequence
          (ok (
            Value.text request.namespace
            ∷ Value.text scope
            ∷ Value.text request.reference_prefix
            ∷ Value.number (whole request.width)
            ∷ []))
          w)
        λ added w1.
          then_do
            (get_row select_state (ok (Value.text request.namespace ∷ Value.text scope ∷ [])) w1)
            (allocate_next request scope)

  abbrev pub existing_or_new : SequenceAllocationRequest → Text → Option Row → W → Result ℤ × W
  existing_or_new request scope none = allocate_new request scope
  existing_or_new request scope (some r) = return_existing request r

  -- The body of `try` in `allocate`.
  unfoldable pub allocation_transaction : SequenceAllocationRequest → Text → W → Result ℤ × W
  allocation_transaction request scope w = then_do (database.exec begin_immediate w) λ begun w1.
      then_do
        (get_row select_allocation
          (machine_id_to_bytes request.machine_id >>= λ b.
            ok (Value.text request.namespace ∷ Value.text scope ∷ Value.bytes b ∷ []))
          w1)
        (existing_or_new request scope)

  -- The `catch`: whatever was thrown, a `ROLLBACK`, whose own error is ignored.
  unfoldable pub roll_back : Result ℤ × W → Result ℤ × W
  roll_back (ok allocated, w) = (ok allocated, w)
  roll_back (err e, w) = (err (map_sqlite_error e), (database.exec rollback w).1)

  unfoldable pub sqlite_allocate : SequenceAllocationRequest → W → Result ℤ × W
  sqlite_allocate request w =
      if leb 4 request.width && leb request.width 18
      then roll_back (allocation_transaction request (scope_or_empty request.scope) w)
      else throw (identifold_error invalid_allocation_policy) w

  abbrev pub mapping_or_null : Option Row → Result (Option ReferenceLookupResult)
  mapping_or_null none = ok none
  mapping_or_null (some r) = mapping_from_record r >>= λ mapping. ok (some mapping)

  -- The second query, for a sequential reference.
  pub lookup_sequential :
      Text → Option SequentialReferenceParts → W → Result (Option ReferenceLookupResult) × W
  lookup_sequential namespace none w = return (ok none) w
  lookup_sequential namespace (some parts) w =
      then_do
        (get_row select_sequential
          (ok (
            Value.text namespace
            ∷ Value.text parts.prefix
            ∷ Value.text parts.scope
            ∷ Value.bigint (pos parts.sequence)
            ∷ []))
          w)
        (λ r. return (mapping_or_null r))

  -- A row for the reference itself, or the second query.
  abbrev pub random_or_sequential :
      Text → Text → Option Row → W → Result (Option ReferenceLookupResult) × W
  random_or_sequential reference namespace (some r) w = return (mapping_or_null (some r)) w
  random_or_sequential reference namespace none w =
      lookup_sequential namespace (parse_sequential_parts reference) w

  pub sqlite_lookup : Text → Text → W → Result (Option ReferenceLookupResult) × W
  sqlite_lookup reference namespace w = rethrow map_sqlite_error (
      then_do (get_row select_random (ok (Value.text reference ∷ Value.text namespace ∷ [])) w)
        (random_or_sequential reference namespace))

  -- `createSqliteStorageAdapter`
  unfoldable create_sqlite_storage_adapter : W → Result (IdentifoldStorageAdapter W) × W
  create_sqlite_storage_adapter w = then_do (database.prepare insert_reference w) λ done. return (
      ok (
        create_storage_adapter (record {
          reference_store = sqlite_reserve;
          sequence_allocator = sqlite_allocate;
          lookup = sqlite_lookup;
        })))
