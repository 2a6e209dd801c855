-- ===== src/Mysql.antt =====
-- mysql.ts: the adapter over a MySQL client, with the retries of an allocation. Between two tries
-- the source waits for a random time: `wait` is what happens to the world meanwhile.
use identifold.Database.{has_code, scope_value}
use identifold.Errors.{
  fail, ◌>>=◌, Foreign, Thrown, Result, allocation_conflict, invalid_allocation_policy,
  sequence_overflow, identifold_error, boundary_error, foreign, ok, err,
}
use identifold.Prelude.{
  ℕ, zero, suc, Bool, true, false, ◌&&◌, ◌||◌, Option, none, some, List, [], ◌∷◌, map, ltb, ◌==◌,
  if◌then◌else◌, Text, codes, text_eq,
}
use identifold.Reference.Decimal.{to_decimal, ℤ}
use identifold.Registry.{whole}
use identifold.Resolver.{ReferenceLookupResult}
use identifold.Service.Create.Defs.{
  throw, return, then_do, ReferenceReservation, SequenceAllocationRequest,
}
use identifold.Storage.{create_storage_adapter, IdentifoldStorageAdapter}
use identifold.Storage.Bytes.{machine_id_to_bytes, bytes_to_machine_id}
use identifold.Storage.Sequential.{parse_sequential_parts, SequentialReferenceParts}
use identifold.Storage.Values.{
  Row, property, as_text, first_property, sequence_number, rethrow, Value,
}
pub mod Retry
pub mod Throws

pub data MySqlStatement : Type 0 where
  call_reserve_reference call_allocate_sequence select_reference select_sequence : MySqlStatement

-- An element of the array of results: a row, an array (whose elements that are no row are `none`),
-- or something else.
pub data Element : Type 0 where
  row : Row → Element
  array : List (Option Row) → Element
  no_row : Element

-- The first component of what `query` returns.
pub data Results : Type 0 where
  no_array : Results
  elements : List Element → Results

abbrev rows_of : List (Option Row) → List Row
rows_of [] = []
rows_of (none ∷ rest) = rows_of rest
rows_of (some r ∷ rest) = r ∷ rows_of rest

abbrev element_row : Element → Option Row
element_row (row r) = some r
element_row (array rows) = none
element_row no_row = none

-- `firstRows`
unfoldable pub first_rows : Results → List Row
first_rows no_array = []
first_rows (elements (array rows ∷ rest)) = rows_of rows
first_rows (elements list) = rows_of (map element_row list)

abbrev pub has_state : Foreign → Text → Bool
has_state e state = elim e.sql_state [ none ↦ false | some s ↦ text_eq s state ]

pub map_mysql_error : Thrown → Thrown
map_mysql_error (identifold_error code) = identifold_error code
map_mysql_error (boundary_error code) = identifold_error allocation_conflict
map_mysql_error (foreign e) =
    if has_state e (codes "22003")
    then identifold_error sequence_overflow
    else if has_state e (codes "22023")
    then identifold_error invalid_allocation_policy
    else identifold_error allocation_conflict

-- `isTransientMySqlError`
unfoldable pub is_transient : Thrown → Bool
is_transient (identifold_error code) = false
is_transient (boundary_error code) = false
is_transient (foreign e) =
    has_state e (codes "40001")
    || has_code e (codes "ER_LOCK_DEADLOCK")
    || has_code e (codes "ER_LOCK_WAIT_TIMEOUT")

-- `reserved === true || reserved === 1 || reserved === "1"`, and likewise for `false`.
abbrev reserved_flag : Option Value → Option Bool
reserved_flag (some (Value.boolean b)) = some b
reserved_flag (some (Value.number (whole n))) =
    if n == 1 then some true else if n == 0 then some false else none
reserved_flag (some (Value.text t)) =
    if text_eq t (codes "1") then some true else if text_eq t (codes "0") then some false else none
reserved_flag _ = none

unfoldable read_reservation : Results → Result Bool
read_reservation result =
    elim (reserved_flag (first_property (first_rows result) (codes "reserved"))) [
      | some reserved ↦ ok reserved
      | none ↦ fail allocation_conflict
    ]

unfoldable pub read_allocation : Results → Result ℤ
read_allocation result =
    elim (sequence_number (first_property (first_rows result) (codes "sequence"))) [
      | some n ↦ ok n
      | none ↦ fail allocation_conflict
    ]

-- `mappingFromRows`
unfoldable mapping_from_rows : List Row → Result ReferenceLookupResult
mapping_from_rows (r ∷ []) = elim (as_text (property r (codes "namespace"))) [
  | none ↦ fail allocation_conflict
  | some namespace ↦ bytes_to_machine_id (property r (codes "machine_id")) >>= λ machine_id.
      ok (record { machine_id = machine_id; namespace = namespace })
]
mapping_from_rows _ = fail allocation_conflict

abbrev some_mapping : List Row → Result (Option ReferenceLookupResult)
some_mapping rows = mapping_from_rows rows >>= λ mapping. ok (some mapping)

-- `rows.length === 0 ? null : mappingFromRows(rows)`
abbrev optional_mapping : List Row → Result (Option ReferenceLookupResult)
optional_mapping [] = ok none
optional_mapping (r ∷ rows) = some_mapping (r ∷ rows)

abbrev pub MySqlQuery : Type 0 → Type 0
MySqlQuery W = MySqlStatement → List Value → W → Result Results × W

module _ {W : Type 0} where
  -- What follows an attempt: its result, or the next attempt, or the error.
  abbrev pub or_again : (W → Result ℤ × W) → ℕ → Result ℤ × W → Result ℤ × W
  or_again again attempt (ok allocated, w) = (ok allocated, w)
  or_again again attempt (err e, w) = elim (ltb attempt 4 && is_transient e) [
    | true ↦ again w
    | false ↦ (err (map_mysql_error e), w)
  ]

module _ {W : Type 0} (query : MySqlQuery W) where
  pub mysql_reserve : ReferenceReservation → W → Result Bool × W
  mysql_reserve reservation w = rethrow map_mysql_error (
      then_do (return (machine_id_to_bytes reservation.machine_id) w) λ b w1.
        then_do
          (query call_reserve_reference
            (Value.bytes b
              ∷ Value.text reservation.namespace
              ∷ Value.text reservation.reference
              ∷ [])
            w1)
          λ result. return (read_reservation result))

  -- The body of `try` in `allocate`.
  unfoldable pub allocation_attempt : SequenceAllocationRequest → W → Result ℤ × W
  allocation_attempt request w = then_do (return (machine_id_to_bytes request.machine_id) w) λ b w1.
      then_do
        (query call_allocate_sequence
          (Value.bytes b
            ∷ Value.text request.namespace
            ∷ Value.text request.reference_prefix
            ∷ scope_value request.scope
            ∷ Value.number (whole request.width)
            ∷ [])
          w1)
        λ result. return (read_allocation result)

  -- The loop over the attempts, with the number of rounds left.
  pub allocation_loop : (wait : ℕ → W → W) → SequenceAllocationRequest → ℕ → ℕ → W → Result ℤ × W
  allocation_loop wait request zero attempt w = throw (identifold_error allocation_conflict) w
  allocation_loop wait request (suc n) attempt w =
      or_again (λ u. allocation_loop wait request n (suc attempt) (wait attempt u)) attempt
        (allocation_attempt request w)

  pub mysql_allocate : (wait : ℕ → W → W) → SequenceAllocationRequest → W → Result ℤ × W
  mysql_allocate wait request w = allocation_loop wait request 5 0 w

  -- The second query, for a sequential reference.
  unfoldable lookup_sequence :
      Text → SequentialReferenceParts → W → Result (Option ReferenceLookupResult) × W
  lookup_sequence namespace parts w =
      then_do
        (query select_sequence
          (Value.text namespace
            ∷ Value.text parts.prefix
            ∷ Value.text parts.scope
            ∷ Value.text (to_decimal parts.sequence)
            ∷ [])
          w)
        λ result. return (optional_mapping (first_rows result))

  pub mysql_lookup : Text → Text → W → Result (Option ReferenceLookupResult) × W
  mysql_lookup reference namespace w = rethrow map_mysql_error (
      then_do (query select_reference (Value.text reference ∷ Value.text namespace ∷ []) w)
        λ result w1. elim (first_rows result) [
          | [] ↦ elim (parse_sequential_parts reference) [
            | none ↦ return (ok none) w1
            | some parts ↦ lookup_sequence namespace parts w1
          ]
          | r ∷ rows ↦ return (some_mapping (r ∷ rows)) w1
        ])

  -- `createMySqlStorageAdapter`
  unfoldable create_mysql_storage_adapter : (wait : ℕ → W → W) → IdentifoldStorageAdapter W
  create_mysql_storage_adapter wait = create_storage_adapter (record {
    reference_store = mysql_reserve;
    sequence_allocator = mysql_allocate wait;
    lookup = mysql_lookup;
  })
