-- ===== src/Tests/Databases.antt =====
-- The adapters of database.ts, drizzle.ts and mysql.ts, and the encodings of sql-storage.ts. The
-- world counts the statements that have run.
use identifold.Database.{
  DatabaseQuery, read_mapping, database_reserve, database_allocate, database_lookup,
  DatabaseStatement,
}
use identifold.Database.Drizzle.{
  create_drizzle_reference_store, create_drizzle_sequence_allocator, bound, Gives, drizzle_agrees,
  Sql, Executed, reserve_template, allocate_template, raw, row_array, object_with_rows,
}
use identifold.Errors.{Foreign, Result, foreign, ok, err}
use identifold.Mysql.{
  first_rows, is_transient, read_allocation, MySqlQuery, allocation_attempt, mysql_allocate,
  Element, Results,
}
use identifold.Mysql.Retry.{
  Outcome, mysql_allocate-Outcome, mysql_allocate_recovers, none_yet, once_more,
}
use identifold.Prelude.{
  ℕ, zero, suc, ◌+◌, ◌≡◌, refl, inl, inr, true, none, some, List, [], ◌∷◌, map, arith, length,
  codes, lower_unit, to_lower,
}
use identifold.Reference.CheckSymbol.{
  check_symbol_at, sequential_remainder, calculate_sequential_check_symbol,
}
use identifold.Reference.Decimal.{decimal_digits, to_decimal, pad_start, pos}
use identifold.Reference.Format.{
  format_sequential_parts, require_sequential_namespace, sequential_payload,
  format_sequential_reference,
}
use identifold.Reference.Hyphens.{remove_hyphens, split_hyphens}
use identifold.Reference.Parse.{is_all_digits}
use identifold.Registry.{
  get_by_public_prefix, RegisteredSequentialReferenceDefinition, RegisteredNamespaceDefinition,
  sequence,
}
use identifold.Samples.{sample_registry, sample_registry-IsWellFormed, sample_mid}
use identifold.Service.Create.Defs.{ReferenceReservation, SequenceAllocationRequest}
use identifold.Service.Identify.{has_uuid_shape}
use identifold.Storage.Bytes.{hex_bytes, machine_id_to_bytes, bytes_to_machine_id}
use identifold.Storage.Bytes.RoundTrip.{bytes_to_machine_id-machine_id_to_bytes}
use identifold.Storage.Sequential.{parse_sequential_parts}
use identifold.Storage.Sequential.RoundTrip.{parse_sequential_parts-format_sequential_reference}
use identifold.Storage.Values.{Row, sequence_number, Value}

abbrev sample_request : SequenceAllocationRequest
sample_request = record {
  machine_id = sample_mid;
  namespace = codes "invoice";
  reference_prefix = codes "INV";
  scope = some (codes "2026");
  width = 6;
}

abbrev sample_reservation : ReferenceReservation
sample_reservation = record {
  machine_id = sample_mid;
  namespace = codes "order";
  reference = codes "ORD-01234-56789-P";
}

-- Every statement returns the same row.
abbrev sample_row : Row
sample_row =
    (codes "reserved", Value.boolean true)
    ∷ (codes "sequence", Value.text (codes "7"))
    ∷ (codes "machine_id", Value.text sample_mid)
    ∷ (codes "namespace", Value.text (codes "invoice"))
    ∷ []

abbrev sample_query : DatabaseQuery ℕ
sample_query statement values w = (ok (sample_row ∷ []), w + 1)

sample_found :
    database_lookup sample_query (codes "INV-2026-000007-0") (codes "invoice") 0
    ≡ (ok (some (record { machine_id = sample_mid; namespace = codes "invoice" })), 1)
unfolding database_lookup read_mapping
sample_found = refl

-- A client of drizzle-orm that returns the rows of an allocation in an object, and others in an
-- array.
abbrev sample_client : Sql → ℕ → Result Executed × ℕ
sample_client (allocate_template a b c d e) w = (ok (object_with_rows (sample_row ∷ [])), w + 1)
sample_client _ w = (ok (row_array (sample_row ∷ [])), w + 1)

sample_client-runs :
    (sql : Sql) (statement : DatabaseStatement) (values : List Value) (w : ℕ)
    → bound sql ≡ some (statement, map some values)
    → Gives (sample_query statement values w) (sample_client sql w)
sample_client-runs (reserve_template a b c) statement values w h =
    (inl (sample_row ∷ [], refl, inl refl), refl)
sample_client-runs (allocate_template a b c d e) statement values w h =
    (inl (sample_row ∷ [], refl, inr refl), refl)
sample_client-runs (raw sql) statement values w h = cc h

drizzle_agrees_example :
    (create_drizzle_reference_store sample_client sample_reservation 0
      ≡ database_reserve sample_query sample_reservation 0)
    × (create_drizzle_sequence_allocator sample_client sample_request 0
        ≡ database_allocate sample_query sample_request 0)
drizzle_agrees_example =
    drizzle_agrees sample_query sample_client sample_client-runs sample_reservation sample_request 0

-- A MySQL client whose first statement meets a deadlock.
abbrev deadlock : Foreign
deadlock = record { code = some (codes "ER_LOCK_DEADLOCK"); sql_state = none }

abbrev sample_mysql : MySqlQuery ℕ
sample_mysql statement values zero = (err (foreign deadlock), 1)
sample_mysql statement values (suc w) =
    (ok (Results.elements (Element.array (some sample_row ∷ []) ∷ [])), suc (suc w))

abbrev no_wait : ℕ → ℕ → ℕ
no_wait attempt w = w

first_attempt : allocation_attempt sample_mysql sample_request 0 ≡ (err (foreign deadlock), 1)
unfolding allocation_attempt machine_id_to_bytes remove_hyphens hex_bytes
first_attempt = refl

second_attempt : allocation_attempt sample_mysql sample_request 1 ≡ (ok (pos 7), 2)
unfolding allocation_attempt machine_id_to_bytes remove_hyphens hex_bytes read_allocation first_rows
    sequence_number is_all_digits
second_attempt = refl

deadlock_passes : is_transient (foreign deadlock) ≡ true
unfolding is_transient
deadlock_passes = refl

mysql_allocate_recovers_example :
    mysql_allocate sample_mysql no_wait sample_request 0 ≡ (ok (pos 7), 2)
mysql_allocate_recovers_example =
    mysql_allocate_recovers sample_mysql no_wait sample_request 1 0 1 2 (pos 7)
      (once_more (foreign deadlock) none_yet first_attempt deadlock_passes) (omega arith)
      second_attempt

mysql_allocate-Outcome_example :
    Outcome sample_mysql no_wait sample_request 0
      (mysql_allocate sample_mysql no_wait sample_request 0)
mysql_allocate-Outcome_example = mysql_allocate-Outcome sample_mysql no_wait sample_request 0

sample_mid-shape : has_uuid_shape sample_mid ≡ true
unfolding has_uuid_shape split_hyphens
sample_mid-shape = refl

sample_mid-lower : to_lower sample_mid ≡ sample_mid
unfolding lower_unit
sample_mid-lower = refl

bytes_to_machine_id-machine_id_to_bytes_example :
    (b : List ℕ) × (machine_id_to_bytes sample_mid ≡ ok b)
    × (length b ≡ 16)
    × (bytes_to_machine_id (some (Value.bytes b)) ≡ ok sample_mid)
bytes_to_machine_id-machine_id_to_bytes_example =
    bytes_to_machine_id-machine_id_to_bytes sample_mid sample_mid-shape sample_mid-lower

stored_reference :
    format_sequential_reference sample_registry (codes "invoice") (pos 1842) (some (codes "2026"))
    ≡ ok (codes "INV-2026-001842-M")
unfolding format_sequential_reference format_sequential_parts require_sequential_namespace
    sequential_payload calculate_sequential_check_symbol sequential_remainder check_symbol_at
    to_decimal pad_start decimal_digits
stored_reference = refl

parse_sequential_parts-format_sequential_reference_example :
    (d : RegisteredNamespaceDefinition) × (r : RegisteredSequentialReferenceDefinition)
    × (get_by_public_prefix sample_registry (codes "invoice") ≡ some d)
    × (d.reference ≡ some (sequence r))
    × (parse_sequential_parts (codes "INV-2026-001842-M")
        ≡ some (record { prefix = r.prefix; scope = codes "2026"; sequence = 1842 }))
parse_sequential_parts-format_sequential_reference_example =
    parse_sequential_parts-format_sequential_reference sample_registry (codes "invoice") 1842
      (some (codes "2026")) (codes "INV-2026-001842-M") sample_registry-IsWellFormed
      stored_reference
