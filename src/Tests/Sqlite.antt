-- ===== src/Tests/Sqlite.antt =====
-- The adapter of sqlite.ts on the database in memory.
use identifold.Adapters.{adapters_throw}
use identifold.Database.{DatabaseQuery, database_reserve, database_allocate, database_lookup}
use identifold.Errors.{fail, Foreign, allocation_conflict, foreign, ok, err}
use identifold.Mysql.{MySqlQuery, mysql_reserve, mysql_allocate, mysql_lookup}
use identifold.Prelude.{
  ℕ, ◌≡◌, refl, ◌⊎◌, true, false, none, some, List, [], arith, codes, lower_unit, to_lower,
}
use identifold.Reference.CheckSymbol.{
  check_symbol_at, sequential_remainder, calculate_sequential_check_symbol,
}
use identifold.Reference.Decimal.{decimal_digits, to_decimal, pad_start, pos}
use identifold.Reference.Format.{
  format_sequential_parts, require_sequential_namespace, sequential_payload,
  format_sequential_reference,
}
use identifold.Reference.Hyphens.{remove_hyphens, split_hyphens}
use identifold.Reference.Parse.{is_all_digits}
use identifold.Samples.{
  invoice_reference, invoice, sample_registry, sample_registry-IsWellFormed, sample_mid,
}
use identifold.Samples.Memory.{memory, memory-SqliteLaws}
use identifold.Service.Create.Defs.{ReferenceReservation, SequenceAllocationRequest}
use identifold.Service.Identify.{has_uuid_shape}
use identifold.Sqlite.{
  record_or_null, matching_text, next_number, sqlite_reserve, store_allocated, allocate_next,
  allocate_new, allocation_transaction, roll_back, sqlite_allocate, sqlite_lookup,
}
use identifold.Sqlite.Nested.{sqlite_allocate_nested}
use identifold.Sqlite.Refinement.{Ended, Conflict, sqlite_allocate_refines}
use identifold.Sqlite.Reservation.{sqlite_lookup_reserved}
use identifold.Sqlite.Resolution.{sqlite_lookup_allocated}
use identifold.Sqlite.Safety.{sqlite_allocate-Safe, sqlite_allocate_again}
use identifold.Sqlite.Safety.Branches.{Safe}
use identifold.Sqlite.Sound.{IsSound}
use identifold.Sqlite.Specification.{allocate_spec}
use identifold.Sqlite.Tables.{
  closed, in_transaction, rolled_back, AfterFailure, find, ensure_sequence, set_last_value,
  add_allocation, has_reference, add_reference, find_reference, state_row, Tables, Session,
}
use identifold.Storage.BigInt.{
  is_white_space, trim_start, trim_end, integer_literal, big_int_of_text,
}
use identifold.Storage.Bytes.{hex_bytes, machine_id_to_bytes}
use identifold.Storage.Values.{ThrowsIdentifold}

abbrev sample_request : SequenceAllocationRequest
sample_request = record {
  machine_id = sample_mid;
  namespace = codes "invoice";
  reference_prefix = codes "INV";
  scope = some (codes "2026");
  width = 6;
}

abbrev empty_tables : Tables
empty_tables = record { references = []; sequences = []; allocations = [] }

abbrev empty : Session
empty = closed 0 empty_tables

empty-IsSound : IsSound empty_tables
unfolding find
empty-IsSound = record {
  numbered = λ a m. elim m [ ];
  bounded = λ namespace scope s h. cc h;
  distinct = λ a a' m m' h. elim m [ ];
}

-- The session after the first allocation.
abbrev sample_after : Session
sample_after = (sqlite_allocate memory sample_request empty).1

sample_allocated : sqlite_allocate memory sample_request empty ≡ (ok (pos 1), sample_after)
unfolding sqlite_allocate roll_back allocation_transaction machine_id_to_bytes remove_hyphens
    hex_bytes find record_or_null allocate_new ensure_sequence allocate_next matching_text state_row
    to_decimal decimal_digits big_int_of_text trim_start trim_end is_white_space integer_literal
    is_all_digits next_number store_allocated set_last_value add_allocation
sample_allocated = refl

sqlite_allocate_refines_example :
    Ended memory
      (λ s. s)
      memory-SqliteLaws
      0
      empty_tables
      sample_request
      (allocate_spec sample_request empty_tables)
      (sqlite_allocate memory sample_request empty)
    ⊎ Conflict memory
        (λ s. s)
        memory-SqliteLaws
        0
        empty_tables
        sample_request
        (sqlite_allocate memory sample_request empty)
sqlite_allocate_refines_example =
    sqlite_allocate_refines memory (λ s. s) memory-SqliteLaws 0 empty_tables sample_request empty
      refl

sqlite_allocate-Safe_example :
    (n : ℕ) × (t : Tables) × (b : List ℕ) × (pos 1 ≡ pos n)
    × (sample_after ≡ closed 0 t)
    × (machine_id_to_bytes sample_mid ≡ ok b)
    × Safe sample_request b n t
sqlite_allocate-Safe_example =
    sqlite_allocate-Safe memory (λ s. s) memory-SqliteLaws sample_request 0 empty_tables (pos 1)
      empty sample_after refl empty-IsSound sample_allocated

sqlite_allocate_again_example :
    (((sqlite_allocate memory sample_request sample_after).0 ≡ ok (pos 1))
      × ((sqlite_allocate memory sample_request sample_after).1 ≡ sample_after))
    ⊎ (((sqlite_allocate memory sample_request sample_after).0 ≡ fail allocation_conflict)
        × AfterFailure sample_after (sqlite_allocate memory sample_request sample_after).1)
sqlite_allocate_again_example =
    sqlite_allocate_again memory (λ s. s) memory-SqliteLaws sample_request 0 empty_tables (pos 1)
      empty sample_after sample_after refl empty-IsSound sample_allocated refl

sqlite_allocate_nested_example :
    ((sqlite_allocate memory sample_request (in_transaction 0 empty_tables sample_after.tables)).0
      ≡ fail allocation_conflict)
    × ((sqlite_allocate memory sample_request (in_transaction 0 empty_tables sample_after.tables)).1
        ≡ empty)
sqlite_allocate_nested_example =
    sqlite_allocate_nested memory (λ s. s) memory-SqliteLaws sample_request 0 empty_tables
      sample_after.tables (in_transaction 0 empty_tables sample_after.tables) refl (omega arith)
      (omega arith)

sample_written :
    format_sequential_reference sample_registry (codes "invoice") (pos 1) (some (codes "2026"))
    ≡ ok (codes "INV-2026-000001-X")
unfolding format_sequential_reference format_sequential_parts require_sequential_namespace
    sequential_payload calculate_sequential_check_symbol sequential_remainder check_symbol_at
    to_decimal pad_start decimal_digits
sample_written = refl

sample_shape : has_uuid_shape sample_mid ≡ true
unfolding has_uuid_shape split_hyphens
sample_shape = refl

sample_lower : to_lower sample_mid ≡ sample_mid
unfolding lower_unit
sample_lower = refl

sample_unlisted :
    find_reference sample_after.tables (codes "INV-2026-000001-X") (codes "invoice") ≡ none
unfolding sqlite_allocate roll_back allocation_transaction machine_id_to_bytes remove_hyphens
    hex_bytes find record_or_null allocate_new ensure_sequence allocate_next matching_text state_row
    to_decimal decimal_digits big_int_of_text trim_start trim_end is_white_space integer_literal
    is_all_digits next_number store_allocated set_last_value add_allocation
sample_unlisted = refl

sqlite_lookup_allocated_example :
    (((sqlite_lookup memory (codes "INV-2026-000001-X") (codes "invoice") sample_after).0
        ≡ ok (some (record { machine_id = sample_mid; namespace = codes "invoice" })))
      × ((sqlite_lookup memory (codes "INV-2026-000001-X") (codes "invoice") sample_after).1
          ≡ sample_after))
    ⊎ (((sqlite_lookup memory (codes "INV-2026-000001-X") (codes "invoice") sample_after).0
          ≡ fail allocation_conflict)
        × AfterFailure sample_after (
            rolled_back
              (sqlite_lookup memory (codes "INV-2026-000001-X") (codes "invoice") sample_after).1))
sqlite_lookup_allocated_example =
    sqlite_lookup_allocated memory (λ s. s) memory-SqliteLaws sample_registry sample_request invoice
      invoice_reference 1 (codes "INV-2026-000001-X") 0 empty_tables empty sample_after sample_after
      sample_registry-IsWellFormed refl refl refl sample_shape sample_lower empty-IsSound refl
      sample_allocated sample_written sample_unlisted refl

abbrev sample_reservation : ReferenceReservation
sample_reservation = record {
  machine_id = sample_mid;
  namespace = codes "order";
  reference = codes "ORD-01234-56789-P";
}

abbrev reserved_after : Session
reserved_after = (sqlite_reserve memory sample_reservation empty).1

sample_reserved : sqlite_reserve memory sample_reservation empty ≡ (ok true, reserved_after)
unfolding sqlite_reserve machine_id_to_bytes remove_hyphens hex_bytes add_reference find
sample_reserved = refl

sqlite_lookup_reserved_example :
    (has_reference empty_tables (codes "ORD-01234-56789-P") ≡ false)
    × ((((sqlite_lookup memory (codes "ORD-01234-56789-P") (codes "order") reserved_after).0
            ≡ ok (some (record { machine_id = sample_mid; namespace = codes "order" })))
          × ((sqlite_lookup memory (codes "ORD-01234-56789-P") (codes "order") reserved_after).1
              ≡ reserved_after))
        ⊎ (((sqlite_lookup memory (codes "ORD-01234-56789-P") (codes "order") reserved_after).0
              ≡ fail allocation_conflict)
            × AfterFailure reserved_after (
                rolled_back
                  (sqlite_lookup memory
                    (codes "ORD-01234-56789-P")
                    (codes "order")
                    reserved_after).1)))
sqlite_lookup_reserved_example =
    sqlite_lookup_reserved memory (λ s. s) memory-SqliteLaws sample_reservation 0 empty_tables empty
      reserved_after reserved_after sample_shape sample_lower refl sample_reserved refl

-- Clients that fail at every statement.
abbrev broken : Foreign
broken = record { code = none; sql_state = some (codes "22003") }

abbrev broken_query : DatabaseQuery Session
broken_query statement values w = (err (foreign broken), w)

abbrev broken_mysql : MySqlQuery Session
broken_mysql statement values w = (err (foreign broken), w)

adapters_throw_example :
    (ThrowsIdentifold (database_reserve broken_query sample_reservation empty).0
      × ThrowsIdentifold (database_allocate broken_query sample_request empty).0
      × ThrowsIdentifold
          (database_lookup broken_query (codes "INV-2026-000007-0") (codes "invoice") empty).0)
    × (ThrowsIdentifold (mysql_reserve broken_mysql sample_reservation empty).0
        × ThrowsIdentifold (mysql_allocate broken_mysql (λ attempt w. w) sample_request empty).0
        × ThrowsIdentifold
            (mysql_lookup broken_mysql (codes "INV-2026-000007-0") (codes "invoice") empty).0)
    × (ThrowsIdentifold (sqlite_reserve memory sample_reservation empty).0
        × ThrowsIdentifold (sqlite_allocate memory sample_request empty).0
        × ThrowsIdentifold
            (sqlite_lookup memory (codes "INV-2026-000007-0") (codes "invoice") empty).0)
adapters_throw_example =
    adapters_throw broken_query broken_mysql (λ attempt w. w) memory sample_reservation
      sample_request (codes "INV-2026-000007-0") (codes "invoice") empty
