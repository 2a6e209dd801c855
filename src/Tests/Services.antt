-- ===== src/Tests/Services.antt =====
-- The service on a world that is the number of reservations asked for.
use identifold.Errors.{Result, ok}
use identifold.Json.{serialize_identity, deserialize_identity}
use identifold.Json.RoundTrip.{deserialize_identity-create}
use identifold.Machine.Defs.{parse_machine_id}
use identifold.Prelude.{
  ℕ, ◌+◌, ◌≤◌, ◌≡◌, refl, Bool, true, Option, none, some, [], ◌∷◌, arith, leb, Text, codes,
  lower_unit,
}
use identifold.Public.Defs.{public_id_from_machine_id}
use identifold.Reference.CheckSymbol.{
  data_value, data_symbol_at, check_symbol_at, reference_remainder,
  calculate_reference_check_symbol, sequential_remainder, calculate_sequential_check_symbol,
}
use identifold.Reference.Decimal.{decimal_digits, to_decimal, pad_start, ℤ, pos}
use identifold.Reference.Decimal.Laws.{decimal_value}
use identifold.Reference.Format.{
  format_reference, format_sequential_parts, require_random_namespace, require_sequential_namespace,
  byte_symbol, payload_of_bytes, candidate_of_bytes, create_reference_candidate, sequential_payload,
  format_sequential_reference,
}
use identifold.Reference.Hyphens.{split_hyphens, join_hyphens, groups}
use identifold.Reference.Parse.{parse_reference, ParsedReference}
use identifold.Registry.{is_type_id_prefix}
use identifold.Samples.{
  order_reference, order, invoice_reference, invoice, sample_registry, sample_registry-IsWellFormed,
  sample_uuid, sample_mid, sample_type_id, sample_type_id-IsTypeIdLibrary,
}
use identifold.Service.Agreement.{Agree, parse_agreement}
use identifold.Service.Create.Allocated.{allocation_request, create_allocated}
use identifold.Service.Create.Bounded.{create_attempts_bound}
use identifold.Service.Create.Defs.{
  check_attempts, year_digits, current_utc_year, create_identifold, pair_up, create_base_identity,
  reserve_loop, create_random, scope_for, create_sequential, create_for, create,
  ReferenceReservation, SequenceAllocationRequest, Identity, IdentifoldOptions, Identifold, in_year,
}
use identifold.Service.Create.Reserved.{create_reserved}
use identifold.Service.Identify.{has_uuid_shape, parse, normalize, validate, inspect}

-- The store refuses its first reservation.
abbrev sample_store : ReferenceReservation → ℕ → Result Bool × ℕ
sample_store reservation w = (ok (leb 1 w), w + 1)

abbrev sample_options : IdentifoldOptions ℕ
sample_options = record {
  machine_id_source = λ w. (ok sample_mid, w);
  max_reference_attempts = none;
  now = λ w. (ok (in_year (pos 2026)), w);
  random_bytes = λ n w. (ok (some (w ∷ 1 ∷ 2 ∷ 3 ∷ 4 ∷ 5 ∷ 6 ∷ 7 ∷ 8 ∷ 9 ∷ [])), w);
  reference_store = some sample_store;
  registry = sample_registry;
  sequence_allocator = none;
}

abbrev sample_ids : Identifold ℕ
sample_ids = record { options = sample_options; max_attempts = 8 }

sample_made : create_identifold sample_options ≡ ok sample_ids
unfolding create_identifold check_attempts
sample_made = refl

abbrev sample_identity : Identity
sample_identity = record {
  mid = sample_mid;
  pid = codes "order_01890a5d-ac96-774b-bcce-b302099a8057";
  ref = some (codes "ORD-1123-4567-89-G");
}

-- The first candidate is refused, the second one reserved.
sample_run :
    create sample_uuid sample_type_id sample_ids (codes "order") 0 ≡ (ok sample_identity, 2)
unfolding create create_for create_random create_base_identity pair_up parse_machine_id
    has_uuid_shape lower_unit split_hyphens public_id_from_machine_id is_type_id_prefix reserve_loop
    create_reference_candidate require_random_namespace candidate_of_bytes
    calculate_reference_check_symbol payload_of_bytes byte_symbol check_symbol_at data_symbol_at
    data_value reference_remainder format_reference groups join_hyphens
sample_run = refl

create_reserved_example :
    (reference : Text) × (sample_identity.ref ≡ some reference)
    × (v : ℕ) × (sample_store
          (record {
            machine_id = sample_identity.mid;
            namespace = codes "order";
            reference = reference;
          })
          v
        ≡ (ok true, 2))
    × (parsed : ParsedReference) × (parse_reference reference sample_registry ≡ ok parsed)
    × (parsed.value ≡ reference)
    × (parsed.namespace ≡ codes "order")
    × (parse_machine_id sample_uuid sample_identity.mid ≡ ok sample_identity.mid)
    × (public_id_from_machine_id sample_uuid sample_type_id sample_identity.mid (codes "order")
        ≡ ok sample_identity.pid)
create_reserved_example =
    create_reserved sample_uuid sample_type_id sample_ids (codes "order") order order_reference
      sample_store 0 2 sample_identity sample_registry-IsWellFormed refl refl refl sample_run

create_attempts_bound_example :
    (create sample_uuid sample_type_id sample_ids (codes "order") 0).1 ≤ 0 + 8
create_attempts_bound_example =
    create_attempts_bound sample_uuid sample_type_id sample_ids sample_store (λ w. w)
      (λ x w. omega arith) (λ n w. refl) (λ w. refl) (codes "order") order order_reference 0 refl
      refl refl

parse_agreement_example :
    Agree
      (codes "ord-o123456789p")
      (parse sample_uuid sample_type_id sample_registry (codes "ord-o123456789p"))
      (normalize sample_uuid sample_type_id sample_registry (codes "ord-o123456789p"))
      (validate sample_uuid sample_type_id sample_registry (codes "ord-o123456789p"))
      (inspect sample_uuid sample_type_id sample_registry (codes "ord-o123456789p"))
parse_agreement_example =
    parse_agreement sample_uuid sample_type_id sample_registry (codes "ord-o123456789p")

deserialize_identity-create_example :
    deserialize_identity sample_uuid sample_type_id
      (serialize_identity sample_identity)
      sample_registry
    ≡ ok sample_identity
deserialize_identity-create_example =
    deserialize_identity-create sample_uuid sample_type_id sample_type_id-IsTypeIdLibrary sample_ids
      (codes "order") order order_reference sample_store 0 2 sample_identity
      sample_registry-IsWellFormed refl refl refl sample_run

-- An allocator that counts from 1842.
abbrev sample_allocator : SequenceAllocationRequest → ℕ → Result ℤ × ℕ
sample_allocator request w = (ok (pos (1842 + w)), w + 1)

abbrev counting_ids : Identifold ℕ
counting_ids = record {
  options = record {
    machine_id_source = λ w. (ok sample_mid, w);
    max_reference_attempts = none;
    now = λ w. (ok (in_year (pos 2026)), w);
    random_bytes = sample_options.random_bytes;
    reference_store = none;
    registry = sample_registry;
    sequence_allocator = some sample_allocator;
  };
  max_attempts = 8;
}

abbrev invoice_identity : Identity
invoice_identity = record {
  mid = sample_mid;
  pid = codes "invoice_01890a5d-ac96-774b-bcce-b302099a8057";
  ref = some (codes "INV-2026-001842-M");
}

invoice_run :
    create sample_uuid sample_type_id counting_ids (codes "invoice") 0 ≡ (ok invoice_identity, 1)
unfolding create create_for create_sequential scope_for current_utc_year year_digits
    create_base_identity pair_up parse_machine_id has_uuid_shape lower_unit split_hyphens
    public_id_from_machine_id is_type_id_prefix format_sequential_reference format_sequential_parts
    require_sequential_namespace sequential_payload calculate_sequential_check_symbol
    sequential_remainder check_symbol_at to_decimal pad_start decimal_digits
invoice_run = refl

create_allocated_example :
    (n : ℕ) × (scope : Option Text) × (w1 : ℕ) × (v : ℕ) × (create_base_identity sample_uuid
        sample_type_id counting_ids
        (codes "invoice")
        0
      ≡ (ok (invoice_identity.mid, invoice_identity.pid), w1))
    × (scope_for sample_uuid sample_type_id counting_ids invoice_reference w1 ≡ (ok scope, v))
    × (sample_allocator
          (allocation_request invoice_reference invoice_identity.mid (codes "invoice") scope)
          v
        ≡ (ok (pos n), 1))
    × (reference : Text) × (invoice_identity.ref ≡ some reference)
    × (parsed : ParsedReference) × (parse_reference reference sample_registry ≡ ok parsed)
    × (parsed.namespace ≡ codes "invoice")
    × (parsed.scope ≡ scope)
    × (digits : Text) × (parsed.sequence ≡ some digits)
    × (decimal_value digits ≡ n)
    × (parse_machine_id sample_uuid invoice_identity.mid ≡ ok invoice_identity.mid)
    × (public_id_from_machine_id sample_uuid sample_type_id invoice_identity.mid (codes "invoice")
        ≡ ok invoice_identity.pid)
create_allocated_example =
    create_allocated sample_uuid sample_type_id counting_ids (codes "invoice") invoice
      invoice_reference sample_allocator 0 1 invoice_identity sample_registry-IsWellFormed refl refl
      refl invoice_run
