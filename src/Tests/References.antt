-- ===== src/Tests/References.antt =====
-- References of the sample registry.
use mathlib.Core.List.{Memᴰ}
use identifold.Errors.{fail, Result, invalid_ref, sequence_overflow, ok}
use identifold.Prelude.{
  ℕ, ◌^◌, ◌≤◌, ◌<◌, ◌≡◌, refl, ◌⊎◌, true, Option, some, List, [], ◌∷◌, arith, all, Text, codes,
  upper_unit, to_upper,
}
use identifold.Reference.Candidate.{parse_reference-create_reference_candidate}
use identifold.Reference.Canonical.{parse_reference_canonical, parse_reference-to_upper}
use identifold.Reference.CheckSymbol.{
  data_value, data_symbol_at, check_symbol_at, reference_remainder,
  calculate_reference_check_symbol, sequential_remainder, calculate_sequential_check_symbol,
}
use identifold.Reference.CheckSymbol.Value.{is_data_symbol}
use identifold.Reference.Decimal.{decimal_digits, to_decimal, pad_start, pos, negsuc}
use identifold.Reference.Decimal.Laws.{decimal_value}
use identifold.Reference.Format.{
  format_reference, format_sequential_parts, require_random_namespace, require_sequential_namespace,
  byte_symbol, payload_of_bytes, candidate_of_bytes, create_reference_candidate, sequential_payload,
  format_sequential_reference,
}
use identifold.Reference.Hyphens.{remove_hyphens, join_hyphens, groups, check_groups}
use identifold.Reference.Overflow.{format_sequential_reference_bound}
use identifold.Reference.Parse.{
  is_reference_text, locate_namespace, in_data_alphabet, in_check_alphabet, normalize_payload,
  parse_random_reference, parse_located, parse_reference, ParsedReference, by_random,
}
use identifold.Reference.RoundTrip.Random.{parsed_random, parse_reference-format_reference}
use identifold.Reference.Sequence.{parse_reference-format_sequential_reference}
use identifold.Registry.{upper_case, Number}
use identifold.Samples.{
  order_reference, order, invoice_reference, sample_registry, sample_registry-IsWellFormed,
}

abbrev sample_payload : Text
sample_payload = codes "0123456789"

abbrev sample_bytes : Number → ℕ → Result (Option (List ℕ)) × ℕ
sample_bytes n w = (ok (some (w ∷ 1 ∷ 2 ∷ 3 ∷ 4 ∷ 5 ∷ 6 ∷ 7 ∷ 8 ∷ 9 ∷ [])), w)

sample_check : calculate_reference_check_symbol sample_payload ≡ ok (codes "P")
unfolding calculate_reference_check_symbol reference_remainder check_symbol_at data_value
sample_check = refl

sample_symbols : all is_data_symbol sample_payload ≡ true
unfolding data_value
sample_symbols = refl

parse_reference-format_reference_example :
    parse_reference (format_reference (codes "ORD") sample_payload (codes "P")) sample_registry
    ≡ ok (parsed_random order order_reference sample_payload (codes "P"))
parse_reference-format_reference_example =
    parse_reference-format_reference sample_registry order order_reference sample_payload
      (codes "P") sample_registry-IsWellFormed (Memᴰ.head refl) refl refl sample_symbols
      sample_check

candidate_drawn :
    create_reference_candidate sample_bytes sample_registry (codes "order") 0
    ≡ (ok (codes "ORD-0123-4567-89-P"), 0)
unfolding create_reference_candidate require_random_namespace candidate_of_bytes payload_of_bytes
    byte_symbol data_symbol_at data_value calculate_reference_check_symbol reference_remainder
    check_symbol_at format_reference groups join_hyphens
candidate_drawn = refl

parse_reference-create_reference_candidate_example :
    (parsed : ParsedReference) × (parse_reference (codes "ORD-0123-4567-89-P") sample_registry
      ≡ ok parsed)
    × (parsed.value ≡ codes "ORD-0123-4567-89-P")
    × (parsed.namespace ≡ codes "order")
    × (parsed.strategy ≡ by_random)
parse_reference-create_reference_candidate_example =
    parse_reference-create_reference_candidate sample_bytes sample_registry (codes "order") 0 0
      (codes "ORD-0123-4567-89-P") sample_registry-IsWellFormed candidate_drawn

sequential_written :
    format_sequential_reference sample_registry (codes "invoice") (pos 1842) (some (codes "2026"))
    ≡ ok (codes "INV-2026-001842-M")
unfolding format_sequential_reference format_sequential_parts require_sequential_namespace
    sequential_payload calculate_sequential_check_symbol sequential_remainder check_symbol_at
    to_decimal pad_start decimal_digits
sequential_written = refl

parse_reference-format_sequential_reference_example :
    (parsed : ParsedReference) × (parse_reference (codes "INV-2026-001842-M") sample_registry
      ≡ ok parsed)
    × (parsed.value ≡ codes "INV-2026-001842-M")
    × (parsed.namespace ≡ codes "invoice")
    × (parsed.scope ≡ some (codes "2026"))
    × (digits : Text) × (parsed.sequence ≡ some digits)
    × (decimal_value digits ≡ 1842)
parse_reference-format_sequential_reference_example =
    parse_reference-format_sequential_reference sample_registry (codes "invoice") 1842
      (some (codes "2026")) (codes "INV-2026-001842-M") sample_registry-IsWellFormed
      sequential_written

-- A text in lower case, with a letter that stands for a digit and without hyphens in the body.
loosely_read :
    parse_reference (codes "ord-o123456789p") sample_registry
    ≡ ok (parsed_random order order_reference sample_payload (codes "P"))
unfolding parse_reference is_reference_text locate_namespace upper_case upper_unit parse_located
    parse_random_reference remove_hyphens check_groups normalize_payload in_data_alphabet
    in_check_alphabet calculate_reference_check_symbol reference_remainder data_value
    check_symbol_at
loosely_read = refl

parse_reference_canonical_example :
    parse_reference
      (parsed_random order order_reference sample_payload (codes "P")).value
      sample_registry
    ≡ ok (parsed_random order order_reference sample_payload (codes "P"))
parse_reference_canonical_example =
    parse_reference_canonical sample_registry (codes "ord-o123456789p")
      (parsed_random order order_reference sample_payload (codes "P")) sample_registry-IsWellFormed
      loosely_read

parse_reference-to_upper_example :
    parse_reference (to_upper (codes "ord-o123456789p")) sample_registry
    ≡ parse_reference (codes "ord-o123456789p") sample_registry
parse_reference-to_upper_example =
    parse_reference-to_upper sample_registry (codes "ord-o123456789p")

invoice_required :
    require_sequential_namespace sample_registry (codes "invoice") ≡ ok invoice_reference
unfolding require_sequential_namespace
invoice_required = refl

format_sequential_reference_bound_example :
    ((n : ℕ) × (pos 1842 ≡ negsuc n)
      × (format_sequential_reference sample_registry
            (codes "invoice")
            (pos 1842)
            (some (codes "2026"))
          ≡ fail invalid_ref))
    ⊎ (((n : ℕ) × (pos 1842 ≡ pos n)
          × (n < 10 ^ 6)
          × (reference : Text) × (format_sequential_reference sample_registry
                (codes "invoice")
                (pos 1842)
                (some (codes "2026"))
              ≡ ok reference))
        ⊎ ((n : ℕ) × (pos 1842 ≡ pos n)
            × (10 ^ 6 ≤ n)
            × (format_sequential_reference sample_registry
                  (codes "invoice")
                  (pos 1842)
                  (some (codes "2026"))
                ≡ fail sequence_overflow)))
format_sequential_reference_bound_example =
    format_sequential_reference_bound sample_registry (codes "invoice") (pos 1842)
      (some (codes "2026")) invoice_reference invoice_required (omega arith) (refl, refl, refl)
