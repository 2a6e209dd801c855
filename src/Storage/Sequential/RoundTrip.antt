-- ===== src/Storage/Sequential/RoundTrip.antt =====
-- `parseSequentialReference` (sql-storage.ts) finds the parts of what `formatSequentialReference`
-- (reference.ts) writes.
use identifold.Errors.{ok}
use identifold.Prelude.{
  ℕ, ◌≤◌, ◌≡◌, refl, ap, ◌∙◌, true, Option, none, some, [], ◌∷◌, ◌++◌, arith, length, all,
  all_weaken, &&-eq-true, Text, codes, is_digit, is_upper,
}
use identifold.Reference.Decimal.{pos}
use identifold.Reference.Decimal.Laws.{decimal_value}
use identifold.Reference.Format.{
  format_sequential_parts, is_four_digits, format_sequential_reference,
}
use identifold.Reference.Hyphens.{hyphen}
use identifold.Reference.Hyphens.Laws.{no_hyphen, split_of_none, split-append}
use identifold.Reference.Locate.{upper_is_no_hyphen, registered_valid}
use identifold.Reference.RoundTrip.Random.{check_unit_facts, nonempty_of_length}
use identifold.Reference.RoundTrip.Sequential.{is_digit-no_hyphen, sequential_check_unit}
use identifold.Reference.Sequence.{ScopeFits, format_sequential_reference-ok, ScopeFits-digits}
use identifold.Reference.Units.{is_check_unit}
use identifold.Registry.{
  get_by_public_prefix, is_reference_prefix, or_else, RegisteredSequentialReferenceDefinition,
  RegisteredNamespaceDefinition, NamespaceRegistry, sequence,
}
use identifold.Registry.Lookup.{get_by_public_prefix_iff}
use identifold.Registry.WellFormed.{IsWellFormed}
use identifold.Storage.Sequential.{
  is_sequence_text, is_check_text, match_parts, parse_sequential_parts,
}

prefix-no_hyphen : (p : Text) → is_reference_prefix p ≡ true → all no_hyphen p ≡ true
unfolding is_reference_prefix
prefix-no_hyphen p h =
    all_weaken is_upper no_hyphen p upper_is_no_hyphen (&&-eq-true (all is_upper p) _ h).0

check_unit-text : (c : ℕ) → is_check_unit c ≡ true → is_check_text (c ∷ []) ≡ true
check_unit-text c h = ground arith

sequence_text :
    (digits : Text) (n : ℕ)
    → length digits ≡ n
    → 4 ≤ n
    → n ≤ 18
    → all is_digit digits ≡ true
    → is_sequence_text digits ≡ true
sequence_text digits n size low high spelled = ground arith

-- The parts of a reference that `formatSequentialParts` writes.
match_parts-format :
    (prefix digits : Text) (c : ℕ) (scope : Option Text)
    → is_reference_prefix prefix ≡ true
    → is_sequence_text digits ≡ true
    → all is_digit digits ≡ true
    → is_check_unit c ≡ true
    → all is_digit (or_else scope []) ≡ true
    → is_four_digits (or_else scope (codes "0000")) ≡ true
    → parse_sequential_parts (format_sequential_parts prefix digits (c ∷ []) scope)
      ≡ some (record { prefix = prefix; scope = or_else scope []; sequence = decimal_value digits })
unfolding parse_sequential_parts match_parts format_sequential_parts
match_parts-format prefix digits c none p s spelled u year four =
    let rest = digits ++ hyphen ∷ c ∷ [] in
    let free = all_weaken is_digit no_hyphen digits is_digit-no_hyphen spelled in
    rw
      (
        split-append prefix rest (prefix-no_hyphen prefix p),
        split-append digits (c ∷ []) free,
        split_of_none (c ∷ []) (rw (check_unit_facts c u).1),
        p,
        s,
      )
      (ground (arith, check_unit-text c u))
match_parts-format prefix digits c (some scope) p s spelled u year four =
    let tail = digits ++ hyphen ∷ c ∷ [] in
    let free = all_weaken is_digit no_hyphen digits is_digit-no_hyphen spelled in
    rw
      (
        split-append prefix (scope ++ hyphen ∷ tail) (prefix-no_hyphen prefix p),
        split-append scope tail (all_weaken is_digit no_hyphen scope is_digit-no_hyphen year),
        split-append digits (c ∷ []) free,
        split_of_none (c ∷ []) (rw (check_unit_facts c u).1),
        p,
        s,
      )
      (ground (arith, check_unit-text c u, four))

fitting_scope :
    (r : RegisteredSequentialReferenceDefinition) (scope : Option Text) (digits payload : Text)
    → ScopeFits r scope digits payload
    → (all is_digit (or_else scope []) ≡ true)
      × (is_four_digits (or_else scope (codes "0000")) ≡ true)
fitting_scope r none digits payload h = (refl, refl)
fitting_scope r (some year) digits payload (_, four, numeric, _) = (numeric, rw (numeric, four))

-- In a well-formed registry, `parseSequentialReference` reads what `formatSequentialReference`
-- returns for a natural number: the prefix is that of the namespace, the scope the given one, or
-- empty if there is none, and the sequence is the number.
pub parse_sequential_parts-format_sequential_reference :
    (registry : NamespaceRegistry) (namespace : Text) (n : ℕ) (scope : Option Text)
    (reference : Text)
    → IsWellFormed registry
    → format_sequential_reference registry namespace (pos n) scope ≡ ok reference
    → (d : RegisteredNamespaceDefinition) × (r : RegisteredSequentialReferenceDefinition)
      × (get_by_public_prefix registry namespace ≡ some d)
      × (d.reference ≡ some (sequence r))
      × (parse_sequential_parts reference
          ≡ some (record { prefix = r.prefix; scope = or_else scope []; sequence = n }))
parse_sequential_parts-format_sequential_reference registry namespace n scope reference w h =
    let (d, r, digits, payload, check, found, has, sized, value, spelled, fits, checked, written) =
      format_sequential_reference-ok registry namespace n scope reference h in
    let (m, named) = (get_by_public_prefix_iff registry namespace d w).0 found in
    let (p, low, high) = registered_valid registry w d (sequence r) m has in
    let (filled, numeric) =
      ScopeFits-digits r scope digits payload fits (omega (arith, sized)) spelled in
    let (c, e, unit, _) =
      sequential_check_unit payload check (nonempty_of_length payload filled) numeric checked in
    let (year, four) = fitting_scope r scope digits payload fits in
    (
      d,
      r,
      found,
      has,
      rw (written, e)
          (match_parts-format r.prefix digits c scope p
              (sequence_text digits r.width sized low high spelled) spelled unit year four
            ∙ ap (λ i. some (record { prefix = r.prefix; scope = or_else scope []; sequence = i }))
                value),
    )
