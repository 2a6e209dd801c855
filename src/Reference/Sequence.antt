-- ===== src/Reference/Sequence.antt =====
-- `formatSequentialReference` (reference.ts): what it accepts, and that its result is read back.
use mathlib.Core.List.{Memᴰ}
use identifold.Prelude.{
  ℕ, ◌≤◌, ◌≡◌, refl, ap, sym, ◌∙◌, true, false, Option, none, some, [], ◌∷◌, ◌++◌, arith, Text, all,
  all-append, length, length-append, Option-cases, inl, inr, is_digit, leb,
}
use identifold.Errors.{
  ok, fail, ok-injective, guard, >>=-eq-ok, guard-passes, sequence_overflow,
  invalid_namespace_definition,
}
use identifold.Registry.{
  RegisteredSequentialReferenceDefinition, RegisteredReferenceDefinition, random, sequence,
  RegisteredNamespaceDefinition, NamespaceRegistry, get_by_public_prefix,
}
use identifold.Registry.WellFormed.{IsWellFormed}
use identifold.Registry.Lookup.{get_by_public_prefix_iff}
use identifold.Reference.CheckSymbol.{calculate_sequential_check_symbol}
use identifold.Reference.Hyphens.{hyphen}
use identifold.Reference.Units.{is_canonical_unit}
use identifold.Reference.Decimal.{pos, to_decimal, pad_start}
use identifold.Reference.Decimal.Laws.{decimal_value, to_decimal_lem, pad_start_lem}
use identifold.Reference.Format.{
  sequential_payload, require_sequential_namespace, format_sequential_parts,
  format_sequential_reference,
}
use identifold.Reference.Parse.{
  ParsedReference, has_scope, parse_reference, parse_located, parse_sequential_reference,
}
use identifold.Reference.Locate.{parse_at_prefix, registered_valid}
use identifold.Reference.RoundTrip.Random.{nonempty_of_length}
use identifold.Reference.RoundTrip.Sequential.{
  parsed_sequence, sequential_check_unit, parse_unscoped, parse_scoped, tail_canonical,
  digits_canonical,
}

-- The namespace that `requireSequentialNamespace` found.
require_sequential_namespace-ok :
    (registry : NamespaceRegistry) (namespace : Text) (r : RegisteredSequentialReferenceDefinition)
    → require_sequential_namespace registry namespace ≡ ok r
    → (d : RegisteredNamespaceDefinition) × (get_by_public_prefix registry namespace ≡ some d)
      × (d.reference ≡ some (sequence r))
unfolding require_sequential_namespace
require_sequential_namespace-ok registry namespace r h =
    elim (Option-cases (get_by_public_prefix registry namespace)) [
      | inl missing ↦ cc (rw (missing, require_sequential_namespace) at h)
      | inr (d, found) ↦
          (d, found, of_reference d.reference (rw (found, require_sequential_namespace) at h))
    ]
  where
    of_reference :
        (o : Option RegisteredReferenceDefinition)
        → elim o [
          | none ↦ fail invalid_namespace_definition
          | some (sequence q) ↦ ok q
          | some (random s) ↦ fail invalid_namespace_definition
        ]
          ≡ ok r
        → o ≡ some (sequence r)
    of_reference none k = cc
    of_reference (some (sequence s)) k = cc
    of_reference (some (random q)) k = cc

pub leb-le : (a b : ℕ) → leb a b ≡ true → a ≤ b
leb-le a b h = ground arith

-- The scope is what the policy asks for: four digits, or none.
abbrev pub ScopeFits : RegisteredSequentialReferenceDefinition → Option Text → Text → Text → Type 0
ScopeFits r none digits payload = (has_scope r ≡ false) × (payload ≡ digits)
ScopeFits r (some year) digits payload =
    (has_scope r ≡ true)
    × (length year ≡ 4)
    × (all is_digit year ≡ true)
    × (payload ≡ year ++ digits)

sequential_payload-ok :
    (r : RegisteredSequentialReferenceDefinition) (scope : Option Text) (digits payload : Text)
    → sequential_payload r.scope scope digits ≡ ok payload
    → ScopeFits r scope digits payload
unfolding sequential_payload
sequential_payload-ok r none digits payload h = ground arith
sequential_payload-ok r (some year) digits payload h = ground arith

pub parse_located_sequence :
    (d : RegisteredNamespaceDefinition) (r : RegisteredSequentialReferenceDefinition) (body : Text)
    → d.reference ≡ some (sequence r)
    → parse_located (record { body = body; definition = d })
      ≡ parse_sequential_reference body d.public_prefix r
unfolding parse_located
parse_located_sequence d r body h = simp h

module _ (registry : NamespaceRegistry) (d : RegisteredNamespaceDefinition)
    (r : RegisteredSequentialReferenceDefinition) (digits payload check : Text)
    (w : IsWellFormed registry) (m : Memᴰ d registry.definitions)
    (has : d.reference ≡ some (sequence r)) (sized : length digits ≡ r.width)
    (spelled : all is_digit digits ≡ true) where
  -- In a well-formed registry, `parseReference` reads what `formatSequentialParts` writes for a
  -- registered sequential namespace, digits of the registered width, a scope that fits the
  -- namespace, and the check symbol of scope and digits, and returns exactly these parts.
  pub parse_reference-format_sequential_parts :
      (scope : Option Text)
      → ScopeFits r scope digits payload
      → calculate_sequential_check_symbol payload ≡ ok check
      → parse_reference (format_sequential_parts r.prefix digits check scope) registry
        ≡ ok (parsed_sequence d r payload check scope digits)
  unfolding format_sequential_parts
  parse_reference-format_sequential_parts none (unscoped, same) checked =
      let (_, low, high) = registered_valid registry w d (sequence r) m has in
      let nonempty = nonempty_of_length digits (omega (arith, sized)) in
      let checked' = rw same at checked in
      let (c, e, unit, included) = sequential_check_unit digits check nonempty spelled checked' in
      let body = digits ++ hyphen ∷ c ∷ [] in
      rw (e, same)
        (parse_at_prefix registry w d (sequence r) m has body
            (tail_canonical d r digits c sized spelled unit included)
            (omega (arith, length-append digits (hyphen ∷ c ∷ []), sized))
          ∙ parse_located_sequence d r body has
          ∙ parse_unscoped d r digits c sized spelled unit included nonempty unscoped
              (checked' ∙ ap ok e))
  parse_reference-format_sequential_parts (some year) (scoped, four, numeric, same) checked =
      let (_, low, high) = registered_valid registry w d (sequence r) m has in
      let all_digits : all is_digit (year ++ digits) ≡ true =
        rw (all-append is_digit year digits, numeric) spelled in
      let nonempty =
        nonempty_of_length (year ++ digits) (omega (arith, length-append year digits, four)) in
      let checked' = rw same at checked in
      let (c, e, unit, included) =
        sequential_check_unit (year ++ digits) check nonempty all_digits checked' in
      let tail = digits ++ hyphen ∷ c ∷ [] in
      let body = year ++ hyphen ∷ tail in
      rw (e, same)
        (parse_at_prefix registry w d (sequence r) m has body
            (rw (all-append is_canonical_unit year (hyphen ∷ tail), digits_canonical year numeric)
              (tail_canonical d r digits c sized spelled unit included))
            (omega (
              arith,
              length-append year (hyphen ∷ tail),
              length-append digits (hyphen ∷ c ∷ []),
              sized,
              four,
            ))
          ∙ parse_located_sequence d r body has
          ∙ parse_scoped d r digits c sized spelled unit included year four numeric scoped
              (checked' ∙ ap ok e))

-- What stands behind a reference that `formatSequentialReference` returns for a natural number.
pub format_sequential_reference-ok :
    (registry : NamespaceRegistry) (namespace : Text) (n : ℕ) (scope : Option Text)
    (reference : Text)
    → format_sequential_reference registry namespace (pos n) scope ≡ ok reference
    → (d : RegisteredNamespaceDefinition) × (r : RegisteredSequentialReferenceDefinition)
      × (digits : Text) × (payload : Text) × (check : Text) × (get_by_public_prefix registry
            namespace
          ≡ some d)
      × (d.reference ≡ some (sequence r))
      × (length digits ≡ r.width)
      × (decimal_value digits ≡ n)
      × (all is_digit digits ≡ true)
      × ScopeFits r scope digits payload
      × (calculate_sequential_check_symbol payload ≡ ok check)
      × (reference ≡ format_sequential_parts r.prefix digits check scope)
unfolding format_sequential_reference
format_sequential_reference-ok registry namespace n scope reference h =
    let (r, required, h1) = >>=-eq-ok (require_sequential_namespace registry namespace) _ h in
    let (_, fits, h2) =
      >>=-eq-ok (guard (leb (length (to_decimal n)) r.width) sequence_overflow) _ h1 in
    let digits = pad_start r.width (to_decimal n) in
    let (payload, scoped, h3) = >>=-eq-ok (sequential_payload r.scope scope digits) _ h2 in
    let (check, checked, h4) = >>=-eq-ok (calculate_sequential_check_symbol payload) _ h3 in
    let (d, found, has) = require_sequential_namespace-ok registry namespace r required in
    let (value, numeric) = to_decimal_lem n in
    let (sized, same_value, spelled) =
      pad_start_lem r.width (to_decimal n) (leb-le _ _ (guard-passes _ _ fits)) numeric in
    (
      d,
      r,
      digits,
      payload,
      check,
      found,
      has,
      sized,
      same_value ∙ value,
      spelled,
      sequential_payload-ok r scope digits payload scoped,
      checked,
      sym (ok-injective h4),
    )

-- In a well-formed registry, what `formatSequentialReference` returns for a natural number is read
-- back by `parseReference` as a sequential reference of the same namespace and scope, in canonical
-- form, and its digits stand for the number.
pub parse_reference-format_sequential_reference :
    (registry : NamespaceRegistry) (namespace : Text) (n : ℕ) (scope : Option Text)
    (reference : Text)
    → IsWellFormed registry
    → format_sequential_reference registry namespace (pos n) scope ≡ ok reference
    → (parsed : ParsedReference) × (parse_reference reference registry ≡ ok parsed)
      × (parsed.value ≡ reference)
      × (parsed.namespace ≡ namespace)
      × (parsed.scope ≡ scope)
      × (digits : Text) × (parsed.sequence ≡ some digits)
      × (decimal_value digits ≡ n)
parse_reference-format_sequential_reference registry namespace n scope reference w h =
    let (d, r, digits, payload, check, found, has, sized, value, spelled, fits, checked, written) =
      format_sequential_reference-ok registry namespace n scope reference h in
    let (m, named) = (get_by_public_prefix_iff registry namespace d w).0 found in
    (
      parsed_sequence d r payload check scope digits,
      ap (λ v. parse_reference v registry) written
          ∙ parse_reference-format_sequential_parts registry d r digits payload check w m has sized
              spelled scope fits checked,
      sym written,
      named,
      refl,
      digits,
      refl,
      value,
    )

pub sequential_payload-fits :
    (r : RegisteredSequentialReferenceDefinition) (scope : Option Text) (digits payload : Text)
    → ScopeFits r scope digits payload
    → sequential_payload r.scope scope digits ≡ ok payload
unfolding sequential_payload
sequential_payload-fits r none digits payload h = ground arith
sequential_payload-fits r (some year) digits payload h = ground arith

pub ScopeFits-digits :
    (r : RegisteredSequentialReferenceDefinition) (scope : Option Text) (digits payload : Text)
    → ScopeFits r scope digits payload
    → 1 ≤ length digits
    → all is_digit digits ≡ true
    → (1 ≤ length payload) × (all is_digit payload ≡ true)
ScopeFits-digits r none digits payload (_, same) l h = rw same (l, h)
ScopeFits-digits r (some year) digits payload (_, four, numeric, same) l h =
    rw same
      (omega (arith, length-append year digits), rw (all-append is_digit year digits, numeric) h)
