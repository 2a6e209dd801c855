-- ===== src/Reference/Canonical.antt =====
-- Normal forms of references (reference.ts).
use mathlib.Core.List.{Memᴰ}
use identifold.Prelude.{
  ℕ, ◌≡◌, refl, sym, ◌∙◌, Option, none, some, Text, to_upper, to_upper-to_upper, all,
  length-to_upper, arith, [], ◌∷◌, upper_unit,
}
use identifold.Errors.{ok, fail, guard, >>=-eq-ok, invalid_ref, invalid_namespace_definition}
use identifold.Registry.{RegisteredReferenceDefinition, random, sequence, NamespaceRegistry}
use identifold.Registry.WellFormed.{IsWellFormed}
use identifold.Reference.Parse.{
  ParsedReference, Located, locate_namespace, parse_located, parse_reference, is_reference_text,
  is_reference_unit,
}
use identifold.Reference.Locate.{registered_valid}
use identifold.Reference.RoundTrip.Random.{parse_reference-format_reference, parse_located_random}
use identifold.Reference.Sequence.{parse_located_sequence, parse_reference-format_sequential_parts}
use identifold.Reference.Parts.{
  locate_namespace-mem, parse_random_reference-ok, parse_sequential_reference-ok,
}

parse_located-none :
    (l : Located)
    → l.definition.reference ≡ none
    → parse_located l ≡ fail invalid_namespace_definition
unfolding parse_located
parse_located-none l h = rw (h, parse_located)

-- What a registered definition read is read again from its value.
located_again :
    (registry : NamespaceRegistry) (l : Located) (parsed : ParsedReference)
    → IsWellFormed registry
    → Memᴰ l.definition registry.definitions
    → parse_located l ≡ ok parsed
    → parse_reference parsed.value registry ≡ ok parsed
located_again registry l parsed w m h = by_strategy l.definition.reference refl
  where
    by_strategy :
        (o : Option RegisteredReferenceDefinition)
        → l.definition.reference ≡ o
        → parse_reference parsed.value registry ≡ ok parsed
    by_strategy none e = cc (sym (parse_located-none l e) ∙ h)
    by_strategy (some (random r)) e =
        let d = l.definition in
        let v = registered_valid registry w d (random r) m e in
        let (payload, check, same, sized, symbols, checked) =
          parse_random_reference-ok l.body d r parsed v.1
            (sym (parse_located_random d r l.body e) ∙ h) in
        rw same
          (parse_reference-format_reference registry d r payload check w m e sized symbols checked)
    by_strategy (some (sequence r)) e =
        let d = l.definition in
        let (payload, check, scope, digits, same, fits, sized, spelled, checked) =
          parse_sequential_reference-ok l.body d r parsed
            (sym (parse_located_sequence d r l.body e) ∙ h) in
        rw same (
          parse_reference-format_sequential_parts registry d r digits payload check w m e sized
            spelled scope fits checked)

-- In a well-formed registry, the value of a reference that was read is in normal form: reading it
-- again gives the same namespace, payload, scope, sequence, check symbol and value.
pub parse_reference_canonical :
    (registry : NamespaceRegistry) (value : Text) (parsed : ParsedReference)
    → IsWellFormed registry
    → parse_reference value registry ≡ ok parsed
    → parse_reference parsed.value registry ≡ ok parsed
unfolding parse_reference
parse_reference_canonical registry value parsed w h =
    let (_, _, h1) = >>=-eq-ok (guard (is_reference_text value) invalid_ref) _ h in
    let (l, located, h2) = >>=-eq-ok (locate_namespace (to_upper value) registry) _ h1 in
    located_again registry l parsed w (locate_namespace-mem (to_upper value) registry l w located)
      h2

is_reference_unit-upper : (c : ℕ) → is_reference_unit (upper_unit c) ≡ is_reference_unit c
unfolding upper_unit
is_reference_unit-upper c = ground arith

all-upper : (s : Text) → all is_reference_unit (to_upper s) ≡ all is_reference_unit s
all-upper [] = refl
all-upper (c ∷ s) = rw (is_reference_unit-upper c, all-upper s)

is_reference_text-upper : (s : Text) → is_reference_text (to_upper s) ≡ is_reference_text s
unfolding is_reference_text
is_reference_text-upper [] = refl
is_reference_text-upper (c ∷ s) = rw (length-to_upper s, is_reference_unit-upper c, all-upper s)

-- The case of the ASCII letters of a text makes no difference to the result of `parseReference`, nor
-- to its error.
pub parse_reference-to_upper :
    (registry : NamespaceRegistry) (value : Text)
    → parse_reference (to_upper value) registry ≡ parse_reference value registry
unfolding parse_reference
parse_reference-to_upper registry value =
    rw (is_reference_text-upper value, to_upper-to_upper value)
