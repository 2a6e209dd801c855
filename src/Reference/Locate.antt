-- ===== src/Reference/Locate.antt =====
-- Where `locateNamespace` (reference.ts) leads for a text that starts with a registered prefix and
-- a hyphen.
use mathlib.Core.List.{Memᴰ}
use native.Mathlib.Numerals.{add-one}
use identifold.Prelude.{
  ℕ, suc, ◌≤◌, ◌≡◌, refl, sym, true, some, [], ◌∷◌, ◌++◌, arith, Text, all, all-append, all_weaken,
  length, length-append, drop, take-length-append, index_of, is_upper, &&-eq-true,
}
use identifold.Errors.{ok}
use identifold.Registry.{
  RegisteredReferenceDefinition, random, sequence, RegisteredNamespaceDefinition, NamespaceRegistry,
  reference_prefix, is_reference_prefix,
}
use identifold.Registry.WellFormed.{ValidReference, ValidDefinition, IsWellFormed}
use identifold.Registry.Lookup.{All-at, upper_case_of_upper, get_by_reference_prefix_iff}
use identifold.Reference.Hyphens.{hyphen}
use identifold.Reference.Hyphens.Laws.{no_hyphen}
use identifold.Reference.Parse.{
  is_reference_unit, is_reference_text, locate_namespace, parse_located, parse_reference,
}
use identifold.Reference.Units.{is_canonical_unit, canonical_text}

index_of-append :
    (p rest : Text)
    → all no_hyphen p ≡ true
    → index_of (p ++ hyphen ∷ rest) hyphen ≡ some (length p)
index_of-append [] rest h = refl
index_of-append (c ∷ p) rest h = ground (arith, index_of-append p rest)

drop-suc-append : (p rest : Text) (c : ℕ) → drop (suc (length p)) (p ++ c ∷ rest) ≡ rest
drop-suc-append [] rest c = refl
drop-suc-append (d ∷ p) rest c = drop-suc-append p rest c

-- A registered reference prefix has two to eight capital letters.
prefix_facts :
    (r : RegisteredReferenceDefinition)
    → ValidReference (some r)
    → (all is_upper (reference_prefix r) ≡ true)
      × (2 ≤ length (reference_prefix r))
      × (length (reference_prefix r) ≤ 8)
unfolding is_reference_prefix
prefix_facts (random r) v =
    let (letters, sizes) = &&-eq-true (all is_upper r.prefix) _ v.0 in
    (letters, ground arith, ground arith)
prefix_facts (sequence s) v =
    let (letters, sizes) = &&-eq-true (all is_upper s.prefix) _ v.0 in
    (letters, ground arith, ground arith)

is_reference_text_of :
    (v : Text)
    → 1 ≤ length v
    → length v ≤ 100
    → all is_reference_unit v ≡ true
    → is_reference_text v ≡ true
unfolding is_reference_text
is_reference_text_of [] l u h = absurd (omega arith)
is_reference_text_of (c ∷ v) l u h = ground arith

pub upper_is_no_hyphen : (c : ℕ) → is_upper c ≡ true → no_hyphen c ≡ true
upper_is_no_hyphen c h = ground arith

upper_is_canonical : (c : ℕ) → is_upper c ≡ true → is_canonical_unit c ≡ true
upper_is_canonical c h = ground arith

module _ (registry : NamespaceRegistry) (w : IsWellFormed registry)
    (d : RegisteredNamespaceDefinition) (r : RegisteredReferenceDefinition)
    (m : Memᴰ d registry.definitions) (has : d.reference ≡ some r) where
  pub registered_valid : ValidReference (some r)
  registered_valid = rw has at (All-at ValidDefinition m w.valid).2

  located_at_prefix :
      (rest : Text)
      → locate_namespace (reference_prefix r ++ hyphen ∷ rest) registry
        ≡ ok (record { body = rest; definition = d })
  unfolding locate_namespace
  located_at_prefix rest =
      let no_hyphens : all no_hyphen (reference_prefix r) ≡ true =
        all_weaken is_upper no_hyphen (reference_prefix r) upper_is_no_hyphen
          (prefix_facts r registered_valid).0 in
      let found =
        (get_by_reference_prefix_iff registry (reference_prefix r) d w).1
          (m, (r, has, sym (upper_case_of_upper _ (prefix_facts r registered_valid).0))) in
      rw (
        index_of-append (reference_prefix r) rest no_hyphens,
        take-length-append (reference_prefix r) (hyphen ∷ rest),
        found,
        locate_namespace,
        add-one,
        drop-suc-append,
      )

  -- Behind a registered prefix and a hyphen, a text of canonical units is read by its definition.
  pub parse_at_prefix :
      (rest : Text)
      → all is_canonical_unit rest ≡ true
      → length rest ≤ 91
      → parse_reference (reference_prefix r ++ hyphen ∷ rest) registry
        ≡ parse_located (record { body = rest; definition = d })
  unfolding parse_reference
  parse_at_prefix rest h lt =
      let text = reference_prefix r ++ hyphen ∷ rest in
      let (letters, _, short) = prefix_facts r registered_valid in
      let canonical : all is_canonical_unit text ≡ true =
        rw
          (
            all-append is_canonical_unit (reference_prefix r) (hyphen ∷ rest),
            all_weaken is_upper is_canonical_unit (reference_prefix r) upper_is_canonical letters,
          )
          h in
      let (units, same) = canonical_text text canonical in
      let size = length-append (reference_prefix r) (hyphen ∷ rest) in
      rw (
        is_reference_text_of text (omega (arith, size)) (omega (arith, size)) units,
        same,
        located_at_prefix rest,
      )
