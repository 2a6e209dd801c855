-- ===== src/Reference/RoundTrip/Sequential.antt =====
-- Sequential references (reference.ts): `parseReference` reads what `formatSequentialReference`
-- writes.
use identifold.Prelude.{
  ℕ, ◌+◌, ◌<◌, ◌%◌, ◌≡◌, ◌≢◌, refl, ap, sym, ◌∙◌, true, false, Option, none, some, [], ◌∷◌, ◌++◌,
  arith, Text, all, all-append, all_weaken, length, length-append, text_eq_refl, ◌==◌, ==_iff, take,
  drop, take-length-append, drop-length-append, is_digit, map, append_assoc,
}
use identifold.Errors.{ok, ok-injective}
use identifold.Registry.{RegisteredSequentialReferenceDefinition, RegisteredNamespaceDefinition}
use identifold.Reference.CheckSymbol.{calculate_sequential_check_symbol}
use identifold.Reference.CheckSymbol.Positional.{positional}
use identifold.Reference.CheckSymbol.Value.{digit_value, calculate_sequential_check_symbol_lem}
use identifold.Reference.Hyphens.{hyphen, remove_hyphens, split_hyphens}
use identifold.Reference.Hyphens.Laws.{
  no_hyphen, remove_hyphens-append, remove_hyphens_of_none, check_groups_of_lengths, split-append,
  split_of_none,
}
use identifold.Reference.Format.{format_sequential_parts}
use identifold.Reference.Parse.{
  ParsedReference, by_sequence, in_check_alphabet, has_scope, is_all_digits,
  parse_sequential_reference,
}
use identifold.Reference.Units.{is_check_unit, is_canonical_unit, check_symbol_unit}
use identifold.Reference.RoundTrip.Random.{
  drop_last-append, last_unit-append, check_unit_facts, only_check, nonempty_of_length,
}

-- What the parser returns for a sequence of a namespace.
abbrev pub parsed_sequence :
    RegisteredNamespaceDefinition
    → RegisteredSequentialReferenceDefinition
    → Text
    → Text
    → Option Text
    → Text
    → ParsedReference
parsed_sequence d r payload check scope digits = record {
  value = format_sequential_parts r.prefix digits check scope;
  namespace = d.public_prefix;
  payload = payload;
  scope = scope;
  sequence = some digits;
  check_symbol = check;
  strategy = by_sequence;
}

pub is_digit-no_hyphen : (c : ℕ) → is_digit c ≡ true → no_hyphen c ≡ true
is_digit-no_hyphen c h = ground arith

is_digit-canonical : (c : ℕ) → is_digit c ≡ true → is_canonical_unit c ≡ true
is_digit-canonical c h = ground arith

is_all_digits_of : (s : Text) → s ≢ [] → all is_digit s ≡ true → is_all_digits s ≡ true
unfolding is_all_digits
is_all_digits_of [] f h = absurd (f refl)
is_all_digits_of (c ∷ s) f h = h

value_lt : (n : ℕ) → n % 37 < 37
value_lt n = omega arith

-- The check symbol of digits is one unit of the check alphabet.
pub sequential_check_unit :
    (payload check : Text)
    → payload ≢ []
    → all is_digit payload ≡ true
    → calculate_sequential_check_symbol payload ≡ ok check
    → (c : ℕ) × (check ≡ c ∷ []) × (is_check_unit c ≡ true) × (in_check_alphabet (c ∷ []) ≡ true)
sequential_check_unit payload check f h e =
    let n = positional 10 digit_value payload 0 in
    let (c, at, unit, included) = check_symbol_unit (n % 37) (value_lt n) in
    (
      c,
      ok-injective (sym e ∙ calculate_sequential_check_symbol_lem payload f h) ∙ at,
      unit,
      included,
    )

-- The test on the length of the body.
length_test : (s : Text) (c n : ℕ) → length s ≡ n → (length (s ++ c ∷ []) == n + 1) ≡ true
length_test s c n h = (==_iff _ _).1 (omega (arith, h, length-append s (c ∷ [])))

module _ (s : Text) (h : all is_digit s ≡ true) where
  digits_no_hyphen : all no_hyphen s ≡ true
  digits_no_hyphen = all_weaken is_digit no_hyphen s is_digit-no_hyphen h

  pub digits_canonical : all is_canonical_unit s ≡ true
  digits_canonical = all_weaken is_digit is_canonical_unit s is_digit-canonical h

remove_hyphens-hyphen : (s : Text) → remove_hyphens (hyphen ∷ s) ≡ remove_hyphens s
unfolding remove_hyphens
remove_hyphens-hyphen s = refl

cut_scope : (scope digits : Text) → length scope ≡ 4 → take 4 (scope ++ digits) ≡ scope
cut_scope scope digits h =
    ap (λ n. take n (scope ++ digits)) (sym h) ∙ take-length-append scope digits

cut_sequence : (scope digits : Text) → length scope ≡ 4 → drop 4 (scope ++ digits) ≡ digits
cut_sequence scope digits h =
    ap (λ n. drop n (scope ++ digits)) (sym h) ∙ drop-length-append scope digits

module _ (d : RegisteredNamespaceDefinition) (r : RegisteredSequentialReferenceDefinition)
    (digits : Text) (c : ℕ) (sized : length digits ≡ r.width) (spelled : all is_digit digits ≡ true)
    (unit : is_check_unit c ≡ true) (included : in_check_alphabet (c ∷ []) ≡ true) where
  tail_removed : remove_hyphens (digits ++ hyphen ∷ c ∷ []) ≡ digits ++ c ∷ []
  tail_removed =
      remove_hyphens-append digits (hyphen ∷ c ∷ [])
      ∙ rw (remove_hyphens_of_none digits (digits_no_hyphen digits spelled))
          (ap (λ t. digits ++ t) (only_check c (check_unit_facts c unit).1))

  tail_split : split_hyphens (digits ++ hyphen ∷ c ∷ []) ≡ digits ∷ (c ∷ []) ∷ []
  tail_split =
      split-append digits (c ∷ []) (digits_no_hyphen digits spelled)
      ∙ ap (λ t. digits ∷ t) (split_of_none (c ∷ []) (rw (check_unit_facts c unit).1))

  pub tail_canonical : all is_canonical_unit (digits ++ hyphen ∷ c ∷ []) ≡ true
  tail_canonical = rw (
    all-append is_canonical_unit digits (hyphen ∷ c ∷ []),
    digits_canonical digits spelled,
    (check_unit_facts c unit).0,
  )

  pub parse_unscoped :
      digits ≢ []
      → has_scope r ≡ false
      → calculate_sequential_check_symbol digits ≡ ok (c ∷ [])
      → parse_sequential_reference (digits ++ hyphen ∷ c ∷ []) d.public_prefix r
        ≡ ok (parsed_sequence d r digits (c ∷ []) none digits)
  unfolding parse_sequential_reference
  parse_unscoped nonempty unscoped checked = rw (
    unscoped,
    tail_removed,
    length_test digits c (r.width + 0) (omega (arith, sized)),
    check_groups_of_lengths (digits ++ hyphen ∷ c ∷ []) (r.width ∷ 1 ∷ [])
        (ap (map length) tail_split ∙ ap (λ n. n ∷ 1 ∷ []) sized),
    drop_last-append digits c,
    last_unit-append digits c,
    is_all_digits_of digits nonempty spelled,
    included,
    checked,
    text_eq_refl (c ∷ []),
  )

  scoped_removed :
      (scope : Text)
      → all is_digit scope ≡ true
      → remove_hyphens (scope ++ hyphen ∷ (digits ++ hyphen ∷ c ∷ [])) ≡ (scope ++ digits) ++ c ∷ []
  scoped_removed scope year =
      remove_hyphens-append scope (hyphen ∷ (digits ++ hyphen ∷ c ∷ []))
      ∙ rw
          (
            remove_hyphens_of_none scope (digits_no_hyphen scope year),
            remove_hyphens-hyphen,
            tail_removed,
          )
          (sym (append_assoc scope digits (c ∷ [])))

  scoped_split :
      (scope : Text)
      → all is_digit scope ≡ true
      → split_hyphens (scope ++ hyphen ∷ (digits ++ hyphen ∷ c ∷ []))
        ≡ scope ∷ digits ∷ (c ∷ []) ∷ []
  scoped_split scope year =
      split-append scope (digits ++ hyphen ∷ c ∷ []) (digits_no_hyphen scope year)
      ∙ ap (λ t. scope ∷ t) tail_split

  pub parse_scoped :
      (scope : Text)
      → length scope ≡ 4
      → all is_digit scope ≡ true
      → has_scope r ≡ true
      → calculate_sequential_check_symbol (scope ++ digits) ≡ ok (c ∷ [])
      → parse_sequential_reference (scope ++ hyphen ∷ (digits ++ hyphen ∷ c ∷ [])) d.public_prefix r
        ≡ ok (parsed_sequence d r (scope ++ digits) (c ∷ []) (some scope) digits)
  unfolding parse_sequential_reference
  parse_scoped scope four year scoped checked = rw (
    scoped,
    scoped_removed scope year,
    length_test (scope ++ digits) c (r.width + 4)
        (omega (arith, length-append scope digits, four, sized)),
    check_groups_of_lengths (scope ++ hyphen ∷ (digits ++ hyphen ∷ c ∷ [])) (4 ∷ r.width ∷ 1 ∷ [])
        (ap (map length) (scoped_split scope year) ∙ rw (four, sized)),
    drop_last-append (scope ++ digits) c,
    last_unit-append (scope ++ digits) c,
    is_all_digits_of (scope ++ digits)
        (nonempty_of_length (scope ++ digits) (omega (arith, length-append scope digits, four)))
        (rw (all-append is_digit scope digits, year) spelled),
    included,
    checked,
    text_eq_refl (c ∷ []),
    cut_scope scope digits four,
    cut_sequence scope digits four,
  )
