-- ===== src/Reference/RoundTrip/Random.antt =====
-- Random references (reference.ts): `parseReference` reads what `formatReference` writes.
use mathlib.Core.List.{Memᴰ}
use identifold.Prelude.{
  ℕ, suc, ◌%◌, ◌<◌, ◌≤◌, ◌≡◌, ◌≢◌, refl, ap, sym, ◌∙◌, true, none, some, [], ◌∷◌, ◌++◌, arith, Text,
  all, all-append, all_weaken, length, length-append, text_eq_refl, ◌==◌, ==_iff, inl, inr,
}
use identifold.Errors.{ok, ok-injective}
use identifold.Registry.{
  whole, RegisteredRandomReferenceDefinition, random, RegisteredNamespaceDefinition,
  NamespaceRegistry,
}
use identifold.Registry.WellFormed.{ValidReference, IsWellFormed, profile_length-range}
use identifold.Reference.CheckSymbol.{calculate_reference_check_symbol}
use identifold.Reference.CheckSymbol.Positional.{positional}
use identifold.Reference.CheckSymbol.Value.{
  symbol_value, is_data_symbol, calculate_reference_check_symbol_lem,
}
use identifold.Reference.Hyphens.{hyphen, remove_hyphens, join_hyphens, groups}
use identifold.Reference.Hyphens.Laws.{
  no_hyphen, remove_hyphens-append, remove_hyphens_of_none, remove-join-groups,
  validate_hyphenation-groups, all-join, all-groups, length-join-groups,
}
use identifold.Reference.Format.{format_reference}
use identifold.Reference.Parse.{
  ParsedReference, by_random, drop_last, last_unit, in_check_alphabet, parse_random_reference,
  parse_located, parse_reference,
}
use identifold.Reference.Units.{
  is_plain, is_check_unit, is_canonical_unit, is_data_symbol-is_plain, is_plain-is_canonical_unit,
  is_plain-no_hyphen, normalize_payload_of_data, check_symbol_unit,
}
use identifold.Reference.Locate.{parse_at_prefix, registered_valid}

pub drop_last-append : (s : Text) (c : ℕ) → drop_last (s ++ c ∷ []) ≡ s
drop_last-append [] c = refl
drop_last-append (d ∷ []) c = refl
drop_last-append (d ∷ e ∷ s) c = ap (λ t. d ∷ t) (drop_last-append (e ∷ s) c)

pub last_unit-append : (s : Text) (c : ℕ) → last_unit (s ++ c ∷ []) ≡ c ∷ []
last_unit-append [] c = refl
last_unit-append (d ∷ []) c = refl
last_unit-append (d ∷ e ∷ s) c = last_unit-append (e ∷ s) c

pub check_unit_facts :
    (c : ℕ) → is_check_unit c ≡ true → (is_canonical_unit c ≡ true) × (no_hyphen c ≡ true)
check_unit_facts c h = ground arith

-- What the parser returns for a payload of a namespace.
abbrev pub parsed_random :
    RegisteredNamespaceDefinition
    → RegisteredRandomReferenceDefinition
    → Text
    → Text
    → ParsedReference
parsed_random d r payload check = record {
  value = format_reference r.prefix payload check;
  namespace = d.public_prefix;
  payload = payload;
  scope = none;
  sequence = none;
  check_symbol = check;
  strategy = by_random;
}

pub only_check : (c : ℕ) → no_hyphen c ≡ true → remove_hyphens (hyphen ∷ c ∷ []) ≡ c ∷ []
unfolding remove_hyphens
only_check c h = ground arith

length_guard : (n m : ℕ) → n ≡ m → (n == m) ≡ true
length_guard n m h = (==_iff n m).1 h

value_lt : (n : ℕ) → n % 37 < 37
value_lt n = omega arith

-- The check symbol of a payload is one unit of the check alphabet.
check_unit :
    (payload check : Text)
    → payload ≢ []
    → all is_data_symbol payload ≡ true
    → calculate_reference_check_symbol payload ≡ ok check
    → (c : ℕ) × (check ≡ c ∷ []) × (is_check_unit c ≡ true) × (in_check_alphabet (c ∷ []) ≡ true)
check_unit payload check f h e =
    let n = positional 32 symbol_value payload 0 in
    let (c, at, unit, included) = check_symbol_unit (n % 37) (value_lt n) in
    (
      c,
      ok-injective (sym e ∙ calculate_reference_check_symbol_lem payload f h) ∙ at,
      unit,
      included,
    )

module _ (payload : Text) (symbols : all is_data_symbol payload ≡ true) where
  plain : all is_plain payload ≡ true
  plain = all_weaken is_data_symbol is_plain payload is_data_symbol-is_plain symbols

  unhyphenated : all no_hyphen payload ≡ true
  unhyphenated = all_weaken is_plain no_hyphen payload is_plain-no_hyphen plain

  grouped_canonical : all is_canonical_unit (join_hyphens (groups payload)) ≡ true
  grouped_canonical = all-join is_canonical_unit (groups payload) refl (
      all-groups is_canonical_unit payload
        (all_weaken is_plain is_canonical_unit payload is_plain-is_canonical_unit plain))

  removed : remove_hyphens (join_hyphens (groups payload)) ≡ payload
  removed = remove-join-groups payload ∙ remove_hyphens_of_none payload unhyphenated

module _ (d : RegisteredNamespaceDefinition) (r : RegisteredRandomReferenceDefinition)
    (payload : Text) (c : ℕ) (nonempty : payload ≢ [])
    (sized : r.payload_length ≡ whole (length payload))
    (symbols : all is_data_symbol payload ≡ true) (unit : is_check_unit c ≡ true)
    (included : in_check_alphabet (c ∷ []) ≡ true)
    (checked : calculate_reference_check_symbol payload ≡ ok (c ∷ [])) where
  body_canonical : all is_canonical_unit (join_hyphens (groups payload) ++ hyphen ∷ c ∷ []) ≡ true
  body_canonical = rw (
    all-append is_canonical_unit (join_hyphens (groups payload)) (hyphen ∷ c ∷ []),
    grouped_canonical payload symbols,
    (check_unit_facts c unit).0,
  )

  body_removed :
      remove_hyphens (join_hyphens (groups payload) ++ hyphen ∷ c ∷ []) ≡ payload ++ c ∷ []
  body_removed =
      remove_hyphens-append (join_hyphens (groups payload)) (hyphen ∷ c ∷ [])
      ∙ rw (removed payload symbols)
          (ap (λ t. payload ++ t) (only_check c (check_unit_facts c unit).1))

  body_length : (length (payload ++ c ∷ []) == suc (length payload)) ≡ true
  body_length = length_guard _ _ (omega (arith, length-append payload (c ∷ [])))

  parse_body :
      parse_random_reference (join_hyphens (groups payload) ++ hyphen ∷ c ∷ []) d.public_prefix r
      ≡ ok (parsed_random d r payload (c ∷ []))
  unfolding parse_random_reference
  parse_body = rw (
    sized,
    body_removed,
    body_length,
    validate_hyphenation-groups payload c nonempty (unhyphenated payload symbols)
        (check_unit_facts c unit).1,
    drop_last-append payload c,
    last_unit-append payload c,
    normalize_payload_of_data payload symbols,
    included,
    checked,
    text_eq_refl (c ∷ []),
  )

pub nonempty_of_length : (s : Text) → 1 ≤ length s → s ≢ []
nonempty_of_length [] h e = omega arith
nonempty_of_length (c ∷ s) h e = cc

whole-injective : {m n : ℕ} → whole m ≡ whole n → m ≡ n
whole-injective h = cc

length_range :
    (r : RegisteredRandomReferenceDefinition) (payload : Text)
    → ValidReference (some (random r))
    → r.payload_length ≡ whole (length payload)
    → (8 ≤ length payload) × (length payload ≤ 12)
length_range r payload v sized = elim (profile_length-range r.profile r.payload_length v.1) [
  | inl (n, e, low, high) ↦
      let same : n ≡ length payload = whole-injective (sym e ∙ sized) in
      (omega (arith, low, same), omega (arith, high, same))
  | inr e ↦ cc (sym e ∙ sized)
]

pub parse_located_random :
    (d : RegisteredNamespaceDefinition) (r : RegisteredRandomReferenceDefinition) (body : Text)
    → d.reference ≡ some (random r)
    → parse_located (record { body = body; definition = d })
      ≡ parse_random_reference body d.public_prefix r
unfolding parse_located
parse_located_random d r body h = simp h

-- In a well-formed registry, `parseReference` reads the reference that `formatReference` writes for
-- a registered random namespace, a payload of data symbols of the registered length and the check
-- symbol of that payload, and returns exactly these parts.
pub parse_reference-format_reference :
    (registry : NamespaceRegistry) (d : RegisteredNamespaceDefinition)
    (r : RegisteredRandomReferenceDefinition) (payload check : Text)
    → IsWellFormed registry
    → Memᴰ d registry.definitions
    → d.reference ≡ some (random r)
    → r.payload_length ≡ whole (length payload)
    → all is_data_symbol payload ≡ true
    → calculate_reference_check_symbol payload ≡ ok check
    → parse_reference (format_reference r.prefix payload check) registry
      ≡ ok (parsed_random d r payload check)
unfolding format_reference
parse_reference-format_reference registry d r payload check w m has sized symbols checked =
    let (long, short) =
      length_range r payload (registered_valid registry w d (random r) m has) sized in
    let nonempty = nonempty_of_length payload (omega arith) in
    let (c, e, unit, included) = check_unit payload check nonempty symbols checked in
    let checked' = checked ∙ ap ok e in
    let body = join_hyphens (groups payload) ++ hyphen ∷ c ∷ [] in
    rw e (
      parse_at_prefix registry w d (random r) m has body
        (body_canonical d r payload c nonempty sized symbols unit included checked')
        (omega (
          arith,
          length-append (join_hyphens (groups payload)) (hyphen ∷ c ∷ []),
          length-join-groups payload,
        ))
      ∙ parse_located_random d r body has
      ∙ parse_body d r payload c nonempty sized symbols unit included checked')
