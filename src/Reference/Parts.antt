-- ===== src/Reference/Parts.antt =====
-- The parts of a reference that `parseReference` (reference.ts) has read: where they come from and
-- what was tested of them.
use mathlib.Core.List.{Memᴰ}
use identifold.Prelude.{
  ℕ, zero, suc, ◌+◌, ◌≡◌, refl, ap, sym, ◌∙◌, true, ◌&&◌, Option, some, List, [], ◌∷◌, arith, Text,
  all, all-take, all-drop, length, length-take, length-drop, take, take-append-drop, text_eq,
  text_eq_iff, ◌==◌, ==_iff, &&-eq-true, is_digit, Option-cases, Bool-cases, inl, inr, index_of,
  starts_with, if◌then◌else◌,
}
use identifold.Errors.{
  ok, ok-injective, guard, >>=-eq-ok, guard-passes, invalid_ref_symbol, invalid_ref_length,
  invalid_checksum,
}
use identifold.Registry.{
  Number, whole, RegisteredRandomReferenceDefinition, RegisteredSequentialReferenceDefinition,
  RegisteredNamespaceDefinition, NamespaceRegistry, get_by_reference_prefix, reference_prefix,
  profile_length,
}
use identifold.Registry.WellFormed.{profile_length-range, IsWellFormed}
use identifold.Registry.Lookup.{get_by_reference_prefix_iff}
use identifold.Reference.CheckSymbol.{
  calculate_reference_check_symbol, calculate_sequential_check_symbol,
}
use identifold.Reference.CheckSymbol.Value.{is_data_symbol}
use identifold.Reference.Hyphens.{
  hyphen, remove_hyphens, validate_hyphenation, validate_sequential_hyphenation,
}
use identifold.Reference.Format.{is_length}
use identifold.Reference.Parse.{
  ParsedReference, Located, locate_prefix, locate_namespace, drop_last, last_unit, alias,
  in_data_alphabet, in_check_alphabet, normalize_payload, plus_one, parse_random_reference,
  parse_sequential_reference, has_scope, is_all_digits, payload_scope, payload_sequence,
}
use identifold.Reference.Units.{in_data_alphabet_lem}
use identifold.Reference.RoundTrip.Random.{parsed_random}
use identifold.Reference.RoundTrip.Sequential.{parsed_sequence}
use identifold.Reference.Sequence.{ScopeFits}

locate_prefix-mem :
    (ds : List RegisteredNamespaceDefinition) (v : Text) (l : Located)
    → locate_prefix ds v ≡ ok l
    → Memᴰ l.definition ds
unfolding locate_prefix
locate_prefix-mem [] v l h = cc
locate_prefix-mem (d ∷ ds) v l h = elim (Option-cases d.reference) [
  | inl e ↦ Memᴰ.tail (locate_prefix-mem ds v l (rw (e, locate_prefix) at h))
  | inr (r, e) ↦ elim (Bool-cases (starts_with v (reference_prefix r))) [
    | inl start ↦
        let k = rw (e, start, locate_prefix) at h in
        Memᴰ.head (sym (ap (λ (x : Located). x.definition) (ok-injective k)))
    | inr other ↦ Memᴰ.tail (locate_prefix-mem ds v l (rw (e, other, locate_prefix) at h))
  ]
]

-- The located definition is one of the registry.
pub locate_namespace-mem :
    (v : Text) (registry : NamespaceRegistry) (l : Located)
    → IsWellFormed registry
    → locate_namespace v registry ≡ ok l
    → Memᴰ l.definition registry.definitions
unfolding locate_namespace
locate_namespace-mem v registry l w h = elim (Option-cases (index_of v hyphen)) [
  | inl e ↦ locate_prefix-mem registry.definitions v l (rw (e, locate_namespace) at h)
  | inr (i, e) ↦ elim (Option-cases (get_by_reference_prefix registry (take i v))) [
    | inl missing ↦ cc (rw (e, missing, locate_namespace) at h)
    | inr (d, found) ↦
        let k = rw (e, found, locate_namespace) at h in
        rw (← ap (λ (x : Located). x.definition) (ok-injective k))
          ((get_by_reference_prefix_iff registry (take i v) d w).0 found).0
  ]
]

normalize_payload-ok :
    (s p : Text)
    → normalize_payload s ≡ ok p
    → (length p ≡ length s) × (all is_data_symbol p ≡ true)
unfolding normalize_payload
normalize_payload-ok [] p h = rw (← ok-injective h) (refl, refl)
normalize_payload-ok (c ∷ s) p h = elim (Bool-cases (in_data_alphabet (alias c))) [
  | inl fine ↦
      let h' = rw fine at h in
      let (q, rest, h1) = >>=-eq-ok (normalize_payload s) _ h' in
      let (size, symbols) = normalize_payload-ok s q rest in
      rw (← ok-injective h1) (ap suc size, rw (sym (in_data_alphabet_lem (alias c)) ∙ fine) symbols)
  | inr bad ↦ cc (rw bad at h)
]

length-drop_last : (s : Text) (n : ℕ) → length s ≡ suc n → length (drop_last s) ≡ n
length-drop_last [] n h = absurd (omega arith)
length-drop_last (c ∷ []) n h = omega arith
length-drop_last (c ∷ d ∷ s) zero h = absurd (omega arith)
length-drop_last (c ∷ d ∷ s) (suc n) h = ap suc (length-drop_last (d ∷ s) n (omega arith))

-- The test on the length of a random body.
whole_length :
    (m : ℕ) (profile : Text) (size : Number)
    → profile_length profile ≡ some size
    → is_length m (plus_one size) ≡ true
    → (n : ℕ) × (size ≡ whole n) × (m ≡ suc n)
whole_length m profile size v h = elim (profile_length-range profile size v) [
  | inl (n, e, _, _) ↦ (n, e, (==_iff m (suc n)).0 (rw e at h))
  | inr e ↦ cc (rw e at h)
]

-- The parts of a random reference that was read.
pub parse_random_reference-ok :
    (body : Text) (d : RegisteredNamespaceDefinition) (r : RegisteredRandomReferenceDefinition)
    (parsed : ParsedReference)
    → profile_length r.profile ≡ some r.payload_length
    → parse_random_reference body d.public_prefix r ≡ ok parsed
    → (payload : Text) × (check : Text) × (parsed ≡ parsed_random d r payload check)
      × (r.payload_length ≡ whole (length payload))
      × (all is_data_symbol payload ≡ true)
      × (calculate_reference_check_symbol payload ≡ ok check)
unfolding parse_random_reference
parse_random_reference-ok body d r parsed v h =
    let clean = remove_hyphens body in
    let (_, g1, h1) =
      >>=-eq-ok (guard (is_length (length clean) (plus_one r.payload_length)) invalid_ref_length) _
        h in
    let (_, _, h2) = >>=-eq-ok (validate_hyphenation body r.payload_length) _ h1 in
    let (payload, normal, h3) = >>=-eq-ok (normalize_payload (drop_last clean)) _ h2 in
    let (_, _, h4) =
      >>=-eq-ok (guard (in_check_alphabet (last_unit clean)) invalid_ref_symbol) _ h3 in
    let (calculated, calc, h5) = >>=-eq-ok (calculate_reference_check_symbol payload) _ h4 in
    let (_, g6, h6) =
      >>=-eq-ok (guard (text_eq calculated (last_unit clean)) invalid_checksum) _ h5 in
    let (n, size, counted) =
      whole_length (length clean) r.profile r.payload_length v (guard-passes _ _ g1) in
    let (kept, symbols) = normalize_payload-ok (drop_last clean) payload normal in
    (
      payload,
      last_unit clean,
      sym (ok-injective h6),
      size ∙ ap whole (sym (kept ∙ length-drop_last clean n counted)),
      symbols,
      calc ∙ ap ok ((text_eq_iff _ _).0 (guard-passes _ _ g6)),
    )

is_all_digits-ok : (s : Text) → is_all_digits s ≡ true → all is_digit s ≡ true
unfolding is_all_digits
is_all_digits-ok [] h = cc
is_all_digits-ok (c ∷ s) h = h

-- The payload cut into scope and digits.
cut_payload :
    (r : RegisteredSequentialReferenceDefinition) (payload : Text)
    → length payload ≡ r.width + (if has_scope r then 4 else 0)
    → all is_digit payload ≡ true
    → ScopeFits r
        (payload_scope (has_scope r) payload)
        (payload_sequence (has_scope r) payload)
        payload
      × (length (payload_sequence (has_scope r) payload) ≡ r.width)
      × (all is_digit (payload_sequence (has_scope r) payload) ≡ true)
cut_payload r payload size numeric = elim (Bool-cases (has_scope r)) [
  | inl scoped ↦
      let total = rw scoped at size in
      rw scoped (
        (
          scoped,
          length-take 4 payload (omega (arith, total)),
          all-take is_digit 4 payload numeric,
          sym (take-append-drop 4 payload),
        ),
        omega (arith, total, length-drop 4 payload),
        all-drop is_digit 4 payload numeric,
      )
  | inr unscoped ↦
      let total = rw unscoped at size in
      rw unscoped ((unscoped, refl), omega (arith, total), numeric)
]

-- The parts of a sequential reference that was read.
pub parse_sequential_reference-ok :
    (body : Text) (d : RegisteredNamespaceDefinition) (r : RegisteredSequentialReferenceDefinition)
    (parsed : ParsedReference)
    → parse_sequential_reference body d.public_prefix r ≡ ok parsed
    → (payload : Text) × (check : Text) × (scope : Option Text) × (digits : Text) × (parsed
        ≡ parsed_sequence d r payload check scope digits)
      × ScopeFits r scope digits payload
      × (length digits ≡ r.width)
      × (all is_digit digits ≡ true)
      × (calculate_sequential_check_symbol payload ≡ ok check)
unfolding parse_sequential_reference
parse_sequential_reference-ok body d r parsed h =
    let clean = remove_hyphens body in
    let payload = drop_last clean in
    let total : ℕ = r.width + (if has_scope r then 4 else 0) in
    let (_, g1, h1) = >>=-eq-ok (guard (length clean == total + 1) invalid_ref_length) _ h in
    let (_, _, h2) = >>=-eq-ok (validate_sequential_hyphenation body r.width (has_scope r)) _ h1 in
    let (_, g3, h3) =
      >>=-eq-ok
        (guard (is_all_digits payload && in_check_alphabet (last_unit clean)) invalid_ref_symbol) _
        h2 in
    let (calculated, calc, h4) = >>=-eq-ok (calculate_sequential_check_symbol payload) _ h3 in
    let (_, g5, h5) =
      >>=-eq-ok (guard (text_eq calculated (last_unit clean)) invalid_checksum) _ h4 in
    let size : length payload ≡ total =
      length-drop_last clean total (omega (arith, (==_iff _ _).0 (guard-passes _ _ g1))) in
    let numeric =
      is_all_digits-ok payload (&&-eq-true (is_all_digits payload) _ (guard-passes _ _ g3)).0 in
    let (fits, sized, spelled) = cut_payload r payload size numeric in
    (
      payload,
      last_unit clean,
      payload_scope (has_scope r) payload,
      payload_sequence (has_scope r) payload,
      sym (ok-injective h5),
      fits,
      sized,
      spelled,
      calc ∙ ap ok ((text_eq_iff _ _).0 (guard-passes _ _ g5)),
    )
