-- ===== src/Reference/Candidate.antt =====
-- `createReferenceCandidate` (reference.ts): every candidate is a reference of its namespace, and
-- a source that returns enough bytes yields one.
use identifold.Prelude.{
  ℕ, ◌≡◌, refl, ap, sym, ◌∙◌, true, Option, none, some, List, [], ◌∷◌, Text, all, length, ==_iff,
  Option-cases, inl, inr, suc,
}
use identifold.Errors.{
  Result, ok, err, guard, >>=-eq-ok, ok-injective, invalid_random_source, fail,
  invalid_namespace_definition, Result-cases, guard-passes, Thrown,
}
use identifold.Registry.{
  Number, whole, RegisteredRandomReferenceDefinition, random, sequence,
  RegisteredNamespaceDefinition, RegisteredReferenceDefinition, NamespaceRegistry,
  get_by_public_prefix,
}
use identifold.Registry.WellFormed.{IsWellFormed}
use identifold.Registry.Lookup.{get_by_public_prefix_iff}
use identifold.Reference.CheckSymbol.{calculate_reference_check_symbol}
use identifold.Reference.CheckSymbol.Value.{is_data_symbol}
use identifold.Reference.Format.{
  is_length, payload_of_bytes, candidate_of_bytes, create_reference_candidate,
  require_random_namespace, format_reference, draw,
}
use identifold.Reference.Parse.{ParsedReference, by_random, parse_reference}
use identifold.Reference.Units.{byte_symbol_unit}
use identifold.Reference.RoundTrip.Random.{parsed_random, parse_reference-format_reference}

payload_of_bytes_facts :
    (bytes : List ℕ)
    → (length (payload_of_bytes bytes) ≡ length bytes)
      × (all is_data_symbol (payload_of_bytes bytes) ≡ true)
unfolding payload_of_bytes
payload_of_bytes_facts [] = (refl, refl)
payload_of_bytes_facts (b ∷ bytes) =
    let (c, e, h) = byte_symbol_unit b in
    let (size, symbols) = payload_of_bytes_facts bytes in (rw e (ap suc size), rw (e, h) symbols)

is_length-whole : (n : ℕ) (m : Number) → is_length n m ≡ true → m ≡ whole n
is_length-whole n (whole m) h = ap whole (sym ((==_iff n m).0 h))
is_length-whole n (Number.negative m) h = cc
is_length-whole n Number.not_integer h = cc

-- The namespace that `requireRandomNamespace` found.
require_random_namespace-ok :
    (registry : NamespaceRegistry) (namespace : Text) (r : RegisteredRandomReferenceDefinition)
    → require_random_namespace registry namespace ≡ ok r
    → (d : RegisteredNamespaceDefinition) × (get_by_public_prefix registry namespace ≡ some d)
      × (d.reference ≡ some (random r))
unfolding require_random_namespace
require_random_namespace-ok registry namespace r h =
    elim (Option-cases (get_by_public_prefix registry namespace)) [
      | inl missing ↦ cc (rw (missing, require_random_namespace) at h)
      | inr (d, found) ↦
          (d, found, of_reference d.reference (rw (found, require_random_namespace) at h))
    ]
  where
    of_reference :
        (o : Option RegisteredReferenceDefinition)
        → elim o [
          | none ↦ fail invalid_namespace_definition
          | some (sequence s) ↦ fail invalid_namespace_definition
          | some (random q) ↦ ok q
        ]
          ≡ ok r
        → o ≡ some (random r)
    of_reference none k = cc
    of_reference (some (sequence s)) k = cc
    of_reference (some (random q)) k = cc

-- A candidate is what `formatReference` writes for a payload of data symbols of the right length.
candidate_of_bytes-ok :
    (r : RegisteredRandomReferenceDefinition) (bytes : Option (List ℕ)) (reference : Text)
    → candidate_of_bytes r bytes ≡ ok reference
    → (payload : Text) × (check : Text) × (reference ≡ format_reference r.prefix payload check)
      × (r.payload_length ≡ whole (length payload))
      × (all is_data_symbol payload ≡ true)
      × (calculate_reference_check_symbol payload ≡ ok check)
unfolding candidate_of_bytes
candidate_of_bytes-ok r none reference h = cc
candidate_of_bytes-ok r (some bytes) reference h =
    let (_, sized, h1) =
      >>=-eq-ok (guard (is_length (length bytes) r.payload_length) invalid_random_source) _ h in
    let (check, calculated, h2) =
      >>=-eq-ok (calculate_reference_check_symbol (payload_of_bytes bytes)) _ h1 in
    let (size, symbols) = payload_of_bytes_facts bytes in
    (
      payload_of_bytes bytes,
      check,
      sym (ok-injective h2),
      is_length-whole (length bytes) r.payload_length (guard-passes _ _ sized)
          ∙ ap whole (sym size),
      symbols,
      calculated,
    )

module _ {W : Type 0} where
  draw-ok :
      (r : RegisteredRandomReferenceDefinition) (p : Result (Option (List ℕ)) × W)
      (reference : Text) (w : W)
      → draw r p ≡ (ok reference, w)
      → (bytes : Option (List ℕ)) × (p ≡ (ok bytes, w))
        × (candidate_of_bytes r bytes ≡ ok reference)
  draw-ok r (ok bytes, v) reference w h =
      (bytes, ap (λ (q : Result Text × W). (ok bytes, q.1)) h, ap (λ (q : Result Text × W). q.0) h)
  draw-ok r (err e, v) reference w h = cc (ap (λ (q : Result Text × W). q.0) h)

module _ {W : Type 0} (random_bytes : Number → W → Result (Option (List ℕ)) × W)
    (registry : NamespaceRegistry) (namespace : Text) where
  create-eq-draw :
      (w : W) (r : RegisteredRandomReferenceDefinition)
      → require_random_namespace registry namespace ≡ ok r
      → create_reference_candidate random_bytes registry namespace w
        ≡ draw r (random_bytes r.payload_length w)
  unfolding create_reference_candidate
  create-eq-draw w r h = rw (h, create_reference_candidate)

  create-eq-err :
      (w : W) (e : Thrown)
      → require_random_namespace registry namespace ≡ err e
      → create_reference_candidate random_bytes registry namespace w ≡ (err e, w)
  unfolding create_reference_candidate
  create-eq-err w e h = rw (h, create_reference_candidate)

  -- A successful call drew its bytes from the source, for a random namespace of the registry.
  drawn :
      (w w' : W) (reference : Text)
      → create_reference_candidate random_bytes registry namespace w ≡ (ok reference, w')
      → (r : RegisteredRandomReferenceDefinition) × (bytes : Option (List ℕ))
        × (require_random_namespace registry namespace ≡ ok r)
        × (candidate_of_bytes r bytes ≡ ok reference)
  drawn w w' reference h = elim (Result-cases (require_random_namespace registry namespace)) [
    | inl (r, e) ↦
        let (bytes, _, k) = draw-ok r _ reference w' (sym (create-eq-draw w r e) ∙ h) in
        (r, bytes, e, k)
    | inr (t, e) ↦ cc (ap (λ (q : Result Text × W). q.0) (sym (create-eq-err w t e) ∙ h))
  ]

  -- In a well-formed registry, every candidate that `createReferenceCandidate` returns, whatever
  -- the source of bytes, is read back by `parseReference` as a random reference of the given
  -- namespace, and is already in canonical form.
  pub parse_reference-create_reference_candidate :
      (w w' : W) (reference : Text)
      → IsWellFormed registry
      → create_reference_candidate random_bytes registry namespace w ≡ (ok reference, w')
      → (parsed : ParsedReference) × (parse_reference reference registry ≡ ok parsed)
        × (parsed.value ≡ reference)
        × (parsed.namespace ≡ namespace)
        × (parsed.strategy ≡ by_random)
  parse_reference-create_reference_candidate w w' reference f h =
      let (r, bytes, required, made) = drawn w w' reference h in
      let (d, found, has) = require_random_namespace-ok registry namespace r required in
      let (m, named) = (get_by_public_prefix_iff registry namespace d f).0 found in
      let (payload, check, written, sized, symbols, calculated) =
        candidate_of_bytes-ok r bytes reference made in
      (
        parsed_random d r payload check,
        ap (λ v. parse_reference v registry) written
            ∙ parse_reference-format_reference registry d r payload check f m has sized symbols
                calculated,
        sym written,
        named,
        refl,
      )
