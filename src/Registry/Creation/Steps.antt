-- ===== src/Registry/Creation/Steps.antt =====
-- One round of the loop of `createNamespaceRegistry`: its tests, against the invariant.
use identifold.Prelude.{
  ℕ, ◌≤◌, ◌≡◌, ◌≢◌, refl, sym, true, false, not, Option, none, some, List, [], ◌∷◌, ◌++◌, arith,
  All, Text, starts_with_of_text_eq, text_eq_iff, to_upper, map_has, map_set, map_set_new, ◌↔◌,
  append-nil, ◌∙◌, Option-cases, inl, inr,
}
use identifold.Errors.{ok, >>=-eq-ok, guard, guard-eq-ok, ok-injective, duplicate_public_prefix}
use identifold.Registry.{
  ReferenceDefinition, NamespaceDefinition, RegisteredReferenceDefinition, random, sequence,
  RegisteredNamespaceDefinition, NamespaceRegistry, register, register_reference, reference_prefix,
  register_strategy, register_random, register_sequence, register_width, check_prefix_free,
  check_reference_prefix, add_namespace, validate_public_prefix, is_type_id_prefix,
  is_reference_prefix, whole, negative, not_integer, Number,
}
use identifold.Registry.WellFormed.{
  ApartReferences, Compatible, ValidReference, ValidDefinition, public_entries, reference_entry,
  reference_entries, registry_of, public_entries-append, reference_entries-append,
  ValidReference-to_upper,
}

register_width-range : (w : Number) (n : ℕ) → register_width w ≡ ok n → (4 ≤ n) × (n ≤ 18)
unfolding register_width
register_width-range (whole m) n h = ground arith
register_width-range (negative m) n h = cc
register_width-range not_integer n h = cc

register_strategy-Valid :
    (d : ReferenceDefinition) (r : RegisteredReferenceDefinition)
    → is_reference_prefix d.prefix ≡ true
    → register_strategy d ≡ ok r
    → ValidReference (some r)
unfolding register_strategy register_random register_sequence
register_strategy-Valid d (random r) p h = ground arith
register_strategy-Valid d (sequence s) p h = ground (arith, register_width-range d.width s.width)

-- What passes `registerReference` is a valid reference.
register_reference-Valid :
    (o : Option ReferenceDefinition) (r : Option RegisteredReferenceDefinition)
    → register_reference o ≡ ok r
    → ValidReference r
unfolding register_reference
register_reference-Valid none none h = tt
register_reference-Valid none (some r) h = cc
register_reference-Valid (some d) none h = ground arith
register_reference-Valid (some d) (some r) h = ground (arith, register_strategy-Valid d r)

-- `byPublicPrefix.has(prefix)` tells whether a definition has the prefix.
map_has-public_entries :
    (ds : List RegisteredNamespaceDefinition) (p : Text)
    → (map_has (public_entries ds) p ≡ false) ↔ All (λ d. d.public_prefix ≢ p) ds
map_has-public_entries [] p = ground arith
map_has-public_entries (d ∷ ds) p =
    ground (arith, map_has-public_entries ds p, text_eq_iff d.public_prefix p)

module _ (b : RegisteredReferenceDefinition) where
  check_prefix_free_sound :
      (ds : List RegisteredNamespaceDefinition)
      → check_prefix_free (reference_entries ds) (reference_prefix b) ≡ ok tt
      → All (λ d. ApartReferences d.reference (some b)) ds
  unfolding check_prefix_free
  check_prefix_free_sound [] h = tt
  check_prefix_free_sound (d ∷ ds) h = ground (arith, check_prefix_free_sound ds)

  check_prefix_free_complete :
      (ds : List RegisteredNamespaceDefinition)
      → All (λ d. ApartReferences d.reference (some b)) ds
      → check_prefix_free (reference_entries ds) (reference_prefix b) ≡ ok tt
  unfolding check_prefix_free
  check_prefix_free_complete [] h = refl
  check_prefix_free_complete (d ∷ ds) h = ground (arith, check_prefix_free_complete ds)

  map_has-reference_entries :
      (ds : List RegisteredNamespaceDefinition)
      → All (λ d. ApartReferences d.reference (some b)) ds
      → map_has (reference_entries ds) (reference_prefix b) ≡ false
  map_has-reference_entries [] h = refl
  map_has-reference_entries (d ∷ ds) h = elim (Option-cases d.reference) [
    | inl e ↦ ground (arith, map_has-reference_entries ds)
    | inr (r, e) ↦ ground (
      arith,
      map_has-reference_entries ds,
      starts_with_of_text_eq (reference_prefix r) (reference_prefix b),
    )
  ]

All-none :
    (ds : List RegisteredNamespaceDefinition) → All (λ d. ApartReferences d.reference none) ds
All-none [] = tt
All-none (d ∷ ds) =
    (elim d.reference as (λ r. ApartReferences r none) [ none ↦ tt | some r ↦ tt ], All-none ds)

-- The tests on a reference pass exactly if its prefix is apart from every registered one.
check_reference_prefix_iff :
    (ds : List RegisteredNamespaceDefinition) (o : Option RegisteredReferenceDefinition)
    → ValidReference o
    → (check_reference_prefix (reference_entries ds) o ≡ ok tt)
      ↔ All (λ d. ApartReferences d.reference o) ds
unfolding check_reference_prefix
check_reference_prefix_iff ds none v = (λ _. All-none ds, λ _. refl)
check_reference_prefix_iff ds (some b) v = rw (ValidReference-to_upper b v) (
    ground (
      arith,
      check_prefix_free_sound b ds,
      check_prefix_free_complete b ds,
      map_has-reference_entries b ds,
    ))

-- `e` is what registering `d` yields.
abbrev pub Accepts : NamespaceDefinition → RegisteredNamespaceDefinition → Type 0
Accepts d e =
    (e.public_prefix ≡ d.public_prefix) × (register_reference d.reference ≡ ok e.reference)

Compatible-split :
    (ds : List RegisteredNamespaceDefinition) (e : RegisteredNamespaceDefinition)
    → All (λ d. Compatible d e) ds ↔ (
        All (λ d. d.public_prefix ≢ e.public_prefix) ds
        × All (λ d. ApartReferences d.reference e.reference) ds)
Compatible-split [] e = (λ _. (tt, tt), λ _. tt)
Compatible-split (d ∷ ds) e =
    let (to, from) = Compatible-split ds e in
    (λ h. ((h.0.0, (to h.1).0), (h.0.1, (to h.1).1)), λ h. ((h.0.0, h.1.0), from (h.0.1, h.1.1)))

module _ (ds : List RegisteredNamespaceDefinition) (e : RegisteredNamespaceDefinition) where
  set_public :
      All (λ d. d.public_prefix ≢ e.public_prefix) ds
      → map_set (public_entries ds) e.public_prefix e ≡ public_entries (ds ++ e ∷ [])
  set_public h =
      rw (public_entries-append ds e)
        (map_set_new _ _ e ((map_has-public_entries ds e.public_prefix).1 h))

  set_reference :
      (o : Option RegisteredReferenceDefinition)
      → ValidReference o
      → All (λ d. ApartReferences d.reference o) ds
      → elim o [
        | none ↦ reference_entries ds
        | some b ↦ map_set (reference_entries ds) (to_upper (reference_prefix b)) e
      ]
        ≡ reference_entries ds ++ reference_entry o e []
  set_reference none v h = sym (append-nil _)
  set_reference (some b) v h =
      rw (ValidReference-to_upper b v) (map_set_new _ _ e (map_has-reference_entries b ds h))

  by_reference-add_namespace :
      ValidReference e.reference
      → All (λ d. ApartReferences d.reference e.reference) ds
      → (add_namespace (registry_of ds) e).by_reference_prefix ≡ reference_entries (ds ++ e ∷ [])
  unfolding add_namespace
  by_reference-add_namespace v h =
      set_reference e.reference v h ∙ sym (reference_entries-append ds e)

  add_namespace-registry_of :
      ValidReference e.reference
      → All (λ d. Compatible d e) ds
      → add_namespace (registry_of ds) e ≡ registry_of (ds ++ e ∷ [])
  unfolding add_namespace
  add_namespace-registry_of v h = λ i. record {
    definitions = ds ++ e ∷ [];
    by_public_prefix = set_public ((Compatible-split ds e).0 h).0 i;
    by_reference_prefix = by_reference-add_namespace v ((Compatible-split ds e).0 h).1 i;
  }

  -- A round on an acceptable definition succeeds.
  pub register_complete :
      (d : NamespaceDefinition)
      → Accepts d e
      → ValidDefinition e
      → All (λ x. Compatible x e) ds
      → register (registry_of ds) d ≡ ok (registry_of (ds ++ e ∷ []))
  unfolding register validate_public_prefix
  register_complete d a v h =
      let (publics, references) = (Compatible-split ds e).0 h in
      rw (← add_namespace-registry_of v.2 h) (
        ground (
          arith,
          a,
          v,
          (map_has-public_entries ds e.public_prefix).1 publics,
          (check_reference_prefix_iff ds e.reference v.2).1 references,
        ))

validate_public_prefix_sound :
    (p : Text) {u : Unit {0}}
    → validate_public_prefix p ≡ ok u
    → (p ≢ []) × (is_type_id_prefix p ≡ true)
unfolding validate_public_prefix
validate_public_prefix_sound [] h = cc
validate_public_prefix_sound (c ∷ p) h = ground arith

-- What a round that succeeds has checked and written.
pub register_sound :
    (ds : List RegisteredNamespaceDefinition) (d : NamespaceDefinition) (next : NamespaceRegistry)
    → register (registry_of ds) d ≡ ok next
    → (e : RegisteredNamespaceDefinition) × Accepts d e
      × ValidDefinition e
      × All (λ x. Compatible x e) ds
      × (next ≡ registry_of (ds ++ e ∷ []))
unfolding register
register_sound ds d next h =
    let (_, v, h1) = >>=-eq-ok (validate_public_prefix d.public_prefix) _ h in
    let (_, g, h2) =
      >>=-eq-ok (guard (not (map_has (public_entries ds) d.public_prefix)) duplicate_public_prefix)
        _ h1 in
    let (r, registers, h3) = >>=-eq-ok (register_reference d.reference) _ h2 in
    let (_, c, h4) = >>=-eq-ok (check_reference_prefix (reference_entries ds) r) _ h3 in
    let e : RegisteredNamespaceDefinition = record {
      public_prefix = d.public_prefix;
      reference = r;
    } in
    let valid = register_reference-Valid d.reference r registers in
    let publics = (map_has-public_entries ds d.public_prefix).0 (guard-eq-ok _ _ g) in
    let references = (check_reference_prefix_iff ds r valid).0 (rw c) in
    let compatible = (Compatible-split ds e).1 (publics, references) in
    let (filled, well_spelled) = validate_public_prefix_sound d.public_prefix v in
    (
      e,
      (refl, registers),
      (filled, well_spelled, valid),
      compatible,
      sym (ok-injective h4) ∙ add_namespace-registry_of ds e valid compatible,
    )
