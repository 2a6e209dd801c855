-- ===== src/OpenApi.antt =====
-- openapi.ts: the parts of an OpenAPI document that name the namespaces and the reference prefixes of
-- a registry. The constant parts of the document are left out. `toSorted` compares code units.
use mathlib.Core.List.{Memᴰ}
use identifold.Prelude.{
  ◌≡◌, refl, sym, ap, ◌∙◌, ◌↔◌, inl, inr, Bool, true, false, ◌&&◌, ◌||◌, none, some, List, [], ◌∷◌,
  map, arith, ltb, ◌==◌, if◌then◌else◌, Bool-cases, &&-eq-true, Text,
}
use identifold.Registry.{
  get_by_public_prefix, RegisteredReferenceDefinition, RegisteredNamespaceDefinition,
  NamespaceRegistry, random, sequence,
}
use identifold.Registry.Lookup.{get_by_public_prefix_iff}
use identifold.Registry.WellFormed.{IsWellFormed}

pub comes_first : Text → Text → Bool
comes_first [] t = true
comes_first (c ∷ s) [] = false
comes_first (c ∷ s) (d ∷ t) = ltb c d || c == d && comes_first s t

insert_sorted : Text → List Text → List Text
insert_sorted t [] = t ∷ []
insert_sorted t (u ∷ rest) =
    let later = insert_sorted t rest in if comes_first t u then t ∷ u ∷ rest else u ∷ later

to_sorted : List Text → List Text
to_sorted [] = []
to_sorted (t ∷ rest) = insert_sorted t (to_sorted rest)

abbrev registered_prefix : RegisteredReferenceDefinition → Text
registered_prefix (random r) = r.prefix
registered_prefix (sequence r) = r.prefix

-- `flatMap`
unfoldable reference_prefixes : List RegisteredNamespaceDefinition → List Text
reference_prefixes [] = []
reference_prefixes (d ∷ rest) = elim d.reference [
  | none ↦ reference_prefixes rest
  | some reference ↦ registered_prefix reference ∷ reference_prefixes rest
]

pub record OpenApiComponents : Type 0 where
  pub namespaces : List Text
  pub prefixes : List Text

pub create_open_api_components : NamespaceRegistry → OpenApiComponents
create_open_api_components registry = record {
  namespaces =
      to_sorted (map (λ (d : RegisteredNamespaceDefinition). d.public_prefix) registry.definitions);
  prefixes = to_sorted (reference_prefixes registry.definitions);
}

abbrev pub is_sorted : List Text → Bool
is_sorted [] = true
is_sorted (t ∷ []) = true
is_sorted (t ∷ u ∷ rest) = comes_first t u && is_sorted (u ∷ rest)

comes_first_total : (s t : Text) → comes_first s t ≡ false → comes_first t s ≡ true
unfolding comes_first
comes_first_total [] t h = cc
comes_first_total (c ∷ s) [] h = refl
comes_first_total (c ∷ s) (d ∷ t) h = ground (arith, comes_first_total s t)

is_sorted-insert_sorted :
    (t : Text) (l : List Text) → is_sorted l ≡ true → is_sorted (insert_sorted t l) ≡ true
unfolding insert_sorted
is_sorted-insert_sorted t [] h = refl
is_sorted-insert_sorted t (u ∷ []) h = elim (Bool-cases (comes_first t u)) [
  | inl before ↦ rw (before, before) refl
  | inr after ↦ rw (after, comes_first_total t u after) refl
]
is_sorted-insert_sorted t (u ∷ v ∷ rest) h =
    let (first, others) = &&-eq-true (comes_first u v) _ h in
    let again = is_sorted-insert_sorted t (v ∷ rest) others in
    elim (Bool-cases (comes_first t u)) [
      | inl before ↦ rw (before, before, first, others) refl
      | inr after ↦ elim (Bool-cases (comes_first t v)) [
        | inl between ↦ rw (after, between, comes_first_total t u after, between) others
        | inr later ↦ rw (after, later, first) (rw later at again)
      ]
    ]

is_sorted-to_sorted : (l : List Text) → is_sorted (to_sorted l) ≡ true
unfolding to_sorted
is_sorted-to_sorted [] = refl
is_sorted-to_sorted (t ∷ rest) =
    is_sorted-insert_sorted t (to_sorted rest) (is_sorted-to_sorted rest)

in_tail : {s a : Text} {k l : List Text} → (Memᴰ s k → Memᴰ s l) → Memᴰ s (a ∷ k) → Memᴰ s (a ∷ l)
in_tail f (Memᴰ.head e) = Memᴰ.head e
in_tail f (Memᴰ.tail m) = Memᴰ.tail (f m)

Memᴰ-insert_sorted : (s t : Text) (l : List Text) → Memᴰ s (insert_sorted t l) ↔ Memᴰ s (t ∷ l)
unfolding insert_sorted
Memᴰ-insert_sorted s t [] = (λ m. m, λ m. m)
Memᴰ-insert_sorted s t (u ∷ rest) =
    let (to, from) = Memᴰ-insert_sorted s t rest in
    elim (Bool-cases (comes_first t u)) [
      | inl before ↦ rw before (λ m. m, λ m. m)
      | inr after ↦ rw after (λ m. swap (in_tail to m), λ m. in_tail from (swap m))
    ]
  where
    swap : {a b : Text} {l : List Text} → Memᴰ s (a ∷ b ∷ l) → Memᴰ s (b ∷ a ∷ l)
    swap (Memᴰ.head e) = Memᴰ.tail (Memᴰ.head e)
    swap (Memᴰ.tail (Memᴰ.head e)) = Memᴰ.head e
    swap (Memᴰ.tail (Memᴰ.tail m)) = Memᴰ.tail (Memᴰ.tail m)

Memᴰ-to_sorted : (s : Text) (l : List Text) → Memᴰ s (to_sorted l) ↔ Memᴰ s l
unfolding to_sorted
Memᴰ-to_sorted s [] = (λ m. m, λ m. m)
Memᴰ-to_sorted s (t ∷ rest) =
    let (to, from) = Memᴰ-to_sorted s rest in
    let (to', from') = Memᴰ-insert_sorted s t (to_sorted rest) in
    (λ m. in_tail to (to' m), λ m. from' (in_tail from m))

Memᴰ-public_prefixes :
    (p : Text) (ds : List RegisteredNamespaceDefinition)
    → Memᴰ p (map (λ (d : RegisteredNamespaceDefinition). d.public_prefix) ds)
      ↔ ((d : RegisteredNamespaceDefinition) × Memᴰ d ds × (d.public_prefix ≡ p))
Memᴰ-public_prefixes p ds = (to ds, λ (d, m, is). from ds d m is)
  where
    to :
        (ds : List RegisteredNamespaceDefinition)
        → Memᴰ p (map (λ (d : RegisteredNamespaceDefinition). d.public_prefix) ds)
        → (d : RegisteredNamespaceDefinition) × Memᴰ d ds × (d.public_prefix ≡ p)
    to [] m = elim m [ ]
    to (d ∷ rest) (Memᴰ.head e) = (d, Memᴰ.head refl, sym e)
    to (d ∷ rest) (Memᴰ.tail m) = let (d', m', is) = to rest m in (d', Memᴰ.tail m', is)

    from :
        (ds : List RegisteredNamespaceDefinition) (d : RegisteredNamespaceDefinition)
        → Memᴰ d ds
        → d.public_prefix ≡ p
        → Memᴰ p (map (λ (d : RegisteredNamespaceDefinition). d.public_prefix) ds)
    from [] d m is = elim m [ ]
    from (d' ∷ rest) d (Memᴰ.head e) is =
        Memᴰ.head (sym is ∙ ap (λ (x : RegisteredNamespaceDefinition). x.public_prefix) e)
    from (d' ∷ rest) d (Memᴰ.tail m) is = Memᴰ.tail (from rest d m is)

-- In a well-formed registry, both lists of the OpenAPI components are sorted, and the namespaces that
-- they name are exactly those that `getByPublicPrefix` finds.
pub create_open_api_components_lem :
    (registry : NamespaceRegistry) (p : Text)
    → IsWellFormed registry
    → (is_sorted (create_open_api_components registry).namespaces ≡ true)
      × (is_sorted (create_open_api_components registry).prefixes ≡ true)
      × (Memᴰ p (create_open_api_components registry).namespaces
          ↔ ((d : RegisteredNamespaceDefinition) × (get_by_public_prefix registry p ≡ some d)))
unfolding create_open_api_components
create_open_api_components_lem registry p w =
    let (to, from) =
      Memᴰ-to_sorted p
        (map (λ (d : RegisteredNamespaceDefinition). d.public_prefix) registry.definitions) in
    let (found, listed) = Memᴰ-public_prefixes p registry.definitions in
    (
      is_sorted-to_sorted _,
      is_sorted-to_sorted _,
      (
        λ m.
            let (d, m', is) = found (to m) in
            (d, (get_by_public_prefix_iff registry p d w).1 (m', is)),
        λ (d, is).
            let (m, same) = (get_by_public_prefix_iff registry p d w).0 is in
            from (listed (d, m, same)),
      ),
    )
