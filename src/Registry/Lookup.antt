-- ===== src/Registry/Lookup.antt =====
-- The two lookups of a registry (registry.ts) against its list of definitions.
use mathlib.Core.List.{Memᴰ}
use identifold.Prelude.{
  ◌≡◌, refl, sym, ap, ◌∙◌, ◌↔◌, inl, inr, true, false, some, List, [], ◌∷◌, arith, all, All,
  map_get, leb, Bool-cases, Option-cases, &&-eq-true, Text, text_eq, text_eq_iff, text_eq_refl,
  is_lower, is_upper, upper_unit, starts_with_of_text_eq,
}
use identifold.Registry.{
  reference_prefix, get_by_public_prefix, upper_case, get_by_reference_prefix,
  RegisteredReferenceDefinition, RegisteredNamespaceDefinition, NamespaceRegistry,
}
use identifold.Registry.WellFormed.{
  Apart, Compatible, AllCompatible, public_entries, reference_entries, IsWellFormed,
}

pub All-at {ℓ κ} : {A : Type ℓ} (P : A → Type κ) {x : A} {xs : List A} → Memᴰ x xs → All P xs → P x
All-at P (Memᴰ.head e) h = rw e h.0
All-at P (Memᴰ.tail m) h = All-at P m h.1

get_public :
    (ds : List RegisteredNamespaceDefinition) (p : Text) (d : RegisteredNamespaceDefinition)
    → map_get (public_entries ds) p ≡ some d
    → Memᴰ d ds × (d.public_prefix ≡ p)
get_public [] p d h = cc
get_public (e ∷ ds) p d h = elim (Bool-cases (text_eq e.public_prefix p)) [
  | inl same ↦
      let here : e ≡ d = ground arith in
      (
        Memᴰ.head (sym here),
        sym (ap (λ (x : RegisteredNamespaceDefinition). x.public_prefix) here)
            ∙ (text_eq_iff _ _).0 same,
      )
  | inr other ↦ let (m, e') = get_public ds p d (rw other at h) in (Memᴰ.tail m, e')
]

by_public :
    (registry : NamespaceRegistry)
    → IsWellFormed registry
    → registry.by_public_prefix ≡ public_entries registry.definitions
by_public registry w = ap (λ (r : NamespaceRegistry). r.by_public_prefix) w.indexed

by_reference :
    (registry : NamespaceRegistry)
    → IsWellFormed registry
    → registry.by_reference_prefix ≡ reference_entries registry.definitions
by_reference registry w = ap (λ (r : NamespaceRegistry). r.by_reference_prefix) w.indexed

-- `d` has a reference with this prefix.
abbrev pub HasReferencePrefix : RegisteredNamespaceDefinition → Text → Type 0
HasReferencePrefix d p =
    (r : RegisteredReferenceDefinition) × (d.reference ≡ some r) × (reference_prefix r ≡ p)

get_reference :
    (ds : List RegisteredNamespaceDefinition) (p : Text) (d : RegisteredNamespaceDefinition)
    → map_get (reference_entries ds) p ≡ some d
    → Memᴰ d ds × HasReferencePrefix d p
get_reference [] p d h = cc
get_reference (e ∷ ds) p d h = elim (Option-cases e.reference) [
  | inl without ↦ let (m, f) = get_reference ds p d (rw without at h) in (Memᴰ.tail m, f)
  | inr (r, there) ↦ elim (Bool-cases (text_eq (reference_prefix r) p)) [
    | inl same ↦
        let here : e ≡ d = ground arith in
        (
          Memᴰ.head (sym here),
          (
            r,
            sym (ap (λ (x : RegisteredNamespaceDefinition). x.reference) here) ∙ there,
            (text_eq_iff _ _).0 same,
          ),
        )
    | inr other ↦ let (m, f) = get_reference ds p d (ground arith) in (Memᴰ.tail m, f)
  ]
]

get_reference_of_mem :
    (ds : List RegisteredNamespaceDefinition) (d : RegisteredNamespaceDefinition)
    (r : RegisteredReferenceDefinition)
    → AllCompatible ds
    → Memᴰ d ds
    → d.reference ≡ some r
    → map_get (reference_entries ds) (reference_prefix r) ≡ some d
get_reference_of_mem [] d r c m h = elim m [ ]
get_reference_of_mem (e ∷ ds) d r c (Memᴰ.head here) h =
    rw (ap (λ (x : RegisteredNamespaceDefinition). x.reference) (sym here) ∙ h)
      (ground (arith, text_eq_refl (reference_prefix r)))
get_reference_of_mem (e ∷ ds) d r c (Memᴰ.tail m) h = elim (Option-cases e.reference) [
  | inl without ↦ rw without (get_reference_of_mem ds d r c.1 m h)
  | inr (q, there) ↦
      let apart : Apart (reference_prefix q) (reference_prefix r) =
        (let k = (All-at (Compatible e) m c.0).1 in rw (there, h) at k) in
      ground (
        arith,
        apart,
        there,
        text_eq_iff (reference_prefix q) (reference_prefix r),
        starts_with_of_text_eq (reference_prefix q) (reference_prefix r),
        get_reference_of_mem ds d r c.1 m h,
      )
]

get_public_of_mem :
    (ds : List RegisteredNamespaceDefinition) (d : RegisteredNamespaceDefinition)
    → AllCompatible ds
    → Memᴰ d ds
    → map_get (public_entries ds) d.public_prefix ≡ some d
get_public_of_mem [] d c m = elim m [ ]
get_public_of_mem (e ∷ ds) d c (Memᴰ.head h) = rw (h, text_eq_refl e.public_prefix)
get_public_of_mem (e ∷ ds) d c (Memᴰ.tail m) =
    let apart = (All-at (Compatible e) m c.0).0 in
    ground (arith, apart, text_eq_iff e.public_prefix d.public_prefix, get_public_of_mem ds d c.1 m)

-- In a well-formed registry, `getByPublicPrefix` finds a definition exactly if it is registered
-- under that very prefix.
pub get_by_public_prefix_iff :
    (registry : NamespaceRegistry) (p : Text) (d : RegisteredNamespaceDefinition)
    → IsWellFormed registry
    → (get_by_public_prefix registry p ≡ some d)
      ↔ (Memᴰ d registry.definitions × (d.public_prefix ≡ p))
get_by_public_prefix_iff registry p d w = (
  λ h. get_public registry.definitions p d (rw (by_public registry w) at h),
  λ (m, e).
      rw (by_public registry w, ← e) (get_public_of_mem registry.definitions d w.compatible m),
)

-- A text of upper-case letters is its own upper case.
pub upper_case_of_upper : (text : Text) → all is_upper text ≡ true → upper_case text ≡ text
unfolding upper_case upper_unit
upper_case_of_upper [] h = refl
upper_case_of_upper (c ∷ text) h =
    let (upper, rest) = &&-eq-true (is_upper c) _ h in
    let small : leb c 127 ≡ true = ground arith in
    let kept : is_lower c ≡ false = ground arith in
    rw (small, kept, upper_case_of_upper text rest) refl

-- In a well-formed registry, `getByReferencePrefix` finds a definition exactly if it is registered
-- with the upper case of the given prefix as its reference prefix.
pub get_by_reference_prefix_iff :
    (registry : NamespaceRegistry) (p : Text) (d : RegisteredNamespaceDefinition)
    → IsWellFormed registry
    → (get_by_reference_prefix registry p ≡ some d)
      ↔ (Memᴰ d registry.definitions × HasReferencePrefix d (upper_case p))
get_by_reference_prefix_iff registry p d w = (
  λ h. get_reference registry.definitions (upper_case p) d (rw (by_reference registry w) at h),
  λ (m, (r, there, e)).
      rw (by_reference registry w, ← e)
        (get_reference_of_mem registry.definitions d r w.compatible m there),
)
