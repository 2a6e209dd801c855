-- ===== src/Registry/WellFormed.antt =====
-- The invariant of a registry (registry.ts), stated without the loop that builds it.
use identifold.Prelude.{
  ◌≤◌, ◌≡◌, ◌≢◌, refl, ap, true, false, Option, none, some, List, [], ◌∷◌, ◌++◌, arith, All,
  All-append, Text, starts_with, is_upper, upper_unit, to_upper, to_upper_of_all, &&-eq-true, ℕ,
  if◌then◌else◌, any, codes, text_eq, Bool, ◌⊎◌, inl, inr,
}
use identifold.Registry.{
  RegisteredReferenceDefinition, random, sequence, RegisteredNamespaceDefinition, NamespaceRegistry,
  reference_prefix, is_type_id_prefix, is_reference_prefix, profile_length, whole, not_integer,
  inherited_keys, Number,
}

-- Neither text is a beginning of the other.
abbrev pub Apart : Text → Text → Type 0
Apart a b = (starts_with a b ≡ false) × (starts_with b a ≡ false)

abbrev pub ApartReferences :
    Option RegisteredReferenceDefinition → Option RegisteredReferenceDefinition → Type 0
ApartReferences none b = Unit
ApartReferences (some a) none = Unit
ApartReferences (some a) (some b) = Apart (reference_prefix a) (reference_prefix b)

-- Two definitions that may stand in one registry.
abbrev pub Compatible : RegisteredNamespaceDefinition → RegisteredNamespaceDefinition → Type 0
Compatible a b = (a.public_prefix ≢ b.public_prefix) × ApartReferences a.reference b.reference

-- Every definition is compatible with each one behind it.
abbrev pub AllCompatible : List RegisteredNamespaceDefinition → Type 0
AllCompatible [] = Unit
AllCompatible (d ∷ ds) = All (Compatible d) ds × AllCompatible ds

abbrev pub ValidReference : Option RegisteredReferenceDefinition → Type 0
ValidReference none = Unit
ValidReference (some (random r)) =
    (is_reference_prefix r.prefix ≡ true) × (profile_length r.profile ≡ some r.payload_length)
ValidReference (some (sequence s)) =
    (is_reference_prefix s.prefix ≡ true) × (4 ≤ s.width) × (s.width ≤ 18)

abbrev pub ValidDefinition : RegisteredNamespaceDefinition → Type 0
ValidDefinition d =
    (d.public_prefix ≢ []) × (is_type_id_prefix d.public_prefix ≡ true) × ValidReference d.reference

abbrev pub public_entries :
    List RegisteredNamespaceDefinition → List (Text × RegisteredNamespaceDefinition)
public_entries [] = []
public_entries (d ∷ ds) = (d.public_prefix, d) ∷ public_entries ds

abbrev pub reference_entry :
    Option RegisteredReferenceDefinition
    → RegisteredNamespaceDefinition
    → List (Text × RegisteredNamespaceDefinition)
    → List (Text × RegisteredNamespaceDefinition)
reference_entry none d entries = entries
reference_entry (some r) d entries = (reference_prefix r, d) ∷ entries

abbrev pub reference_entries :
    List RegisteredNamespaceDefinition → List (Text × RegisteredNamespaceDefinition)
reference_entries [] = []
reference_entries (d ∷ ds) = reference_entry d.reference d (reference_entries ds)

-- The registry that a list of definitions stands for.
abbrev pub registry_of : List RegisteredNamespaceDefinition → NamespaceRegistry
registry_of ds = record {
  definitions = ds;
  by_public_prefix = public_entries ds;
  by_reference_prefix = reference_entries ds;
}

-- The two maps index the definitions, every definition is valid, public prefixes are distinct, and
-- no reference prefix is a beginning of another one.
pub record IsWellFormed (registry : NamespaceRegistry) : Type 0 where
  pub indexed : registry ≡ registry_of registry.definitions
  pub valid : All ValidDefinition registry.definitions
  pub compatible : AllCompatible registry.definitions

pub public_entries-append :
    (ds : List RegisteredNamespaceDefinition) (d : RegisteredNamespaceDefinition)
    → public_entries (ds ++ d ∷ []) ≡ public_entries ds ++ (d.public_prefix, d) ∷ []
public_entries-append [] d = refl
public_entries-append (e ∷ ds) d = ap (λ t. (e.public_prefix, e) ∷ t) (public_entries-append ds d)

reference_entry-append :
    (r : Option RegisteredReferenceDefinition) (d : RegisteredNamespaceDefinition)
    (entries more : List (Text × RegisteredNamespaceDefinition))
    → reference_entry r d (entries ++ more) ≡ reference_entry r d entries ++ more
reference_entry-append none d entries more = refl
reference_entry-append (some r) d entries more = refl

pub reference_entries-append :
    (ds : List RegisteredNamespaceDefinition) (d : RegisteredNamespaceDefinition)
    → reference_entries (ds ++ d ∷ []) ≡ reference_entries ds ++ reference_entry d.reference d []
reference_entries-append [] d = refl
reference_entries-append (e ∷ ds) d =
    rw (reference_entries-append ds d) (reference_entry-append e.reference e _ _)

pub AllCompatible-append :
    (ds : List RegisteredNamespaceDefinition) (d : RegisteredNamespaceDefinition)
    → AllCompatible ds
    → All (λ e. Compatible e d) ds
    → AllCompatible (ds ++ d ∷ [])
AllCompatible-append [] d h k = (tt, tt)
AllCompatible-append (e ∷ ds) d h k =
    (All-append (Compatible e) ds (d ∷ []) h.0 (k.0, tt), AllCompatible-append ds d h.1 k.1)

-- A reference prefix is its own upper case.
to_upper_of_is_reference_prefix : (p : Text) → is_reference_prefix p ≡ true → to_upper p ≡ p
unfolding is_reference_prefix upper_unit
to_upper_of_is_reference_prefix p h =
    to_upper_of_all is_upper p (λ c u. ground arith) (&&-eq-true _ _ h).0

pub ValidReference-to_upper :
    (r : RegisteredReferenceDefinition)
    → ValidReference (some r)
    → to_upper (reference_prefix r) ≡ reference_prefix r
ValidReference-to_upper (random r) h = to_upper_of_is_reference_prefix r.prefix h.0
ValidReference-to_upper (sequence s) h = to_upper_of_is_reference_prefix s.prefix h.0

-- The choice that `profile_length` makes.
chosen_length :
    (compact high standard inherited : Bool) (size : Number)
    → (if compact
        then some (whole 8)
        else if high
        then some (whole 12)
        else if standard
        then some (whole 10)
        else if inherited
        then some not_integer
        else none)
      ≡ some size
    → ((n : ℕ) × (size ≡ whole n) × (8 ≤ n) × (n ≤ 12)) ⊎ (size ≡ not_integer)
chosen_length true high standard inherited size h = inl (8, ground arith, omega arith, omega arith)
chosen_length false true standard inherited size h =
    inl (12, ground arith, omega arith, omega arith)
chosen_length false false true inherited size h = inl (10, ground arith, omega arith, omega arith)
chosen_length false false false true size h = inr (ground arith)
chosen_length false false false false size h = cc

-- A payload length is a number between 8 and 12, or no number.
pub profile_length-range :
    (p : Text) (size : Number)
    → profile_length p ≡ some size
    → ((n : ℕ) × (size ≡ whole n) × (8 ≤ n) × (n ≤ 12)) ⊎ (size ≡ not_integer)
unfolding profile_length
profile_length-range p size h =
    chosen_length (text_eq p (codes "compact")) (text_eq p (codes "high"))
      (text_eq p (codes "standard")) (any (λ key. text_eq p key) inherited_keys) size h
