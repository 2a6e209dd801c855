-- ===== src/Registry.antt =====
-- registry.ts: namespace definitions, their validation, and the registry that the other parts
-- read. `NamespaceRegistry` holds the list of definitions and the two maps that the closures
-- `getByPublicPrefix` and `getByReferencePrefix` capture. A field whose type the compiler alone
-- enforces (`strategy`, `profile`, `scope`, `width`) has any text or number here. The upper case that
-- `getByReferencePrefix` looks up is that of the ASCII letters and of the ten other letters whose
-- upper case is written with ASCII letters alone. What the model does not change has an upper case
-- with a unit that is not ASCII, and so is no registered prefix, changed or not.
use identifold.Errors.{
  fail, ◌>>=◌, guard, ◌>>◌, Result, ambiguous_ref_prefix, duplicate_public_prefix,
  duplicate_ref_prefix, invalid_namespace_definition, invalid_public_prefix, invalid_ref_length,
  invalid_ref_prefix, ok,
}
use identifold.Prelude.{
  ℕ, ◌+◌, ◌-◌, ◌^◌, Bool, true, false, not, ◌&&◌, ◌||◌, Option, none, some, List, [], ◌∷◌, ◌++◌,
  length, all, any, map_get, map_has, map_set, leb, ◌==◌, if◌then◌else◌, Text, codes, text_eq,
  starts_with, is_lower, is_upper, upper_unit, to_upper,
}
pub mod WellFormed
pub mod Creation
pub mod Lookup

-- A JavaScript number: a natural number, -(n + 1), or anything that is no integer.
pub data Number : Type 0 where
  whole : ℕ → Number
  negative : ℕ → Number
  not_integer : Number

-- `Number.isSafeInteger`
abbrev pub is_safe_integer : Number → Bool
is_safe_integer (whole n) = leb n (2 ^ 53 - 1)
is_safe_integer (negative n) = leb (n + 1) (2 ^ 53 - 1)
is_safe_integer not_integer = false

pub record ReferenceDefinition : Type 0 where
  pub prefix : Text
  pub strategy : Text
  pub profile : Option Text
  pub scope : Option Text
  pub width : Number

pub record NamespaceDefinition : Type 0 where
  pub public_prefix : Text
  pub reference : Option ReferenceDefinition

pub record RegisteredRandomReferenceDefinition : Type 0 where
  pub payload_length : Number
  pub prefix : Text
  pub profile : Text

pub record RegisteredSequentialReferenceDefinition : Type 0 where
  pub prefix : Text
  pub scope : Text
  pub width : ℕ

-- The constructor is the field `strategy`.
pub data RegisteredReferenceDefinition : Type 0 where
  random : RegisteredRandomReferenceDefinition → RegisteredReferenceDefinition
  sequence : RegisteredSequentialReferenceDefinition → RegisteredReferenceDefinition

abbrev pub reference_prefix : RegisteredReferenceDefinition → Text
reference_prefix (random r) = r.prefix
reference_prefix (sequence s) = s.prefix

pub record RegisteredNamespaceDefinition : Type 0 where
  pub public_prefix : Text
  pub reference : Option RegisteredReferenceDefinition

pub record NamespaceRegistry : Type 0 where
  pub definitions : List RegisteredNamespaceDefinition
  pub by_public_prefix : List (Text × RegisteredNamespaceDefinition)
  pub by_reference_prefix : List (Text × RegisteredNamespaceDefinition)

abbrev pub get_by_public_prefix : NamespaceRegistry → Text → Option RegisteredNamespaceDefinition
get_by_public_prefix registry public_prefix = map_get registry.by_public_prefix public_prefix

-- The letters outside of ASCII whose upper case is ASCII.
abbrev special_letters : List (ℕ × Text)
special_letters =
    (223, codes "SS")
    ∷ (305, codes "I")
    ∷ (383, codes "S")
    ∷ (64256, codes "FF")
    ∷ (64257, codes "FI")
    ∷ (64258, codes "FL")
    ∷ (64259, codes "FFI")
    ∷ (64260, codes "FFL")
    ∷ (64261, codes "ST")
    ∷ (64262, codes "ST")
    ∷ []

abbrev special_upper_case : List (ℕ × Text) → ℕ → Text
special_upper_case [] c = c ∷ []
special_upper_case ((letter, upper) ∷ letters) c =
    if c == letter then upper else special_upper_case letters c

-- `prefix.toUpperCase()`
unfoldable pub upper_case : Text → Text
upper_case [] = []
upper_case (c ∷ text) =
    (if leb c 127 then upper_unit c ∷ [] else special_upper_case special_letters c)
    ++ upper_case text

abbrev pub get_by_reference_prefix : NamespaceRegistry → Text → Option RegisteredNamespaceDefinition
get_by_reference_prefix registry prefix = map_get registry.by_reference_prefix (upper_case prefix)

-- `[a-z_]`
abbrev pub is_prefix_unit : ℕ → Bool
is_prefix_unit c = is_lower c || c == b'_'

abbrev ends_lower : Text → Bool
ends_lower [] = false
ends_lower (c ∷ []) = is_lower c
ends_lower (c ∷ d ∷ s) = ends_lower (d ∷ s)

-- What `TYPE_ID_PREFIX` allows behind the first letter: `([a-z_]{0,61}[a-z])?`.
abbrev pub type_id_rest : Text → Bool
type_id_rest [] = true
type_id_rest (c ∷ s) = leb (length (c ∷ s)) 62 && (all is_prefix_unit (c ∷ s) && ends_lower (c ∷ s))

-- `TYPE_ID_PREFIX.test(text)`
unfoldable pub is_type_id_prefix : Text → Bool
is_type_id_prefix [] = true
is_type_id_prefix (c ∷ s) = is_lower c && type_id_rest s

-- `REFERENCE_PREFIX.test(text)`
unfoldable pub is_reference_prefix : Text → Bool
is_reference_prefix text = all is_upper text && (leb 2 (length text) && leb (length text) 8)

abbrev pub is_empty : Text → Bool
is_empty [] = true
is_empty (c ∷ s) = false

unfoldable pub validate_public_prefix : Text → Result (Unit {0})
validate_public_prefix public_prefix =
    guard (not (is_empty public_prefix || not (is_type_id_prefix public_prefix)))
      invalid_public_prefix

-- The keys that `in` finds on `Object.prototype`.
abbrev pub inherited_keys : List Text
inherited_keys =
    codes "constructor"
    ∷ codes "__defineGetter__"
    ∷ codes "__defineSetter__"
    ∷ codes "hasOwnProperty"
    ∷ codes "__lookupGetter__"
    ∷ codes "__lookupSetter__"
    ∷ codes "isPrototypeOf"
    ∷ codes "propertyIsEnumerable"
    ∷ codes "toString"
    ∷ codes "valueOf"
    ∷ codes "__proto__"
    ∷ codes "toLocaleString"
    ∷ []

-- `PROFILE_LENGTHS[profile]` if `profile in PROFILE_LENGTHS`. An inherited key is found there too,
-- and its value is no number.
unfoldable pub profile_length : Text → Option Number
profile_length profile =
    if text_eq profile (codes "compact")
    then some (whole 8)
    else if text_eq profile (codes "high")
    then some (whole 12)
    else if text_eq profile (codes "standard")
    then some (whole 10)
    else if any (λ key. text_eq profile key) inherited_keys
    then some not_integer
    else none

-- `value ?? fallback`
abbrev pub or_else {ℓ} : {A : Type ℓ} → Option A → A → A
or_else none fallback = fallback
or_else (some value) fallback = value

unfoldable pub register_random : ReferenceDefinition → Result RegisteredReferenceDefinition
register_random reference =
    let profile = or_else reference.profile (codes "standard") in
    elim (profile_length profile) [
      | none ↦ fail invalid_namespace_definition
      | some n ↦
          ok (random (record { payload_length = n; prefix = reference.prefix; profile = profile }))
    ]

-- The test on `width`; a width that passes is a natural number.
unfoldable pub register_width : Number → Result ℕ
register_width (whole n) =
    if is_safe_integer (whole n) && (leb 4 n && leb n 18) then ok n else fail invalid_ref_length
register_width (negative n) = fail invalid_ref_length
register_width not_integer = fail invalid_ref_length

unfoldable pub register_sequence : ReferenceDefinition → Result RegisteredReferenceDefinition
register_sequence reference = do
  width ← register_width reference.width
  ok (
      sequence (record {
        prefix = reference.prefix;
        scope = or_else reference.scope (codes "none");
        width = width;
      }))

unfoldable pub register_strategy : ReferenceDefinition → Result RegisteredReferenceDefinition
register_strategy reference =
    if text_eq reference.strategy (codes "random")
    then register_random reference
    else if text_eq reference.strategy (codes "sequence")
    then register_sequence reference
    else fail invalid_namespace_definition

unfoldable pub register_reference :
    Option ReferenceDefinition → Result (Option RegisteredReferenceDefinition)
register_reference none = ok none
register_reference (some reference) = do
  guard (is_reference_prefix reference.prefix) invalid_ref_prefix
  registered ← register_strategy reference
  ok (some registered)

-- The loop over `byReferencePrefix.keys()`.
unfoldable pub check_prefix_free :
    List (Text × RegisteredNamespaceDefinition) → Text → Result (Unit {0})
check_prefix_free [] prefix = ok tt
check_prefix_free ((registered, _) ∷ entries) prefix =
    if starts_with registered prefix || starts_with prefix registered
    then fail ambiguous_ref_prefix
    else check_prefix_free entries prefix

unfoldable pub check_reference_prefix :
    List (Text × RegisteredNamespaceDefinition)
    → Option RegisteredReferenceDefinition
    → Result (Unit {0})
check_reference_prefix entries none = ok tt
check_reference_prefix entries (some reference) = do
  let prefix = to_upper (reference_prefix reference)
  guard (not (map_has entries prefix)) duplicate_ref_prefix
  check_prefix_free entries prefix

-- The three writes at the end of a round.
unfoldable pub add_namespace : NamespaceRegistry → RegisteredNamespaceDefinition → NamespaceRegistry
add_namespace registry namespace = record {
  definitions = registry.definitions ++ namespace ∷ [];
  by_public_prefix = map_set registry.by_public_prefix namespace.public_prefix namespace;
  by_reference_prefix = elim namespace.reference [
    | none ↦ registry.by_reference_prefix
    | some reference ↦
        map_set registry.by_reference_prefix (to_upper (reference_prefix reference)) namespace
  ];
}

-- One round of the loop of `createNamespaceRegistry`.
unfoldable pub register : NamespaceRegistry → NamespaceDefinition → Result NamespaceRegistry
register registry definition = do
  validate_public_prefix definition.public_prefix
  guard (not (map_has registry.by_public_prefix definition.public_prefix)) duplicate_public_prefix
  reference ← register_reference definition.reference
  check_reference_prefix registry.by_reference_prefix reference
  ok (
      add_namespace registry
        (record { public_prefix = definition.public_prefix; reference = reference }))

unfoldable pub register_all :
    NamespaceRegistry → List NamespaceDefinition → Result NamespaceRegistry
register_all registry [] = ok registry
register_all registry (definition ∷ definitions) =
    register registry definition >>= λ next. register_all next definitions

abbrev empty_registry : NamespaceRegistry
empty_registry = record { definitions = []; by_public_prefix = []; by_reference_prefix = [] }

unfoldable pub create_namespace_registry : List NamespaceDefinition → Result NamespaceRegistry
create_namespace_registry definitions = register_all empty_registry definitions
