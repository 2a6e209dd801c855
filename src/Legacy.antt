-- ===== src/Legacy.antt =====
-- legacy.ts: kinds of older identifiers, and the plan to migrate one. A value that is no text is
-- left out: the type of the argument is `string`.
use identifold.Errors.{fail, ◌>>=◌, >>=-eq-ok, ok-injective, Result, invalid_kind, ok}
use identifold.Machine.{parse_machine_id_idempotent}
use identifold.Machine.Defs.{parse_machine_id, UuidLibrary}
use identifold.Prelude.{
  ℕ, ◌≡◌, sym, ap, ◌∙◌, inl, inr, Bool, false, not, ◌&&◌, ◌||◌, Option, none, some, [], ◌∷◌, length,
  all, ltb, leb, ◌==◌, if◌then◌else◌, Bool-cases, Option-cases, Text, is_digit, is_upper, to_lower,
}
use identifold.Public.Defs.{public_id_from_machine_id, TypeIdLibrary}
use identifold.Reference.Hyphens.{hyphen}
use identifold.Registry.{is_empty}
use identifold.Service.Create.Defs.{return, then_do}
use identifold.Service.Create.Reserved.{then_do-ok, result-eq-ok}
use identifold.Service.Identify.{is_letter}

pub data LegacyIdentifierKind : Type 0 where
  integer nanoid short_code ulid uuidv4 : LegacyIdentifierKind

pub record LegacyIdentifierInspection : Type 0 where
  pub kind : LegacyIdentifierKind
  pub value : Text

-- The fields that are constants (`aliasRequired`, `relationships`) are left out.
pub record LegacyMigrationPlan : Type 0 where
  pub legacy : LegacyIdentifierInspection
  pub machine_id : Text
  pub namespace : Text

-- `/^(0|[1-9]\d{0,38})$/`
unfoldable pub is_integer_text : Text → Bool
is_integer_text [] = false
is_integer_text (c ∷ digits) =
    if c == b'0'
    then is_empty digits
    else is_digit c && (all is_digit digits && leb (length digits) 38)

-- `[0-9A-HJKMNP-TV-Z]`
abbrev is_ulid_unit : ℕ → Bool
is_ulid_unit c = is_digit c || is_upper c && not (c == b'I' || c == b'L' || c == b'O' || c == b'U')

-- `/^[0-7][0-9A-HJKMNP-TV-Z]{25}$/`
unfoldable pub is_ulid_text : Text → Bool
is_ulid_text [] = false
is_ulid_text (c ∷ units) =
    leb b'0' c && leb c b'7' && (all is_ulid_unit units && length units == 25)

-- `[A-Za-z0-9_-]`
abbrev is_name_unit : ℕ → Bool
is_name_unit c = is_letter c || is_digit c || c == b'_' || c == hyphen

-- `/^[A-Za-z0-9_-]{21}$/`
unfoldable pub is_nanoid_text : Text → Bool
is_nanoid_text value = all is_name_unit value && length value == 21

-- `/^[A-Za-z][A-Za-z0-9_-]{1,19}$/`
unfoldable pub is_short_code_text : Text → Bool
is_short_code_text [] = false
is_short_code_text (c ∷ units) =
    is_letter c && (all is_name_unit units && (leb 1 (length units) && leb (length units) 19))

-- `validateUuid(lower) && uuidVersion(lower) === 4`
abbrev pub is_uuidv4 : UuidLibrary → Text → Bool
is_uuidv4 uuid value = uuid.validate (to_lower value) && uuid.version (to_lower value) == 4

-- The kind that the tests find, in their order.
unfoldable pub legacy_kind : UuidLibrary → Text → Option LegacyIdentifierKind
legacy_kind uuid value =
    if is_uuidv4 uuid value
    then some uuidv4
    else if is_integer_text value
    then some integer
    else if is_ulid_text value
    then some ulid
    else if is_nanoid_text value
    then some nanoid
    else if is_short_code_text value
    then some short_code
    else none

unfoldable pub inspect_legacy_identifier : UuidLibrary → Text → Result LegacyIdentifierInspection
inspect_legacy_identifier uuid value =
    if is_empty value || ltb 100 (length value)
    then fail invalid_kind
    else elim (legacy_kind uuid value) [
      | none ↦ fail invalid_kind
      | some kind ↦ ok (record { kind = kind; value = value })
    ]

-- The part of `planLegacyMigration` behind the call of the source.
unfoldable pub plan_with :
    UuidLibrary
    → TypeIdLibrary
    → LegacyIdentifierInspection
    → Text
    → Text
    → Result LegacyMigrationPlan
plan_with uuid type_id legacy namespace source_text = do
  machine_id ← parse_machine_id uuid source_text
  pid ← public_id_from_machine_id uuid type_id machine_id namespace
  ok (record { legacy = legacy; machine_id = machine_id; namespace = namespace })

module _ {W : Type 0} where
  unfoldable pub plan_legacy_migration :
      UuidLibrary
      → TypeIdLibrary
      → Text
      → Text
      → (W → Result Text × W)
      → W
      → Result LegacyMigrationPlan × W
  plan_legacy_migration uuid type_id value namespace machine_id_source w =
      then_do (inspect_legacy_identifier uuid value, w)
        λ legacy w1.
          then_do (machine_id_source w1)
            λ source_text. return (plan_with uuid type_id legacy namespace source_text)

inspect_legacy_identifier_sound :
    (uuid : UuidLibrary) (value : Text) (legacy : LegacyIdentifierInspection)
    → inspect_legacy_identifier uuid value ≡ ok legacy
    → (legacy_kind uuid value ≡ some legacy.kind) × (legacy.value ≡ value)
unfolding inspect_legacy_identifier
inspect_legacy_identifier_sound uuid value legacy h =
    elim (Bool-cases (is_empty value || ltb 100 (length value))) [
      | inl outside ↦ cc (rw (inspect_legacy_identifier, outside) at h)
      | inr inside ↦ elim (Option-cases (legacy_kind uuid value)) [
        | inl unknown ↦ cc (rw (inspect_legacy_identifier, inside, unknown) at h)
        | inr (kind, known) ↦
            let made = ok-injective (rw (inspect_legacy_identifier, inside, known) at h) in
            (
              known ∙ ap (λ (x : LegacyIdentifierInspection). some x.kind) made,
              ap (λ (x : LegacyIdentifierInspection). x.value) (sym made),
            )
      ]
    ]

plan_with_sound :
    (uuid : UuidLibrary) (type_id : TypeIdLibrary) (legacy : LegacyIdentifierInspection)
    (namespace source_text : Text) (plan : LegacyMigrationPlan)
    → plan_with uuid type_id legacy namespace source_text ≡ ok plan
    → (m : Text) × (record { legacy = legacy; machine_id = m; namespace = namespace } ≡ plan)
      × (parse_machine_id uuid m ≡ ok m)
      × (pid : Text) × (public_id_from_machine_id uuid type_id m namespace ≡ ok pid)
unfolding plan_with
plan_with_sound uuid type_id legacy namespace source_text plan h =
    let (m, parsed, h1) = >>=-eq-ok (parse_machine_id uuid source_text) _ h in
    let (pid, made, h2) = >>=-eq-ok (public_id_from_machine_id uuid type_id m namespace) _ h1 in
    (m, ok-injective h2, parse_machine_id_idempotent uuid source_text m parsed, pid, made)

-- A plan keeps the older identifier as it is, with the kind that the tests find. Its machine
-- identifier is in canonical form, and a public identifier can be derived from it in its namespace.
pub plan_legacy_migration_sound :
    {W : Type 0} (uuid : UuidLibrary) (type_id : TypeIdLibrary) (value namespace : Text)
    (machine_id_source : W → Result Text × W) (w w' : W) (plan : LegacyMigrationPlan)
    → plan_legacy_migration uuid type_id value namespace machine_id_source w ≡ (ok plan, w')
    → (legacy_kind uuid value ≡ some plan.legacy.kind)
      × (plan.legacy.value ≡ value)
      × (plan.namespace ≡ namespace)
      × (parse_machine_id uuid plan.machine_id ≡ ok plan.machine_id)
      × (pid : Text) × (public_id_from_machine_id uuid type_id plan.machine_id namespace ≡ ok pid)
unfolding plan_legacy_migration
plan_legacy_migration_sound uuid type_id value namespace machine_id_source w w' plan h =
    let (legacy, u, inspected, h1) = then_do-ok (inspect_legacy_identifier uuid value, w) _ h in
    let (source_text, v, _, h2) = then_do-ok (machine_id_source u) _ h1 in
    let (m, same, valid, pid, made) =
      plan_with_sound uuid type_id legacy namespace source_text plan (result-eq-ok h2).0 in
    let (kind, kept) =
      inspect_legacy_identifier_sound uuid value legacy (result-eq-ok inspected).0 in
    (
      kind ∙ ap (λ (x : LegacyMigrationPlan). some x.legacy.kind) same,
      ap (λ (x : LegacyMigrationPlan). x.legacy.value) (sym same) ∙ kept,
      ap (λ (x : LegacyMigrationPlan). x.namespace) (sym same),
      ap (λ (x : LegacyMigrationPlan). parse_machine_id uuid x.machine_id) (sym same)
          ∙ valid
          ∙ ap (λ (x : LegacyMigrationPlan). ok x.machine_id) same,
      pid,
      ap
            (λ (x : LegacyMigrationPlan).
              public_id_from_machine_id uuid type_id x.machine_id namespace)
            (sym same)
          ∙ made,
    )
