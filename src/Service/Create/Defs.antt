-- ===== src/Service/Create/Defs.antt =====
-- The definitions of `createIdentifold` and `create` (service.ts).
use identifold.Prelude.{
  ℕ, zero, suc, Bool, true, false, ◌&&◌, Option, none, some, List, Text, codes, text_eq, leb,
  if◌then◌else◌,
}
use identifold.Errors.{
  Thrown, Result, ok, err, fail, unknown_namespace, allocation_required, allocation_exhausted,
  invalid_allocation_policy, ◌>>=◌, identifold_error,
}
use identifold.Registry.{
  Number, whole, negative, not_integer, is_safe_integer, or_else, random, sequence,
  RegisteredReferenceDefinition, RegisteredSequentialReferenceDefinition, NamespaceRegistry,
  get_by_public_prefix,
}
use identifold.Machine.Defs.{UuidLibrary, parse_machine_id}
use identifold.Public.Defs.{TypeIdLibrary, public_id_from_machine_id}
use identifold.Reference.Decimal.{ℤ, pos, negsuc, to_decimal, pad_start}
use identifold.Reference.Format.{create_reference_candidate, format_sequential_reference}

pub record ReferenceReservation : Type 0 where
  pub machine_id : Text
  pub namespace : Text
  pub reference : Text

-- `scope` is `none` for `null`.
pub record SequenceAllocationRequest : Type 0 where
  pub machine_id : Text
  pub namespace : Text
  pub reference_prefix : Text
  pub scope : Option Text
  pub width : ℕ

pub record Identity : Type 0 where
  pub mid : Text
  pub pid : Text
  pub ref : Option Text

-- What `getUTCFullYear` and `getTime` tell of a date.
pub data Date : Type 0 where
  invalid_date : Date
  in_year : ℤ → Date

pub record IdentifoldOptions (W : Type 0) : Type 0 where
  pub machine_id_source : W → Result Text × W
  pub max_reference_attempts : Option Number
  pub now : W → Result Date × W
  pub random_bytes : Number → W → Result (Option (List ℕ)) × W
  pub reference_store : Option (ReferenceReservation → W → Result Bool × W)
  pub registry : NamespaceRegistry
  pub sequence_allocator : Option (SequenceAllocationRequest → W → Result ℤ × W)

-- The test on `maxReferenceAttempts`; a number that passes is a natural number.
unfoldable pub check_attempts : Number → Result ℕ
check_attempts (whole n) =
    if is_safe_integer (whole n) && (leb 1 n && leb n 100)
    then ok n
    else fail invalid_allocation_policy
check_attempts (negative n) = fail invalid_allocation_policy
check_attempts not_integer = fail invalid_allocation_policy

-- `year.toString().padStart(4, "0")`, for a year in range.
unfoldable pub year_digits : Date → Result Text
year_digits invalid_date = fail invalid_allocation_policy
year_digits (in_year (negsuc n)) = fail invalid_allocation_policy
year_digits (in_year (pos n)) =
    if leb n 9999 then ok (pad_start 4 (to_decimal n)) else fail invalid_allocation_policy

module _ {W : Type 0} where
  -- What a step of an asynchronous function does to the world.
  abbrev pub throw : {A : Type 0} → Thrown → W → Result A × W
  throw e w = (err e, w)

  abbrev pub return : {A : Type 0} → Result A → W → Result A × W
  return r w = (r, w)

  -- The rest of the function, behind a step.
  abbrev pub then_do : {A B : Type 0} → Result A × W → (A → W → Result B × W) → Result B × W
  then_do (ok a, w) f = f a w
  then_do (err e, w) f = (err e, w)

  unfoldable pub current_utc_year : (W → Result Date × W) → W → Result Text × W
  current_utc_year now w = then_do (now w) (λ date. return (year_digits date))

-- `max_attempts` is the number that `createIdentifold` has checked.
pub record Identifold (W : Type 0) : Type 0 where
  pub options : IdentifoldOptions W
  pub max_attempts : ℕ

unfoldable pub create_identifold : {W : Type 0} → IdentifoldOptions W → Result (Identifold W)
create_identifold options =
    check_attempts (or_else options.max_reference_attempts (whole 8)) >>= λ n.
    ok (record { options = options; max_attempts = n })

module _ (uuid : UuidLibrary) (type_id : TypeIdLibrary) {W : Type 0} (ids : Identifold W) where
  abbrev pub registry_of_ids : NamespaceRegistry
  registry_of_ids = ids.options.registry

  unfoldable pub pair_up : Text → Text → Result (Text × Text)
  pair_up namespace source_text = do
    mid ← parse_machine_id uuid source_text
    pid ← public_id_from_machine_id uuid type_id mid namespace
    ok (mid, pid)

  -- `createBaseIdentity`
  unfoldable pub create_base_identity : Text → W → Result (Text × Text) × W
  create_base_identity namespace w =
      then_do (ids.options.machine_id_source w) (λ text. return (pair_up namespace text))

  -- The loop over the attempts; `n` is the number of attempts left.
  unfoldable pub reserve_loop :
      (ReferenceReservation → W → Result Bool × W)
      → Text
      → Text
      → Text
      → ℕ
      → W
      → Result Identity × W
  reserve_loop reserve namespace mid pid zero w = throw (identifold_error allocation_exhausted) w
  reserve_loop reserve namespace mid pid (suc n) w =
      then_do (create_reference_candidate ids.options.random_bytes registry_of_ids namespace w)
        λ reference w1.
          then_do
            (reserve (record { machine_id = mid; namespace = namespace; reference = reference }) w1)
            λ reserved w2. elim reserved [
              | true ↦ return (ok (record { mid = mid; pid = pid; ref = some reference })) w2
              | false ↦ reserve_loop reserve namespace mid pid n w2
            ]

  unfoldable pub create_random : Text → W → Result Identity × W
  create_random namespace w = elim ids.options.reference_store [
    | none ↦ throw (identifold_error allocation_required) w
    | some reserve ↦
        then_do (create_base_identity namespace w)
          λ base. reserve_loop reserve namespace base.0 base.1 ids.max_attempts
  ]

  -- `referenceDefinition.scope === "calendar-year" ? currentUtcYear(options.now) : null`
  unfoldable pub scope_for : RegisteredSequentialReferenceDefinition → W → Result (Option Text) × W
  scope_for reference w =
      if text_eq reference.scope (codes "calendar-year")
      then then_do (current_utc_year ids.options.now w) (λ year. return (ok (some year)))
      else return (ok none) w

  unfoldable pub create_sequential :
      Text → RegisteredSequentialReferenceDefinition → W → Result Identity × W
  create_sequential namespace reference w = elim ids.options.sequence_allocator [
    | none ↦ throw (identifold_error allocation_required) w
    | some allocate ↦ then_do (create_base_identity namespace w) λ base w1.
        then_do (scope_for reference w1) λ scope w2.
          then_do
            (allocate
              (record {
                machine_id = base.0;
                namespace = namespace;
                reference_prefix = reference.prefix;
                scope = scope;
                width = reference.width;
              })
              w2)
            λ number. return (
              format_sequential_reference registry_of_ids namespace number scope >>= λ ref.
              ok (record { mid = base.0; pid = base.1; ref = some ref }))
  ]

  unfoldable pub create_for : Text → Option RegisteredReferenceDefinition → W → Result Identity × W
  create_for namespace none w =
      then_do (create_base_identity namespace w)
        λ base. return (ok (record { mid = base.0; pid = base.1; ref = none }))
  create_for namespace (some (sequence reference)) w = create_sequential namespace reference w
  create_for namespace (some (random reference)) w = create_random namespace w

  unfoldable pub create : Text → W → Result Identity × W
  create namespace w = elim (get_by_public_prefix registry_of_ids namespace) [
    | none ↦ throw (identifold_error unknown_namespace) w
    | some definition ↦ create_for namespace definition.reference w
  ]
