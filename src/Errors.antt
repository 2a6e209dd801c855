-- ===== src/Errors.antt =====
-- errors.ts: the error codes, and what a function of the program returns or throws. An
-- `IdentifoldError` is known by its code; its message is a constant of the place that throws it
-- and is left out. Whatever else is thrown is `foreign`, with the two properties that the database
-- adapters read of it, and `boundary` is the error class of middleware.ts.
use identifold.Prelude.{Text, Option, ◌≡◌, refl, Bool, true, false, not, arith, ◌⊎◌, inl, inr}

-- `IdentifoldErrorCode`
pub data Code : Type 0 where
  allocation_conflict allocation_exhausted allocation_required ambiguous_ref_prefix : Code
  duplicate_public_prefix duplicate_ref_prefix invalid_allocation_policy invalid_checksum : Code
  invalid_kind invalid_mid invalid_namespace_definition invalid_pid invalid_public_prefix : Code
  invalid_random_source invalid_ref invalid_ref_length invalid_ref_prefix invalid_ref_symbol : Code
  invalid_uuid_version sequence_overflow unknown_namespace : Code

pub data BoundaryCode : Type 0 where
  invalid_identifier unexpected_identifier_kind : BoundaryCode

pub record Foreign : Type 0 where
  pub code : Option Text
  pub sql_state : Option Text

pub data Thrown : Type 0 where
  identifold_error : Code → Thrown
  boundary_error : BoundaryCode → Thrown
  foreign : Foreign → Thrown

pub data Result {ℓ} (A : Type ℓ) : Type ℓ where
  ok : A → Result A
  err : Thrown → Result A

-- `throw new IdentifoldError(code, …)`
abbrev pub fail {ℓ} : {A : Type ℓ} → Code → Result A
fail c = err (identifold_error c)

-- What is thrown skips the next step.
infixl 5 ◌>>=◌
abbrev pub ◌>>=◌ {ℓ κ} : {A : Type ℓ} {B : Type κ} → Result A → (A → Result B) → Result B
err thrown >>= next = err thrown
ok value >>= next = next value

-- `if (!test) throw new IdentifoldError(code, …)`
abbrev pub guard : Bool → Code → Result (Unit {0})
guard true code = ok tt
guard false code = fail code

-- A step that returns nothing, and the rest of the function.
infixl 5 ◌>>◌
abbrev pub ◌>>◌ {ℓ} : {B : Type ℓ} → Result (Unit {0}) → Result B → Result B
check >> rest = check >>= λ done. rest

-- What a successful chain of two steps went through.
pub >>=-eq-ok {ℓ κ} :
    {A : Type ℓ} {B : Type κ} {end : B} (step : Result A) (next : A → Result B)
    → (step >>= next) ≡ ok end
    → (value : A) × (step ≡ ok value) × (next value ≡ ok end)
>>=-eq-ok (err thrown) next h = cc
>>=-eq-ok (ok value) next h = (value, refl, h)

pub ok-injective {ℓ} : {A : Type ℓ} {a b : A} → ok a ≡ ok b → a ≡ b
ok-injective h = cc

-- A guard `!test` passes only where the test fails.
pub guard-eq-ok : (test : Bool) (c : Code) {u : Unit {0}} → guard (not test) c ≡ ok u → test ≡ false
guard-eq-ok test c h = ground arith

-- A guard passes only where its test holds.
pub guard-passes : (test : Bool) (c : Code) {u : Unit {0}} → guard test c ≡ ok u → test ≡ true
guard-passes test c h = ground arith

pub Result-cases {ℓ} :
    {A : Type ℓ} (m : Result A) → ((a : A) × (m ≡ ok a)) ⊎ ((e : Thrown) × (m ≡ err e))
Result-cases (ok a) = inl (a, refl)
Result-cases (err e) = inr (e, refl)
