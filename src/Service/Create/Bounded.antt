-- ===== src/Service/Create/Bounded.antt =====
-- How often `create` (service.ts) asks the store.
use identifold.Prelude.{
  ℕ, zero, suc, ◌+◌, ◌≤◌, ◌≡◌, refl, ap, ◌∙◌, Bool, true, false, Option, some, List, Text, arith,
  inl, inr,
}
use identifold.Errors.{Result, ok, err, ok-injective, >>=-eq-ok, Result-cases}
use identifold.Registry.{
  Number, whole, negative, not_integer, or_else, random, RegisteredNamespaceDefinition,
  RegisteredRandomReferenceDefinition, get_by_public_prefix,
}
use identifold.Machine.Defs.{UuidLibrary}
use identifold.Public.Defs.{TypeIdLibrary}
use identifold.Reference.Format.{create_reference_candidate, draw, require_random_namespace}
use identifold.Service.Create.Defs.{
  ReferenceReservation, Identity, Identifold, IdentifoldOptions, then_do, return,
  create_base_identity, reserve_loop, create_random, create_for, create, create_identifold,
  check_attempts, registry_of_ids,
}

check_attempts-range : (m : Number) (n : ℕ) → check_attempts m ≡ ok n → (1 ≤ n) × (n ≤ 100)
unfolding check_attempts
check_attempts-range (whole m) n h = ground arith
check_attempts-range (negative m) n h = cc
check_attempts-range not_integer n h = cc

-- A service that `createIdentifold` returns makes between 1 and 100 attempts.
pub create_identifold-range :
    {W : Type 0} (options : IdentifoldOptions W) (ids : Identifold W)
    → create_identifold options ≡ ok ids
    → (1 ≤ ids.max_attempts) × (ids.max_attempts ≤ 100)
unfolding create_identifold
create_identifold-range {W} options ids h =
    let (n, checked, made) =
      >>=-eq-ok (check_attempts (or_else options.max_reference_attempts (whole 8))) _ h in
    let (low, high) = check_attempts-range _ n checked in
    let same : n ≡ ids.max_attempts =
      ap (λ (x : Identifold W). x.max_attempts) (ok-injective made) in
    (omega (arith, low, same), omega (arith, high, same))

-- A step after which the count is at most `low`, then one after which it is at most `high`.
then_do-count :
    {W A B : Type 0} (count : W → ℕ) (low high : ℕ) (p : Result A × W) (f : A → W → Result B × W)
    → low ≤ high
    → count p.1 ≤ low
    → ((a : A) (w : W) → count w ≤ low → count (f a w).1 ≤ high)
    → count (then_do p f).1 ≤ high
then_do-count count low high (ok a, w) f order first rest = rest a w first
then_do-count count low high (err e, w) f order first rest = omega (arith, order, first)

module _ (uuid : UuidLibrary) (type_id : TypeIdLibrary) {W : Type 0} (ids : Identifold W)
    (reserve : ReferenceReservation → W → Result Bool × W) (count : W → ℕ)
    (asks_once : (x : ReferenceReservation) (w : W) → count (reserve x w).1 ≤ count w + 1)
    (draws_none : (n : Number) (w : W) → count (ids.options.random_bytes n w).1 ≡ count w)
    (source_none : (w : W) → count (ids.options.machine_id_source w).1 ≡ count w) where
  draw-count :
      (r : RegisteredRandomReferenceDefinition) (p : Result (Option (List ℕ)) × W)
      → count (draw r p).1 ≡ count p.1
  draw-count r (ok bytes, w) = refl
  draw-count r (err e, w) = refl

  candidate-count :
      (namespace : Text) (w : W)
      → count
          (create_reference_candidate ids.options.random_bytes
            (registry_of_ids uuid type_id ids)
            namespace
            w).1
        ≡ count w
  unfolding create_reference_candidate
  candidate-count namespace w =
      elim (Result-cases (require_random_namespace (registry_of_ids uuid type_id ids) namespace)) [
        | inl (r, e) ↦
            rw (e, create_reference_candidate) (draw-count r _ ∙ draws_none r.payload_length w)
        | inr (t, e) ↦ rw (e, create_reference_candidate)
      ]

  -- The turn of the loop after the store has answered.
  abbrev after_reserve : Text → Text → Text → ℕ → Text → Bool → W → Result Identity × W
  after_reserve namespace mid pid n reference reserved w = elim reserved [
    | true ↦ return (ok (record { mid = mid; pid = pid; ref = some reference })) w
    | false ↦ reserve_loop uuid type_id ids reserve namespace mid pid n w
  ]

  after-count :
      (namespace mid pid : Text) (n : ℕ) (reference : Text)
      (rest : (w : W)
        → count (reserve_loop uuid type_id ids reserve namespace mid pid n w).1 ≤ count w + n)
      (reserved : Bool) (w : W)
      → count (after_reserve namespace mid pid n reference reserved w).1 ≤ count w + n
  after-count namespace mid pid n reference rest true w = omega arith
  after-count namespace mid pid n reference rest false w = rest w

  loop-count :
      (namespace mid pid : Text) (n : ℕ) (w : W)
      → count (reserve_loop uuid type_id ids reserve namespace mid pid n w).1 ≤ count w + n
  unfolding reserve_loop
  loop-count namespace mid pid zero w = omega arith
  loop-count namespace mid pid (suc n) w =
      then_do-count count (count w) (count w + suc n)
        (create_reference_candidate ids.options.random_bytes (registry_of_ids uuid type_id ids)
          namespace w)
        _ (omega arith) (omega (arith, candidate-count namespace w))
        (λ reference w1 before.
          then_do-count count (count w + 1) (count w + suc n)
            (reserve (record { machine_id = mid; namespace = namespace; reference = reference }) w1)
            (after_reserve namespace mid pid n reference) (omega arith)
            (omega (
              arith,
              before,
              asks_once (record { machine_id = mid; namespace = namespace; reference = reference })
                  w1,
            ))
            (λ reserved w2 now. omega (
              arith,
              now,
              after-count namespace mid pid n reference (loop-count namespace mid pid n) reserved
                  w2,
            )))

  base-count :
      (namespace : Text) (w : W)
      → count (create_base_identity uuid type_id ids namespace w).1 ≤ count w
  unfolding create_base_identity
  base-count namespace w =
      then_do-count count (count w) (count w) (ids.options.machine_id_source w) _ (omega arith)
        (omega (arith, source_none w)) (λ text w1 before. before)

  -- When a reservation adds at most 1 to a count of the world, and neither the source of machine
  -- identifiers nor the source of bytes changes the count, `create` for a random namespace adds at
  -- most `max_attempts` to it.
  pub create_attempts_bound :
      (namespace : Text) (d : RegisteredNamespaceDefinition)
      (r : RegisteredRandomReferenceDefinition) (w : W)
      → get_by_public_prefix (registry_of_ids uuid type_id ids) namespace ≡ some d
      → d.reference ≡ some (random r)
      → ids.options.reference_store ≡ some reserve
      → count (create uuid type_id ids namespace w).1 ≤ count w + ids.max_attempts
  unfolding create create_for create_random
  create_attempts_bound namespace d r w found has stored =
      rw (found, create, has, create_for, stored, create_random)
        (then_do-count count (count w) (count w + ids.max_attempts)
          (create_base_identity uuid type_id ids namespace w)
          (λ base. reserve_loop uuid type_id ids reserve namespace base.0 base.1 ids.max_attempts)
          (omega arith) (base-count namespace w)
          (λ base w1 before.
            omega (arith, before, loop-count namespace base.0 base.1 ids.max_attempts w1)))
