-- ===== src/Service/Create/Reserved.antt =====
-- What stands behind an identity that `create` (service.ts) returns.
use identifold.Prelude.{
  ℕ, zero, suc, ◌≡◌, refl, ap, sym, ◌∙◌, Bool, true, some, Text, Bool-cases, inl, inr,
}
use identifold.Errors.{Result, ok, err, ok-injective, >>=-eq-ok}
use identifold.Registry.{
  random, RegisteredNamespaceDefinition, RegisteredRandomReferenceDefinition, get_by_public_prefix,
}
use identifold.Registry.WellFormed.{IsWellFormed}
use identifold.Machine.Defs.{UuidLibrary, parse_machine_id}
use identifold.Machine.{parse_machine_id_idempotent}
use identifold.Public.Defs.{TypeIdLibrary, public_id_from_machine_id}
use identifold.Reference.Format.{create_reference_candidate}
use identifold.Reference.Parse.{ParsedReference, parse_reference}
use identifold.Reference.Candidate.{parse_reference-create_reference_candidate}
use identifold.Service.Create.Defs.{
  ReferenceReservation, Identity, Identifold, then_do, pair_up, create_base_identity, reserve_loop,
  create_random, create_for, create, registry_of_ids,
}

pub then_do-ok :
    {W A B : Type 0} (p : Result A × W) (f : A → W → Result B × W) {b : B} {w' : W}
    → then_do p f ≡ (ok b, w')
    → (a : A) × (w1 : W) × (p ≡ (ok a, w1)) × (f a w1 ≡ (ok b, w'))
then_do-ok (ok a, w) f h = (a, w, refl, h)
then_do-ok {W} {A} {B} (err e, w) f h = cc (ap (λ (q : Result B × W). q.0) h)

pub result-eq-ok :
    {W A : Type 0} {r : Result A} {a : A} {w w' : W}
    → ◌≡◌ {A = Result A × W} (r, w) (ok a, w')
    → (r ≡ ok a) × (w ≡ w')
result-eq-ok {W} {A} h = (ap (λ (q : Result A × W). q.0) h, ap (λ (q : Result A × W). q.1) h)

module _ (uuid : UuidLibrary) (type_id : TypeIdLibrary) {W : Type 0} (ids : Identifold W) where
  -- A base identity is a machine identifier in canonical form with its public identifier.
  pub base_identity :
      (namespace : Text) (w w' : W) (base : Text × Text)
      → create_base_identity uuid type_id ids namespace w ≡ (ok base, w')
      → (parse_machine_id uuid base.0 ≡ ok base.0)
        × (public_id_from_machine_id uuid type_id base.0 namespace ≡ ok base.1)
  unfolding create_base_identity pair_up
  base_identity namespace w w' base h =
      let (text, w1, _, h1) = then_do-ok (ids.options.machine_id_source w) _ h in
      let (mid, parsed, h2) = >>=-eq-ok (parse_machine_id uuid text) _ (result-eq-ok h1).0 in
      let (pid, made, h3) = >>=-eq-ok (public_id_from_machine_id uuid type_id mid namespace) _ h2 in
      let same = sym (ok-injective h3) in
      rw same (parse_machine_id_idempotent uuid text mid parsed, made)

  -- The loop returns only a candidate that the store has just reserved.
  reserve_loop_sound :
      (reserve : ReferenceReservation → W → Result Bool × W) (namespace mid pid : Text) (n : ℕ)
      (w w' : W) (identity : Identity)
      → reserve_loop uuid type_id ids reserve namespace mid pid n w ≡ (ok identity, w')
      → (reference : Text) × (u : W) × (v : W) × (create_reference_candidate
            ids.options.random_bytes
            (registry_of_ids uuid type_id ids)
            namespace
            u
          ≡ (ok reference, v))
        × (reserve (record { machine_id = mid; namespace = namespace; reference = reference }) v
            ≡ (ok true, w'))
        × (identity ≡ record { mid = mid; pid = pid; ref = some reference })
  unfolding reserve_loop
  reserve_loop_sound reserve namespace mid pid zero w w' identity h = cc (result-eq-ok h).0
  reserve_loop_sound reserve namespace mid pid (suc n) w w' identity h =
      let (reference, v, drawn, h1) =
        then_do-ok
          (create_reference_candidate ids.options.random_bytes (registry_of_ids uuid type_id ids)
            namespace w)
          _ h in
      let (reserved, v', answered, h2) =
        then_do-ok
          (reserve (record { machine_id = mid; namespace = namespace; reference = reference }) v) _
          h1 in
      elim (Bool-cases reserved) [
        | inl yes_reserved ↦
            let (made, at_end) = result-eq-ok (rw yes_reserved at h2) in
            (reference, w, v, drawn, answered ∙ rw (yes_reserved, at_end), sym (ok-injective made))
        | inr refused ↦
            reserve_loop_sound reserve namespace mid pid n v' w' identity (rw refused at h2)
      ]

  -- For a random namespace, `create` returns an identity only after the store has reserved its
  -- reference for its machine identifier and namespace. The machine identifier is in canonical
  -- form, the public identifier is the one of machine identifier and namespace, and, in a
  -- well-formed registry, the reference is read as one of the namespace, in canonical form.
  pub create_reserved :
      (namespace : Text) (d : RegisteredNamespaceDefinition)
      (r : RegisteredRandomReferenceDefinition)
      (reserve : ReferenceReservation → W → Result Bool × W) (w w' : W) (identity : Identity)
      → IsWellFormed (registry_of_ids uuid type_id ids)
      → get_by_public_prefix (registry_of_ids uuid type_id ids) namespace ≡ some d
      → d.reference ≡ some (random r)
      → ids.options.reference_store ≡ some reserve
      → create uuid type_id ids namespace w ≡ (ok identity, w')
      → (reference : Text) × (identity.ref ≡ some reference)
        × (v : W) × (reserve
              (record { machine_id = identity.mid; namespace = namespace; reference = reference })
              v
            ≡ (ok true, w'))
        × (parsed : ParsedReference) × (parse_reference reference (registry_of_ids uuid type_id ids)
            ≡ ok parsed)
        × (parsed.value ≡ reference)
        × (parsed.namespace ≡ namespace)
        × (parse_machine_id uuid identity.mid ≡ ok identity.mid)
        × (public_id_from_machine_id uuid type_id identity.mid namespace ≡ ok identity.pid)
  unfolding create create_for create_random
  create_reserved namespace d r reserve w w' identity f found has stored h =
      let h1 = rw (found, create) at h in
      let h2 = rw (has, create_for) at h1 in
      let h3 = rw (stored, create_random) at h2 in
      let (base, w1, based, h4) =
        then_do-ok (create_base_identity uuid type_id ids namespace w) _ h3 in
      let (reference, u, v, drawn, answered, made) =
        reserve_loop_sound reserve namespace base.0 base.1 ids.max_attempts w1 w' identity h4 in
      let (valid, public) = base_identity namespace w w1 base based in
      let (parsed, reads, same, named, _) =
        parse_reference-create_reference_candidate ids.options.random_bytes
          (registry_of_ids uuid type_id ids) namespace u v reference f drawn in
      (
        reference,
        ap (λ (x : Identity). x.ref) made,
        v,
        ap
              (λ (x : Identity).
                reserve
                  (record { machine_id = x.mid; namespace = namespace; reference = reference }) v)
              made
            ∙ answered,
        parsed,
        reads,
        same,
        named,
        ap (λ (x : Identity). parse_machine_id uuid x.mid) made
            ∙ valid
            ∙ ap (λ (x : Identity). ok x.mid) (sym made),
        ap (λ (x : Identity). public_id_from_machine_id uuid type_id x.mid namespace) made
            ∙ public
            ∙ ap (λ (x : Identity). ok x.pid) (sym made),
      )
