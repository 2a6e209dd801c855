-- ===== src/Service/Create/Allocated.antt =====
-- What stands behind an identity that `create` (service.ts) returns for a sequential namespace.
use identifold.Errors.{>>=-eq-ok, ok-injective, Result, ok}
use identifold.Machine.Defs.{parse_machine_id, UuidLibrary}
use identifold.Prelude.{ℕ, ◌≡◌, refl, sym, ap, ◌∙◌, Option, some, Text}
use identifold.Public.Defs.{public_id_from_machine_id, TypeIdLibrary}
use identifold.Reference.Decimal.{ℤ, pos, negsuc}
use identifold.Reference.Decimal.Laws.{decimal_value}
use identifold.Reference.Format.{require_sequential_namespace, format_sequential_reference}
use identifold.Reference.Parse.{parse_reference, ParsedReference}
use identifold.Reference.Sequence.{parse_reference-format_sequential_reference}
use identifold.Registry.{
  get_by_public_prefix, RegisteredSequentialReferenceDefinition, RegisteredNamespaceDefinition,
  sequence,
}
use identifold.Registry.WellFormed.{IsWellFormed}
use identifold.Service.Create.Defs.{
  registry_of_ids, create_base_identity, scope_for, create_sequential, create_for, create,
  SequenceAllocationRequest, Identity, Identifold,
}
use identifold.Service.Create.Reserved.{then_do-ok, result-eq-ok, base_identity}

-- The request that is made for an allocation.
abbrev pub allocation_request :
    RegisteredSequentialReferenceDefinition → Text → Text → Option Text → SequenceAllocationRequest
allocation_request r machine_id namespace scope = record {
  machine_id = machine_id;
  namespace = namespace;
  reference_prefix = r.prefix;
  scope = scope;
  width = r.width;
}

module _ (uuid : UuidLibrary) (type_id : TypeIdLibrary) {W : Type 0} (ids : Identifold W) where
  -- A number that is written is a natural number.
  written_natural :
      (namespace : Text) (number : ℤ) (scope : Option Text) (reference : Text)
      → format_sequential_reference (registry_of_ids uuid type_id ids) namespace number scope
        ≡ ok reference
      → (n : ℕ) × (number ≡ pos n)
        × (format_sequential_reference (registry_of_ids uuid type_id ids) namespace (pos n) scope
            ≡ ok reference)
  unfolding format_sequential_reference
  written_natural namespace (pos n) scope reference h = (n, refl, h)
  written_natural namespace (negsuc n) scope reference h =
      let (_, _, failed) =
        >>=-eq-ok (require_sequential_namespace (registry_of_ids uuid type_id ids) namespace) _ h in
      cc failed

  -- What a successful run of `create` for a sequential namespace went through.
  create_sequential_steps :
      (namespace : Text) (r : RegisteredSequentialReferenceDefinition)
      (allocate : SequenceAllocationRequest → W → Result ℤ × W) (w w' : W) (identity : Identity)
      → ids.options.sequence_allocator ≡ some allocate
      → create_sequential uuid type_id ids namespace r w ≡ (ok identity, w')
      → (base : Text × Text) × (w1 : W) × (scope : Option Text) × (w2 : W) × (number : ℤ)
        × (reference : Text) × (create_base_identity uuid type_id ids namespace w ≡ (ok base, w1))
        × (scope_for uuid type_id ids r w1 ≡ (ok scope, w2))
        × (allocate (allocation_request r base.0 namespace scope) w2 ≡ (ok number, w'))
        × (format_sequential_reference (registry_of_ids uuid type_id ids) namespace number scope
            ≡ ok reference)
        × (record { mid = base.0; pid = base.1; ref = some reference } ≡ identity)
  unfolding create_sequential
  create_sequential_steps namespace r allocate w w' identity stored h =
      let h1 = rw (stored, create_sequential) at h in
      let (base, w1, based, h2) =
        then_do-ok (create_base_identity uuid type_id ids namespace w) _ h1 in
      let (scope, w2, scoped, h3) = then_do-ok (scope_for uuid type_id ids r w1) _ h2 in
      let (number, w3, allocated, h4) =
        then_do-ok (allocate (allocation_request r base.0 namespace scope) w2) _ h3 in
      let (result, at_end) = result-eq-ok h4 in
      let (reference, written, made) =
        >>=-eq-ok
          (format_sequential_reference (registry_of_ids uuid type_id ids) namespace number scope) _
          result in
      (
        base,
        w1,
        scope,
        w2,
        number,
        reference,
        based,
        scoped,
        allocated ∙ ap (λ x. (ok number, x)) at_end,
        written,
        ok-injective made,
      )

  -- For a sequential namespace of a well-formed registry, a run of `create` that returns an identity
  -- consists of three steps, each in the state that the one before has left, and leaves the state of
  -- the last: the two other identifiers are made, the scope is determined, and the allocator is asked
  -- for the request with this machine identifier, namespace, prefix, scope and width, and returns a
  -- natural number. The reference is read as a reference of that namespace, scope and number. The
  -- machine identifier is in canonical form, and the public identifier is the one of machine
  -- identifier and namespace.
  pub create_allocated :
      (namespace : Text) (d : RegisteredNamespaceDefinition)
      (r : RegisteredSequentialReferenceDefinition)
      (allocate : SequenceAllocationRequest → W → Result ℤ × W) (w w' : W) (identity : Identity)
      → IsWellFormed (registry_of_ids uuid type_id ids)
      → get_by_public_prefix (registry_of_ids uuid type_id ids) namespace ≡ some d
      → d.reference ≡ some (sequence r)
      → ids.options.sequence_allocator ≡ some allocate
      → create uuid type_id ids namespace w ≡ (ok identity, w')
      → (n : ℕ) × (scope : Option Text) × (w1 : W) × (v : W) × (create_base_identity uuid type_id
            ids namespace w
          ≡ (ok (identity.mid, identity.pid), w1))
        × (scope_for uuid type_id ids r w1 ≡ (ok scope, v))
        × (allocate (allocation_request r identity.mid namespace scope) v ≡ (ok (pos n), w'))
        × (reference : Text) × (identity.ref ≡ some reference)
        × (parsed : ParsedReference) × (parse_reference reference (registry_of_ids uuid type_id ids)
            ≡ ok parsed)
        × (parsed.namespace ≡ namespace)
        × (parsed.scope ≡ scope)
        × (digits : Text) × (parsed.sequence ≡ some digits)
        × (decimal_value digits ≡ n)
        × (parse_machine_id uuid identity.mid ≡ ok identity.mid)
        × (public_id_from_machine_id uuid type_id identity.mid namespace ≡ ok identity.pid)
  unfolding create create_for
  create_allocated namespace d r allocate w w' identity f found has stored h =
      let h1 = rw (found, create) at h in
      let h2 = rw (has, create_for) at h1 in
      let (base, w1, scope, v, number, reference, based, asked, allocated, written, same) =
        create_sequential_steps namespace r allocate w w' identity stored h2 in
      let (n, natural, rewritten) = written_natural namespace number scope reference written in
      let (valid, public) = base_identity uuid type_id ids namespace w w1 base based in
      let (parsed, reads, _, named, scoped, digits, spelled, counted) =
        parse_reference-format_sequential_reference (registry_of_ids uuid type_id ids) namespace n
          scope reference f rewritten in
      (
        n,
        scope,
        w1,
        v,
        based ∙ ap (λ (x : Identity). (ok (x.mid, x.pid), w1)) same,
        asked,
        ap (λ (x : Identity). allocate (allocation_request r x.mid namespace scope) v) (sym same)
            ∙ allocated
            ∙ ap (λ x. (ok x, w')) natural,
        reference,
        ap (λ (x : Identity). x.ref) (sym same),
        parsed,
        reads,
        named,
        scoped,
        digits,
        spelled,
        counted,
        ap (λ (x : Identity). parse_machine_id uuid x.mid) (sym same)
            ∙ valid
            ∙ ap (λ (x : Identity). ok x.mid) same,
        ap (λ (x : Identity). public_id_from_machine_id uuid type_id x.mid namespace) (sym same)
            ∙ public
            ∙ ap (λ (x : Identity). ok x.pid) same,
      )
