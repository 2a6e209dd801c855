-- ===== src/Resolver.antt =====
-- resolver.ts: `createReferenceResolver`. The lookup is a function on a state of the world, which
-- it may change; `none` is `null`.
use identifold.Errors.{
  ◌>>=◌, guard, ◌>>◌, >>=-eq-ok, ok-injective, guard-passes, Result, allocation_conflict, ok,
}
use identifold.Machine.Defs.{parse_machine_id, UuidLibrary}
use identifold.Prelude.{◌≡◌, refl, sym, ap, ◌∙◌, Option, none, some, Text, text_eq, text_eq_iff}
use identifold.Reference.Canonical.{parse_reference_canonical}
use identifold.Reference.Parse.{parse_reference, ParsedReference}
use identifold.Registry.{NamespaceRegistry}
use identifold.Registry.WellFormed.{IsWellFormed}
use identifold.Service.Create.Defs.{return, then_do}
use identifold.Service.Create.Reserved.{then_do-ok, result-eq-ok}

pub record ReferenceLookupResult : Type 0 where
  pub machine_id : Text
  pub namespace : Text

pub record ResolvedReference : Type 0 where
  pub machine_id : Text
  pub namespace : Text
  pub reference : Text

-- What becomes of the answer of the lookup.
unfoldable pub resolve_answer :
    UuidLibrary → ParsedReference → Option ReferenceLookupResult → Result (Option ResolvedReference)
resolve_answer uuid parsed none = ok none
resolve_answer uuid parsed (some result) = do
  guard (text_eq result.namespace parsed.namespace) allocation_conflict
  machine_id ← parse_machine_id uuid result.machine_id
  ok (
      some (record {
        machine_id = machine_id;
        namespace = parsed.namespace;
        reference = parsed.value;
      }))

module _ {W : Type 0} where
  unfoldable pub resolve :
      UuidLibrary
      → NamespaceRegistry
      → (Text → Text → W → Result (Option ReferenceLookupResult) × W)
      → Text
      → W
      → Result (Option ResolvedReference) × W
  resolve uuid registry lookup value w =
      then_do (parse_reference value registry, w)
        λ parsed w1.
          then_do (lookup parsed.value parsed.namespace w1)
            λ result. return (resolve_answer uuid parsed result)

resolve_answer_sound :
    (uuid : UuidLibrary) (parsed : ParsedReference) (answer : Option ReferenceLookupResult)
    (found : ResolvedReference)
    → resolve_answer uuid parsed answer ≡ ok (some found)
    → (result : ReferenceLookupResult) × (answer ≡ some result)
      × (result.namespace ≡ parsed.namespace)
      × (parse_machine_id uuid result.machine_id ≡ ok found.machine_id)
      × (found.namespace ≡ parsed.namespace)
      × (found.reference ≡ parsed.value)
unfolding resolve_answer
resolve_answer_sound uuid parsed none found h = cc (ok-injective h)
resolve_answer_sound uuid parsed (some result) found h =
    let (_, g, h1) =
      >>=-eq-ok (guard (text_eq result.namespace parsed.namespace) allocation_conflict) _ h in
    let (m, valid, h2) = >>=-eq-ok (parse_machine_id uuid result.machine_id) _ h1 in
    let made : record { machine_id = m; namespace = parsed.namespace; reference = parsed.value }
        ≡ found =
      cc (ok-injective h2) in
    (
      result,
      refl,
      (text_eq_iff _ _).0 (guard-passes _ _ g),
      valid ∙ ap (λ (x : ResolvedReference). ok x.machine_id) made,
      ap (λ (x : ResolvedReference). x.namespace) (sym made),
      ap (λ (x : ResolvedReference). x.reference) (sym made),
    )

-- In a well-formed registry, a reference that is resolved was looked up in canonical form and under
-- the namespace that it is read in, the answer was for that namespace, and the machine identifier
-- is the canonical form of the one in the answer. The resolved reference is read in that namespace.
pub resolve_sound :
    {W : Type 0} (uuid : UuidLibrary) (registry : NamespaceRegistry)
    (lookup : Text → Text → W → Result (Option ReferenceLookupResult) × W) (value : Text) (w w' : W)
    (found : ResolvedReference)
    → IsWellFormed registry
    → resolve uuid registry lookup value w ≡ (ok (some found), w')
    → (parsed : ParsedReference) × (parse_reference value registry ≡ ok parsed)
      × (parse_reference found.reference registry ≡ ok parsed)
      × (found.reference ≡ parsed.value)
      × (found.namespace ≡ parsed.namespace)
      × (result : ReferenceLookupResult) × (lookup found.reference found.namespace w
          ≡ (ok (some result), w'))
      × (result.namespace ≡ found.namespace)
      × (parse_machine_id uuid result.machine_id ≡ ok found.machine_id)
unfolding resolve
resolve_sound uuid registry lookup value w w' found f h =
    let (parsed, u, read, h1) = then_do-ok (parse_reference value registry, w) _ h in
    let (reads, here) = result-eq-ok read in
    let (answer, v, asked, h2) = then_do-ok (lookup parsed.value parsed.namespace u) _ h1 in
    let (answered, at_end) = result-eq-ok h2 in
    let (result, is, same, valid, named, written) =
      resolve_answer_sound uuid parsed answer found answered in
    (
      parsed,
      reads,
      rw written (parse_reference_canonical registry value parsed f reads),
      written,
      named,
      result,
      rw (written, named, here, ← is, ← at_end) asked,
      same ∙ sym named,
      valid,
    )
