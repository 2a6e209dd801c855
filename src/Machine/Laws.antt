-- ===== src/Machine/Laws.antt =====
-- What `parseMachineId` (machine.ts) accepts.
use identifold.Prelude.{
  ◌≡◌, ◌↔◌, ap, sym, ◌∙◌, true, ◌&&◌, ◌==◌, ==_iff, Text, length, to_lower, to_lower-to_lower,
  &&-eq-true,
}
use identifold.Errors.{
  ok, guard, >>=-eq-ok, guard-passes, ok-injective, invalid_mid, invalid_uuid_version,
}
use identifold.Machine.Defs.{UuidLibrary, parse_machine_id}

-- `parseMachineId` returns exactly the lower case of a text that has 36 units and that the package
-- uuid validates, in lower case, as a UUID of version 7.
pub parse_machine_id_iff :
    (uuid : UuidLibrary) (value mid : Text)
    → (parse_machine_id uuid value ≡ ok mid) ↔ (
        (mid ≡ to_lower value)
        × (length mid ≡ 36)
        × (uuid.validate mid ≡ true)
        × (uuid.version mid ≡ 7))
unfolding parse_machine_id
parse_machine_id_iff uuid value mid = (
  λ h.
      let (_, g1, h1) =
        >>=-eq-ok
          (guard (length (to_lower value) == 36 && uuid.validate (to_lower value)) invalid_mid) _
          h in
      let (_, g2, h2) =
        >>=-eq-ok (guard (uuid.version (to_lower value) == 7) invalid_uuid_version) _ h1 in
      let (size, valid) = &&-eq-true (length (to_lower value) == 36) _ (guard-passes _ _ g1) in
      let same = sym (ok-injective h2) in
      (
        same,
        rw same ((==_iff _ _).0 size),
        rw same valid,
        rw same ((==_iff _ _).0 (guard-passes _ _ g2)),
      ),
  λ (same, size, valid, version). rw (← same, (==_iff _ _).1 size, valid, (==_iff _ _).1 version),
)

-- Machine identifiers are in canonical form: reading one again changes nothing.
pub parse_machine_id_idempotent :
    (uuid : UuidLibrary) (value mid : Text)
    → parse_machine_id uuid value ≡ ok mid
    → parse_machine_id uuid mid ≡ ok mid
parse_machine_id_idempotent uuid value mid h =
    let (same, size, valid, version) = (parse_machine_id_iff uuid value mid).0 h in
    (parse_machine_id_iff uuid mid mid).1
      (same ∙ sym (ap to_lower same ∙ to_lower-to_lower value), size, valid, version)

pub lower_of_parse_machine_id :
    (uuid : UuidLibrary) (value mid : Text)
    → parse_machine_id uuid value ≡ ok mid
    → to_lower mid ≡ mid
lower_of_parse_machine_id uuid value mid h =
    let same = ((parse_machine_id_iff uuid value mid).0 h).0 in
    ap to_lower same ∙ to_lower-to_lower value ∙ sym same
