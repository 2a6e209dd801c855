-- ===== src/Machine/Defs.antt =====
-- `parseMachineId` (machine.ts).
use identifold.Prelude.{ℕ, Bool, ◌&&◌, length, ◌==◌, Text, to_lower}
use identifold.Errors.{Result, ok, guard, invalid_mid, invalid_uuid_version, ◌>>◌}

-- What the program calls of the package uuid.
pub record UuidLibrary : Type 0 where
  pub validate : Text → Bool
  pub version : Text → ℕ

unfoldable pub parse_machine_id : UuidLibrary → Text → Result Text
parse_machine_id uuid value = do
  let canonical = to_lower value
  guard (length canonical == 36 && uuid.validate canonical) invalid_mid
  guard (uuid.version canonical == 7) invalid_uuid_version
  ok canonical
