-- ===== src/Public/Defs.antt =====
-- `publicIdFromMachineId` and `parsePublicId` (public.ts). Lower case is that of the ASCII letters:
-- of a text with another unit that has a lower case the source says `invalid_pid` at once, and here
-- `from_string` is asked, which refuses any unit that is not ASCII.
use identifold.Prelude.{Bool, true, not, ◌||◌, Option, none, some, Text, text_eq, to_lower}
use identifold.Errors.{
  Result, ok, err, fail, guard, invalid_pid, invalid_public_prefix, ◌>>=◌, ◌>>◌,
}
use identifold.Registry.{is_empty, is_type_id_prefix}
use identifold.Machine.Defs.{UuidLibrary, parse_machine_id}

-- What the program calls of the package typeid-js. `to_string` is `String(id)`.
pub record TypeIdLibrary : Type 1 where
  pub TypeId : Type 0
  pub from_string : Text → Result TypeId
  pub from_uuid : Text → Text → Result TypeId
  pub get_type : TypeId → Text
  pub to_uuid : TypeId → Result Text
  pub to_string : TypeId → Text

pub record ParsedPublicId : Type 0 where
  pub value : Text
  pub namespace : Text
  pub machine_id : Text

-- `try { … } catch { throw invalid_pid }`
abbrev pub or_invalid_pid : {A : Type 0} → Result A → Result A
or_invalid_pid (ok a) = ok a
or_invalid_pid (err e) = fail invalid_pid

-- `expectedNamespace === undefined || namespace === expectedNamespace`
abbrev pub is_expected : Option Text → Text → Bool
is_expected none namespace = true
is_expected (some expected) namespace = text_eq namespace expected

module _ (uuid : UuidLibrary) (type_id : TypeIdLibrary) where
  unfoldable pub public_id_from_machine_id : Text → Text → Result Text
  public_id_from_machine_id machine_id namespace = do
    canonical ← parse_machine_id uuid machine_id
    guard (not (is_empty namespace || not (is_type_id_prefix namespace))) invalid_public_prefix
    id ← type_id.from_uuid canonical namespace
    ok (type_id.to_string id)

  unfoldable pub parse_public_id : Text → Option Text → Result ParsedPublicId
  parse_public_id value expected_namespace = do
    guard (text_eq value (to_lower value)) invalid_pid
    parsed ← or_invalid_pid (type_id.from_string value)
    let namespace = type_id.get_type parsed
    guard (not (is_empty namespace)) invalid_public_prefix
    guard (is_expected expected_namespace namespace) invalid_public_prefix
    text ← type_id.to_uuid parsed
    machine_id ← parse_machine_id uuid text
    ok (record { value = value; namespace = namespace; machine_id = machine_id })
