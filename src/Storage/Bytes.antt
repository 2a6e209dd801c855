-- ===== src/Storage/Bytes.antt =====
-- `machineIdToBytes` and `bytesToMachineId` (sql-storage.ts).
pub mod Digits
pub mod RoundTrip
use identifold.Errors.{fail, ◌>>=◌, guard, ◌>>◌, Result, allocation_conflict, invalid_mid, ok}
use identifold.Prelude.{
  ℕ, ◌+◌, ◌-◌, ◌*◌, ◌/◌, ◌%◌, Bool, ◌&&◌, ◌||◌, Option, some, List, [], ◌∷◌, ◌++◌, length, take,
  drop, all, ltb, leb, ◌==◌, if◌then◌else◌, Text, is_digit,
}
use identifold.Reference.Hyphens.{hyphen, remove_hyphens}
use identifold.Storage.Values.{Value, bytes}

-- `[0-9a-f]`, in either case.
abbrev pub is_hex : ℕ → Bool
is_hex c = is_digit c || leb b'a' c && leb c b'f' || leb b'A' c && leb c b'F'

-- What `Number.parseInt(…, 16)` makes of one digit.
abbrev pub hex_value : ℕ → ℕ
hex_value c = if is_digit c then c - b'0' else if leb b'a' c then c - 87 else c - 55

abbrev pub hex_digit : ℕ → ℕ
hex_digit n = if ltb n 10 then b'0' + n else 87 + n

-- The pairs of digits that the source slices off. A text of 32 digits has 16 of them.
unfoldable pub hex_bytes : Text → List ℕ
hex_bytes [] = []
hex_bytes (high ∷ []) = []
hex_bytes (high ∷ low ∷ hex) = (hex_value high * 16 + hex_value low) ∷ hex_bytes hex

unfoldable pub machine_id_to_bytes : Text → Result (List ℕ)
machine_id_to_bytes machine_id = do
  let hex = remove_hyphens machine_id
  guard (all is_hex hex && length hex == 32) invalid_mid
  ok (hex_bytes hex)

-- `byte.toString(16).padStart(2, "0")` for each byte, joined.
pub bytes_hex : List ℕ → Text
bytes_hex [] = []
bytes_hex (byte ∷ rest) = hex_digit (byte / 16) ∷ hex_digit (byte % 16) ∷ bytes_hex rest

-- The slices of 32 digits, with hyphens between them.
pub hyphenate : Text → Text
hyphenate hex =
    take 8 hex
    ++ hyphen
      ∷ (take 4 (drop 8 hex)
          ++ hyphen
            ∷ (take 4 (drop 12 hex) ++ hyphen ∷ (take 4 (drop 16 hex) ++ hyphen ∷ drop 20 hex)))

unfoldable pub bytes_to_machine_id : Option Value → Result Text
bytes_to_machine_id (some (bytes b)) =
    if length b == 16 then ok (hyphenate (bytes_hex b)) else fail allocation_conflict
bytes_to_machine_id _ = fail allocation_conflict
