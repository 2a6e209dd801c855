-- ===== src/Storage/Sequential.antt =====
-- `parseSequentialReference` (sql-storage.ts). No group of the pattern matches a hyphen, so the
-- pattern is one on the parts between the hyphens.
pub mod RoundTrip
use identifold.Prelude.{
  ℕ, Bool, false, ◌&&◌, ◌||◌, Option, none, some, List, [], ◌∷◌, length, all, leb, ◌==◌,
  if◌then◌else◌, Text, is_digit, is_upper,
}
use identifold.Reference.Decimal.Laws.{decimal_value}
use identifold.Reference.Format.{is_four_digits}
use identifold.Reference.Hyphens.{split_hyphens}
use identifold.Registry.{is_reference_prefix}

pub record SequentialReferenceParts : Type 0 where
  pub prefix : Text
  pub scope : Text
  pub sequence : ℕ

-- `\d{4,18}`
abbrev pub is_sequence_text : Text → Bool
is_sequence_text digits = all is_digit digits && (leb 4 (length digits) && leb (length digits) 18)

-- `[0-9A-Z*~$=U]`
abbrev pub is_check_text : Text → Bool
is_check_text [] = false
is_check_text (c ∷ []) =
    is_digit c || is_upper c || c == b'*' || c == b'~' || c == b'$' || c == b'='
is_check_text (c ∷ d ∷ rest) = false

pub match_parts : List Text → Option SequentialReferenceParts
match_parts (prefix ∷ digits ∷ check ∷ []) =
    if is_reference_prefix prefix && (is_sequence_text digits && is_check_text check)
    then some (record { prefix = prefix; scope = []; sequence = decimal_value digits })
    else none
match_parts (prefix ∷ scope ∷ digits ∷ check ∷ []) =
    if is_reference_prefix prefix
      && (is_four_digits scope && (is_sequence_text digits && is_check_text check))
    then some (record { prefix = prefix; scope = scope; sequence = decimal_value digits })
    else none
match_parts _ = none

pub parse_sequential_parts : Text → Option SequentialReferenceParts
parse_sequential_parts reference = match_parts (split_hyphens reference)
