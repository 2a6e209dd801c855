-- ===== src/Reference/Hyphens.antt =====
-- The hyphens of a reference (reference.ts): grouping, joining, splitting, and the two tests on
-- the lengths of the groups.
pub mod Laws
pub mod Split
use identifold.Prelude.{
  ℕ, zero, suc, Bool, List, [], ◌∷◌, ◌++◌, map, length, Text, text_eq, includes, ◌==◌,
  if◌then◌else◌,
}
use identifold.Errors.{Result, ok, fail, invalid_ref}
use identifold.Registry.{Number, whole, negative, not_integer}

abbrev pub hyphen : ℕ
hyphen = b'-'

-- `text.replaceAll("-", "")`
unfoldable pub remove_hyphens : Text → Text
remove_hyphens [] = []
remove_hyphens (c ∷ text) = if c == hyphen then remove_hyphens text else c ∷ remove_hyphens text

-- One more unit in front of the first part.
abbrev extend : ℕ → List Text → List Text
extend c [] = (c ∷ []) ∷ []
extend c (part ∷ parts) = (c ∷ part) ∷ parts

-- `text.split("-")`
unfoldable pub split_hyphens : Text → List Text
split_hyphens [] = [] ∷ []
split_hyphens (c ∷ text) =
    if c == hyphen then [] ∷ split_hyphens text else extend c (split_hyphens text)

-- `parts.join("-")`
unfoldable pub join_hyphens : List Text → Text
join_hyphens [] = []
join_hyphens (part ∷ []) = part
join_hyphens (part ∷ next ∷ parts) = part ++ hyphen ∷ join_hyphens (next ∷ parts)

-- The loop of `formatReference` that cuts a payload into groups of four.
unfoldable pub groups : Text → List Text
groups [] = []
groups (a ∷ b ∷ c ∷ d ∷ payload) = (a ∷ b ∷ c ∷ d ∷ []) ∷ groups payload
groups payload = payload ∷ []

-- The loop of `validateHyphenation`: `Math.min(4, remaining)` as long as something remains.
unfoldable pub group_lengths : ℕ → List ℕ
group_lengths zero = []
group_lengths (suc (suc (suc (suc n)))) = 4 ∷ group_lengths n
group_lengths n = n ∷ []

-- What is no natural number is never above 0.
abbrev expected_group_lengths : Number → List ℕ
expected_group_lengths (whole n) = group_lengths n ++ 1 ∷ []
expected_group_lengths (negative n) = 1 ∷ []
expected_group_lengths not_integer = 1 ∷ []

-- The test that both functions end with.
unfoldable pub check_groups : Text → List ℕ → Result (Unit {0})
check_groups body expected =
    if includes body (hyphen ∷ [])
    then (if text_eq (map length (split_hyphens body)) expected then ok tt else fail invalid_ref)
    else ok tt

abbrev pub validate_hyphenation : Text → Number → Result (Unit {0})
validate_hyphenation body payload_length = check_groups body (expected_group_lengths payload_length)

abbrev pub validate_sequential_hyphenation : Text → ℕ → Bool → Result (Unit {0})
validate_sequential_hyphenation body width has_scope =
    check_groups body (if has_scope then 4 ∷ width ∷ 1 ∷ [] else width ∷ 1 ∷ [])
