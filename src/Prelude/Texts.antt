-- ===== src/Prelude/Texts.antt =====
-- JavaScript strings as lists of UTF-16 code units, with the methods that the program calls.
-- Case mapping is written for the ASCII letters.
use Prim.Native.Nat.{ℕ, zero, suc, ◌+◌, ◌-◌, ◌<◌}
use Prim.Native.Char.{code}
use Prim.Native.String.{String}
use mathlib.Core.Path.{◌≡◌, refl, ap}
use mathlib.Core.Logic.{◌↔◌}
use mathlib.Core.Bool.{Bool, true, false, ◌&&◌, ◌||◌}
use mathlib.Core.List.{List, [], ◌∷◌, ◌++◌, map}
use mathlib.Core.Option.{Option, none, some}
use native.Mathlib.Omega.{arith}
use identifold.Prelude.Tests.{leb, ◌==◌, if◌then◌else◌}
use identifold.Prelude.Lists.{length, all}

abbrev pub Text : Type 0
Text = List ℕ

-- The code units of a literal.
abbrev pub codes : String → Text
codes String.[] = []
codes (String.◌∷◌ c s) = code c ∷ codes s

-- `a === b`
abbrev pub text_eq : Text → Text → Bool
text_eq [] [] = true
text_eq (c ∷ a) (d ∷ b) = c == d && text_eq a b
text_eq _ _ = false

pub text_eq_iff : (a b : Text) → (text_eq a b ≡ true) ↔ (a ≡ b)
text_eq_iff [] [] = ground arith
text_eq_iff [] (d ∷ b) = ground arith
text_eq_iff (c ∷ a) [] = ground arith
text_eq_iff (c ∷ a) (d ∷ b) = ground (arith, text_eq_iff a b)

pub text_eq_refl : (a : Text) → text_eq a a ≡ true
text_eq_refl a = (text_eq_iff a a).1 refl

-- `text.startsWith(start)`
abbrev pub starts_with : Text → Text → Bool
starts_with text [] = true
starts_with [] (d ∷ start) = false
starts_with (c ∷ text) (d ∷ start) = c == d && starts_with text start

-- `text.includes(part)`
abbrev pub includes : Text → Text → Bool
includes [] part = starts_with [] part
includes (c ∷ text) part = starts_with (c ∷ text) part || includes text part

-- `text.indexOf(unit)` for one code unit; `none` stands for -1.
abbrev pub index_of : Text → ℕ → Option ℕ
index_of [] unit = none
index_of (c ∷ text) unit = elim (c == unit) [
  | true ↦ some 0
  | false ↦ elim (index_of text unit) [ none ↦ none | some i ↦ some (suc i) ]
]

-- `text.charAt(i)`: empty when `i` is out of range.
abbrev pub char_at : Text → ℕ → Text
char_at [] i = []
char_at (c ∷ text) zero = c ∷ []
char_at (c ∷ text) (suc i) = char_at text i

abbrev pub is_digit : ℕ → Bool
is_digit c = leb b'0' c && leb c b'9'

abbrev pub is_lower : ℕ → Bool
is_lower c = leb b'a' c && leb c b'z'

abbrev pub is_upper : ℕ → Bool
is_upper c = leb b'A' c && leb c b'Z'

unfoldable pub upper_unit : ℕ → ℕ
upper_unit c = if is_lower c then c - 32 else c

unfoldable pub lower_unit : ℕ → ℕ
lower_unit c = if is_upper c then c + 32 else c

-- `text.toUpperCase()`
abbrev pub to_upper : Text → Text
to_upper = map upper_unit

-- `text.toLowerCase()`
abbrev pub to_lower : Text → Text
to_lower = map lower_unit

pub to_upper-to_upper : (s : Text) → to_upper (to_upper s) ≡ to_upper s
unfolding upper_unit
to_upper-to_upper [] = refl
to_upper-to_upper (c ∷ s) = ground (arith, to_upper-to_upper s)

pub to_lower-to_lower : (s : Text) → to_lower (to_lower s) ≡ to_lower s
unfolding lower_unit
to_lower-to_lower [] = refl
to_lower-to_lower (c ∷ s) = ground (arith, to_lower-to_lower s)

-- A text of units that `upper_unit` leaves alone is its own upper case.
pub to_upper_of_all :
    (p : ℕ → Bool) (s : Text)
    → ((c : ℕ) → p c ≡ true → upper_unit c ≡ c)
    → all p s ≡ true
    → to_upper s ≡ s
to_upper_of_all p [] f h = refl
to_upper_of_all p (c ∷ s) f h = ground (arith, f c, to_upper_of_all p s f)

pub length-to_upper : (s : Text) → length (to_upper s) ≡ length s
length-to_upper [] = refl
length-to_upper (c ∷ s) = ap suc (length-to_upper s)

starts_with-append : (a b : Text) → starts_with (a ++ b) a ≡ true
starts_with-append [] [] = refl
starts_with-append [] (c ∷ b) = refl
starts_with-append (c ∷ a) b = ground (arith, starts_with-append a b)

-- Equal texts begin with one another.
pub starts_with_of_text_eq : (a b : Text) → text_eq a b ≡ true → starts_with a b ≡ true
starts_with_of_text_eq [] [] h = refl
starts_with_of_text_eq [] (d ∷ b) h = cc
starts_with_of_text_eq (c ∷ a) [] h = cc
starts_with_of_text_eq (c ∷ a) (d ∷ b) h = ground (arith, starts_with_of_text_eq a b)

-- Where `index_of` points, the unit stands.
pub char_at-index_of : (text : Text) (c i : ℕ) → index_of text c ≡ some i → char_at text i ≡ c ∷ []
char_at-index_of [] c i h = cc
char_at-index_of (d ∷ text) c zero h = ground arith
char_at-index_of (d ∷ text) c (suc i) h = ground (arith, char_at-index_of text c i)

pub index_of-lt-length : (text : Text) (c i : ℕ) → index_of text c ≡ some i → i < length text
index_of-lt-length [] c i h = cc
index_of-lt-length (d ∷ text) c zero h = omega arith
index_of-lt-length (d ∷ text) c (suc i) h = ground (arith, index_of-lt-length text c i)
