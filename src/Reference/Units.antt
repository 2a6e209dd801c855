-- ===== src/Reference/Units.antt =====
-- The code units of a canonical reference (reference.ts): the alphabets, against the tests that
-- `parseReference` makes.
use identifold.Prelude.{
  ℕ, zero, suc, ◌%◌, ◌<◌, ◌≡◌, refl, Bool, true, false, not, ◌&&◌, ◌||◌, none, some, [], ◌∷◌, arith,
  Text, all, all_weaken, length, includes, index_of, char_at, is_upper, is_digit, upper_unit,
  to_upper, to_upper_of_all, ◌==◌, &&-eq-true, Option-cases, inl, inr,
}
use identifold.Errors.{ok, ◌>>=◌}
use identifold.Reference.CheckSymbol.{
  data_alphabet, check_alphabet, data_value, check_symbol_at, data_symbol_at,
}
use identifold.Reference.CheckSymbol.Value.{is_data_symbol}
use identifold.Reference.Format.{byte_symbol}
use identifold.Reference.Hyphens.Laws.{no_hyphen}
use identifold.Reference.Parse.{
  is_reference_unit, alias, in_data_alphabet, in_check_alphabet, normalize_payload,
}

-- A capital letter or a digit.
abbrev pub is_plain : ℕ → Bool
is_plain c = is_upper c || is_digit c

abbrev pub is_check_unit : ℕ → Bool
is_check_unit c = is_plain c || c == b'*' || c == b'~' || c == b'$' || c == b'='

abbrev pub is_canonical_unit : ℕ → Bool
is_canonical_unit c = is_check_unit c || c == b'-'

pub is_plain-is_canonical_unit : (c : ℕ) → is_plain c ≡ true → is_canonical_unit c ≡ true
is_plain-is_canonical_unit c h = ground arith

pub is_plain-no_hyphen : (c : ℕ) → is_plain c ≡ true → no_hyphen c ≡ true
is_plain-no_hyphen c h = ground arith

is_canonical_unit-reference : (c : ℕ) → is_canonical_unit c ≡ true → is_reference_unit c ≡ true
is_canonical_unit-reference c h = ground arith

is_canonical_unit-upper : (c : ℕ) → is_canonical_unit c ≡ true → upper_unit c ≡ c
unfolding upper_unit
is_canonical_unit-upper c h = ground arith

-- A text of canonical units passes the first test of `parseReference`, and is in upper case.
pub canonical_text :
    (s : Text)
    → all is_canonical_unit s ≡ true
    → (all is_reference_unit s ≡ true) × (to_upper s ≡ s)
canonical_text s h = (
  all_weaken is_canonical_unit is_reference_unit s is_canonical_unit-reference h,
  to_upper_of_all is_canonical_unit s is_canonical_unit-upper h,
)

at_char_at :
    (q : ℕ → Bool) (text : Text) (i : ℕ)
    → all q text ≡ true
    → i < length text
    → (c : ℕ) × (char_at text i ≡ c ∷ []) × (q c ≡ true)
at_char_at q [] i h lt = absurd (omega arith)
at_char_at q (c ∷ text) zero h lt = (c, refl, ground arith)
at_char_at q (c ∷ text) (suc i) h lt = at_char_at q text i (ground arith) (omega arith)

at_index_of :
    (q : ℕ → Bool) (text : Text) (c i : ℕ)
    → all q text ≡ true
    → index_of text c ≡ some i
    → q c ≡ true
at_index_of q [] c i h e = cc
at_index_of q (d ∷ text) c zero h e = ground arith
at_index_of q (d ∷ text) c (suc i) h e = ground (arith, at_index_of q text c i)

-- `includes` on one unit finds what `index_of` finds.
includes-index_of :
    (text : Text) (c : ℕ)
    → includes text (c ∷ []) ≡ elim (index_of text c) [ none ↦ false | some i ↦ true ]
includes-index_of [] c = refl
includes-index_of (d ∷ []) c = ground arith
includes-index_of (d ∷ e ∷ text) c = ground (arith, includes-index_of (e ∷ text) c)

pub in_data_alphabet_lem : (c : ℕ) → in_data_alphabet c ≡ is_data_symbol c
unfolding in_data_alphabet data_value
in_data_alphabet_lem c = includes-index_of data_alphabet c

-- What holds of the 32 data symbols, checked on the alphabet.
abbrev is_data_like : ℕ → Bool
is_data_like c = is_plain c && not (c == b'O') && not (c == b'I') && not (c == b'L')

is_data_symbol-like : (c : ℕ) → is_data_symbol c ≡ true → is_data_like c ≡ true
unfolding data_value
is_data_symbol-like c h = elim (Option-cases (data_value c)) [
  | inl e ↦ cc (rw (e, is_data_symbol) at h)
  | inr (v, e) ↦ at_index_of is_data_like data_alphabet c v refl e
]

pub is_data_symbol-is_plain : (c : ℕ) → is_data_symbol c ≡ true → is_plain c ≡ true
is_data_symbol-is_plain c h = plain_of_like c (is_data_symbol-like c h)
  where
    plain_of_like : (x : ℕ) → is_data_like x ≡ true → is_plain x ≡ true
    plain_of_like x k = ground arith

alias_of_data : (c : ℕ) → is_data_symbol c ≡ true → alias c ≡ c
alias_of_data c h = alias_of_like c (is_data_symbol-like c h)
  where
    alias_of_like : (x : ℕ) → is_data_like x ≡ true → alias x ≡ x
    alias_of_like x k = ground arith

-- Data symbols are normalised to themselves.
pub normalize_payload_of_data :
    (s : Text) → all is_data_symbol s ≡ true → normalize_payload s ≡ ok s
unfolding normalize_payload
normalize_payload_of_data [] h = refl
normalize_payload_of_data (c ∷ s) h =
    let here : is_data_symbol c ≡ true = ground arith in
    rw (
      alias_of_data c here,
      in_data_alphabet_lem c,
      here,
      normalize_payload_of_data s (ground arith),
      ◌>>=◌,
    )

check_symbol_table :
    (i : ℕ)
    → i < 37
    → (c : ℕ) × (check_symbol_at i ≡ c ∷ [])
      × ((is_check_unit c && in_check_alphabet (c ∷ [])) ≡ true)
unfolding check_symbol_at in_check_alphabet
check_symbol_table i h = at_char_at _ check_alphabet i refl h

-- A check symbol is one unit of the check alphabet.
pub check_symbol_unit :
    (i : ℕ)
    → i < 37
    → (c : ℕ) × (check_symbol_at i ≡ c ∷ [])
      × (is_check_unit c ≡ true)
      × (in_check_alphabet (c ∷ []) ≡ true)
check_symbol_unit i h =
    let (c, e, q) = check_symbol_table i h in
    let (unit, included) = &&-eq-true (is_check_unit c) (in_check_alphabet (c ∷ [])) q in
    (c, e, unit, included)

data_symbol_table :
    (i : ℕ) → i < 32 → (c : ℕ) × (data_symbol_at i ≡ c ∷ []) × (is_data_symbol c ≡ true)
unfolding data_symbol_at data_value
data_symbol_table i h = at_char_at is_data_symbol data_alphabet i refl h

mod_lt : (n : ℕ) → n % 32 < 32
mod_lt n = omega arith

-- The low five bits of a byte select one data symbol.
pub byte_symbol_unit : (b : ℕ) → (c : ℕ) × (byte_symbol b ≡ c ∷ []) × (is_data_symbol c ≡ true)
unfolding byte_symbol
byte_symbol_unit b = data_symbol_table (b % 32) (mod_lt b)
