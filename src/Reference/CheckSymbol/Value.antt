-- ===== src/Reference/CheckSymbol/Value.antt =====
-- The check symbols of reference.ts as values of the whole payload.
use identifold.Prelude.{
  ℕ, ◌+◌, ◌-◌, ◌*◌, ◌%◌, ◌<◌, ◌≡◌, ◌≢◌, refl, sym, ap, ◌∙◌, Bool, true, false, ◌&&◌, none, some, [],
  ◌∷◌, ◌++◌, arith, Text, char_at-index_of, index_of-lt-length, index_of, char_at, is_digit, all,
  ◌==◌, ==_iff, zero, suc, Option-cases, inl, inr,
}
use identifold.Errors.{ok, ok-injective, ◌>>=◌}
use identifold.Reference.CheckSymbol.{
  data_alphabet, check_alphabet, data_value, check_symbol_at, reference_remainder,
  calculate_reference_check_symbol, sequential_remainder, calculate_sequential_check_symbol,
}
use identifold.Reference.CheckSymbol.Positional.{
  positional, positional_mod, cong32, step32, cong10, step10,
}

-- A symbol of the payload alphabet.
abbrev pub is_data_symbol : ℕ → Bool
is_data_symbol c = elim (data_value c) [ none ↦ false | some v ↦ true ]

abbrev pub symbol_value : ℕ → ℕ
symbol_value c = elim (data_value c) [ none ↦ 0 | some v ↦ v ]

abbrev pub digit_value : ℕ → ℕ
digit_value c = c - b'0'

-- Does the test hold for every number below the bound?
holds_below : (ℕ → Bool) → ℕ → Bool
holds_below test zero = true
holds_below test (suc bound) = holds_below test bound && test bound

holds_below_sound :
    (test : ℕ → Bool) (bound i : ℕ) → holds_below test bound ≡ true → i < bound → test i ≡ true
unfolding holds_below
holds_below_sound test zero i h low = absurd (omega arith)
holds_below_sound test (suc bound) i h low = ground (arith, holds_below_sound test bound i)

check_position : Text → ℕ
check_position [] = 99
check_position (c ∷ s) = elim (index_of check_alphabet c) [ none ↦ 99 | some i ↦ i ]

check_table : holds_below (λ i. check_position (check_symbol_at i) == i) 37 ≡ true
unfolding holds_below check_position check_symbol_at
check_table = refl

-- Different remainders have different check symbols.
check_symbol_injective : (i j : ℕ) → i < 37 → j < 37 → check_symbol_at i ≡ check_symbol_at j → i ≡ j
check_symbol_injective i j hi hj e =
    let at = λ (k : ℕ) (h : k < 37). (==_iff _ k).0 (holds_below_sound _ 37 k check_table h) in
    sym (at i hi) ∙ ap check_position e ∙ at j hj

-- The symbol with a value, or no text.
data_value_sound : (c v : ℕ) → data_value c ≡ some v → (v < 32) × (char_at data_alphabet v ≡ c ∷ [])
unfolding data_value
data_value_sound c v h =
    (index_of-lt-length data_alphabet c v h, char_at-index_of data_alphabet c v h)

pub symbol_value-lt : (c : ℕ) → symbol_value c < 32
symbol_value-lt c = elim (Option-cases (data_value c)) [
  | inl e ↦ rw (e, symbol_value) (omega arith)
  | inr (v, e) ↦ rw (e, symbol_value) (data_value_sound c v e).0
]

head_injective : {a b : ℕ} → ◌≡◌ {A = Text} (a ∷ []) (b ∷ []) → a ≡ b
head_injective h = cc

pub symbol_value_injective :
    (a b : ℕ)
    → is_data_symbol a ≡ true
    → is_data_symbol b ≡ true
    → symbol_value a ≡ symbol_value b
    → a ≡ b
symbol_value_injective a b ha hb e = elim (Option-cases (data_value a)) [
  | inl no_a ↦ cc (rw (no_a, is_data_symbol) at ha)
  | inr (v, at_a) ↦ elim (Option-cases (data_value b)) [
    | inl no_b ↦ cc (rw (no_b, is_data_symbol) at hb)
    | inr (w, at_b) ↦
        let same : v ≡ w = rw (at_a, at_b, symbol_value, symbol_value) at e in
        head_injective (
          sym (data_value_sound a v at_a).1
          ∙ ap (char_at data_alphabet) same
          ∙ (data_value_sound b w at_b).1)
  ]
]

-- The incremental remainder is that of the whole number.
reference_remainder-positional :
    (s : Text) (r : ℕ)
    → all is_data_symbol s ≡ true
    → r < 37
    → reference_remainder s r ≡ ok (positional 32 symbol_value s r % 37)
unfolding reference_remainder
reference_remainder-positional [] r h lt = ground arith
reference_remainder-positional (c ∷ s) r h lt = elim (Option-cases (data_value c)) [
  | inl e ↦ ground arith
  | inr (v, e) ↦ ground (
    arith,
    reference_remainder-positional s ((r * 32 + v) % 37),
    positional_mod 32 symbol_value cong32 step32 s ((r * 32 + v) % 37) (r * 32 + v),
  )
]

sequential_remainder-positional :
    (s : Text) (r : ℕ)
    → all is_digit s ≡ true
    → r < 37
    → sequential_remainder s r ≡ ok (positional 10 digit_value s r % 37)
unfolding sequential_remainder
sequential_remainder-positional [] r h lt = ground arith
sequential_remainder-positional (c ∷ s) r h lt = ground (
  arith,
  sequential_remainder-positional s ((r * 10 + (c - b'0')) % 37),
  positional_mod 10 digit_value cong10 step10 s ((r * 10 + (c - b'0')) % 37) (r * 10 + (c - b'0')),
)

-- The symbol that `calculateReferenceCheckSymbol` returns for a nonempty payload of data symbols is
-- the one at the payload's base-32 value modulo 37.
pub calculate_reference_check_symbol_lem :
    (payload : Text)
    → payload ≢ []
    → all is_data_symbol payload ≡ true
    → calculate_reference_check_symbol payload
      ≡ ok (check_symbol_at (positional 32 symbol_value payload 0 % 37))
unfolding calculate_reference_check_symbol
calculate_reference_check_symbol_lem [] f h = absurd (f refl)
calculate_reference_check_symbol_lem (c ∷ s) f h =
    rw (reference_remainder-positional (c ∷ s) 0 h (omega arith), ◌>>=◌)

-- The symbol that `calculateSequentialCheckSymbol` returns for a nonempty payload of digits is the
-- one at the payload's decimal value modulo 37.
pub calculate_sequential_check_symbol_lem :
    (payload : Text)
    → payload ≢ []
    → all is_digit payload ≡ true
    → calculate_sequential_check_symbol payload
      ≡ ok (check_symbol_at (positional 10 digit_value payload 0 % 37))
unfolding calculate_sequential_check_symbol
calculate_sequential_check_symbol_lem [] f h = absurd (f refl)
calculate_sequential_check_symbol_lem (c ∷ s) f h =
    rw (sequential_remainder-positional (c ∷ s) 0 h (omega arith), ◌>>=◌)

mod_lt : (n : ℕ) → n % 37 < 37
mod_lt n = omega arith

pub ne_nil : (p s : Text) (c : ℕ) → p ++ c ∷ s ≢ []
ne_nil [] s c h = cc
ne_nil (d ∷ p) s c h = cc

-- Two payloads with the same check symbol have the same value modulo 37.
pub same_value :
    (x y : Text)
    → x ≢ []
    → y ≢ []
    → all is_data_symbol x ≡ true
    → all is_data_symbol y ≡ true
    → calculate_reference_check_symbol x ≡ calculate_reference_check_symbol y
    → positional 32 symbol_value x 0 % 37 ≡ positional 32 symbol_value y 0 % 37
same_value x y fx fy hx hy e = check_symbol_injective _ _ (mod_lt _) (mod_lt _) (
    ok-injective (
      sym (calculate_reference_check_symbol_lem x fx hx)
      ∙ e
      ∙ calculate_reference_check_symbol_lem y fy hy))

pub same_digits :
    (x y : Text)
    → x ≢ []
    → y ≢ []
    → all is_digit x ≡ true
    → all is_digit y ≡ true
    → calculate_sequential_check_symbol x ≡ calculate_sequential_check_symbol y
    → positional 10 digit_value x 0 % 37 ≡ positional 10 digit_value y 0 % 37
same_digits x y fx fy hx hy e = check_symbol_injective _ _ (mod_lt _) (mod_lt _) (
    ok-injective (
      sym (calculate_sequential_check_symbol_lem x fx hx)
      ∙ e
      ∙ calculate_sequential_check_symbol_lem y fy hy))
