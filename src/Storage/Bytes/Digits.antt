-- ===== src/Storage/Bytes/Digits.antt =====
-- Bytes and their two hexadecimal digits (sql-storage.ts).
use identifold.Prelude.{
  ℕ, zero, suc, ◌+◌, ◌*◌, ◌/◌, ◌%◌, ◌<◌, ◌≡◌, refl, ap, Bool, true, ◌&&◌, ◌||◌, List, [], ◌∷◌,
  arith, length, all, ltb, leb, &&-eq-true, Text, is_digit,
}
use identifold.Reference.Hyphens.Laws.{no_hyphen}
use identifold.Storage.Bytes.{is_hex, hex_value, hex_digit, hex_bytes, bytes_hex}

abbrev pub is_byte : ℕ → Bool
is_byte b = ltb b 256

-- A hexadecimal digit in lower case.
abbrev pub is_hex_lower : ℕ → Bool
is_hex_lower c = is_digit c || leb b'a' c && leb c b'f'

hex_digit_value :
    (c : ℕ) → is_hex_lower c ≡ true → (hex_value c < 16) × (hex_digit (hex_value c) ≡ c)
hex_digit_value c h = ground arith

hex_value_digit :
    (n : ℕ) → n < 16 → (hex_value (hex_digit n) ≡ n) × (is_hex_lower (hex_digit n) ≡ true)
hex_value_digit n h = ground arith

pub hex_lower-is_hex : (c : ℕ) → is_hex_lower c ≡ true → (is_hex c ≡ true) × (no_hyphen c ≡ true)
hex_lower-is_hex c h = ground arith

halves : (a b : ℕ) → b < 16 → ((a * 16 + b) / 16 ≡ a) × ((a * 16 + b) % 16 ≡ b)
halves a b h = (omega arith, omega arith)

-- The digits of the bytes of digits are the digits again.
pub bytes_hex-hex_bytes :
    (n : ℕ) (s : Text)
    → length s ≡ 2 * n
    → all is_hex_lower s ≡ true
    → (bytes_hex (hex_bytes s) ≡ s) × (length (hex_bytes s) ≡ n)
unfolding bytes_hex hex_bytes
bytes_hex-hex_bytes n [] l h = (refl, omega arith)
bytes_hex-hex_bytes n (a ∷ []) l h = absurd (omega arith)
bytes_hex-hex_bytes zero (a ∷ b ∷ s) l h = absurd (omega arith)
bytes_hex-hex_bytes (suc n) (a ∷ b ∷ s) l h =
    let (ha, rest) = &&-eq-true (is_hex_lower a) _ h in
    let (hb, others) = &&-eq-true (is_hex_lower b) _ rest in
    let (same, size) = bytes_hex-hex_bytes n s (omega arith) others in
    let (small_a, back_a) = hex_digit_value a ha in
    let (small_b, back_b) = hex_digit_value b hb in
    let (quot, rem) = halves (hex_value a) (hex_value b) small_b in
    (rw (quot, rem, back_a, back_b, same), ap suc size)

pub hex_bytes-bytes_hex :
    (bs : List ℕ)
    → all is_byte bs ≡ true
    → (hex_bytes (bytes_hex bs) ≡ bs)
      × (all is_hex_lower (bytes_hex bs) ≡ true)
      × (length (bytes_hex bs) ≡ 2 * length bs)
unfolding bytes_hex hex_bytes
hex_bytes-bytes_hex [] h = (refl, refl, refl)
hex_bytes-bytes_hex (b ∷ bs) h =
    let (small, rest) = &&-eq-true (ltb b 256) _ h in
    let (same, lower, size) = hex_bytes-bytes_hex bs rest in
    let below : b / 16 < 16 = ground arith in
    let under : b % 16 < 16 = omega arith in
    let (high, high_hex) = hex_value_digit (b / 16) below in
    let (low, low_hex) = hex_value_digit (b % 16) under in
    let whole_byte : (b / 16) * 16 + b % 16 ≡ b = omega arith in
    (rw (high, low, whole_byte, same), rw (high_hex, low_hex, lower), omega (arith, size))
