-- ===== src/Storage/Bytes/RoundTrip.antt =====
-- Machine identifiers and their bytes (sql-storage.ts) determine one another.
use identifold.Errors.{ok}
use identifold.Prelude.{
  ℕ, zero, suc, ◌+◌, ◌≡◌, refl, sym, ap, ◌∙◌, true, ◌||◌, some, List, [], ◌∷◌, ◌++◌, map, arith,
  length, take, drop, all, length-append, take-length-append, drop-length-append, take-append-drop,
  all-take, all-drop, all_weaken, ◌==◌, &&-eq-true, Text, text_eq_iff, lower_unit, to_lower,
}
use identifold.Reference.Hyphens.{hyphen, remove_hyphens, split_hyphens}
use identifold.Reference.Hyphens.Laws.{no_hyphen, remove_hyphens-append, remove_hyphens_of_none}
use identifold.Reference.Hyphens.Split.{split-cons, split-one}
use identifold.Service.Identify.{is_uuid_unit, has_uuid_shape}
use identifold.Storage.Bytes.{
  is_hex, hex_bytes, machine_id_to_bytes, bytes_hex, hyphenate, bytes_to_machine_id,
}
use identifold.Storage.Bytes.Digits.{
  is_byte, is_hex_lower, hex_lower-is_hex, bytes_hex-hex_bytes, hex_bytes-bytes_hex,
}
use identifold.Storage.Values.{bytes}

-- Five parts of the lengths of a UUID.
five_parts :
    (l : List Text)
    → map length l ≡ 8 ∷ 4 ∷ 4 ∷ 4 ∷ 12 ∷ []
    → (a : Text) × (b : Text) × (c : Text) × (d : Text) × (e : Text) × (l ≡ a ∷ b ∷ c ∷ d ∷ e ∷ [])
      × (length a ≡ 8)
      × (length b ≡ 4)
      × (length c ≡ 4)
      × (length d ≡ 4)
      × (length e ≡ 12)
five_parts [] h = cc
five_parts (a ∷ []) h = cc
five_parts (a ∷ b ∷ []) h = cc
five_parts (a ∷ b ∷ c ∷ []) h = cc
five_parts (a ∷ b ∷ c ∷ d ∷ []) h = cc
five_parts (a ∷ b ∷ c ∷ d ∷ e ∷ []) h = (a, b, c, d, e, refl, cc, cc, cc, cc, cc)
five_parts (a ∷ b ∷ c ∷ d ∷ e ∷ f ∷ l) h = cc

strip :
    (part rest : Text)
    → all no_hyphen part ≡ true
    → remove_hyphens (part ++ hyphen ∷ rest) ≡ part ++ remove_hyphens rest
unfolding remove_hyphens
strip part rest h =
    remove_hyphens-append part (hyphen ∷ rest)
    ∙ ap (λ t. t ++ remove_hyphens rest) (remove_hyphens_of_none part h)

cut_at :
    (n : ℕ) (a rest : Text) → length a ≡ n → (take n (a ++ rest) ≡ a) × (drop n (a ++ rest) ≡ rest)
cut_at n a rest h = rw (← h) (take-length-append a rest, drop-length-append a rest)

drop_nil : (k : ℕ) → drop {A = ℕ} k [] ≡ []
drop_nil zero = refl
drop_nil (suc k) = refl

drop-add : (n k : ℕ) (s : Text) → drop (n + k) s ≡ drop k (drop n s)
drop-add zero k s = ap (λ i. drop i s) (omega arith)
drop-add (suc n) k [] = drop_nil (suc n + k) ∙ sym (drop_nil k)
drop-add (suc n) k (c ∷ s) =
    let e : suc n + k ≡ suc (n + k) = omega arith in ap (λ i. drop i (c ∷ s)) e ∙ drop-add n k s

-- The digits of a UUID with the hyphens put back.
hyphenate-append :
    (a b c d e : Text)
    → length a ≡ 8
    → length b ≡ 4
    → length c ≡ 4
    → length d ≡ 4
    → hyphenate (a ++ (b ++ (c ++ (d ++ e))))
      ≡ a ++ hyphen ∷ (b ++ hyphen ∷ (c ++ hyphen ∷ (d ++ hyphen ∷ e)))
unfolding hyphenate
hyphenate-append a b c d e la lb lc ld =
    let s = a ++ (b ++ (c ++ (d ++ e))) in
    let (ta, da) = cut_at 8 a (b ++ (c ++ (d ++ e))) la in
    let (tb, db) = cut_at 4 b (c ++ (d ++ e)) lb in
    let (tc, dc) = cut_at 4 c (d ++ e) lc in
    let (td, dd) = cut_at 4 d e ld in
    let d12 : drop 12 s ≡ c ++ (d ++ e) = drop-add 8 4 s ∙ ap (drop 4) da ∙ db in
    let d16 : drop 16 s ≡ d ++ e = drop-add 12 4 s ∙ ap (drop 4) d12 ∙ dc in
    let d20 : drop 20 s ≡ e = drop-add 16 4 s ∙ ap (drop 4) d16 ∙ dd in
    rw (ta, da, d12, d16, d20, tb, tc, td)

-- A UUID is its digits with hyphens.
hyphenate-remove_hyphens :
    (m : Text)
    → has_uuid_shape m ≡ true
    → (hyphenate (remove_hyphens m) ≡ m) × (length (remove_hyphens m) ≡ 32)
unfolding has_uuid_shape
hyphenate-remove_hyphens m h =
    let (units, lengths) = &&-eq-true (all is_uuid_unit m) _ h in
    let (a, b, c, d, e, is, la, lb, lc, ld, le) =
      five_parts (split_hyphens m) ((text_eq_iff _ _).0 lengths) in
    let (m1, at1, is1, fa) = split-cons m a b (c ∷ d ∷ e ∷ []) is in
    let (m2, at2, is2, fb) = split-cons m1 b c (d ∷ e ∷ []) is1 in
    let (m3, at3, is3, fc) = split-cons m2 c d (e ∷ []) is2 in
    let (m4, at4, is4, fd) = split-cons m3 d e [] is3 in
    let (at5, fe) = split-one m4 e is4 in
    let digits : remove_hyphens m ≡ a ++ (b ++ (c ++ (d ++ e))) = rw (
      at1,
      strip a m1 fa,
      at2,
      strip b m2 fb,
      at3,
      strip c m3 fc,
      at4,
      strip d m4 fd,
      at5,
      remove_hyphens_of_none e fe,
    ) in
    (
      ap hyphenate digits ∙ hyphenate-append a b c d e la lb lc ld ∙ rw (at1, at2, at3, at4, at5),
      ap length digits
          ∙ omega (
            arith,
            la,
            lb,
            lc,
            ld,
            le,
            length-append a (b ++ (c ++ (d ++ e))),
            length-append b (c ++ (d ++ e)),
            length-append c (d ++ e),
            length-append d e,
          ),
    )

-- Taking the hyphens out again.
remove_hyphens-hyphenate : (s : Text) → all no_hyphen s ≡ true → remove_hyphens (hyphenate s) ≡ s
unfolding hyphenate
remove_hyphens-hyphenate s h =
    let part = λ (n k : ℕ). all-take no_hyphen n (drop k s) (all-drop no_hyphen k s h) in
    rw
      (
        strip (take 8 s)
            (take 4 (drop 8 s)
              ++ hyphen
                ∷ (take 4 (drop 12 s) ++ hyphen ∷ (take 4 (drop 16 s) ++ hyphen ∷ drop 20 s)))
            (part 8 0),
        strip (take 4 (drop 8 s))
            (take 4 (drop 12 s) ++ hyphen ∷ (take 4 (drop 16 s) ++ hyphen ∷ drop 20 s)) (part 4 8),
        strip (take 4 (drop 12 s)) (take 4 (drop 16 s) ++ hyphen ∷ drop 20 s) (part 4 12),
        strip (take 4 (drop 16 s)) (drop 20 s) (part 4 16),
        remove_hyphens_of_none (drop 20 s) (all-drop no_hyphen 20 s h),
      )
      (ap (λ t. take 8 s ++ (take 4 (drop 8 s) ++ (take 4 (drop 12 s) ++ t)))
          (ap (λ t. take 4 (drop 16 s) ++ t) (drop-add 16 4 s) ∙ take-append-drop 4 (drop 16 s))
        ∙ ap (λ t. take 8 s ++ (take 4 (drop 8 s) ++ t))
            (ap (λ t. take 4 (drop 12 s) ++ t) (drop-add 12 4 s) ∙ take-append-drop 4 (drop 12 s))
        ∙ ap (λ t. take 8 s ++ t)
            (ap (λ t. take 4 (drop 8 s) ++ t) (drop-add 8 4 s) ∙ take-append-drop 4 (drop 8 s))
        ∙ take-append-drop 8 s)

text_cons-injective : {a b : ℕ} {s t : Text} → ◌≡◌ {A = Text} (a ∷ s) (b ∷ t) → (a ≡ b) × (s ≡ t)
text_cons-injective h = (cc, cc)

lower_digit :
    (c : ℕ) → is_uuid_unit c ≡ true → lower_unit c ≡ c → ((c == hyphen) || is_hex_lower c) ≡ true
unfolding lower_unit
lower_digit c u l = ground arith

uuid_units : (m : Text) → has_uuid_shape m ≡ true → all is_uuid_unit m ≡ true
unfolding has_uuid_shape
uuid_units m h = (&&-eq-true (all is_uuid_unit m) _ h).0

-- The digits of a UUID in lower case.
lower_digits :
    (m : Text)
    → all is_uuid_unit m ≡ true
    → to_lower m ≡ m
    → all is_hex_lower (remove_hyphens m) ≡ true
unfolding remove_hyphens
lower_digits [] h k = refl
lower_digits (c ∷ m) h k =
    let (unit, rest) = &&-eq-true (is_uuid_unit c) _ h in
    let (same, others) = text_cons-injective k in
    ground (arith, lower_digit c unit same, lower_digits m rest others)

-- A UUID in lower case is stored as 16 bytes, from which it is read back.
pub bytes_to_machine_id-machine_id_to_bytes :
    (m : Text)
    → has_uuid_shape m ≡ true
    → to_lower m ≡ m
    → (bs : List ℕ) × (machine_id_to_bytes m ≡ ok bs)
      × (length bs ≡ 16)
      × (bytes_to_machine_id (some (bytes bs)) ≡ ok m)
unfolding machine_id_to_bytes bytes_to_machine_id
bytes_to_machine_id-machine_id_to_bytes m shape lower =
    let units = uuid_units m shape in
    let (back, size) = hyphenate-remove_hyphens m shape in
    let digits = lower_digits m units lower in
    let hex : all is_hex (remove_hyphens m) ≡ true =
      all_weaken is_hex_lower is_hex (remove_hyphens m) (λ c h. (hex_lower-is_hex c h).0) digits in
    let (same, sixteen) = bytes_hex-hex_bytes 16 (remove_hyphens m) size digits in
    (hex_bytes (remove_hyphens m), rw (hex, size), sixteen, rw (sixteen, same, back))

-- Sixteen bytes are read as a text, of which they are the bytes.
machine_id_to_bytes-bytes_to_machine_id :
    (bs : List ℕ)
    → length bs ≡ 16
    → all is_byte bs ≡ true
    → (m : Text) × (bytes_to_machine_id (some (bytes bs)) ≡ ok m) × (machine_id_to_bytes m ≡ ok bs)
unfolding machine_id_to_bytes bytes_to_machine_id
machine_id_to_bytes-bytes_to_machine_id bs sixteen small =
    let (same, lower, size) = hex_bytes-bytes_hex bs small in
    let size32 : length (bytes_hex bs) ≡ 32 = omega (arith, size, sixteen) in
    let digits =
      remove_hyphens-hyphenate (bytes_hex bs) (
        all_weaken is_hex_lower no_hyphen (bytes_hex bs) (λ c h. (hex_lower-is_hex c h).1) lower) in
    let hex : all is_hex (bytes_hex bs) ≡ true =
      all_weaken is_hex_lower is_hex (bytes_hex bs) (λ c h. (hex_lower-is_hex c h).0) lower in
    (hyphenate (bytes_hex bs), rw sixteen, rw (digits, hex, size32, same))
