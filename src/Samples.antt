-- ===== src/Samples.antt =====
-- Concrete values for the tests: a registry with a random and a sequential namespace, and small
-- instances of the packages uuid and typeid-js.
pub mod Memory
use identifold.Prelude.{
  ℕ, ◌-◌, ◌≡◌, refl, ap, sym, ◌∙◌, Bool, true, ◌&&◌, none, some, [], ◌∷◌, ◌++◌, arith, Text, codes,
  text_eq, text_eq_iff, text_eq_refl, to_lower, length, take, drop, all, length-append,
  take-length-append, drop-length-append, if◌then◌else◌, is_lower, lower_unit, &&-eq-true,
  Bool-cases, inl, inr, append_assoc, leb,
}
use identifold.Errors.{Result, ok, err, foreign, ok-injective}
use identifold.Registry.{
  whole, RegisteredRandomReferenceDefinition, RegisteredSequentialReferenceDefinition, random,
  sequence, RegisteredNamespaceDefinition, NamespaceRegistry, is_type_id_prefix, is_prefix_unit,
  is_reference_prefix, type_id_rest, profile_length,
}
use identifold.Registry.WellFormed.{IsWellFormed, registry_of}
use identifold.Machine.Defs.{UuidLibrary, parse_machine_id}
use identifold.Machine.{parse_machine_id_iff}
use identifold.Public.Defs.{TypeIdLibrary}
use identifold.Public.RoundTrip.{IsTypeIdLibrary}
use identifold.Service.Identify.{has_uuid_shape}

abbrev pub order_reference : RegisteredRandomReferenceDefinition
order_reference = record {
  payload_length = whole 10;
  prefix = codes "ORD";
  profile = codes "standard";
}

abbrev pub order : RegisteredNamespaceDefinition
order = record { public_prefix = codes "order"; reference = some (random order_reference) }

abbrev pub invoice_reference : RegisteredSequentialReferenceDefinition
invoice_reference = record { prefix = codes "INV"; scope = codes "calendar-year"; width = 6 }

abbrev pub invoice : RegisteredNamespaceDefinition
invoice = record { public_prefix = codes "invoice"; reference = some (sequence invoice_reference) }

abbrev pub sample_registry : NamespaceRegistry
sample_registry = registry_of (order ∷ invoice ∷ [])

pub sample_registry-IsWellFormed : IsWellFormed sample_registry
unfolding is_type_id_prefix is_reference_prefix profile_length
sample_registry-IsWellFormed = record {
  indexed = refl;
  valid = ((cc, refl, (refl, refl)), ((cc, refl, (refl, omega arith, omega arith)), tt));
  compatible = (((cc, (refl, refl)), tt), (tt, tt));
}

-- The version stands in the fifteenth unit.
abbrev pub sample_uuid : UuidLibrary
sample_uuid = record {
  validate = has_uuid_shape;
  version = λ text. elim (drop 14 text) [ [] ↦ 0 | c ∷ rest ↦ c - b'0' ];
}

abbrev pub sample_mid : Text
sample_mid = codes "01890a5d-ac96-774b-bcce-b302099a8057"

-- A library whose texts are a prefix, a separator and the whole machine identifier.
abbrev sample_text : Text × Text → Text
sample_text (prefix, mid) = prefix ++ b'_' ∷ mid

abbrev sample_test : Text → Text × Text → Bool
sample_test s id =
    text_eq (sample_text id) s && (is_type_id_prefix id.0 && text_eq (to_lower id.1) id.1)

abbrev sample_checked : Text → Text × Text → Result (Text × Text)
sample_checked s id =
    if sample_test s id then ok id else err (foreign (record { code = none; sql_state = none }))

abbrev sample_from_string : Text → Result (Text × Text)
sample_from_string s = sample_checked s (take (length s - 37) s, drop (length s - 36) s)

abbrev pub sample_type_id : TypeIdLibrary
sample_type_id = record {
  TypeId = Text × Text;
  from_string = sample_from_string;
  from_uuid = λ mid prefix. ok (prefix, mid);
  get_type = λ id. id.0;
  to_uuid = λ id. ok id.1;
  to_string = sample_text;
}

sample_checked-ok :
    (s : Text) (made id : Text × Text)
    → sample_checked s made ≡ ok id
    → (sample_text id ≡ s) × (is_type_id_prefix id.0 ≡ true) × (to_lower id.1 ≡ id.1)
sample_checked-ok s made id h = elim (Bool-cases (sample_test s made)) [
  | inl passes ↦
      let same : made ≡ id = ok-injective (rw passes at h) in
      let (written, rest) = &&-eq-true (text_eq (sample_text made) s) _ passes in
      let (spelled, lower) = &&-eq-true (is_type_id_prefix made.0) _ rest in
      rw (← same) ((text_eq_iff _ _).0 written, spelled, (text_eq_iff _ _).0 lower)
  | inr fails ↦ cc (rw fails at h)
]

to_lower-append : (a b : Text) → to_lower (a ++ b) ≡ to_lower a ++ to_lower b
to_lower-append [] b = refl
to_lower-append (c ∷ a) b = ap (λ t. lower_unit c ∷ t) (to_lower-append a b)

lower_of_prefix_unit : (c : ℕ) → is_prefix_unit c ≡ true → lower_unit c ≡ c
unfolding lower_unit
lower_of_prefix_unit c u = ground arith

to_lower_of_all : (s : Text) → all is_prefix_unit s ≡ true → to_lower s ≡ s
to_lower_of_all [] h = refl
to_lower_of_all (c ∷ s) h = ground (arith, lower_of_prefix_unit c, to_lower_of_all s)

rest_units : (s : Text) → type_id_rest s ≡ true → all is_prefix_unit s ≡ true
rest_units [] h = refl
rest_units (c ∷ s) h =
    (&&-eq-true (all is_prefix_unit (c ∷ s)) _ (&&-eq-true (leb (length (c ∷ s)) 62) _ h).1).0

to_lower_of_prefix : (s : Text) → is_type_id_prefix s ≡ true → to_lower s ≡ s
unfolding is_type_id_prefix
to_lower_of_prefix [] h = refl
to_lower_of_prefix (c ∷ s) h =
    let (first, rest) = &&-eq-true (is_lower c) (type_id_rest s) h in
    to_lower_of_all (c ∷ s) (ground (arith, rest_units s rest))

to_lower_of_text :
    (prefix mid : Text)
    → is_type_id_prefix prefix ≡ true
    → to_lower mid ≡ mid
    → to_lower (sample_text (prefix, mid)) ≡ sample_text (prefix, mid)
unfolding lower_unit
to_lower_of_text prefix mid h k =
    to_lower-append prefix (b'_' ∷ mid) ∙ rw (to_lower_of_prefix prefix h, k)

-- The cut that `sample_from_string` makes is the one between prefix and machine identifier.
cut :
    (prefix mid : Text)
    → length mid ≡ 36
    → (take (length (sample_text (prefix, mid)) - 37) (sample_text (prefix, mid)) ≡ prefix)
      × (drop (length (sample_text (prefix, mid)) - 36) (sample_text (prefix, mid)) ≡ mid)
cut prefix mid h =
    let size : length (prefix ++ b'_' ∷ mid) - 37 ≡ length prefix =
      omega (arith, length-append prefix (b'_' ∷ mid), h) in
    let next : length (prefix ++ b'_' ∷ mid) - 36 ≡ length (prefix ++ b'_' ∷ []) =
      omega (arith, length-append prefix (b'_' ∷ mid), length-append prefix (b'_' ∷ []), h) in
    (
      rw size (take-length-append prefix (b'_' ∷ mid)),
      rw next (
          ap (drop (length (prefix ++ b'_' ∷ []))) (sym (append_assoc prefix (b'_' ∷ []) mid))
          ∙ drop-length-append (prefix ++ b'_' ∷ []) mid),
    )

lower_of_machine :
    (mid : Text)
    → parse_machine_id sample_uuid mid ≡ ok mid
    → (to_lower mid ≡ mid) × (length mid ≡ 36)
lower_of_machine mid h =
    let (same, size, _, _) = (parse_machine_id_iff sample_uuid mid mid).0 h in (sym same, size)

sample_string_of_uuid :
    (mid prefix : Text) (id : Text × Text)
    → parse_machine_id sample_uuid mid ≡ ok mid
    → is_type_id_prefix prefix ≡ true
    → ◌≡◌ {A = Result (Text × Text)} (ok (prefix, mid)) (ok id)
    → sample_from_string (sample_text id) ≡ ok id
sample_string_of_uuid mid prefix id valid spelled h =
    let (lower, size) = lower_of_machine mid valid in
    let (front, back) = cut prefix mid size in
    rw (
      ← ok-injective h,
      front,
      back,
      text_eq_refl (sample_text (prefix, mid)),
      spelled,
      lower,
      text_eq_refl mid,
    )

sample_uuid_of_string :
    (s text mid : Text) (id : Text × Text)
    → sample_from_string s ≡ ok id
    → ◌≡◌ {A = Result Text} (ok id.1) (ok text)
    → parse_machine_id sample_uuid text ≡ ok mid
    → ◌≡◌ {A = Result (Text × Text)} (ok (id.0, mid)) (ok id)
sample_uuid_of_string s text mid id h e parsed =
    let (_, _, lower) = sample_checked-ok s _ id h in
    let (same, _, _, _) = (parse_machine_id_iff sample_uuid text mid).0 parsed in
    ap (λ m. ok (id.0, m)) (same ∙ ap to_lower (sym (ok-injective e)) ∙ lower)

pub sample_type_id-IsTypeIdLibrary : IsTypeIdLibrary sample_uuid sample_type_id
sample_type_id-IsTypeIdLibrary = record {
  string_of_uuid = sample_string_of_uuid;
  type_of_uuid = λ mid prefix id h. ap (λ x. x.0) (sym (ok-injective h));
  uuid_of_uuid = λ mid prefix id valid h. ap (λ x. ok x.1) (sym (ok-injective h));
  lower_of_uuid = λ mid prefix id valid spelled h.
      rw (← ok-injective h) (to_lower_of_text prefix mid spelled (lower_of_machine mid valid).0);
  to_string_of_string = λ s id h. (sample_checked-ok s _ id h).0;
  prefix_of_string = λ s id h. (sample_checked-ok s _ id h).1;
  uuid_of_string = sample_uuid_of_string;
}
