-- ===== src/Sqlite/Sound/Find.antt =====
-- The rows that the queries of sqlite.ts find, when the tables change.
use mathlib.Core.List.{Memᴰ}
use identifold.Prelude.{
  ℕ, ◌≡◌, refl, sym, ◌∙◌, ◌⊎◌, inl, inr, Bool, true, ◌&&◌, none, some, List, [], ◌∷◌, map,
  Bool-cases, Option-cases, &&-eq-true, Text, text_eq, text_eq_iff,
}
use identifold.Sqlite.Tables.{
  find, is_sequence_of, clashes, find_sequence, inserted, ensure_sequence, updated, Sequence,
  Tables,
}

pub find-eq-some {ℓ} :
    {A : Type ℓ} (test : A → Bool) (xs : List A) {x : A} → find test xs ≡ some x → test x ≡ true
unfolding find
find-eq-some test [] h = cc
find-eq-some test (y ∷ xs) {x} h = elim (Bool-cases (test y)) [
  | inl holds ↦ let same_row : y ≡ x = cc (rw holds at h) in rw⁻¹ same_row holds
  | inr fails ↦ find-eq-some test xs (rw fails at h)
]

pub find-Memᴰ {ℓ} :
    {A : Type ℓ} (test : A → Bool) (xs : List A) {x : A} → find test xs ≡ some x → Memᴰ x xs
unfolding find
find-Memᴰ test [] h = cc
find-Memᴰ test (y ∷ xs) h = elim (Bool-cases (test y)) [
  | inl holds ↦ Memᴰ.head (cc (rw holds at h))
  | inr fails ↦ Memᴰ.tail (find-Memᴰ test xs (rw fails at h))
]

-- Where a wider test finds nothing, neither does a narrower one.
find-none {ℓ} :
    {A : Type ℓ} (narrow wide : A → Bool) (xs : List A)
    → ((x : A) → narrow x ≡ true → wide x ≡ true)
    → find wide xs ≡ none
    → find narrow xs ≡ none
unfolding find
find-none narrow wide [] wider h = refl
find-none narrow wide (x ∷ xs) wider h = elim (Bool-cases (wide x)) [
  | inl found ↦ cc (rw found at h)
  | inr fails ↦ elim (Bool-cases (narrow x)) [
    | inl holds ↦ cc (wider x holds)
    | inr not_here ↦ rw not_here (find-none narrow wide xs wider (rw fails at h))
  ]
]

module _ {ℓ} {A : Type ℓ} (test : A → Bool) (f : A → A)
    (keeps : (x : A) → test (f x) ≡ test x) where
  pub find-map : (xs : List A) {x : A} → find test xs ≡ some x → find test (map f xs) ≡ some (f x)
  unfolding find
  find-map [] h = cc
  find-map (y ∷ xs) h = elim (Bool-cases (test y)) [
    | inl holds ↦ rw (keeps y, holds) (cc (rw holds at h))
    | inr fails ↦ rw (keeps y, fails) (find-map xs (rw fails at h))
  ]

  pub find-map-eq-some :
      (xs : List A) {y : A}
      → find test (map f xs) ≡ some y
      → (x : A) × (find test xs ≡ some x) × (y ≡ f x)
  unfolding find
  find-map-eq-some [] h = cc
  find-map-eq-some (x ∷ xs) h = elim (Bool-cases (test x)) [
    | inl holds ↦ (x, rw holds refl, cc (rw (keeps x, holds) at h))
    | inr fails ↦
        let (z, found, same_row) = find-map-eq-some xs (rw (keeps x, fails) at h) in
        (z, rw fails found, same_row)
  ]

pub is_sequence_of-updated :
    (namespace scope namespace' scope' : Text) (n : ℕ) (s : Sequence)
    → is_sequence_of namespace' scope' (updated namespace scope n s)
      ≡ is_sequence_of namespace' scope' s
is_sequence_of-updated namespace scope namespace' scope' n s =
    elim (Bool-cases (is_sequence_of namespace scope s)) [
      | inl holds ↦ rw holds refl
      | inr fails ↦ rw fails refl
    ]

pub ensure_sequence-cases :
    (t : Tables) (namespace scope prefix : Text) (width : ℕ)
    → (ensure_sequence namespace scope prefix width t ≡ t)
      ⊎ ((find (clashes namespace scope prefix) t.sequences ≡ none)
          × (ensure_sequence namespace scope prefix width t
              ≡ inserted namespace scope prefix width t))
unfolding ensure_sequence
ensure_sequence-cases t namespace scope prefix width =
    elim (Option-cases (find (clashes namespace scope prefix) t.sequences)) [
      | inr (s, clash) ↦ inl (rw (ensure_sequence, clash) refl)
      | inl no_clash ↦ inr (no_clash, rw (ensure_sequence, no_clash) refl)
    ]

-- A sequence that is there is still found after the insertion, as it was.
pub find_sequence-ensure_sequence :
    (t : Tables) (namespace scope prefix : Text) (width : ℕ) (namespace' scope' : Text)
    {s : Sequence}
    → find_sequence t namespace' scope' ≡ some s
    → find_sequence (ensure_sequence namespace scope prefix width t) namespace' scope' ≡ some s
unfolding find
find_sequence-ensure_sequence t namespace scope prefix width namespace' scope' h =
    elim (ensure_sequence-cases t namespace scope prefix width) [
      | inl same_tables ↦ rw same_tables h
      | inr (no_clash, new) ↦
          elim (Bool-cases (text_eq namespace namespace' && text_eq scope scope')) [
            | inr fails ↦ rw (new, fails) h
            | inl same_key ↦
                let (first, second) = &&-eq-true (text_eq namespace namespace') _ same_key in
                let n_eq : namespace ≡ namespace' = (text_eq_iff namespace namespace').0 first in
                let s_eq : scope ≡ scope' = (text_eq_iff scope scope').0 second in
                let missing : find_sequence t namespace scope ≡ none =
                  find-none (is_sequence_of namespace scope) (clashes namespace scope prefix)
                    t.sequences (λ x holds. rw holds refl) no_clash in
                cc (missing, n_eq, s_eq, h)
          ]
    ]

some-last_value : {s r : Sequence} (n : ℕ) → some r ≡ some s → r.last_value ≡ n → s.last_value ≡ n
some-last_value n h is = cc

-- A sequence that is found after the insertion was there, or is the new one.
pub find_sequence-ensure_sequence-eq-some :
    (t : Tables) (namespace scope prefix : Text) (width : ℕ) (namespace' scope' : Text)
    {s : Sequence}
    → find_sequence (ensure_sequence namespace scope prefix width t) namespace' scope' ≡ some s
    → (find_sequence t namespace' scope' ≡ some s) ⊎ (s.last_value ≡ 0)
unfolding find
find_sequence-ensure_sequence-eq-some t namespace scope prefix width namespace' scope' {s} h =
    elim (ensure_sequence-cases t namespace scope prefix width) [
      | inl same_tables ↦ inl (rw same_tables at h)
      | inr (no_clash, new) ↦
          elim (Bool-cases (text_eq namespace namespace' && text_eq scope scope')) [
            | inr fails ↦ inl (rw (new, fails) at h)
            | inl holds ↦ inr (some-last_value 0 (rw (new, holds) at h) refl)
          ]
    ]

-- The two parts of a key.
is_sequence_of-true :
    (namespace scope : Text) (s : Sequence)
    → is_sequence_of namespace scope s ≡ true
    → (s.namespace ≡ namespace) × (s.scope ≡ scope)
is_sequence_of-true namespace scope s h =
    let (first, second) = &&-eq-true (text_eq s.namespace namespace) _ h in
    ((text_eq_iff s.namespace namespace).0 first, (text_eq_iff s.scope scope).0 second)

-- A sequence is found by its own key only.
pub find_sequence_unique :
    (t : Tables) (n c namespace scope : Text) (r s : Sequence)
    → find_sequence t n c ≡ some r
    → find_sequence t namespace scope ≡ some s
    → is_sequence_of namespace scope r ≡ true
    → r ≡ s
find_sequence_unique t n c namespace scope r s h found this_key =
    let (n_eq, c_eq) = is_sequence_of-true namespace scope r this_key in
    let (n_eq', c_eq') =
      is_sequence_of-true n c r (find-eq-some (is_sequence_of n c) t.sequences h) in
    let n_same : n ≡ namespace = sym n_eq' ∙ n_eq in
    let c_same : c ≡ scope = sym c_eq' ∙ c_eq in
    let h' : find_sequence t namespace scope ≡ some r = rw⁻¹ (n_same, c_same) h in cc (h', found)

-- A row that passes the test is found, or another one is.
pub find-of_Memᴰ {ℓ} :
    {A : Type ℓ} (test : A → Bool) (xs : List A) {x : A}
    → Memᴰ x xs
    → test x ≡ true
    → (y : A) × (find test xs ≡ some y)
unfolding find
find-of_Memᴰ test [] m h = elim m [ ]
find-of_Memᴰ test (y ∷ xs) (Memᴰ.head e) h =
    let here : test y ≡ true = cc (e, h) in (y, rw here refl)
find-of_Memᴰ test (y ∷ xs) (Memᴰ.tail m) h = elim (Bool-cases (test y)) [
  | inl holds ↦ (y, rw holds refl)
  | inr fails ↦ let (z, found) = find-of_Memᴰ test xs m h in (z, rw fails found)
]
