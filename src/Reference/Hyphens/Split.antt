-- ===== src/Reference/Hyphens/Split.antt =====
-- What a text is, by the parts that `split("-")` finds (reference.ts, service.ts, sql-storage.ts).
use identifold.Prelude.{
  ◌≡◌, refl, ap, ◌∙◌, ◌≢◌, ◌⊎◌, inl, inr, true, List, [], ◌∷◌, ◌++◌, all, ◌==◌, ==_iff, Bool-cases,
  Text,
}
use identifold.Reference.Hyphens.{hyphen, split_hyphens}
use identifold.Reference.Hyphens.Laws.{no_hyphen}

pub List-cases : (l : List Text) → (l ≡ []) ⊎ ((x : Text) × (r : List Text) × (l ≡ x ∷ r))
List-cases [] = inl refl
List-cases (x ∷ r) = inr (x, r, refl)

cons-injective :
    {a b : Text} {r s : List Text} → ◌≡◌ {A = List Text} (a ∷ r) (b ∷ s) → (a ≡ b) × (r ≡ s)
cons-injective h = (cc, cc)

split-nonempty : (s : Text) → split_hyphens s ≢ []
unfolding split_hyphens
split-nonempty [] h = cc
split-nonempty (c ∷ s) h = elim (Bool-cases (c == hyphen)) [
  | inl ends ↦ cc (rw ends at h)
  | inr goes_on ↦ elim (List-cases (split_hyphens s)) [
    | inl none_there ↦ cc (rw (goes_on, none_there) at h)
    | inr (first, others, there) ↦ cc (rw (goes_on, there) at h)
  ]
]

-- A part with another one behind it ends at a hyphen.
pub split-cons :
    (s part next : Text) (parts : List Text)
    → split_hyphens s ≡ part ∷ next ∷ parts
    → (rest : Text) × (s ≡ part ++ hyphen ∷ rest)
      × (split_hyphens rest ≡ next ∷ parts)
      × (all no_hyphen part ≡ true)
unfolding split_hyphens
split-cons [] part next parts h = cc
split-cons (c ∷ s) part next parts h = elim (Bool-cases (c == hyphen)) [
  | inl ends ↦
      let (empty, others) = cons-injective (rw ends at h) in
      (s, rw (← empty, (==_iff _ _).0 ends), others, rw (← empty))
  | inr goes_on ↦ elim (List-cases (split_hyphens s)) [
    | inl none_there ↦ absurd (split-nonempty s none_there)
    | inr (first, others, there) ↦
        let (same, behind) = cons-injective (rw (goes_on, there) at h) in
        let (rest, is, splits, free) =
          split-cons s first next parts (there ∙ ap (λ t. first ∷ t) behind) in
        (
          rest,
          ap (λ t. c ∷ t) is ∙ ap (λ t. t ++ hyphen ∷ rest) same,
          splits,
          rw (← same) (rw goes_on free),
        )
  ]
]

-- A text of one part has no hyphen.
pub split-one :
    (s part : Text) → split_hyphens s ≡ part ∷ [] → (s ≡ part) × (all no_hyphen part ≡ true)
unfolding split_hyphens
split-one [] part h = let (same, _) = cons-injective h in (same, rw (← same))
split-one (c ∷ s) part h = elim (Bool-cases (c == hyphen)) [
  | inl ends ↦ elim (List-cases (split_hyphens s)) [
    | inl none_there ↦ absurd (split-nonempty s none_there)
    | inr (first, others, there) ↦ cc (rw (ends, there) at h)
  ]
  | inr goes_on ↦ elim (List-cases (split_hyphens s)) [
    | inl none_there ↦ absurd (split-nonempty s none_there)
    | inr (first, others, there) ↦
        let (same, behind) = cons-injective (rw (goes_on, there) at h) in
        let (is, free) = split-one s first (there ∙ ap (λ t. first ∷ t) behind) in
        (ap (λ t. c ∷ t) is ∙ same, rw (← same) (rw goes_on free))
  ]
]
