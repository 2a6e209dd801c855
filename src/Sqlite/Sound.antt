-- ===== src/Sqlite/Sound.antt =====
-- The invariant of the tables of sqlite.ts under allocations.
use mathlib.Core.List.{Memᴰ}
use identifold.Prelude.{
  ℕ, ◌+◌, ◌^◌, ◌≤◌, ◌<◌, ◌≡◌, refl, sym, ap, ◌∙◌, inl, inr, true, some, List, arith, Bool-cases,
  Text,
}
use identifold.Reference.Decimal.Laws.{pow-pos}
use identifold.Service.Create.Defs.{SequenceAllocationRequest}
use identifold.Sqlite.Sound.Find.{
  find-eq-some, find-map, find-map-eq-some, is_sequence_of-updated, ensure_sequence-cases,
  find_sequence-ensure_sequence, find_sequence-ensure_sequence-eq-some, find_sequence_unique,
}
use identifold.Sqlite.Specification.{new_allocation}
use identifold.Sqlite.Tables.{
  is_sequence_of, find_sequence, ensure_sequence, updated, set_last_value, add_allocation, Sequence,
  Allocation, Tables,
}
pub mod Find

-- An allocation carries a number that its sequence has reached, and the policy of its sequence.
abbrev Numbered : Tables → Allocation → Type 0
Numbered t a =
    (s : Sequence) × (find_sequence t a.namespace a.scope ≡ some s)
    × (1 ≤ a.sequence)
    × (a.sequence ≤ s.last_value)
    × (a.prefix ≡ s.prefix)
    × (a.width ≡ s.width)

abbrev SameNumber : Allocation → Allocation → Type 0
SameNumber a a' = (a.namespace ≡ a'.namespace) × (a.scope ≡ a'.scope) × (a.sequence ≡ a'.sequence)

pub record IsSound (t : Tables) : Type 0 where
  pub numbered : (a : Allocation) → Memᴰ a t.allocations → Numbered t a
  pub bounded :
      (namespace scope : Text) (s : Sequence)
      → find_sequence t namespace scope ≡ some s
      → s.last_value < 10 ^ s.width
  pub distinct :
      (a a' : Allocation) → Memᴰ a t.allocations → Memᴰ a' t.allocations → SameNumber a a' → a ≡ a'

-- The insertion of a sequence.
ensure_sequence-allocations :
    (t : Tables) (namespace scope prefix : Text) (width : ℕ)
    → (ensure_sequence namespace scope prefix width t).allocations ≡ t.allocations
ensure_sequence-allocations t namespace scope prefix width =
    elim (ensure_sequence-cases t namespace scope prefix width) [
      | inl same_tables ↦ rw same_tables refl
      | inr (no_clash, new) ↦ rw new refl
    ]

pub ensure_sequence-IsSound :
    (t : Tables) (namespace scope prefix : Text) (width : ℕ)
    → IsSound t
    → IsSound (ensure_sequence namespace scope prefix width t)
ensure_sequence-IsSound t namespace scope prefix width sound =
    let same_list = ensure_sequence-allocations t namespace scope prefix width in
    record {
      numbered = λ a m.
          let (s, found, low, high, p, q) = sound.numbered a (rw same_list at m) in
          (
            s,
            find_sequence-ensure_sequence t namespace scope prefix width _ _ found,
            low,
            high,
            p,
            q,
          );
      bounded = λ n c s found.
          elim (find_sequence-ensure_sequence-eq-some t namespace scope prefix width n c found) [
            | inl old ↦ sound.bounded n c s old
            | inr new ↦ omega (arith, new, pow-pos s.width)
          ];
      distinct = λ a a' m m' same_number.
          sound.distinct a a' (rw same_list at m) (rw same_list at m') same_number;
    }

-- The next number of a sequence, and its allocation.
module _ (t : Tables) (sound : IsSound t) (request : SequenceAllocationRequest) (scope : Text)
    (b : List ℕ) (s : Sequence) (found : find_sequence t request.namespace scope ≡ some s)
    (same_prefix : s.prefix ≡ request.reference_prefix) (same_width : s.width ≡ request.width)
    (free : s.last_value + 1 < 10 ^ request.width) where
  abbrev number : ℕ
  number = s.last_value + 1

  abbrev allocated : Allocation
  allocated = new_allocation request scope b number

  abbrev after : Tables
  after = add_allocation allocated (set_last_value request.namespace scope number t)

  find_sequence-after :
      (n c : Text) {r : Sequence}
      → find_sequence t n c ≡ some r
      → find_sequence after n c ≡ some (updated request.namespace scope number r)
  unfolding add_allocation set_last_value
  find_sequence-after n c h =
      find-map (is_sequence_of n c) (updated request.namespace scope number)
        (is_sequence_of-updated request.namespace scope n c number) t.sequences h

  updated-last_value :
      (n c : Text) (r : Sequence)
      → find_sequence t n c ≡ some r
      → (r.last_value ≤ (updated request.namespace scope number r).last_value)
        × ((updated request.namespace scope number r).prefix ≡ r.prefix)
        × ((updated request.namespace scope number r).width ≡ r.width)
        × ((updated request.namespace scope number r).last_value < 10 ^ r.width)
  updated-last_value n c r h = elim (Bool-cases (is_sequence_of request.namespace scope r)) [
    | inr other_key ↦ rw other_key (omega arith, refl, refl, sound.bounded n c r h)
    | inl this_key ↦
        let same_row : r ≡ s =
          find_sequence_unique t n c request.namespace scope r s h found this_key in
        let width_eq : r.width ≡ request.width =
          ap (λ (x : Sequence). x.width) same_row ∙ same_width in
        let last_eq : r.last_value ≡ s.last_value = ap (λ (x : Sequence). x.last_value) same_row in
        rw this_key (omega (arith, last_eq), refl, refl, rw width_eq free)
  ]

  Numbered-new : Numbered after allocated
  unfolding new_allocation
  Numbered-new =
      let this_key : is_sequence_of request.namespace scope s ≡ true =
        find-eq-some (is_sequence_of request.namespace scope) t.sequences found in
      (
        updated request.namespace scope number s,
        find_sequence-after request.namespace scope found,
        omega arith,
        rw this_key (omega arith),
        rw this_key (sym same_prefix),
        rw this_key (sym same_width),
      )

  -- The number is higher than any before.
  older_numbers :
      (a : Allocation)
      → Memᴰ a t.allocations
      → a.namespace ≡ request.namespace
      → a.scope ≡ scope
      → a.sequence ≤ s.last_value
  older_numbers a m n_eq c_eq =
      let (r, r_found, _, high, _, _) = sound.numbered a m in
      let same_row : r ≡ s = cc (r_found, n_eq, c_eq, found) in rw⁻¹ same_row high

  Numbered-after : (a : Allocation) → Memᴰ a after.allocations → Numbered after a
  unfolding add_allocation set_last_value new_allocation
  Numbered-after a (Memᴰ.head e) = rw e Numbered-new
  Numbered-after a (Memᴰ.tail m) =
      let (r, r_found, low, high, prefix_eq, width_eq) = sound.numbered a m in
      let (grown, same_p, same_w, _) = updated-last_value a.namespace a.scope r r_found in
      (
        updated request.namespace scope number r,
        find_sequence-after a.namespace a.scope r_found,
        low,
        omega (arith, high, grown),
        prefix_eq ∙ sym same_p,
        width_eq ∙ sym same_w,
      )

  distinct-after :
      (a a' : Allocation)
      → Memᴰ a after.allocations
      → Memᴰ a' after.allocations
      → SameNumber a a'
      → a ≡ a'
  unfolding add_allocation set_last_value new_allocation
  distinct-after a a' (Memᴰ.head e) (Memᴰ.head e') same_number = e ∙ sym e'
  distinct-after a a' (Memᴰ.tail m) (Memᴰ.tail m') same_number =
      sound.distinct a a' m m' same_number
  distinct-after a a' (Memᴰ.head e) (Memᴰ.tail m') (n_eq, c_eq, i_eq) =
      let low : a'.sequence ≤ s.last_value =
        older_numbers a' m' (sym n_eq ∙ ap (λ (x : Allocation). x.namespace) e)
          (sym c_eq ∙ ap (λ (x : Allocation). x.scope) e) in
      let high : a.sequence ≡ number = ap (λ (x : Allocation). x.sequence) e in
      absurd (omega (arith, low, high, i_eq))
  distinct-after a a' (Memᴰ.tail m) (Memᴰ.head e') (n_eq, c_eq, i_eq) =
      let low : a.sequence ≤ s.last_value =
        older_numbers a m (n_eq ∙ ap (λ (x : Allocation). x.namespace) e')
          (c_eq ∙ ap (λ (x : Allocation). x.scope) e') in
      let high : a'.sequence ≡ number = ap (λ (x : Allocation). x.sequence) e' in
      absurd (omega (arith, low, high, i_eq))

  pub next-IsSound : IsSound after
  unfolding add_allocation set_last_value
  next-IsSound = record {
    numbered = Numbered-after;
    bounded = λ n c r' found'.
        let (r, r_found, is) =
          find-map-eq-some (is_sequence_of n c) (updated request.namespace scope number)
            (is_sequence_of-updated request.namespace scope n c number) t.sequences found' in
        let (_, _, same_w, below) = updated-last_value n c r r_found in rw is (rw same_w below);
    distinct = distinct-after;
  }
