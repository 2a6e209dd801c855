-- ===== src/Sqlite/Safety/Branches.antt =====
-- The branches of the specification of an allocation (sqlite.ts), on sound tables.
use mathlib.Core.Path.{subst}
use identifold.Errors.{guard, ◌>>◌, ok-injective, Code, Result, ok}
use identifold.Prelude.{
  ℕ, ◌+◌, ◌-◌, ◌^◌, ◌≤◌, ◌<◌, ◌≡◌, refl, sym, ◌∙◌, inl, inr, Bool, true, false, not, ◌&&◌, some,
  List, arith, leb, ==_iff, Option-cases, &&-eq-true, Text, text_eq, text_eq_iff, text_eq_refl,
}
use identifold.Service.Create.Defs.{SequenceAllocationRequest}
use identifold.Sqlite.{scope_or_empty}
use identifold.Sqlite.Sound.{next-IsSound, IsSound}
use identifold.Sqlite.Sound.Find.{find-Memᴰ}
use identifold.Sqlite.Specification.{
  matches, new_allocation, next_allocation, allocate_in, allocate_spec,
}
use identifold.Sqlite.Tables.{
  find, is_allocation_of, find_sequence, find_allocation, set_last_value, add_allocation, Sequence,
  Allocation, Tables,
}
use identifold.Storage.Bytes.{machine_id_to_bytes}

pub guard-cases :
    {A : Type 0} (test : Bool) (code : Code) (rest : Result A) {a : A}
    → (guard test code >> rest) ≡ ok a
    → (test ≡ true) × (rest ≡ ok a)
guard-cases true code rest h = (refl, h)
guard-cases false code rest h = cc

matches-true :
    (request : SequenceAllocationRequest) (prefix : Text) (width : ℕ)
    → matches request prefix width ≡ true
    → (prefix ≡ request.reference_prefix) × (width ≡ request.width)
matches-true request prefix width h =
    let (first, second) = &&-eq-true (text_eq prefix request.reference_prefix) _ h in
    ((text_eq_iff prefix request.reference_prefix).0 first, (==_iff width request.width).0 second)

matches_refl :
    (request : SequenceAllocationRequest)
    → matches request request.reference_prefix request.width ≡ true
matches_refl request =
    rw (text_eq_refl request.reference_prefix) ((==_iff request.width request.width).1 refl)

-- The row of a machine identifier, with its number.
abbrev Holds : Tables → SequenceAllocationRequest → List ℕ → ℕ → Type 0
Holds t request b n =
    (a : Allocation) × (find_allocation t request.namespace (scope_or_empty request.scope) b
      ≡ some a)
    × (a.sequence ≡ n)

-- What is known of a number and the new tables.
abbrev pub Safe : SequenceAllocationRequest → List ℕ → ℕ → Tables → Type 0
Safe request b n t =
    IsSound t
    × (1 ≤ n)
    × (n < 10 ^ request.width)
    × Holds t request b n
    × (allocate_spec request t ≡ ok (n, t))

allocate_spec-again :
    (request : SequenceAllocationRequest) (b : List ℕ) (a : Allocation) (t : Tables)
    → (leb 4 request.width && leb request.width 18) ≡ true
    → machine_id_to_bytes request.machine_id ≡ ok b
    → find_allocation t request.namespace (scope_or_empty request.scope) b ≡ some a
    → matches request a.prefix a.width ≡ true
    → allocate_spec request t ≡ ok (a.sequence, t)
unfolding allocate_spec allocate_in
allocate_spec-again request b a t inside has_bytes found same_policy =
    rw (inside, has_bytes, found, same_policy) refl

new_allocation-fields :
    (request : SequenceAllocationRequest) (scope : Text) (b : List ℕ) (n : ℕ)
    → ((new_allocation request scope b n).sequence ≡ n)
      × (matches request
            (new_allocation request scope b n).prefix
            (new_allocation request scope b n).width
          ≡ true)
unfolding new_allocation
new_allocation-fields request scope b n = (refl, matches_refl request)

module _ (request : SequenceAllocationRequest) (b : List ℕ) (t : Tables) (sound : IsSound t)
    (inside : (leb 4 request.width && leb request.width 18) ≡ true)
    (has_bytes : machine_id_to_bytes request.machine_id ≡ ok b) where
  abbrev scope : Text
  scope = scope_or_empty request.scope

  pub existing-Safe :
      (a : Allocation)
      → find_allocation t request.namespace scope b ≡ some a
      → matches request a.prefix a.width ≡ true
      → Safe request b a.sequence t
  existing-Safe a found same_policy =
      let (s, s_found, low, high, p, same_w) =
        sound.numbered a
          (find-Memᴰ (is_allocation_of request.namespace scope b) t.allocations found) in
      let (_, width_eq) = matches-true request a.prefix a.width same_policy in
      let below = sound.bounded a.namespace a.scope s s_found in
      let s_width : s.width ≡ request.width = sym same_w ∙ width_eq in
      let below' : s.last_value < 10 ^ request.width = rw⁻¹ s_width below in
      (
        sound,
        low,
        omega (arith, high, below'),
        (a, found, refl),
        allocate_spec-again request b a t inside has_bytes found same_policy,
      )

  find_allocation-new :
      (t1 : Tables) (n : ℕ)
      → find_allocation
          (add_allocation (new_allocation request scope b n) t1)
          request.namespace
          scope
          b
        ≡ some (new_allocation request scope b n)
  unfolding add_allocation new_allocation find
  find_allocation-new t1 n =
      rw (text_eq_refl request.namespace, text_eq_refl scope, text_eq_refl b) refl

  added-Safe :
      (t1 : Tables) (s : Sequence)
      → IsSound t1
      → find_sequence t1 request.namespace scope ≡ some s
      → matches request s.prefix s.width ≡ true
      → s.last_value + 1 < 10 ^ request.width
      → Safe request b (s.last_value + 1) (
          add_allocation
            (new_allocation request scope b (s.last_value + 1))
            (set_last_value request.namespace scope (s.last_value + 1) t1))
  added-Safe t1 s sound1 found same_policy free =
      let (prefix_eq, width_eq) = matches-true request s.prefix s.width same_policy in
      let a : Allocation = new_allocation request scope b (s.last_value + 1) in
      let (is_n, same_policy') = new_allocation-fields request scope b (s.last_value + 1) in
      let t2 : Tables = set_last_value request.namespace scope (s.last_value + 1) t1 in
      (
        next-IsSound t1 sound1 request scope b s found prefix_eq width_eq free,
        omega arith,
        free,
        (a, find_allocation-new t2 (s.last_value + 1), is_n),
        subst (λ (n : ℕ). allocate_spec request (add_allocation a t2) ≡ ok (n, add_allocation a t2))
            is_n
            (allocate_spec-again request b a (add_allocation a t2) inside has_bytes
              (find_allocation-new t2 (s.last_value + 1)) same_policy'),
      )

  pub new-Safe :
      (t1 t' : Tables) (n : ℕ)
      → IsSound t1
      → next_allocation request scope b t1 (find_sequence t1 request.namespace scope) ≡ ok (n, t')
      → Safe request b n t'
  unfolding next_allocation
  new-Safe t1 t' n sound1 h = elim (Option-cases (find_sequence t1 request.namespace scope)) [
    | inl missing ↦ cc (rw missing at h)
    | inr (s, found) ↦
        let (same_policy, rest) =
          guard-cases (matches request s.prefix s.width) _ _ (rw found at h) in
        let (has_room, made) =
          guard-cases (not (leb (10 ^ request.width - 1) s.last_value)) _ _ rest in
        subst (λ (x : ℕ × Tables). Safe request b x.0 x.1) (ok-injective made)
          (added-Safe t1 s sound1 found same_policy (ground arith))
  ]
