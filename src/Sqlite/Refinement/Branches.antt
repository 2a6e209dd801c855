-- ===== src/Sqlite/Refinement/Branches.antt =====
-- An allocation of sqlite.ts does what its specification says, unless the database fails, which
-- changes no table.
use mathlib.Core.Path.{subst}
use identifold.Errors.{guard, ◌>>◌, Result, invalid_allocation_policy, ok}
use identifold.Prelude.{
  ℕ, ◌+◌, ◌-◌, ◌^◌, ◌≡◌, refl, ap, inl, inr, Option, none, some, List, [], ◌∷◌, leb, Bool-cases,
  Text, codes,
}
use identifold.Reference.Decimal.{to_decimal, ℤ, pos}
use identifold.Service.Create.Defs.{then_do, SequenceAllocationRequest}
use identifold.Sqlite.{
  record_or_null, to_big_int, matching_text, next_number, return_existing, store_allocated,
  allocate_next, allocate_new, existing_or_new, SqliteDatabase, commit, insert_sequence,
  select_state, update_sequence, insert_allocation,
}
use identifold.Sqlite.Laws.{Answers, SqliteLaws}
use identifold.Sqlite.Refinement.Steps.{
  Unless, Undone-in, next, Reached, ask, get_row_lem, run_with_lem,
}
use identifold.Sqlite.Specification.{
  matches, new_allocation, next_allocation, with_sequence, allocate_in,
}
use identifold.Sqlite.Tables.{
  in_transaction, find_sequence, ensure_sequence, set_last_value, add_allocation, allocation_row,
  state_row, got_row, Sequence, Allocation, Tables, Session,
}
use identifold.Storage.BigInt.Decimal.{big_int_of_text-to_decimal}
use identifold.Storage.Bytes.{machine_id_to_bytes}
use identifold.Storage.Values.{Value}

-- The columns of the rows, as the source reads them.
matching_text-allocation_row :
    (request : SequenceAllocationRequest) (a : Allocation)
    → matching_text request (codes "sequence") (allocation_row a) ≡ (
        guard (matches request a.prefix a.width) invalid_allocation_policy
        >> ok (to_decimal a.sequence))
unfolding matching_text allocation_row
matching_text-allocation_row request a = elim (Bool-cases (matches request a.prefix a.width)) [
  | inl same ↦ rw same refl
  | inr differs ↦ rw differs refl
]

matching_text-state_row :
    (request : SequenceAllocationRequest) (s : Sequence)
    → matching_text request (codes "last_value") (state_row s) ≡ (
        guard (matches request s.prefix s.width) invalid_allocation_policy
        >> ok (to_decimal s.last_value))
unfolding matching_text state_row
matching_text-state_row request s = elim (Bool-cases (matches request s.prefix s.width)) [
  | inl same ↦ rw same refl
  | inr differs ↦ rw differs refl
]

to_big_int-to_decimal : (n : ℕ) → to_big_int (to_decimal n) ≡ ok (pos n)
to_big_int-to_decimal n = rw (to_big_int, big_int_of_text-to_decimal n) refl

module _ {W : Type 0} (database : SqliteDatabase W) (view : W → Session)
    (laws : SqliteLaws database view) (count : ℕ) (before : Tables)
    (request : SequenceAllocationRequest) (scope : Text) (b : List ℕ)
    (has_bytes : machine_id_to_bytes request.machine_id ≡ ok b) where
  commit_lem :
      (n : ℕ) (t : Tables) (w : W) (f : Unit {0} → W → Result ℤ × W)
      → view w ≡ in_transaction count before t
      → ((v : W) → f tt v ≡ (ok (pos n), v))
      → Unless database view count before
          (Reached database view count before (ok (n, t)))
          (then_do (database.exec commit w) f)
  commit_lem n t w f now then =
      next database view count before (Reached database view count before (ok (n, t))) _ f
        (ask database view count before w _ (Undone-in database view count before w now) refl
          (laws.commit_answers w count before t now))
        λ done v _ now_v. rw (then v) (inl (refl, now_v))

  return_existing_lem :
      (a : Allocation) (w : W)
      → view w ≡ in_transaction count before before
      → Unless database view count before
          (Reached database view count before (allocate_in request scope b before (some a)))
          (return_existing database request (allocation_row a) w)
  unfolding return_existing allocate_in
  return_existing_lem a w now =
      rw (matching_text-allocation_row request a)
        (elim (Bool-cases (matches request a.prefix a.width)) [
          | inl same ↦
              rw same (
                commit_lem a.sequence before w _ now
                  λ v. rw (to_big_int-to_decimal a.sequence) refl)
          | inr differs ↦ rw differs (inl (refl, Undone-in database view count before w now))
        ])

  store_allocated_lem :
      (n : ℕ) (t : Tables) (w : W)
      → view w ≡ in_transaction count before t
      → Unless database view count before
          (Reached database view count before (
            ok (
              n,
              add_allocation
                  (new_allocation request scope b n)
                  (set_last_value request.namespace scope n t),
            )))
          (store_allocated database request scope (pos n) w)
  unfolding store_allocated new_allocation set_last_value add_allocation
  store_allocated_lem n t w now =
      let Wanted : Result ℤ × W → Type 0 = Reached database view count before (
        ok (
          n,
          add_allocation (new_allocation request scope b n)
              (set_last_value request.namespace scope n t),
        )) in
      next database view count before Wanted _ _
        (run_with_lem database view count before laws update_sequence _
          (set_last_value request.namespace scope n) w now
          (laws.update_sequence_runs request.namespace scope n))
        λ done v _ now_v. rw has_bytes (
          next database view count before Wanted _ _
            (run_with_lem database view count before laws insert_allocation _
              (add_allocation (new_allocation request scope b n)) v now_v
              (laws.insert_allocation_runs (new_allocation request scope b n)))
            λ added u _ now_u. commit_lem n _ u _ now_u (λ x. refl))

  allocate_next_lem :
      (found : Option Sequence) (t : Tables) (w : W)
      → view w ≡ in_transaction count before t
      → Unless database view count before
          (Reached database view count before (next_allocation request scope b t found))
          (allocate_next database request scope (record_or_null (got_row state_row found)) w)
  unfolding allocate_next next_allocation record_or_null next_number
  allocate_next_lem none t w now = inl (refl, Undone-in database view count before w now)
  allocate_next_lem (some s) t w now =
      rw (matching_text-state_row request s) (elim (Bool-cases (matches request s.prefix s.width)) [
        | inr differs ↦ rw differs (inl (refl, Undone-in database view count before w now))
        | inl same ↦
            rw (same, to_big_int-to_decimal s.last_value)
              (elim (Bool-cases (leb (10 ^ request.width - 1) s.last_value)) [
                | inl full ↦ rw full (inl (refl, Undone-in database view count before w now))
                | inr free ↦ rw free (store_allocated_lem (s.last_value + 1) t w now)
              ])
      ])

  allocate_new_lem :
      (w : W)
      → view w ≡ in_transaction count before before
      → Unless database view count before
          (Reached database view count before (allocate_in request scope b before none))
          (allocate_new database request scope w)
  unfolding allocate_new allocate_in with_sequence
  allocate_new_lem w now =
      let Wanted : Result ℤ × W → Type 0 =
        Reached database view count before (allocate_in request scope b before none) in
      let t : Tables = with_sequence request scope before in
      next database view count before Wanted _ _
        (run_with_lem database view count before laws insert_sequence _
          (ensure_sequence request.namespace scope request.reference_prefix request.width) w now
          (laws.insert_sequence_runs request.namespace scope request.reference_prefix
            request.width))
        λ done v _ now_v.
          next database view count before Wanted _ _
            (get_row_lem database view count before laws select_state _
              (got_row state_row (find_sequence t request.namespace scope)) v now_v
              λ u now_u.
                subst
                  (λ (tables : Tables).
                    Answers database view u
                      (database.get select_state
                        (Value.text request.namespace ∷ Value.text scope ∷ []) u)
                      (λ x. x ≡ got_row state_row (find_sequence tables request.namespace scope))
                      (view u))
                  (ap (λ (s : Session). s.tables) now_u)
                  (laws.state_answers request.namespace scope u))
            λ o u is now_u. rw is (allocate_next_lem _ _ u now_u)

  pub existing_or_new_lem :
      (found : Option Allocation) (w : W)
      → view w ≡ in_transaction count before before
      → Unless database view count before
          (Reached database view count before (allocate_in request scope b before found))
          (existing_or_new database request scope (record_or_null (got_row allocation_row found)) w)
  unfolding record_or_null
  existing_or_new_lem none w now = allocate_new_lem w now
  existing_or_new_lem (some a) w now = return_existing_lem a w now
