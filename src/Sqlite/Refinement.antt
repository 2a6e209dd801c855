-- ===== src/Sqlite/Refinement.antt =====
-- An allocation of sqlite.ts does what its specification says, unless the database fails, which
-- changes no table.
use mathlib.Core.Path.{subst}
use identifold.Errors.{
  fail, Result-cases, Thrown, Result, allocation_conflict, identifold_error, boundary_error,
  foreign, ok, err,
}
use identifold.Prelude.{
  ℕ, ◌-◌, ◌^◌, ◌≡◌, refl, sym, ap, ◌∙◌, ◌⊎◌, inl, inr, ◌&&◌, Option, none, some, List, [], ◌∷◌,
  length, all, leb, ◌==◌, Bool-cases, Text,
}
use identifold.Reference.Decimal.{ℤ, pos}
use identifold.Reference.Hyphens.{remove_hyphens}
use identifold.Service.Create.Defs.{return, then_do, SequenceAllocationRequest}
use identifold.Sqlite.{
  record_or_null, map_sqlite_error, scope_or_empty, allocation_transaction, roll_back,
  sqlite_allocate, SqliteDatabase, begin_immediate, select_allocation,
}
use identifold.Sqlite.Laws.{Answers, SqliteLaws}
use identifold.Sqlite.Refinement.Branches.{existing_or_new_lem}
use identifold.Sqlite.Refinement.Steps.{
  Failed, Unless, Did, Undone-closed, next, Stopped, Reached, stopped, ask, get_row_lem,
  values_fail,
}
use identifold.Sqlite.Specification.{matches, next_allocation, allocate_in, allocate_spec}
use identifold.Sqlite.Tables.{
  closed, in_transaction, AfterFailure, find_allocation, allocation_row, got_row, Sequence,
  Allocation, Tables, Session,
}
use identifold.Storage.Bytes.{is_hex, machine_id_to_bytes}
use identifold.Storage.Values.{ThrowsIdentifold, Value}
pub mod Steps
pub mod Branches

machine_id_to_bytes-ThrowsIdentifold : (m : Text) → ThrowsIdentifold (machine_id_to_bytes m)
unfolding machine_id_to_bytes
machine_id_to_bytes-ThrowsIdentifold m =
    elim (Bool-cases (all is_hex (remove_hyphens m) && length (remove_hyphens m) == 32)) [
      | inl valid ↦ rw valid tt
      | inr other_text ↦ rw other_text tt
    ]

next_allocation-ThrowsIdentifold :
    (request : SequenceAllocationRequest) (scope : Text) (b : List ℕ) (t : Tables)
    (found : Option Sequence)
    → ThrowsIdentifold (next_allocation request scope b t found)
unfolding next_allocation
next_allocation-ThrowsIdentifold request scope b t none = tt
next_allocation-ThrowsIdentifold request scope b t (some s) =
    elim (Bool-cases (matches request s.prefix s.width)) [
      | inr differs ↦ rw differs tt
      | inl same ↦ elim (Bool-cases (leb (10 ^ request.width - 1) s.last_value)) [
        | inl full ↦ rw (same, full) tt
        | inr free ↦ rw (same, free) tt
      ]
    ]

allocate_in-ThrowsIdentifold :
    (request : SequenceAllocationRequest) (scope : Text) (b : List ℕ) (t : Tables)
    (found : Option Allocation)
    → ThrowsIdentifold (allocate_in request scope b t found)
unfolding allocate_in
allocate_in-ThrowsIdentifold request scope b t none =
    next_allocation-ThrowsIdentifold request scope b _ _
allocate_in-ThrowsIdentifold request scope b t (some a) =
    elim (Bool-cases (matches request a.prefix a.width)) [
      | inl same ↦ rw same tt
      | inr differs ↦ rw differs tt
    ]

module _ {W : Type 0} (database : SqliteDatabase W) (view : W → Session)
    (laws : SqliteLaws database view) (count : ℕ) (before : Tables)
    (request : SequenceAllocationRequest) where
  begun :
      (w : W)
      → view w ≡ closed count before
      → Unless database view count before
          (Did database view count before (λ done. Unit) (in_transaction count before before))
          (database.exec begin_immediate w)
  begun w start =
      ask database view count before w _ (Undone-closed database view count before w start) refl
        (laws.begin_answers w count before start)

  transaction_ok :
      (scope : Text) (b : List ℕ) (w : W)
      (has_bytes : machine_id_to_bytes request.machine_id ≡ ok b)
      → view w ≡ closed count before
      → Unless database view count before
          (Reached database view count before
            (allocate_in request scope b before (find_allocation before request.namespace scope b)))
          (allocation_transaction database request scope w)
  unfolding allocation_transaction
  transaction_ok scope b w has_bytes start =
      let found : Option Allocation = find_allocation before request.namespace scope b in
      let Wanted : Result ℤ × W → Type 0 =
        Reached database view count before (allocate_in request scope b before found) in
      next database view count before Wanted _ _ (begun w start) λ done v _ now_v. rw has_bytes (
        next database view count before Wanted _ _
          (get_row_lem database view count before laws select_allocation _
            (got_row allocation_row found) v now_v
            λ u now_u.
              subst
                (λ (tables : Tables).
                  Answers database view u
                    (database.get select_allocation
                      (Value.text request.namespace ∷ Value.text scope ∷ Value.bytes b ∷ []) u)
                    (λ x.
                      x ≡ got_row allocation_row (find_allocation tables request.namespace scope b))
                    (view u))
                (ap (λ (s : Session). s.tables) now_u)
                (laws.allocation_answers request.namespace scope b u))
          λ o u is now_u. rw is (
            existing_or_new_lem database view laws count before request scope b has_bytes found u
              now_u))

  transaction_err :
      (scope : Text) (e : Thrown) (w : W)
      → machine_id_to_bytes request.machine_id ≡ err e
      → view w ≡ closed count before
      → Unless database view count before
          (Stopped database view count before e)
          (allocation_transaction database request scope w)
  unfolding allocation_transaction
  transaction_err scope e w no_bytes start =
      next database view count before (Stopped database view count before e) _ _ (begun w start)
        λ done v _ now_v. rw no_bytes (
          stopped database view count before e _ _ (
            values_fail database view count before laws select_allocation e v
              (λ bound w2.
                then_do (database.get select_allocation bound w2)
                  (λ r. return (ok (record_or_null r))))
              now_v))

  abbrev pub Ended : Result (ℕ × Tables) → Result ℤ × W → Type 0
  Ended (ok (n, t)) p = (p.0 ≡ ok (pos n)) × (view p.1 ≡ closed count t)
  Ended (err e) p = (p.0 ≡ err e) × (view p.1 ≡ closed count before)

  abbrev pub Conflict : Result ℤ × W → Type 0
  Conflict p = (p.0 ≡ fail allocation_conflict) × AfterFailure (closed count before) (view p.1)

  roll_back-Failed :
      (p : Result ℤ × W) → Failed database view count before p → Conflict (roll_back database p)
  unfolding roll_back map_sqlite_error
  roll_back-Failed (ok n, v) (e, is, _) = cc is
  roll_back-Failed (err x, v) (e, is, failed) =
      let thrown : x ≡ foreign e = cc is in
      rw thrown
        (refl, subst (AfterFailure (closed count before)) (sym (laws.rollback_restores v)) failed)

  roll_back-Stopped :
      (e : Thrown) (p : Result ℤ × W)
      → ThrowsIdentifold {A = ℤ} (err e)
      → Stopped database view count before e p
      → ((roll_back database p).0 ≡ err e) × (view (roll_back database p).1 ≡ closed count before)
  unfolding roll_back map_sqlite_error
  roll_back-Stopped (identifold_error code) (ok n, v) known (is, undone) = cc is
  roll_back-Stopped (identifold_error code) (err x, v) known (is, undone) =
      let thrown : x ≡ identifold_error code = cc is in
      rw thrown (refl, laws.rollback_restores v ∙ undone)
  roll_back-Stopped (boundary_error code) p known stop = absurd known
  roll_back-Stopped (foreign e) p known stop = absurd known

  roll_back-done :
      (n : ℕ) (s : Session) (p : Result ℤ × W)
      → (p.0 ≡ ok (pos n)) × (view p.1 ≡ s)
      → ((roll_back database p).0 ≡ ok (pos n)) × (view (roll_back database p).1 ≡ s)
  unfolding roll_back
  roll_back-done n s (ok m, v) done = done
  roll_back-done n s (err e, v) (is, now) = cc is

  end_lem :
      (r : Result (ℕ × Tables)) (p : Result ℤ × W)
      → ThrowsIdentifold r
      → Unless database view count before (Reached database view count before r) p
      → Ended r (roll_back database p) ⊎ Conflict (roll_back database p)
  end_lem r p known (inr failed) = inr (roll_back-Failed p failed)
  end_lem (ok (n, t)) p known (inl done) = inl (roll_back-done n (closed count t) p done)
  end_lem (err e) p known (inl stop) = inl (roll_back-Stopped e p known stop)

  -- The number or the error of an allocation, and the tables after it, are those that its
  -- specification gives for the tables before, when no transaction was open. Only if a call of the
  -- database fails during the allocation, which its session counts, may the allocation fail with
  -- `allocation_conflict` instead, and the tables are then as before. In any case no transaction is
  -- left open.
  pub sqlite_allocate_refines :
      (w : W)
      → view w ≡ closed count before
      → Ended (allocate_spec request before) (sqlite_allocate database request w)
        ⊎ Conflict (sqlite_allocate database request w)
  unfolding sqlite_allocate allocate_spec
  sqlite_allocate_refines w start =
      elim (Bool-cases (leb 4 request.width && leb request.width 18)) [
        | inr outside ↦ rw outside (inl (refl, start))
        | inl inside ↦
            let scope : Text = scope_or_empty request.scope in
            elim (Result-cases (machine_id_to_bytes request.machine_id)) [
              | inl (b, has_bytes) ↦
                  let r : Result (ℕ × Tables) =
                    allocate_in request scope b before
                      (find_allocation before request.namespace scope b) in
                  rw (inside, has_bytes)
                    (end_lem r _ (allocate_in-ThrowsIdentifold request scope b before _)
                      (transaction_ok scope b w has_bytes start))
              | inr (e, no_bytes) ↦
                  rw (inside, no_bytes)
                    (end_lem (err e) _
                      (subst (λ (r : Result (List ℕ)). ThrowsIdentifold r) no_bytes
                        (machine_id_to_bytes-ThrowsIdentifold request.machine_id))
                      (transaction_err scope e w no_bytes start))
            ]
      ]
