-- ===== src/Sqlite/Safety.antt =====
-- What an allocation of sqlite.ts ensures, whether it finds its number or takes the next one.
use mathlib.Core.Path.{subst}
use identifold.Errors.{
  fail, >>=-eq-ok, ok-injective, Result, allocation_conflict, invalid_allocation_policy, ok, err,
}
use identifold.Prelude.{
  ℕ, ◌≡◌, refl, sym, ap, ◌∙◌, ◌⊎◌, inl, inr, true, ◌&&◌, Option, none, some, List, leb,
}
use identifold.Reference.Decimal.{ℤ, pos}
use identifold.Service.Create.Defs.{SequenceAllocationRequest}
use identifold.Sqlite.{scope_or_empty, sqlite_allocate, SqliteDatabase}
use identifold.Sqlite.Laws.{SqliteLaws}
use identifold.Sqlite.Refinement.{Ended, sqlite_allocate_refines}
use identifold.Sqlite.Safety.Branches.{guard-cases, Safe, existing-Safe, new-Safe}
use identifold.Sqlite.Sound.{ensure_sequence-IsSound, IsSound}
use identifold.Sqlite.Specification.{matches, with_sequence, allocate_in, allocate_spec}
use identifold.Sqlite.Tables.{closed, AfterFailure, find_allocation, Allocation, Tables, Session}
use identifold.Storage.Bytes.{machine_id_to_bytes}
pub mod Branches

allocate_in-Safe :
    (request : SequenceAllocationRequest) (b : List ℕ) (t t' : Tables) (n : ℕ)
    (found : Option Allocation)
    → IsSound t
    → (leb 4 request.width && leb request.width 18) ≡ true
    → machine_id_to_bytes request.machine_id ≡ ok b
    → find_allocation t request.namespace (scope_or_empty request.scope) b ≡ found
    → allocate_in request (scope_or_empty request.scope) b t found ≡ ok (n, t')
    → Safe request b n t'
unfolding allocate_in with_sequence
allocate_in-Safe request b t t' n none sound inside has_bytes is h =
    new-Safe request b t sound inside has_bytes _ t' n
      (ensure_sequence-IsSound t request.namespace (scope_or_empty request.scope)
        request.reference_prefix request.width sound)
      h
allocate_in-Safe request b t t' n (some a) sound inside has_bytes is h =
    let (same_policy, made) = guard-cases (matches request a.prefix a.width) _ _ h in
    subst (λ (x : ℕ × Tables). Safe request b x.0 x.1) (ok-injective made)
      (existing-Safe request b t sound inside has_bytes a is same_policy)

allocate_spec-Safe :
    (request : SequenceAllocationRequest) (t t' : Tables) (n : ℕ)
    → IsSound t
    → allocate_spec request t ≡ ok (n, t')
    → (b : List ℕ) × (machine_id_to_bytes request.machine_id ≡ ok b) × Safe request b n t'
unfolding allocate_spec
allocate_spec-Safe request t t' n sound h =
    let (inside, rest) =
      guard-cases (leb 4 request.width && leb request.width 18) invalid_allocation_policy _ h in
    let (b, has_bytes, end) = >>=-eq-ok (machine_id_to_bytes request.machine_id) _ rest in
    (b, has_bytes, allocate_in-Safe request b t t' n _ sound inside has_bytes refl end)

module _ {W : Type 0} (database : SqliteDatabase W) (view : W → Session)
    (laws : SqliteLaws database view) (request : SequenceAllocationRequest) where
  allocated_by :
      (count : ℕ) (t : Tables) (k : ℤ) (r : Result (ℕ × Tables)) (p : Result ℤ × W)
      → p.0 ≡ ok k
      → Ended database view laws count t request r p
      → (n : ℕ) × (t' : Tables) × (r ≡ ok (n, t')) × (k ≡ pos n) × (view p.1 ≡ closed count t')
  allocated_by count t k (ok (n, t')) p is (number_is, now) =
      (n, t', refl, ok-injective (sym is ∙ number_is), now)
  allocated_by count t k (err e) p is (error_is, now) = cc (is, error_is)

  -- When an allocation on sound tables, with no transaction open, returns a number, the number is
  -- from 1 up to what its width can write; the tables after it are sound, so that no other machine
  -- identifier has this number in the namespace and scope; they hold the number for the 16 bytes of
  -- the machine identifier; and no transaction is open.
  pub sqlite_allocate-Safe :
      (count : ℕ) (t : Tables) (k : ℤ) (w w' : W)
      → view w ≡ closed count t
      → IsSound t
      → sqlite_allocate database request w ≡ (ok k, w')
      → (n : ℕ) × (t' : Tables) × (b : List ℕ) × (k ≡ pos n)
        × (view w' ≡ closed count t')
        × (machine_id_to_bytes request.machine_id ≡ ok b)
        × Safe request b n t'
  sqlite_allocate-Safe count t k w w' start sound h =
      let is : (sqlite_allocate database request w).0 ≡ ok k = ap (λ (q : Result ℤ × W). q.0) h in
      elim (sqlite_allocate_refines database view laws count t request w start) [
        | inr (conflict, _) ↦ cc (is, conflict)
        | inl done ↦
            let (n, t', spec, k_is, now) =
              allocated_by count t k (allocate_spec request t) _ is done in
            let (b, has_bytes, safe) = allocate_spec-Safe request t t' n sound spec in
            let now' : view w' ≡ closed count t' =
              ap (λ (q : Result ℤ × W). view q.1) (sym h) ∙ now in
            (n, t', b, k_is, now', has_bytes, safe)
      ]

  -- Asked again for the same request on the tables that an allocation has left, the allocator returns
  -- the same number and changes no table. Only if a call of the database fails during the second run,
  -- which its session counts, may it fail with `allocation_conflict` instead, and it changes no table
  -- then either.
  pub sqlite_allocate_again :
      (count : ℕ) (t : Tables) (k : ℤ) (w w' v : W)
      → view w ≡ closed count t
      → IsSound t
      → sqlite_allocate database request w ≡ (ok k, w')
      → view v ≡ view w'
      → (((sqlite_allocate database request v).0 ≡ ok k)
          × (view (sqlite_allocate database request v).1 ≡ view w'))
        ⊎ (((sqlite_allocate database request v).0 ≡ fail allocation_conflict)
            × AfterFailure (view w') (view (sqlite_allocate database request v).1))
  sqlite_allocate_again count t k w w' v start sound h later =
      let (n, t', b, k_is, now, has_bytes, safe) =
        sqlite_allocate-Safe count t k w w' start sound h in
      let (_, _, _, _, again) = safe in
      elim (sqlite_allocate_refines database view laws count t' request v (later ∙ now)) [
        | inr (conflict, failed) ↦ inr (
          conflict,
          subst (λ s. AfterFailure s (view (sqlite_allocate database request v).1)) (sym now)
              failed,
        )
        | inl done ↦
            let (is, unchanged) =
              subst
                (λ r.
                  Ended database view laws count t' request r (sqlite_allocate database request v))
                again done in
            inl (rw k_is is, unchanged ∙ sym now)
      ]
