-- ===== src/Sqlite/Lookup.antt =====
-- A lookup of sqlite.ts on the tables.
use mathlib.Core.Path.{subst}
use identifold.Errors.{
  fail, ◌>>=◌, Result-cases, Result, allocation_conflict, identifold_error, boundary_error, foreign,
  ok, err,
}
use identifold.Prelude.{
  ℕ, ◌≡◌, refl, ap, ◌⊎◌, inl, inr, Option, none, some, List, [], ◌∷◌, length, ◌==◌, Bool-cases,
  Text,
}
use identifold.Reference.Decimal.{pos}
use identifold.Resolver.{ReferenceLookupResult}
use identifold.Sqlite.{
  record_or_null, map_sqlite_error, mapping_from_record, mapping_or_null, lookup_sequential,
  random_or_sequential, sqlite_lookup, SqliteDatabase, select_random, select_sequential,
}
use identifold.Sqlite.Laws.{Answers, SqliteLaws}
use identifold.Sqlite.Refinement.Steps.{Unless, next, get_row_in}
use identifold.Sqlite.Tables.{
  closed, rolled_back, AfterFailure, find_reference, find_numbered, mapping_row, got_row,
  Allocation, StoredReference, Tables, Session,
}
use identifold.Storage.Bytes.{bytes_to_machine_id}
use identifold.Storage.Sequential.{parse_sequential_parts, SequentialReferenceParts}
use identifold.Storage.Values.{rethrow, ThrowsIdentifold, Value}

abbrev stored_mapping : List ℕ → Text → Result (Option ReferenceLookupResult)
stored_mapping b namespace = bytes_to_machine_id (some (Value.bytes b)) >>= λ machine_id.
    ok (some (record { machine_id = machine_id; namespace = namespace }))

abbrev numbered_mapping : Option Allocation → Result (Option ReferenceLookupResult)
numbered_mapping none = ok none
numbered_mapping (some a) = stored_mapping a.machine_id a.namespace

-- The answer for a reference that is in no row of its own.
abbrev sequential_spec :
    Tables → Text → Option SequentialReferenceParts → Result (Option ReferenceLookupResult)
sequential_spec t namespace none = ok none
sequential_spec t namespace (some parts) =
    numbered_mapping (find_numbered t namespace parts.prefix parts.scope parts.sequence)

abbrev reference_spec :
    Tables → Text → Text → Option StoredReference → Result (Option ReferenceLookupResult)
reference_spec t reference namespace none =
    sequential_spec t namespace (parse_sequential_parts reference)
reference_spec t reference namespace (some r) = stored_mapping r.machine_id r.namespace

unfoldable pub lookup_spec : Tables → Text → Text → Result (Option ReferenceLookupResult)
lookup_spec t reference namespace =
    reference_spec t reference namespace (find_reference t reference namespace)

stored_mapping-ThrowsIdentifold :
    (b : List ℕ) (namespace : Text) → ThrowsIdentifold (stored_mapping b namespace)
unfolding bytes_to_machine_id
stored_mapping-ThrowsIdentifold b namespace = elim (Bool-cases (length b == 16)) [
  | inl sixteen ↦ rw sixteen tt
  | inr other_length ↦ rw other_length tt
]

numbered_mapping-ThrowsIdentifold :
    (found : Option Allocation) → ThrowsIdentifold (numbered_mapping found)
numbered_mapping-ThrowsIdentifold none = tt
numbered_mapping-ThrowsIdentifold (some a) =
    stored_mapping-ThrowsIdentifold a.machine_id a.namespace

sequential_spec-ThrowsIdentifold :
    (t : Tables) (namespace : Text) (parts : Option SequentialReferenceParts)
    → ThrowsIdentifold (sequential_spec t namespace parts)
sequential_spec-ThrowsIdentifold t namespace none = tt
sequential_spec-ThrowsIdentifold t namespace (some parts) = numbered_mapping-ThrowsIdentifold _

reference_spec-ThrowsIdentifold :
    (t : Tables) (reference namespace : Text) (found : Option StoredReference)
    → ThrowsIdentifold (reference_spec t reference namespace found)
reference_spec-ThrowsIdentifold t reference namespace none =
    sequential_spec-ThrowsIdentifold t namespace _
reference_spec-ThrowsIdentifold t reference namespace (some r) =
    stored_mapping-ThrowsIdentifold r.machine_id r.namespace

mapping_or_null-mapping_row :
    {W : Type 0} (database : SqliteDatabase W) (b : List ℕ) (namespace : Text)
    → mapping_or_null database (some (mapping_row b namespace)) ≡ stored_mapping b namespace
unfolding mapping_from_record mapping_row
mapping_or_null-mapping_row database b namespace =
    elim (Result-cases (bytes_to_machine_id (some (Value.bytes b)))) [
      | inl (m, is) ↦ rw is refl
      | inr (e, is) ↦ rw is refl
    ]

mapping_or_null-got_row :
    {W : Type 0} (database : SqliteDatabase W) (found : Option Allocation)
    → mapping_or_null database
        (record_or_null (got_row (λ (a : Allocation). mapping_row a.machine_id a.namespace) found))
      ≡ numbered_mapping found
unfolding record_or_null
mapping_or_null-got_row database none = refl
mapping_or_null-got_row database (some a) =
    mapping_or_null-mapping_row database a.machine_id a.namespace

module _ {W : Type 0} (database : SqliteDatabase W) (view : W → Session)
    (laws : SqliteLaws database view) (count : ℕ) (t : Tables) where
  -- The result is the specified one, and the session is as before.
  abbrev Answered :
      Result (Option ReferenceLookupResult) → Result (Option ReferenceLookupResult) × W → Type 0
  Answered r p = (p.0 ≡ r) × (view p.1 ≡ closed count t)

  closed_undone : rolled_back (closed count t) ≡ closed count t
  unfolding rolled_back
  closed_undone = refl

  sequential_lem :
      (namespace : Text) (parts : Option SequentialReferenceParts) (w : W)
      → view w ≡ closed count t
      → Unless database view count t
          (Answered (sequential_spec t namespace parts))
          (lookup_sequential database namespace parts w)
  unfolding lookup_sequential
  sequential_lem namespace none w start = inl (refl, start)
  sequential_lem namespace (some parts) w start =
      let found : Option Allocation =
        find_numbered t namespace parts.prefix parts.scope parts.sequence in
      next database view count t (Answered (sequential_spec t namespace (some parts))) _ _
        (get_row_in database view count t laws select_sequential _
          (got_row (λ (a : Allocation). mapping_row a.machine_id a.namespace) found) w closed_undone
          start
          λ v now.
            subst
              (λ (tables : Tables).
                Answers database view v
                  (database.get select_sequential
                    (Value.text namespace
                      ∷ Value.text parts.prefix
                      ∷ Value.text parts.scope
                      ∷ Value.bigint (pos parts.sequence)
                      ∷ [])
                    v)
                  (λ x.
                    x
                    ≡ got_row (λ (a : Allocation). mapping_row a.machine_id a.namespace)
                        (find_numbered tables namespace parts.prefix parts.scope parts.sequence))
                  (view v))
              (ap (λ (s : Session). s.tables) now)
              (laws.sequential_answers namespace parts.prefix parts.scope parts.sequence v))
        λ o v is now. inl (rw is (mapping_or_null-got_row database found), now)

  after_random :
      (reference namespace : Text) (found : Option StoredReference) (w : W)
      → view w ≡ closed count t
      → Unless database view count t (Answered (reference_spec t reference namespace found)) (
          random_or_sequential database reference namespace
            (record_or_null
              (got_row (λ (r : StoredReference). mapping_row r.machine_id r.namespace) found))
            w)
  unfolding record_or_null
  after_random reference namespace none w start =
      sequential_lem namespace (parse_sequential_parts reference) w start
  after_random reference namespace (some r) w start =
      inl (mapping_or_null-mapping_row database r.machine_id r.namespace, start)

  rethrow_lem :
      (r : Result (Option ReferenceLookupResult)) (p : Result (Option ReferenceLookupResult) × W)
      → ThrowsIdentifold r
      → Unless database view count t (Answered r) p
      → Answered r (rethrow map_sqlite_error p)
        ⊎ (((rethrow map_sqlite_error p).0 ≡ fail allocation_conflict)
            × AfterFailure (closed count t) (rolled_back (view (rethrow map_sqlite_error p).1)))
  unfolding map_sqlite_error
  rethrow_lem r (ok a, w) known (inl done) = inl done
  rethrow_lem (ok b) (err e, w) known (inl (is, now)) = cc is
  rethrow_lem (err (identifold_error code)) (err e, w) known (inl (is, now)) =
      let thrown : e ≡ identifold_error code = cc is in rw thrown (inl (refl, now))
  rethrow_lem (err (boundary_error code)) (err e, w) known (inl (is, now)) = absurd known
  rethrow_lem (err (foreign x)) (err e, w) known (inl (is, now)) = absurd known
  rethrow_lem r (ok a, w) known (inr (x, is, _)) = cc is
  rethrow_lem r (err e, w) known (inr (x, is, failed)) =
      let thrown : e ≡ foreign x = cc is in rw thrown (inr (refl, failed))

  -- The answer of a lookup is the one that its specification gives for the tables, when no transaction
  -- is open, and the tables are as before. Only if a call of the database fails during the lookup, which
  -- its session counts, may the lookup fail with `allocation_conflict` instead.
  pub sqlite_lookup_refines :
      (reference namespace : Text) (w : W)
      → view w ≡ closed count t
      → Answered (lookup_spec t reference namespace) (sqlite_lookup database reference namespace w)
        ⊎ (((sqlite_lookup database reference namespace w).0 ≡ fail allocation_conflict)
            × AfterFailure
                (closed count t)
                (rolled_back (view (sqlite_lookup database reference namespace w).1)))
  unfolding sqlite_lookup lookup_spec
  sqlite_lookup_refines reference namespace w start =
      let found : Option StoredReference = find_reference t reference namespace in
      rethrow_lem (lookup_spec t reference namespace) _
        (reference_spec-ThrowsIdentifold t reference namespace found)
        (next database view count t (Answered (lookup_spec t reference namespace)) _ _
          (get_row_in database view count t laws select_random _
            (got_row (λ (r : StoredReference). mapping_row r.machine_id r.namespace) found) w
            closed_undone start
            λ v now.
              subst
                (λ (tables : Tables).
                  Answers database view v
                    (database.get select_random (Value.text reference ∷ Value.text namespace ∷ [])
                      v)
                    (λ x.
                      x
                      ≡ got_row (λ (r : StoredReference). mapping_row r.machine_id r.namespace)
                          (find_reference tables reference namespace))
                    (view v))
                (ap (λ (s : Session). s.tables) now) (laws.reference_answers reference namespace v))
          λ o v is now. rw is (after_random reference namespace found v now))
