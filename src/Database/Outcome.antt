-- ===== src/Database/Outcome.antt =====
-- What the adapter of database.ts returns and throws.
use identifold.Database.{
  DatabaseQuery, has_code, map_database_error, read_mapping, database_reserve, database_allocate,
  database_lookup, resolve_reference_sql,
}
use identifold.Errors.{
  ok-injective, Code, Thrown, Result, allocation_conflict, invalid_allocation_policy,
  sequence_overflow, identifold_error, boundary_error, foreign, ok, err,
}
use identifold.Prelude.{
  ◌≡◌, refl, ap, ◌∙◌, inl, inr, Option, none, some, List, [], ◌∷◌, Bool-cases, Option-cases, Text,
  codes,
}
use identifold.Resolver.{ReferenceLookupResult}
use identifold.Service.Create.Defs.{ReferenceReservation, SequenceAllocationRequest}
use identifold.Service.Create.Reserved.{then_do-ok, result-eq-ok}
use identifold.Storage.Values.{
  Row, property, as_text, rethrow, ThrowsIdentifold, rethrow-ThrowsIdentifold, Value, text, number,
  bytes, null, other, boolean, bigint,
}

map_database_error-code : (e : Thrown) → (c : Code) × (map_database_error e ≡ identifold_error c)
unfolding map_database_error
map_database_error-code (identifold_error c) = (c, refl)
map_database_error-code (boundary_error c) = (allocation_conflict, refl)
map_database_error-code (foreign e) = elim (Bool-cases (has_code e (codes "22003"))) [
  | inl overflow ↦ (sequence_overflow, rw overflow)
  | inr fine ↦ elim (Bool-cases (has_code e (codes "22023"))) [
    | inl policy ↦ (invalid_allocation_policy, rw (fine, policy))
    | inr unknown ↦ (allocation_conflict, rw (fine, unknown))
  ]
]

-- Whatever the function that runs the statements does, the store, the allocator and the lookup
-- throw nothing but an `IdentifoldError`.
pub database_throws :
    {W : Type 0} (query : DatabaseQuery W) (reservation : ReferenceReservation)
    (request : SequenceAllocationRequest) (reference namespace : Text) (w : W)
    → ThrowsIdentifold (database_reserve query reservation w).0
      × ThrowsIdentifold (database_allocate query request w).0
      × ThrowsIdentifold (database_lookup query reference namespace w).0
unfolding database_reserve database_allocate database_lookup
database_throws query reservation request reference namespace w = (
  rethrow-ThrowsIdentifold map_database_error map_database_error-code _,
  rethrow-ThrowsIdentifold map_database_error map_database_error-code _,
  rethrow-ThrowsIdentifold map_database_error map_database_error-code _,
)

rethrow-ok :
    {W A : Type 0} (p : Result A × W) (a : A) (w : W)
    → rethrow map_database_error p ≡ (ok a, w)
    → p ≡ (ok a, w)
rethrow-ok (ok b, v) a w h = h
rethrow-ok {W} {A} (err e, v) a w h = cc (ap (λ (q : Result A × W). q.0) h)

as_text_sound : (v : Option Value) (t : Text) → as_text v ≡ some t → v ≡ some (Value.text t)
as_text_sound none t h = cc
as_text_sound (some null) t h = cc
as_text_sound (some other) t h = cc
as_text_sound (some (boolean b)) t h = cc
as_text_sound (some (number n)) t h = cc
as_text_sound (some (bigint n)) t h = cc
as_text_sound (some (text s)) t h = cc
as_text_sound (some (bytes b)) t h = cc

read_mapping_sound :
    (rows : List Row) (found : ReferenceLookupResult)
    → read_mapping rows ≡ ok (some found)
    → (row : Row) × (rows ≡ row ∷ [])
      × (property row (codes "machine_id") ≡ some (Value.text found.machine_id))
      × (property row (codes "namespace") ≡ some (Value.text found.namespace))
unfolding read_mapping
read_mapping_sound [] found h = cc (ok-injective h)
read_mapping_sound (row ∷ []) found h =
    elim (Option-cases (as_text (property row (codes "machine_id")))) [
      | inl missing ↦ cc (rw (missing, read_mapping) at h)
      | inr (m, has_m) ↦ elim (Option-cases (as_text (property row (codes "namespace")))) [
        | inl missing ↦ cc (rw (has_m, missing, read_mapping) at h)
        | inr (n, has_n) ↦
            let made : record { machine_id = m; namespace = n } ≡ found =
              cc (ok-injective (rw (has_m, has_n, read_mapping) at h)) in
            (
              row,
              refl,
              as_text_sound _ _
                  (has_m ∙ ap (λ (x : ReferenceLookupResult). some x.machine_id) made),
              as_text_sound _ _ (has_n ∙ ap (λ (x : ReferenceLookupResult). some x.namespace) made),
            )
      ]
    ]
read_mapping_sound (row ∷ next ∷ rows) found h = cc

-- The lookup answers with a mapping only if the statement, run with the reference and the namespace,
-- returned exactly one row, and the two texts of that row are the mapping.
pub database_lookup_sound :
    {W : Type 0} (query : DatabaseQuery W) (reference namespace : Text) (w w' : W)
    (found : ReferenceLookupResult)
    → database_lookup query reference namespace w ≡ (ok (some found), w')
    → (row : Row) × (query resolve_reference_sql
          (Value.text reference ∷ Value.text namespace ∷ [])
          w
        ≡ (ok (row ∷ []), w'))
      × (property row (codes "machine_id") ≡ some (Value.text found.machine_id))
      × (property row (codes "namespace") ≡ some (Value.text found.namespace))
unfolding database_lookup
database_lookup_sound query reference namespace w w' found h =
    let (rows, v, ran, rest) =
      then_do-ok (query resolve_reference_sql (Value.text reference ∷ Value.text namespace ∷ []) w)
        _ (rethrow-ok _ (some found) w' h) in
    let (read, at_end) = result-eq-ok rest in
    let (row, only, has_m, has_n) = read_mapping_sound rows found read in
    (row, ran ∙ ap (λ x. (ok x, v)) only ∙ ap (λ x. (ok (row ∷ []), x)) at_end, has_m, has_n)
