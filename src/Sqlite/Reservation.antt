-- ===== src/Sqlite/Reservation.antt =====
-- The reservation of a random reference (sqlite.ts), and its lookup.
use mathlib.Core.Path.{subst}
use identifold.Errors.{fail, ok-injective, Thrown, Result, allocation_conflict, ok, err}
use identifold.Prelude.{
  ℕ, ◌≡◌, refl, sym, ap, ◌∙◌, ◌⊎◌, inl, inr, Bool, true, false, not, some, if◌then◌else◌, Text,
  text_eq_refl, to_lower,
}
use identifold.Registry.{Number, whole}
use identifold.Service.Create.Defs.{return, then_do, ReferenceReservation}
use identifold.Service.Create.Reserved.{then_do-ok, result-eq-ok}
use identifold.Service.Identify.{has_uuid_shape}
use identifold.Sqlite.{map_sqlite_error, is_number, sqlite_reserve, sqlite_lookup, SqliteDatabase}
use identifold.Sqlite.Laws.{Answers, SqliteLaws}
use identifold.Sqlite.Lookup.{lookup_spec, sqlite_lookup_refines}
use identifold.Sqlite.Tables.{
  closed, rolled_back, with_tables, AfterFailure, find, has_reference, add_reference,
  find_reference, StoredReference, Tables, Session,
}
use identifold.Storage.Bytes.{machine_id_to_bytes, bytes_to_machine_id}
use identifold.Storage.Bytes.RoundTrip.{bytes_to_machine_id-machine_id_to_bytes}
use identifold.Storage.Values.{rethrow, Value}

is_one : (b : Bool) → is_number (some (Value.number (whole (if b then 0 else 1)))) 1 ≡ not b
is_one true = refl
is_one false = refl

not-true : (b : Bool) → not b ≡ true → b ≡ false
not-true true h = cc
not-true false h = refl

rethrow-eq-ok :
    {W A : Type 0} (map_error : Thrown → Thrown) (p : Result A × W) {a : A} {w : W}
    → rethrow map_error p ≡ (ok a, w)
    → p ≡ (ok a, w)
rethrow-eq-ok map_error (ok b, v) h = h
rethrow-eq-ok {W} {A} map_error (err e, v) h = cc (ap (λ (q : Result A × W). q.0) h)

find_reference-add_reference :
    (r : StoredReference) (t : Tables)
    → has_reference t r.reference ≡ false
    → find_reference (add_reference r t) r.reference r.namespace ≡ some r
unfolding add_reference find
find_reference-add_reference r t free =
    rw (free, text_eq_refl r.reference, text_eq_refl r.namespace) refl

lookup_spec-reserved :
    (t : Tables) (r : StoredReference) (m : Text)
    → find_reference t r.reference r.namespace ≡ some r
    → bytes_to_machine_id (some (Value.bytes r.machine_id)) ≡ ok m
    → lookup_spec t r.reference r.namespace
      ≡ ok (some (record { machine_id = m; namespace = r.namespace }))
unfolding lookup_spec
lookup_spec-reserved t r m found back = rw (found, back) refl

module _ {W : Type 0} (database : SqliteDatabase W) (view : W → Session)
    (laws : SqliteLaws database view) where
  inserted_true :
      (r : StoredReference) (count : ℕ) (t : Tables) (w w' : W) (p : Result Number × W)
      → view w ≡ closed count t
      → Answers database view w p
          (λ changes. changes ≡ whole (if has_reference (view w).tables r.reference then 0 else 1))
          (with_tables (add_reference r) (view w))
      → then_do p (λ changes. return (ok (is_number (some (Value.number changes)) 1)))
        ≡ (ok true, w')
      → (has_reference t r.reference ≡ false) × (view w' ≡ closed count (add_reference r t))
  inserted_true r count t w w' (err e, v) start answers h = cc (ap (λ (q : Result Bool × W). q.0) h)
  inserted_true r count t w w' (ok changes, v) start (inr (e, is, _)) h = cc is
  inserted_true r count t w w' (ok changes, v) start (inl (n, is, expected, now)) h =
      let (flag, at_end) = result-eq-ok h in
      let changes_is : changes
          ≡ whole (if has_reference (view w).tables r.reference then 0 else 1) =
        ok-injective is ∙ expected in
      let free : not (has_reference (view w).tables r.reference) ≡ true =
        sym (is_one (has_reference (view w).tables r.reference))
        ∙ ap (λ m. is_number (some (Value.number m)) 1) (sym changes_is)
        ∙ ok-injective flag in
      let tables_are : (view w).tables ≡ t = ap (λ (s : Session). s.tables) start in
      let free_t : not (has_reference t r.reference) ≡ true = rw tables_are at free in
      (
        not-true (has_reference t r.reference) free_t,
        ap view (sym at_end) ∙ now ∙ ap (with_tables (add_reference r)) start,
      )

  -- When a reservation for a machine identifier in canonical form has succeeded, with no transaction
  -- open, no row had its reference before, and the lookup of the reference in its namespace answers
  -- with the machine identifier and the namespace and changes no table. Only if a call of the database
  -- fails during the lookup, which its session counts, may the lookup fail with `allocation_conflict`
  -- instead, and the tables, without what a rollback undoes, are then the same.
  pub sqlite_lookup_reserved :
      (reservation : ReferenceReservation) (count : ℕ) (t : Tables) (w w' v : W)
      → has_uuid_shape reservation.machine_id ≡ true
      → to_lower reservation.machine_id ≡ reservation.machine_id
      → view w ≡ closed count t
      → sqlite_reserve database reservation w ≡ (ok true, w')
      → view v ≡ view w'
      → (has_reference t reservation.reference ≡ false)
        × ((((sqlite_lookup database reservation.reference reservation.namespace v).0
                ≡ ok (
                    some (record {
                      machine_id = reservation.machine_id;
                      namespace = reservation.namespace;
                    })))
              × (view (sqlite_lookup database reservation.reference reservation.namespace v).1
                  ≡ view w'))
            ⊎ (((sqlite_lookup database reservation.reference reservation.namespace v).0
                  ≡ fail allocation_conflict)
                × AfterFailure (view w') (
                    rolled_back (
                      view
                        (sqlite_lookup database reservation.reference reservation.namespace v).1))))
  unfolding sqlite_reserve
  sqlite_lookup_reserved reservation count t w w' v shape lower start reserved later =
      let (b, has_bytes, _, back) =
        bytes_to_machine_id-machine_id_to_bytes reservation.machine_id shape lower in
      let r : StoredReference = record {
        reference = reservation.reference;
        namespace = reservation.namespace;
        machine_id = b;
      } in
      let (b', w1, bytes_are, ran) =
        then_do-ok (return (machine_id_to_bytes reservation.machine_id) w) _
          (rethrow-eq-ok map_sqlite_error _ reserved) in
      let (bytes_is, same_world) = result-eq-ok bytes_are in
      let same_bytes : b' ≡ b = ok-injective (sym bytes_is ∙ has_bytes) in
      let (free, now) =
        inserted_true r count t w1 w' _ (ap view (sym same_world) ∙ start)
          (laws.insert_reference_answers r w1) (rw same_bytes at ran) in
      let spec =
        lookup_spec-reserved (add_reference r t) r reservation.machine_id
          (find_reference-add_reference r t free) back in
      (
        free,
        elim (sqlite_lookup_refines database view laws count (add_reference r t)
            reservation.reference reservation.namespace v (later ∙ now)) [
              | inl (is, unchanged) ↦ inl (is ∙ spec, unchanged ∙ sym now)
              | inr (conflict, failed) ↦ inr (
                conflict,
                subst
                    (λ s. AfterFailure s (
                      rolled_back (
                        view
                          (sqlite_lookup database reservation.reference reservation.namespace
                            v).1)))
                    (sym now) failed,
              )
            ],
      )
