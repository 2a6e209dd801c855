-- ===== src/Sqlite/Laws.antt =====
-- What sqlite.ts relies on in SQLite: transactions, and the effect of the statements of an allocation
-- on the tables, as SQLite documents them. A statement may always fail. It then has no effect, or
-- SQLite has rolled back the transaction, and the session counts the failure. What the caller could
-- know beforehand is not counted: a `BEGIN` in a transaction and a `ROLLBACK` outside of one.
use identifold.Errors.{Foreign, Result, foreign, ok, err}
use identifold.Prelude.{ℕ, ◌≡◌, ◌⊎◌, List, [], ◌∷◌, if◌then◌else◌, Text}
use identifold.Reference.Decimal.{pos}
use identifold.Registry.{Number, whole}
use identifold.Sqlite.{
  SqliteStatement, SqliteDatabase, begin_immediate, commit, rollback, insert_reference,
  select_allocation, insert_sequence, select_state, update_sequence, insert_allocation,
  select_random, select_sequential,
}
use identifold.Sqlite.Tables.{
  closed, in_transaction, rolled_back, with_tables, AfterFailure, find_sequence, find_allocation,
  ensure_sequence, set_last_value, add_allocation, has_reference, add_reference, find_reference,
  find_numbered, mapping_row, allocation_row, state_row, got_row, Allocation, StoredReference,
  Tables, Session,
}
use identifold.Storage.Values.{Value}

module _ {W : Type 0} (database : SqliteDatabase W) (view : W → Session) where
  abbrev Threw : {A : Type 0} → W → Result A × W → Type 0
  Threw w p =
      (e : Foreign) × (p.0 ≡ err (foreign e))
      × AfterFailure (rolled_back (view w)) (rolled_back (view p.1))

  -- A statement succeeded, with such a result and this session after it, or it failed.
  abbrev pub Answers : {A : Type 0} → W → Result A × W → (A → Type 0) → Session → Type 0
  Answers {A} w p Expected s = ((a : A) × (p.0 ≡ ok a) × Expected a × (view p.1 ≡ s)) ⊎ Threw w p

  abbrev pub Runs : W → Result Number × W → (Tables → Tables) → Type 0
  Runs w p change = Answers w p (λ changes. Unit) (with_tables change (view w))

  pub record SqliteLaws : Type 0 where
    pub begin_answers :
        (w : W) (count : ℕ) (t : Tables)
        → view w ≡ closed count t
        → Answers w (database.exec begin_immediate w) (λ done. Unit) (in_transaction count t t)
    pub begin_nested :
        (w : W) (count : ℕ) (before t : Tables)
        → view w ≡ in_transaction count before t
        → (e : Foreign) × ((database.exec begin_immediate w).0 ≡ err (foreign e))
          × (view (database.exec begin_immediate w).1 ≡ view w)
    pub commit_answers :
        (w : W) (count : ℕ) (before t : Tables)
        → view w ≡ in_transaction count before t
        → Answers w (database.exec commit w) (λ done. Unit) (closed count t)
    pub rollback_restores : (w : W) → view (database.exec rollback w).1 ≡ rolled_back (view w)
    pub prepare_answers :
        (statement : SqliteStatement) (w : W)
        → Answers w (database.prepare statement w) (λ done. Unit) (view w)
    pub allocation_answers :
        (namespace scope : Text) (b : List ℕ) (w : W)
        → Answers w
            (database.get select_allocation
              (Value.text namespace ∷ Value.text scope ∷ Value.bytes b ∷ [])
              w)
            (λ x. x ≡ got_row allocation_row (find_allocation (view w).tables namespace scope b))
            (view w)
    pub state_answers :
        (namespace scope : Text) (w : W)
        → Answers w
            (database.get select_state (Value.text namespace ∷ Value.text scope ∷ []) w)
            (λ x. x ≡ got_row state_row (find_sequence (view w).tables namespace scope))
            (view w)
    pub insert_reference_answers :
        (r : StoredReference) (w : W)
        → Answers w
            (database.run insert_reference
              (Value.text r.reference ∷ Value.text r.namespace ∷ Value.bytes r.machine_id ∷ [])
              w)
            (λ changes.
              changes ≡ whole (if has_reference (view w).tables r.reference then 0 else 1))
            (with_tables (add_reference r) (view w))
    pub reference_answers :
        (reference namespace : Text) (w : W)
        → Answers w
            (database.get select_random (Value.text reference ∷ Value.text namespace ∷ []) w)
            (λ x.
              x
              ≡ got_row
                  (λ (r : StoredReference). mapping_row r.machine_id r.namespace)
                  (find_reference (view w).tables reference namespace))
            (view w)
    pub sequential_answers :
        (namespace prefix scope : Text) (n : ℕ) (w : W)
        → Answers w
            (database.get select_sequential
              (Value.text namespace
                ∷ Value.text prefix
                ∷ Value.text scope
                ∷ Value.bigint (pos n)
                ∷ [])
              w)
            (λ x.
              x
              ≡ got_row
                  (λ (a : Allocation). mapping_row a.machine_id a.namespace)
                  (find_numbered (view w).tables namespace prefix scope n))
            (view w)
    pub insert_sequence_runs :
        (namespace scope prefix : Text) (width : ℕ) (w : W)
        → Runs w
            (database.run insert_sequence
              (Value.text namespace
                ∷ Value.text scope
                ∷ Value.text prefix
                ∷ Value.number (whole width)
                ∷ [])
              w)
            (ensure_sequence namespace scope prefix width)
    pub update_sequence_runs :
        (namespace scope : Text) (n : ℕ) (w : W)
        → Runs w
            (database.run update_sequence
              (Value.bigint (pos n) ∷ Value.text namespace ∷ Value.text scope ∷ [])
              w)
            (set_last_value namespace scope n)
    pub insert_allocation_runs :
        (a : Allocation) (w : W)
        → Runs w
            (database.run insert_allocation
              (Value.text a.namespace
                ∷ Value.text a.scope
                ∷ Value.bigint (pos a.sequence)
                ∷ Value.bytes a.machine_id
                ∷ Value.text a.prefix
                ∷ Value.number (whole a.width)
                ∷ [])
              w)
            (add_allocation a)
