-- ===== src/Samples/Memory.antt =====
-- A database in memory for the adapter of sqlite.ts. Its state is a session; no statement fails
-- but a `BEGIN` in a transaction and a `COMMIT` or a `ROLLBACK` outside of one.
use identifold.Errors.{Result, foreign, ok, err}
use identifold.Prelude.{◌≡◌, refl, inl, inr, none, some, List, [], ◌∷◌, if◌then◌else◌, Option-cases}
use identifold.Reference.Decimal.{pos}
use identifold.Registry.{Number, whole}
use identifold.Sqlite.{
  Got, SqliteCommand, SqliteStatement, SqliteDatabase, begin_immediate, commit, rollback,
  insert_reference, select_allocation, insert_sequence, select_state, update_sequence,
  insert_allocation, select_random, select_sequential,
}
use identifold.Sqlite.Laws.{SqliteLaws}
use identifold.Sqlite.Tables.{
  closed, in_transaction, rolled_back, with_tables, find_sequence, find_allocation, ensure_sequence,
  set_last_value, add_allocation, has_reference, add_reference, find_reference, find_numbered,
  mapping_row, allocation_row, state_row, got_row, Allocation, StoredReference, Session,
}
use identifold.Storage.Values.{Value}

abbrev no_such_call : {A : Type 0} → Result A
no_such_call = err (foreign (record { code = none; sql_state = none }))

abbrev memory_exec : SqliteCommand → Session → Result (Unit {0}) × Session
memory_exec begin_immediate s = elim s.saved [
  | none ↦ (ok tt, in_transaction s.failures s.tables s.tables)
  | some before ↦ (no_such_call, s)
]
memory_exec commit s = elim s.saved [
  | none ↦ (no_such_call, s)
  | some before ↦ (ok tt, closed s.failures s.tables)
]
memory_exec rollback s = elim s.saved [
  | none ↦ (no_such_call, s)
  | some before ↦ (ok tt, closed s.failures before)
]

abbrev memory_get : SqliteStatement → List Value → Session → Result Got × Session
memory_get select_allocation (Value.text namespace ∷ Value.text scope ∷ Value.bytes b ∷ []) s =
    (ok (got_row allocation_row (find_allocation s.tables namespace scope b)), s)
memory_get select_state (Value.text namespace ∷ Value.text scope ∷ []) s =
    (ok (got_row state_row (find_sequence s.tables namespace scope)), s)
memory_get select_random (Value.text reference ∷ Value.text namespace ∷ []) s = (
  ok (
      got_row (λ (r : StoredReference). mapping_row r.machine_id r.namespace)
        (find_reference s.tables reference namespace)),
  s,
)
memory_get select_sequential
      (Value.text namespace ∷ Value.text prefix ∷ Value.text scope ∷ Value.bigint (pos n) ∷ []) s =
    (
      ok (
          got_row (λ (a : Allocation). mapping_row a.machine_id a.namespace)
            (find_numbered s.tables namespace prefix scope n)),
      s,
    )
memory_get statement values s = (no_such_call, s)

abbrev memory_run : SqliteStatement → List Value → Session → Result Number × Session
memory_run insert_reference (Value.text reference ∷ Value.text namespace ∷ Value.bytes b ∷ []) s = (
  ok (whole (if has_reference s.tables reference then 0 else 1)),
  with_tables
      (add_reference (record { reference = reference; namespace = namespace; machine_id = b })) s,
)
memory_run insert_sequence
      (Value.text namespace
        ∷ Value.text scope
        ∷ Value.text prefix
        ∷ Value.number (whole width)
        ∷ [])
      s =
    (ok (whole 1), with_tables (ensure_sequence namespace scope prefix width) s)
memory_run update_sequence (Value.bigint (pos n) ∷ Value.text namespace ∷ Value.text scope ∷ []) s =
    (ok (whole 1), with_tables (set_last_value namespace scope n) s)
memory_run insert_allocation
      (Value.text namespace
        ∷ Value.text scope
        ∷ Value.bigint (pos n)
        ∷ Value.bytes b
        ∷ Value.text prefix
        ∷ Value.number (whole width)
        ∷ [])
      s =
    (
      ok (whole 1),
      with_tables
          (add_allocation (record {
            namespace = namespace;
            scope = scope;
            sequence = n;
            machine_id = b;
            prefix = prefix;
            width = width;
          }))
          s,
    )
memory_run statement values s = (no_such_call, s)

abbrev pub memory : SqliteDatabase Session
memory = record {
  exec = memory_exec;
  prepare = λ statement s. (ok tt, s);
  get = memory_get;
  run = memory_run;
}

rollback-restores : (s : Session) → (memory_exec rollback s).1 ≡ rolled_back s
unfolding rolled_back
rollback-restores s = elim (Option-cases s.saved) [
  | inl outside ↦ rw outside refl
  | inr (before, inside) ↦ rw inside refl
]

pub memory-SqliteLaws : SqliteLaws memory (λ s. s)
unfolding rolled_back
memory-SqliteLaws = record {
  begin_answers = λ w count t start. rw start (inl (tt, refl, tt, refl));
  begin_nested =
      λ w count before t opened. rw opened (record { code = none; sql_state = none }, refl, refl);
  commit_answers = λ w count before t opened. rw opened (inl (tt, refl, tt, refl));
  rollback_restores = λ w. rollback-restores w;
  prepare_answers = λ statement w. inl (tt, refl, tt, refl);
  allocation_answers = λ namespace scope b w. inl (_, refl, refl, refl);
  state_answers = λ namespace scope w. inl (_, refl, refl, refl);
  insert_reference_answers = λ r w. inl (_, refl, refl, refl);
  reference_answers = λ reference namespace w. inl (_, refl, refl, refl);
  sequential_answers = λ namespace prefix scope n w. inl (_, refl, refl, refl);
  insert_sequence_runs = λ namespace scope prefix width w. inl (whole 1, refl, tt, refl);
  update_sequence_runs = λ namespace scope n w. inl (whole 1, refl, tt, refl);
  insert_allocation_runs = λ a w. inl (whole 1, refl, tt, refl);
}
