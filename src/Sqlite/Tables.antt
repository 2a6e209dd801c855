-- ===== src/Sqlite/Tables.antt =====
-- The tables of src/integrations/sqlite/migrations as far as an allocation (sqlite.ts) reads and
-- writes them, and what a session on them is.
use identifold.Prelude.{
  ℕ, ◌<◌, ◌≡◌, Bool, true, false, ◌&&◌, ◌||◌, Option, none, some, List, [], ◌∷◌, map, ◌==◌,
  if◌then◌else◌, Text, codes, text_eq,
}
use identifold.Reference.Decimal.{to_decimal}
use identifold.Registry.{whole}
use identifold.Sqlite.{Got, record_of, no_object}
use identifold.Storage.Values.{Row, Value}

pub record Sequence : Type 0 where
  pub namespace : Text
  pub scope : Text
  pub prefix : Text
  pub width : ℕ
  pub last_value : ℕ

pub record Allocation : Type 0 where
  pub namespace : Text
  pub scope : Text
  pub sequence : ℕ
  pub machine_id : List ℕ
  pub prefix : Text
  pub width : ℕ

pub record StoredReference : Type 0 where
  pub reference : Text
  pub namespace : Text
  pub machine_id : List ℕ

pub record Tables : Type 0 where
  pub references : List StoredReference
  pub sequences : List Sequence
  pub allocations : List Allocation

-- The tables as the connection sees them, and, in a transaction, as they were when it began. The
-- program does not see `failures`, the number of calls that have failed.
pub record Session : Type 0 where
  pub tables : Tables
  pub saved : Option Tables
  pub failures : ℕ

abbrev pub closed : ℕ → Tables → Session
closed count t = record { tables = t; saved = none; failures = count }

abbrev pub in_transaction : ℕ → Tables → Tables → Session
in_transaction count before t = record { tables = t; saved = some before; failures = count }

unfoldable pub rolled_back : Session → Session
rolled_back s = elim s.saved [ none ↦ s | some before ↦ closed s.failures before ]

abbrev pub with_tables : (Tables → Tables) → Session → Session
with_tables change s = record { tables = change s.tables; saved = s.saved; failures = s.failures }

-- The second session is the first with more failed calls.
abbrev pub AfterFailure : Session → Session → Type 0
AfterFailure s s' =
    (m : ℕ) × (s.failures < m) × (s' ≡ record { tables = s.tables; saved = s.saved; failures = m })

-- `find` returns the first element that passes a test.
unfoldable pub find {ℓ} : {A : Type ℓ} → (A → Bool) → List A → Option A
find test [] = none
find test (x ∷ xs) = if test x then some x else find test xs

-- The primary key of `identifold_sequences`.
abbrev pub is_sequence_of : Text → Text → Sequence → Bool
is_sequence_of namespace scope s = text_eq s.namespace namespace && text_eq s.scope scope

-- A row that the primary key or the other unique key keeps from being inserted.
abbrev pub clashes : Text → Text → Text → Sequence → Bool
clashes namespace scope prefix s =
    is_sequence_of namespace scope s || text_eq s.prefix prefix && text_eq s.scope scope

abbrev pub is_allocation_of : Text → Text → List ℕ → Allocation → Bool
is_allocation_of namespace scope b a =
    text_eq a.namespace namespace && text_eq a.scope scope && text_eq a.machine_id b

abbrev pub find_sequence : Tables → Text → Text → Option Sequence
find_sequence t namespace scope = find (is_sequence_of namespace scope) t.sequences

abbrev pub find_allocation : Tables → Text → Text → List ℕ → Option Allocation
find_allocation t namespace scope b = find (is_allocation_of namespace scope b) t.allocations

abbrev pub inserted : Text → Text → Text → ℕ → Tables → Tables
inserted namespace scope prefix width t = record {
  references = t.references;
  sequences =
      record {
        namespace = namespace;
        scope = scope;
        prefix = prefix;
        width = width;
        last_value = 0;
      }
      ∷ t.sequences;
  allocations = t.allocations;
}

-- `INSERT … ON CONFLICT DO NOTHING`
unfoldable pub ensure_sequence : Text → Text → Text → ℕ → Tables → Tables
ensure_sequence namespace scope prefix width t =
    elim (find (clashes namespace scope prefix) t.sequences) [
      | some s ↦ t
      | none ↦ inserted namespace scope prefix width t
    ]

abbrev pub updated : Text → Text → ℕ → Sequence → Sequence
updated namespace scope n s =
    if is_sequence_of namespace scope s
    then record {
      namespace = s.namespace;
      scope = s.scope;
      prefix = s.prefix;
      width = s.width;
      last_value = n;
    }
    else s

-- `UPDATE identifold_sequences SET last_value = …`
unfoldable pub set_last_value : Text → Text → ℕ → Tables → Tables
set_last_value namespace scope n t = record {
  references = t.references;
  sequences = map (updated namespace scope n) t.sequences;
  allocations = t.allocations;
}

unfoldable pub add_allocation : Allocation → Tables → Tables
add_allocation a t = record {
  references = t.references;
  sequences = t.sequences;
  allocations = a ∷ t.allocations;
}

-- `INSERT … ON CONFLICT(reference) DO NOTHING`, and the number of rows that it inserts.
abbrev pub has_reference : Tables → Text → Bool
has_reference t reference =
    elim (find (λ (r : StoredReference). text_eq r.reference reference) t.references) [
      | none ↦ false
      | some r ↦ true
    ]

unfoldable pub add_reference : StoredReference → Tables → Tables
add_reference r t = if has_reference t r.reference then t else record {
  references = r ∷ t.references;
  sequences = t.sequences;
  allocations = t.allocations;
}

-- The two queries of a lookup, and the row that they return.
abbrev is_reference_of : Text → Text → StoredReference → Bool
is_reference_of reference namespace r =
    text_eq r.reference reference && text_eq r.namespace namespace

abbrev pub find_reference : Tables → Text → Text → Option StoredReference
find_reference t reference namespace = find (is_reference_of reference namespace) t.references

abbrev pub is_numbered : Text → Text → Text → ℕ → Allocation → Bool
is_numbered namespace prefix scope n a =
    text_eq a.namespace namespace
    && (text_eq a.prefix prefix && (text_eq a.scope scope && a.sequence == n))

abbrev pub find_numbered : Tables → Text → Text → Text → ℕ → Option Allocation
find_numbered t namespace prefix scope n = find (is_numbered namespace prefix scope n) t.allocations

unfoldable pub mapping_row : List ℕ → Text → Row
mapping_row b namespace =
    (codes "machine_id", Value.bytes b) ∷ (codes "namespace", Value.text namespace) ∷ []

-- The rows that the two queries of an allocation return.
unfoldable pub allocation_row : Allocation → Row
allocation_row a =
    (codes "sequence", Value.text (to_decimal a.sequence))
    ∷ (codes "reference_prefix", Value.text a.prefix)
    ∷ (codes "width", Value.number (whole a.width))
    ∷ []

unfoldable pub state_row : Sequence → Row
state_row s =
    (codes "reference_prefix", Value.text s.prefix)
    ∷ (codes "width", Value.number (whole s.width))
    ∷ (codes "last_value", Value.text (to_decimal s.last_value))
    ∷ []

abbrev pub got_row {ℓ} : {A : Type ℓ} → (A → Row) → Option A → Got
got_row as_row none = no_object
got_row as_row (some a) = record_of (as_row a)
