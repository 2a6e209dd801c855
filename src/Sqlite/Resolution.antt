-- ===== src/Sqlite/Resolution.antt =====
-- The lookup of a reference whose number was allocated (sqlite.ts).
use mathlib.Core.Path.{subst}
use identifold.Errors.{fail, ok-injective, allocation_conflict, invalid_allocation_policy, ok}
use identifold.Prelude.{
  ℕ, ◌≡◌, refl, sym, ap, ◌∙◌, ◌↔◌, ◌⊎◌, inl, inr, Bool, true, ◌&&◌, Option, none, some, List, [],
  leb, ==_iff, &&-eq-true, Text, text_eq, text_eq_iff, to_lower,
}
use identifold.Reference.Decimal.{pos}
use identifold.Reference.Format.{format_sequential_reference}
use identifold.Registry.{
  get_by_public_prefix, or_else, RegisteredSequentialReferenceDefinition,
  RegisteredNamespaceDefinition, NamespaceRegistry, sequence,
}
use identifold.Registry.WellFormed.{IsWellFormed}
use identifold.Service.Create.Defs.{SequenceAllocationRequest}
use identifold.Service.Identify.{has_uuid_shape}
use identifold.Sqlite.{scope_or_empty, sqlite_allocate, sqlite_lookup, SqliteDatabase}
use identifold.Sqlite.Laws.{SqliteLaws}
use identifold.Sqlite.Lookup.{lookup_spec, sqlite_lookup_refines}
use identifold.Sqlite.Safety.{sqlite_allocate-Safe}
use identifold.Sqlite.Safety.Branches.{guard-cases, Safe}
use identifold.Sqlite.Sound.{IsSound}
use identifold.Sqlite.Sound.Find.{find-eq-some, find-Memᴰ, find-of_Memᴰ}
use identifold.Sqlite.Specification.{matches, allocate_in, allocate_spec}
use identifold.Sqlite.Tables.{
  closed, rolled_back, AfterFailure, is_allocation_of, find_allocation, find_reference, is_numbered,
  find_numbered, Allocation, Tables, Session,
}
use identifold.Storage.Bytes.{machine_id_to_bytes, bytes_to_machine_id}
use identifold.Storage.Bytes.RoundTrip.{bytes_to_machine_id-machine_id_to_bytes}
use identifold.Storage.Sequential.{parse_sequential_parts}
use identifold.Storage.Sequential.RoundTrip.{parse_sequential_parts-format_sequential_reference}
use identifold.Storage.Values.{Value}

is_allocation_of-true :
    (namespace scope : Text) (b : List ℕ) (a : Allocation)
    → is_allocation_of namespace scope b a ≡ true
    → (a.namespace ≡ namespace) × (a.scope ≡ scope) × (a.machine_id ≡ b)
is_allocation_of-true namespace scope b a h =
    let (key, m) = &&-eq-true (text_eq a.namespace namespace && text_eq a.scope scope) _ h in
    let (n, c) = &&-eq-true (text_eq a.namespace namespace) _ key in
    (
      (text_eq_iff a.namespace namespace).0 n,
      (text_eq_iff a.scope scope).0 c,
      (text_eq_iff a.machine_id b).0 m,
    )

is_numbered_iff :
    (namespace prefix scope : Text) (n : ℕ) (a : Allocation)
    → (is_numbered namespace prefix scope n a ≡ true)
      ↔ ((a.namespace ≡ namespace) × (a.prefix ≡ prefix) × (a.scope ≡ scope) × (a.sequence ≡ n))
is_numbered_iff namespace prefix scope n a = (
  λ h.
      let (h1, rest) = &&-eq-true (text_eq a.namespace namespace) _ h in
      let (h2, rest2) = &&-eq-true (text_eq a.prefix prefix) _ rest in
      let (h3, h4) = &&-eq-true (text_eq a.scope scope) _ rest2 in
      (
        (text_eq_iff a.namespace namespace).0 h1,
        (text_eq_iff a.prefix prefix).0 h2,
        (text_eq_iff a.scope scope).0 h3,
        (==_iff a.sequence n).0 h4,
      ),
  λ (h1, h2, h3, h4).
      rw
        (
          (text_eq_iff a.namespace namespace).1 h1,
          (text_eq_iff a.prefix prefix).1 h2,
          (text_eq_iff a.scope scope).1 h3,
        )
        ((==_iff a.sequence n).1 h4),
)

-- The allocation of a request whose number the specification gives again has the prefix of the request.
allocated_prefix :
    (request : SequenceAllocationRequest) (b : List ℕ) (a : Allocation) (t : Tables) (n : ℕ)
    → machine_id_to_bytes request.machine_id ≡ ok b
    → find_allocation t request.namespace (scope_or_empty request.scope) b ≡ some a
    → allocate_spec request t ≡ ok (n, t)
    → a.prefix ≡ request.reference_prefix
unfolding allocate_spec allocate_in
allocated_prefix request b a t n has_bytes found again =
    let (inside, rest) =
      guard-cases (leb 4 request.width && leb request.width 18) invalid_allocation_policy _ again in
    let (same_policy, _) =
      guard-cases (matches request a.prefix a.width) _ _ (rw (has_bytes, found) at rest) in
    let (same_prefix, _) = &&-eq-true (text_eq a.prefix request.reference_prefix) _ same_policy in
    (text_eq_iff a.prefix request.reference_prefix).0 same_prefix

module _ (request : SequenceAllocationRequest) (b : List ℕ) (n : ℕ) (t : Tables)
    (safe : Safe request b n t) (has_bytes : machine_id_to_bytes request.machine_id ≡ ok b) where
  -- The row of the number is that of the machine identifier.
  find_numbered-Safe :
      (a : Allocation) × (find_numbered t request.namespace request.reference_prefix
          (scope_or_empty request.scope)
          n
        ≡ some a)
      × (a.machine_id ≡ b)
      × (a.namespace ≡ request.namespace)
  find_numbered-Safe =
      let (sound, _, _, held, again) = safe in
      let (a, found, is_n) = held in
      let scope : Text = scope_or_empty request.scope in
      let test : Allocation → Bool =
        is_numbered request.namespace request.reference_prefix scope n in
      let (n_eq, c_eq, b_eq) =
        is_allocation_of-true request.namespace scope b a
          (find-eq-some (is_allocation_of request.namespace scope b) t.allocations found) in
      let p_eq = allocated_prefix request b a t n has_bytes found again in
      let a_mem = find-Memᴰ (is_allocation_of request.namespace scope b) t.allocations found in
      let passes =
        (is_numbered_iff request.namespace request.reference_prefix scope n a).1
          (n_eq, p_eq, c_eq, is_n) in
      let (a', found') = find-of_Memᴰ test t.allocations a_mem passes in
      let (n_eq', _, c_eq', is_n') =
        (is_numbered_iff request.namespace request.reference_prefix scope n a').0
          (find-eq-some test t.allocations found') in
      let same_row : a' ≡ a =
        sound.distinct a' a (find-Memᴰ test t.allocations found') a_mem
          (n_eq' ∙ sym n_eq, c_eq' ∙ sym c_eq, is_n' ∙ sym is_n) in
      (a', found', ap (λ (x : Allocation). x.machine_id) same_row ∙ b_eq, n_eq')

  -- So is what the lookup of a text finds that has these parts and no row of its own.
  lookup_spec-Safe :
      (reference : Text)
      → has_uuid_shape request.machine_id ≡ true
      → to_lower request.machine_id ≡ request.machine_id
      → find_reference t reference request.namespace ≡ none
      → parse_sequential_parts reference
        ≡ some (record {
          prefix = request.reference_prefix;
          scope = scope_or_empty request.scope;
          sequence = n;
        })
      → lookup_spec t reference request.namespace
        ≡ ok (some (record { machine_id = request.machine_id; namespace = request.namespace }))
  unfolding lookup_spec
  lookup_spec-Safe reference shape lower unlisted parts =
      let (a, found, is_b, is_namespace) = find_numbered-Safe in
      let (b', has_bytes', _, back) =
        bytes_to_machine_id-machine_id_to_bytes request.machine_id shape lower in
      let same_bytes : b' ≡ b = ok-injective (sym has_bytes' ∙ has_bytes) in
      let back' : bytes_to_machine_id (some (Value.bytes b)) ≡ ok request.machine_id =
        rw⁻¹ same_bytes back in
      rw (unlisted, parts, found, is_b, is_namespace, back') refl

scope_or_empty-or_else : (scope : Option Text) → or_else scope [] ≡ scope_or_empty scope
scope_or_empty-or_else none = refl
scope_or_empty-or_else (some scope) = refl

module _ {W : Type 0} (database : SqliteDatabase W) (view : W → Session)
    (laws : SqliteLaws database view) (registry : NamespaceRegistry)
    (request : SequenceAllocationRequest) where
  -- In a well-formed registry, when an allocation for a machine identifier in canonical form has
  -- returned a natural number, on sound tables and for the prefix that the namespace is registered
  -- with, then the lookup of the reference that `formatSequentialReference` writes for the number
  -- answers with that machine identifier and the namespace, and changes no table. It is assumed that
  -- no random reference of the namespace is stored under the same text. Only if
  -- a call of the database fails during the lookup, which its session counts, may the lookup fail
  -- with `allocation_conflict` instead, and the tables, without what a rollback undoes, are then the
  -- same.
  pub sqlite_lookup_allocated :
      (d : RegisteredNamespaceDefinition) (r : RegisteredSequentialReferenceDefinition) (n : ℕ)
      (reference : Text) (count : ℕ) (t : Tables) (w w' v : W)
      → IsWellFormed registry
      → get_by_public_prefix registry request.namespace ≡ some d
      → d.reference ≡ some (sequence r)
      → request.reference_prefix ≡ r.prefix
      → has_uuid_shape request.machine_id ≡ true
      → to_lower request.machine_id ≡ request.machine_id
      → IsSound t
      → view w ≡ closed count t
      → sqlite_allocate database request w ≡ (ok (pos n), w')
      → format_sequential_reference registry request.namespace (pos n) request.scope ≡ ok reference
      → find_reference (view w').tables reference request.namespace ≡ none
      → view v ≡ view w'
      → (((sqlite_lookup database reference request.namespace v).0
            ≡ ok (some (record { machine_id = request.machine_id; namespace = request.namespace })))
          × (view (sqlite_lookup database reference request.namespace v).1 ≡ view w'))
        ⊎ (((sqlite_lookup database reference request.namespace v).0 ≡ fail allocation_conflict)
            × AfterFailure
                (view w')
                (rolled_back (view (sqlite_lookup database reference request.namespace v).1)))
  sqlite_lookup_allocated d r n reference count t w w' v well found has same_prefix shape lower
        sound start allocated written unlisted later =
      let (n', t', b, n_is, now, has_bytes, safe) =
        sqlite_allocate-Safe database view laws request count t (pos n) w w' start sound
          allocated in
      let same_number : n' ≡ n = cc n_is in
      let (d', r', found', has', parts) =
        parse_sequential_parts-format_sequential_reference registry request.namespace n
          request.scope reference well written in
      let same_definition : d' ≡ d = cc (found, found') in
      let has_too : d.reference ≡ some (sequence r') = rw same_definition at has' in
      let same_profile : r' ≡ r = cc (has, has_too) in
      let prefix_eq : r'.prefix ≡ request.reference_prefix =
        ap (λ (x : RegisteredSequentialReferenceDefinition). x.prefix) same_profile
        ∙ sym same_prefix in
      let spec =
        lookup_spec-Safe request b n t' (subst (λ m. Safe request b m t') same_number safe)
          has_bytes reference shape lower
          (subst (λ (s : Session). find_reference s.tables reference request.namespace ≡ none) now
            unlisted)
          (parts ∙ rw (prefix_eq, scope_or_empty-or_else request.scope) refl) in
      elim (sqlite_lookup_refines database view laws count t' reference request.namespace v
        (later ∙ now)) [
          | inl (is, unchanged) ↦ inl (is ∙ spec, unchanged ∙ sym now)
          | inr (conflict, failed) ↦ inr (
            conflict,
            subst
                (λ s.
                  AfterFailure s
                    (rolled_back (view (sqlite_lookup database reference request.namespace v).1)))
                (sym now) failed,
          )
        ]
