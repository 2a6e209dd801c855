-- ===== src/Sqlite/Specification.antt =====
-- What an allocation of sqlite.ts promises, without transactions, texts and failures: a number and
-- the new tables, or an error.
use identifold.Errors.{
  fail, ◌>>=◌, guard, ◌>>◌, Result, invalid_allocation_policy, sequence_overflow, ok,
}
use identifold.Prelude.{
  ℕ, ◌+◌, ◌-◌, ◌^◌, Bool, not, ◌&&◌, Option, none, some, List, leb, ◌==◌, Text, text_eq,
}
use identifold.Service.Create.Defs.{SequenceAllocationRequest}
use identifold.Sqlite.{scope_or_empty}
use identifold.Sqlite.Tables.{
  find_sequence, find_allocation, ensure_sequence, set_last_value, add_allocation, Sequence,
  Allocation, Tables,
}
use identifold.Storage.Bytes.{machine_id_to_bytes}

abbrev pub matches : SequenceAllocationRequest → Text → ℕ → Bool
matches request prefix width = text_eq prefix request.reference_prefix && width == request.width

unfoldable pub new_allocation : SequenceAllocationRequest → Text → List ℕ → ℕ → Allocation
new_allocation request scope b n = record {
  namespace = request.namespace;
  scope = scope;
  sequence = n;
  machine_id = b;
  prefix = request.reference_prefix;
  width = request.width;
}

unfoldable pub next_allocation :
    SequenceAllocationRequest → Text → List ℕ → Tables → Option Sequence → Result (ℕ × Tables)
next_allocation request scope b t none = fail invalid_allocation_policy
next_allocation request scope b t (some s) = do
  guard (matches request s.prefix s.width) invalid_allocation_policy
  guard (not (leb (10 ^ request.width - 1) s.last_value)) sequence_overflow
  let n = s.last_value + 1
  ok (
    n,
    add_allocation (new_allocation request scope b n) (set_last_value request.namespace scope n t),
  )

unfoldable pub with_sequence : SequenceAllocationRequest → Text → Tables → Tables
with_sequence request scope t =
    ensure_sequence request.namespace scope request.reference_prefix request.width t

unfoldable pub allocate_in :
    SequenceAllocationRequest → Text → List ℕ → Tables → Option Allocation → Result (ℕ × Tables)
allocate_in request scope b t (some a) = do
  guard (matches request a.prefix a.width) invalid_allocation_policy
  ok (a.sequence, t)
allocate_in request scope b t none =
    let t1 = with_sequence request scope t in
    next_allocation request scope b t1 (find_sequence t1 request.namespace scope)

unfoldable pub allocate_spec : SequenceAllocationRequest → Tables → Result (ℕ × Tables)
allocate_spec request t = do
  let scope = scope_or_empty request.scope
  guard (leb 4 request.width && leb request.width 18) invalid_allocation_policy
  b ← machine_id_to_bytes request.machine_id
  allocate_in request scope b t (find_allocation t request.namespace scope b)
