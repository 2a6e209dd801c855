-- ===== src/Mysql/Throws.antt =====
-- What the MySQL adapter (mysql.ts) throws.
use identifold.Errors.{
  Code, Thrown, allocation_conflict, invalid_allocation_policy, sequence_overflow, identifold_error,
  boundary_error, foreign,
}
use identifold.Mysql.{
  has_state, map_mysql_error, MySqlQuery, mysql_reserve, mysql_allocate, mysql_lookup,
}
use identifold.Mysql.Retry.{mysql_allocate-Outcome}
use identifold.Prelude.{ℕ, ◌≡◌, refl, inl, inr, Bool-cases, Text, codes}
use identifold.Service.Create.Defs.{ReferenceReservation, SequenceAllocationRequest}
use identifold.Storage.Values.{ThrowsIdentifold, rethrow-ThrowsIdentifold}

map_mysql_error-code : (e : Thrown) → (c : Code) × (map_mysql_error e ≡ identifold_error c)
unfolding map_mysql_error
map_mysql_error-code (identifold_error c) = (c, refl)
map_mysql_error-code (boundary_error c) = (allocation_conflict, refl)
map_mysql_error-code (foreign e) = elim (Bool-cases (has_state e (codes "22003"))) [
  | inl overflow ↦ (sequence_overflow, rw overflow)
  | inr fine ↦ elim (Bool-cases (has_state e (codes "22023"))) [
    | inl policy ↦ (invalid_allocation_policy, rw (fine, policy))
    | inr unknown ↦ (allocation_conflict, rw (fine, unknown))
  ]
]

-- Whatever the client does, the store, the allocator and the lookup throw nothing but an
-- `IdentifoldError`.
pub mysql_throws :
    {W : Type 0} (query : MySqlQuery W) (wait : ℕ → W → W) (reservation : ReferenceReservation)
    (request : SequenceAllocationRequest) (reference namespace : Text) (w : W)
    → ThrowsIdentifold (mysql_reserve query reservation w).0
      × ThrowsIdentifold (mysql_allocate query wait request w).0
      × ThrowsIdentifold (mysql_lookup query reference namespace w).0
unfolding mysql_reserve mysql_lookup
mysql_throws query wait reservation request reference namespace w =
    let (l, v, _, _, ends) = mysql_allocate-Outcome query wait request w in
    (
      rethrow-ThrowsIdentifold map_mysql_error map_mysql_error-code _,
      elim ends [
        | inl (n, _, is) ↦ rw is tt
        | inr (e, _, is, _) ↦ let (c, code) = map_mysql_error-code e in rw (is, code) tt
      ],
      rethrow-ThrowsIdentifold map_mysql_error map_mysql_error-code _,
    )
