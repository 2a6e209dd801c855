-- ===== src/Mysql/Retry.antt =====
-- The retries of an allocation (mysql.ts).
use identifold.Errors.{Thrown, Result, ok, err}
use identifold.Mysql.{
  map_mysql_error, is_transient, MySqlQuery, or_again, allocation_attempt, allocation_loop,
  mysql_allocate,
}
use identifold.Prelude.{
  ℕ, zero, suc, ◌+◌, ◌-◌, ◌≤◌, ◌<◌, ◌≡◌, refl, ap, ◌∙◌, ◌⊎◌, inl, inr, true, false, ◌&&◌, arith,
  ltb, Bool-cases, &&-eq-true,
}
use identifold.Reference.Decimal.{ℤ}
use identifold.Service.Create.Defs.{SequenceAllocationRequest}

pair_cases :
    {A W : Type 0} (p : Result A × W)
    → ((a : A) × (w : W) × (p ≡ (ok a, w))) ⊎ ((e : Thrown) × (w : W) × (p ≡ (err e, w)))
pair_cases (ok a, w) = inl (a, w, refl)
pair_cases (err e, w) = inr (e, w, refl)

module _ {W : Type 0} (query : MySqlQuery W) (wait : ℕ → W → W)
    (request : SequenceAllocationRequest) where
  -- From the attempt `k` on the world `w`, tries that failed for a passing reason and were repeated
  -- have led to the attempt `l` on the world `v`.
  pub data Retries (k : ℕ) (w : W) : ℕ → W → Type 0 where
    none_yet : Retries k w k w
    once_more :
        {l : ℕ} {v u : W} (e : Thrown)
        → Retries k w l v
        → allocation_attempt query request v ≡ (err e, u)
        → is_transient e ≡ true
        → Retries k w (suc l) (wait l u)

  -- One round of the loop, by the outcome of its attempt.
  loop_ok :
      (n k : ℕ) (v u : W) (allocated : ℤ)
      → allocation_attempt query request v ≡ (ok allocated, u)
      → allocation_loop query wait request (suc n) k v ≡ (ok allocated, u)
  unfolding allocation_loop
  loop_ok n k v u allocated h = rw h

  loop_again :
      (n k : ℕ) (v u : W) (e : Thrown)
      → allocation_attempt query request v ≡ (err e, u)
      → k < 4
      → is_transient e ≡ true
      → allocation_loop query wait request (suc n) k v
        ≡ allocation_loop query wait request n (suc k) (wait k u)
  unfolding allocation_loop
  loop_again n k v u e h early passing =
      let tests : (ltb k 4 && is_transient e) ≡ true = ground arith in rw (h, or_again, tests)

  loop_end :
      (n k : ℕ) (v u : W) (e : Thrown)
      → allocation_attempt query request v ≡ (err e, u)
      → (ltb k 4 && is_transient e) ≡ false
      → allocation_loop query wait request (suc n) k v ≡ (err (map_mysql_error e), u)
  unfolding allocation_loop
  loop_end n k v u e h tests = rw (h, or_again, tests)

  -- The last attempt of a run of the loop, and what it made of it.
  abbrev Ends : ℕ → W → Result ℤ → W → Type 0
  Ends l v r w' =
      ((allocated : ℤ) × (allocation_attempt query request v ≡ (ok allocated, w'))
        × (r ≡ ok allocated))
      ⊎ ((e : Thrown) × (allocation_attempt query request v ≡ (err e, w'))
          × (r ≡ err (map_mysql_error e))
          × ((l ≡ 4) ⊎ (is_transient e ≡ false)))

  why_ended :
      (k : ℕ) (e : Thrown)
      → k ≤ 4
      → (ltb k 4 && is_transient e) ≡ false
      → (k ≡ 4) ⊎ (is_transient e ≡ false)
  why_ended k e late h = elim (Bool-cases (is_transient e)) [
    | inl passing ↦ inl (ground arith)
    | inr lasting ↦ inr lasting
  ]

  -- After at most four repetitions an attempt came to this end.
  abbrev pub Outcome : W → Result ℤ × W → Type 0
  Outcome w p = (l : ℕ) × (v : W) × (l ≤ 4) × Retries 0 w l v × Ends l v p.0 p.1

  round-Outcome :
      (n k : ℕ) (w v : W)
      → k ≤ 4
      → Retries 0 w k v
      → ((u : W)
          → k < 4
          → Retries 0 w (suc k) (wait k u)
          → Outcome w (allocation_loop query wait request n (suc k) (wait k u)))
      → Outcome w (allocation_loop query wait request (suc n) k v)
  round-Outcome n k w v low so_far next = elim (pair_cases (allocation_attempt query request v)) [
    | inl (allocated, u, h) ↦
        rw (loop_ok n k v u allocated h) (k, v, low, so_far, inl (allocated, h, refl))
    | inr (e, u, h) ↦ elim (Bool-cases (ltb k 4 && is_transient e)) [
      | inr tests ↦
          rw (loop_end n k v u e h tests)
            (k, v, low, so_far, inr (e, h, refl, why_ended k e low tests))
      | inl tests ↦
          let (early, passing) = &&-eq-true (ltb k 4) _ tests in
          let below : k < 4 = ground arith in
          rw (loop_again n k v u e h below passing) (next u below (once_more e so_far h passing))
    ]
  ]

  loop-Outcome :
      (n k : ℕ) (w v : W)
      → k + n ≡ 4
      → Retries 0 w k v
      → Outcome w (allocation_loop query wait request (suc n) k v)
  loop-Outcome zero k w v rounds so_far =
      round-Outcome zero k w v (omega arith) so_far (λ u below more. absurd (omega arith))
  loop-Outcome (suc n) k w v rounds so_far =
      round-Outcome (suc n) k w v (omega arith) so_far
        (λ u below more. loop-Outcome n (suc k) w (wait k u) (omega arith) more)

  -- An allocation ends after at most five attempts, each of which but the last failed for a passing
  -- reason. Its result is that of the last attempt: the number, or the error that stands for what
  -- was thrown, which was the fifth time or no passing reason.
  pub mysql_allocate-Outcome : (w : W) → Outcome w (mysql_allocate query wait request w)
  unfolding mysql_allocate
  mysql_allocate-Outcome w = loop-Outcome 4 0 w w refl none_yet

  -- The loop goes on where the repetitions have led.
  loop_after :
      {w : W} {l : ℕ} {v : W}
      → Retries 0 w l v
      → l ≤ 4
      → allocation_loop query wait request 5 0 w
        ≡ allocation_loop query wait request (suc (4 - l)) l v
  loop_after none_yet low = refl
  loop_after (once_more {l} {v} {u} e retries h passing) low =
      let left : 4 - l ≡ suc (4 - suc l) = omega arith in
      loop_after retries (omega arith)
      ∙ loop_again (4 - l) l v u e h (omega arith) passing
      ∙ ap (λ i. allocation_loop query wait request i (suc l) (wait l u)) left

  -- Attempts that fail for a passing reason, at most four of them, do no harm: when the next one
  -- returns a number, the allocation returns it.
  pub mysql_allocate_recovers :
      (l : ℕ) (w v u : W) (allocated : ℤ)
      → Retries 0 w l v
      → l ≤ 4
      → allocation_attempt query request v ≡ (ok allocated, u)
      → mysql_allocate query wait request w ≡ (ok allocated, u)
  unfolding mysql_allocate
  mysql_allocate_recovers l w v u allocated retries low h =
      loop_after retries low ∙ loop_ok (4 - l) l v u allocated h
