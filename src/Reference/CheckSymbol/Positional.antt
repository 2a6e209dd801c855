-- ===== src/Reference/CheckSymbol/Positional.antt =====
-- A payload as a number, for the remainders modulo 37 of reference.ts.
use identifold.Prelude.{ℕ, ◌+◌, ◌*◌, ◌%◌, ◌≡◌, refl, [], ◌∷◌, ◌++◌, arith, Text}

-- A payload read as a number, behind the number `n` that stands before it.
abbrev pub positional : ℕ → (ℕ → ℕ) → Text → ℕ → ℕ
positional base value [] n = n
positional base value (c ∷ s) n = positional base value s (n * base + value c)

-- The facts on one digit from which those on a payload follow.
module _ (base : ℕ) (value : ℕ → ℕ)
    (cong : (m n v : ℕ) → m % 37 ≡ n % 37 → (m * base + v) % 37 ≡ (n * base + v) % 37)
    (step : (m n v : ℕ) → (m * base + v) % 37 ≡ (n * base + v) % 37 → m % 37 ≡ n % 37) where
  positional-append :
      (p s : Text) (n : ℕ)
      → positional base value (p ++ s) n ≡ positional base value s (positional base value p n)
  positional-append [] s n = refl
  positional-append (c ∷ p) s n = positional-append p s (n * base + value c)

  pub positional_mod :
      (s : Text) (m n : ℕ)
      → m % 37 ≡ n % 37
      → positional base value s m % 37 ≡ positional base value s n % 37
  positional_mod [] m n h = h
  positional_mod (c ∷ s) m n h =
      positional_mod s (m * base + value c) (n * base + value c) (cong m n (value c) h)

  positional_mod_injective :
      (s : Text) (m n : ℕ)
      → positional base value s m % 37 ≡ positional base value s n % 37
      → m % 37 ≡ n % 37
  positional_mod_injective [] m n h = h
  positional_mod_injective (c ∷ s) m n h =
      step m n (value c) (positional_mod_injective s (m * base + value c) (n * base + value c) h)

  -- What stands before and behind a difference does not hide it.
  pub positional_middle :
      (p x y s : Text) (n : ℕ)
      → positional base value (p ++ (x ++ s)) n % 37 ≡ positional base value (p ++ (y ++ s)) n % 37
      → positional base value x (positional base value p n) % 37
        ≡ positional base value y (positional base value p n) % 37
  positional_middle p x y s n h = positional_mod_injective s _ _ (
      rw
        (
          positional-append p (x ++ s) n,
          positional-append p (y ++ s) n,
          positional-append x s,
          positional-append y s,
        )
        at h)

pub cong32 : (m n v : ℕ) → m % 37 ≡ n % 37 → (m * 32 + v) % 37 ≡ (n * 32 + v) % 37
cong32 m n v h = omega arith

pub step32 : (m n v : ℕ) → (m * 32 + v) % 37 ≡ (n * 32 + v) % 37 → m % 37 ≡ n % 37
step32 m n v h = omega arith

pub cong10 : (m n v : ℕ) → m % 37 ≡ n % 37 → (m * 10 + v) % 37 ≡ (n * 10 + v) % 37
cong10 m n v h = omega arith

pub step10 : (m n v : ℕ) → (m * 10 + v) % 37 ≡ (n * 10 + v) % 37 → m % 37 ≡ n % 37
step10 m n v h = omega arith
