-- ===== src/Storage/Values.antt =====
-- What the storage adapters see of the values of type `unknown` that a database client returns or
-- takes, and what they do with an error that they catch.
use identifold.Errors.{Code, Thrown, Result, identifold_error, boundary_error, foreign, ok, err}
use identifold.Prelude.{
  ℕ, ◌≡◌, Bool, Option, none, some, List, [], ◌∷◌, map_get, if◌then◌else◌, Text,
}
use identifold.Reference.Decimal.{ℤ, pos, negsuc}
use identifold.Reference.Decimal.Laws.{decimal_value}
use identifold.Reference.Parse.{is_all_digits}
use identifold.Registry.{is_safe_integer, Number, whole, negative, not_integer}

-- A value by its type. `other` is any that the adapters test for nothing: an object, an array.
pub data Value : Type 0 where
  null other : Value
  boolean : Bool → Value
  number : Number → Value
  bigint : ℤ → Value
  text : Text → Value
  bytes : List ℕ → Value

-- An object with its own properties. A property that is absent is `undefined`.
abbrev pub Row : Type 0
Row = List (Text × Value)

abbrev pub property : Row → Text → Option Value
property row name = map_get row name

abbrev pub as_text : Option Value → Option Text
as_text (some (text t)) = some t
as_text (some null) = none
as_text (some other) = none
as_text (some (boolean b)) = none
as_text (some (number n)) = none
as_text (some (bigint n)) = none
as_text (some (bytes b)) = none
as_text none = none

-- `rows[0]?.name`
abbrev pub first_property : List Row → Text → Option Value
first_property [] name = none
first_property (row ∷ rows) name = property row name

-- `BigInt` of a number that is an integer.
abbrev integer_of : Number → Option ℤ
integer_of (whole n) = some (pos n)
integer_of (negative n) = some (negsuc n)
integer_of not_integer = none

-- A sequence number as a client may return it: a `bigint`, a safe integer, or a text of digits.
unfoldable pub sequence_number : Option Value → Option ℤ
sequence_number (some (Value.bigint n)) = some n
sequence_number (some (Value.number n)) = if is_safe_integer n then integer_of n else none
sequence_number (some (Value.text digits)) =
    if is_all_digits digits then some (pos (decimal_value digits)) else none
sequence_number _ = none

module _ {W : Type 0} where
  -- `try { … } catch (error) { throw map(error); }`
  abbrev pub rethrow : {A : Type 0} → (Thrown → Thrown) → Result A × W → Result A × W
  rethrow map_error (ok a, w) = (ok a, w)
  rethrow map_error (err e, w) = (err (map_error e), w)

-- What is thrown, if anything is, is an `IdentifoldError`.
abbrev pub ThrowsIdentifold : {A : Type 0} → Result A → Type 0
ThrowsIdentifold (ok a) = Unit
ThrowsIdentifold (err (identifold_error code)) = Unit
ThrowsIdentifold (err (boundary_error code)) = ⊥
ThrowsIdentifold (err (foreign e)) = ⊥

-- An adapter that maps whatever it catches to an `IdentifoldError` throws nothing else.
pub rethrow-ThrowsIdentifold :
    {W A : Type 0} (map_error : Thrown → Thrown)
    → ((e : Thrown) → (c : Code) × (map_error e ≡ identifold_error c))
    → (p : Result A × W) → ThrowsIdentifold (rethrow map_error p).0
rethrow-ThrowsIdentifold map_error known (ok a, w) = tt
rethrow-ThrowsIdentifold map_error known (err e, w) = let (c, is) = known e in rw is tt
