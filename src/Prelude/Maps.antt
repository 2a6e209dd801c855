-- ===== src/Prelude/Maps.antt =====
-- `Map<string, V>` as an association list in the order of insertion.
use mathlib.Core.Path.{◌≡◌, refl}
use mathlib.Core.Bool.{Bool, false, ◌||◌}
use mathlib.Core.List.{List, [], ◌∷◌, ◌++◌}
use mathlib.Core.Option.{Option, none, some}
use native.Mathlib.Omega.{arith}
use identifold.Prelude.Tests.{if◌then◌else◌}
use identifold.Prelude.Texts.{Text, text_eq}

module _ {ℓ} {V : Type ℓ} where
  -- `map.get(key)`; `none` stands for `undefined`.
  abbrev pub map_get : List (Text × V) → Text → Option V
  map_get [] key = none
  map_get ((k, v) ∷ entries) key = if text_eq k key then some v else map_get entries key

  -- `map.has(key)`
  abbrev pub map_has : List (Text × V) → Text → Bool
  map_has [] key = false
  map_has ((k, v) ∷ entries) key = text_eq k key || map_has entries key

  -- `map.set(key, value)`
  abbrev pub map_set : List (Text × V) → Text → V → List (Text × V)
  map_set [] key value = (key, value) ∷ []
  map_set ((k, v) ∷ entries) key value =
      if text_eq k key then (k, value) ∷ entries else (k, v) ∷ map_set entries key value

  -- A key that is not there is put at the end.
  pub map_set_new :
      (entries : List (Text × V)) (key : Text) (value : V)
      → map_has entries key ≡ false
      → map_set entries key value ≡ entries ++ (key, value) ∷ []
  map_set_new [] key value h = refl
  map_set_new ((k, v) ∷ entries) key value h = ground (arith, map_set_new entries key value)
