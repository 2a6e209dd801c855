-- ===== src/Tests/Symbols.antt =====
-- Check symbols of concrete payloads.
use identifold.Errors.{ok}
use identifold.Prelude.{◌%◌, ◌≡◌, refl, ◌≢◌, codes}
use identifold.Reference.CheckSymbol.{
  data_value, check_symbol_at, calculate_reference_check_symbol, calculate_sequential_check_symbol,
}
use identifold.Reference.CheckSymbol.Detection.{reference_detection, sequential_detection}
use identifold.Reference.CheckSymbol.Positional.{positional}
use identifold.Reference.CheckSymbol.Value.{
  symbol_value, digit_value, calculate_reference_check_symbol_lem,
  calculate_sequential_check_symbol_lem,
}

reference_detection_example :
    (calculate_reference_check_symbol (codes "0A3")
      ≢ calculate_reference_check_symbol (codes "023"))
    × (calculate_reference_check_symbol (codes "0A23")
        ≢ calculate_reference_check_symbol (codes "02A3"))
unfolding data_value
reference_detection_example = reference_detection (codes "0") (codes "3") b'A' b'2' refl refl cc

sequential_detection_example :
    (calculate_sequential_check_symbol (codes "018")
      ≢ calculate_sequential_check_symbol (codes "048"))
    × (calculate_sequential_check_symbol (codes "0148")
        ≢ calculate_sequential_check_symbol (codes "0418"))
sequential_detection_example = sequential_detection (codes "0") (codes "8") b'1' b'4' refl refl cc

calculate_reference_check_symbol_lem_example :
    calculate_reference_check_symbol (codes "0A23")
    ≡ ok (check_symbol_at (positional 32 symbol_value (codes "0A23") 0 % 37))
unfolding data_value
calculate_reference_check_symbol_lem_example =
    calculate_reference_check_symbol_lem (codes "0A23") (λ e. cc e) refl

calculate_sequential_check_symbol_lem_example :
    calculate_sequential_check_symbol (codes "0418")
    ≡ ok (check_symbol_at (positional 10 digit_value (codes "0418") 0 % 37))
calculate_sequential_check_symbol_lem_example =
    calculate_sequential_check_symbol_lem (codes "0418") (λ e. cc e) refl
