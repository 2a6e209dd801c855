-- ===== src/Observability.antt =====
-- observability.ts: the fields of an identifier that are logged.
use identifold.Prelude.{ℕ, List, [], ◌∷◌, Text, codes}
use identifold.Reference.Parse.{Strategy, by_random, by_sequence}
use identifold.Service.Identify.{ParsedIdentifier, of_mid, of_pid, of_ref}

pub data LogValue : Type 0 where
  log_text : Text → LogValue
  log_number : ℕ → LogValue

abbrev strategy_name : Strategy → Text
strategy_name by_random = codes "random"
strategy_name by_sequence = codes "sequence"

unfoldable identifier_log_fields : ParsedIdentifier → List (Text × LogValue)
identifier_log_fields (of_mid machine_id) =
    (codes "identifier.kind", log_text (codes "mid"))
    ∷ (codes "identifier.uuid_version", log_number 7)
    ∷ []
identifier_log_fields (of_pid parsed) =
    (codes "identifier.kind", log_text (codes "pid"))
    ∷ (codes "identifier.namespace", log_text parsed.namespace)
    ∷ (codes "identifier.uuid_version", log_number 7)
    ∷ []
identifier_log_fields (of_ref parsed) =
    (codes "identifier.kind", log_text (codes "ref"))
    ∷ (codes "identifier.namespace", log_text parsed.namespace)
    ∷ (codes "identifier.reference_strategy", log_text (strategy_name parsed.strategy))
    ∷ []
