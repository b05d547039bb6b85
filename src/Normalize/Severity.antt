-- ===== src/Normalize/Severity.antt =====
-- The mapping of severity texts (crates/logscope-normalize/src/severity.rs).
pub mod Bands
pub mod Names
use log_scope.Prelude.{
  ℕ, ◌^◌, String, ◌&&◌, List, [], ◌∷◌, map, Option, none, some, leb, if◌then◌else◌,
}
use log_scope.Prelude.Int.{ℤ, pos, negsuc}
use log_scope.Text.{Text}
use log_scope.QueryLang.Resolve.Fields.{is_one_of}
use log_scope.QueryLang.Resolve.Levels.{to_ascii_uppercase}
use log_scope.QueryLang.Resolve.Literals.{parse_signed}
use log_scope.Normalize.Epoch.{trim}

-- The arms of the match, with the OTLP numbers of their levels.
abbrev pub severity_names : List (ℕ × List String)
severity_names =
    (1, "TRACE" ∷ "VERBOSE" ∷ "FINEST" ∷ [])
    ∷ (2, "FINER" ∷ [])
    ∷ (5, "DEBUG" ∷ "FINE" ∷ "DBG" ∷ [])
    ∷ (7, "CONFIG" ∷ [])
    ∷ (9, "INFO" ∷ "INFORMATION" ∷ "INFORMATIONAL" ∷ [])
    ∷ (10, "NOTICE" ∷ [])
    ∷ (13, "WARN" ∷ "WARNING" ∷ [])
    ∷ (17, "ERROR" ∷ "ERR" ∷ "SEVERE" ∷ [])
    ∷ (21, "FATAL" ∷ "CRITICAL" ∷ "CRIT" ∷ [])
    ∷ (22, "ALERT" ∷ [])
    ∷ (23, "EMERGENCY" ∷ "EMERG" ∷ "PANIC" ∷ [])
    ∷ []

-- The first arm that has the text.
unfoldable pub first_arm : Text → List (ℕ × List String) → Option ℕ
first_arm upper [] = none
first_arm upper ((n, names) ∷ arms) =
    let rest = first_arm upper arms in if is_one_of upper names then some n else rest

-- A token with what `parse::<i32>` makes of it.
unfoldable pub map_token : Text → Option ℤ → Option ℕ
unfolding first_arm
map_token token (some (pos n)) = if leb 1 n && leb n 24 then some n else none
map_token token (some (negsuc n)) = none
map_token token none = first_arm (map to_ascii_uppercase token) severity_names

abbrev pub map_trimmed : Text → Option ℕ
map_trimmed [] = none
map_trimmed (c ∷ cs) = map_token (c ∷ cs) (parse_signed (2 ^ 31) (c ∷ cs))

unfoldable pub map_severity_text : Text → Option ℕ
unfolding map_token trim
map_severity_text text = map_trimmed (trim text)
