-- ===== src/QueryLang/Resolve/Engine.antt =====
-- What the resolver takes from other libraries: floating-point numbers, dates (chrono), regexes
-- (regex), JSON (serde_json) and BLAKE3; and what it builds on them directly
-- (crates/logscope-query-lang/src/resolve.rs).
use log_scope.Prelude.{ℕ, Bool, true, false, Option, none, some}
use log_scope.Prelude.Int.{ℤ}
use log_scope.Text.{Text, codes}
use log_scope.Bytes.{Bytes}
use log_scope.Model.Digest.{str, u32, stable_id}
use log_scope.QueryLang.Diag.{Message}
use log_scope.QueryLang.Resolve.Typed.{ResolvedExpr, language_version}

pub data RegexError : Type 0 where
  compiled_too_big : RegexError
  other : Message → RegexError

-- A date parser gives `none` for a text that it refuses, and else the nanoseconds of the date, if
-- they fit an `i64`.
pub record Engine (F : Type 0) : Type 0 where
  pub parse_f64 : Text → Option F
  pub is_finite : F → Bool
  pub parse_rfc3339 : Text → Option (Option ℤ)
  pub parse_date : Text → Option (Option ℤ)
  pub compile : (pattern : Text) (case_insensitive : Bool) (size_limit : ℕ) → Option RegexError
  pub to_json : Option (ResolvedExpr F) → Text
  pub blake3_hex : Bytes → Text

abbrev pub or_else : {A : Type 0} → Option A → A → A
or_else none b = b
or_else (some a) b = a

abbrev pub if_finite : {A : Type 0} → (A → Bool) → Option A → Option A
if_finite is_finite none = none
if_finite is_finite (some d) = elim (is_finite d) [ true ↦ some d | false ↦ none ]

module _ {F : Type 0} (x : Engine F) where
  unfoldable pub parse_timestamp_nanos : Text → Option ℤ
  parse_timestamp_nanos t = or_else (x.parse_rfc3339 t) (or_else (x.parse_date t) none)

  -- `text.parse::<f64>()` that gave a finite number.
  unfoldable pub parse_finite : Text → Option F
  parse_finite t = if_finite x.is_finite (x.parse_f64 t)

  -- `canonical_json`
  unfoldable pub canonical_json : Option (ResolvedExpr F) → Text
  canonical_json e = x.to_json e

  unfoldable pub fingerprint : Option (ResolvedExpr F) → Text
  unfolding canonical_json
  fingerprint e =
      stable_id x.blake3_hex (codes "qry")
        (λ d. str (u32 (str d (codes "query.v1")) language_version) (canonical_json e))
