-- ===== src/QueryLang/Diag.antt =====
-- Source spans, structured diagnostics and limits (crates/logscope-query-lang/src/diag.rs and
-- limits.rs).
use log_scope.Prelude.{ℕ, String, Bool, true, false, Option, none, some, List, [], ◌∷◌, min, max}
use log_scope.Prelude.Int.{ℤ}
use log_scope.Text.{Text}

pub record Span : Type 0 where
  pub start : ℕ
  pub end : ℕ
  pub start_utf16 : ℕ
  pub end_utf16 : ℕ

-- `Span::merge`
unfoldable pub merge : Span → Span → Span
merge a b = record {
  start = min a.start b.start;
  end = max a.end b.end;
  start_utf16 = min a.start_utf16 b.start_utf16;
  end_utf16 = max a.end_utf16 b.end_utf16;
}

-- `Span::default`
abbrev pub default_span : Span
default_span = record { start = 0; end = 0; start_utf16 = 0; end_utf16 = 0 }

pub data DiagSeverity : Type 0 where
  error warning : DiagSeverity

-- A formatted message as its pieces: `format!` joins them. `join` is the texts with a separator.
pub data Piece : Type 0 where
  lit : String → Piece
  number : ℕ → Piece
  integer : ℤ → Piece
  char : ℕ → Piece
  text : Text → Piece
  join : String → List Text → Piece

abbrev pub Message : Type 0
Message = List Piece

pub record Diagnostic : Type 0 where
  pub code : String
  pub severity : DiagSeverity
  pub message : Message
  pub span : Span
  pub expected : Option String
  pub hint : Option Message

-- `Diagnostic::error`
abbrev pub diag_error : String → Message → Span → Diagnostic
diag_error c m s = record {
  code = c;
  severity = error;
  message = m;
  span = s;
  expected = none;
  hint = none;
}

-- `Diagnostic::warning`
abbrev pub diag_warning : String → Message → Span → Diagnostic
diag_warning c m s = record (diag_error c m s) { severity = warning }

abbrev pub with_expected : Diagnostic → String → Diagnostic
with_expected d e = record d { expected = some e }

abbrev pub with_hint : Diagnostic → String → Diagnostic
with_hint d h = record d { hint = some (lit h ∷ []) }

-- `with_hint` on a formatted text
abbrev pub with_hint_message : Diagnostic → Message → Diagnostic
with_hint_message d m = record d { hint = some m }

abbrev severity_is_error : DiagSeverity → Bool
severity_is_error error = true
severity_is_error warning = false

abbrev pub is_error : Diagnostic → Bool
is_error d = severity_is_error d.severity

pub record LangLimits : Type 0 where
  pub max_text_bytes : ℕ
  pub max_tokens : ℕ
  pub max_depth : ℕ
  pub max_clauses : ℕ
  pub max_wildcard_chars : ℕ
  pub max_regex_chars : ℕ
  pub max_regex_compiled_bytes : ℕ

-- `LangLimits::default`
abbrev pub default_limits : LangLimits
default_limits = record {
  max_text_bytes = 4096;
  max_tokens = 512;
  max_depth = 32;
  max_clauses = 128;
  max_wildcard_chars = 128;
  max_regex_chars = 512;
  max_regex_compiled_bytes = 262144;
}
