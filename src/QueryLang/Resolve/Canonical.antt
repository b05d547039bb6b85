-- ===== src/QueryLang/Resolve/Canonical.antt =====
-- Predicates on built-in fields (crates/logscope-query-lang/src/resolve.rs).
use log_scope.Prelude.{
  Bool, true, false, ◌&&◌, ◌||◌, [], ◌∷◌, Option, none, some, ltb, length, if◌then◌else◌,
}
use log_scope.Prelude.Int.{ℤ, pos, negsuc}
use log_scope.Text.{Text}
use log_scope.QueryLang.Diag.{
  Span, lit, integer, text, diag_error, with_expected, Diagnostic, LangLimits,
}
use log_scope.QueryLang.Ast.{RawValue, CmpOp, describe_op, RawField}
use log_scope.QueryLang.Lexer.{unescape_word}
use log_scope.QueryLang.Resolve.Fields.{CanonicalField, CanonType, canon_type}
use log_scope.QueryLang.Resolve.Literals.{is_multi, parse_i64}
use log_scope.QueryLang.Resolve.Levels.{SeverityLevel, parse_level}
use log_scope.QueryLang.Resolve.Wildcard.{wildcard_to_regex}
use log_scope.QueryLang.Resolve.Typed.{TypedScalar, ResolvedExpr}
use log_scope.QueryLang.Resolve.Engine.{Engine, parse_timestamp_nanos}
use log_scope.QueryLang.Resolve.Notes.{Resolving, ◌>>◌, pure, fail}
use log_scope.QueryLang.Resolve.Checks.{
  is_eq_or_ne, type_mismatch, warn_leading_wildcard, wildcard_too_long, regex_ok,
}

unfoldable pub invalid_timestamp : RawField → Text → Span → Diagnostic
invalid_timestamp field literal span =
    with_expected
      (diag_error "lang/invalid-timestamp"
        (lit "`"
          ∷ text literal
          ∷ lit "` is not a valid timestamp for `"
          ∷ text field.text
          ∷ lit "`"
          ∷ [])
        span)
      "RFC 3339, e.g. \"2026-07-29T00:00:00Z\", or a date YYYY-MM-DD"

unfoldable pub severity_out_of_range : ℤ → Span → Diagnostic
severity_out_of_range n span =
    diag_error "lang/invalid-severity"
      (lit "severity number " ∷ integer n ∷ lit " is outside 1..=24" ∷ []) span

unfoldable pub invalid_severity : Text → Span → Diagnostic
invalid_severity literal span =
    with_expected
      (diag_error "lang/invalid-severity"
        (lit "`" ∷ text literal ∷ lit "` is not a severity level" ∷ []) span)
      "TRACE, DEBUG, INFO, WARN, ERROR, or FATAL"

unfoldable pub not_an_integer : RawField → Text → Span → Diagnostic
not_an_integer field literal span =
    with_expected
      (diag_error "lang/type-mismatch"
        (lit "`"
          ∷ text field.text
          ∷ lit "` is an integer field; `"
          ∷ text literal
          ∷ lit "` is not an integer"
          ∷ [])
        span)
      "an integer value"

unfoldable pub text_ordering : RawField → CmpOp → Span → Diagnostic
text_ordering field op span =
    diag_error "lang/type-mismatch"
      (lit "`"
        ∷ text field.text
        ∷ lit "` is message text; ordering comparison `"
        ∷ lit (describe_op op)
        ∷ lit "` is not defined for it"
        ∷ [])
      span

unfoldable pub string_ordering : RawField → CmpOp → Text → Span → Diagnostic
string_ordering field op literal span =
    with_expected
      (diag_error "lang/type-mismatch"
        (lit "`"
          ∷ text field.text
          ∷ lit "` is a string field; ordering comparison `"
          ∷ lit (describe_op op)
          ∷ lit "` with `"
          ∷ text literal
          ∷ lit "` is not supported"
          ∷ [])
        span)
      "a numeric, timestamp, or severity field for ordering"

-- `(1..=24).contains(&n)`
abbrev pub in_bands : ℤ → Bool
in_bands (pos n) = ltb 0 n && ltb n 25
in_bands (negsuc n) = false

module _ {F : Type 0} where
  unfoldable pub severity_number : CmpOp → Span → ℤ → Resolving (ResolvedExpr F)
  unfolding severity_out_of_range
  severity_number op span n =
      if in_bands n
      then pure (ResolvedExpr.canon CanonicalField.severity_number op (TypedScalar.int n))
      else fail (severity_out_of_range n span)

  unfoldable pub severity_level :
      CmpOp → Text → Span → Option SeverityLevel → Resolving (ResolvedExpr F)
  unfolding invalid_severity
  severity_level op literal span (some level) = pure (ResolvedExpr.severity op level)
  severity_level op literal span none = fail (invalid_severity literal span)

  -- A number is tried before a level.
  unfoldable pub severity_literal : CmpOp → Text → Span → Option ℤ → Resolving (ResolvedExpr F)
  unfolding severity_number severity_level
  severity_literal op literal span (some n) = severity_number op span n
  severity_literal op literal span none = severity_level op literal span (parse_level literal)

  -- An integer, or the error in its place.
  unfoldable pub int_value :
      CanonicalField → CmpOp → Diagnostic → Option ℤ → Resolving (ResolvedExpr F)
  int_value f op d (some n) = pure (ResolvedExpr.canon f op (TypedScalar.int n))
  int_value f op d none = fail d

  unfoldable pub text_matcher : Text → Bool → ResolvedExpr F
  text_matcher literal quoted =
      if quoted || is_multi literal then ResolvedExpr.phrase literal else ResolvedExpr.term literal

  unfoldable pub text_literal : RawField → CmpOp → Text → Span → Bool → Resolving (ResolvedExpr F)
  unfolding text_matcher text_ordering
  text_literal field CmpOp.eq literal span quoted = pure (text_matcher literal quoted)
  text_literal field CmpOp.ne literal span quoted =
      pure (ResolvedExpr.not (text_matcher literal quoted))
  text_literal field op literal span quoted = fail (text_ordering field op span)

  unfoldable pub str_literal :
      CanonicalField → RawField → CmpOp → Text → Span → Resolving (ResolvedExpr F)
  unfolding string_ordering
  str_literal f field op literal span =
      if is_eq_or_ne op
      then pure (ResolvedExpr.canon f op (TypedScalar.str literal))
      else fail (string_ordering field op literal span)

  -- The match on the field's type for a regex and a wildcard.
  unfoldable pub if_textual :
      CanonType → Diagnostic → Resolving (ResolvedExpr F) → Resolving (ResolvedExpr F)
  if_textual CanonType.text d m = m
  if_textual CanonType.str d m = m
  if_textual _ d m = fail d

module _ {F : Type 0} (x : Engine F) (limits : LangLimits) where
  unfoldable pub literal_of_type :
      CanonType
      → CanonicalField
      → RawField
      → CmpOp
      → Text
      → Span
      → Bool
      → Resolving (ResolvedExpr F)
  unfolding int_value severity_literal text_literal str_literal invalid_timestamp not_an_integer
  literal_of_type CanonType.timestamp f field op literal span quoted =
      int_value f op (invalid_timestamp field literal span) (parse_timestamp_nanos x literal)
  literal_of_type CanonType.severity f field op literal span quoted =
      severity_literal op literal span (parse_i64 literal)
  literal_of_type CanonType.int f field op literal span quoted =
      int_value f op (not_an_integer field literal span) (parse_i64 literal)
  literal_of_type CanonType.text f field op literal span quoted =
      text_literal field op literal span quoted
  literal_of_type CanonType.str f field op literal span quoted = str_literal f field op literal span

  unfoldable pub canonical_literal :
      CanonicalField → RawField → CmpOp → Text → Span → Bool → Resolving (ResolvedExpr F)
  unfolding literal_of_type
  canonical_literal f field op literal span quoted =
      literal_of_type (canon_type f) f field op literal span quoted

  unfoldable pub canonical_wildcard :
      CanonicalField → RawField → Text → Span → Resolving (ResolvedExpr F)
  unfolding if_textual warn_leading_wildcard
  canonical_wildcard f field t span =
      if ltb limits.max_wildcard_chars (length t)
      then fail (wildcard_too_long limits span)
      else if_textual (canon_type f) (type_mismatch field f "a wildcard" span) (do
        warn_leading_wildcard t span
        regex_ok x limits (wildcard_to_regex t) false span
        pure (ResolvedExpr.canon_wildcard f (wildcard_to_regex t) t))

  -- `star` is handled by the caller.
  unfoldable pub canonical_predicate :
      CanonicalField → RawField → CmpOp → RawValue → Resolving (ResolvedExpr F)
  unfolding if_textual canonical_wildcard canonical_literal
  canonical_predicate f field op (RawValue.regex pattern ci span) = do
    regex_ok x limits pattern ci span
    if_textual (canon_type f) (type_mismatch field f "a regex" span)
        (pure (ResolvedExpr.canon_regex f pattern ci))
  canonical_predicate f field op (RawValue.word t true span) = canonical_wildcard f field t span
  canonical_predicate f field op (RawValue.word t false span) =
      canonical_literal f field op (unescape_word t) span false
  canonical_predicate f field op (RawValue.quoted t span) = canonical_literal f field op t span true
  canonical_predicate f field op (RawValue.star span) = λ n. (none, n)
