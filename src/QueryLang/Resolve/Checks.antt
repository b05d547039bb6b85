-- ===== src/QueryLang/Resolve/Checks.antt =====
-- Field names, regexes and their errors in the resolver (crates/logscope-query-lang/src/resolve.rs).
use log_scope.Prelude.{
  String, Bool, true, false, ◌||◌, List, [], ◌∷◌, Option, none, some, ltb, length, if◌then◌else◌,
}
use log_scope.Text.{Text, codes}
use log_scope.QueryLang.Diag.{
  Span, Message, lit, number, text, join, diag_error, diag_warning, with_hint, with_hint_message,
  Diagnostic, LangLimits,
}
use log_scope.QueryLang.Ast.{CmpOp, RawField}
use log_scope.QueryLang.Resolve.Fields.{
  CanonicalField, CanonType, canon_type, display, builtin_field, AttrType, describe_type,
}
use log_scope.QueryLang.Resolve.Literals.{strip_prefix, starts_with, starts_with_one_of}
use log_scope.QueryLang.Resolve.Typed.{AttrFieldInfo, FieldResolution, CatalogView}
use log_scope.QueryLang.Resolve.Engine.{Engine, RegexError}
use log_scope.QueryLang.Resolve.Notes.{Resolving, ◌>>◌, pure, fail, warn, when}

-- `op` is `CmpOp::Eq`, and `CmpOp::Eq` or `CmpOp::Ne`.
abbrev pub is_eq : CmpOp → Bool
is_eq CmpOp.eq = true
is_eq _ = false

abbrev pub is_eq_or_ne : CmpOp → Bool
is_eq_or_ne CmpOp.eq = true
is_eq_or_ne CmpOp.ne = true
is_eq_or_ne _ = false

unfoldable pub type_name : CanonType → String
type_name CanonType.timestamp = "a timestamp"
type_name CanonType.severity = "a severity level"
type_name CanonType.int = "an integer"
type_name CanonType.text = "message text"
type_name CanonType.str = "a string"

unfoldable pub type_mismatch : RawField → CanonicalField → String → Span → Diagnostic
unfolding type_name
type_mismatch field f what span =
    diag_error "lang/type-mismatch"
      (lit "`"
        ∷ text field.text
        ∷ lit "` is "
        ∷ lit (type_name (canon_type f))
        ∷ lit " field; "
        ∷ lit what
        ∷ lit " does not apply"
        ∷ [])
      span

unfoldable pub attr_type_mismatch : AttrFieldInfo → AttrType → String → Span → Diagnostic
attr_type_mismatch info ty what span =
    diag_error "lang/type-mismatch"
      (lit "`"
        ∷ text info.display
        ∷ lit "` is "
        ∷ lit (describe_type ty)
        ∷ lit " typed; "
        ∷ lit what
        ∷ lit " only applies to string fields"
        ∷ [])
      span

-- The hint of an unknown field, when there are suggestions.
abbrev pub with_suggestions : Diagnostic → List Text → Diagnostic
with_suggestions d [] = d
with_suggestions d (s ∷ ss) = with_hint_message d (lit "did you mean: " ∷ join ", " (s ∷ ss) ∷ [])

unfoldable pub check_attr_resolution : FieldResolution → Text → Span → Resolving FieldResolution
check_attr_resolution (FieldResolution.unknown suggestions) written span = fail (
    with_suggestions
      (diag_error "lang/unknown-field" (lit "unknown field `" ∷ text written ∷ lit "`" ∷ []) span)
      suggestions)
check_attr_resolution (FieldResolution.ambiguous candidates) written span = fail (
    with_hint
      (diag_error "lang/ambiguous-field"
        (lit "`" ∷ text written ∷ lit "` is ambiguous between: " ∷ join ", " candidates ∷ []) span)
      "write the full path of the field you mean")
check_attr_resolution ok written span = pure ok

unfoldable pub shadows_attribute : RawField → CanonicalField → Diagnostic
shadows_attribute field canon =
    with_hint_message
      (diag_warning "lang/alias-shadows-attribute"
        (lit "`"
          ∷ text field.text
          ∷ lit "` is the built-in `"
          ∷ lit (display canon)
          ∷ lit "` field; an attribute with the same name also exists"
          ∷ [])
        field.span)
      (lit "use attr." ∷ text field.text ∷ lit " to query the attribute" ∷ [])

module _ (catalog : CatalogView) where
  -- What stands behind the test of the `attr.` prefix.
  unfoldable pub resolve_named : RawField → Option CanonicalField → Resolving FieldResolution
  unfolding shadows_attribute check_attr_resolution
  resolve_named field (some canon) = do
    when (catalog.attr_exists field.text) (warn (shadows_attribute field canon))
    pure (FieldResolution.canonical canon)
  resolve_named field none =
      check_attr_resolution (catalog.resolve_attr field.text) field.text field.span

  unfoldable pub resolve_prefixed : RawField → Option Text → Resolving FieldResolution
  unfolding resolve_named
  resolve_prefixed field (some rest) =
      check_attr_resolution (catalog.resolve_attr rest) rest field.span
  resolve_prefixed field none = resolve_named field (builtin_field field.text)

  unfoldable pub resolve_field : RawField → Resolving FieldResolution
  unfolding resolve_prefixed
  resolve_field field = resolve_prefixed field (strip_prefix (codes "attr.") field.text)

unfoldable pub warn_leading_wildcard : Text → Span → Resolving (Unit {0})
warn_leading_wildcard t span = when (starts_with_one_of b'*' b'?' t) (
    warn (
      with_hint
        (diag_warning "lang/leading-wildcard"
          (lit "leading wildcard must inspect every value and can be slow" ∷ []) span)
        "prefer a prefix before the first `*` when possible"))

unfoldable pub wildcard_too_long : LangLimits → Span → Diagnostic
wildcard_too_long limits span =
    diag_error "lang/wildcard-too-long"
      (lit "wildcard value exceeds " ∷ number limits.max_wildcard_chars ∷ lit " characters" ∷ [])
      span

unfoldable pub error_message : LangLimits → RegexError → Message
error_message limits RegexError.compiled_too_big =
    lit "regex is too complex (compiled size over "
    ∷ number limits.max_regex_compiled_bytes
    ∷ lit " bytes)"
    ∷ []
error_message limits (RegexError.other e) = lit "unsupported regex: " ∷ e

-- What `regex_ok` makes of the outcome of the build. It passes where the program returns `true`
-- and stops where it returns `false`: its callers return `None` then.
unfoldable pub built : LangLimits → Text → Span → Option RegexError → Resolving (Unit {0})
unfolding error_message
built limits pattern span none =
    when (starts_with (codes ".*") pattern || starts_with (codes "(?s)") pattern) (
      warn (
        diag_warning "lang/broad-regex"
          (lit "this pattern begins unanchored-broad and can be slow" ∷ []) span))
built limits pattern span (some e) = fail (
    with_hint (diag_error "lang/regex-unsupported" (error_message limits e) span)
      "backreferences and lookaround are not supported; the engine is linear-time")

module _ {F : Type 0} (x : Engine F) (limits : LangLimits) where
  unfoldable pub regex_ok : Text → Bool → Span → Resolving (Unit {0})
  unfolding built
  regex_ok [] ci span = fail (diag_error "lang/empty-regex" (lit "empty regex pattern" ∷ []) span)
  regex_ok (c ∷ cs) ci span =
      if ltb limits.max_regex_chars (length (c ∷ cs))
      then fail (
          diag_error "lang/regex-too-long"
            (lit "regex exceeds " ∷ number limits.max_regex_chars ∷ lit " characters" ∷ []) span)
      else built limits (c ∷ cs) span (x.compile (c ∷ cs) ci limits.max_regex_compiled_bytes)
