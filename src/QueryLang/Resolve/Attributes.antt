-- ===== src/QueryLang/Resolve/Attributes.antt =====
-- Predicates on attributes (crates/logscope-query-lang/src/resolve.rs).
use log_scope.Prelude.{
  String, Bool, true, false, not, ◌&&◌, List, [], ◌∷◌, all, filter, map, Option, none, some, ltb,
  length, if◌then◌else◌,
}
use log_scope.Prelude.Int.{ℤ}
use log_scope.Text.{Text, codes}
use log_scope.QueryLang.Diag.{
  Span, lit, text, join, diag_error, with_expected, with_hint, Diagnostic, LangLimits,
}
use log_scope.QueryLang.Ast.{RawValue, CmpOp, describe_op, RawField}
use log_scope.QueryLang.Lexer.{unescape_word}
use log_scope.QueryLang.Resolve.Fields.{is_one_of, AttrType, describe_type, is_scalar}
use log_scope.QueryLang.Resolve.Literals.{to_ascii_lowercase, parse_i64}
use log_scope.QueryLang.Resolve.Wildcard.{wildcard_to_regex}
use log_scope.QueryLang.Resolve.Typed.{AttrFieldInfo, TypedScalar, AttrScalar, ResolvedExpr}
use log_scope.QueryLang.Resolve.Engine.{Engine, parse_finite}
use log_scope.QueryLang.Resolve.Notes.{Resolving, ◌>>=◌, ◌>>◌, pure, fail}
use log_scope.QueryLang.Resolve.Checks.{
  is_eq_or_ne, attr_type_mismatch, warn_leading_wildcard, wildcard_too_long, regex_ok,
}

-- The type class of an attribute by its scalar types: one type, or numbers as doubles.
pub data AttrClass : Type 0 where
  none_scalar : AttrClass
  one : AttrType → AttrClass
  conflict : AttrClass

abbrev pub is_number : AttrType → Bool
is_number AttrType.int = true
is_number AttrType.double = true
is_number _ = false

unfoldable pub class_of : List AttrType → AttrClass
class_of [] = none_scalar
class_of (t ∷ []) = one t
class_of (t ∷ u ∷ ts) = if all is_number (t ∷ u ∷ ts) then one AttrType.double else conflict

unfoldable pub seen : List AttrType → List Text
seen ts = map (λ t. codes (describe_type t)) ts

unfoldable pub unsupported_type : AttrFieldInfo → Span → Diagnostic
unfolding seen
unsupported_type info span =
    with_hint
      (diag_error "lang/unsupported-type"
        (lit "`"
          ∷ text info.display
          ∷ lit "` has non-comparable value type(s): "
          ∷ join ", " (seen info.types)
          ∷ [])
        span)
      "only existence (`field:*`) is supported for this field"

unfoldable pub type_conflict : AttrFieldInfo → Span → Diagnostic
unfolding seen
type_conflict info span =
    with_hint
      (diag_error "lang/type-conflict"
        (lit "`"
          ∷ text info.display
          ∷ lit "` has conflicting types across the selected datasets: "
          ∷ join ", " (seen (filter is_scalar info.types))
          ∷ [])
        span)
      "narrow the dataset selection so the field has one type"

abbrev pub ordering_type_name : AttrType → String
ordering_type_name AttrType.bool = "boolean"
ordering_type_name _ = "string"

unfoldable pub attr_ordering : AttrFieldInfo → AttrType → CmpOp → Text → Span → Diagnostic
attr_ordering info ty op literal span =
    with_expected
      (diag_error "lang/type-mismatch"
        (lit "`"
          ∷ text info.display
          ∷ lit "` is a "
          ∷ lit (ordering_type_name ty)
          ∷ lit " field; ordering comparison `"
          ∷ lit (describe_op op)
          ∷ lit "` with `"
          ∷ text literal
          ∷ lit "` is not supported"
          ∷ [])
        span)
      "a numeric or timestamp field for ordering"

-- The three errors on a literal that is not of the attribute's type.
unfoldable pub not_of_type : AttrFieldInfo → String → Text → String → String → Span → Diagnostic
not_of_type info kind literal what expected span =
    with_expected
      (diag_error "lang/type-mismatch"
        (lit "`"
          ∷ text info.display
          ∷ lit "` is "
          ∷ lit kind
          ∷ lit " field; `"
          ∷ text literal
          ∷ lit "` is not "
          ∷ lit what
          ∷ [])
        span)
      expected

abbrev pub is_str : AttrType → Bool
is_str AttrType.str = true
is_str _ = false

-- Whether the type has no order.
abbrev pub unordered : AttrType → Bool
unordered AttrType.bool = true
unordered AttrType.str = true
unordered _ = false

module _ {F : Type 0} where
  unfoldable pub double_or : Diagnostic → Option F → Resolving (AttrScalar × TypedScalar F)
  double_or d (some v) = pure (AttrScalar.double, TypedScalar.double v)
  double_or d none = fail d

  unfoldable pub int_or : Diagnostic → Option F → Option ℤ → Resolving (AttrScalar × TypedScalar F)
  unfolding double_or
  int_or d decimal (some n) = pure (AttrScalar.int, TypedScalar.int n)
  int_or d decimal none = double_or d decimal

  unfoldable pub bool_or : Diagnostic → Text → Resolving (AttrScalar × TypedScalar F)
  bool_or d lower =
      if is_one_of lower ("true" ∷ [])
      then pure (AttrScalar.bool, TypedScalar.bool true)
      else if is_one_of lower ("false" ∷ [])
      then pure (AttrScalar.bool, TypedScalar.bool false)
      else fail d

module _ {F : Type 0} (x : Engine F) where
  -- The literal by the attribute's type. The last clause has only types that are not scalar, which
  -- `class_of` does not give.
  unfoldable pub typed_literal :
      AttrFieldInfo → AttrType → Text → Span → Resolving (AttrScalar × TypedScalar F)
  unfolding int_or double_or bool_or
  typed_literal info AttrType.str literal span = pure (AttrScalar.str, TypedScalar.str literal)
  typed_literal info AttrType.int literal span =
      int_or (not_of_type info "an integer" literal "a number" "an integer or decimal value" span)
        (parse_finite x literal) (parse_i64 literal)
  typed_literal info AttrType.double literal span =
      double_or (not_of_type info "a numeric" literal "a number" "a numeric value" span)
        (parse_finite x literal)
  typed_literal info AttrType.bool literal span =
      bool_or (not_of_type info "a boolean" literal "true/false" "true or false" span)
        (map to_ascii_lowercase literal)
  typed_literal info _ literal span = λ n. (none, n)

  unfoldable pub attr_literal :
      AttrFieldInfo → AttrType → CmpOp → Text → Span → Resolving (ResolvedExpr F)
  unfolding typed_literal
  attr_literal info ty op literal span =
      if unordered ty && not (is_eq_or_ne op)
      then fail (attr_ordering info ty op literal span)
      else do
        typed ← typed_literal info ty literal span
        pure (ResolvedExpr.attr info.path typed.0 op typed.1)

module _ {F : Type 0} (x : Engine F) (limits : LangLimits) where
  unfoldable pub attr_regex :
      AttrFieldInfo → AttrType → Text → Bool → Span → Resolving (ResolvedExpr F)
  attr_regex info ty pattern ci span =
      if is_str ty
      then (do
        regex_ok x limits pattern ci span
        pure (ResolvedExpr.attr_regex info.path pattern ci))
      else fail (attr_type_mismatch info ty "a regex" span)

  unfoldable pub attr_wildcard : AttrFieldInfo → AttrType → Text → Span → Resolving (ResolvedExpr F)
  unfolding warn_leading_wildcard
  attr_wildcard info ty t span =
      if is_str ty
      then if ltb limits.max_wildcard_chars (length t)
        then fail (wildcard_too_long limits span)
        else (do
          warn_leading_wildcard t span
          regex_ok x limits (wildcard_to_regex t) false span
          pure (ResolvedExpr.attr_wildcard info.path (wildcard_to_regex t) t))
      else fail (attr_type_mismatch info ty "a wildcard" span)

  -- The match on the value, for an attribute of one type; `star` is handled by the caller.
  unfoldable pub attr_value :
      AttrFieldInfo → AttrType → CmpOp → RawValue → Resolving (ResolvedExpr F)
  unfolding attr_regex attr_wildcard attr_literal
  attr_value info ty op (RawValue.regex pattern ci span) = attr_regex info ty pattern ci span
  attr_value info ty op (RawValue.word t true span) = attr_wildcard info ty t span
  attr_value info ty op (RawValue.word t false span) =
      attr_literal x info ty op (unescape_word t) span
  attr_value info ty op (RawValue.quoted t span) = attr_literal x info ty op t span
  attr_value info ty op (RawValue.star span) = λ n. (none, n)

  unfoldable pub attr_of_class :
      AttrClass → AttrFieldInfo → RawField → CmpOp → RawValue → Resolving (ResolvedExpr F)
  unfolding attr_value
  attr_of_class none_scalar info field op value = fail (unsupported_type info field.span)
  attr_of_class conflict info field op value = fail (type_conflict info field.span)
  attr_of_class (one ty) info field op value = attr_value info ty op value

  unfoldable pub attr_predicate :
      AttrFieldInfo → RawField → CmpOp → RawValue → Resolving (ResolvedExpr F)
  unfolding attr_of_class
  attr_predicate info field op value =
      attr_of_class (class_of (filter is_scalar info.types)) info field op value
