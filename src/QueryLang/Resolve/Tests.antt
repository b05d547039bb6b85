-- ===== src/QueryLang/Resolve/Tests.antt =====
-- Runs of the resolver's tables and translations, and their theorems at concrete inputs.
use log_scope.Prelude.{◌≡◌, refl, true, false, [], ◌∷◌, map, All, none, some, arith}
use log_scope.Text.{Text, codes, text_eq, is_ascii_alphabetic}
use log_scope.QueryLang.Diag.{Span, default_span, default_limits}
use log_scope.QueryLang.Ast.{RawField, RawValue, RawExpr, RawExprs, CmpOp}
use log_scope.QueryLang.Resolve.Fields.{
  CanonicalField, display, builtin_field, builtin_field_names, is_one_of,
}
use log_scope.QueryLang.Resolve.Typed.{FieldResolution}
use log_scope.QueryLang.Resolve.Checks.{resolve_field}
use log_scope.QueryLang.Resolve.Names.{Displayed, resolve_field-display}
use mathlib.Core.List.{Memᴰ}
use log_scope.QueryLang.Resolve.Exprs.{new_notes, predicate, resolve}
use log_scope.QueryLang.Resolve.Outcome.{Resolved, resolve-Resolved, predicate-wildcard}
use log_scope.QueryLang.Resolve.Levels.{
  SeverityLevel, InBand, parse_level, to_ascii_uppercase, parse_level-level_name, level_name,
  InBand-unique,
}
use log_scope.QueryLang.Resolve.Wildcard.{
  is_ascii_alphanumeric, is_plain, escaped, wildcard_body, wildcard_to_regex,
}
use log_scope.QueryLang.Resolve.Translated.{Reads, glob_items, wildcard_to_regex-Reads}
use log_scope.QueryLang.Resolve.Samples.{one_attr, plain_engine}

abbrev nowhere : Span
nowhere = default_span

abbrev field_of : Text → RawField
field_of t = record { text = t; span = nowhere }

alias_level : builtin_field (codes "log.level") ≡ some CanonicalField.severity
unfolding builtin_field is_one_of text_eq
alias_level = refl

no_alias : builtin_field (codes "Severity") ≡ none
unfolding builtin_field is_one_of text_eq
no_alias = refl

dotted_regex : wildcard_to_regex (codes "db-*\\?.x") ≡ codes "^db\\-.*\\?\\.x$"
unfolding wildcard_to_regex wildcard_body escaped is_plain is_ascii_alphanumeric is_ascii_alphabetic
dotted_regex = refl

wildcard_to_regex-Reads_example :
    (body : Text) × (wildcard_to_regex (codes "a.*\\*") ≡ b'^' ∷ body)
    × Reads body (glob_items (codes "a.*\\*"))
wildcard_to_regex-Reads_example = wildcard_to_regex-Reads (codes "a.*\\*")

resolve_field-display_example :
    ((f : CanonicalField)
      → ((resolve_field one_attr (field_of (codes (display f))) new_notes).0
          ≡ some (FieldResolution.canonical f))
        × ((resolve_field one_attr (field_of (codes (display f))) new_notes).1.errors ≡ [])
        × Memᴰ (codes (display f)) (map codes builtin_field_names))
    × All Displayed builtin_field_names
resolve_field-display_example = resolve_field-display one_attr nowhere new_notes

parse_level-level_name_example : parse_level (codes "Warn") ≡ some SeverityLevel.warn
unfolding to_ascii_uppercase level_name
parse_level-level_name_example = parse_level-level_name SeverityLevel.warn (codes "Warn") refl

InBand-unique_example :
    (l : SeverityLevel) × InBand 17 l × ((k : SeverityLevel) → InBand 17 k → k ≡ l)
InBand-unique_example = InBand-unique 17 (omega arith) (omega arith)

abbrev cmp_of : Text → CmpOp → RawValue → RawExpr
cmp_of t op v = RawExpr.cmp (field_of t) op v nowhere

-- severity >= error AND NOT host:web-*
abbrev tree : RawExpr
tree =
    RawExpr.and
      (RawExprs.cons
        (cmp_of (codes "severity") CmpOp.ge (RawValue.word (codes "error") false nowhere))
        (RawExprs.cons
          (RawExpr.not (cmp_of (codes "host") CmpOp.eq (RawValue.word (codes "web-*") true nowhere))
            nowhere)
          RawExprs.nil))
      nowhere

resolve-Resolved_example :
    Resolved one_attr plain_engine default_limits
      (some tree)
      (resolve one_attr plain_engine default_limits (some tree))
resolve-Resolved_example = resolve-Resolved one_attr plain_engine default_limits (some tree)

predicate-wildcard_example :
    predicate one_attr plain_engine default_limits
      (field_of (codes "host"))
      CmpOp.ne
      (RawValue.word (codes "w*") true nowhere)
      new_notes
    ≡ predicate one_attr plain_engine default_limits
        (field_of (codes "host"))
        CmpOp.eq
        (RawValue.word (codes "w*") true nowhere)
        new_notes
predicate-wildcard_example =
    predicate-wildcard one_attr plain_engine default_limits (field_of (codes "host")) CmpOp.ne
      (codes "w*") nowhere new_notes
