-- ===== src/Query/SeverityExists.antt =====
-- The existence test of the severity, from the resolver to the compiler.
use log_scope.Prelude.{◌≤◌, ◌≡◌, refl, inl, inr, Bool-cases, none, some, le→not-ltb}
use log_scope.Text.{Text, codes, text_eq}
use log_scope.QueryLang.Diag.{Span, LangLimits}
use log_scope.QueryLang.Ast.{RawExpr, RawField, RawValue, CmpOp}
use log_scope.QueryLang.Resolve.Fields.{CanonicalField, builtin_field, is_one_of}
use log_scope.QueryLang.Resolve.Literals.{strip_prefix}
use log_scope.QueryLang.Resolve.Typed.{CatalogView, ResolvedQuery}
use log_scope.QueryLang.Resolve.Engine.{Engine}
use log_scope.QueryLang.Resolve.Checks.{resolve_field, resolve_prefixed, resolve_named}
use log_scope.QueryLang.Resolve.Exprs.{
  always_present, exists_of, predicate_of, predicate, expr, resolve, ok, outcome, check_clauses,
}
use log_scope.Query.Sql.{panicked, FtsContext}
use log_scope.Query.Leaves.{canon_column}
use log_scope.Query.Compile.{compile_filter, emit}

-- The names of the severity field.
pub data SeverityName : Text → Type 0 where
  severity : SeverityName (codes "severity")
  level : SeverityName (codes "level")
  log_level : SeverityName (codes "log.level")

name_read :
    {t : Text}
    → SeverityName t
    → (strip_prefix (codes "attr.") t ≡ none) × (builtin_field t ≡ some CanonicalField.severity)
unfolding strip_prefix builtin_field is_one_of text_eq
name_read severity = (refl, refl)
name_read level = (refl, refl)
name_read log_level = (refl, refl)

-- By any name of the severity field, the resolver accepts its existence test under every catalog
-- and every limit that allows a predicate, and the compiler reaches an `unreachable!` on the typed
-- query.
pub compile_filter-severity_exists :
    {F E : Type 0} (catalog : CatalogView) (x : Engine F) (limits : LangLimits) (fts : FtsContext E)
    (field : RawField) (star span : Span)
    → SeverityName field.text
    → 1 ≤ limits.max_clauses
    → (q : ResolvedQuery F) × (resolve catalog x limits
          (some (RawExpr.cmp field CmpOp.eq (RawValue.star star) span))
        ≡ ok q)
      × (compile_filter q.expr fts ≡ panicked)
unfolding resolve expr predicate predicate_of exists_of resolve_field resolve_prefixed resolve_named
    check_clauses outcome compile_filter emit canon_column always_present
compile_filter-severity_exists catalog x limits fts field star span name allowed =
    let (bare, is) = name_read name in
    elim (Bool-cases (catalog.attr_exists field.text)) [
      | inl e ↦ rw (bare, is, e, le→not-ltb limits.max_clauses 1 allowed) (_, refl, refl)
      | inr e ↦ rw (bare, is, e, le→not-ltb limits.max_clauses 1 allowed) (_, refl, refl)
    ]
