-- ===== src/Query/Tests.antt =====
-- Runs of the query compiler, and its theorems at concrete inputs.
use log_scope.Prelude.{ℕ, ◌≡◌, ◌≢◌, refl, [], ◌∷◌, none, some, arith}
use log_scope.Text.{Text, codes, text_eq, is_ascii_alphabetic}
use log_scope.QueryLang.Diag.{default_span, default_limits}
use log_scope.QueryLang.Ast.{RawField, RawValue, RawExpr, CmpOp}
use log_scope.QueryLang.Resolve.Fields.{CanonicalField, builtin_field, is_one_of}
use log_scope.QueryLang.Resolve.Literals.{strip_prefix}
use log_scope.QueryLang.Resolve.Typed.{FieldResolution, TypedScalar, ResolvedExpr, ResolvedQuery}
use log_scope.QueryLang.Resolve.Samples.{one_attr, plain_engine}
use log_scope.QueryLang.Resolve.Meaning.{Known, Predicate, Means}
use log_scope.Query.Tokens.{text_tokens}
use log_scope.Query.Sql.{fixed, Value, CompiledFilter, ok, panicked, FtsContext}
use log_scope.Query.Leaves.{canon_column}
use log_scope.Query.Compile.{compile_filter, emit}
use log_scope.Query.Placeholders.{placeholders}
use log_scope.Query.Bound.{compile_filter-placeholders}
use log_scope.Query.Reached.{TestsColumns}
use log_scope.Query.Compiled.{compile_filter-returns}
use log_scope.Query.SeverityExists.{SeverityName, compile_filter-severity_exists}
use log_scope.QueryLang.Resolve.Exprs.{resolve, ResolveResult}

-- No index: every text is scanned.
abbrev no_index : FtsContext ℕ
no_index = record { index = none; is_alphanumeric = is_ascii_alphabetic }

split_text :
    text_tokens is_ascii_alphabetic (codes "db: time-out")
    ≡ codes "db" ∷ codes "time" ∷ codes "out" ∷ []
unfolding text_tokens is_ascii_alphabetic
split_text = refl

-- NOT event.name:a
abbrev not_named : ResolvedExpr ℕ
not_named =
    ResolvedExpr.not
      (ResolvedExpr.canon CanonicalField.event_name CmpOp.eq (TypedScalar.str (codes "a")))

abbrev not_named_filter : CompiledFilter ℕ
not_named_filter = record {
  where_sql =
      fixed "(NOT "
      ∷ fixed "COALESCE("
      ∷ fixed "event_name"
      ∷ fixed " "
      ∷ fixed "="
      ∷ fixed " ?, false)"
      ∷ fixed ")"
      ∷ [];
  params = Value.text (codes "a") ∷ [];
  temp_tables = [];
  text_modes = [];
}

not_named_compiled : compile_filter (some not_named) no_index ≡ ok not_named_filter
unfolding compile_filter emit
not_named_compiled = refl

compile_filter-placeholders_example : placeholders not_named_filter.where_sql ≡ 1
compile_filter-placeholders_example =
    compile_filter-placeholders (some not_named) no_index not_named_filter not_named_compiled

abbrev field_of : Text → RawField
field_of t = record { text = t; span = default_span }

trace_id-Known :
    Known one_attr (codes "trace_id") (FieldResolution.canonical CanonicalField.trace_id)
unfolding strip_prefix builtin_field is_one_of text_eq
trace_id-Known = Known.builtin refl refl

has_trace_id :
    Means one_attr plain_engine default_limits
      (RawExpr.cmp (field_of (codes "trace_id")) CmpOp.eq (RawValue.star default_span) default_span)
      (ResolvedExpr.canon_exists CanonicalField.trace_id)
has_trace_id = Means.cmp (Predicate.canon_exists trace_id-Known refl)

trace_id-TestsColumns : TestsColumns {F = ℕ} (ResolvedExpr.canon_exists CanonicalField.trace_id)
unfolding TestsColumns canon_column
trace_id-TestsColumns = refl

abbrev has_trace : ResolvedExpr ℕ
has_trace = ResolvedExpr.canon_exists CanonicalField.trace_id

compile_filter-returns_example : compile_filter (some has_trace) no_index ≢ panicked
compile_filter-returns_example =
    compile_filter-returns one_attr plain_engine default_limits no_index _ _ has_trace_id
      trace_id-TestsColumns

compile_filter-severity_exists_example :
    (q : ResolvedQuery ℕ) × (resolve one_attr plain_engine default_limits (
        some (
          RawExpr.cmp
            (field_of (codes "level"))
            CmpOp.eq
            (RawValue.star default_span)
            default_span))
      ≡ ResolveResult.ok q)
    × (compile_filter q.expr no_index ≡ panicked)
compile_filter-severity_exists_example =
    compile_filter-severity_exists one_attr plain_engine default_limits no_index
      (field_of (codes "level")) default_span default_span SeverityName.level (omega arith)
