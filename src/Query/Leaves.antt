-- ===== src/Query/Leaves.antt =====
-- The parts of the query compiler that only push SQL and parameters
-- (crates/logscope-query/src/compile.rs).
use log_scope.Prelude.{
  ℕ, String, Bool, true, false, ◌&&◌, List, [], ◌∷◌, ◌++◌, Option, none, some, if◌then◌else◌,
}
use log_scope.Text.{Text, codes}
use log_scope.QueryLang.Ast.{CmpOp}
use log_scope.QueryLang.Resolve.Fields.{CanonicalField}
use log_scope.QueryLang.Resolve.Levels.{SeverityLevel, band, level_name}
use log_scope.QueryLang.Resolve.Typed.{TypedScalar, AttrScalar}
use log_scope.QueryLang.Resolve.Checks.{is_eq}
use log_scope.Query.Tokens.{tokens_to_regex, attr_value_path, apply_ci}
use log_scope.Query.Sql.{fixed, Sql, Value, TextExecMode, CompiledFilter, push, param, mode}

-- `MAX_FTS_CANDIDATES`
abbrev pub max_fts_candidates : ℕ
max_fts_candidates = 20000

-- `none` where the program does not expect the field.
unfoldable pub canon_column : CanonicalField → Option String
canon_column CanonicalField.timestamp = some "event_time"
canon_column CanonicalField.observed_timestamp = some "observed_time"
canon_column CanonicalField.severity = none
canon_column CanonicalField.severity_text = some "severity_text"
canon_column CanonicalField.severity_number = some "severity_number"
canon_column CanonicalField.message = some "display_message"
canon_column CanonicalField.event_name = some "event_name"
canon_column CanonicalField.trace_id = some "trace_id"
canon_column CanonicalField.span_id = some "span_id"
canon_column CanonicalField.operation = some "operation"
canon_column CanonicalField.outcome = some "outcome"
canon_column CanonicalField.event_type = some "event_type"
canon_column CanonicalField.request_id = some "request_id"
canon_column CanonicalField.transaction_id = some "transaction_id"
canon_column CanonicalField.message_id = some "message_id"
canon_column CanonicalField.entity_id = some "entity_id"
canon_column CanonicalField.dataset = some "dataset_id"
canon_column CanonicalField.record_id = some "record_id"

unfoldable pub cmp_sql : CmpOp → Option String
cmp_sql CmpOp.eq = some "="
cmp_sql CmpOp.ne = none
cmp_sql CmpOp.gt = some ">"
cmp_sql CmpOp.ge = some ">="
cmp_sql CmpOp.lt = some "<"
cmp_sql CmpOp.le = some "<="

abbrev pub bool_word : Bool → Text
bool_word true = codes "true"
bool_word false = codes "false"

abbrev pub is_severity_text : CanonicalField → Bool
is_severity_text CanonicalField.severity_text = true
is_severity_text _ = false

abbrev pub is_ne : CmpOp → Bool
is_ne CmpOp.ne = true
is_ne _ = false

abbrev pub severity_eq_sql : Sql
severity_eq_sql =
    fixed
      "(COALESCE(severity_number BETWEEN ? AND ?, false) OR (severity_number IS NULL AND COALESCE(upper(severity_text) = ?, false)))"
    ∷ []

abbrev pub canon_cmp_sql : CanonicalField → CmpOp → String → String → Sql
canon_cmp_sql field op col sql_op =
    if is_severity_text field && is_eq op
    then fixed "COALESCE(upper(severity_text) = upper(?), false)" ∷ []
    else fixed "COALESCE(" ∷ fixed col ∷ fixed " " ∷ fixed sql_op ∷ fixed " ?, false)" ∷ []

abbrev pub attr_lhs : AttrScalar → Sql
attr_lhs AttrScalar.str = fixed "json_extract_string(attributes_json, ?)" ∷ []
attr_lhs AttrScalar.int =
    fixed "TRY_CAST(" ∷ fixed "json_extract_string(attributes_json, ?)" ∷ fixed " AS BIGINT)" ∷ []
attr_lhs AttrScalar.double =
    fixed "TRY_CAST(" ∷ fixed "json_extract_string(attributes_json, ?)" ∷ fixed " AS DOUBLE)" ∷ []
attr_lhs AttrScalar.bool = fixed "json_extract_string(attributes_json, ?)" ∷ []

module _ {F : Type 0} where
  unfoldable pub scalar_value : TypedScalar F → Value F
  scalar_value (TypedScalar.str s) = Value.text s
  scalar_value (TypedScalar.int i) = Value.big_int i
  scalar_value (TypedScalar.double d) = Value.double d
  scalar_value (TypedScalar.bool b) = Value.boolean b

  unfoldable pub severity_eq : SeverityLevel → CompiledFilter F → CompiledFilter F
  unfolding band level_name
  severity_eq level c =
      param (Value.text (codes (level_name level)))
        (param (Value.int (band level).1) (param (Value.int (band level).0) c))

  unfoldable pub emit_severity : CmpOp → SeverityLevel → CompiledFilter F → CompiledFilter F
  unfolding severity_eq band
  emit_severity CmpOp.eq level c = severity_eq level (push severity_eq_sql c)
  emit_severity CmpOp.ne level c =
      severity_eq level (push (fixed "(NOT " ∷ severity_eq_sql ++ fixed ")" ∷ []) c)
  emit_severity CmpOp.ge level c =
      param (Value.int (band level).0) (push (fixed "COALESCE(severity_number >= ?, false)" ∷ []) c)
  emit_severity CmpOp.gt level c =
      param (Value.int (band level).1) (push (fixed "COALESCE(severity_number > ?, false)" ∷ []) c)
  emit_severity CmpOp.le level c =
      param (Value.int (band level).1) (push (fixed "COALESCE(severity_number <= ?, false)" ∷ []) c)
  emit_severity CmpOp.lt level c =
      param (Value.int (band level).0) (push (fixed "COALESCE(severity_number < ?, false)" ∷ []) c)

  unfoldable pub attr_param : AttrScalar → TypedScalar F → Value F
  unfolding scalar_value
  attr_param AttrScalar.bool (TypedScalar.bool b) = Value.text (bool_word b)
  attr_param ty value = scalar_value value

  unfoldable pub emit_attr_regex : List Text → Text → Bool → CompiledFilter F → CompiledFilter F
  unfolding apply_ci attr_value_path
  emit_attr_regex path pattern ci c = param (Value.text (apply_ci pattern ci)) (
      param (Value.text (attr_value_path path)) (
        push
          (fixed "COALESCE(regexp_matches(json_extract_string(attributes_json, ?), ?), false)" ∷ [])
          c))

  unfoldable pub emit_regex_on : String → Text → Bool → CompiledFilter F → CompiledFilter F
  unfolding apply_ci
  emit_regex_on col pattern ci c =
      param (Value.text (apply_ci pattern ci))
        (push (fixed "COALESCE(regexp_matches(" ∷ fixed col ∷ fixed ", ?), false)" ∷ []) c)

  -- The exact fallback of `emit_text`.
  unfoldable pub emit_scan : List Text → CompiledFilter F → CompiledFilter F
  unfolding tokens_to_regex
  emit_scan tokens c = mode TextExecMode.regex_scan (
      param (Value.text (tokens_to_regex tokens))
        (push (fixed "COALESCE(regexp_matches(display_message, ?), false)" ∷ []) c))
