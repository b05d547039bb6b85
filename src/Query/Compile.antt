-- ===== src/Query/Compile.antt =====
-- The query compiler (crates/logscope-query/src/compile.rs). An `unreachable!` is the result
-- `panicked`.
use log_scope.Prelude.{
  ℕ, String, false, List, [], ◌∷◌, ◌++◌, Option, none, some, leb, length, ◌+◌, if◌then◌else◌,
}
use log_scope.Text.{Text}
use log_scope.QueryLang.Ast.{CmpOp}
use log_scope.QueryLang.Resolve.Fields.{CanonicalField}
use log_scope.QueryLang.Resolve.Typed.{TypedScalar, AttrScalar, ResolvedExpr, ResolvedExprs}
use log_scope.Query.Tokens.{text_tokens, tokens_to_fts_expr, attr_value_path, attr_tag_path}
use log_scope.Query.Sql.{
  fixed, count, Sql, Value, TextExecMode, CompiledFilter, Compiling, ok, err, panicked, Found,
  found, failed, FtsIndex, FtsContext, push, param, mode, then_emit,
}
use log_scope.Query.Leaves.{
  max_fts_candidates, canon_column, cmp_sql, scalar_value, emit_severity, canon_cmp_sql, attr_lhs,
  attr_param, emit_attr_regex, emit_regex_on, emit_scan,
}

module _ {F E : Type 0} where
  -- A value that may not be there: `unreachable!` otherwise.
  abbrev pub reached : {A : Type 0} → Option A → (A → Compiling F E) → Compiling F E
  reached none f = panicked
  reached (some a) f = f a

  unfoldable pub emit_canon_cmp :
      CanonicalField → CmpOp → TypedScalar F → CompiledFilter F → Compiling F E
  unfolding canon_column cmp_sql
  emit_canon_cmp field op value c = reached (canon_column field) λ col.
      reached (cmp_sql op)
        λ sql_op. ok (param (scalar_value value) (push (canon_cmp_sql field op col sql_op) c))

  unfoldable pub emit_attr_cmp :
      List Text → AttrScalar → CmpOp → TypedScalar F → CompiledFilter F → Compiling F E
  unfolding cmp_sql attr_param attr_value_path
  emit_attr_cmp path ty op value c = reached (cmp_sql op) λ sql_op. ok (
      param (attr_param ty value) (
        param (Value.text (attr_value_path path)) (
          push
            (fixed "COALESCE(" ∷ attr_lhs ty ++ fixed " " ∷ fixed sql_op ∷ fixed " ?, false)" ∷ [])
            c)))

  -- `(NOT `…`)`
  abbrev pub negated : (CompiledFilter F → Compiling F E) → CompiledFilter F → Compiling F E
  negated f c = then_emit (f (push (fixed "(NOT " ∷ []) c)) λ c'. ok (push (fixed ")" ∷ []) c')

  -- `!=` is compiled as the negation of `=`.
  unfoldable pub emit_canon :
      CanonicalField → CmpOp → TypedScalar F → CompiledFilter F → Compiling F E
  unfolding emit_canon_cmp
  emit_canon field CmpOp.ne value c = negated (emit_canon_cmp field CmpOp.eq value) c
  emit_canon field op value c = emit_canon_cmp field op value c

  unfoldable pub emit_attr :
      List Text → AttrScalar → CmpOp → TypedScalar F → CompiledFilter F → Compiling F E
  unfolding emit_attr_cmp
  emit_attr path ty CmpOp.ne value c = negated (emit_attr_cmp path ty CmpOp.eq value) c
  emit_attr path ty op value c = emit_attr_cmp path ty op value c

module _ {F : Type 0} where
  -- `qtext_`…
  abbrev pub table_name : CompiledFilter F → Sql
  table_name c = fixed "qtext_" ∷ count (length c.temp_tables) ∷ []

  unfoldable pub use_hits : List Text → CompiledFilter F → CompiledFilter F
  use_hits ids c =
      mode TextExecMode.fts_index
        (record (push
          (fixed "(record_id IN (SELECT record_id FROM " ∷ table_name c ++ fixed "))" ∷ []) c) {
            temp_tables = c.temp_tables ++ (table_name c, ids) ∷ [];
          })

module _ {F E : Type 0} where
  -- What the search gave.
  unfoldable pub with_hits : Found E (List Text) → CompiledFilter F → Compiling F E
  unfolding use_hits
  with_hits (failed e) c = err e
  with_hits (found ids) c = ok (use_hits ids c)

  -- What the count gave: few enough hits are looked up.
  unfoldable pub with_count : FtsIndex E → List Text → Found E ℕ → CompiledFilter F → Compiling F E
  unfolding with_hits emit_scan
  with_count index tokens (failed e) c = err e
  with_count index tokens (found hits) c =
      if leb hits max_fts_candidates
      then with_hits (index.search_logs_expr (tokens_to_fts_expr tokens) (max_fts_candidates + 1)) c
      else ok (emit_scan tokens c)

  unfoldable pub emit_text : Option (FtsIndex E) → List Text → CompiledFilter F → Compiling F E
  unfolding with_count emit_scan
  emit_text index [] c = ok (push (fixed "false" ∷ []) c)
  emit_text none (t ∷ ts) c = ok (emit_scan (t ∷ ts) c)
  emit_text (some index) (t ∷ ts) c =
      with_count index (t ∷ ts)
        (index.count_logs_expr (tokens_to_fts_expr (t ∷ ts)) max_fts_candidates) c

module _ {F E : Type 0} (fts : FtsContext E) where
  unfoldable mutual
    unfolding emit_text emit_severity emit_canon emit_attr emit_regex_on emit_attr_regex
        canon_column text_tokens attr_tag_path

    pub emit : ResolvedExpr F → CompiledFilter F → Compiling F E
    emit (ResolvedExpr.and items) c =
        then_emit (emit_items " AND " items (push (fixed "(" ∷ []) c))
          λ c'. ok (push (fixed ")" ∷ []) c')
    emit (ResolvedExpr.or items) c =
        then_emit (emit_items " OR " items (push (fixed "(" ∷ []) c))
          λ c'. ok (push (fixed ")" ∷ []) c')
    emit (ResolvedExpr.not e) c = negated (emit e) c
    emit (ResolvedExpr.term t) c = emit_text fts.index (text_tokens fts.is_alphanumeric t) c
    emit (ResolvedExpr.phrase t) c = emit_text fts.index (text_tokens fts.is_alphanumeric t) c
    emit (ResolvedExpr.severity op level) c = ok (emit_severity op level c)
    emit (ResolvedExpr.canon field op value) c = emit_canon field op value c
    emit (ResolvedExpr.canon_exists field) c =
        reached (canon_column field)
          λ col. ok (push (fixed "(" ∷ fixed col ∷ fixed " IS NOT NULL)" ∷ []) c)
    emit (ResolvedExpr.canon_wildcard field regex original) c =
        reached (canon_column field) λ col. ok (emit_regex_on col regex false c)
    emit (ResolvedExpr.canon_regex field pattern ci) c =
        reached (canon_column field) λ col. ok (emit_regex_on col pattern ci c)
    emit (ResolvedExpr.attr path ty op value) c = emit_attr path ty op value c
    emit (ResolvedExpr.attr_exists path) c = ok (
        param (Value.text (attr_tag_path path)) (
          push (fixed "COALESCE(json_extract_string(attributes_json, ?) <> 'empty', false)" ∷ [])
            c))
    emit (ResolvedExpr.attr_wildcard path regex original) c =
        ok (emit_attr_regex path regex false c)
    emit (ResolvedExpr.attr_regex path pattern ci) c = ok (emit_attr_regex path pattern ci c)

    -- The loop over the items of `AND` and `OR`, and the rest of it behind the first item.
    pub emit_items : String → ResolvedExprs F → CompiledFilter F → Compiling F E
    emit_items sep ResolvedExprs.nil c = ok c
    emit_items sep (ResolvedExprs.cons e es) c = then_emit (emit e c) (emit_more sep es)

    pub emit_more : String → ResolvedExprs F → CompiledFilter F → Compiling F E
    emit_more sep ResolvedExprs.nil c = ok c
    emit_more sep (ResolvedExprs.cons e es) c =
        then_emit (emit e (push (fixed sep ∷ []) c)) (emit_more sep es)

abbrev pub new_filter : {F : Type 0} → CompiledFilter F
new_filter = record { where_sql = []; params = []; temp_tables = []; text_modes = [] }

unfoldable pub compile_filter :
    {F E : Type 0} → Option (ResolvedExpr F) → FtsContext E → Compiling F E
unfolding emit
compile_filter none fts = ok (push (fixed "true" ∷ []) new_filter)
compile_filter (some e) fts = emit fts e new_filter
