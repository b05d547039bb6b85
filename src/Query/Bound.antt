-- ===== src/Query/Bound.antt =====
-- Every value of a compiled query is a bound parameter.
use log_scope.Prelude.{
  ℕ, ◌≡◌, ◌∙◌, refl, ap, String, Bool, false, List, [], ◌∷◌, ◌++◌, append_assoc, append-nil, sym,
  subst, Option, none, some, leb, length, Bool-cases, inl, inr, arith,
}
use log_scope.Text.{Text, codes}
use log_scope.QueryLang.Ast.{CmpOp}
use log_scope.QueryLang.Resolve.Fields.{CanonicalField}
use log_scope.QueryLang.Resolve.Levels.{SeverityLevel, level_name}
use log_scope.QueryLang.Resolve.Typed.{TypedScalar, AttrScalar, ResolvedExpr, ResolvedExprs}
use log_scope.Query.Tokens.{tokens_to_fts_expr}
use log_scope.Query.Sql.{
  fixed, Value, CompiledFilter, Compiling, ok, Found, found, failed, FtsIndex, FtsContext,
}
use log_scope.Query.Leaves.{
  max_fts_candidates, canon_column, emit_severity, severity_eq, severity_eq_sql, emit_attr_regex,
  emit_regex_on, emit_scan,
}
use log_scope.Query.Compile.{
  negated, emit_canon, emit_attr, use_hits, with_hits, with_count, emit_text, emit, emit_items,
  emit_more, new_filter, compile_filter,
}
use log_scope.Query.Placeholders.{
  marks, placeholders, Paired, Binds, emitted, refused, stopped, Binds-leaf, reached-Binds,
  Binds-then, Binds-push, Binds-close, emit_canon_cmp-Binds, emit_attr_cmp-Binds,
  canon_column-marks, no_marks,
}

module _ {F E : Type 0} where
  negated-Binds :
      (f : CompiledFilter F → Compiling F E) (c : CompiledFilter F)
      → ((c' : CompiledFilter F) → Binds c' (f c'))
      → Binds c (negated f c)
  negated-Binds f c h =
      Binds-push (fixed "(NOT " ∷ []) refl (Binds-then _ (h _) λ c'. Binds-close _ c' refl)

  emit_canon-Binds :
      (f : CanonicalField) (op : CmpOp) (v : TypedScalar F) (c : CompiledFilter F)
      → Binds {E = E} c (emit_canon f op v c)
  unfolding emit_canon
  emit_canon-Binds f CmpOp.ne v c = negated-Binds _ c (emit_canon_cmp-Binds f CmpOp.eq v)
  emit_canon-Binds f CmpOp.eq v c = emit_canon_cmp-Binds f CmpOp.eq v c
  emit_canon-Binds f CmpOp.gt v c = emit_canon_cmp-Binds f CmpOp.gt v c
  emit_canon-Binds f CmpOp.ge v c = emit_canon_cmp-Binds f CmpOp.ge v c
  emit_canon-Binds f CmpOp.lt v c = emit_canon_cmp-Binds f CmpOp.lt v c
  emit_canon-Binds f CmpOp.le v c = emit_canon_cmp-Binds f CmpOp.le v c

  emit_attr-Binds :
      (path : List Text) (ty : AttrScalar) (op : CmpOp) (v : TypedScalar F) (c : CompiledFilter F)
      → Binds {E = E} c (emit_attr path ty op v c)
  unfolding emit_attr
  emit_attr-Binds path ty CmpOp.ne v c = negated-Binds _ c (emit_attr_cmp-Binds path ty CmpOp.eq v)
  emit_attr-Binds path ty CmpOp.eq v c = emit_attr_cmp-Binds path ty CmpOp.eq v c
  emit_attr-Binds path ty CmpOp.gt v c = emit_attr_cmp-Binds path ty CmpOp.gt v c
  emit_attr-Binds path ty CmpOp.ge v c = emit_attr_cmp-Binds path ty CmpOp.ge v c
  emit_attr-Binds path ty CmpOp.lt v c = emit_attr_cmp-Binds path ty CmpOp.lt v c
  emit_attr-Binds path ty CmpOp.le v c = emit_attr_cmp-Binds path ty CmpOp.le v c

  emit_severity-Binds :
      (op : CmpOp) (l : SeverityLevel) (c : CompiledFilter F)
      → Binds {E = E} c (ok (emit_severity op l c))
  unfolding emit_severity severity_eq
  emit_severity-Binds CmpOp.eq l c = Binds-leaf severity_eq_sql (_ ∷ _ ∷ _ ∷ []) c _ refl refl (
      ap (λ ps. ps ++ Value.text (codes (level_name l)) ∷ []) (append_assoc c.params _ _)
      ∙ append_assoc c.params _ _)
  emit_severity-Binds CmpOp.ne l c =
      Binds-leaf (fixed "(NOT " ∷ severity_eq_sql ++ fixed ")" ∷ []) (_ ∷ _ ∷ _ ∷ []) c _ refl refl
        (ap (λ ps. ps ++ Value.text (codes (level_name l)) ∷ []) (append_assoc c.params _ _)
          ∙ append_assoc c.params _ _)
  emit_severity-Binds CmpOp.gt l c = Binds-leaf _ (_ ∷ []) c _ refl refl refl
  emit_severity-Binds CmpOp.ge l c = Binds-leaf _ (_ ∷ []) c _ refl refl refl
  emit_severity-Binds CmpOp.lt l c = Binds-leaf _ (_ ∷ []) c _ refl refl refl
  emit_severity-Binds CmpOp.le l c = Binds-leaf _ (_ ∷ []) c _ refl refl refl

  emit_attr_regex-Binds :
      (path : List Text) (p : Text) (ci : Bool) (c : CompiledFilter F)
      → Binds {E = E} c (ok (emit_attr_regex path p ci c))
  unfolding emit_attr_regex
  emit_attr_regex-Binds path p ci c =
      Binds-leaf _ (_ ∷ _ ∷ []) c _ refl refl (append_assoc c.params _ _)

  emit_regex_on-Binds :
      (col : String) (p : Text) (ci : Bool) (c : CompiledFilter F)
      → marks (codes col) ≡ 0
      → Binds {E = E} c (ok (emit_regex_on col p ci c))
  unfolding emit_regex_on
  emit_regex_on-Binds col p ci c h = Binds-leaf _ (_ ∷ []) c _ (rw h refl) refl refl

  emit_scan-Binds :
      (tokens : List Text) (c : CompiledFilter F) → Binds {E = E} c (ok (emit_scan tokens c))
  unfolding emit_scan
  emit_scan-Binds tokens c = Binds-leaf _ (_ ∷ []) c _ refl refl refl

  with_hits-Binds : (r : Found E (List Text)) (c : CompiledFilter F) → Binds c (with_hits r c)
  unfolding with_hits use_hits
  with_hits-Binds (failed e) c = refused
  with_hits-Binds (found ids) c = Binds-leaf _ [] c _ refl refl (sym (append-nil c.params))

  with_count-Binds :
      (index : FtsIndex E) (tokens : List Text) (r : Found E ℕ) (c : CompiledFilter F)
      → Binds c (with_count index tokens r c)
  unfolding with_count
  with_count-Binds index tokens (failed e) c = refused
  with_count-Binds index tokens (found hits) c = elim (Bool-cases (leb hits max_fts_candidates)) [
    | inl few ↦ rw few (with_hits-Binds _ c)
    | inr many ↦ rw many (emit_scan-Binds tokens c)
  ]

  emit_text-Binds :
      (index : Option (FtsIndex E)) (tokens : List Text) (c : CompiledFilter F)
      → Binds c (emit_text index tokens c)
  unfolding emit_text
  emit_text-Binds index [] c = Binds-close _ c refl
  emit_text-Binds none (t ∷ ts) c = emit_scan-Binds (t ∷ ts) c
  emit_text-Binds (some index) (t ∷ ts) c =
      with_count-Binds index (t ∷ ts)
        (index.count_logs_expr (tokens_to_fts_expr (t ∷ ts)) max_fts_candidates) c

module _ {F E : Type 0} (fts : FtsContext E) where
  mutual
    unfolding emit

    emit-Binds : (e : ResolvedExpr F) (c : CompiledFilter F) → Binds c (emit fts e c)
    emit-Binds (ResolvedExpr.and items) c =
        Binds-push (fixed "(" ∷ []) refl
          (Binds-then _ (emit_items-Binds " AND " refl items _) λ c'. Binds-close _ c' refl)
    emit-Binds (ResolvedExpr.or items) c =
        Binds-push (fixed "(" ∷ []) refl
          (Binds-then _ (emit_items-Binds " OR " refl items _) λ c'. Binds-close _ c' refl)
    emit-Binds (ResolvedExpr.not e) c = negated-Binds (emit fts e) c (emit-Binds e)
    emit-Binds (ResolvedExpr.term t) c = emit_text-Binds fts.index _ c
    emit-Binds (ResolvedExpr.phrase t) c = emit_text-Binds fts.index _ c
    emit-Binds (ResolvedExpr.severity op l) c = emit_severity-Binds op l c
    emit-Binds (ResolvedExpr.canon f op v) c = emit_canon-Binds f op v c
    emit-Binds (ResolvedExpr.canon_exists f) c = reached-Binds (canon_column f) _ c λ col is.
        Binds-close _ c (rw (no_marks (canon_column f) col (canon_column-marks f) is) refl)
    emit-Binds (ResolvedExpr.canon_wildcard f regex original) c =
        reached-Binds (canon_column f) _ c λ col is.
          emit_regex_on-Binds col regex false c
            (no_marks (canon_column f) col (canon_column-marks f) is)
    emit-Binds (ResolvedExpr.canon_regex f p ci) c = reached-Binds (canon_column f) _ c λ col is.
        emit_regex_on-Binds col p ci c (no_marks (canon_column f) col (canon_column-marks f) is)
    emit-Binds (ResolvedExpr.attr path ty op v) c = emit_attr-Binds path ty op v c
    emit-Binds (ResolvedExpr.attr_exists path) c = Binds-leaf _ (_ ∷ []) c _ refl refl refl
    emit-Binds (ResolvedExpr.attr_wildcard path regex original) c =
        emit_attr_regex-Binds path regex false c
    emit-Binds (ResolvedExpr.attr_regex path p ci) c = emit_attr_regex-Binds path p ci c

    emit_items-Binds :
        (sep : String)
        → marks (codes sep) ≡ 0
        → (es : ResolvedExprs F) (c : CompiledFilter F) → Binds c (emit_items fts sep es c)
    emit_items-Binds sep h ResolvedExprs.nil c = emitted refl
    emit_items-Binds sep h (ResolvedExprs.cons e es) c =
        Binds-then _ (emit-Binds e c) (emit_more-Binds sep h es)

    emit_more-Binds :
        (sep : String)
        → marks (codes sep) ≡ 0
        → (es : ResolvedExprs F) (c : CompiledFilter F) → Binds c (emit_more fts sep es c)
    emit_more-Binds sep h ResolvedExprs.nil c = emitted refl
    emit_more-Binds sep h (ResolvedExprs.cons e es) c =
        Binds-push (fixed sep ∷ []) (rw h refl)
          (Binds-then _ (emit-Binds e _) (emit_more-Binds sep h es))

Binds-ok :
    {F E : Type 0} {c f : CompiledFilter F} {r : Compiling F E} → Binds c r → r ≡ ok f → Paired c f
Binds-ok {c} {f} (emitted {c'} h) e = let same : c' ≡ f = cc e in subst (Paired c) same h
Binds-ok refused e = absurd (cc e)
Binds-ok stopped e = absurd (cc e)

compile_filter-Binds :
    {F E : Type 0} (e : Option (ResolvedExpr F)) (fts : FtsContext E)
    → Binds new_filter (compile_filter e fts)
unfolding compile_filter
compile_filter-Binds none fts = Binds-close _ new_filter refl
compile_filter-Binds (some e) fts = emit-Binds fts e new_filter

-- The SQL of a compiled query has one placeholder for each bound parameter. (Its other parts are
-- texts of the program and numbers, by its type: no value of the query stands in it.)
pub compile_filter-placeholders :
    {F E : Type 0} (e : Option (ResolvedExpr F)) (fts : FtsContext E) (f : CompiledFilter F)
    → compile_filter e fts ≡ ok f
    → placeholders f.where_sql ≡ length f.params
compile_filter-placeholders e fts f h =
    let paired = Binds-ok (compile_filter-Binds e fts) h in omega (arith, paired)
