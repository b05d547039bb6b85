-- ===== src/Query/Compiled.antt =====
-- The compiler on typed queries: it returns, unless it meets an existence test of the severity.
use log_scope.Prelude.{
  ◌≡◌, ◌≢◌, refl, inl, inr, String, true, Bool-cases, List, [], ◌∷◌, Option, none, some, leb,
}
use log_scope.Text.{Text}
use log_scope.QueryLang.Diag.{LangLimits}
use log_scope.QueryLang.Ast.{RawExpr, CmpOp}
use log_scope.QueryLang.Resolve.Fields.{CanonicalField}
use log_scope.QueryLang.Resolve.Literals.{is_some}
use log_scope.QueryLang.Resolve.Typed.{
  CatalogView, TypedScalar, AttrScalar, ResolvedExpr, ResolvedExprs,
}
use log_scope.QueryLang.Resolve.Engine.{Engine}
use log_scope.QueryLang.Resolve.Meaning.{Means}
use log_scope.Query.Tokens.{tokens_to_fts_expr}
use log_scope.Query.Sql.{
  CompiledFilter, Compiling, ok, err, panicked, Found, found, failed, FtsIndex, FtsContext,
  then_emit,
}
use log_scope.Query.Leaves.{max_fts_candidates, canon_column, cmp_sql}
use log_scope.Query.Compile.{
  reached, emit_canon_cmp, emit_attr_cmp, negated, emit_canon, emit_attr, with_hits, with_count,
  emit_text, emit, emit_items, emit_more, new_filter, compile_filter,
}
use log_scope.Query.Reached.{HasColumn, HasColumns, HaveColumns, TestsColumns, Means-HasColumns}

module _ {F E : Type 0} where
  data Returns : Compiling F E → Type 0 where
    done : {c : CompiledFilter F} → Returns (ok c)
    refused : {e : E} → Returns (err e)

  Returns-apart : {r : Compiling F E} → Returns r → r ≢ panicked
  Returns-apart done = cc
  Returns-apart refused = cc

  Returns-then :
      {r : Compiling F E} (f : CompiledFilter F → Compiling F E)
      → Returns r
      → ((c : CompiledFilter F) → Returns (f c))
      → Returns (then_emit r f)
  Returns-then f (done {c}) k = k c
  Returns-then f refused k = refused

  Returns-negated :
      (f : CompiledFilter F → Compiling F E) (c : CompiledFilter F)
      → ((c' : CompiledFilter F) → Returns (f c'))
      → Returns (negated f c)
  Returns-negated f c h = Returns-then _ (h _) λ c'. done

  Returns-reached :
      {A : Type 0} (o : Option A) (f : A → Compiling F E)
      → is_some o ≡ true
      → ((a : A) → Returns (f a))
      → Returns (reached o f)
  Returns-reached none f h k = absurd (cc h)
  Returns-reached (some a) f h k = k a

  emit_canon_cmp-Returns :
      (f : CanonicalField) (op : CmpOp) (v : TypedScalar F) (c : CompiledFilter F)
      → HasColumn f
      → is_some (cmp_sql op) ≡ true
      → Returns (emit_canon_cmp f op v c)
  unfolding emit_canon_cmp
  emit_canon_cmp-Returns f op v c h k =
      Returns-reached (canon_column f) _ h λ col. Returns-reached (cmp_sql op) _ k λ s. done

  emit_canon-Returns :
      (f : CanonicalField) (op : CmpOp) (v : TypedScalar F) (c : CompiledFilter F)
      → HasColumn f
      → Returns (emit_canon f op v c)
  unfolding emit_canon cmp_sql
  emit_canon-Returns f CmpOp.ne v c h =
      Returns-negated _ c λ c'. emit_canon_cmp-Returns f CmpOp.eq v c' h refl
  emit_canon-Returns f CmpOp.eq v c h = emit_canon_cmp-Returns f CmpOp.eq v c h refl
  emit_canon-Returns f CmpOp.gt v c h = emit_canon_cmp-Returns f CmpOp.gt v c h refl
  emit_canon-Returns f CmpOp.ge v c h = emit_canon_cmp-Returns f CmpOp.ge v c h refl
  emit_canon-Returns f CmpOp.lt v c h = emit_canon_cmp-Returns f CmpOp.lt v c h refl
  emit_canon-Returns f CmpOp.le v c h = emit_canon_cmp-Returns f CmpOp.le v c h refl

  emit_attr-Returns :
      (path : List Text) (ty : AttrScalar) (op : CmpOp) (v : TypedScalar F) (c : CompiledFilter F)
      → Returns (emit_attr path ty op v c)
  unfolding emit_attr emit_attr_cmp cmp_sql
  emit_attr-Returns path ty CmpOp.ne v c = done
  emit_attr-Returns path ty _ v c = done

  with_hits-Returns : (r : Found E (List Text)) (c : CompiledFilter F) → Returns (with_hits r c)
  unfolding with_hits
  with_hits-Returns (failed e) c = refused
  with_hits-Returns (found ids) c = done

  with_count-Returns :
      (index : FtsIndex E) (tokens : List Text) (r : Found E _) (c : CompiledFilter F)
      → Returns (with_count index tokens r c)
  unfolding with_count
  with_count-Returns index tokens (failed e) c = refused
  with_count-Returns index tokens (found hits) c = elim (Bool-cases (leb hits max_fts_candidates)) [
    | inl few ↦ rw few (with_hits-Returns _ c)
    | inr many ↦ rw many done
  ]

  emit_text-Returns :
      (index : Option (FtsIndex E)) (tokens : List Text) (c : CompiledFilter F)
      → Returns (emit_text index tokens c)
  unfolding emit_text
  emit_text-Returns index [] c = done
  emit_text-Returns none (t ∷ ts) c = done
  emit_text-Returns (some index) (t ∷ ts) c =
      with_count-Returns index (t ∷ ts)
        (index.count_logs_expr (tokens_to_fts_expr (t ∷ ts)) max_fts_candidates) c

module _ {F E : Type 0} (fts : FtsContext E) where
  mutual
    unfolding emit HasColumns

    emit-Returns :
        (e : ResolvedExpr F) (c : CompiledFilter F) → HasColumns e → Returns (emit fts e c)
    emit-Returns (ResolvedExpr.and items) c h =
        Returns-then _ (emit_items-Returns " AND " items _ h) λ c'. done
    emit-Returns (ResolvedExpr.or items) c h =
        Returns-then _ (emit_items-Returns " OR " items _ h) λ c'. done
    emit-Returns (ResolvedExpr.not e) c h = Returns-negated _ c λ c'. emit-Returns e c' h
    emit-Returns (ResolvedExpr.term t) c h = emit_text-Returns fts.index _ c
    emit-Returns (ResolvedExpr.phrase t) c h = emit_text-Returns fts.index _ c
    emit-Returns (ResolvedExpr.severity op l) c h = done
    emit-Returns (ResolvedExpr.canon f op v) c h = emit_canon-Returns f op v c h
    emit-Returns (ResolvedExpr.canon_exists f) c h =
        Returns-reached (canon_column f) _ h λ col. done
    emit-Returns (ResolvedExpr.canon_wildcard f regex original) c h =
        Returns-reached (canon_column f) _ h λ col. done
    emit-Returns (ResolvedExpr.canon_regex f p ci) c h =
        Returns-reached (canon_column f) _ h λ col. done
    emit-Returns (ResolvedExpr.attr path ty op v) c h = emit_attr-Returns path ty op v c
    emit-Returns (ResolvedExpr.attr_exists path) c h = done
    emit-Returns (ResolvedExpr.attr_wildcard path regex original) c h = done
    emit-Returns (ResolvedExpr.attr_regex path p ci) c h = done

    emit_items-Returns :
        (sep : String) (es : ResolvedExprs F) (c : CompiledFilter F)
        → HaveColumns es
        → Returns (emit_items fts sep es c)
    emit_items-Returns sep ResolvedExprs.nil c h = done
    emit_items-Returns sep (ResolvedExprs.cons e es) c (h, hs) =
        Returns-then _ (emit-Returns e c h) λ c'. emit_more-Returns sep es c' hs

    emit_more-Returns :
        (sep : String) (es : ResolvedExprs F) (c : CompiledFilter F)
        → HaveColumns es
        → Returns (emit_more fts sep es c)
    emit_more-Returns sep ResolvedExprs.nil c h = done
    emit_more-Returns sep (ResolvedExprs.cons e es) c (h, hs) =
        Returns-then _ (emit-Returns e _ h) λ c'. emit_more-Returns sep es c' hs

-- The compiler reaches no `unreachable!` on a typed query that the resolver makes of a tree, when
-- every existence test in it is on a field with a column, as all but the severity's are.
pub compile_filter-returns :
    {F E : Type 0} (catalog : CatalogView) (x : Engine F) (limits : LangLimits) (fts : FtsContext E)
    (e : RawExpr) (r : ResolvedExpr F)
    → Means catalog x limits e r
    → TestsColumns r
    → compile_filter (some r) fts ≢ panicked
unfolding compile_filter
compile_filter-returns catalog x limits fts e r means tests =
    Returns-apart (emit-Returns fts r new_filter (Means-HasColumns x limits catalog means tests))
