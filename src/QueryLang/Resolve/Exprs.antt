-- ===== src/QueryLang/Resolve/Exprs.antt =====
-- The resolver over the syntax tree, and `resolve` (crates/logscope-query-lang/src/resolve.rs).
use log_scope.Prelude.{
  ℕ, suc, Bool, true, false, List, [], ◌∷◌, ◌++◌, Option, none, some, ◌==◌, ltb, if◌then◌else◌,
}
use log_scope.QueryLang.Diag.{
  default_span, Span, lit, number, diag_error, diag_warning, with_hint, Diagnostic, LangLimits,
}
use log_scope.QueryLang.Ast.{
  RawValue, RawValueExpr, RawValueExprs, RawExpr, RawExprs, expr_span, CmpOp, RawField,
}
use log_scope.QueryLang.Lexer.{unescape_word}
use log_scope.QueryLang.Resolve.Fields.{CanonicalField, display}
use log_scope.QueryLang.Resolve.Literals.{is_blank}
use log_scope.QueryLang.Resolve.Typed.{
  FieldResolution, CatalogView, ResolvedExpr, ResolvedExprs, ResolvedQuery, language_version,
}
use log_scope.QueryLang.Resolve.Engine.{fingerprint, Engine}
use log_scope.QueryLang.Resolve.Notes.{
  Notes, Resolving, ◌>>=◌, ◌>>◌, pure, fail, warn, when, count_clause,
}
use log_scope.QueryLang.Resolve.Checks.{is_eq, resolve_field}
use log_scope.QueryLang.Resolve.Canonical.{canonical_predicate}
use log_scope.QueryLang.Resolve.Attributes.{attr_predicate}

unfoldable pub always_present : CanonicalField → Bool
always_present CanonicalField.message = true
always_present CanonicalField.dataset = true
always_present CanonicalField.record_id = true
always_present _ = false

unfoldable pub exists_op : Span → Diagnostic
exists_op span = diag_error "lang/exists-op" (lit "existence `*` only combines with `:`" ∷ []) span

unfoldable pub present_everywhere : CanonicalField → Span → Diagnostic
present_everywhere f span =
    diag_warning "lang/always-present"
      (lit "`" ∷ lit (display f) ∷ lit "` is present on every record" ∷ []) span

-- An existence test of a resolved field; the last clause is not reached.
unfoldable pub exists_of : {F : Type 0} → Span → FieldResolution → Resolving (ResolvedExpr F)
unfolding present_everywhere
exists_of span (FieldResolution.canonical f) = do
  when (always_present f) (warn (present_everywhere f span))
  pure (ResolvedExpr.canon_exists f)
exists_of span (FieldResolution.attr info) = pure (ResolvedExpr.attr_exists info.path)
exists_of span _ = λ n. (none, n)

unfoldable pub empty_phrase : Span → Diagnostic
empty_phrase span = diag_error "lang/empty-phrase" (lit "empty phrase matches nothing" ∷ []) span

unfoldable pub wildcard_in_text : Span → Diagnostic
wildcard_in_text span =
    with_hint
      (diag_warning "lang/wildcard-in-text"
        (lit "wildcards only apply to field values; here `*`/`?` match literally" ∷ []) span)
      "use message:web-* for a wildcard match on the message"

-- `Vec::len`
abbrev pub raw_length : RawExprs → ℕ
raw_length RawExprs.nil = 0
raw_length (RawExprs.cons e es) = suc (raw_length es)

abbrev pub value_length : RawValueExprs → ℕ
value_length RawValueExprs.nil = 0
value_length (RawValueExprs.cons e es) = suc (value_length es)

module _ {F : Type 0} where
  abbrev pub resolved_length : ResolvedExprs F → ℕ
  resolved_length ResolvedExprs.nil = 0
  resolved_length (ResolvedExprs.cons e es) = suc (resolved_length es)

  -- What `filter_map` keeps of one item.
  abbrev pub keep : Option (ResolvedExpr F) → ResolvedExprs F → ResolvedExprs F
  keep none es = es
  keep (some e) es = ResolvedExprs.cons e es

  -- The items joined, unless one of them was refused.
  unfoldable pub all_kept :
      (ResolvedExprs F → ResolvedExpr F)
      → ℕ
      → ResolvedExprs F × Notes
      → Option (ResolvedExpr F) × Notes
  all_kept c count (es, n) = if resolved_length es == count then (some (c es), n) else (none, n)

module _ {F : Type 0} (catalog : CatalogView) (x : Engine F) (limits : LangLimits) where
  -- The match on the resolution; the last clause is not reached.
  unfoldable pub valued_predicate :
      RawField → CmpOp → RawValue → FieldResolution → Resolving (ResolvedExpr F)
  valued_predicate field op value (FieldResolution.canonical f) =
      canonical_predicate x limits f field op value
  valued_predicate field op value (FieldResolution.attr info) =
      attr_predicate x limits info field op value
  valued_predicate field op value _ = λ n. (none, n)

  -- `predicate`, behind the resolution of the field
  unfoldable pub predicate_of :
      RawField → CmpOp → RawValue → FieldResolution → Resolving (ResolvedExpr F)
  unfolding exists_of exists_op valued_predicate
  predicate_of field op (RawValue.star span) r =
      if is_eq op then exists_of span r else fail (exists_op span)
  predicate_of field op value r = valued_predicate field op value r

  unfoldable pub predicate : RawField → CmpOp → RawValue → Resolving (ResolvedExpr F)
  unfolding predicate_of
  predicate field op value = do
    resolution ← resolve_field catalog field
    predicate_of field op value resolution

  unfoldable mutual
    pub group : RawField → RawValueExpr → Resolving (ResolvedExpr F)
    group field (RawValueExpr.value v) = count_clause >> predicate field CmpOp.eq v
    group field (RawValueExpr.not e span) = do inner ← group field e; pure (ResolvedExpr.not inner)
    group field (RawValueExpr.and es span) =
        λ n. all_kept ResolvedExpr.and (value_length es) (groups field es n)
    group field (RawValueExpr.or es span) =
        λ n. all_kept ResolvedExpr.or (value_length es) (groups field es n)

    pub groups : RawField → RawValueExprs → Notes → ResolvedExprs F × Notes
    groups field RawValueExprs.nil n = (ResolvedExprs.nil, n)
    groups field (RawValueExprs.cons e es) n =
        let (r, n1) = group field e n in let (rs, n2) = groups field es n1 in (keep r rs, n2)

  unfoldable mutual
    pub expr : RawExpr → Resolving (ResolvedExpr F)
    expr (RawExpr.term t wildcard span) = do
      count_clause
      when wildcard (warn (wildcard_in_text span))
      pure (ResolvedExpr.term (unescape_word t))
    expr (RawExpr.phrase t span) =
        count_clause
        >> (if is_blank t then fail (empty_phrase span) else pure (ResolvedExpr.phrase t))
    expr (RawExpr.cmp field op value span) = count_clause >> predicate field op value
    expr (RawExpr.group field e span) = group field e
    expr (RawExpr.not e span) = do inner ← expr e; pure (ResolvedExpr.not inner)
    expr (RawExpr.and es span) = λ n. all_kept ResolvedExpr.and (raw_length es) (exprs es n)
    expr (RawExpr.or es span) = λ n. all_kept ResolvedExpr.or (raw_length es) (exprs es n)

    pub exprs : RawExprs → Notes → ResolvedExprs F × Notes
    exprs RawExprs.nil n = (ResolvedExprs.nil, n)
    exprs (RawExprs.cons e es) n =
        let (r, n1) = expr e n in let (rs, n2) = exprs es n1 in (keep r rs, n2)

-- `Result<ResolvedQuery, Vec<Diagnostic>>`
pub data ResolveResult (F : Type 0) : Type 0 where
  ok : ResolvedQuery F → ResolveResult F
  err : List Diagnostic → ResolveResult F

abbrev pub new_notes : Notes
new_notes = record { errors = []; warnings = []; clauses = 0 }

unfoldable pub too_many_clauses : LangLimits → ℕ → Span → Diagnostic
too_many_clauses limits clauses span =
    diag_error "lang/too-many-clauses"
      (lit "query has "
        ∷ number clauses
        ∷ lit " predicates; the maximum is "
        ∷ number limits.max_clauses
        ∷ [])
      span

-- The check of the clause count behind the walk.
unfoldable pub check_clauses : LangLimits → Span → Notes → Notes
unfolding too_many_clauses
check_clauses limits span n =
    if ltb limits.max_clauses n.clauses
    then record n { errors = n.errors ++ too_many_clauses limits n.clauses span ∷ [] }
    else n

abbrev pub ast_span : Option RawExpr → Span
ast_span none = default_span
ast_span (some e) = expr_span e

module _ {F : Type 0} (x : Engine F) where
  unfoldable pub outcome :
      Option (ResolvedExpr F) → List Diagnostic → List Diagnostic → ResolveResult F
  outcome e (d ∷ ds) warnings = err (d ∷ ds)
  outcome e [] warnings = ok (record {
    expr = e;
    language_version = language_version;
    fingerprint = fingerprint x e;
    warnings = warnings;
  })

module _ {F : Type 0} (catalog : CatalogView) (x : Engine F) (limits : LangLimits) where
  -- `ast.and_then(|a| r.expr(a))`
  abbrev pub walk : Option RawExpr → Resolving (ResolvedExpr F)
  walk none n = (none, n)
  walk (some e) n = expr catalog x limits e n

  unfoldable pub resolve : Option RawExpr → ResolveResult F
  unfolding outcome check_clauses
  resolve ast =
      let (e, n) = walk ast new_notes in
      let checked = check_clauses limits (ast_span ast) n in
      outcome x e checked.errors checked.warnings
