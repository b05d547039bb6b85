-- ===== src/QueryLang/Resolve/Outcome.antt =====
-- What `resolve` returns, and what it makes of a wildcard behind an operator.
use log_scope.Prelude.{
  ◌+◌, ◌≤◌, ◌≡◌, refl, inl, inr, true, Bool-cases, List, [], ◌∷◌, ◌++◌, Option, none, some, ltb,
  not-ltb→le, le→not-ltb, arith, All, All-append, subst, false,
}
use log_scope.Text.{Text}
use log_scope.QueryLang.Diag.{Span, Diagnostic, is_error, LangLimits}
use log_scope.QueryLang.Ast.{RawValue, RawField, CmpOp, RawExpr, expr_span}
use log_scope.QueryLang.Resolve.Typed.{
  AttrFieldInfo, CatalogView, FieldResolution, ResolvedExpr, ResolvedQuery,
}
use log_scope.QueryLang.Resolve.Engine.{Engine, fingerprint}
use log_scope.QueryLang.Resolve.Notes.{Notes, Resolving, and_then}
use log_scope.QueryLang.Resolve.Checks.{resolve_field}
use log_scope.QueryLang.Resolve.Canonical.{canonical_predicate}
use log_scope.QueryLang.Resolve.Attributes.{AttrClass, attr_value, attr_of_class, attr_predicate}
use log_scope.QueryLang.Resolve.Exprs.{
  ResolveResult, ok, err, new_notes, check_clauses, outcome, resolve, valued_predicate,
  predicate_of, predicate, expr, too_many_clauses,
}
use log_scope.QueryLang.Resolve.Ensures.{Ensures, passes, stops}
use log_scope.QueryLang.Resolve.Meaning.{Means, leaves}
use log_scope.QueryLang.Resolve.SoundExprs.{expr-Ensures}

abbrev pub Errors : List Diagnostic → Type 0
Errors ds = All (λ d. is_error d ≡ true) ds

abbrev pub Warnings : List Diagnostic → Type 0
Warnings ds = All (λ d. is_error d ≡ false) ds

module _ {F : Type 0} (catalog : CatalogView) (x : Engine F) (limits : LangLimits) where
  -- What `resolve` may return: the query of all records for no tree; the meaning of the tree, when
  -- its predicates keep the limit; or at least one error. Warnings and errors are what they say.
  pub data Resolved : Option RawExpr → ResolveResult F → Type 0 where
    everything :
        {q : ResolvedQuery F}
        → q.expr ≡ none
        → q.fingerprint ≡ fingerprint x none
        → Warnings q.warnings
        → Resolved none (ok q)
    typed :
        {e : RawExpr} {r : ResolvedExpr F} {q : ResolvedQuery F}
        → q.expr ≡ some r
        → q.fingerprint ≡ fingerprint x (some r)
        → Means catalog x limits e r
        → leaves e ≤ limits.max_clauses
        → Warnings q.warnings
        → Resolved (some e) (ok q)
    refused :
        {e : RawExpr} {d : Diagnostic} {ds : List Diagnostic}
        → Errors (d ∷ ds)
        → Resolved (some e) (err (d ∷ ds))

  -- Errors stay errors: a list with one behind it is not empty.
  outcome-refused :
      (e : RawExpr) (r : Option (ResolvedExpr F)) (ds : List Diagnostic) (d : Diagnostic)
      (es ws : List Diagnostic)
      → Errors (ds ++ d ∷ es)
      → Resolved (some e) (outcome x r (ds ++ d ∷ es) ws)
  unfolding outcome
  outcome-refused e r [] d es ws h = refused h
  outcome-refused e r (c ∷ ds) d es ws h = refused h

  -- What the end of `resolve` makes of the walk over a tree.
  finish-Resolved :
      (e : RawExpr) (walked : Option (ResolvedExpr F) × Notes)
      → Ensures (Means catalog x limits e) (record new_notes { clauses = 0 + leaves e }) walked
      → Resolved (some e) (
          outcome x walked.0
            (check_clauses limits (expr_span e) walked.1).errors
            (check_clauses limits (expr_span e) walked.1).warnings)
  unfolding check_clauses too_many_clauses
  finish-Resolved e _ (passes {a = r} {n' = n} h (same, count, tidy)) =
      elim (Bool-cases (ltb limits.max_clauses n.clauses)) [
        | inl e' ↦ rw e' (
            outcome-refused e (some r) n.errors _ [] n.warnings
              (All-append _ n.errors _ (tidy (tt, tt)).0 (refl, tt)))
        | inr e' ↦
            rw (e', same)
              (unfold outcome in
                typed refl refl h (omega (arith, count, not-ltb→le _ _ e')) (tidy (tt, tt)).1)
      ]
  finish-Resolved e _ (stops {n' = n} (d, ds, more, count, tidy)) =
      elim (Bool-cases (ltb limits.max_clauses n.clauses)) [
        | inl e' ↦ rw e' (
            outcome-refused e none n.errors _ [] n.warnings
              (All-append _ n.errors _ (tidy (tt, tt)).0 (refl, tt)))
        | inr e' ↦
            rw (e', more)
              (outcome-refused e none [] d ds n.warnings (subst Errors more (tidy (tt, tt)).0))
      ]

-- `resolve` returns the typed query that the tree means, with every field from the catalog or built
-- in and every value of its field's type, when the predicates keep the limit, or it returns at
-- least one error and only errors. Only a query with no tree matches all records.
pub resolve-Resolved :
    {F : Type 0} (catalog : CatalogView) (x : Engine F) (limits : LangLimits) (ast : Option RawExpr)
    → Resolved catalog x limits ast (resolve catalog x limits ast)
unfolding resolve check_clauses
resolve-Resolved catalog x limits none =
    rw (le→not-ltb limits.max_clauses 0 (omega arith)) (unfold outcome in everything refl refl tt)
resolve-Resolved catalog x limits (some e) =
    finish-Resolved catalog x limits e (expr catalog x limits e new_notes)
      (expr-Ensures catalog x limits e new_notes)

and_then-ext :
    {A B : Type 0} (r : Option A × Notes) (f g : A → Resolving B)
    → ((a : A) (n : Notes) → f a n ≡ g a n)
    → and_then r f ≡ and_then r g
and_then-ext (none, n) f g h = refl
and_then-ext (some a, n) f g h = h a n

attr_of_class-wildcard :
    {F : Type 0} (x : Engine F) (limits : LangLimits) (c : AttrClass) (info : AttrFieldInfo)
    (field : RawField) (op : CmpOp) (t : Text) (span : Span) (n : Notes)
    → attr_of_class x limits c info field op (RawValue.word t true span) n
      ≡ attr_of_class x limits c info field CmpOp.eq (RawValue.word t true span) n
unfolding attr_of_class attr_value
attr_of_class-wildcard x limits AttrClass.none_scalar info field op t span n = refl
attr_of_class-wildcard x limits AttrClass.conflict info field op t span n = refl
attr_of_class-wildcard x limits (AttrClass.one ty) info field op t span n = refl

-- The operator in front of a wildcard changes nothing: `!=` and the orders resolve as `:`.
pub predicate-wildcard :
    {F : Type 0} (catalog : CatalogView) (x : Engine F) (limits : LangLimits) (field : RawField)
    (op : CmpOp) (t : Text) (span : Span) (n : Notes)
    → predicate catalog x limits field op (RawValue.word t true span) n
      ≡ predicate catalog x limits field CmpOp.eq (RawValue.word t true span) n
unfolding predicate predicate_of valued_predicate canonical_predicate attr_predicate
predicate-wildcard catalog x limits field op t span n =
    and_then-ext (resolve_field catalog field n)
      (predicate_of catalog x limits field op (RawValue.word t true span))
      (predicate_of catalog x limits field CmpOp.eq (RawValue.word t true span)) same
  where
    same :
        (r : FieldResolution) (m : Notes)
        → predicate_of catalog x limits field op (RawValue.word t true span) r m
          ≡ predicate_of catalog x limits field CmpOp.eq (RawValue.word t true span) r m
    same (FieldResolution.canonical f) m = refl
    same (FieldResolution.attr info) m = attr_of_class-wildcard x limits _ info field op t span m
    same (FieldResolution.unknown ss) m = refl
    same (FieldResolution.ambiguous cs) m = refl
