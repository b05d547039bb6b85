-- ===== src/QueryLang/Resolve/SoundExprs.antt =====
-- Expressions are resolved to what they mean, or at least one error is reported.
use log_scope.Prelude.{
  ℕ, suc, ◌<◌, ◌==◌, ==_iff, ◌+◌, ◌≡◌, refl, ap, ◌∙◌, true, false, ◌∷◌, Option, append_assoc, ◌++◌,
  arith,
}
use log_scope.Text.{Text}
use log_scope.QueryLang.Diag.{Span, LangLimits}
use log_scope.QueryLang.Ast.{
  RawValue, RawValueExpr, RawValueExprs, RawExpr, RawExprs, CmpOp, RawField,
}
use log_scope.QueryLang.Resolve.Literals.{is_blank}
use log_scope.QueryLang.Resolve.Typed.{FieldResolution, CatalogView, ResolvedExpr, ResolvedExprs}
use log_scope.QueryLang.Resolve.Engine.{Engine}
use log_scope.QueryLang.Resolve.Notes.{Notes}
use log_scope.QueryLang.Resolve.Checks.{is_eq}
use log_scope.QueryLang.Resolve.Ensures.{
  Ensures, passes, stops, Same, Longer, Ensures-bind, Ensures-map, Ensures-if, Ensures-fail,
  Ensures-warn-when,
}
use log_scope.QueryLang.Resolve.Meaning.{
  usable, Known, Predicate, Group, Groups, Means, MeansAll, leaves, all_leaves, value_leaves,
  values_leaves,
}
use log_scope.QueryLang.Resolve.Exprs.{
  always_present, exists_of, valued_predicate, predicate_of, predicate, raw_length, value_length,
  resolved_length, keep, all_kept, group, groups, expr, exprs, wildcard_in_text, empty_phrase,
}
use log_scope.QueryLang.Resolve.SoundFields.{resolve_field-Ensures}
use log_scope.QueryLang.Resolve.SoundPatterns.{is_star}
use log_scope.QueryLang.Resolve.SoundCanonical.{canonical_predicate-Ensures}
use log_scope.QueryLang.Resolve.SoundAttributes.{attr_predicate-Ensures}

-- The notes when `k` more clauses are counted.
abbrev counted : Notes → ℕ → Notes
counted n k = record n { clauses = n.clauses + k }

lt→not-== : (a b : ℕ) → a < b → (a == b) ≡ false
lt→not-== a b h = ground arith

is_eq-eq : (op : CmpOp) → is_eq op ≡ true → op ≡ CmpOp.eq
is_eq-eq CmpOp.eq h = refl
is_eq-eq CmpOp.ne h = absurd (cc h)
is_eq-eq CmpOp.gt h = absurd (cc h)
is_eq-eq CmpOp.ge h = absurd (cc h)
is_eq-eq CmpOp.lt h = absurd (cc h)
is_eq-eq CmpOp.le h = absurd (cc h)

Known-usable :
    (catalog : CatalogView) (written : Text) (r : FieldResolution)
    → Known catalog written r
    → usable r ≡ true
Known-usable catalog written _ (Known.builtin plain is) = refl
Known-usable catalog written r (Known.dynamic plain no_builtin is ok) = ok
Known-usable catalog written r (Known.prefixed is found ok) = ok

module _ {F : Type 0} (catalog : CatalogView) (x : Engine F) (limits : LangLimits) where
  exists_of-Ensures :
      (field : RawField) (op : CmpOp) (span : Span) (r : FieldResolution) (n : Notes)
      → Known catalog field.text r
      → op ≡ CmpOp.eq
      → Ensures (Predicate catalog x limits field op (RawValue.star span)) n (exists_of span r n)
  unfolding exists_of
  exists_of-Ensures field op span (FieldResolution.canonical f) n known is =
      Ensures-bind _ (Ensures-warn-when (always_present f) _ n refl)
        (λ _ m _. passes (Predicate.canon_exists known is) (refl, refl, λ z. z))
  exists_of-Ensures field op span (FieldResolution.attr info) n known is =
      passes (Predicate.attr_exists known is) (refl, refl, λ z. z)
  exists_of-Ensures field op span (FieldResolution.unknown ss) n known is =
      absurd (cc (Known-usable catalog field.text _ known))
  exists_of-Ensures field op span (FieldResolution.ambiguous cs) n known is =
      absurd (cc (Known-usable catalog field.text _ known))

  valued_predicate-Ensures :
      (field : RawField) (op : CmpOp) (v : RawValue) (r : FieldResolution) (n : Notes)
      → is_star v ≡ false
      → Known catalog field.text r
      → Ensures
          (Predicate catalog x limits field op v)
          n
          (valued_predicate catalog x limits field op v r n)
  unfolding valued_predicate
  valued_predicate-Ensures field op v (FieldResolution.canonical f) n h known =
      Ensures-map (λ _ c. Predicate.canon known c)
        (canonical_predicate-Ensures x limits f field op v n h)
  valued_predicate-Ensures field op v (FieldResolution.attr info) n h known =
      Ensures-map (λ _ (ty, is, a). Predicate.attr known is a)
        (attr_predicate-Ensures x limits info field op v n h)
  valued_predicate-Ensures field op v (FieldResolution.unknown ss) n h known =
      absurd (cc (Known-usable catalog field.text _ known))
  valued_predicate-Ensures field op v (FieldResolution.ambiguous cs) n h known =
      absurd (cc (Known-usable catalog field.text _ known))

  predicate_of-Ensures :
      (field : RawField) (op : CmpOp) (v : RawValue) (r : FieldResolution) (n : Notes)
      → Known catalog field.text r
      → Ensures
          (Predicate catalog x limits field op v)
          n
          (predicate_of catalog x limits field op v r n)
  unfolding predicate_of
  predicate_of-Ensures field op (RawValue.star span) r n known =
      Ensures-if n (is_eq op) _ _ (λ h. exists_of-Ensures field op span r n known (is_eq-eq op h))
        (λ _. Ensures-fail _ n refl)
  predicate_of-Ensures field op (RawValue.word t w s) r n known =
      valued_predicate-Ensures field op (RawValue.word t w s) r n refl known
  predicate_of-Ensures field op (RawValue.quoted t s) r n known =
      valued_predicate-Ensures field op (RawValue.quoted t s) r n refl known
  predicate_of-Ensures field op (RawValue.regex p ci s) r n known =
      valued_predicate-Ensures field op (RawValue.regex p ci s) r n refl known

  pub predicate-Ensures :
      (field : RawField) (op : CmpOp) (v : RawValue) (n : Notes)
      → Ensures (Predicate catalog x limits field op v) n (predicate catalog x limits field op v n)
  unfolding predicate
  predicate-Ensures field op v n =
      Ensures-bind _ (resolve_field-Ensures catalog field n)
        (λ r m known. predicate_of-Ensures field op v r m known)

  -- All items of a list were kept and no error was reported, or some were not and one was.
  data KeepsAll (Q : ResolvedExprs F → Type 0) (count : ℕ) (n : Notes)
      : ResolvedExprs F × Notes → Type 0 where
    every :
        {rs : ResolvedExprs F} {n' : Notes}
        → Q rs
        → resolved_length rs ≡ count
        → Same n n'
        → KeepsAll Q count n (rs, n')
    fewer :
        {rs : ResolvedExprs F} {n' : Notes}
        → resolved_length rs < count
        → Longer n n'
        → KeepsAll Q count n (rs, n')

  -- The first item counts `a` clauses, and the others `b`.
  KeepsAll-cons :
      {P : ResolvedExpr F → Type 0} {Q R : ResolvedExprs F → Type 0} {count : ℕ} (n : Notes)
      (a b : ℕ) {r : Option (ResolvedExpr F) × Notes} {k : ResolvedExprs F × Notes}
      → ((e : ResolvedExpr F) (rs : ResolvedExprs F) → P e → Q rs → R (ResolvedExprs.cons e rs))
      → Ensures P (counted n a) r
      → KeepsAll Q count (counted r.1 b) k
      → KeepsAll R (suc count) (counted n (a + b)) (keep r.0 k.0, k.1)
  KeepsAll-cons n a b f (passes {a = e} h (s, c, t)) (every {rs} q l (s', c', t')) =
      every (f e rs h q) (omega (arith, l)) (s' ∙ s, omega (arith, c, c'), λ z. t' (t z))
  KeepsAll-cons n a b f (passes h (s, c, t)) (fewer {rs} l (d, ds, s', c', t')) =
      fewer (omega (arith, l))
        (d, ds, s' ∙ ap (λ es. es ++ d ∷ ds) s, omega (arith, c, c'), λ z. t' (t z))
  KeepsAll-cons n a b f (stops (d, ds, s, c, t)) (every {rs} q l (s', c', t')) =
      fewer (omega (arith, l)) (d, ds, s' ∙ s, omega (arith, c, c'), λ z. t' (t z))
  KeepsAll-cons n a b f (stops (d, ds, s, c, t)) (fewer {rs} l (d', ds', s', c', t')) =
      fewer (omega (arith, l)) (
        d,
        ds ++ d' ∷ ds',
        s' ∙ ap (λ es. es ++ d' ∷ ds') s ∙ append_assoc n.errors (d ∷ ds) (d' ∷ ds'),
        omega (arith, c, c'),
        λ z. t' (t z),
      )

  all_kept-Ensures :
      {Q : ResolvedExprs F → Type 0} {R : ResolvedExpr F → Type 0}
      (c : ResolvedExprs F → ResolvedExpr F) (count : ℕ) (n : Notes) {k : ResolvedExprs F × Notes}
      → ((rs : ResolvedExprs F) → Q rs → R (c rs))
      → KeepsAll Q count n k
      → Ensures R n (all_kept c count k)
  unfolding all_kept
  all_kept-Ensures c count n f (every {rs} q l e) =
      rw ((==_iff (resolved_length rs) count).1 l) (passes (f rs q) e)
  all_kept-Ensures c count n f (fewer {rs} l more) =
      rw (lt→not-== (resolved_length rs) count l) (stops more)

  mutual
    unfolding group groups value_leaves

    group-Ensures :
        (field : RawField) (e : RawValueExpr) (n : Notes)
        → Ensures
            (Group catalog x limits field e)
            (counted n (value_leaves e))
            (group catalog x limits field e n)
    group-Ensures field (RawValueExpr.value v) n =
        Ensures-map (λ _ p. Group.value p) (predicate-Ensures field CmpOp.eq v (counted n 1))
    group-Ensures field (RawValueExpr.not e s) n =
        Ensures-bind _ (group-Ensures field e n)
          (λ r m h. passes (Group.not h) (refl, refl, λ z. z))
    group-Ensures field (RawValueExpr.and es s) n =
        all_kept-Ensures ResolvedExpr.and (value_length es) _ (λ rs h. Group.and h)
          (groups-KeepsAll field es n)
    group-Ensures field (RawValueExpr.or es s) n =
        all_kept-Ensures ResolvedExpr.or (value_length es) _ (λ rs h. Group.or h)
          (groups-KeepsAll field es n)

    groups-KeepsAll :
        (field : RawField) (es : RawValueExprs) (n : Notes)
        → KeepsAll
            (Groups catalog x limits field es)
            (value_length es)
            (counted n (values_leaves es))
            (groups catalog x limits field es n)
    groups-KeepsAll field RawValueExprs.nil n = every Groups.nil refl (refl, omega arith, λ z. z)
    groups-KeepsAll field (RawValueExprs.cons e es) n =
        KeepsAll-cons n (value_leaves e) (values_leaves es) (λ a rs h hs. Groups.cons h hs)
          (group-Ensures field e n) (groups-KeepsAll field es (group catalog x limits field e n).1)

  mutual
    unfolding expr exprs leaves wildcard_in_text empty_phrase

    pub expr-Ensures :
        (e : RawExpr) (n : Notes)
        → Ensures (Means catalog x limits e) (counted n (leaves e)) (expr catalog x limits e n)
    expr-Ensures (RawExpr.term t w s) n =
        Ensures-bind _ (Ensures-warn-when w _ (counted n 1) refl)
          (λ _ m _. passes Means.term (refl, refl, λ z. z))
    expr-Ensures (RawExpr.phrase t s) n =
        Ensures-if (counted n 1) (is_blank t) _ _ (λ _. Ensures-fail _ _ refl)
          (λ h. passes (Means.phrase h) (refl, refl, λ z. z))
    expr-Ensures (RawExpr.cmp field op v s) n =
        Ensures-map (λ _ p. Means.cmp p) (predicate-Ensures field op v (counted n 1))
    expr-Ensures (RawExpr.group field e s) n =
        Ensures-map (λ _ h. Means.group h) (group-Ensures field e n)
    expr-Ensures (RawExpr.not e s) n =
        Ensures-bind _ (expr-Ensures e n) (λ r m h. passes (Means.not h) (refl, refl, λ z. z))
    expr-Ensures (RawExpr.and es s) n =
        all_kept-Ensures ResolvedExpr.and (raw_length es) _ (λ rs h. Means.and h)
          (exprs-KeepsAll es n)
    expr-Ensures (RawExpr.or es s) n =
        all_kept-Ensures ResolvedExpr.or (raw_length es) _ (λ rs h. Means.or h)
          (exprs-KeepsAll es n)

    exprs-KeepsAll :
        (es : RawExprs) (n : Notes)
        → KeepsAll
            (MeansAll catalog x limits es)
            (raw_length es)
            (counted n (all_leaves es))
            (exprs catalog x limits es n)
    exprs-KeepsAll RawExprs.nil n = every MeansAll.nil refl (refl, omega arith, λ z. z)
    exprs-KeepsAll (RawExprs.cons e es) n =
        KeepsAll-cons n (leaves e) (all_leaves es) (λ a rs h hs. MeansAll.cons h hs)
          (expr-Ensures e n) (exprs-KeepsAll es (expr catalog x limits e n).1)
