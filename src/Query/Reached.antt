-- ===== src/Query/Reached.antt =====
-- Which typed queries the compiler takes without reaching an `unreachable!`.
use log_scope.Prelude.{◌≡◌, ◌≢◌, refl, ◌⊎◌, inl, inr, Bool, true, Bool-cases, ◌||◌}
use log_scope.Text.{Text}
use log_scope.QueryLang.Diag.{LangLimits}
use log_scope.QueryLang.Ast.{
  RawValue, RawField, RawValueExpr, RawValueExprs, RawExpr, RawExprs, CmpOp,
}
use log_scope.QueryLang.Resolve.Fields.{CanonicalField, CanonType, canon_type}
use log_scope.QueryLang.Resolve.Literals.{is_some, is_multi}
use log_scope.QueryLang.Resolve.Typed.{CatalogView, ResolvedExpr, ResolvedExprs}
use log_scope.QueryLang.Resolve.Engine.{Engine}
use log_scope.QueryLang.Resolve.Canonical.{text_matcher}
use log_scope.QueryLang.Resolve.Meaning.{
  IsTextual, Literal, CanonValue, AttrLiteral, AttrValue, Predicate, Group, Groups, Means, MeansAll,
}
use log_scope.Query.Leaves.{canon_column}

-- The field has a column.
abbrev pub HasColumn : CanonicalField → Type 0
HasColumn f = is_some (canon_column f) ≡ true

column_or_severity : (f : CanonicalField) → HasColumn f ⊎ (canon_type f ≡ CanonType.severity)
unfolding canon_column canon_type
column_or_severity CanonicalField.severity = inr refl
column_or_severity _ = inl refl

HasColumn-of_type : (f : CanonicalField) → canon_type f ≢ CanonType.severity → HasColumn f
HasColumn-of_type f h = elim (column_or_severity f) [ inl has ↦ has | inr is ↦ absurd (h is) ]

-- Every built-in field that the expression uses has a column.
unfoldable mutual
  pub HasColumns : {F : Type 0} → ResolvedExpr F → Type 0
  HasColumns (ResolvedExpr.not e) = HasColumns e
  HasColumns (ResolvedExpr.and es) = HaveColumns es
  HasColumns (ResolvedExpr.or es) = HaveColumns es
  HasColumns (ResolvedExpr.canon f op v) = HasColumn f
  HasColumns (ResolvedExpr.canon_exists f) = HasColumn f
  HasColumns (ResolvedExpr.canon_wildcard f regex original) = HasColumn f
  HasColumns (ResolvedExpr.canon_regex f p ci) = HasColumn f
  HasColumns _ = Unit

  pub HaveColumns : {F : Type 0} → ResolvedExprs F → Type 0
  HaveColumns ResolvedExprs.nil = Unit
  HaveColumns (ResolvedExprs.cons e es) = HasColumns e × HaveColumns es

-- Every existence test of a built-in field is on one with a column.
unfoldable mutual
  pub TestsColumns : {F : Type 0} → ResolvedExpr F → Type 0
  TestsColumns (ResolvedExpr.not e) = TestsColumns e
  TestsColumns (ResolvedExpr.and es) = AllTestColumns es
  TestsColumns (ResolvedExpr.or es) = AllTestColumns es
  TestsColumns (ResolvedExpr.canon_exists f) = HasColumn f
  TestsColumns _ = Unit

  pub AllTestColumns : {F : Type 0} → ResolvedExprs F → Type 0
  AllTestColumns ResolvedExprs.nil = Unit
  AllTestColumns (ResolvedExprs.cons e es) = TestsColumns e × AllTestColumns es

IsTextual-apart : {ty : CanonType} → IsTextual ty → ty ≢ CanonType.severity
IsTextual-apart IsTextual.text = cc
IsTextual-apart IsTextual.str = cc

IsTextual-column : (f : CanonicalField) → IsTextual (canon_type f) → HasColumn f
IsTextual-column f h = HasColumn-of_type f (IsTextual-apart h)

module _ (F : Type 0) where
  text_matcher-HasColumns : (t : Text) (quoted : Bool) → HasColumns {F = F} (text_matcher t quoted)
  unfolding HasColumns text_matcher
  text_matcher-HasColumns t quoted = elim (Bool-cases (quoted || is_multi t)) [
    | inl e ↦ rw e tt
    | inr e ↦ rw e tt
  ]

module _ {F : Type 0} (x : Engine F) (limits : LangLimits) (f : CanonicalField) (op : CmpOp) where
  Literal-HasColumns :
      {t : Text} {quoted : Bool} {r : ResolvedExpr F} → Literal x f op t quoted r → HasColumns r
  unfolding HasColumns canon_column
  Literal-HasColumns (Literal.timestamp ty is) = HasColumn-of_type f λ s. cc (ty, s)
  Literal-HasColumns (Literal.severity_number ty is h) = refl
  Literal-HasColumns (Literal.severity ty none_is is) = tt
  Literal-HasColumns (Literal.int ty is) = HasColumn-of_type f λ s. cc (ty, s)
  Literal-HasColumns {t} {quoted} (Literal.text_eq ty is) = text_matcher-HasColumns F t quoted
  Literal-HasColumns {t} {quoted} (Literal.text_ne ty is) = text_matcher-HasColumns F t quoted
  Literal-HasColumns (Literal.str ty is) = HasColumn-of_type f λ s. cc (ty, s)

  CanonValue-HasColumns :
      {v : RawValue} {r : ResolvedExpr F} → CanonValue x limits f op v r → HasColumns r
  unfolding HasColumns
  CanonValue-HasColumns (CanonValue.regex t c) = IsTextual-column _ t
  CanonValue-HasColumns (CanonValue.wildcard t s c) = IsTextual-column _ t
  CanonValue-HasColumns (CanonValue.word l) = Literal-HasColumns l
  CanonValue-HasColumns (CanonValue.quoted l) = Literal-HasColumns l

module _ {F : Type 0} (x : Engine F) (limits : LangLimits) (catalog : CatalogView) where
  AttrValue-HasColumns :
      {info : _} {ty : _} {op : CmpOp} {v : RawValue} {r : ResolvedExpr F}
      → AttrValue x limits info ty op v r
      → HasColumns r
  unfolding HasColumns
  AttrValue-HasColumns (AttrValue.regex t c) = tt
  AttrValue-HasColumns (AttrValue.wildcard t s c) = tt
  AttrValue-HasColumns (AttrValue.word (AttrLiteral.typed o t)) = tt
  AttrValue-HasColumns (AttrValue.quoted (AttrLiteral.typed o t)) = tt

  Predicate-HasColumns :
      {field : RawField} {op : CmpOp} {v : RawValue} {r : ResolvedExpr F}
      → Predicate catalog x limits field op v r
      → TestsColumns r
      → HasColumns r
  unfolding HasColumns TestsColumns
  Predicate-HasColumns (Predicate.canon_exists known is) h = h
  Predicate-HasColumns (Predicate.attr_exists known is) h = tt
  Predicate-HasColumns (Predicate.canon known c) h = CanonValue-HasColumns x limits _ _ c
  Predicate-HasColumns (Predicate.attr known is a) h = AttrValue-HasColumns a

  mutual
    unfolding HasColumns TestsColumns

    Group-HasColumns :
        {field : RawField} {e : RawValueExpr} {r : ResolvedExpr F}
        → Group catalog x limits field e r
        → TestsColumns r
        → HasColumns r
    Group-HasColumns (Group.value p) h = Predicate-HasColumns p h
    Group-HasColumns (Group.not g) h = Group-HasColumns g h
    Group-HasColumns (Group.and gs) h = Groups-HaveColumns gs h
    Group-HasColumns (Group.or gs) h = Groups-HaveColumns gs h

    Groups-HaveColumns :
        {field : RawField} {es : RawValueExprs} {rs : ResolvedExprs F}
        → Groups catalog x limits field es rs
        → AllTestColumns rs
        → HaveColumns rs
    Groups-HaveColumns Groups.nil h = tt
    Groups-HaveColumns (Groups.cons g gs) (h, hs) = (Group-HasColumns g h, Groups-HaveColumns gs hs)

  mutual
    unfolding HasColumns TestsColumns

    pub Means-HasColumns :
        {e : RawExpr} {r : ResolvedExpr F}
        → Means catalog x limits e r
        → TestsColumns r
        → HasColumns r
    Means-HasColumns Means.term h = tt
    Means-HasColumns (Means.phrase b) h = tt
    Means-HasColumns (Means.cmp p) h = Predicate-HasColumns p h
    Means-HasColumns (Means.group g) h = Group-HasColumns g h
    Means-HasColumns (Means.not m) h = Means-HasColumns m h
    Means-HasColumns (Means.and ms) h = MeansAll-HaveColumns ms h
    Means-HasColumns (Means.or ms) h = MeansAll-HaveColumns ms h

    MeansAll-HaveColumns :
        {es : RawExprs} {rs : ResolvedExprs F}
        → MeansAll catalog x limits es rs
        → AllTestColumns rs
        → HaveColumns rs
    MeansAll-HaveColumns MeansAll.nil h = tt
    MeansAll-HaveColumns (MeansAll.cons m ms) (h, hs) =
        (Means-HasColumns m h, MeansAll-HaveColumns ms hs)
