-- ===== src/QueryLang/Resolve/Meaning.antt =====
-- What a syntax tree means as a typed query: relations between the two, with no resolver state. They
-- say which field a name stands for, how a value is typed for it, and how expressions are joined.
pub mod Values
use log_scope.Prelude.{ℕ, ◌+◌, ◌≡◌, Bool, false, filter}
use log_scope.Text.{Text}
use log_scope.QueryLang.Diag.{Span, LangLimits}
use log_scope.QueryLang.Ast.{
  RawValue, RawValueExpr, RawValueExprs, RawField, RawExpr, RawExprs, CmpOp,
}
use log_scope.QueryLang.Lexer.{unescape_word}
use log_scope.QueryLang.Resolve.Fields.{CanonicalField, AttrType, is_scalar}
use log_scope.QueryLang.Resolve.Literals.{is_blank}
use log_scope.QueryLang.Resolve.Typed.{
  AttrFieldInfo, FieldResolution, CatalogView, ResolvedExpr, ResolvedExprs,
}
use log_scope.QueryLang.Resolve.Engine.{Engine}
use log_scope.QueryLang.Resolve.Attributes.{AttrClass, class_of}
pub use log_scope.QueryLang.Resolve.Meaning.Values.{
  usable, Known, IsTextual, Compiles, Literal, CanonValue, TypedAs, AttrLiteral, AttrValue,
}

module _ {F : Type 0} (catalog : CatalogView) (x : Engine F) (limits : LangLimits) where
  pub data Predicate (field : RawField) (op : CmpOp) : RawValue → ResolvedExpr F → Type 0 where
    canon_exists :
        {f : CanonicalField} {s : Span}
        → Known catalog field.text (FieldResolution.canonical f)
        → op ≡ CmpOp.eq
        → Predicate field op (RawValue.star s) (ResolvedExpr.canon_exists f)
    attr_exists :
        {info : AttrFieldInfo} {s : Span}
        → Known catalog field.text (FieldResolution.attr info)
        → op ≡ CmpOp.eq
        → Predicate field op (RawValue.star s) (ResolvedExpr.attr_exists info.path)
    canon :
        {f : CanonicalField} {v : RawValue} {r : ResolvedExpr F}
        → Known catalog field.text (FieldResolution.canonical f)
        → CanonValue x limits f op v r
        → Predicate field op v r
    attr :
        {info : AttrFieldInfo} {ty : AttrType} {v : RawValue} {r : ResolvedExpr F}
        → Known catalog field.text (FieldResolution.attr info)
        → class_of (filter is_scalar info.types) ≡ AttrClass.one ty
        → AttrValue x limits info ty op v r
        → Predicate field op v r

  mutual
    pub data Group (field : RawField) : RawValueExpr → ResolvedExpr F → Type 0 where
      value :
          {v : RawValue} {r : ResolvedExpr F}
          → Predicate field CmpOp.eq v r
          → Group field (RawValueExpr.value v) r
      not :
          {e : RawValueExpr} {r : ResolvedExpr F} {s : Span}
          → Group field e r
          → Group field (RawValueExpr.not e s) (ResolvedExpr.not r)
      and :
          {es : RawValueExprs} {rs : ResolvedExprs F} {s : Span}
          → Groups field es rs
          → Group field (RawValueExpr.and es s) (ResolvedExpr.and rs)
      or :
          {es : RawValueExprs} {rs : ResolvedExprs F} {s : Span}
          → Groups field es rs
          → Group field (RawValueExpr.or es s) (ResolvedExpr.or rs)

    pub data Groups (field : RawField) : RawValueExprs → ResolvedExprs F → Type 0 where
      nil : Groups field RawValueExprs.nil ResolvedExprs.nil
      cons :
          {e : RawValueExpr} {es : RawValueExprs} {r : ResolvedExpr F} {rs : ResolvedExprs F}
          → Group field e r
          → Groups field es rs
          → Groups field (RawValueExprs.cons e es) (ResolvedExprs.cons r rs)

  mutual
    pub data Means : RawExpr → ResolvedExpr F → Type 0 where
      term :
          {t : Text} {wildcard : Bool} {s : Span}
          → Means (RawExpr.term t wildcard s) (ResolvedExpr.term (unescape_word t))
      phrase :
          {t : Text} {s : Span}
          → is_blank t ≡ false
          → Means (RawExpr.phrase t s) (ResolvedExpr.phrase t)
      cmp :
          {field : RawField} {op : CmpOp} {v : RawValue} {s : Span} {r : ResolvedExpr F}
          → Predicate field op v r
          → Means (RawExpr.cmp field op v s) r
      group :
          {field : RawField} {e : RawValueExpr} {s : Span} {r : ResolvedExpr F}
          → Group field e r
          → Means (RawExpr.group field e s) r
      not :
          {e : RawExpr} {r : ResolvedExpr F} {s : Span}
          → Means e r
          → Means (RawExpr.not e s) (ResolvedExpr.not r)
      and :
          {es : RawExprs} {rs : ResolvedExprs F} {s : Span}
          → MeansAll es rs
          → Means (RawExpr.and es s) (ResolvedExpr.and rs)
      or :
          {es : RawExprs} {rs : ResolvedExprs F} {s : Span}
          → MeansAll es rs
          → Means (RawExpr.or es s) (ResolvedExpr.or rs)

    pub data MeansAll : RawExprs → ResolvedExprs F → Type 0 where
      nil : MeansAll RawExprs.nil ResolvedExprs.nil
      cons :
          {e : RawExpr} {es : RawExprs} {r : ResolvedExpr F} {rs : ResolvedExprs F}
          → Means e r
          → MeansAll es rs
          → MeansAll (RawExprs.cons e es) (ResolvedExprs.cons r rs)

-- How many predicates and terms an expression has.
unfoldable mutual
  pub value_leaves : RawValueExpr → ℕ
  value_leaves (RawValueExpr.value v) = 1
  value_leaves (RawValueExpr.not e s) = value_leaves e
  value_leaves (RawValueExpr.and es s) = values_leaves es
  value_leaves (RawValueExpr.or es s) = values_leaves es

  pub values_leaves : RawValueExprs → ℕ
  values_leaves RawValueExprs.nil = 0
  values_leaves (RawValueExprs.cons e es) = value_leaves e + values_leaves es

unfoldable mutual
  pub leaves : RawExpr → ℕ
  leaves (RawExpr.term t w s) = 1
  leaves (RawExpr.phrase t s) = 1
  leaves (RawExpr.cmp field op v s) = 1
  leaves (RawExpr.group field e s) = value_leaves e
  leaves (RawExpr.not e s) = leaves e
  leaves (RawExpr.and es s) = all_leaves es
  leaves (RawExpr.or es s) = all_leaves es

  pub all_leaves : RawExprs → ℕ
  all_leaves RawExprs.nil = 0
  all_leaves (RawExprs.cons e es) = leaves e + all_leaves es
