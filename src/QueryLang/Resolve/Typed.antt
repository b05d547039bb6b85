-- ===== src/QueryLang/Resolve/Typed.antt =====
-- The typed query of crates/logscope-query-lang/src/resolve.rs, and the catalog that it is resolved
-- against. The floating-point numbers are the parameter `F`.
use log_scope.Prelude.{ℕ, Bool, Option, List}
use log_scope.Prelude.Int.{ℤ}
use log_scope.Text.{Text}
use log_scope.QueryLang.Diag.{Diagnostic}
use log_scope.QueryLang.Ast.{CmpOp}
use log_scope.QueryLang.Resolve.Fields.{CanonicalField, AttrType}
use log_scope.QueryLang.Resolve.Levels.{SeverityLevel}

pub record AttrFieldInfo : Type 0 where
  pub path : List Text
  pub display : Text
  pub types : List AttrType

pub data FieldResolution : Type 0 where
  canonical : CanonicalField → FieldResolution
  attr : AttrFieldInfo → FieldResolution
  unknown : (suggestions : List Text) → FieldResolution
  ambiguous : (candidates : List Text) → FieldResolution

-- The trait `CatalogView`
pub record CatalogView : Type 0 where
  pub resolve_attr : Text → FieldResolution
  pub attr_exists : Text → Bool

pub data TypedScalar (F : Type 0) : Type 0 where
  str : Text → TypedScalar F
  int : ℤ → TypedScalar F
  double : F → TypedScalar F
  bool : Bool → TypedScalar F

pub data AttrScalar : Type 0 where
  str int double bool : AttrScalar

mutual
  pub data ResolvedExpr (F : Type 0) : Type 0 where
    term phrase : Text → ResolvedExpr F
    severity : CmpOp → SeverityLevel → ResolvedExpr F
    canon : CanonicalField → CmpOp → TypedScalar F → ResolvedExpr F
    canon_exists : CanonicalField → ResolvedExpr F
    canon_wildcard : CanonicalField → (regex original : Text) → ResolvedExpr F
    canon_regex : CanonicalField → (pattern : Text) → (case_insensitive : Bool) → ResolvedExpr F
    attr : (path : List Text) → AttrScalar → CmpOp → TypedScalar F → ResolvedExpr F
    attr_exists : (path : List Text) → ResolvedExpr F
    attr_wildcard : (path : List Text) → (regex original : Text) → ResolvedExpr F
    attr_regex : (path : List Text) → (pattern : Text) → (case_insensitive : Bool) → ResolvedExpr F
    not : ResolvedExpr F → ResolvedExpr F
    and or : ResolvedExprs F → ResolvedExpr F

  pub data ResolvedExprs (F : Type 0) : Type 0 where
    nil : ResolvedExprs F
    cons : ResolvedExpr F → ResolvedExprs F → ResolvedExprs F

pub record ResolvedQuery (F : Type 0) : Type 0 where
  pub expr : Option (ResolvedExpr F)
  pub language_version : ℕ
  pub fingerprint : Text
  pub warnings : List Diagnostic

-- `LANGUAGE_VERSION`
abbrev pub language_version : ℕ
language_version = 1
