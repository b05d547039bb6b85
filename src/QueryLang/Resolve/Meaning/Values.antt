-- ===== src/QueryLang/Resolve/Meaning/Values.antt =====
-- What a field name stands for and how a value is typed for it, as relations.
use log_scope.Prelude.{◌≤◌, ◌≡◌, Bool, true, false, [], ◌∷◌, map, none, some, length}
use log_scope.Prelude.Int.{ℤ}
use log_scope.Text.{Text, codes}
use log_scope.QueryLang.Diag.{Span, LangLimits}
use log_scope.QueryLang.Ast.{RawValue, CmpOp}
use log_scope.QueryLang.Lexer.{unescape_word}
use log_scope.QueryLang.Resolve.Fields.{
  CanonicalField, CanonType, canon_type, builtin_field, is_one_of, AttrType,
}
use log_scope.QueryLang.Resolve.Literals.{strip_prefix, to_ascii_lowercase, parse_i64}
use log_scope.QueryLang.Resolve.Levels.{SeverityLevel, parse_level}
use log_scope.QueryLang.Resolve.Wildcard.{wildcard_to_regex}
use log_scope.QueryLang.Resolve.Typed.{
  AttrFieldInfo, FieldResolution, CatalogView, TypedScalar, AttrScalar, ResolvedExpr,
}
use log_scope.QueryLang.Resolve.Engine.{Engine, parse_timestamp_nanos, parse_finite}
use log_scope.QueryLang.Resolve.Checks.{is_eq_or_ne}
use log_scope.QueryLang.Resolve.Canonical.{in_bands, text_matcher}
use log_scope.QueryLang.Resolve.Attributes.{unordered}

-- The two resolutions that a query can use.
abbrev pub usable : FieldResolution → Bool
usable (FieldResolution.canonical f) = true
usable (FieldResolution.attr info) = true
usable _ = false

-- What a written field name stands for: a built-in field, or what the catalog has under the name.
pub data Known (catalog : CatalogView) (written : Text) : FieldResolution → Type 0 where
  builtin :
      {f : CanonicalField}
      → strip_prefix (codes "attr.") written ≡ none
      → builtin_field written ≡ some f
      → Known catalog written (FieldResolution.canonical f)
  dynamic :
      {r : FieldResolution}
      → strip_prefix (codes "attr.") written ≡ none
      → builtin_field written ≡ none
      → catalog.resolve_attr written ≡ r
      → usable r ≡ true
      → Known catalog written r
  prefixed :
      {r : FieldResolution} {rest : Text}
      → strip_prefix (codes "attr.") written ≡ some rest
      → catalog.resolve_attr rest ≡ r
      → usable r ≡ true
      → Known catalog written r

pub data IsTextual : CanonType → Type 0 where
  text : IsTextual CanonType.text
  str : IsTextual CanonType.str

-- The pattern keeps the limits, and the regex engine takes it.
pub record Compiles {F : Type 0} (x : Engine F) (limits : LangLimits) (pattern : Text) (ci : Bool)
    : Type 0 where
  pub short : length pattern ≤ limits.max_regex_chars
  pub accepted : x.compile pattern ci limits.max_regex_compiled_bytes ≡ none

-- A literal that is compared with a built-in field, by the field's type.
pub data Literal {F : Type 0} (x : Engine F) (f : CanonicalField) (op : CmpOp) (t : Text)
    (quoted : Bool) : ResolvedExpr F → Type 0 where
  timestamp :
      {n : ℤ}
      → canon_type f ≡ CanonType.timestamp
      → parse_timestamp_nanos x t ≡ some n
      → Literal x f op t quoted (ResolvedExpr.canon f op (TypedScalar.int n))
  severity_number :
      {n : ℤ}
      → canon_type f ≡ CanonType.severity
      → parse_i64 t ≡ some n
      → in_bands n ≡ true
      → Literal x f op t quoted
          (ResolvedExpr.canon CanonicalField.severity_number op (TypedScalar.int n))
  severity :
      {l : SeverityLevel}
      → canon_type f ≡ CanonType.severity
      → parse_i64 t ≡ none
      → parse_level t ≡ some l
      → Literal x f op t quoted (ResolvedExpr.severity op l)
  int :
      {n : ℤ}
      → canon_type f ≡ CanonType.int
      → parse_i64 t ≡ some n
      → Literal x f op t quoted (ResolvedExpr.canon f op (TypedScalar.int n))
  text_eq :
      canon_type f ≡ CanonType.text
      → op ≡ CmpOp.eq
      → Literal x f op t quoted (text_matcher t quoted)
  text_ne :
      canon_type f ≡ CanonType.text
      → op ≡ CmpOp.ne
      → Literal x f op t quoted (ResolvedExpr.not (text_matcher t quoted))
  str :
      canon_type f ≡ CanonType.str
      → is_eq_or_ne op ≡ true
      → Literal x f op t quoted (ResolvedExpr.canon f op (TypedScalar.str t))

-- A value of a predicate on a built-in field.
pub data CanonValue {F : Type 0} (x : Engine F) (limits : LangLimits) (f : CanonicalField)
    (op : CmpOp) : RawValue → ResolvedExpr F → Type 0 where
  regex :
      {p : Text} {ci : Bool} {s : Span}
      → IsTextual (canon_type f)
      → Compiles x limits p ci
      → CanonValue x limits f op (RawValue.regex p ci s) (ResolvedExpr.canon_regex f p ci)
  wildcard :
      {t : Text} {s : Span}
      → IsTextual (canon_type f)
      → length t ≤ limits.max_wildcard_chars
      → Compiles x limits (wildcard_to_regex t) false
      → CanonValue x limits f op
          (RawValue.word t true s)
          (ResolvedExpr.canon_wildcard f (wildcard_to_regex t) t)
  word :
      {t : Text} {s : Span} {r : ResolvedExpr F}
      → Literal x f op (unescape_word t) false r
      → CanonValue x limits f op (RawValue.word t false s) r
  quoted :
      {t : Text} {s : Span} {r : ResolvedExpr F}
      → Literal x f op t true r
      → CanonValue x limits f op (RawValue.quoted t s) r

-- A literal that is compared with an attribute, by the attribute's type.
pub data TypedAs {F : Type 0} (x : Engine F) (ty : AttrType) (t : Text)
    : AttrScalar × TypedScalar F → Type 0 where
  str : ty ≡ AttrType.str → TypedAs x ty t (AttrScalar.str, TypedScalar.str t)
  int :
      {n : ℤ}
      → ty ≡ AttrType.int
      → parse_i64 t ≡ some n
      → TypedAs x ty t (AttrScalar.int, TypedScalar.int n)
  decimal :
      {v : F}
      → ty ≡ AttrType.int
      → parse_i64 t ≡ none
      → parse_finite x t ≡ some v
      → TypedAs x ty t (AttrScalar.double, TypedScalar.double v)
  double :
      {v : F}
      → ty ≡ AttrType.double
      → parse_finite x t ≡ some v
      → TypedAs x ty t (AttrScalar.double, TypedScalar.double v)
  yes_word :
      ty ≡ AttrType.bool
      → is_one_of (map to_ascii_lowercase t) ("true" ∷ []) ≡ true
      → TypedAs x ty t (AttrScalar.bool, TypedScalar.bool true)
  no_word :
      ty ≡ AttrType.bool
      → is_one_of (map to_ascii_lowercase t) ("true" ∷ []) ≡ false
      → is_one_of (map to_ascii_lowercase t) ("false" ∷ []) ≡ true
      → TypedAs x ty t (AttrScalar.bool, TypedScalar.bool false)

-- A literal with an operator that its type has.
pub data AttrLiteral {F : Type 0} (x : Engine F) (info : AttrFieldInfo) (ty : AttrType) (op : CmpOp)
    (t : Text) : ResolvedExpr F → Type 0 where
  typed :
      {v : AttrScalar × TypedScalar F}
      → (unordered ty ≡ true → is_eq_or_ne op ≡ true)
      → TypedAs x ty t v
      → AttrLiteral x info ty op t (ResolvedExpr.attr info.path v.0 op v.1)

-- A value of a predicate on an attribute of one type.
pub data AttrValue {F : Type 0} (x : Engine F) (limits : LangLimits) (info : AttrFieldInfo)
    (ty : AttrType) (op : CmpOp) : RawValue → ResolvedExpr F → Type 0 where
  regex :
      {p : Text} {ci : Bool} {s : Span}
      → ty ≡ AttrType.str
      → Compiles x limits p ci
      → AttrValue x limits info ty op
          (RawValue.regex p ci s)
          (ResolvedExpr.attr_regex info.path p ci)
  wildcard :
      {t : Text} {s : Span}
      → ty ≡ AttrType.str
      → length t ≤ limits.max_wildcard_chars
      → Compiles x limits (wildcard_to_regex t) false
      → AttrValue x limits info ty op
          (RawValue.word t true s)
          (ResolvedExpr.attr_wildcard info.path (wildcard_to_regex t) t)
  word :
      {t : Text} {s : Span} {r : ResolvedExpr F}
      → AttrLiteral x info ty op (unescape_word t) r
      → AttrValue x limits info ty op (RawValue.word t false s) r
  quoted :
      {t : Text} {s : Span} {r : ResolvedExpr F}
      → AttrLiteral x info ty op t r
      → AttrValue x limits info ty op (RawValue.quoted t s) r
