-- ===== src/QueryLang/Resolve/SoundCanonical.antt =====
-- A predicate on a built-in field is resolved to what it means, or at least one error is reported.
use log_scope.Prelude.{
  ◌≡◌, refl, sym, subst, Bool, true, false, Option, none, some, ltb, not-ltb→le, length,
}
use log_scope.Prelude.Int.{ℤ}
use log_scope.Text.{Text}
use log_scope.QueryLang.Diag.{Span, Diagnostic, is_error, LangLimits}
use log_scope.QueryLang.Ast.{RawValue, CmpOp, RawField}
use log_scope.QueryLang.Lexer.{unescape_word}
use log_scope.QueryLang.Resolve.Fields.{CanonicalField, CanonType, canon_type}
use log_scope.QueryLang.Resolve.Literals.{parse_i64}
use log_scope.QueryLang.Resolve.Levels.{SeverityLevel, parse_level}
use log_scope.QueryLang.Resolve.Typed.{TypedScalar, ResolvedExpr}
use log_scope.QueryLang.Resolve.Engine.{Engine, parse_timestamp_nanos}
use log_scope.QueryLang.Resolve.Notes.{Notes, Resolving}
use log_scope.QueryLang.Resolve.Checks.{is_eq_or_ne, wildcard_too_long, type_mismatch}
use log_scope.QueryLang.Resolve.Canonical.{
  in_bands, severity_number, severity_level, severity_literal, int_value, text_literal, str_literal,
  if_textual, literal_of_type, canonical_literal, canonical_wildcard, canonical_predicate,
}
use log_scope.QueryLang.Resolve.Ensures.{
  Ensures, passes, Ensures-bind, Ensures-map, Ensures-if, Ensures-fail,
}
use log_scope.QueryLang.Resolve.Meaning.{IsTextual, Literal, CanonValue}
use log_scope.QueryLang.Resolve.SoundPatterns.{is_star, regex_ok-Ensures, checked_wildcard-Ensures}

module _ {F : Type 0} (x : Engine F) (limits : LangLimits) where
  if_textual-Ensures :
      {Q : ResolvedExpr F → Type 0} (ty : CanonType) (d : Diagnostic)
      (m : Resolving (ResolvedExpr F)) (n : Notes)
      → is_error d ≡ true
      → (IsTextual ty → Ensures Q n (m n))
      → Ensures Q n (if_textual ty d m n)
  unfolding if_textual
  if_textual-Ensures CanonType.text d m n hd h = h IsTextual.text
  if_textual-Ensures CanonType.str d m n hd h = h IsTextual.str
  if_textual-Ensures CanonType.timestamp d m n hd h = Ensures-fail d n hd
  if_textual-Ensures CanonType.severity d m n hd h = Ensures-fail d n hd
  if_textual-Ensures CanonType.int d m n hd h = Ensures-fail d n hd

  canonical_wildcard-Ensures :
      (f : CanonicalField) (field : RawField) (op : CmpOp) (t : Text) (span : Span) (n : Notes)
      → Ensures
          (CanonValue x limits f op (RawValue.word t true span))
          n
          (canonical_wildcard x limits f field t span n)
  unfolding canonical_wildcard wildcard_too_long type_mismatch
  canonical_wildcard-Ensures f field op t span n =
      Ensures-if n (ltb limits.max_wildcard_chars (length t)) _ _ (λ _. Ensures-fail _ n refl)
        (λ short. if_textual-Ensures (canon_type f) _ _ n refl (λ textual.
          Ensures-map
            (λ r (same, ok).
              subst (CanonValue x limits f op (RawValue.word t true span)) (sym same)
                (CanonValue.wildcard textual (not-ltb→le _ _ short) ok))
            (checked_wildcard-Ensures x limits t span _ n)))

  int_value-Ensures :
      (f : CanonicalField) (op : CmpOp) (d : Diagnostic) (v : Option ℤ) (n : Notes)
      → is_error d ≡ true
      → Ensures
          (λ (r : ResolvedExpr F).
            (i : ℤ) × (v ≡ some i) × (r ≡ ResolvedExpr.canon f op (TypedScalar.int i)))
          n
          (int_value f op d v n)
  unfolding int_value
  int_value-Ensures f op d (some i) n hd = passes (i, refl, refl) (refl, refl, λ z. z)
  int_value-Ensures f op d none n hd = Ensures-fail d n hd

  module _ (f : CanonicalField) (field : RawField) (op : CmpOp) (t : Text) (span : Span)
      (quoted : Bool) (n : Notes) where
    severity_number-Ensures :
        (i : ℤ)
        → canon_type f ≡ CanonType.severity
        → parse_i64 t ≡ some i
        → Ensures (Literal x f op t quoted) n (severity_number op span i n)
    unfolding severity_number
    severity_number-Ensures i ty is =
        Ensures-if n (in_bands i) _ _
          (λ h. passes (Literal.severity_number ty is h) (refl, refl, λ z. z))
          (λ _. Ensures-fail _ n refl)

    severity_level-Ensures :
        (l : Option SeverityLevel)
        → canon_type f ≡ CanonType.severity
        → parse_i64 t ≡ none
        → parse_level t ≡ l
        → Ensures (Literal x f op t quoted) n (severity_level op t span l n)
    unfolding severity_level
    severity_level-Ensures (some l) ty no_number is =
        passes (Literal.severity ty no_number is) (refl, refl, λ z. z)
    severity_level-Ensures none ty no_number is = Ensures-fail _ n refl

    severity_literal-Ensures :
        (i : Option ℤ)
        → canon_type f ≡ CanonType.severity
        → parse_i64 t ≡ i
        → Ensures (Literal x f op t quoted) n (severity_literal op t span i n)
    unfolding severity_literal
    severity_literal-Ensures (some i) ty is = severity_number-Ensures i ty is
    severity_literal-Ensures none ty is = severity_level-Ensures (parse_level t) ty is refl

    text_literal-Ensures :
        (o : CmpOp)
        → op ≡ o
        → canon_type f ≡ CanonType.text
        → Ensures (Literal x f op t quoted) n (text_literal field o t span quoted n)
    unfolding text_literal
    text_literal-Ensures CmpOp.eq is ty = passes (Literal.text_eq ty is) (refl, refl, λ z. z)
    text_literal-Ensures CmpOp.ne is ty = passes (Literal.text_ne ty is) (refl, refl, λ z. z)
    text_literal-Ensures CmpOp.gt is ty = Ensures-fail _ n refl
    text_literal-Ensures CmpOp.ge is ty = Ensures-fail _ n refl
    text_literal-Ensures CmpOp.lt is ty = Ensures-fail _ n refl
    text_literal-Ensures CmpOp.le is ty = Ensures-fail _ n refl

    literal_of_type-Ensures :
        (ty : CanonType)
        → canon_type f ≡ ty
        → Ensures
            (Literal x f op t quoted)
            n
            (literal_of_type x limits ty f field op t span quoted n)
    unfolding literal_of_type str_literal
    literal_of_type-Ensures CanonType.timestamp ty =
        Ensures-map
          (λ r (i, is, same). subst (Literal x f op t quoted) (sym same) (Literal.timestamp ty is))
          (int_value-Ensures f op _ (parse_timestamp_nanos x t) n refl)
    literal_of_type-Ensures CanonType.severity ty = severity_literal-Ensures (parse_i64 t) ty refl
    literal_of_type-Ensures CanonType.int ty =
        Ensures-map
          (λ r (i, is, same). subst (Literal x f op t quoted) (sym same) (Literal.int ty is))
          (int_value-Ensures f op _ (parse_i64 t) n refl)
    literal_of_type-Ensures CanonType.text ty = text_literal-Ensures op refl ty
    literal_of_type-Ensures CanonType.str ty =
        Ensures-if n (is_eq_or_ne op) _ _ (λ h. passes (Literal.str ty h) (refl, refl, λ z. z))
          (λ _. Ensures-fail _ n refl)

    pub canonical_literal-Ensures :
        Ensures (Literal x f op t quoted) n (canonical_literal x limits f field op t span quoted n)
    unfolding canonical_literal
    canonical_literal-Ensures = literal_of_type-Ensures (canon_type f) refl

  pub canonical_predicate-Ensures :
      (f : CanonicalField) (field : RawField) (op : CmpOp) (v : RawValue) (n : Notes)
      → is_star v ≡ false
      → Ensures (CanonValue x limits f op v) n (canonical_predicate x limits f field op v n)
  unfolding canonical_predicate type_mismatch
  canonical_predicate-Ensures f field op (RawValue.regex p ci span) n h =
      Ensures-bind _ (regex_ok-Ensures x limits p ci span n) (λ _ m ok.
        if_textual-Ensures (canon_type f) _ _ m refl
          (λ textual. passes (CanonValue.regex textual ok) (refl, refl, λ z. z)))
  canonical_predicate-Ensures f field op (RawValue.word t true span) n h =
      canonical_wildcard-Ensures f field op t span n
  canonical_predicate-Ensures f field op (RawValue.word t false span) n h =
      Ensures-map (λ _ l. CanonValue.word l)
        (canonical_literal-Ensures f field op (unescape_word t) span false n)
  canonical_predicate-Ensures f field op (RawValue.quoted t span) n h =
      Ensures-map (λ _ l. CanonValue.quoted l) (canonical_literal-Ensures f field op t span true n)
  canonical_predicate-Ensures f field op (RawValue.star span) n h = absurd (cc h)
