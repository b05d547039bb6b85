-- ===== src/QueryLang/Resolve/SoundAttributes.antt =====
-- A predicate on an attribute is resolved to what it means, or at least one error is reported.
use log_scope.Prelude.{
  ◌≡◌, refl, sym, subst, inl, inr, Bool, true, false, not, ◌&&◌, Bool-cases, List, [], ◌∷◌, map,
  filter, all, Option, none, some, ltb, not-ltb→le, length, arith,
}
use log_scope.Prelude.Int.{ℤ}
use log_scope.Text.{Text}
use log_scope.QueryLang.Diag.{Span, Diagnostic, is_error, LangLimits}
use log_scope.QueryLang.Ast.{RawValue, CmpOp, RawField}
use log_scope.QueryLang.Lexer.{unescape_word}
use log_scope.QueryLang.Resolve.Fields.{is_one_of, AttrType, is_scalar}
use log_scope.QueryLang.Resolve.Literals.{to_ascii_lowercase, parse_i64}
use log_scope.QueryLang.Resolve.Typed.{AttrFieldInfo, TypedScalar, AttrScalar}
use log_scope.QueryLang.Resolve.Engine.{Engine, parse_finite}
use log_scope.QueryLang.Resolve.Notes.{Notes}
use log_scope.QueryLang.Resolve.Checks.{is_eq_or_ne, wildcard_too_long, attr_type_mismatch}
use log_scope.QueryLang.Resolve.Attributes.{
  AttrClass, class_of, is_number, unordered, is_str, double_or, int_or, bool_or, typed_literal,
  attr_literal, attr_regex, attr_wildcard, attr_value, attr_of_class, attr_predicate, not_of_type,
  attr_ordering, unsupported_type, type_conflict,
}
use log_scope.QueryLang.Resolve.Ensures.{
  Ensures, passes, Ensures-bind, Ensures-map, Ensures-if, Ensures-fail,
}
use log_scope.QueryLang.Resolve.Meaning.{TypedAs, AttrLiteral, AttrValue}
use log_scope.QueryLang.Resolve.SoundPatterns.{is_star, regex_ok-Ensures, checked_wildcard-Ensures}

is_str-eq : (ty : AttrType) → is_str ty ≡ true → ty ≡ AttrType.str
is_str-eq AttrType.str h = refl
is_str-eq AttrType.int h = absurd (cc h)
is_str-eq AttrType.double h = absurd (cc h)
is_str-eq AttrType.bool h = absurd (cc h)
is_str-eq AttrType.bytes h = absurd (cc h)
is_str-eq AttrType.array h = absurd (cc h)
is_str-eq AttrType.map h = absurd (cc h)
is_str-eq AttrType.empty h = absurd (cc h)

allowed_op : {u b : Bool} → u ≡ true → (u && not b) ≡ false → b ≡ true
allowed_op h k = ground arith

-- What a filter keeps passes it.
head-filter :
    (ts : List AttrType) (y : AttrType) (ys : List AttrType)
    → filter is_scalar ts ≡ y ∷ ys
    → is_scalar y ≡ true
head-filter [] y ys h = absurd (cc h)
head-filter (t ∷ ts) y ys h = elim (Bool-cases (is_scalar t)) [
  | inl e ↦ cc (e, rw e at h)
  | inr e ↦ head-filter ts y ys (rw e at h)
]

class_of-one :
    (ys : List AttrType) (ty : AttrType)
    → ((y : AttrType) (rest : List AttrType) → ys ≡ y ∷ rest → is_scalar y ≡ true)
    → class_of ys ≡ AttrClass.one ty
    → is_scalar ty ≡ true
unfolding class_of is_scalar
class_of-one [] ty heads h = absurd (cc h)
class_of-one (t ∷ []) ty heads h = cc (h, heads t [] refl)
class_of-one (t ∷ u ∷ ts) ty heads h = elim (Bool-cases (all is_number (t ∷ u ∷ ts))) [
  | inl e ↦ cc (rw e at h)
  | inr e ↦ absurd (cc (rw e at h))
]

class_of-is_scalar :
    (ts : List AttrType) (ty : AttrType)
    → class_of (filter is_scalar ts) ≡ AttrClass.one ty
    → is_scalar ty ≡ true
class_of-is_scalar ts ty h = class_of-one (filter is_scalar ts) ty (head-filter ts) h

module _ {F : Type 0} (x : Engine F) (limits : LangLimits) where
  double_or-Ensures :
      (d : Diagnostic) (v : Option F) (n : Notes)
      → is_error d ≡ true
      → Ensures
          (λ r. (a : F) × (v ≡ some a) × (r ≡ (AttrScalar.double, TypedScalar.double a)))
          n
          (double_or d v n)
  unfolding double_or
  double_or-Ensures d (some a) n hd = passes (a, refl, refl) (refl, refl, λ z. z)
  double_or-Ensures d none n hd = Ensures-fail d n hd

  int_or-Ensures :
      (ty : AttrType) (t : Text) (d : Diagnostic) (i : Option ℤ) (n : Notes)
      → is_error d ≡ true
      → ty ≡ AttrType.int
      → parse_i64 t ≡ i
      → Ensures (TypedAs x ty t) n (int_or d (parse_finite x t) i n)
  unfolding int_or
  int_or-Ensures ty t d (some i) n hd is h = passes (TypedAs.int is h) (refl, refl, λ z. z)
  int_or-Ensures ty t d none n hd is h =
      Ensures-map
        (λ r (a, found, same). subst (TypedAs x ty t) (sym same) (TypedAs.decimal is h found))
        (double_or-Ensures d (parse_finite x t) n hd)

  bool_or-Ensures :
      (ty : AttrType) (t : Text) (d : Diagnostic) (n : Notes)
      → is_error d ≡ true
      → ty ≡ AttrType.bool
      → Ensures (TypedAs x ty t) n (bool_or d (map to_ascii_lowercase t) n)
  unfolding bool_or
  bool_or-Ensures ty t d n hd is =
      Ensures-if n (is_one_of (map to_ascii_lowercase t) ("true" ∷ [])) _ _
        (λ h. passes (TypedAs.yes_word is h) (refl, refl, λ z. z))
        (λ not_true.
          Ensures-if n (is_one_of (map to_ascii_lowercase t) ("false" ∷ [])) _ _
            (λ h. passes (TypedAs.no_word is not_true h) (refl, refl, λ z. z))
            (λ _. Ensures-fail d n hd))

  -- The types that `class_of` gives to scalar types are scalar.
  typed_literal-Ensures :
      (info : AttrFieldInfo) (ty : AttrType) (t : Text) (span : Span) (n : Notes)
      → is_scalar ty ≡ true
      → Ensures (TypedAs x ty t) n (typed_literal x info ty t span n)
  unfolding typed_literal is_scalar not_of_type
  typed_literal-Ensures info AttrType.str t span n h =
      passes (TypedAs.str refl) (refl, refl, λ z. z)
  typed_literal-Ensures info AttrType.int t span n h =
      int_or-Ensures AttrType.int t _ (parse_i64 t) n refl refl refl
  typed_literal-Ensures info AttrType.double t span n h =
      Ensures-map
        (λ r (a, found, same).
          subst (TypedAs x AttrType.double t) (sym same) (TypedAs.double refl found))
        (double_or-Ensures _ (parse_finite x t) n refl)
  typed_literal-Ensures info AttrType.bool t span n h =
      bool_or-Ensures AttrType.bool t _ n refl refl
  typed_literal-Ensures info AttrType.bytes t span n h = absurd (cc h)
  typed_literal-Ensures info AttrType.array t span n h = absurd (cc h)
  typed_literal-Ensures info AttrType.map t span n h = absurd (cc h)
  typed_literal-Ensures info AttrType.empty t span n h = absurd (cc h)

  module _ (info : AttrFieldInfo) (ty : AttrType) (op : CmpOp) (span : Span) (n : Notes) where
    attr_literal-Ensures :
        (t : Text)
        → is_scalar ty ≡ true
        → Ensures (AttrLiteral x info ty op t) n (attr_literal x info ty op t span n)
    unfolding attr_literal attr_ordering
    attr_literal-Ensures t h =
        Ensures-if n (unordered ty && not (is_eq_or_ne op)) _ _ (λ _. Ensures-fail _ n refl)
          (λ allowed. Ensures-bind _ (typed_literal-Ensures info ty t span n h) (λ v m typed.
            passes (AttrLiteral.typed (λ u. allowed_op u allowed) typed) (refl, refl, λ z. z)))

    attr_wildcard-Ensures :
        (t : Text)
        → Ensures
            (AttrValue x limits info ty op (RawValue.word t true span))
            n
            (attr_wildcard x limits info ty t span n)
    unfolding attr_wildcard wildcard_too_long attr_type_mismatch
    attr_wildcard-Ensures t =
        Ensures-if n (is_str ty) _ _
          (λ s.
            Ensures-if n (ltb limits.max_wildcard_chars (length t)) _ _ (λ _. Ensures-fail _ n refl)
              (λ short.
                Ensures-map
                  (λ r (same, ok).
                    subst (AttrValue x limits info ty op (RawValue.word t true span)) (sym same)
                      (AttrValue.wildcard (is_str-eq ty s) (not-ltb→le _ _ short) ok))
                  (checked_wildcard-Ensures x limits t span _ n)))
          (λ _. Ensures-fail _ n refl)

    attr_regex-Ensures :
        (p : Text) (ci : Bool)
        → Ensures
            (AttrValue x limits info ty op (RawValue.regex p ci span))
            n
            (attr_regex x limits info ty p ci span n)
    unfolding attr_regex attr_type_mismatch
    attr_regex-Ensures p ci =
        Ensures-if n (is_str ty) _ _
          (λ s.
            Ensures-bind _ (regex_ok-Ensures x limits p ci span n)
              (λ _ m ok. passes (AttrValue.regex (is_str-eq ty s) ok) (refl, refl, λ z. z)))
          (λ _. Ensures-fail _ n refl)

  attr_value-Ensures :
      (info : AttrFieldInfo) (ty : AttrType) (op : CmpOp) (v : RawValue) (n : Notes)
      → is_scalar ty ≡ true
      → is_star v ≡ false
      → Ensures (AttrValue x limits info ty op v) n (attr_value x limits info ty op v n)
  unfolding attr_value
  attr_value-Ensures info ty op (RawValue.regex p ci span) n scalar h =
      attr_regex-Ensures info ty op span n p ci
  attr_value-Ensures info ty op (RawValue.word t true span) n scalar h =
      attr_wildcard-Ensures info ty op span n t
  attr_value-Ensures info ty op (RawValue.word t false span) n scalar h =
      Ensures-map (λ _ l. AttrValue.word l)
        (attr_literal-Ensures info ty op span n (unescape_word t) scalar)
  attr_value-Ensures info ty op (RawValue.quoted t span) n scalar h =
      Ensures-map (λ _ l. AttrValue.quoted l) (attr_literal-Ensures info ty op span n t scalar)
  attr_value-Ensures info ty op (RawValue.star span) n scalar h = absurd (cc h)

  attr_of_class-Ensures :
      (c : AttrClass) (info : AttrFieldInfo) (field : RawField) (op : CmpOp) (v : RawValue)
      (n : Notes)
      → class_of (filter is_scalar info.types) ≡ c
      → is_star v ≡ false
      → Ensures
          (λ r.
            (ty : AttrType) × (class_of (filter is_scalar info.types) ≡ AttrClass.one ty)
            × AttrValue x limits info ty op v r)
          n
          (attr_of_class x limits c info field op v n)
  unfolding attr_of_class unsupported_type type_conflict
  attr_of_class-Ensures AttrClass.none_scalar info field op v n is h = Ensures-fail _ n refl
  attr_of_class-Ensures AttrClass.conflict info field op v n is h = Ensures-fail _ n refl
  attr_of_class-Ensures (AttrClass.one ty) info field op v n is h =
      Ensures-map (λ r a. (ty, is, a))
        (attr_value-Ensures info ty op v n (class_of-is_scalar info.types ty is) h)

  pub attr_predicate-Ensures :
      (info : AttrFieldInfo) (field : RawField) (op : CmpOp) (v : RawValue) (n : Notes)
      → is_star v ≡ false
      → Ensures
          (λ r.
            (ty : AttrType) × (class_of (filter is_scalar info.types) ≡ AttrClass.one ty)
            × AttrValue x limits info ty op v r)
          n
          (attr_predicate x limits info field op v n)
  unfolding attr_predicate
  attr_predicate-Ensures info field op v n h =
      attr_of_class-Ensures (class_of (filter is_scalar info.types)) info field op v n refl h
