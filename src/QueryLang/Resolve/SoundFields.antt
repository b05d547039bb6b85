-- ===== src/QueryLang/Resolve/SoundFields.antt =====
-- A field name resolves to what it stands for, or at least one error is reported.
use log_scope.Prelude.{◌≡◌, refl, sym, true, List, [], ◌∷◌, Option, none, some}
use log_scope.Text.{Text, codes}
use log_scope.QueryLang.Diag.{Span, Diagnostic, is_error}
use log_scope.QueryLang.Ast.{RawField}
use log_scope.QueryLang.Resolve.Fields.{CanonicalField, builtin_field}
use log_scope.QueryLang.Resolve.Literals.{strip_prefix}
use log_scope.QueryLang.Resolve.Typed.{FieldResolution, CatalogView}
use log_scope.QueryLang.Resolve.Notes.{Notes}
use log_scope.QueryLang.Resolve.Checks.{
  check_attr_resolution, resolve_named, resolve_prefixed, resolve_field, with_suggestions,
}
use log_scope.QueryLang.Resolve.Ensures.{
  Ensures, passes, Ensures-bind, Ensures-map, Ensures-fail, Ensures-warn-when,
}
use log_scope.QueryLang.Resolve.Meaning.{usable, Known}

with_suggestions-error :
    (d : Diagnostic) (ss : List Text) → is_error d ≡ true → is_error (with_suggestions d ss) ≡ true
with_suggestions-error d [] h = h
with_suggestions-error d (s ∷ ss) h = h

-- A resolution that passed the check is the catalog's, and usable.
check_attr_resolution-Ensures :
    (r : FieldResolution) (written : Text) (span : Span) (n : Notes)
    → Ensures (λ a. (a ≡ r) × (usable a ≡ true)) n (check_attr_resolution r written span n)
unfolding check_attr_resolution
check_attr_resolution-Ensures (FieldResolution.unknown ss) written span n =
    Ensures-fail _ n (with_suggestions-error _ ss refl)
check_attr_resolution-Ensures (FieldResolution.ambiguous cs) written span n = Ensures-fail _ n refl
check_attr_resolution-Ensures (FieldResolution.canonical f) written span n =
    passes (refl, refl) (refl, refl, λ z. z)
check_attr_resolution-Ensures (FieldResolution.attr info) written span n =
    passes (refl, refl) (refl, refl, λ z. z)

module _ (catalog : CatalogView) (field : RawField) (n : Notes) where
  resolve_named-Ensures :
      (b : Option CanonicalField)
      → strip_prefix (codes "attr.") field.text ≡ none
      → builtin_field field.text ≡ b
      → Ensures (Known catalog field.text) n (resolve_named catalog field b n)
  unfolding resolve_named
  resolve_named-Ensures (some f) plain is =
      Ensures-bind _ (Ensures-warn-when (catalog.attr_exists field.text) _ n refl)
        (λ _ m _. passes (Known.builtin plain is) (refl, refl, λ z. z))
  resolve_named-Ensures none plain is =
      Ensures-map (λ r (same, ok). Known.dynamic plain is (sym same) ok)
        (check_attr_resolution-Ensures (catalog.resolve_attr field.text) field.text field.span n)

  resolve_prefixed-Ensures :
      (rest : Option Text)
      → strip_prefix (codes "attr.") field.text ≡ rest
      → Ensures (Known catalog field.text) n (resolve_prefixed catalog field rest n)
  unfolding resolve_prefixed
  resolve_prefixed-Ensures (some rest) is =
      Ensures-map (λ r (same, ok). Known.prefixed is (sym same) ok)
        (check_attr_resolution-Ensures (catalog.resolve_attr rest) rest field.span n)
  resolve_prefixed-Ensures none is = resolve_named-Ensures (builtin_field field.text) is refl

  pub resolve_field-Ensures : Ensures (Known catalog field.text) n (resolve_field catalog field n)
  unfolding resolve_field
  resolve_field-Ensures = resolve_prefixed-Ensures _ refl
