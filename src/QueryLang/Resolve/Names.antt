-- ===== src/QueryLang/Resolve/Names.antt =====
-- The names of the built-in fields (crates/logscope-query-lang/src/resolve.rs).
use mathlib.Core.List.{Memᴰ}
use log_scope.Prelude.{
  ◌≡◌, refl, inl, inr, true, Bool-cases, String, List, [], ◌∷◌, map, none, some, All,
}
use log_scope.Text.{Text, codes, text_eq, text_eq→eq}
use log_scope.QueryLang.Diag.{Span}
use log_scope.QueryLang.Resolve.Literals.{strip_prefix}
use log_scope.QueryLang.Resolve.Typed.{CatalogView, FieldResolution}
use log_scope.QueryLang.Resolve.Notes.{Notes}
use log_scope.QueryLang.Resolve.Checks.{resolve_field, resolve_prefixed, resolve_named}
use log_scope.QueryLang.Resolve.Fields.{
  CanonicalField, display, is_one_of, builtin_field, builtin_field_names,
}
use CanonicalField.{
  timestamp, observed_timestamp, severity, severity_text, severity_number, message, event_name,
  trace_id, span_id, operation, outcome, event_type, request_id, transaction_id, message_id,
  entity_id, dataset, record_id,
}

read_display : (f : CanonicalField) → builtin_field (codes (display f)) ≡ some f
unfolding builtin_field display is_one_of text_eq
read_display timestamp = refl
read_display observed_timestamp = refl
read_display severity = refl
read_display severity_text = refl
read_display severity_number = refl
read_display message = refl
read_display event_name = refl
read_display trace_id = refl
read_display span_id = refl
read_display operation = refl
read_display outcome = refl
read_display event_type = refl
read_display request_id = refl
read_display transaction_id = refl
read_display message_id = refl
read_display entity_id = refl
read_display dataset = refl
read_display record_id = refl

-- A name that is read as the field that displays as it.
abbrev pub Displayed : String → Type 0
Displayed n = (f : CanonicalField) × (builtin_field (codes n) ≡ some f) × (display f ≡ n)

Displayed-All : (fs : List CanonicalField) → All Displayed (map display fs)
Displayed-All [] = tt
Displayed-All (f ∷ fs) = ((f, read_display f, refl), Displayed-All fs)

is_one_of-Memᴰ : (t : Text) (ss : List String) → is_one_of t ss ≡ true → Memᴰ t (map codes ss)
unfolding is_one_of
is_one_of-Memᴰ t [] h = absurd (cc h)
is_one_of-Memᴰ t (s ∷ ss) h = elim (Bool-cases (text_eq t (codes s))) [
  | inl e ↦ Memᴰ.head (text_eq→eq t (codes s) e)
  | inr e ↦ Memᴰ.tail (is_one_of-Memᴰ t ss (rw e at h))
]

-- The display name is among the suggested names, and has no `attr.` in front.
suggested :
    (f : CanonicalField)
    → (is_one_of (codes (display f)) builtin_field_names ≡ true)
      × (strip_prefix (codes "attr.") (codes (display f)) ≡ none)
unfolding builtin_field_names display is_one_of text_eq strip_prefix
suggested timestamp = (refl, refl)
suggested observed_timestamp = (refl, refl)
suggested severity = (refl, refl)
suggested severity_text = (refl, refl)
suggested severity_number = (refl, refl)
suggested message = (refl, refl)
suggested event_name = (refl, refl)
suggested trace_id = (refl, refl)
suggested span_id = (refl, refl)
suggested operation = (refl, refl)
suggested outcome = (refl, refl)
suggested event_type = (refl, refl)
suggested request_id = (refl, refl)
suggested transaction_id = (refl, refl)
suggested message_id = (refl, refl)
suggested entity_id = (refl, refl)
suggested dataset = (refl, refl)
suggested record_id = (refl, refl)

-- Under every catalog, one that has an attribute of that name included, the display name of a
-- built-in field resolves to that field with no error; it is one of the suggested names, and every
-- suggested name is the display name of the field that it is read as.
pub resolve_field-display :
    (catalog : CatalogView) (span : Span) (n : Notes)
    → ((f : CanonicalField)
        → ((resolve_field catalog (record { text = codes (display f); span = span }) n).0
            ≡ some (FieldResolution.canonical f))
          × ((resolve_field catalog (record { text = codes (display f); span = span }) n).1.errors
              ≡ n.errors)
          × Memᴰ (codes (display f)) (map codes builtin_field_names))
      × All Displayed builtin_field_names
unfolding builtin_field_names resolve_field resolve_prefixed resolve_named display
resolve_field-display catalog span n = (
  (λ f.
      let (among, bare) = suggested f in
      elim (Bool-cases (catalog.attr_exists (codes (display f)))) [
        | inl e ↦
            rw (bare, read_display f, e) (refl, refl, is_one_of-Memᴰ (codes (display f)) _ among)
        | inr e ↦
            rw (bare, read_display f, e) (refl, refl, is_one_of-Memᴰ (codes (display f)) _ among)
      ]),
  Displayed-All (
      timestamp ∷ observed_timestamp ∷ severity ∷ severity_text ∷ severity_number ∷ message
      ∷ event_name ∷ trace_id ∷ span_id ∷ operation ∷ outcome ∷ event_type ∷ request_id
      ∷ transaction_id ∷ message_id ∷ entity_id ∷ dataset ∷ record_id ∷ []),
)
