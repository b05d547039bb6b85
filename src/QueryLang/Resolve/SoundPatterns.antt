-- ===== src/QueryLang/Resolve/SoundPatterns.antt =====
-- A regex or a wildcard that passes its checks keeps the limits.
use log_scope.Prelude.{
  ◌≡◌, refl, Bool, true, false, [], ◌∷◌, Option, none, some, ltb, not-ltb→le, length,
}
use log_scope.Text.{Text}
use log_scope.QueryLang.Diag.{Span, LangLimits}
use log_scope.QueryLang.Ast.{RawValue}
use log_scope.QueryLang.Resolve.Wildcard.{wildcard_to_regex}
use log_scope.QueryLang.Resolve.Typed.{ResolvedExpr}
use log_scope.QueryLang.Resolve.Engine.{Engine, RegexError}
use log_scope.QueryLang.Resolve.Notes.{Notes, ◌>>◌, pure}
use log_scope.QueryLang.Resolve.Checks.{warn_leading_wildcard, built, regex_ok}
use log_scope.QueryLang.Resolve.Ensures.{
  Ensures, passes, Ensures-bind, Ensures-map, Ensures-if, Any, Ensures-fail, Ensures-warn-when,
}
use log_scope.QueryLang.Resolve.Meaning.{Compiles}

abbrev pub is_star : RawValue → Bool
is_star (RawValue.star s) = true
is_star _ = false

module _ {F : Type 0} (x : Engine F) (limits : LangLimits) where
  built-Ensures :
      (pattern : Text) (span : Span) (r : Option RegexError) (n : Notes)
      → Ensures (λ _. r ≡ none) n (built limits pattern span r n)
  unfolding built
  built-Ensures pattern span none n = Ensures-map (λ _ _. refl) (Ensures-warn-when _ _ n refl)
  built-Ensures pattern span (some e) n = Ensures-fail _ n refl

  pub regex_ok-Ensures :
      (pattern : Text) (ci : Bool) (span : Span) (n : Notes)
      → Ensures (λ _. Compiles x limits pattern ci) n (regex_ok x limits pattern ci span n)
  unfolding regex_ok
  regex_ok-Ensures [] ci span n = Ensures-fail _ n refl
  regex_ok-Ensures (c ∷ cs) ci span n =
      Ensures-if n (ltb limits.max_regex_chars (length (c ∷ cs))) _ _ (λ _. Ensures-fail _ n refl)
        (λ short.
          Ensures-map (λ _ h. record { short = not-ltb→le _ _ short; accepted = h })
            (built-Ensures (c ∷ cs) span (x.compile (c ∷ cs) ci limits.max_regex_compiled_bytes) n))

  warn_leading_wildcard-Ensures :
      (t : Text) (span : Span) (n : Notes) → Ensures Any n (warn_leading_wildcard t span n)
  unfolding warn_leading_wildcard
  warn_leading_wildcard-Ensures t span n = Ensures-warn-when _ _ n refl

  -- What a wildcard of either kind of field ends with.
  pub checked_wildcard-Ensures :
      (t : Text) (span : Span) (r : ResolvedExpr F) (n : Notes)
      → Ensures
          (λ a. (a ≡ r) × Compiles x limits (wildcard_to_regex t) false)
          n
          ((warn_leading_wildcard t span
              >> (regex_ok x limits (wildcard_to_regex t) false span >> pure r))
            n)
  checked_wildcard-Ensures t span r n =
      Ensures-bind (λ _. regex_ok x limits (wildcard_to_regex t) false span >> pure r)
        (warn_leading_wildcard-Ensures t span n)
        (λ _ m _.
          Ensures-bind (λ _. pure r) (regex_ok-Ensures (wildcard_to_regex t) false span m)
            (λ _ m' ok. passes (refl, ok) (refl, refl, λ z. z)))
