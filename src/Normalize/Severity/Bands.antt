-- ===== src/Normalize/Severity/Bands.antt =====
-- The query language finds what the mapping of severity texts gives.
use log_scope.Prelude.{
  ℕ, ◌≤◌, ◌≡◌, ◌^◌, subst, inl, inr, Bool-cases, String, List, [], ◌∷◌, map, All, Option, none,
  some, arith,
}
use log_scope.Prelude.Int.{ℤ, pos, negsuc}
use log_scope.Text.{Text}
use log_scope.QueryLang.Resolve.Fields.{is_one_of}
use log_scope.QueryLang.Resolve.Levels.{SeverityLevel, to_ascii_uppercase, InBand, InBand-unique}
use log_scope.QueryLang.Resolve.Literals.{parse_signed}
use log_scope.Normalize.Epoch.{trim}
use log_scope.Normalize.Severity.{
  severity_names, first_arm, map_token, map_trimmed, map_severity_text,
}

IsOtlp : ℕ → Type 0
IsOtlp n = (1 ≤ n) × (n ≤ 24)

first_arm-IsOtlp :
    (upper : Text) (arms : List (ℕ × List String)) (n : ℕ)
    → All (λ arm. IsOtlp arm.0) arms
    → first_arm upper arms ≡ some n
    → IsOtlp n
unfolding first_arm
first_arm-IsOtlp upper [] n all h = absurd (cc h)
first_arm-IsOtlp upper ((m, names) ∷ arms) n (here, all) h =
    elim (Bool-cases (is_one_of upper names)) [
      | inl e ↦ subst IsOtlp (cc (h, e)) here
      | inr e ↦ first_arm-IsOtlp upper arms n all (cc (h, e))
    ]

map_token-IsOtlp : (token : Text) (z : Option ℤ) (n : ℕ) → map_token token z ≡ some n → IsOtlp n
unfolding map_token IsOtlp
map_token-IsOtlp token (some (pos m)) n h = ground arith
map_token-IsOtlp token (some (negsuc m)) n h = absurd (cc h)
map_token-IsOtlp token none n h =
    first_arm-IsOtlp (map to_ascii_uppercase token) severity_names n (ground arith) h

map_trimmed-IsOtlp : (token : Text) (n : ℕ) → map_trimmed token ≡ some n → IsOtlp n
map_trimmed-IsOtlp [] n h = absurd (cc h)
map_trimmed-IsOtlp (c ∷ cs) n h = map_token-IsOtlp (c ∷ cs) (parse_signed (2 ^ 31) (c ∷ cs)) n h

-- The number that a severity text is mapped to is in the band of exactly one level of the query
-- language.
pub map_severity_text-InBand :
    (text : Text) (n : ℕ)
    → map_severity_text text ≡ some n
    → (l : SeverityLevel) × InBand n l × ((k : SeverityLevel) → InBand n k → k ≡ l)
unfolding map_severity_text IsOtlp
map_severity_text-InBand text n h =
    let (lo, hi) = map_trimmed-IsOtlp (trim text) n h in InBand-unique n lo hi
