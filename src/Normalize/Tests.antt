-- ===== src/Normalize/Tests.antt =====
-- Runs of the normalizer, and its theorems at concrete inputs.
use log_scope.Prelude.{ℕ, ◌≡◌, ◌^◌, ◌*◌, ◌<◌, refl, subst, true, none, some, arith}
use log_scope.Prelude.Int.{pos, negsuc}
use log_scope.Text.{Text, codes, text_eq, is_whitespace}
use log_scope.QueryLang.Resolve.Literals.{parse_signed}
use log_scope.Normalize.Epoch.{
  TimestampPrecision, TimestampResult, Floats, parse_epoch, trim, text_precision, leading_digits,
  is_ascii_digit,
}
use log_scope.QueryLang.Resolve.Fields.{is_one_of}
use log_scope.QueryLang.Resolve.Levels.{SeverityLevel, warn, InBand, level_name, to_ascii_uppercase}
use log_scope.Normalize.Severity.{first_arm, map_token, map_severity_text}
use log_scope.Normalize.Severity.Bands.{map_severity_text-InBand}
use log_scope.Normalize.Severity.Names.{map_severity_text-level_name}
use log_scope.Normalize.Epoch.Exact.{size, Epoch, instant, parse_epoch-Epoch, parse_epoch-wraps}

-- No text is a floating-point number.
abbrev no_floats : Floats ℕ
no_floats = record { parse_f64 = λ t. none; is_finite = λ d. true; scaled = λ d unit. pos 0 }

fraction : text_precision (codes "12:30:00.1234Z") ≡ TimestampPrecision.microseconds
unfolding text_precision leading_digits is_ascii_digit
fraction = refl

-- Two milliseconds before the epoch; the product of the unit and any number that is read is small.
negative_text : parse_signed (2 ^ 127) (trim (codes " -2 ")) ≡ some (negsuc 1)
unfolding trim is_whitespace parse_signed
negative_text = refl

parse_epoch-Epoch_example :
    Epoch no_floats
      (codes " -2 ")
      1000
      TimestampPrecision.microseconds
      (parse_epoch no_floats (codes " -2 ") 1000 TimestampPrecision.microseconds)
parse_epoch-Epoch_example =
    parse_epoch-Epoch no_floats (codes " -2 ") 1000 TimestampPrecision.microseconds λ n is.
      let same : negsuc 1 ≡ n = cc (is, negative_text) in
      subst (λ z. size z * 1000 < 2 ^ 127) same (omega arith)

negative_epoch :
    parse_epoch no_floats (codes " -2 ") 1000 TimestampPrecision.microseconds
    ≡ TimestampResult.ok (instant (codes "-2") TimestampPrecision.microseconds (negsuc 1999))
unfolding parse_epoch trim is_whitespace parse_signed
negative_epoch = refl

abbrev huge : Text
huge = codes "664613997892457936451903530140172288"

parse_epoch-wraps_example :
    parse_epoch no_floats huge (10 ^ 9) TimestampPrecision.seconds
    ≡ TimestampResult.ok (instant huge TimestampPrecision.seconds (pos 0))
unfolding trim is_whitespace parse_signed
parse_epoch-wraps_example = parse_epoch-wraps no_floats huge TimestampPrecision.seconds 1 refl

severe : map_severity_text (codes "Severe ") ≡ some 17
unfolding map_severity_text map_token first_arm is_one_of text_eq trim is_whitespace parse_signed
    to_ascii_uppercase
severe = refl

map_severity_text-InBand_example :
    (l : SeverityLevel) × InBand 17 l × ((k : SeverityLevel) → InBand 17 k → k ≡ l)
map_severity_text-InBand_example = map_severity_text-InBand (codes "Severe ") 17 severe

map_severity_text-level_name_example :
    (n : ℕ) × (map_severity_text (codes " Warn ") ≡ some n) × InBand n warn
unfolding level_name to_ascii_uppercase trim is_whitespace
map_severity_text-level_name_example = map_severity_text-level_name warn (codes " Warn ") refl
