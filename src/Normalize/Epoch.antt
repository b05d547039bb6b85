-- ===== src/Normalize/Epoch.antt =====
-- Epoch timestamps (crates/logscope-normalize/src/timestamp.rs). Floating-point numbers are a
-- parameter. The product of two `i128` wraps, as it does in a release build.
pub mod Exact
pub mod Precision
use log_scope.Prelude.{
  ℕ, zero, suc, ◌+◌, ◌-◌, ◌*◌, ◌^◌, String, Bool, true, false, ◌&&◌, List, [], ◌∷◌, Option, none,
  some, all, length, leb, ltb, ◌==◌, if◌then◌else◌,
}
use log_scope.Prelude.Int.{ℤ, pos, negsuc}
use log_scope.Text.{Text, is_whitespace}
use log_scope.Model.Digest.{wrapped}
use log_scope.QueryLang.Resolve.Literals.{parse_signed}

pub data TimestampPrecision : Type 0 where
  seconds milliseconds microseconds nanoseconds : TimestampPrecision

pub data TimezoneAssumption : Type 0 where
  offset_in_text assumed_utc : TimezoneAssumption
  profile_zone : Text → TimezoneAssumption
  epoch_value : TimezoneAssumption

pub record ParsedTimestamp : Type 0 where
  pub nanos : ℤ
  pub precision : TimestampPrecision
  pub assumption : TimezoneAssumption
  pub ambiguous : Bool

-- The errors of `TimestampError` that an epoch value can give.
pub data TimestampError : Type 0 where
  unparsable : (text : Text) → (detail : String) → TimestampError
  out_of_range : TimestampError

pub data TimestampResult : Type 0 where
  ok : ParsedTimestamp → TimestampResult
  err : TimestampError → TimestampResult

-- `parse::<f64>`, `is_finite`, and `(float * unit as f64) as i128`
pub record Floats (F : Type 0) : Type 0 where
  pub parse_f64 : Text → Option F
  pub is_finite : F → Bool
  pub scaled : F → ℕ → ℤ

-- `str::trim`
unfoldable pub trim_start : Text → Text
trim_start [] = []
trim_start (c ∷ cs) = let rest = trim_start cs in if is_whitespace c then rest else c ∷ cs

unfoldable pub trim_end : Text → Text
trim_end [] = []
trim_end (c ∷ cs) = let rest = trim_end cs in if all is_whitespace (c ∷ cs) then [] else c ∷ rest

unfoldable pub trim : Text → Text
unfolding trim_start trim_end
trim t = trim_end (trim_start t)

unfoldable pub is_ascii_digit : ℕ → Bool
is_ascii_digit c = leb b'0' c && leb c b'9'

-- How many digits the text starts with.
unfoldable pub leading_digits : Text → ℕ
unfolding is_ascii_digit
leading_digits [] = 0
leading_digits (c ∷ cs) = let rest = leading_digits cs in if is_ascii_digit c then suc rest else 0

abbrev or_behind : Option Text → ℕ → Text → Option Text
or_behind (some t) c cs = some t
or_behind none c cs = if c == b'.' then some cs else none

-- What stands behind the last `.`.
unfoldable pub behind_last_dot : Text → Option Text
behind_last_dot [] = none
behind_last_dot (c ∷ cs) = or_behind (behind_last_dot cs) c cs

abbrev fraction_digits : Option Text → ℕ
fraction_digits none = 0
fraction_digits (some t) = leading_digits t

abbrev pub digits_precision : ℕ → TimestampPrecision
digits_precision n =
    if n == 0
    then TimestampPrecision.seconds
    else if leb n 3
    then TimestampPrecision.milliseconds
    else if leb n 6
    then TimestampPrecision.microseconds
    else TimestampPrecision.nanoseconds

unfoldable pub text_precision : Text → TimestampPrecision
unfolding behind_last_dot leading_digits
text_precision t = digits_precision (fraction_digits (behind_last_dot t))

abbrev pub minus : ℕ → ℤ
minus zero = pos 0
minus (suc n) = negsuc n

-- The product with a unit.
unfoldable pub times : ℤ → ℕ → ℤ
times (pos n) unit = pos (n * unit)
times (negsuc n) unit = minus (suc n * unit)

-- What an `i128` holds after it wraps.
unfoldable pub wrap_i128 : ℤ → ℤ
wrap_i128 z = let m = wrapped 16 z in if ltb m (2 ^ 127) then pos m else negsuc (2 ^ 128 - 1 - m)

abbrev pub fits_i64 : ℤ → Bool
fits_i64 (pos n) = ltb n (2 ^ 63)
fits_i64 (negsuc n) = ltb n (2 ^ 63)

abbrev is_some : {A : Type 0} → Option A → Bool
is_some none = false
is_some (some a) = true

-- The precision of the text where it has a fraction.
unfoldable pub effective : Text → TimestampPrecision → TimestampPrecision
unfolding text_precision behind_last_dot
effective trimmed precision =
    if is_some (behind_last_dot trimmed) then text_precision trimmed else precision

-- `i64::try_from` and the result.
unfoldable pub finished : Text → TimestampPrecision → ℤ → TimestampResult
unfolding effective
finished trimmed precision nanos =
    if fits_i64 nanos
    then ok (record {
      nanos = nanos;
      precision = effective trimmed precision;
      assumption = TimezoneAssumption.epoch_value;
      ambiguous = false;
    })
    else err out_of_range

module _ {F : Type 0} (floats : Floats F) where
  unfoldable pub float_epoch : Text → ℕ → TimestampPrecision → Option F → TimestampResult
  unfolding finished trim
  float_epoch text unit precision none = err (unparsable text "not a number")
  float_epoch text unit precision (some d) =
      if floats.is_finite d
      then finished (trim text) precision (floats.scaled d unit)
      else err (unparsable text "non-finite epoch value")

  -- An integer is tried before a floating-point number.
  unfoldable pub number_epoch : Text → ℕ → TimestampPrecision → Option ℤ → TimestampResult
  unfolding float_epoch finished wrap_i128 times trim
  number_epoch text unit precision (some n) =
      finished (trim text) precision (wrap_i128 (times n unit))
  number_epoch text unit precision none =
      float_epoch text unit precision (floats.parse_f64 (trim text))

  unfoldable pub parse_epoch : Text → ℕ → TimestampPrecision → TimestampResult
  unfolding number_epoch trim
  parse_epoch text unit precision =
      number_epoch text unit precision (parse_signed (2 ^ 127) (trim text))
