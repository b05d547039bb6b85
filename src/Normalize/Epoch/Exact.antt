-- ===== src/Normalize/Epoch/Exact.antt =====
-- Which instants epoch values give.
use log_scope.Prelude.{
  ℕ, zero, suc, ◌+◌, ◌-◌, ◌*◌, ◌^◌, ◌%◌, ◌≤◌, ◌<◌, ◌≡◌, ◌∙◌, refl, sym, ap, subst, inl, inr, Option,
  none, some, true, false, Bool-cases, arith, ltb, lt→ltb, le→not-ltb, if◌then◌else◌,
}
use log_scope.Prelude.Int.{ℤ, pos, negsuc, pos_part, neg_part}
use log_scope.Text.{Text}
use log_scope.QueryLang.Resolve.Literals.{parse_signed}
use log_scope.Normalize.Epoch.{
  TimestampPrecision, ParsedTimestamp, TimestampResult, ok, err, unparsable, out_of_range, fits_i64,
  Floats, TimezoneAssumption, minus, times, wrap_i128, trim, effective, finished, float_epoch,
  number_epoch, parse_epoch,
}
use log_scope.Normalize.Epoch.Precision.{Refined, effective-Refined}

-- The size of an integer.
abbrev pub size : ℤ → ℕ
size z = pos_part z + neg_part z

-- `i64`
abbrev pub IsI64 : ℤ → Type 0
IsI64 z = (pos_part z < 2 ^ 63) × (neg_part z ≤ 2 ^ 63)

-- The product of an integer and a unit, by its parts.
abbrev pub IsProduct : ℤ → ℕ → ℤ → Type 0
IsProduct n unit z = (pos_part z ≡ pos_part n * unit) × (neg_part z ≡ neg_part n * unit)

unwrapped : ℕ → ℤ
unwrapped m = if ltb m (2 ^ 127) then pos m else negsuc (2 ^ 128 - 1 - m)

unwrapped_low : (m : ℕ) → m < 2 ^ 127 → unwrapped m ≡ pos m
unfolding unwrapped
unwrapped_low m h = rw (lt→ltb m (2 ^ 127) h) refl

unwrapped_high : (m : ℕ) → 2 ^ 127 ≤ m → unwrapped m ≡ negsuc (2 ^ 128 - 1 - m)
unfolding unwrapped
unwrapped_high m h = rw (le→not-ltb m (2 ^ 127) h) refl

wrap_i128-fits : (z : ℤ) → size z < 2 ^ 127 → wrap_i128 z ≡ z
unfolding wrap_i128 unwrapped
wrap_i128-fits (pos n) h =
    unwrapped_low (n % 256 ^ 16) (omega (arith, h)) ∙ ap pos (omega (arith, h))
wrap_i128-fits (negsuc n) h =
    unwrapped_high (256 ^ 16 - 1 - n % 256 ^ 16) (omega (arith, h)) ∙ ap negsuc (omega (arith, h))

minus-parts : (k : ℕ) → (pos_part (minus k) ≡ 0) × (neg_part (minus k) ≡ k)
minus-parts zero = (refl, refl)
minus-parts (suc k) = (refl, refl)

times-IsProduct : (n : ℤ) (unit : ℕ) → IsProduct n unit (times n unit)
unfolding times
times-IsProduct (pos n) unit = (refl, grind arith)
times-IsProduct (negsuc n) unit =
    let (no_pos, is_neg) = minus-parts (suc n * unit) in (no_pos ∙ grind arith, is_neg)

times-size : (n : ℤ) (unit : ℕ) → size (times n unit) ≡ size n * unit
times-size n unit = let (p, m) = times-IsProduct n unit in grind arith

fits_i64-IsI64 : (z : ℤ) → fits_i64 z ≡ true → IsI64 z
fits_i64-IsI64 (pos n) h = ground arith
fits_i64-IsI64 (negsuc n) h = ground arith

fits_i64-beyond : (z : ℤ) → fits_i64 z ≡ false → ¬ IsI64 z
fits_i64-beyond (pos n) h = λ k. ground arith
fits_i64-beyond (negsuc n) h = λ k. ground arith

-- The instant of a number of nanoseconds that was read from a text.
abbrev pub instant : Text → TimestampPrecision → ℤ → ParsedTimestamp
instant trimmed precision nanos = record {
  nanos = nanos;
  precision = effective trimmed precision;
  assumption = TimezoneAssumption.epoch_value;
  ambiguous = false;
}

-- What a number of nanoseconds gives: the instant, or the range error when an `i64` does not hold
-- it.
pub data Instant (trimmed : Text) (precision : TimestampPrecision) (z : ℤ)
    : TimestampResult → Type 0 where
  within :
      {p : TimestampPrecision}
      → IsI64 z
      → Refined trimmed precision p
      → Instant trimmed precision z (
          ok (record {
            nanos = z;
            precision = p;
            assumption = TimezoneAssumption.epoch_value;
            ambiguous = false;
          }))
  beyond : ¬ IsI64 z → Instant trimmed precision z (err out_of_range)

-- What an epoch text gives.
pub data Epoch {F : Type 0} (floats : Floats F) (text : Text) (unit : ℕ)
    (precision : TimestampPrecision) : TimestampResult → Type 0 where
  whole :
      {n z : ℤ} {r : TimestampResult}
      → parse_signed (2 ^ 127) (trim text) ≡ some n
      → IsProduct n unit z
      → Instant (trim text) precision z r
      → Epoch floats text unit precision r
  float :
      {d : F} {r : TimestampResult}
      → parse_signed (2 ^ 127) (trim text) ≡ none
      → floats.parse_f64 (trim text) ≡ some d
      → floats.is_finite d ≡ true
      → Instant (trim text) precision (floats.scaled d unit) r
      → Epoch floats text unit precision r
  infinite :
      {d : F}
      → parse_signed (2 ^ 127) (trim text) ≡ none
      → floats.parse_f64 (trim text) ≡ some d
      → floats.is_finite d ≡ false
      → Epoch floats text unit precision (err (unparsable text "non-finite epoch value"))
  no_number :
      parse_signed (2 ^ 127) (trim text) ≡ none
      → floats.parse_f64 (trim text) ≡ none
      → Epoch floats text unit precision (err (unparsable text "not a number"))

finished-Instant :
    (trimmed : Text) (precision : TimestampPrecision) (z : ℤ)
    → Instant trimmed precision z (finished trimmed precision z)
unfolding finished
finished-Instant trimmed precision z = elim (Bool-cases (fits_i64 z)) [
  | inl e ↦ rw e (within (fits_i64-IsI64 z e) (effective-Refined trimmed precision))
  | inr e ↦ rw e (beyond (fits_i64-beyond z e))
]

module _ {F : Type 0} (floats : Floats F) (text : Text) (unit : ℕ)
    (precision : TimestampPrecision) where
  float_epoch-Epoch :
      (o : Option F)
      → parse_signed (2 ^ 127) (trim text) ≡ none
      → floats.parse_f64 (trim text) ≡ o
      → Epoch floats text unit precision (float_epoch floats text unit precision o)
  unfolding float_epoch
  float_epoch-Epoch none no_int is = no_number no_int is
  float_epoch-Epoch (some d) no_int is = elim (Bool-cases (floats.is_finite d)) [
    | inl e ↦
        rw e (float no_int is e (finished-Instant (trim text) precision (floats.scaled d unit)))
    | inr e ↦ rw e (infinite no_int is e)
  ]

  number_epoch-Epoch :
      (o : Option ℤ)
      → parse_signed (2 ^ 127) (trim text) ≡ o
      → ((n : ℤ) → parse_signed (2 ^ 127) (trim text) ≡ some n → size n * unit < 2 ^ 127)
      → Epoch floats text unit precision (number_epoch floats text unit precision o)
  unfolding number_epoch
  number_epoch-Epoch none is small = float_epoch-Epoch (floats.parse_f64 (trim text)) is refl
  number_epoch-Epoch (some n) is small =
      let fits : size (times n unit) < 2 ^ 127 =
        subst (λ k. k < 2 ^ 127) (sym (times-size n unit)) (small n is) in
      whole is (times-IsProduct n unit) (
        subst (λ z. Instant (trim text) precision (times n unit) (finished (trim text) precision z))
          (sym (wrap_i128-fits (times n unit) fits))
          (finished-Instant (trim text) precision (times n unit)))

-- Every epoch text whose nanoseconds are below 2^127 in size, if it is a whole number, gives what
-- it says: a whole number its product with the unit exactly, a finite one what the floating-point
-- product gives, at the precision that its fraction refines, or the range error when an `i64` does
-- not hold it, and every other text its error.
pub parse_epoch-Epoch :
    {F : Type 0} (floats : Floats F) (text : Text) (unit : ℕ) (precision : TimestampPrecision)
    → ((n : ℤ) → parse_signed (2 ^ 127) (trim text) ≡ some n → size n * unit < 2 ^ 127)
    → Epoch floats text unit precision (parse_epoch floats text unit precision)
unfolding parse_epoch
parse_epoch-Epoch floats text unit precision small =
    number_epoch-Epoch floats text unit precision (parse_signed (2 ^ 127) (trim text)) refl small

-- A number of seconds that is a multiple of 2^119 is taken for the start of the epoch.
pub parse_epoch-wraps :
    {F : Type 0} (floats : Floats F) (text : Text) (precision : TimestampPrecision) (k : ℕ)
    → parse_signed (2 ^ 127) (trim text) ≡ some (pos (k * 2 ^ 119))
    → parse_epoch floats text (10 ^ 9) precision ≡ ok (instant (trim text) precision (pos 0))
unfolding parse_epoch number_epoch times wrap_i128 unwrapped finished
parse_epoch-wraps floats text precision k is =
    let nothing_left : k * 2 ^ 119 * 10 ^ 9 % 256 ^ 16 ≡ 0 = omega arith in
    rw is (
      ap (finished (trim text) precision)
        (ap unwrapped nothing_left ∙ unwrapped_low 0 (omega arith)))
