-- ===== src/Normalize/Epoch/Precision.antt =====
-- The precision that the fraction of a text gives.
use log_scope.Prelude.{
  ℕ, suc, ◌≤◌, ◌≡◌, ◌≢◌, refl, sym, ap, subst, ◌∙◌, inl, inr, Bool-cases, [], ◌∷◌, ◌++◌, All,
  length, Option, none, some, leb, ◌==◌, ==_iff, if◌then◌else◌, arith,
}
use log_scope.Text.{Text}
use log_scope.Normalize.Epoch.{
  TimestampPrecision, is_ascii_digit, leading_digits, or_behind, behind_last_dot, fraction_digits,
  digits_precision, text_precision, is_some, effective,
}

abbrev pub IsDigit : ℕ → Type 0
IsDigit c = (b'0' ≤ c) × (c ≤ b'9')

-- A text that starts with no digit.
pub data NoDigit : Text → Type 0 where
  at_end : NoDigit []
  other : {c : ℕ} {cs : Text} → ¬ IsDigit c → NoDigit (c ∷ cs)

-- The precision of a number of decimals.
pub data Decimals (n : ℕ) : TimestampPrecision → Type 0 where
  seconds : n ≡ 0 → Decimals n TimestampPrecision.seconds
  milliseconds : 1 ≤ n → n ≤ 3 → Decimals n TimestampPrecision.milliseconds
  microseconds : 4 ≤ n → n ≤ 6 → Decimals n TimestampPrecision.microseconds
  nanoseconds : 7 ≤ n → Decimals n TimestampPrecision.nanoseconds

-- A text with no `.` keeps the precision; otherwise the digits behind the last `.` give it.
pub data Refined (t : Text) (precision : TimestampPrecision) : TimestampPrecision → Type 0 where
  kept : All (λ c. c ≢ b'.') t → Refined t precision precision
  fraction :
      {p : TimestampPrecision} (front digits back : Text)
      → t ≡ front ++ (b'.' ∷ (digits ++ back))
      → All (λ c. c ≢ b'.') (digits ++ back)
      → All IsDigit digits
      → NoDigit back
      → Decimals (length digits) p
      → Refined t precision p

digits_precision-Decimals : (n : ℕ) → Decimals n (digits_precision n)
digits_precision-Decimals n = elim (Bool-cases (n == 0)) [
  | inl e ↦ rw e (seconds ((==_iff n 0).0 e))
  | inr e ↦ elim (Bool-cases (leb n 3)) [
    | inl f ↦ rw (e, f) (milliseconds (ground arith) (ground arith))
    | inr f ↦ elim (Bool-cases (leb n 6)) [
      | inl g ↦ rw (e, f, g) (microseconds (ground arith) (ground arith))
      | inr g ↦ rw (e, f, g) (nanoseconds (ground arith))
    ]
  ]
]

-- What `behind_last_dot` says.
data Behind (t : Text) : Option Text → Type 0 where
  no_dot : All (λ c. c ≢ b'.') t → Behind t none
  dot :
      (front : Text) {u : Text}
      → t ≡ front ++ (b'.' ∷ u)
      → All (λ c. c ≢ b'.') u
      → Behind t (some u)

or_behind-Behind :
    (c : ℕ) (cs : Text) (o : Option Text) → Behind cs o → Behind (c ∷ cs) (or_behind o c cs)
or_behind-Behind c cs (some u) (dot front is none_in) = dot (c ∷ front) (ap (◌∷◌ c) is) none_in
or_behind-Behind c cs none (no_dot none_in) = elim (Bool-cases (c == b'.')) [
  | inl e ↦ rw e (dot [] (ap (λ k. k ∷ cs) ((==_iff c b'.').0 e)) none_in)
  | inr e ↦ rw e (no_dot ((λ is. cc ((==_iff c b'.').1 is, e)), none_in))
]

behind_last_dot-Behind : (t : Text) → Behind t (behind_last_dot t)
unfolding behind_last_dot
behind_last_dot-Behind [] = no_dot tt
behind_last_dot-Behind (c ∷ cs) =
    or_behind-Behind c cs (behind_last_dot cs) (behind_last_dot-Behind cs)

-- The digits that a text starts with.
split_digits :
    (t : Text)
    → (digits back : Text) × (t ≡ digits ++ back)
      × All IsDigit digits
      × NoDigit back
      × (length digits ≡ leading_digits t)
unfolding leading_digits is_ascii_digit
split_digits [] = ([], [], refl, tt, at_end, refl)
split_digits (c ∷ cs) = elim (Bool-cases (is_ascii_digit c)) [
  | inl e ↦
      let (digits, back, is, all, stops, same) = split_digits cs in
      rw e (c ∷ digits, back, ap (◌∷◌ c) is, (ground arith, all), stops, ap suc same)
  | inr e ↦ rw e ([], c ∷ cs, refl, tt, other (λ d. ground arith), refl)
]

behind-Refined :
    (t : Text) (precision : TimestampPrecision) (o : Option Text)
    → Behind t o
    → Refined t precision (if is_some o then digits_precision (fraction_digits o) else precision)
behind-Refined t precision none (no_dot none_in) = kept none_in
behind-Refined t precision (some u) (dot front is none_in) =
    let (digits, back, splits, all, stops, same) = split_digits u in
    fraction front digits back (is ∙ ap (λ k. front ++ (b'.' ∷ k)) splits)
      (subst (All (λ c. c ≢ b'.')) splits none_in) all stops
      (subst (λ n. Decimals n (digits_precision (leading_digits u))) (sym same)
        (digits_precision-Decimals (leading_digits u)))

pub effective-Refined :
    (t : Text) (precision : TimestampPrecision) → Refined t precision (effective t precision)
unfolding effective text_precision
effective-Refined t precision =
    behind-Refined t precision (behind_last_dot t) (behind_last_dot-Behind t)
