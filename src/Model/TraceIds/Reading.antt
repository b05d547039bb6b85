-- ===== src/Model/TraceIds/Reading.antt =====
-- What hexadecimal text is read as.
use log_scope.Prelude.{
  ℕ, ◌*◌, ◌≡◌, ◌≢◌, ◌∙◌, inl, inr, Bool-cases, all, map, All, length, ◌==◌, ==_iff,
}
use log_scope.Bytes.{Bytes}
use log_scope.QueryLang.Resolve.Literals.{to_ascii_lowercase}
use log_scope.Model.TraceIds.{
  IdResult, ok, err, wrong_length, not_hex, all_zero, is_ascii_hexdigit, is_zero_digit,
  validate_hex, from_hex,
}
use log_scope.Model.TraceIds.Digits.{
  AllZero, IsHex, Spells, IsId, all-All, length-lower, all-AllZero, AllZero-all, lower-AllZero,
  lower-Spells, all-IsHex, IsHex-all,
}

-- What reading `2 * n` hexadecimal digits gives.
pub data Read (n : ℕ) (s : Bytes) : IdResult Bytes → Type 0 where
  accepted : {id : Bytes} → IsId n id → Spells s id → Read n s (ok id)
  of_length : length s ≢ 2 * n → Read n s (err (wrong_length (2 * n) (length s)))
  of_digit : length s ≡ 2 * n → ¬ All IsHex s → Read n s (err not_hex)
  of_zeros : length s ≡ 2 * n → AllZero s → Read n s (err all_zero)

validate_hex-Read : (n : ℕ) (s : Bytes) → Read n s (validate_hex s (2 * n))
unfolding validate_hex
validate_hex-Read n s = elim (Bool-cases (length s == 2 * n)) [
  | inr e ↦ rw e (of_length (λ is. cc ((==_iff (length s) (2 * n)).1 is, e)))
  | inl e ↦
      let sized = (==_iff (length s) (2 * n)).0 e in
      elim (Bool-cases (all is_ascii_hexdigit s)) [
        | inr d ↦ rw (e, d) (of_digit sized (λ h. cc (IsHex-all s h, d)))
        | inl d ↦ elim (Bool-cases (all is_zero_digit (map to_ascii_lowercase s))) [
          | inl z ↦ rw (e, d, z) (of_zeros sized (lower-AllZero s (all-AllZero _ z)))
          | inr z ↦
              rw (e, d, z)
                (accepted
                  (record {
                    sized = length-lower s ∙ sized;
                    digits = all-All s d;
                    not_zero = λ h. cc (AllZero-all _ h, z);
                  })
                  (lower-Spells s (all-IsHex s d)))
        ]
      ]
]

-- A text is read as an id exactly when it has two hexadecimal digits for each byte, not all of them
-- zero, and the id is its digits in lower case; otherwise the error says which of these it misses,
-- the length first and the zeros last.
pub from_hex-Read : (n : ℕ) (s : Bytes) → Read n s (from_hex n s)
unfolding from_hex
from_hex-Read n s = validate_hex-Read n s
