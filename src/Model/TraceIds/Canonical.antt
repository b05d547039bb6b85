-- ===== src/Model/TraceIds/Canonical.antt =====
-- Ids have one form, whichever way they are made.
use log_scope.Prelude.{
  ℕ, ◌*◌, ◌/◌, ◌%◌, ◌<◌, ◌≡◌, refl, ap, ◌∙◌, subst, inl, inr, true, false, Bool-cases, [], ◌∷◌,
  some, all, All, length, ◌==◌, ==_iff, arith,
}
use log_scope.Bytes.{Bytes, AreBytes, hex, hex_digit}
use log_scope.Model.TraceIds.{
  ok, is_zero_digit, is_zero_byte, validate_hex, bytes_to_hex, from_hex, from_bytes,
}
use log_scope.Model.TraceIds.Digits.{
  IsLowerHex, IsId, lower_all_fixed, all_hexdigits, AllZero-all, not-AllZero,
}

hex_digit-IsLowerHex : (d : ℕ) → d < 16 → IsLowerHex (hex_digit d)
unfolding hex_digit
hex_digit-IsLowerHex d h = ground arith

hex_digit-zero : (d : ℕ) → d < 16 → is_zero_digit (hex_digit d) ≡ true → d ≡ 0
unfolding hex_digit
hex_digit-zero d h k = ground arith

from_hex-IsId : (n : ℕ) (id : Bytes) → IsId n id → from_hex n id ≡ ok id
unfolding from_hex validate_hex
from_hex-IsId n id h =
    rw
      (
        (==_iff (length id) (2 * n)).1 h.sized,
        all_hexdigits id h.digits,
        lower_all_fixed id h.digits,
        not-AllZero id h.not_zero,
      )
      refl

hex-digits : (bs : Bytes) → AreBytes bs → All IsLowerHex (hex bs)
unfolding hex
hex-digits [] h = tt
hex-digits (b ∷ bs) (h, hs) = (
  hex_digit-IsLowerHex (b / 16) (omega (arith, h)),
  (hex_digit-IsLowerHex (b % 16) (omega arith), hex-digits bs hs),
)

length-hex : (bs : Bytes) → length (hex bs) ≡ 2 * length bs
unfolding hex
length-hex [] = omega arith
length-hex (b ∷ bs) = omega (arith, length-hex bs)

hex-not_zero :
    (bs : Bytes) → AreBytes bs → all is_zero_byte bs ≡ false → all is_zero_digit (hex bs) ≡ false
unfolding hex
hex-not_zero [] h k = k
hex-not_zero (b ∷ bs) (h, hs) k = elim (Bool-cases (is_zero_digit (hex_digit (b / 16)))) [
  | inr e ↦ rw e refl
  | inl e ↦ elim (Bool-cases (is_zero_digit (hex_digit (b % 16)))) [
    | inr e' ↦ rw (e, e') refl
    | inl e' ↦
        let high = hex_digit-zero (b / 16) (omega (arith, h)) e in
        let low = hex_digit-zero (b % 16) (omega arith) e' in
        let zero_byte : is_zero_byte b ≡ true = (==_iff b 0).1 (omega (arith, high, low)) in
        rw (e, e') (hex-not_zero bs hs (rw zero_byte at k))
  ]
]

from_bytes-IsId : (n : ℕ) (bs id : Bytes) → AreBytes bs → from_bytes n bs ≡ ok (some id) → IsId n id
unfolding from_bytes bytes_to_hex
from_bytes-IsId n [] id hb h = absurd (cc h)
from_bytes-IsId n (b ∷ bs) id hb h = elim (Bool-cases (length (b ∷ bs) == n)) [
  | inr e ↦ absurd (cc (rw e at h))
  | inl e ↦ elim (Bool-cases (all is_zero_byte (b ∷ bs))) [
    | inl z ↦ absurd (cc (rw (e, z) at h))
    | inr z ↦
        let same : hex (b ∷ bs) ≡ id = cc (rw (e, z) at h) in
        subst (IsId n) same (record {
          sized = length-hex (b ∷ bs) ∙ ap (λ (k : ℕ). 2 * k) ((==_iff (length (b ∷ bs)) n).0 e);
          digits = hex-digits (b ∷ bs) hb;
          not_zero = λ zeros. cc (AllZero-all (hex (b ∷ bs)) zeros, hex-not_zero (b ∷ bs) hb z);
        })
  ]
]

-- An id that was made of raw bytes is one that hexadecimal text can give: it reads as itself.
pub from_hex-from_bytes :
    (n : ℕ) (bs id : Bytes) → AreBytes bs → from_bytes n bs ≡ ok (some id) → from_hex n id ≡ ok id
from_hex-from_bytes n bs id hb h = from_hex-IsId n id (from_bytes-IsId n bs id hb h)
