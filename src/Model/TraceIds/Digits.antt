-- ===== src/Model/TraceIds/Digits.antt =====
-- Hexadecimal digits and the form of an id.
use log_scope.Prelude.{
  ℕ, suc, ◌+◌, ◌*◌, ◌≤◌, ◌≡◌, refl, ap, ◌⊎◌, inl, inr, true, false, Bool-cases, [], ◌∷◌, all, map,
  All, length, ◌==◌, ==_iff, arith,
}
use log_scope.Bytes.{Bytes}
use log_scope.QueryLang.Resolve.Literals.{to_ascii_lowercase}
use log_scope.Model.TraceIds.{is_ascii_hexdigit, is_zero_digit}

-- A lower-case hexadecimal digit.
abbrev pub IsLowerHex : ℕ → Type 0
IsLowerHex c = ((b'0' ≤ c) × (c ≤ b'9')) ⊎ ((b'a' ≤ c) × (c ≤ b'f'))

abbrev pub AllZero : Bytes → Type 0
AllZero s = All (λ c. c ≡ b'0') s

-- A hexadecimal digit.
abbrev pub IsHex : ℕ → Type 0
IsHex c = IsLowerHex c ⊎ ((b'A' ≤ c) × (c ≤ b'F'))

-- A digit of either case and its lower case.
abbrev pub Lowers : ℕ → ℕ → Type 0
Lowers c d = (IsLowerHex c × (d ≡ c)) ⊎ ((b'A' ≤ c) × (c ≤ b'F') × (d ≡ c + 32))

-- A text and the same digits in lower case.
pub data Spells : Bytes → Bytes → Type 0 where
  at_end : Spells [] []
  digit : {c d : ℕ} {cs ds : Bytes} → Lowers c d → Spells cs ds → Spells (c ∷ cs) (d ∷ ds)

-- The form of an id of `n` bytes.
pub record IsId (n : ℕ) (s : Bytes) : Type 0 where
  pub sized : length s ≡ 2 * n
  pub digits : All IsLowerHex s
  pub not_zero : ¬ AllZero s

pub lower_digit : (c : ℕ) → is_ascii_hexdigit c ≡ true → IsLowerHex (to_ascii_lowercase c)
unfolding is_ascii_hexdigit to_ascii_lowercase
lower_digit c h = ground arith

pub lower-Lowers : (c : ℕ) → IsHex c → Lowers c (to_ascii_lowercase c)
unfolding to_ascii_lowercase
lower-Lowers c h = ground arith

pub hexdigit-IsHex : (c : ℕ) → is_ascii_hexdigit c ≡ true → IsHex c
unfolding is_ascii_hexdigit
hexdigit-IsHex c h = ground arith

pub IsHex-hexdigit : (c : ℕ) → IsHex c → is_ascii_hexdigit c ≡ true
unfolding is_ascii_hexdigit
IsHex-hexdigit c h = ground arith

pub lower_fixed : (c : ℕ) → IsLowerHex c → to_ascii_lowercase c ≡ c
unfolding to_ascii_lowercase
lower_fixed c h = ground arith

pub lower_hexdigit : (c : ℕ) → IsLowerHex c → is_ascii_hexdigit c ≡ true
unfolding is_ascii_hexdigit
lower_hexdigit c h = ground arith

pub all-All :
    (s : Bytes) → all is_ascii_hexdigit s ≡ true → All IsLowerHex (map to_ascii_lowercase s)
all-All [] h = tt
all-All (c ∷ cs) h = elim (Bool-cases (is_ascii_hexdigit c)) [
  | inl e ↦ (lower_digit c e, all-All cs (rw e at h))
  | inr e ↦ absurd (cc (rw e at h))
]

pub length-lower : (s : Bytes) → length (map to_ascii_lowercase s) ≡ length s
length-lower [] = refl
length-lower (c ∷ cs) = ap suc (length-lower cs)

pub lower_all_fixed : (s : Bytes) → All IsLowerHex s → map to_ascii_lowercase s ≡ s
lower_all_fixed [] h = refl
lower_all_fixed (c ∷ cs) (h, hs) = rw (lower_fixed c h, lower_all_fixed cs hs) refl

pub all_hexdigits : (s : Bytes) → All IsLowerHex s → all is_ascii_hexdigit s ≡ true
all_hexdigits [] h = refl
all_hexdigits (c ∷ cs) (h, hs) = rw (lower_hexdigit c h, all_hexdigits cs hs) refl

pub all-AllZero : (s : Bytes) → all is_zero_digit s ≡ true → AllZero s
all-AllZero [] h = tt
all-AllZero (c ∷ cs) h = elim (Bool-cases (c == b'0')) [
  | inl e ↦ ((==_iff c b'0').0 e, all-AllZero cs (rw e at h))
  | inr e ↦ absurd (cc (rw e at h))
]

pub AllZero-all : (s : Bytes) → AllZero s → all is_zero_digit s ≡ true
AllZero-all [] h = refl
AllZero-all (c ∷ cs) (h, hs) = rw ((==_iff c b'0').1 h, AllZero-all cs hs) refl

-- Only a zero is a zero in lower case.
pub lower-AllZero : (s : Bytes) → AllZero (map to_ascii_lowercase s) → AllZero s
unfolding to_ascii_lowercase
lower-AllZero [] h = tt
lower-AllZero (c ∷ cs) (h, hs) = (ground arith, lower-AllZero cs hs)

pub lower-Spells : (s : Bytes) → All IsHex s → Spells s (map to_ascii_lowercase s)
lower-Spells [] h = at_end
lower-Spells (c ∷ cs) (h, hs) = digit (lower-Lowers c h) (lower-Spells cs hs)

pub all-IsHex : (s : Bytes) → all is_ascii_hexdigit s ≡ true → All IsHex s
all-IsHex [] h = tt
all-IsHex (c ∷ cs) h = elim (Bool-cases (is_ascii_hexdigit c)) [
  | inl e ↦ (hexdigit-IsHex c e, all-IsHex cs (rw e at h))
  | inr e ↦ absurd (cc (rw e at h))
]

pub IsHex-all : (s : Bytes) → All IsHex s → all is_ascii_hexdigit s ≡ true
IsHex-all [] h = refl
IsHex-all (c ∷ cs) (h, hs) = rw (IsHex-hexdigit c h, IsHex-all cs hs) refl

pub not-AllZero : (s : Bytes) → ¬ AllZero s → all is_zero_digit s ≡ false
not-AllZero s h = elim (Bool-cases (all is_zero_digit s)) [
  | inl e ↦ absurd (h (all-AllZero s e))
  | inr e ↦ e
]
