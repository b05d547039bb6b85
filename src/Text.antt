-- ===== src/Text.antt =====
-- Text as the code points of its characters, with what Rust's `char` and `str` say of them.
use log_scope.Prelude.{
  ℕ, ◌+◌, ◌≤◌, ◌<◌, ◌%◌, ◌^◌, ◌≡◌, refl, String, Bool, true, false, ◌&&◌, ◌||◌, List, [], ◌∷◌, ◌++◌,
  arith, ltb, leb, ◌==◌, if◌then◌else◌,
}
use Prim.Native.Char.{code}

abbrev pub Text : Type 0
Text = List ℕ

-- A literal as its code points.
abbrev pub codes : String → Text
codes String.[] = []
codes (String.◌∷◌ c s) = code c ∷ codes s

-- `n as u32`, and what a `u32` counter holds after it wraps.
abbrev pub u32 : ℕ → ℕ
u32 n = n % 2 ^ 32

-- `char::is_whitespace`: the Unicode property White_Space.
unfoldable pub is_whitespace : ℕ → Bool
is_whitespace c =
    (leb 0x09 c && leb c 0x0d)
    || c == 0x20
    || c == 0x85
    || c == 0xa0
    || c == 0x1680
    || (leb 0x2000 c && leb c 0x200a)
    || c == 0x2028
    || c == 0x2029
    || c == 0x202f
    || c == 0x205f
    || c == 0x3000

-- `char::is_ascii_alphabetic`
unfoldable pub is_ascii_alphabetic : ℕ → Bool
is_ascii_alphabetic c = (leb b'a' c && leb c b'z') || (leb b'A' c && leb c b'Z')

-- `char::len_utf8`
unfoldable pub len_utf8 : ℕ → ℕ
len_utf8 c = if ltb c 0x80 then 1 else if ltb c 0x800 then 2 else if ltb c 0x10000 then 3 else 4

-- `char::len_utf16`
unfoldable pub len_utf16 : ℕ → ℕ
len_utf16 c = if ltb c 0x10000 then 1 else 2

-- `str::len`
unfoldable pub utf8_len : Text → ℕ
utf8_len [] = 0
utf8_len (c ∷ cs) = len_utf8 c + utf8_len cs

-- `str::encode_utf16().count()`
unfoldable pub utf16_len : Text → ℕ
utf16_len [] = 0
utf16_len (c ∷ cs) = len_utf16 c + utf16_len cs

-- `==` on `str`
unfoldable pub text_eq : Text → Text → Bool
text_eq [] [] = true
text_eq (a ∷ as') (b ∷ bs) = a == b && text_eq as' bs
text_eq _ _ = false

pub text_eq_refl : (t : Text) → text_eq t t ≡ true
unfolding text_eq
text_eq_refl [] = refl
text_eq_refl (c ∷ cs) = ground (arith, text_eq_refl cs)

pub text_eq→eq : (s t : Text) → text_eq s t ≡ true → s ≡ t
unfolding text_eq
text_eq→eq [] [] h = refl
text_eq→eq (a ∷ s) (b ∷ t) h = ground (arith, text_eq→eq s t)
text_eq→eq _ _ h = ground arith

pub len_utf8_pos : (c : ℕ) → 0 < len_utf8 c
unfolding len_utf8
len_utf8_pos c = ground arith

pub len_utf16_pos : (c : ℕ) → 0 < len_utf16 c
unfolding len_utf16
len_utf16_pos c = ground arith

pub len_utf16-le-len_utf8 : (c : ℕ) → len_utf16 c ≤ len_utf8 c
unfolding len_utf16 len_utf8
len_utf16-le-len_utf8 c = ground arith

pub utf16_len-le-utf8_len : (t : Text) → utf16_len t ≤ utf8_len t
unfolding utf16_len utf8_len
utf16_len-le-utf8_len [] = omega arith
utf16_len-le-utf8_len (c ∷ cs) = omega (arith, len_utf16-le-len_utf8 c, utf16_len-le-utf8_len cs)

pub utf8_len-append : (s t : Text) → utf8_len (s ++ t) ≡ utf8_len s + utf8_len t
unfolding utf8_len
utf8_len-append [] t = omega arith
utf8_len-append (c ∷ cs) t = omega (arith, utf8_len-append cs t)
