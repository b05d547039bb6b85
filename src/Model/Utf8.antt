-- ===== src/Model/Utf8.antt =====
-- A text can be read back from its UTF-8 bytes.
use log_scope.Prelude.{
  ℕ, zero, suc, ◌+◌, ◌-◌, ◌*◌, ◌/◌, ◌≤◌, ◌<◌, ◌≡◌, refl, ap, inl, inr, Bool-cases, [], ◌∷◌, ◌++◌,
  length, length-append, All, ltb, ltb→lt, lt→ltb, not-ltb→le, le→not-ltb, if◌then◌else◌, arith,
  ◌∙◌, subst,
}
use log_scope.Text.{Text}
use log_scope.Bytes.{Bytes, drop}
use log_scope.Model.Digest.{utf8_char, utf8}

-- Every `char` is a Unicode scalar value.
abbrev pub AreChars : Text → Type 0
AreChars s = All (λ c. c < 0x110000) s

-- What a byte behind the first one holds.
abbrev tail_bits : Bytes → ℕ
tail_bits [] = 0
tail_bits (b ∷ bs) = b - 0x80

abbrev char_from : ℕ → Bytes → ℕ × Bytes
char_from b bs =
    if ltb b 0x80
    then (b, bs)
    else if ltb b 0xe0
    then ((b - 0xc0) * 0x40 + tail_bits bs, drop 1 bs)
    else if ltb b 0xf0
    then ((b - 0xe0) * 0x1000 + tail_bits bs * 0x40 + tail_bits (drop 1 bs), drop 2 bs)
    else (
      (b - 0xf0) * 0x40000
          + tail_bits bs * 0x1000
          + tail_bits (drop 1 bs) * 0x40
          + tail_bits (drop 2 bs),
      drop 3 bs,
    )

abbrev first_char : Bytes → ℕ × Bytes
first_char [] = (0, [])
first_char (b ∷ bs) = char_from b bs

module _ (b : ℕ) (bs : Bytes) where
  char_from_one : b < 0x80 → char_from b bs ≡ (b, bs)
  char_from_one h = rw (lt→ltb b 0x80 h) refl

  char_from_two :
      0x80 ≤ b → b < 0xe0 → char_from b bs ≡ ((b - 0xc0) * 0x40 + tail_bits bs, drop 1 bs)
  char_from_two h k = rw (le→not-ltb b 0x80 h, lt→ltb b 0xe0 k) refl

  char_from_three :
      0xe0 ≤ b
      → b < 0xf0
      → char_from b bs
        ≡ ((b - 0xe0) * 0x1000 + tail_bits bs * 0x40 + tail_bits (drop 1 bs), drop 2 bs)
  char_from_three h k =
      rw (le→not-ltb b 0x80 (omega (arith, h)), le→not-ltb b 0xe0 h, lt→ltb b 0xf0 k) refl

  char_from_four :
      0xf0 ≤ b
      → char_from b bs ≡ (
        (b - 0xf0) * 0x40000
            + tail_bits bs * 0x1000
            + tail_bits (drop 1 bs) * 0x40
            + tail_bits (drop 2 bs),
        drop 3 bs,
      )
  char_from_four h =
      rw
        (
          le→not-ltb b 0x80 (omega (arith, h)),
          le→not-ltb b 0xe0 (omega (arith, h)),
          le→not-ltb b 0xf0 h,
        )
        refl

first_char-utf8_char : (c : ℕ) (rest : Bytes) → first_char (utf8_char c ++ rest) ≡ (c, rest)
unfolding utf8_char
first_char-utf8_char c rest = elim (Bool-cases (ltb c 0x80)) [
  | inl one ↦ rw one (char_from_one c rest (ltb→lt _ _ one))
  | inr no_one ↦ elim (Bool-cases (ltb c 0x800)) [
    | inl two ↦
        let big = not-ltb→le _ _ no_one in
        let small = ltb→lt _ _ two in
        rw (no_one, two)
          (char_from_two (0xc0 + c / 0x40) _ (omega arith) (omega (arith, small))
            ∙ ap (λ (k : ℕ). (k, rest)) (omega arith))
    | inr no_two ↦ elim (Bool-cases (ltb c 0x10000)) [
      | inl three ↦
          let small = ltb→lt _ _ three in
          rw (no_one, no_two, three)
            (char_from_three (0xe0 + c / 0x1000) _ (omega arith) (omega (arith, small))
              ∙ ap (λ (k : ℕ). (k, rest)) (omega arith))
      | inr no_three ↦
          rw (no_one, no_two, no_three)
            (char_from_four (0xf0 + c / 0x40000) _ (omega arith)
              ∙ ap (λ (k : ℕ). (k, rest)) (omega arith))
    ]
  ]
]

-- Reads a text, with one unit of fuel for each byte.
pub text_from : ℕ → Bytes → Text
text_from zero bs = []
text_from (suc f) [] = []
text_from (suc f) (b ∷ bs) = let (c, rest) = char_from b bs in c ∷ text_from f rest

utf8_char_nonempty : (c : ℕ) → (b : ℕ) × (bs : Bytes) × (utf8_char c ≡ b ∷ bs)
unfolding utf8_char
utf8_char_nonempty c = elim (Bool-cases (ltb c 0x80)) [
  | inl e ↦ rw e (_, _, refl)
  | inr e ↦ elim (Bool-cases (ltb c 0x800)) [
    | inl e' ↦ rw (e, e') (_, _, refl)
    | inr e' ↦ elim (Bool-cases (ltb c 0x10000)) [
      | inl e'' ↦ rw (e, e', e'') (_, _, refl)
      | inr e'' ↦ rw (e, e', e'') (_, _, refl)
    ]
  ]
]

text_from-cons :
    (f c : ℕ) (bs rest : Bytes)
    → first_char bs ≡ (c, rest)
    → (b : ℕ) (tl : Bytes) → bs ≡ b ∷ tl
    → text_from (suc f) bs ≡ c ∷ text_from f rest
unfolding text_from
text_from-cons f c [] rest h b tl is = absurd (cc is)
text_from-cons f c (b' ∷ tl') rest h b tl is = ap (λ (r : ℕ × Bytes). r.0 ∷ text_from f r.1) h

-- A text is read back from its bytes.
pub text_from-utf8 : (s : Text) (f : ℕ) → length (utf8 s) ≤ f → text_from f (utf8 s) ≡ s
unfolding utf8 text_from
text_from-utf8 [] zero h = refl
text_from-utf8 [] (suc f) h = refl
text_from-utf8 (c ∷ cs) zero h =
    let (b, bs, e) = utf8_char_nonempty c in
    absurd (omega (arith, subst (λ l. length (l ++ utf8 cs) ≤ 0) e h))
text_from-utf8 (c ∷ cs) (suc f) h =
    let (b, bs, e) = utf8_char_nonempty c in
    let rest : length (utf8 cs) ≤ f =
      omega (arith, subst (λ l. length (l ++ utf8 cs) ≤ suc f) e h, length-append bs (utf8 cs)) in
    text_from-cons f c _ (utf8 cs) (first_char-utf8_char c (utf8 cs)) b (bs ++ utf8 cs)
      (ap (λ l. l ++ utf8 cs) e)
    ∙ ap (◌∷◌ c) (text_from-utf8 cs f rest)
