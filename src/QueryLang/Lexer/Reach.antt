-- ===== src/QueryLang/Lexer/Reach.antt =====
-- What the loops inside one token leave is reached from where they begin by `bump`s.
use log_scope.Prelude.{
  ℕ, ◌+◌, ◌≤◌, ◌<◌, ◌^◌, ◌≡◌, Bool, true, false, ◌&&◌, List, [], ◌∷◌, inl, inr, arith, ◌==◌,
  Bool-cases, length,
}
use log_scope.Text.{Text, is_ascii_alphabetic, utf8_len, utf16_len, len_utf8_pos, len_utf16_pos}
use log_scope.QueryLang.Diag.{Diagnostic}
use log_scope.QueryLang.Lexer.Scan.{
  Pos, bump, is_word_char, scan_quoted, scan_regex, scan_flags, scan_word,
}

-- The cursor (`cs'`, `p'`) is reached from the cursor of the indices.
pub data Reach (cs' : Text) (p' : Pos) : Text → Pos → Type 0 where
  here : Reach cs' p' cs' p'
  next : {c : ℕ} {cs : Text} {p : Pos} → Reach cs' p' cs (bump c p) → Reach cs' p' (c ∷ cs) p

pub scan_quoted-Reach :
    (start : Pos) (cs : Text) (p : Pos) (out : Text) (ds : List Diagnostic)
    → Reach (scan_quoted start cs p out ds).chars (scan_quoted start cs p out ds).pos cs p
unfolding scan_quoted
scan_quoted-Reach start [] p out ds = here
scan_quoted-Reach start (c ∷ []) p out ds = next here
scan_quoted-Reach start (c ∷ d ∷ cs) p out ds = elim (Bool-cases (c == b'"')) [
  | inl h ↦ rw h (next here)
  | inr h ↦ elim (Bool-cases (c == b'\\')) [
    | inl k ↦ rw (h, k) (next (next (scan_quoted-Reach start cs _ _ _)))
    | inr k ↦ rw (h, k) (next (scan_quoted-Reach start (d ∷ cs) _ _ _))
  ]
]

pub scan_regex-Reach :
    (cs : Text) (p : Pos) (out : Text)
    → Reach (scan_regex cs p out).chars (scan_regex cs p out).pos cs p
unfolding scan_regex
scan_regex-Reach [] p out = here
scan_regex-Reach (c ∷ []) p out = next here
scan_regex-Reach (c ∷ d ∷ cs) p out = elim (Bool-cases (c == b'/')) [
  | inl h ↦ rw h (next here)
  | inr h ↦ elim (Bool-cases (c == b'\\' && d == b'/')) [
    | inl k ↦ rw (h, k) (next (next (scan_regex-Reach cs _ _)))
    | inr k ↦ rw (h, k) (next (scan_regex-Reach (d ∷ cs) _ _))
  ]
]

pub scan_flags-Reach :
    (start : Pos) (cs : Text) (p : Pos) (ci : Bool) (ds : List Diagnostic)
    → Reach (scan_flags start cs p ci ds).chars (scan_flags start cs p ci ds).pos cs p
unfolding scan_flags
scan_flags-Reach start [] p ci ds = here
scan_flags-Reach start (c ∷ cs) p ci ds = elim (Bool-cases (is_ascii_alphabetic c)) [
  | inl h ↦ rw h (next (scan_flags-Reach start cs _ _ _))
  | inr h ↦ rw h here
]

pub scan_word-Reach :
    (start : Pos) (cs : Text) (p : Pos) (out : Text) (wild esc : Bool) (ds : List Diagnostic)
    → Reach
        (scan_word start cs p out wild esc ds).chars
        (scan_word start cs p out wild esc ds).pos
        cs
        p
unfolding scan_word
scan_word-Reach start [] p out wild esc ds = here
scan_word-Reach start (c ∷ []) p out wild esc ds = elim (Bool-cases (is_word_char c)) [
  | inl h ↦ elim (Bool-cases (c == b'\\')) [
    | inl k ↦ rw (h, k) (next here)
    | inr k ↦ rw (h, k) (next here)
  ]
  | inr h ↦ rw h here
]
scan_word-Reach start (c ∷ d ∷ cs) p out wild esc ds = elim (Bool-cases (is_word_char c)) [
  | inl h ↦ elim (Bool-cases (c == b'\\')) [
    | inl k ↦ rw (h, k) (next (next (scan_word-Reach start cs _ _ _ _ _)))
    | inr k ↦ rw (h, k) (next (scan_word-Reach start (d ∷ cs) _ _ _ _ _))
  ]
  | inr h ↦ rw h here
]

-- A word takes at least its first character, if that is a word character.
pub scan_word-Reach_first :
    (start : Pos) (c : ℕ) (cs : Text) (p : Pos)
    → is_word_char c ≡ true
    → Reach
        (scan_word start (c ∷ cs) p [] false false []).chars
        (scan_word start (c ∷ cs) p [] false false []).pos
        cs
        (bump c p)
unfolding scan_word
scan_word-Reach_first start c [] p h = elim (Bool-cases (c == b'\\')) [
  | inl k ↦ rw (h, k) here
  | inr k ↦ rw (h, k) here
]
scan_word-Reach_first start c (d ∷ cs) p h = elim (Bool-cases (c == b'\\')) [
  | inl k ↦ rw (h, k) (next (scan_word-Reach start cs _ _ _ _ _))
  | inr k ↦ rw (h, k) (scan_word-Reach start (d ∷ cs) _ _ _ _ _)
]

pub Reach-trans :
    {cs₂ cs₁ : Text} {p₂ p₁ : Pos} {cs : Text} {p : Pos}
    → Reach cs₂ p₂ cs₁ p₁
    → Reach cs₁ p₁ cs p
    → Reach cs₂ p₂ cs p
Reach-trans r here = r
Reach-trans r (next q) = next (Reach-trans r q)

pub length-Reach :
    {cs' : Text} {p' : Pos} {cs : Text} {p : Pos} → Reach cs' p' cs p → length cs' ≤ length cs
length-Reach here = omega arith
length-Reach (next r) = omega (arith, length-Reach r)

-- The counters agree with the characters that are left, of a text of `n8` bytes and `n16` units.
pub record At (n8 n16 : ℕ) (cs : Text) (p : Pos) : Type 0 where
  pub bytes : p.byte + utf8_len cs ≡ n8
  pub units : p.utf16 + utf16_len cs ≡ n16

module _ (n8 n16 : ℕ) (small : n8 < 2 ^ 32) (small16 : n16 < 2 ^ 32) where
  pub At-bump : (c : ℕ) (cs : Text) (p : Pos) → At n8 n16 (c ∷ cs) p → At n8 n16 cs (bump c p)
  unfolding bump utf8_len utf16_len
  At-bump c cs p h = omega arith

  pub bump-lt :
      (c : ℕ) (cs : Text) (p : Pos)
      → At n8 n16 (c ∷ cs) p
      → (p.byte < (bump c p).byte) × (p.utf16 < (bump c p).utf16)
  unfolding bump utf8_len utf16_len
  bump-lt c cs p h = omega (arith, len_utf8_pos c, len_utf16_pos c)

  pub At-Reach :
      {cs' : Text} {p' : Pos} (cs : Text) (p : Pos)
      → Reach cs' p' cs p
      → At n8 n16 cs p
      → At n8 n16 cs' p' × (p.byte ≤ p'.byte) × (p.utf16 ≤ p'.utf16)
  At-Reach cs p here h = (h, omega arith, omega arith)
  At-Reach (c ∷ cs) p (next r) h =
      let (a, b, u) = At-Reach cs (bump c p) r (At-bump c cs p h) in
      (a, omega (arith, bump-lt c cs p h), omega (arith, bump-lt c cs p h))
