-- ===== src/QueryLang/Lexer/Steps.antt =====
-- One round of the lexer's loop: it consumes its first character, and what it adds to the tokens.
use log_scope.Prelude.{
  ℕ, ◌≡◌, ◌≢◌, refl, Bool, true, false, [], ◌∷◌, ◌++◌, ◌⊎◌, inl, inr, arith, ◌==◌, if◌then◌else◌,
  Bool-cases,
}
use log_scope.Text.{Text, is_whitespace}
use log_scope.QueryLang.Diag.{LangLimits}
use log_scope.QueryLang.Token.{TokenKind, Token, ne}
use log_scope.QueryLang.Lexer.Scan.{Pos, bump, span_from, is_word_char, Pattern, scan_regex}
use log_scope.QueryLang.Lexer.Reach.{
  Reach, here, next, scan_quoted-Reach, scan_regex-Reach, scan_flags-Reach, scan_word-Reach_first,
  Reach-trans,
}
use log_scope.QueryLang.Lexer.Branches.{
  LexState, regex_flags, lex_single, lex_angle, lex_bang, lex_quoted, lex_regex, lex_word,
}
use log_scope.QueryLang.Lexer.{lex_token, lex_step}

abbrev pub spanned : TokenKind → Pos → Pos → Token
spanned k p q = record { kind = k; span = span_from p q }

pub record Stepped (s : LexState) (c : ℕ) (cs : Text) (s' : LexState) : Type 0 where
  pub reach : Reach s'.chars s'.pos cs (bump c s.pos)
  pub tokens :
      (s'.tokens ≡ s.tokens)
      ⊎ ((k : TokenKind) × (s'.tokens ≡ s.tokens ++ spanned k s.pos s'.pos ∷ []))

lex_single-Stepped :
    (s : LexState) (c : ℕ) (cs : Text) (k : TokenKind) (b : Bool)
    → Stepped s c cs (lex_single s c cs k b)
unfolding lex_single
lex_single-Stepped s c cs k b = record { reach = here; tokens = inr (k, refl) }

lex_angle-Stepped :
    (s : LexState) (c : ℕ) (cs : Text) (k l : TokenKind) → Stepped s c cs (lex_angle s c cs k l)
unfolding lex_angle
lex_angle-Stepped s c [] k l = record { reach = here; tokens = inr (k, refl) }
lex_angle-Stepped s c (d ∷ cs) k l = elim (Bool-cases (d == b'=')) [
  | inl h ↦ rw h (record { reach = next here; tokens = inr (l, refl) })
  | inr h ↦ rw h (record { reach = here; tokens = inr (k, refl) })
]

lex_bang-Stepped : (s : LexState) (c : ℕ) (cs : Text) → Stepped s c cs (lex_bang s c cs)
unfolding lex_bang
lex_bang-Stepped s c [] = record { reach = here; tokens = inl refl }
lex_bang-Stepped s c (d ∷ cs) = elim (Bool-cases (d == b'=')) [
  | inl h ↦ rw h (record { reach = next here; tokens = inr (ne, refl) })
  | inr h ↦ rw h (record { reach = here; tokens = inl refl })
]

lex_quoted-Stepped : (s : LexState) (c : ℕ) (cs : Text) → Stepped s c cs (lex_quoted s c cs)
unfolding lex_quoted
lex_quoted-Stepped s c cs = record {
  reach = scan_quoted-Reach s.pos cs _ _ _;
  tokens = inr (_, refl);
}

lex_word-Stepped :
    (s : LexState) (c : ℕ) (cs : Text) → is_word_char c ≡ true → Stepped s c cs (lex_word s c cs)
unfolding lex_word
lex_word-Stepped s c cs h = record {
  reach = scan_word-Reach_first s.pos c cs s.pos h;
  tokens = inr (_, refl);
}

regex_flags-Reach :
    (start : Pos) (r : Pattern)
    → Reach (regex_flags start r).chars (regex_flags start r).pos r.chars r.pos
unfolding regex_flags
regex_flags-Reach start r = elim (Bool-cases r.terminated) [
  | inl h ↦ rw h (scan_flags-Reach start r.chars r.pos _ _)
  | inr h ↦ rw h here
]

lex_regex-Stepped :
    (limits : LangLimits) (s : LexState) (c : ℕ) (cs : Text)
    → Stepped s c cs (lex_regex limits s c cs)
unfolding lex_regex
lex_regex-Stepped limits s c cs = record {
  reach =
      Reach-trans (regex_flags-Reach s.pos (scan_regex cs (bump c s.pos) []))
        (scan_regex-Reach cs (bump c s.pos) []);
  tokens = inr (_, refl);
}

-- What the outer match leaves to the last branch begins a word.
is_word_char_rest :
    (c : ℕ)
    → is_whitespace c ≡ false
    → c ≢ b'('
    → c ≢ b')'
    → c ≢ b':'
    → c ≢ b'='
    → c ≢ b'!'
    → c ≢ b'>'
    → c ≢ b'<'
    → c ≢ b'"'
    → is_word_char c ≡ true
unfolding is_word_char
is_word_char_rest c w h1 h2 h3 h4 h5 h6 h7 h8 = rw w (ground arith)

Stepped-if :
    {s : LexState} {c : ℕ} {cs : Text} (b : Bool) {x y : LexState}
    → (b ≡ true → Stepped s c cs x)
    → (b ≡ false → Stepped s c cs y)
    → Stepped s c cs (if b then x else y)
Stepped-if true hx hy = hx refl
Stepped-if false hx hy = hy refl

ne_of_test : (c k : ℕ) → (c == k) ≡ false → c ≢ k
ne_of_test c k h = ground arith

pub lex_token-Stepped :
    (limits : LangLimits) (prev : Bool) (s : LexState) (c : ℕ) (cs : Text)
    → is_whitespace c ≡ false
    → Stepped s c cs (lex_token limits prev s c cs)
unfolding lex_token
lex_token-Stepped limits prev s c cs w =
    Stepped-if _ (λ _. lex_single-Stepped s c cs _ _)
      λ h1.
        Stepped-if _ (λ _. lex_single-Stepped s c cs _ _)
          λ h2.
            Stepped-if _ (λ _. lex_single-Stepped s c cs _ _)
              λ h3.
                Stepped-if _ (λ _. lex_single-Stepped s c cs _ _)
                  λ h4.
                    Stepped-if _ (λ _. lex_bang-Stepped s c cs)
                      λ h5.
                        Stepped-if _ (λ _. lex_angle-Stepped s c cs _ _)
                          λ h6.
                            Stepped-if _ (λ _. lex_angle-Stepped s c cs _ _)
                              λ h7.
                                Stepped-if _ (λ _. lex_quoted-Stepped s c cs)
                                  λ h8.
                                    Stepped-if _ (λ _. lex_regex-Stepped limits s c cs)
                                      λ _. lex_word-Stepped s c cs (
                                        is_word_char_rest c w (ne_of_test c _ h1)
                                          (ne_of_test c _ h2) (ne_of_test c _ h3)
                                          (ne_of_test c _ h4) (ne_of_test c _ h5)
                                          (ne_of_test c _ h6) (ne_of_test c _ h7)
                                          (ne_of_test c _ h8))

-- Whatever the character, a round steps over it and adds at most one token, which spans what the
-- round consumed.
pub lex_step-Stepped :
    (limits : LangLimits) (s : LexState) (c : ℕ) (cs : Text)
    → Stepped s c cs (lex_step limits s c cs)
unfolding lex_step
lex_step-Stepped limits s c cs =
    Stepped-if (is_whitespace c) (λ _. record { reach = here; tokens = inl refl })
      λ w.
        let r =
          lex_token-Stepped limits s.regex_position (record s { regex_position = false }) c cs w in
        record { reach = r.reach; tokens = r.tokens }
