-- ===== src/QueryLang/Format/RoundTrip.antt =====
-- What `format_value` and `format_predicate` write is lexed and parsed back to the value and the
-- predicate that they were given.
use log_scope.Prelude.{
  ℕ, zero, suc, ◌≤◌, ◌≡◌, ◌∙◌, refl, ap, Bool, true, false, [], ◌∷◌, ◌++◌, inl, inr, if◌then◌else◌,
  Bool-cases, all, append-nil, arith, length, le→not-ltb, subst,
}
use log_scope.Text.{Text, is_whitespace, text_eq, utf8_len}
use log_scope.QueryLang.Diag.{Span, LangLimits}
use log_scope.QueryLang.Token.{TokenKind, Token, word, quoted, colon}
use log_scope.QueryLang.Lexer.Scan.{Pos, is_word_char, span_from}
use log_scope.QueryLang.Lexer.Reach.{length-Reach}
use log_scope.QueryLang.Lexer.Steps.{lex_step-Stepped}
use log_scope.QueryLang.Lexer.Spans.{lex_loop-nil, lex_loop-cons}
use log_scope.QueryLang.Lexer.Branches.{LexState, push_token, lex_single, lex_word}
use log_scope.QueryLang.Lexer.{lex_step, lex_loop, lex_start, lex_finish, lex}
use log_scope.QueryLang.Format.Scanning.{
  bumps, bare_safe-all, lex_word-bare, lex_step-bare, lex_quoted-quote_body, lex_step-quote,
  lex_step-colon,
}
use log_scope.QueryLang.Format.{is_bare_char, bare_safe, quote_body, format_value, format_predicate}

-- The token that stands for a formatted value.
abbrev pub value_kind : Text → TokenKind
value_kind v = if bare_safe v then word v false else quoted v

abbrev pub token_of : TokenKind → Span → Token
token_of k s = record { kind = k; span = s }

module _ (limits : LangLimits) where
  -- The loop goes from `s` to `t`, where no character is left, with any fuel that is enough.
  record Runs (s t : LexState) : Type 0 where
    run : (fuel : ℕ) → length s.chars ≤ fuel → lex_loop limits fuel s ≡ t

  Runs-end : (s : LexState) → s.chars ≡ [] → Runs s s
  Runs-end s e = record { run = λ fuel _. lex_loop-nil limits fuel s e }

  Runs-step :
      (s s' t : LexState) (c : ℕ) (cs : Text)
      → s.chars ≡ c ∷ cs
      → lex_step limits s c cs ≡ s'
      → Runs s' t
      → Runs s t
  Runs-step s s' t c cs e f r = record { run = go }
    where
      go : (fuel : ℕ) → length s.chars ≤ fuel → lex_loop limits fuel s ≡ t
      go zero h = absurd (omega (arith, ap length e))
      go (suc fuel) h =
          lex_loop-cons limits fuel s c cs e
          ∙ rw f (
              r.run fuel (
                omega (
                  arith,
                  ap length e,
                  length-Reach (lex_step-Stepped limits s c cs).reach,
                  ap (λ (u : LexState). length u.chars) f,
                )))

  -- From `s` the rest of the input is one token of kind `k`.
  record OneToken (s : LexState) (k : TokenKind) : Type 0 where
    last_state : LexState
    runs : Runs s last_state
    span : Span
    tokens : last_state.tokens ≡ s.tokens ++ record { kind = k; span = span } ∷ []
    diags : last_state.diags ≡ s.diags

  OneToken-push :
      (s s' : LexState) (c : ℕ) (cs : Text) (k : TokenKind) (p q : Pos)
      → s.chars ≡ c ∷ cs
      → s'.tokens ≡ s.tokens
      → s'.diags ≡ s.diags
      → lex_step limits s c cs ≡ push_token s' p k [] [] q
      → OneToken s k
  OneToken-push s s' c cs k p q e same_tokens same_diags step = record {
    last_state = push_token s' p k [] [] q;
    runs = Runs-step s _ _ c cs e step (Runs-end _ (unfold push_token in refl));
    span = span_from p q;
    tokens = unfold push_token in rw same_tokens;
    diags = unfold push_token in append-nil s'.diags ∙ same_diags;
  }

  all_head : (p : ℕ → Bool) (c : ℕ) (w : Text) → all p (c ∷ w) ≡ true → p c ≡ true
  all_head p c w h = ground arith

  OneToken-bare :
      (s : LexState) (v : Text) → s.chars ≡ v → bare_safe v ≡ true → OneToken s (word v false)
  OneToken-bare s [] e h = unfold bare_safe text_eq in cc
  OneToken-bare s (c ∷ w) e h =
      OneToken-push s (record s { regex_position = false }) c w (word (c ∷ w) false) s.pos _ e refl
        refl
        (lex_step-bare limits s c w (all_head is_bare_char c w (bare_safe-all (c ∷ w) h))
          ∙ subst
              (λ r.
                lex_word (record s { regex_position = false }) c r
                ≡ push_token (record s { regex_position = false }) s.pos (word (c ∷ w) false) [] []
                    (bumps (c ∷ w) s.pos))
              (append-nil w) (lex_word-bare (record s { regex_position = false }) c w [] h tt))

  OneToken-quoted :
      (s : LexState) (v : Text)
      → s.chars ≡ b'"' ∷ (quote_body v ++ b'"' ∷ [])
      → OneToken s (quoted v)
  OneToken-quoted s v e =
      OneToken-push s (record s { regex_position = false }) b'"' (quote_body v ++ b'"' ∷ [])
        (quoted v) s.pos _ e refl refl
        (lex_step-quote limits s (quote_body v ++ b'"' ∷ [])
          ∙ lex_quoted-quote_body (record s { regex_position = false }) v)

  OneToken-value : (s : LexState) (v : Text) → s.chars ≡ format_value v → OneToken s (value_kind v)
  OneToken-value s v e = elim (Bool-cases (bare_safe v)) [
    | inl safe ↦ rw safe (OneToken-bare s v (e ∙ (unfold format_value in rw safe)) safe)
    | inr unsafe ↦ rw unsafe (OneToken-quoted s v (e ∙ (unfold format_value in rw unsafe)))
  ]

  -- The state behind the field, and the one behind the colon.
  abbrev after_field : Text → Text → LexState
  after_field f rest =
      push_token (lex_start (f ++ rest)) (lex_start f).pos (word f false) [] rest
        (bumps f (lex_start f).pos)

  abbrev after_colon : Text → Text → LexState
  after_colon f rest =
      lex_single (record (after_field f (b':' ∷ rest)) { regex_position = false }) b':' rest colon
        true

  field_step :
      (c : ℕ) (w rest : Text)
      → bare_safe (c ∷ w) ≡ true
      → lex_step limits (lex_start ((c ∷ w) ++ b':' ∷ rest)) c (w ++ b':' ∷ rest)
        ≡ after_field (c ∷ w) (b':' ∷ rest)
  unfolding is_word_char is_whitespace
  field_step c w rest h =
      lex_step-bare limits (lex_start ((c ∷ w) ++ b':' ∷ rest)) c (w ++ b':' ∷ rest)
        (all_head is_bare_char c w (bare_safe-all (c ∷ w) h))
      ∙ lex_word-bare (lex_start ((c ∷ w) ++ b':' ∷ rest)) c w (b':' ∷ rest) h refl

  Runs-predicate :
      (f rest : Text) (t : LexState)
      → bare_safe f ≡ true
      → Runs (after_colon f rest) t
      → Runs (lex_start (f ++ b':' ∷ rest)) t
  Runs-predicate [] rest t h r = unfold bare_safe text_eq in cc
  Runs-predicate (c ∷ w) rest t h r =
      Runs-step _ _ t c (w ++ b':' ∷ rest) refl (field_step c w rest h) (
        Runs-step _ _ t b':' rest (unfold push_token in refl)
          (lex_step-colon limits (after_field (c ∷ w) (b':' ∷ rest)) rest) r)

  lex-Runs :
      (text : Text) (t : LexState)
      → utf8_len text ≤ limits.max_text_bytes
      → length t.tokens ≤ limits.max_tokens
      → Runs (lex_start text) t
      → lex text limits ≡ (t.tokens, t.diags)
  unfolding lex lex_finish
  lex-Runs text t short few r = rw (le→not-ltb limits.max_text_bytes (utf8_len text) short) (
      rw (r.run (length text) (omega arith))
        (rw (le→not-ltb limits.max_tokens (length t.tokens) few)))

  lex-OneToken :
      (text : Text) (s : LexState) (k : TokenKind) (one : OneToken s k)
      → utf8_len text ≤ limits.max_text_bytes
      → length (s.tokens ++ token_of k one.span ∷ []) ≤ limits.max_tokens
      → (Runs s one.last_state → Runs (lex_start text) one.last_state)
      → lex text limits ≡ (s.tokens ++ token_of k one.span ∷ [], s.diags)
  lex-OneToken text s k one short few r =
      lex-Runs text one.last_state short (rw one.tokens few) (r one.runs)
      ∙ rw (one.tokens, one.diags)

-- A formatted value is lexed to one token, which holds the value, and nothing is reported. The
-- limits allow its bytes and one token.
pub lex-format_value :
    (v : Text) (limits : LangLimits)
    → utf8_len (format_value v) ≤ limits.max_text_bytes
    → 1 ≤ limits.max_tokens
    → (s : Span) × (lex (format_value v) limits ≡ (token_of (value_kind v) s ∷ [], []))
lex-format_value v limits short few =
    let one = OneToken-value limits (lex_start (format_value v)) v refl in
    (one.span, lex-OneToken limits (format_value v) _ _ one short (omega arith) (λ r. r))

-- A formatted predicate over a bare field is lexed to the field, a colon and the value, whatever
-- the value holds.
pub lex-format_predicate :
    (f v : Text) (limits : LangLimits)
    → bare_safe f ≡ true
    → utf8_len (format_predicate f v) ≤ limits.max_text_bytes
    → 3 ≤ limits.max_tokens
    → (a b c : Span) × (lex (format_predicate f v) limits
        ≡ (token_of (word f false) a ∷ token_of colon b ∷ token_of (value_kind v) c ∷ [], []))
unfolding format_predicate lex_single push_token
lex-format_predicate f v limits h short few =
    let one = OneToken-value limits (after_colon limits f (format_value v)) v refl in
    (
      _,
      _,
      one.span,
      lex-OneToken limits (f ++ b':' ∷ format_value v) _ _ one short (omega arith)
          (Runs-predicate limits f (format_value v) one.last_state h),
    )
