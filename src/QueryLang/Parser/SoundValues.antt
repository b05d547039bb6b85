-- ===== src/QueryLang/Parser/SoundValues.antt =====
-- The parser of values and value groups keeps within its fuel and follows the grammar.
use log_scope.Prelude.{
  ℕ, ◌+◌, ◌≤◌, ◌<◌, ◌≡◌, ◌≢◌, refl, ap, true, false, List, [], ◌∷◌, length, arith, ltb, not-ltb→le,
}
use log_scope.Text.{Text, codes, text_eq, text_eq→eq, text_eq_refl}
use log_scope.QueryLang.Diag.{Span, Diagnostic, is_error}
use log_scope.QueryLang.Token.{TokenKind, Token, word, quoted, regex, r_paren}
use log_scope.QueryLang.Ast.{RawValue, CmpOp, RawField}
use log_scope.QueryLang.Parser.Results.{ok, ParserState}
use log_scope.QueryLang.Parser.Loops.{is_r_paren}
use log_scope.QueryLang.Parser.Env.{Env, enter, close_paren, close_paren_at}
use log_scope.QueryLang.Parser.Values.{op_is_eq, parse_value_kind, parse_value_at, parse_value}
use log_scope.QueryLang.Parser.Grammar.{
  ValueForm, star_value, word_value_form, quoted_value, regex_value_form,
}
use log_scope.QueryLang.Parser.Meets.{Meets, met, refused, Meets-if, Reads}

pub op_is_eq→eq : (op : CmpOp) → op_is_eq op ≡ true → op ≡ CmpOp.eq
unfolding op_is_eq
op_is_eq→eq CmpOp.eq h = refl
op_is_eq→eq _ h = cc

is_r_paren→eq : (k : TokenKind) → is_r_paren k ≡ true → k ≡ r_paren
unfolding is_r_paren
is_r_paren→eq r_paren h = refl
is_r_paren→eq _ h = cc

pub ne_of_text_eq : (a b : Text) → text_eq a b ≡ false → a ≢ b
ne_of_text_eq a b h e = cc (text_eq_refl a, ap (text_eq a) e)

-- A value of one token.
one_token :
    (op : CmpOp) (t : Token) (ts : List Token) (s : ParserState) (v : RawValue)
    → s.tokens ≡ ts
    → ValueForm op (t ∷ []) v
    → Meets (Reads (ValueForm op) (t ∷ ts) s.depth) (ok (v, s))
one_token op t ts s v e f = met (record { taken = t ∷ []; splits = rw e; form = f; depth = refl })

parse_value_kind-Reads :
    (field : RawField) (op : CmpOp) (t : Token) (k : TokenKind) (s : ParserState)
    → t.kind ≡ k
    → Meets (Reads (ValueForm op) (t ∷ s.tokens) s.depth) (parse_value_kind field op t.span k s)
unfolding parse_value_kind
parse_value_kind-Reads field op t (word x w) s e =
    Meets-if (text_eq x (codes "*"))
      (λ is_star.
        Meets-if (op_is_eq op)
          (λ h. one_token op t s.tokens s _ refl (
            star_value t w (rw (← text_eq→eq x (codes "*") is_star) e) (op_is_eq→eq op h) refl
              refl))
          λ _. refused refl)
      λ no_star.
        Meets-if (text_eq x []) (λ _. refused refl)
          λ no_nil. one_token op t s.tokens s _ refl (
            word_value_form t x w e (ne_of_text_eq x _ no_star) (ne_of_text_eq x _ no_nil) refl
              refl)
parse_value_kind-Reads field op t (quoted x) s e =
    one_token op t s.tokens s _ refl (quoted_value t x e refl refl)
parse_value_kind-Reads field op t (regex x ci) s e =
    Meets-if (op_is_eq op)
      (λ h.
        one_token op t s.tokens s _ refl (regex_value_form t x ci e (op_is_eq→eq op h) refl refl))
      λ _. refused refl
parse_value_kind-Reads field op t _ s e = refused refl

parse_value_at-Reads :
    (env : Env) (field : RawField) (op : CmpOp) (s : ParserState) (ts : List Token)
    → Meets (Reads (ValueForm op) ts s.depth) (parse_value_at env field op s ts)
unfolding parse_value_at
parse_value_at-Reads env field op s [] = refused refl
parse_value_at-Reads env field op s (t ∷ ts) =
    parse_value_kind-Reads field op t t.kind (record s { tokens = ts }) refl

pub parse_value-Reads :
    (env : Env) (field : RawField) (op : CmpOp) (s : ParserState)
    → Meets (Reads (ValueForm op) s.tokens s.depth) (parse_value env field op s)
unfolding parse_value
parse_value-Reads env field op s = parse_value_at-Reads env field op s s.tokens

pub ValueForm-nonempty :
    {op : CmpOp} {ts : List Token} {v : RawValue} → ValueForm op ts v → 0 < length ts
ValueForm-nonempty (star_value t w k o e _) = rw e (omega arith)
ValueForm-nonempty (word_value_form t x w k a b e _) = rw e (omega arith)
ValueForm-nonempty (quoted_value t x k e _) = rw e (omega arith)
ValueForm-nonempty (regex_value_form t x ci k o e _) = rw e (omega arith)

-- `)` is taken, or its absence is reported.
pub record Closed (ts : List Token) (d : ℕ) (r : Span × ParserState) : Type 0 where
  pub token : Token
  pub is_close : token.kind ≡ r_paren
  pub splits : ts ≡ token ∷ r.1.tokens
  pub span : r.0 ≡ token.span
  pub depth : r.1.depth ≡ d

close_paren_at-Closed :
    (missing : Span → Diagnostic) (env : Env) (s : ParserState) (ts : List Token)
    → ((at : Span) → is_error (missing at) ≡ true)
    → Meets (Closed ts s.depth) (close_paren_at missing env s ts)
unfolding close_paren_at
close_paren_at-Closed missing env s [] he = refused (he _)
close_paren_at-Closed missing env s (t ∷ ts) he =
    Meets-if (is_r_paren t.kind)
      (λ h. met (record {
        token = t;
        is_close = is_r_paren→eq t.kind h;
        splits = refl;
        span = refl;
        depth = refl;
      }))
      λ _. refused (he _)

pub close_paren-Closed :
    (missing : Span → Diagnostic) (env : Env) (s : ParserState)
    → ((at : Span) → is_error (missing at) ≡ true)
    → Meets (Closed s.tokens s.depth) (close_paren missing env s)
unfolding close_paren
close_paren-Closed missing env s he = close_paren_at-Closed missing env s s.tokens he

-- One level of nesting is entered only while one is left.
pub record Entered (env : Env) (s : ParserState) (r : Unit {0} × ParserState) : Type 0 where
  pub tokens : r.1.tokens ≡ s.tokens
  pub depth : r.1.depth ≡ s.depth + 1
  pub within : s.depth + 1 ≤ env.limits.max_depth

pub enter-Entered :
    (env : Env) (span : Span) (s : ParserState) → Meets (Entered env s) (enter env span s)
unfolding enter
enter-Entered env span s =
    Meets-if (ltb env.limits.max_depth (s.depth + 1)) (λ _. refused refl)
      λ h. met (record { tokens = refl; depth = refl; within = not-ltb→le _ _ h })
