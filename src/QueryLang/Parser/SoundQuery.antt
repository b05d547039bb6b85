-- ===== src/QueryLang/Parser/SoundQuery.antt =====
-- Expressions keep within their fuel and follow the grammar.
use log_scope.Prelude.{
  ℕ, zero, suc, ◌+◌, ◌-◌, ◌<◌, ◌≡◌, ◌∙◌, refl, sym, ap, List, [], ◌∷◌, ◌++◌, inr, append_assoc,
  length, arith, subst,
}
use log_scope.QueryLang.Token.{TokenKind, Token, word, quoted, l_paren, kw_not}
use log_scope.QueryLang.Ast.{RawExpr}
use log_scope.QueryLang.Parser.Results.{ParserState, Parser}
use log_scope.QueryLang.Parser.Env.{Env, leave}
use log_scope.QueryLang.Parser.Exprs.{
  unbalanced, regex_needs_field, unexpected, parse_paren, parse_not, unary_kind, unary_at,
  parse_unary, parse_or,
}
use log_scope.QueryLang.Parser.Grammar.{Leaf, Nest, UnaryForm, QueryForm}
use log_scope.QueryLang.Parser.Meets.{Meets, met, refused, Meets-bind, Reads}
use log_scope.QueryLang.Parser.SoundValues.{close_paren-Closed, enter-Entered}
use log_scope.QueryLang.Parser.SoundExprs.{
  UnaryForm-leaf, UnaryForm_nonempty, SoundBelow, or_over-Sound, predicate_or_term-Reads,
}

module _ (env : Env) (n : ℕ) (unary : Parser RawExpr) (sound : SoundBelow env n unary) where
  not-Reads :
      (k : ℕ) (t : Token) (s : ParserState)
      → t.kind ≡ kw_not
      → length s.tokens < n
      → s.depth + k ≡ env.limits.max_depth
      → Meets (Reads (UnaryForm k) (t ∷ s.tokens) s.depth) (parse_not env unary t.span s)
  unfolding parse_not leave
  not-Reads zero t s is_not fits e =
      Meets-bind _ (enter-Entered env t.span s) λ _ u en. absurd (omega (arith, en.within))
  not-Reads (suc k) t s is_not fits e = Meets-bind _ (enter-Entered env t.span s) λ _ u en.
      Meets-bind _
        ((sound k (s.depth + 1) (omega arith)).reads u (omega (arith, ap length en.tokens))
          en.depth)
        λ x v r. met (record {
          taken = t ∷ r.taken;
          splits = ap (◌∷◌ t) (sym en.tokens ∙ r.splits);
          form = inr (Nest.negated t r.taken x is_not r.form refl refl);
          depth = omega (arith, r.depth);
        })

  paren-Reads :
      (k : ℕ) (t : Token) (s : ParserState)
      → t.kind ≡ l_paren
      → length s.tokens < n
      → s.depth + k ≡ env.limits.max_depth
      → Meets (Reads (UnaryForm k) (t ∷ s.tokens) s.depth) (parse_paren env unary t.span s)
  unfolding parse_paren leave unbalanced
  paren-Reads zero t s is_open fits e =
      Meets-bind _ (enter-Entered env t.span s) λ _ u en. absurd (omega (arith, en.within))
  paren-Reads (suc k) t s is_open fits e = Meets-bind _ (enter-Entered env t.span s) λ _ u en.
      Meets-bind _
        ((or_over-Sound env n k (s.depth + 1) unary sound (omega arith)).reads u
          (omega (arith, ap length en.tokens)) en.depth)
        λ x v r.
          Meets-bind _
            (close_paren-Closed unbalanced env (record v { depth = v.depth - 1 }) λ at. refl)
            λ _ w c. met (record {
              taken = t ∷ (r.taken ++ c.token ∷ []);
              splits = simp (← en.tokens, r.splits, c.splits, append_assoc);
              form = inr (Nest.parenthesised t c.token r.taken is_open c.is_close r.form refl);
              depth = omega (arith, r.depth, c.depth);
            })

  unary_kind-Reads :
      (k : ℕ) (t : Token) (kind : TokenKind) (s : ParserState)
      → t.kind ≡ kind
      → length s.tokens < n
      → s.depth + k ≡ env.limits.max_depth
      → Meets (Reads (UnaryForm k) (t ∷ s.tokens) s.depth) (unary_kind env unary t kind s)
  unfolding unary_kind regex_needs_field unexpected
  unary_kind-Reads k t kw_not s is fits d = not-Reads k t s is fits d
  unary_kind-Reads k t l_paren s is fits d = paren-Reads k t s is fits d
  unary_kind-Reads k t (quoted x) s is fits d = met (record {
    taken = t ∷ [];
    splits = refl;
    form = UnaryForm-leaf k (Leaf.phrase t x is refl refl);
    depth = refl;
  })
  unary_kind-Reads k t (word x w) s is fits d =
      predicate_or_term-Reads env k t x w s s.tokens is refl d
  unary_kind-Reads k t _ s is fits d = refused refl

  unary_at-Reads :
      (k : ℕ) (s : ParserState) (ts : List Token)
      → length ts < suc n
      → s.depth + k ≡ env.limits.max_depth
      → Meets (Reads (UnaryForm k) ts s.depth) (unary_at env unary s ts)
  unfolding unary_at
  unary_at-Reads k s [] fits d = refused refl
  unary_at-Reads k s (t ∷ ts) fits d =
      unary_kind-Reads k t t.kind (record s { tokens = ts }) refl (omega arith) d

pub parse_unary-Sound : (env : Env) (fuel : ℕ) → SoundBelow env fuel (parse_unary env fuel)
unfolding parse_unary
parse_unary-Sound env zero k d e = record {
  reads = λ s fits at_d. absurd (omega arith);
  nonempty = UnaryForm_nonempty k;
}
parse_unary-Sound env (suc fuel) k d e = record {
  reads = λ s fits at_d.
      subst
        (λ m.
          Meets (Reads (UnaryForm k) s.tokens m) (unary_at env (parse_unary env fuel) s s.tokens))
        at_d
        (unary_at-Reads env fuel (parse_unary env fuel) (parse_unary-Sound env fuel) k s s.tokens
          fits (omega (arith, at_d)));
  nonempty = UnaryForm_nonempty k;
}

-- Whatever its input, the parser of an expression returns within its fuel, and what it takes is an
-- expression of the grammar.
pub parse_or-Reads :
    (env : Env) (s : ParserState) (k : ℕ)
    → s.depth + k ≡ env.limits.max_depth
    → Meets (Reads (QueryForm k) s.tokens s.depth) (parse_or env s)
unfolding parse_or
parse_or-Reads env s k e =
    (or_over-Sound env (suc (length s.tokens)) k s.depth (parse_unary env (suc (length s.tokens)))
        (parse_unary-Sound env (suc (length s.tokens))) e).reads
      s (omega arith) refl
