-- ===== src/QueryLang/Parser/SoundGroups.antt =====
-- Value groups keep within their fuel and follow the grammar.
use log_scope.Prelude.{
  ℕ, zero, suc, ◌+◌, ◌-◌, ◌<◌, ◌≡◌, ◌∙◌, refl, sym, ap, List, [], ◌∷◌, ◌++◌, inl, inr, append_assoc,
  length, arith, subst,
}
use log_scope.QueryLang.Diag.{merge}
use log_scope.QueryLang.Token.{TokenKind, Token, l_paren, kw_not}
use log_scope.QueryLang.Ast.{CmpOp, RawValueExpr, RawField, value_expr_span}
use log_scope.QueryLang.Parser.Results.{ParserState, Parser, pure, ◌>>=◌, ◌>>◌}
use log_scope.QueryLang.Parser.Env.{Env, enter, leave, close_paren}
use log_scope.QueryLang.Parser.Values.{
  parse_value, join_value_and, join_value_or, starts_value_unary, value_or_of, group_unbalanced,
  value_unary_kind, value_unary_at, parse_value_unary, parse_value_or,
}
use log_scope.QueryLang.Parser.Grammar.{
  Form, ValueNest, negated, grouped, ValueLeaf, leaf, ValueUnaryForm, ValueOrForm,
}
use log_scope.QueryLang.Parser.Meets.{Meets, met, Meets-bind, Reads}
use log_scope.QueryLang.Parser.SoundLoops.{Sound, and_of-Sound, or_of-Sound}
use log_scope.QueryLang.Parser.SoundValues.{
  parse_value-Reads, ValueForm-nonempty, close_paren-Closed, enter-Entered,
}

pub ValueUnaryForm-leaf :
    (k : ℕ) {us : List Token} {e : RawValueExpr} → ValueLeaf us e → ValueUnaryForm k us e
ValueUnaryForm-leaf zero h = h
ValueUnaryForm-leaf (suc k) h = inl h

ValueLeaf-nonempty : (us : List Token) (e : RawValueExpr) → ValueLeaf us e → 0 < length us
ValueLeaf-nonempty us e (leaf v f _) = ValueForm-nonempty f

ValueNest-nonempty :
    (P : Form RawValueExpr) (us : List Token) (e : RawValueExpr) → ValueNest P us e → 0 < length us
ValueNest-nonempty P us e (negated t vs x k f s _) = rw s (omega arith)
ValueNest-nonempty P us e (grouped t t' vs k k' f s) = rw s (omega arith)

pub ValueUnaryForm_nonempty :
    (k : ℕ) (us : List Token) (e : RawValueExpr) → ValueUnaryForm k us e → 0 < length us
ValueUnaryForm_nonempty zero us e h = ValueLeaf-nonempty us e h
ValueUnaryForm_nonempty (suc k) us e (inl h) = ValueLeaf-nonempty us e h
ValueUnaryForm_nonempty (suc k) us e (inr h) = ValueNest-nonempty (ValueUnaryForm k) us e h

-- Every level of `unary` that is left within the limit is sound on less than `n` tokens.
abbrev pub SoundBelow : Env → ℕ → Parser RawValueExpr → Type 0
SoundBelow env n unary =
    (k d : ℕ) → d + k ≡ env.limits.max_depth → Sound (ValueUnaryForm k) n d unary

pub value_or_of-Sound :
    (env : Env) (n k d : ℕ) (unary : Parser RawValueExpr)
    → SoundBelow env n unary
    → d + k ≡ env.limits.max_depth
    → Sound (ValueOrForm k) n d (value_or_of unary)
value_or_of-Sound env n k d unary sound e =
    or_of-Sound _ n d _ (and_of-Sound _ n d unary (sound k d e) starts_value_unary join_value_and)
      join_value_or

module _ (env : Env) (field : RawField) (n : ℕ) (unary : Parser RawValueExpr)
    (sound : SoundBelow env n unary) where
  -- At a value, where nothing was taken yet.
  value_leaf-Reads :
      (k : ℕ) (s : ParserState) (ts : List Token)
      → s.tokens ≡ ts
      → Meets
          (Reads (ValueUnaryForm k) ts s.depth)
          ((do v ← parse_value env field CmpOp.eq; pure (RawValueExpr.value v)) s)
  value_leaf-Reads k s ts e = Meets-bind _ (parse_value-Reads env field CmpOp.eq s) λ v u r.
      met (record {
        taken = r.taken;
        splits = rw (← e) r.splits;
        form = ValueUnaryForm-leaf k (leaf v r.form refl);
        depth = r.depth;
      })

  value_not-Reads :
      (k : ℕ) (t : Token) (s : ParserState)
      → t.kind ≡ kw_not
      → length s.tokens < n
      → s.depth + k ≡ env.limits.max_depth
      → Meets (Reads (ValueUnaryForm k) (t ∷ s.tokens) s.depth) (
          (do
            enter env t.span
            inner ← unary
            leave
            pure (RawValueExpr.not inner (merge t.span (value_expr_span inner))))
            s)
  unfolding leave
  value_not-Reads zero t s is_not fits e =
      Meets-bind _ (enter-Entered env t.span s) λ _ u en. absurd (omega (arith, en.within))
  value_not-Reads (suc k) t s is_not fits e = Meets-bind _ (enter-Entered env t.span s) λ _ u en.
      Meets-bind _
        ((sound k (s.depth + 1) (omega arith)).reads u (omega (arith, ap length en.tokens))
          en.depth)
        λ x v r. met (record {
          taken = t ∷ r.taken;
          splits = ap (◌∷◌ t) (sym en.tokens ∙ r.splits);
          form = inr (negated t r.taken x is_not r.form refl refl);
          depth = omega (arith, r.depth);
        })

  value_paren-Reads :
      (k : ℕ) (t : Token) (s : ParserState)
      → t.kind ≡ l_paren
      → length s.tokens < n
      → s.depth + k ≡ env.limits.max_depth
      → Meets (Reads (ValueUnaryForm k) (t ∷ s.tokens) s.depth) (
          (do
            enter env t.span
            inner ← value_or_of unary
            leave
            close_paren group_unbalanced env
            pure inner)
            s)
  unfolding leave group_unbalanced
  value_paren-Reads zero t s is_open fits e =
      Meets-bind _ (enter-Entered env t.span s) λ _ u en. absurd (omega (arith, en.within))
  value_paren-Reads (suc k) t s is_open fits e = Meets-bind _ (enter-Entered env t.span s) λ _ u en.
      Meets-bind _
        ((value_or_of-Sound env n k (s.depth + 1) unary sound (omega arith)).reads u
          (omega (arith, ap length en.tokens)) en.depth)
        λ x v r.
          Meets-bind _
            (close_paren-Closed group_unbalanced env (record v { depth = v.depth - 1 }) λ at. refl)
            λ _ w c. met (record {
              taken = t ∷ (r.taken ++ c.token ∷ []);
              splits = simp (← en.tokens, r.splits, c.splits, append_assoc);
              form = inr (grouped t c.token r.taken is_open c.is_close r.form refl);
              depth = omega (arith, r.depth, c.depth);
            })

  value_unary_kind-Reads :
      (k : ℕ) (s : ParserState) (t : Token) (ts : List Token) (kind : TokenKind)
      → t.kind ≡ kind
      → s.tokens ≡ t ∷ ts
      → length ts < n
      → s.depth + k ≡ env.limits.max_depth
      → Meets
          (Reads (ValueUnaryForm k) (t ∷ ts) s.depth)
          (value_unary_kind env field unary s (record s { tokens = ts }) t.span kind)
  unfolding value_unary_kind
  value_unary_kind-Reads k s t ts kw_not is e fits d =
      value_not-Reads k t (record s { tokens = ts }) is fits d
  value_unary_kind-Reads k s t ts l_paren is e fits d =
      value_paren-Reads k t (record s { tokens = ts }) is fits d
  value_unary_kind-Reads k s t ts _ is e fits d = value_leaf-Reads k s (t ∷ ts) e

  pub value_unary_at-Reads :
      (k : ℕ) (s : ParserState) (ts : List Token)
      → s.tokens ≡ ts
      → length ts < suc n
      → s.depth + k ≡ env.limits.max_depth
      → Meets (Reads (ValueUnaryForm k) ts s.depth) (value_unary_at env field unary s ts)
  unfolding value_unary_at
  value_unary_at-Reads k s [] e fits d = value_leaf-Reads k s [] e
  value_unary_at-Reads k s (t ∷ ts) e fits d =
      value_unary_kind-Reads k s t ts t.kind refl e (omega arith) d

pub parse_value_unary-Sound :
    (env : Env) (field : RawField) (fuel : ℕ)
    → SoundBelow env fuel (parse_value_unary env field fuel)
unfolding parse_value_unary
parse_value_unary-Sound env field zero k d e = record {
  reads = λ s fits at_d. absurd (omega arith);
  nonempty = ValueUnaryForm_nonempty k;
}
parse_value_unary-Sound env field (suc fuel) k d e = record {
  reads = λ s fits at_d.
      subst
        (λ m.
          Meets (Reads (ValueUnaryForm k) s.tokens m)
            (value_unary_at env field (parse_value_unary env field fuel) s s.tokens))
        at_d
        (value_unary_at-Reads env field fuel (parse_value_unary env field fuel)
          (parse_value_unary-Sound env field fuel) k s s.tokens refl fits (omega (arith, at_d)));
  nonempty = ValueUnaryForm_nonempty k;
}

-- Whatever its input, the parser of a value group returns within its fuel.
pub parse_value_or-Reads :
    (env : Env) (field : RawField) (k : ℕ) (s : ParserState)
    → s.depth + k ≡ env.limits.max_depth
    → Meets (Reads (ValueOrForm k) s.tokens s.depth) (parse_value_or env field s)
unfolding parse_value_or
parse_value_or-Reads env field k s e =
    (value_or_of-Sound env (suc (length s.tokens)) k s.depth
        (parse_value_unary env field (suc (length s.tokens)))
        (parse_value_unary-Sound env field (suc (length s.tokens))) e).reads
      s (omega arith) refl
