-- ===== src/QueryLang/Parser/CompleteGroups.antt =====
-- The parser reads back the value groups of the grammar, while the nesting is within the limit.
use log_scope.Prelude.{
  ℕ, zero, suc, ◌+◌, ◌≤◌, ◌<◌, ◌≡◌, ◌∙◌, ap, Bool, false, List, [], ◌∷◌, ◌++◌, inl, inr,
  append_assoc, length, arith,
}
use log_scope.Text.{Text}
use log_scope.QueryLang.Diag.{Span}
use log_scope.QueryLang.Token.{TokenKind, Token, word, quoted, regex, starts_cmp_op}
use log_scope.QueryLang.Ast.{RawValue, CmpOp, RawValueExpr, RawField}
use log_scope.QueryLang.Parser.Results.{ok, ParserState, Parser, pure, ◌>>=◌}
use log_scope.QueryLang.Parser.Env.{Env}
use log_scope.QueryLang.Parser.Values.{
  parse_value, join_value_and, join_value_or, starts_value_unary, value_or_of, group_unbalanced,
  value_unary_kind, value_unary_at, parse_value_unary, parse_value_or,
}
use log_scope.QueryLang.Parser.Grammar.{
  ValueForm, star_value, word_value_form, quoted_value, regex_value_form, ValueNest, negated,
  grouped, leaf, ValueUnaryForm, ValueOrForm,
}
use log_scope.QueryLang.Parser.CompleteLoops.{state, EndsOr, Complete}
use log_scope.QueryLang.Parser.CompleteOr.{or_of-eq}
use log_scope.QueryLang.Parser.CompleteValues.{
  parse_value-eq, starts_value_unary-Starter, r_paren-EndsOr, ValueUnaryForm-Begins, enter-eq,
  leave-eq, close_paren-eq,
}

abbrev pub CompleteBelow : Env → ℕ → Parser RawValueExpr → Type 0
CompleteBelow env n unary =
    (k d : ℕ)
    → d + k ≤ env.limits.max_depth
    → Complete starts_value_unary (ValueUnaryForm k) n d unary

pub value_or_of-eq :
    (env : Env) (n : ℕ) (unary : Parser RawValueExpr)
    → CompleteBelow env n unary
    → (k d : ℕ) (us rest : List Token) (x : RawValueExpr) → d + k ≤ env.limits.max_depth
    → ValueOrForm k us x
    → EndsOr starts_value_unary rest
    → length (us ++ rest) < n
    → value_or_of unary (state (us ++ rest) d) ≡ ok (x, state rest d)
value_or_of-eq env n unary complete k d us rest x within =
    or_of-eq starts_value_unary starts_value_unary-Starter (ValueUnaryForm k) n d unary
      (complete k d within) join_value_and join_value_or us rest x

module _ (env : Env) (field : RawField) (n : ℕ) (unary : Parser RawValueExpr)
    (complete : CompleteBelow env n unary) where
  abbrev parsed_value : Parser RawValueExpr
  parsed_value = do v ← parse_value env field CmpOp.eq; pure (RawValueExpr.value v)

  value_unary_kind-word :
      (s after : ParserState) (span : Span) (k : TokenKind) (x : Text) (w : Bool)
      → k ≡ word x w
      → value_unary_kind env field unary s after span k ≡ parsed_value s
  unfolding value_unary_kind
  value_unary_kind-word s after span k x w e = rw e

  value_unary_kind-quoted :
      (s after : ParserState) (span : Span) (k : TokenKind) (x : Text)
      → k ≡ quoted x
      → value_unary_kind env field unary s after span k ≡ parsed_value s
  unfolding value_unary_kind
  value_unary_kind-quoted s after span k x e = rw e

  value_unary_kind-regex :
      (s after : ParserState) (span : Span) (k : TokenKind) (x : Text) (ci : Bool)
      → k ≡ regex x ci
      → value_unary_kind env field unary s after span k ≡ parsed_value s
  unfolding value_unary_kind
  value_unary_kind-regex s after span k x ci e = rw e

  -- What begins a value is left to `parse_value`.
  value_unary_at-parsed :
      (d : ℕ) (us rest : List Token) (v : RawValue)
      → ValueForm CmpOp.eq us v
      → value_unary_at env field unary (state (us ++ rest) d) (us ++ rest)
        ≡ parsed_value (state (us ++ rest) d)
  unfolding value_unary_at
  value_unary_at-parsed d us rest v (star_value t w k o e j) =
      rw e (value_unary_kind-word _ _ _ t.kind _ w k)
  value_unary_at-parsed d us rest v (word_value_form t x w k h i e j) =
      rw e (value_unary_kind-word _ _ _ t.kind x w k)
  value_unary_at-parsed d us rest v (quoted_value t x k e j) =
      rw e (value_unary_kind-quoted _ _ _ t.kind x k)
  value_unary_at-parsed d us rest v (regex_value_form t x ci k o e j) =
      rw e (value_unary_kind-regex _ _ _ t.kind x ci k)

  value_leaf-eq :
      (d : ℕ) (us rest : List Token) (v : RawValue)
      → ValueForm CmpOp.eq us v
      → value_unary_at env field unary (state (us ++ rest) d) (us ++ rest)
        ≡ ok (RawValueExpr.value v, state rest d)
  value_leaf-eq d us rest v f =
      value_unary_at-parsed d us rest v f ∙ rw (parse_value-eq env field CmpOp.eq d us rest v f)

  ValueNest-eq :
      (k d : ℕ) (us rest : List Token) (x : RawValueExpr)
      → d + suc k ≤ env.limits.max_depth
      → ValueNest (ValueUnaryForm k) us x
      → starts_cmp_op rest ≡ false
      → length (us ++ rest) < suc n
      → value_unary_at env field unary (state (us ++ rest) d) (us ++ rest) ≡ ok (x, state rest d)
  unfolding value_unary_at value_unary_kind
  ValueNest-eq k d us rest x within (negated t vs y is_not py e j) no_cmp fits =
      let len = ap length (ap (λ l. l ++ rest) e) in
      rw (e, is_not, j)
        (rw (enter-eq env t.span (vs ++ rest) d (omega arith)) (
          rw ((complete k (d + 1) (omega arith)).reads vs rest y py no_cmp (omega arith))
            (rw (leave-eq rest d))))
  ValueNest-eq k d us rest x within (grouped t t' vs is_open is_close f e) no_cmp fits =
      let len = ap length (ap (λ l. l ++ rest) e ∙ ap (◌∷◌ t) (append_assoc vs (t' ∷ []) rest)) in
      rw (e, is_open, append_assoc vs (t' ∷ []) rest)
        (rw (enter-eq env t.span (vs ++ t' ∷ rest) d (omega arith)) (
          rw
            (value_or_of-eq env n unary complete k (d + 1) vs (t' ∷ rest) x (omega arith) f
              (r_paren-EndsOr t' rest is_close) (omega arith))
            (rw (leave-eq (t' ∷ rest) d)
              (rw (close_paren-eq group_unbalanced env t' rest d is_close)))))

  value_unary_at-eq :
      (k d : ℕ) (us rest : List Token) (x : RawValueExpr)
      → d + k ≤ env.limits.max_depth
      → ValueUnaryForm k us x
      → starts_cmp_op rest ≡ false
      → length (us ++ rest) < suc n
      → value_unary_at env field unary (state (us ++ rest) d) (us ++ rest) ≡ ok (x, state rest d)
  value_unary_at-eq zero d us rest x within (leaf v f j) no_cmp fits =
      rw j (value_leaf-eq d us rest v f)
  value_unary_at-eq (suc k) d us rest x within (inl (leaf v f j)) no_cmp fits =
      rw j (value_leaf-eq d us rest v f)
  value_unary_at-eq (suc k) d us rest x within (inr h) no_cmp fits =
      ValueNest-eq k d us rest x within h no_cmp fits

pub parse_value_unary-Complete :
    (env : Env) (field : RawField) (fuel : ℕ)
    → CompleteBelow env fuel (parse_value_unary env field fuel)
unfolding parse_value_unary
parse_value_unary-Complete env field zero k d within = record {
  reads = λ us rest x h no_cmp fits. absurd (omega arith);
  begins = ValueUnaryForm-Begins k;
}
parse_value_unary-Complete env field (suc fuel) k d within = record {
  reads = λ us rest x h.
      value_unary_at-eq env field fuel (parse_value_unary env field fuel)
        (parse_value_unary-Complete env field fuel) k d us rest x within h;
  begins = ValueUnaryForm-Begins k;
}

pub parse_value_or-eq :
    (env : Env) (field : RawField) (k d : ℕ) (us rest : List Token) (x : RawValueExpr)
    → d + k ≤ env.limits.max_depth
    → ValueOrForm k us x
    → EndsOr starts_value_unary rest
    → parse_value_or env field (state (us ++ rest) d) ≡ ok (x, state rest d)
unfolding parse_value_or
parse_value_or-eq env field k d us rest x within h ends =
    value_or_of-eq env (suc (length (us ++ rest))) _
      (parse_value_unary-Complete env field (suc (length (us ++ rest)))) k d us rest x within h ends
      (omega arith)
