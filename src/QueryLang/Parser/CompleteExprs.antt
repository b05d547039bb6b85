-- ===== src/QueryLang/Parser/CompleteExprs.antt =====
-- The parser reads back the expressions of the grammar, while the nesting is within the limit.
use log_scope.Prelude.{
  ℕ, zero, suc, ◌+◌, ◌≤◌, ◌<◌, ◌≡◌, ◌≢◌, ◌∙◌, refl, ap, Bool, true, false, List, [], ◌∷◌, ◌++◌, inl,
  inr, append_assoc, length, arith,
}
use log_scope.Text.{Text}
use log_scope.QueryLang.Diag.{Span, merge}
use log_scope.QueryLang.Token.{TokenKind, Token, word, l_paren, r_paren, starts_cmp_op, is_cmp_op}
use log_scope.QueryLang.Ast.{RawValue, CmpOp, RawValueExpr, RawExpr, RawField}
use log_scope.QueryLang.Parser.Results.{ok, ParserState, Parser}
use log_scope.QueryLang.Parser.Loops.{is_kw_and, is_kw_or}
use log_scope.QueryLang.Parser.Env.{Env}
use log_scope.QueryLang.Parser.Values.{op_is_eq}
use log_scope.QueryLang.Parser.Exprs.{
  cmp_op, parse_group, parse_comparison, is_l_paren, predicate_at, parse_predicate, join_and,
  join_or, starts_unary, parse_predicate_or_term, or_over, unbalanced, parse_paren, parse_not,
  unary_kind, unary_at, parse_unary, parse_or,
}
use log_scope.QueryLang.Parser.Grammar.{
  Form, ValueForm, star_value, word_value_form, quoted_value, regex_value_form, ValueOrForm, Leaf,
  Nest, UnaryForm, QueryForm,
}
use log_scope.QueryLang.Parser.CompleteLoops.{state, EndsOr, Starter, Begins, Complete}
use log_scope.QueryLang.Parser.CompleteOr.{or_of-eq}
use log_scope.QueryLang.Parser.CompleteValues.{
  parse_value-eq, text_eq_of_ne, r_paren-EndsOr, enter-eq, leave-eq, close_paren-eq,
}
use log_scope.QueryLang.Parser.CompleteGroups.{parse_value_or-eq}

pub starts_unary-Starter : Starter starts_unary
unfolding starts_unary is_cmp_op is_kw_and
starts_unary-Starter = record {
  no_cmp = λ k h. ground arith;
  no_and = λ k h. ground arith;
  no_or = refl;
}

r_paren-ends : (t : Token) (rest : List Token) → t.kind ≡ r_paren → EndsOr starts_unary (t ∷ rest)
unfolding starts_unary starts_cmp_op is_kw_and is_kw_or
r_paren-ends t rest k = record { ends_and = record { no_cmp = rw k; no_and = rw k }; no_or = rw k }

Leaf-Begins : (us : List Token) (x : RawExpr) → Leaf us x → Begins starts_unary us
unfolding starts_unary
Leaf-Begins us x (Leaf.term t y w k ne e j) = rw e (rw k)
Leaf-Begins us x (Leaf.phrase t y k e j) = rw e (rw k)
Leaf-Begins us x (Leaf.cmp t o y w vs v k h f e j) = rw e (rw k)

Nest-Begins :
    (k : ℕ) (P : Form RawExpr) (us : List Token) (x : RawExpr)
    → Nest k P us x
    → Begins starts_unary us
unfolding starts_unary
Nest-Begins k P us x (Nest.negated t vs y is f e j) = rw e (rw is)
Nest-Begins k P us x (Nest.parenthesised t t' vs is is' f e) = rw e (rw is)
Nest-Begins k P us x (Nest.group t o a b y w vs v is h1 h2 h3 h4 f e j) = rw e (rw is)

UnaryForm-Begins :
    (k : ℕ) (us : List Token) (x : RawExpr) → UnaryForm k us x → Begins starts_unary us
UnaryForm-Begins zero us x h = Leaf-Begins us x h
UnaryForm-Begins (suc k) us x (inl h) = Leaf-Begins us x h
UnaryForm-Begins (suc k) us x (inr h) = Nest-Begins k (UnaryForm k) us x h

abbrev pub CompleteBelow : Env → ℕ → Parser RawExpr → Type 0
CompleteBelow env n unary =
    (k d : ℕ) → d + k ≤ env.limits.max_depth → Complete starts_unary (UnaryForm k) n d unary

pub or_over-eq :
    (env : Env) (n : ℕ) (unary : Parser RawExpr)
    → CompleteBelow env n unary
    → (k d : ℕ) (us rest : List Token) (x : RawExpr) → d + k ≤ env.limits.max_depth
    → QueryForm k us x
    → EndsOr starts_unary rest
    → length (us ++ rest) < n
    → or_over unary (state (us ++ rest) d) ≡ ok (x, state rest d)
or_over-eq env n unary complete k d us rest x within =
    or_of-eq starts_unary starts_unary-Starter (UnaryForm k) n d unary (complete k d within)
      join_and join_or us rest x

-- A value never begins with `(`, so it is read as a comparison.
predicate_at-eq_value :
    (env : Env) (field : RawField) (op : CmpOp) (span : Span) (s : ParserState)
    (us rest : List Token) (v : RawValue)
    → ValueForm op us v
    → predicate_at env field op span s (us ++ rest) ≡ parse_comparison env field op s
unfolding predicate_at is_l_paren
predicate_at-eq_value env field op span s us rest v (star_value t w k o e j) = rw e (rw k)
predicate_at-eq_value env field op span s us rest v (word_value_form t x w k a b e j) = rw e (rw k)
predicate_at-eq_value env field op span s us rest v (quoted_value t x k e j) = rw e (rw k)
predicate_at-eq_value env field op span s us rest v (regex_value_form t x ci k o e j) = rw e (rw k)

comparison-eq :
    (env : Env) (d : ℕ) (t o : Token) (x : Text) (w : Bool) (vs rest : List Token) (v : RawValue)
    → is_cmp_op o.kind ≡ true
    → ValueForm (cmp_op o.kind) vs v
    → parse_predicate_or_term env t x w (state (o ∷ (vs ++ rest)) d) (o ∷ (vs ++ rest))
      ≡ parse_comparison env
          (record { text = x; span = t.span })
          (cmp_op o.kind)
          (state (vs ++ rest) d)
unfolding parse_predicate_or_term parse_predicate
comparison-eq env d t o x w vs rest v is_op f = rw is_op (
    predicate_at-eq_value env (record { text = x; span = t.span }) (cmp_op o.kind) o.span
      (state (vs ++ rest) d) vs rest v f)

unary_kind-word :
    (env : Env) (unary : Parser RawExpr) (t : Token) (s : ParserState) (k : TokenKind) (x : Text)
    (w : Bool)
    → k ≡ word x w
    → unary_kind env unary t k s ≡ parse_predicate_or_term env t x w s s.tokens
unfolding unary_kind
unary_kind-word env unary t s k x w e = rw e

-- A word that no operator follows is a term.
bare_word-eq :
    (env : Env) (t : Token) (x : Text) (w : Bool) (s : ParserState) (rest : List Token)
    → x ≢ []
    → starts_cmp_op rest ≡ false
    → parse_predicate_or_term env t x w s rest ≡ ok (RawExpr.term x w t.span, s)
unfolding parse_predicate_or_term starts_cmp_op
bare_word-eq env t x w s [] ne h = rw (text_eq_of_ne x [] ne)
bare_word-eq env t x w s (n ∷ rest) ne h = rw (h, text_eq_of_ne x [] ne)

Leaf-eq :
    (env : Env) (unary : Parser RawExpr) (d : ℕ) (us rest : List Token) (x : RawExpr)
    → Leaf us x
    → starts_cmp_op rest ≡ false
    → unary_at env unary (state (us ++ rest) d) (us ++ rest) ≡ ok (x, state rest d)
unfolding unary_at
Leaf-eq env unary d us rest x (Leaf.term t y w k ne e j) no_cmp =
    rw (e, j)
      (unary_kind-word env unary t (state rest d) t.kind y w k
        ∙ bare_word-eq env t y w (state rest d) rest ne no_cmp)
Leaf-eq env unary d us rest x (Leaf.phrase t y k e j) no_cmp = rw (e, j) (unfold unary_kind in rw k)
Leaf-eq env unary d us rest x (Leaf.cmp t o y w vs v k is_op f e j) no_cmp =
    rw (e, j)
      (unary_kind-word env unary t (state (o ∷ (vs ++ rest)) d) t.kind y w k
        ∙ comparison-eq env d t o y w vs rest v is_op f
        ∙ (unfold parse_comparison in
            rw (
              parse_value-eq env (record { text = y; span = t.span }) (cmp_op o.kind) d vs rest v
                f)))

module _ (env : Env) (n : ℕ) (unary : Parser RawExpr) (complete : CompleteBelow env n unary) where
  -- A value group, from behind its operator.
  group-eq :
      (k d : ℕ) (t o p q : Token) (x : Text) (w : Bool) (vs rest : List Token) (v : RawValueExpr)
      → d + suc k ≤ env.limits.max_depth
      → is_cmp_op o.kind ≡ true
      → cmp_op o.kind ≡ CmpOp.eq
      → p.kind ≡ l_paren
      → q.kind ≡ r_paren
      → ValueOrForm k vs v
      → parse_predicate_or_term env t x w
          (state (o ∷ p ∷ (vs ++ q ∷ rest)) d)
          (o ∷ p ∷ (vs ++ q ∷ rest))
        ≡ ok (
          RawExpr.group (record { text = x; span = t.span }) v (merge t.span q.span),
          state rest d,
        )
  unfolding parse_predicate_or_term parse_predicate predicate_at is_l_paren op_is_eq parse_group
  group-eq k d t o p q x w vs rest v within is_op is_eq is_open is_close f =
      rw (is_op, is_open, is_eq)
        (rw (enter-eq env p.span (vs ++ q ∷ rest) d (omega arith)) (
          rw
            (parse_value_or-eq env (record { text = x; span = t.span }) k (d + 1) vs (q ∷ rest) v
              (omega arith) f (r_paren-EndsOr q rest is_close))
            (rw (leave-eq (q ∷ rest) d) (rw (close_paren-eq _ env q rest d is_close)))))

  Nest-eq :
      (k d : ℕ) (us rest : List Token) (x : RawExpr)
      → d + suc k ≤ env.limits.max_depth
      → Nest k (UnaryForm k) us x
      → starts_cmp_op rest ≡ false
      → length (us ++ rest) < suc n
      → unary_at env unary (state (us ++ rest) d) (us ++ rest) ≡ ok (x, state rest d)
  unfolding unary_at
  Nest-eq k d us rest x within (Nest.negated t vs y is f e j) no_cmp fits =
      let len = ap length (ap (λ l. l ++ rest) e) in
      rw (e, j)
        (unfold unary_kind parse_not in
          rw is (
            rw (enter-eq env t.span (vs ++ rest) d (omega arith)) (
              rw ((complete k (d + 1) (omega arith)).reads vs rest y f no_cmp (omega arith))
                (rw (leave-eq rest d)))))
  Nest-eq k d us rest x within (Nest.parenthesised t t' vs is is' f e) no_cmp fits =
      let len = ap length (ap (λ l. l ++ rest) e ∙ ap (◌∷◌ t) (append_assoc vs (t' ∷ []) rest)) in
      rw (e, append_assoc vs (t' ∷ []) rest)
        (unfold unary_kind parse_paren in
          rw is (
            rw (enter-eq env t.span (vs ++ t' ∷ rest) d (omega arith)) (
              rw
                (or_over-eq env n unary complete k (d + 1) vs (t' ∷ rest) x (omega arith) f
                  (r_paren-ends t' rest is') (omega arith))
                (rw (leave-eq (t' ∷ rest) d) (rw (close_paren-eq unbalanced env t' rest d is'))))))
  Nest-eq k d us rest x within (Nest.group t o p q y w vs v is h1 h2 h3 h4 f e j) no_cmp fits =
      rw (e, append_assoc vs (q ∷ []) rest, j)
        (unary_kind-word env unary t (state (o ∷ p ∷ (vs ++ q ∷ rest)) d) t.kind y w is
          ∙ group-eq k d t o p q y w vs rest v within h1 h2 h3 h4 f)

  unary_at-eq :
      (k d : ℕ) (us rest : List Token) (x : RawExpr)
      → d + k ≤ env.limits.max_depth
      → UnaryForm k us x
      → starts_cmp_op rest ≡ false
      → length (us ++ rest) < suc n
      → unary_at env unary (state (us ++ rest) d) (us ++ rest) ≡ ok (x, state rest d)
  unary_at-eq zero d us rest x within h no_cmp fits = Leaf-eq env unary d us rest x h no_cmp
  unary_at-eq (suc k) d us rest x within (inl h) no_cmp fits =
      Leaf-eq env unary d us rest x h no_cmp
  unary_at-eq (suc k) d us rest x within (inr h) no_cmp fits =
      Nest-eq k d us rest x within h no_cmp fits

parse_unary-Complete : (env : Env) (fuel : ℕ) → CompleteBelow env fuel (parse_unary env fuel)
unfolding parse_unary
parse_unary-Complete env zero k d within = record {
  reads = λ us rest x h no_cmp fits. absurd (omega arith);
  begins = UnaryForm-Begins k;
}
parse_unary-Complete env (suc fuel) k d within = record {
  reads = λ us rest x h.
      unary_at-eq env fuel (parse_unary env fuel) (parse_unary-Complete env fuel) k d us rest x
        within h;
  begins = UnaryForm-Begins k;
}

-- The parser of an expression reads every expression of the grammar back, in front of what ends it.
pub parse_or-eq :
    (env : Env) (k d : ℕ) (us rest : List Token) (x : RawExpr)
    → d + k ≤ env.limits.max_depth
    → QueryForm k us x
    → EndsOr starts_unary rest
    → parse_or env (state (us ++ rest) d) ≡ ok (x, state rest d)
unfolding parse_or
parse_or-eq env k d us rest x within h ends =
    or_over-eq env (suc (length (us ++ rest))) _
      (parse_unary-Complete env (suc (length (us ++ rest)))) k d us rest x within h ends
      (omega arith)
