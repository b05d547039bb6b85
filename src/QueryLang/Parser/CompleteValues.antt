-- ===== src/QueryLang/Parser/CompleteValues.antt =====
-- The parser reads back the values and value groups of the grammar.
use log_scope.Prelude.{
  ℕ, zero, suc, ◌+◌, ◌≤◌, ◌≡◌, ◌≢◌, refl, ap, false, List, ◌∷◌, ◌++◌, inl, inr, arith, le→not-ltb,
  Bool-cases,
}
use log_scope.Text.{Text, text_eq, text_eq→eq}
use log_scope.QueryLang.Diag.{Span, Diagnostic}
use log_scope.QueryLang.Token.{Token, r_paren, starts_cmp_op, is_cmp_op}
use log_scope.QueryLang.Ast.{RawValue, CmpOp, RawValueExpr, RawField}
use log_scope.QueryLang.Parser.Results.{ok}
use log_scope.QueryLang.Parser.Loops.{is_kw_and, is_kw_or, is_r_paren}
use log_scope.QueryLang.Parser.Env.{Env, enter, leave, close_paren}
use log_scope.QueryLang.Parser.Values.{parse_value, parse_value_kind, starts_value_unary}
use log_scope.QueryLang.Parser.Grammar.{
  Form, ValueForm, star_value, word_value_form, quoted_value, regex_value_form, ValueNest, negated,
  grouped, ValueLeaf, leaf, ValueUnaryForm,
}
use log_scope.QueryLang.Parser.CompleteLoops.{state, EndsOr, Starter, Begins}

pub text_eq_of_ne : (a b : Text) → a ≢ b → text_eq a b ≡ false
text_eq_of_ne a b h = elim (Bool-cases (text_eq a b)) [
  | inl same ↦ absurd (h (text_eq→eq a b same))
  | inr differ ↦ differ
]

pub parse_value-eq :
    (env : Env) (field : RawField) (op : CmpOp) (d : ℕ) (us rest : List Token) (v : RawValue)
    → ValueForm op us v
    → parse_value env field op (state (us ++ rest) d) ≡ ok (v, state rest d)
unfolding parse_value parse_value_kind text_eq
parse_value-eq env field op d us rest v (star_value t w k o e j) = rw (e, k, o, j)
parse_value-eq env field op d us rest v (word_value_form t x w k a b e j) =
    rw (e, k, text_eq_of_ne x _ a, text_eq_of_ne x _ b, j)
parse_value-eq env field op d us rest v (quoted_value t x k e j) = rw (e, k, j)
parse_value-eq env field op d us rest v (regex_value_form t x ci k o e j) = rw (e, k, o, j)

pub starts_value_unary-Starter : Starter starts_value_unary
unfolding starts_value_unary is_cmp_op is_kw_and
starts_value_unary-Starter = record {
  no_cmp = λ k h. ground arith;
  no_and = λ k h. ground arith;
  no_or = refl;
}

-- A closing parenthesis ends every chain.
pub r_paren-EndsOr :
    (t : Token) (rest : List Token) → t.kind ≡ r_paren → EndsOr starts_value_unary (t ∷ rest)
unfolding starts_value_unary starts_cmp_op is_kw_and is_kw_or
r_paren-EndsOr t rest k = record {
  ends_and = record { no_cmp = rw k; no_and = rw k };
  no_or = rw k;
}

ValueForm-Begins :
    (op : CmpOp) (us : List Token) (v : RawValue) → ValueForm op us v → Begins starts_value_unary us
unfolding starts_value_unary
ValueForm-Begins op us v (star_value t w k o e j) = rw e (rw k)
ValueForm-Begins op us v (word_value_form t x w k a b e j) = rw e (rw k)
ValueForm-Begins op us v (quoted_value t x k e j) = rw e (rw k)
ValueForm-Begins op us v (regex_value_form t x ci k o e j) = rw e (rw k)

ValueLeaf-Begins :
    (us : List Token) (x : RawValueExpr) → ValueLeaf us x → Begins starts_value_unary us
ValueLeaf-Begins us x (leaf v f j) = ValueForm-Begins CmpOp.eq us v f

ValueNest-Begins :
    (P : Form RawValueExpr) (us : List Token) (x : RawValueExpr)
    → ValueNest P us x
    → Begins starts_value_unary us
unfolding starts_value_unary
ValueNest-Begins P us x (negated t vs y k f e j) = rw e (rw k)
ValueNest-Begins P us x (grouped t t' vs k k' f e) = rw e (rw k)

pub ValueUnaryForm-Begins :
    (k : ℕ) (us : List Token) (x : RawValueExpr)
    → ValueUnaryForm k us x
    → Begins starts_value_unary us
ValueUnaryForm-Begins zero us x h = ValueLeaf-Begins us x h
ValueUnaryForm-Begins (suc k) us x (inl h) = ValueLeaf-Begins us x h
ValueUnaryForm-Begins (suc k) us x (inr h) = ValueNest-Begins (ValueUnaryForm k) us x h

pub enter-eq :
    (env : Env) (span : Span) (ts : List Token) (d : ℕ)
    → d + 1 ≤ env.limits.max_depth
    → enter env span (state ts d) ≡ ok (tt, state ts (d + 1))
unfolding enter
enter-eq env span ts d h = rw (le→not-ltb env.limits.max_depth (d + 1) h)

pub leave-eq : (ts : List Token) (d : ℕ) → leave (state ts (d + 1)) ≡ ok (tt, state ts d)
unfolding leave
leave-eq ts d = ap (λ m. ok (tt, state ts m)) (omega arith)

pub close_paren-eq :
    (missing : Span → Diagnostic) (env : Env) (t : Token) (rest : List Token) (d : ℕ)
    → t.kind ≡ r_paren
    → close_paren missing env (state (t ∷ rest) d) ≡ ok (t.span, state rest d)
unfolding close_paren is_r_paren
close_paren-eq missing env t rest d k = rw k
