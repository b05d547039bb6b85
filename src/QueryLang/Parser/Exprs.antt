-- ===== src/QueryLang/Parser/Exprs.antt =====
-- Predicates and expressions of the parser (crates/logscope-query-lang/src/parse.rs).
use log_scope.Prelude.{
  ℕ, zero, suc, String, Bool, true, false, List, [], ◌∷◌, if◌then◌else◌, length,
}
use log_scope.Text.{Text, text_eq}
use log_scope.QueryLang.Diag.{Span, merge, lit, Diagnostic, diag_error, with_expected, with_hint}
use log_scope.QueryLang.Token.{
  TokenKind, Token, word, quoted, regex, l_paren, kw_not, describe, is_cmp_op,
}
use log_scope.QueryLang.Ast.{
  CmpOp, describe_op, RawField, RawExpr, value_span, expr_span, expr_items,
}
use log_scope.QueryLang.Parser.Results.{
  Outcome, ok, err, out_of_fuel, ParserState, Parser, pure, ◌>>=◌, ◌>>◌,
}
use log_scope.QueryLang.Parser.Loops.{and_of, or_of}
use log_scope.QueryLang.Parser.Env.{Env, enter, leave, close_paren}
use log_scope.QueryLang.Parser.Values.{
  op_is_eq, parse_value, items_span, group_unbalanced, parse_value_or,
}

-- The operator that a token stands for; the program checked that it is one.
unfoldable pub cmp_op : TokenKind → CmpOp
cmp_op TokenKind.ne = CmpOp.ne
cmp_op TokenKind.gt = CmpOp.gt
cmp_op TokenKind.ge = CmpOp.ge
cmp_op TokenKind.lt = CmpOp.lt
cmp_op TokenKind.le = CmpOp.le
cmp_op _ = CmpOp.eq

unfoldable pub group_op : CmpOp → Span → Diagnostic
group_op op span =
    with_hint
      (diag_error "lang/group-op"
        (lit "value groups are not supported with `" ∷ lit (describe_op op) ∷ lit "`" ∷ []) span)
      "write NOT field:(…) instead"

-- `field:(…)`, from behind its opening parenthesis.
unfoldable pub parse_group : Env → RawField → Span → Parser RawExpr
parse_group env field open_span = do
  enter env open_span
  inner ← parse_value_or env field
  leave
  close ← close_paren (λ span. with_expected (group_unbalanced span) "`)`") env
  pure (RawExpr.group field inner (merge field.span close))

unfoldable pub parse_comparison : Env → RawField → CmpOp → Parser RawExpr
parse_comparison env field op = do
  v ← parse_value env field op
  pure (RawExpr.cmp field op v (merge field.span (value_span v)))

unfoldable pub is_l_paren : TokenKind → Bool
is_l_paren l_paren = true
is_l_paren _ = false

-- Behind the operator, by the tokens there.
unfoldable pub predicate_at :
    Env → RawField → CmpOp → Span → ParserState → List Token → Outcome (RawExpr × ParserState)
predicate_at env field op op_span s [] = parse_comparison env field op s
predicate_at env field op op_span s (t ∷ ts) =
    if is_l_paren t.kind
    then (if op_is_eq op
        then parse_group env field t.span (record s { tokens = ts })
        else err (group_op op op_span))
    else parse_comparison env field op s

-- `parse_predicate`, from behind the operator `t`.
unfoldable pub parse_predicate : Env → RawField → Token → Parser RawExpr
parse_predicate env field t s = predicate_at env field (cmp_op t.kind) t.span s s.tokens

-- One item stands for itself.
unfoldable pub join_and : RawExpr → List RawExpr → RawExpr
join_and x [] = x
join_and x (y ∷ ys) = RawExpr.and (expr_items (x ∷ y ∷ ys)) (items_span expr_span x (y ∷ ys))

unfoldable pub join_or : RawExpr → List RawExpr → RawExpr
join_or x [] = x
join_or x (y ∷ ys) = RawExpr.or (expr_items (x ∷ y ∷ ys)) (items_span expr_span x (y ∷ ys))

-- Implicit `AND`: the next token can start a new unary.
unfoldable pub starts_unary : TokenKind → Bool
starts_unary (word t w) = true
starts_unary (quoted t) = true
starts_unary l_paren = true
starts_unary kw_not = true
starts_unary _ = false

unfoldable pub empty_term : Span → Diagnostic
empty_term = diag_error "lang/empty-term" (lit "empty term" ∷ [])

unfoldable pub parse_predicate_or_term :
    Env → Token → Text → Bool → ParserState → List Token → Outcome (RawExpr × ParserState)
unfolding empty_term
parse_predicate_or_term env t w wildcard s [] =
    if text_eq w [] then err (empty_term t.span) else ok (RawExpr.term w wildcard t.span, s)
parse_predicate_or_term env t w wildcard s (n ∷ ts) =
    if is_cmp_op n.kind
    then parse_predicate env (record { text = w; span = t.span }) n (record s { tokens = ts })
    else if text_eq w []
    then err (empty_term t.span)
    else ok (RawExpr.term w wildcard t.span, s)

abbrev expression_expected : String
expression_expected = "a term, phrase, field predicate, or `(`"

-- `parse_or` and the `parse_and` in it, over `parse_unary`.
abbrev pub or_over : Parser RawExpr → Parser RawExpr
or_over unary = or_of join_or (and_of starts_unary join_and unary)

unfoldable pub unbalanced : Span → Diagnostic
unbalanced span =
    with_expected (diag_error "lang/unbalanced-paren" (lit "missing closing `)`" ∷ []) span) "`)`"

unfoldable pub parse_paren : Env → Parser RawExpr → Span → Parser RawExpr
parse_paren env unary span = do
  enter env span
  inner ← or_over unary
  leave
  close_paren unbalanced env
  pure inner

unfoldable pub parse_not : Env → Parser RawExpr → Span → Parser RawExpr
parse_not env unary span = do
  enter env span
  inner ← unary
  leave
  pure (RawExpr.not inner (merge span (expr_span inner)))

unfoldable pub regex_needs_field : Span → Diagnostic
regex_needs_field span =
    with_hint
      (diag_error "lang/regex-needs-field"
        (lit "a regex must be attached to a field, e.g. message:/timeout/" ∷ []) span)
      "write `message:/pattern/` to search the message text"

unfoldable pub unexpected : TokenKind → Span → String → Diagnostic
unexpected k span expected =
    with_expected (diag_error "lang/unexpected-token" (lit "unexpected " ∷ describe k) span)
      expected

-- `parse_unary` and `parse_primary` at the token `t`, by its kind; `s` is the state behind it.
unfoldable pub unary_kind : Env → Parser RawExpr → Token → TokenKind → Parser RawExpr
unary_kind env unary t kw_not s = parse_not env unary t.span s
unary_kind env unary t l_paren s = parse_paren env unary t.span s
unary_kind env unary t (quoted w) s = ok (RawExpr.phrase w t.span, s)
unary_kind env unary t (word w wildcard) s = parse_predicate_or_term env t w wildcard s s.tokens
unary_kind env unary t (regex pattern ci) s = err (regex_needs_field t.span)
unary_kind env unary t other s = err (unexpected other t.span expression_expected)

unfoldable pub unexpected_end : Env → Diagnostic
unexpected_end env =
    with_expected
      (diag_error "lang/unexpected-end" (lit "expected an expression" ∷ []) env.end_span)
      expression_expected

unfoldable pub unary_at :
    Env → Parser RawExpr → ParserState → List Token → Outcome (RawExpr × ParserState)
unfolding unexpected_end
unary_at env unary s [] = err (unexpected_end env)
unary_at env unary s (t ∷ ts) = unary_kind env unary t t.kind (record s { tokens = ts })

-- `parse_unary`
unfoldable pub parse_unary : Env → ℕ → Parser RawExpr
parse_unary env zero s = out_of_fuel
parse_unary env (suc fuel) s = unary_at env (parse_unary env fuel) s s.tokens

-- `parse_or`
unfoldable pub parse_or : Env → Parser RawExpr
parse_or env s = or_over (parse_unary env (suc (length s.tokens))) s
