-- ===== src/QueryLang/Parser/Values.antt =====
-- Values and the value groups of the parser (crates/logscope-query-lang/src/parse.rs).
use log_scope.Prelude.{
  ℕ, zero, suc, String, Bool, true, false, List, [], ◌∷◌, if◌then◌else◌, length, last_or,
}
use log_scope.Text.{Text, codes, text_eq}
use log_scope.QueryLang.Diag.{
  Span, merge, lit, text, Message, Diagnostic, diag_error, with_expected, with_hint,
}
use log_scope.QueryLang.Token.{TokenKind, Token, word, quoted, regex, l_paren, kw_not, describe}
use log_scope.QueryLang.Ast.{
  RawValue, CmpOp, describe_op, RawValueExpr, RawField, value_expr_span, value_items,
}
use log_scope.QueryLang.Parser.Results.{
  Outcome, ok, err, out_of_fuel, ParserState, Parser, pure, fail, ◌>>=◌, ◌>>◌,
}
use log_scope.QueryLang.Parser.Loops.{and_of, or_of}
use log_scope.QueryLang.Parser.Env.{Env, enter, leave, close_paren}

unfoldable pub missing_value : Text → Message → Span → Diagnostic
missing_value field found span =
    diag_error "lang/missing-value" (lit "`" ∷ text field ∷ lit "` needs a value" ∷ found) span

abbrev value_expected : String
value_expected = "a value, quoted string, `*`, or /regex/"

unfoldable pub op_is_eq : CmpOp → Bool
op_is_eq CmpOp.eq = true
op_is_eq _ = false

-- A word in value position, which is no longer at the cursor.
unfoldable pub word_value : RawField → CmpOp → Text → Bool → Span → Parser RawValue
unfolding op_is_eq missing_value
word_value field op t wildcard span s =
    if text_eq t (codes "*")
    then (if op_is_eq op
        then ok (RawValue.star span, s)
        else err (
            with_hint
              (diag_error "lang/exists-op"
                (lit "existence `*` only combines with `:`, not `"
                  ∷ lit (describe_op op)
                  ∷ lit "`"
                  ∷ [])
                span)
              "use `field:*` (exists) or `NOT field:*` (missing)"))
    else if text_eq t []
    then err (missing_value field.text [] span)
    else ok (RawValue.word t wildcard span, s)

unfoldable pub regex_value : CmpOp → Text → Bool → Span → Parser RawValue
unfolding op_is_eq
regex_value op pattern ci span s =
    if op_is_eq op
    then ok (RawValue.regex pattern ci span, s)
    else err (
        with_hint
          (diag_error "lang/regex-op"
            (lit "regex only combines with `:` or `=`, not `" ∷ lit (describe_op op) ∷ lit "`" ∷ [])
            span)
          "use NOT field:/pattern/ to negate a regex match")

-- By the kind of the token at the cursor; `s` is the state behind that token.
unfoldable pub parse_value_kind : RawField → CmpOp → Span → TokenKind → Parser RawValue
unfolding word_value regex_value missing_value
parse_value_kind field op span (word t wildcard) = word_value field op t wildcard span
parse_value_kind field op span (quoted t) = pure (RawValue.quoted t span)
parse_value_kind field op span (regex pattern ci) = regex_value op pattern ci span
parse_value_kind field op span other =
    fail (
      with_expected (missing_value field.text (lit ", found " ∷ describe other) span)
        value_expected)

unfoldable pub parse_value_at :
    Env → RawField → CmpOp → ParserState → List Token → Outcome (RawValue × ParserState)
unfolding missing_value
parse_value_at env field op s [] =
    err (with_expected (missing_value field.text [] env.end_span) value_expected)
parse_value_at env field op s (t ∷ ts) =
    parse_value_kind field op t.span t.kind (record s { tokens = ts })

-- `parse_value`
unfoldable pub parse_value : Env → RawField → CmpOp → Parser RawValue
unfolding parse_value_at
parse_value env field op s = parse_value_at env field op s s.tokens

-- `Span::merge(items[0].span(), items[items.len() - 1].span())`
unfoldable pub items_span {ℓ} : {A : Type ℓ} → (A → Span) → A → List A → Span
items_span span x xs = merge (span x) (span (last_or x xs))

-- One item stands for itself.
-- One item stands for itself.
unfoldable pub join_value_and : RawValueExpr → List RawValueExpr → RawValueExpr
join_value_and x [] = x
join_value_and x (y ∷ ys) =
    RawValueExpr.and (value_items (x ∷ y ∷ ys)) (items_span value_expr_span x (y ∷ ys))

unfoldable pub join_value_or : RawValueExpr → List RawValueExpr → RawValueExpr
join_value_or x [] = x
join_value_or x (y ∷ ys) =
    RawValueExpr.or (value_items (x ∷ y ∷ ys)) (items_span value_expr_span x (y ∷ ys))

unfoldable pub starts_value_unary : TokenKind → Bool
starts_value_unary (word t w) = true
starts_value_unary (quoted t) = true
starts_value_unary (regex p ci) = true
starts_value_unary l_paren = true
starts_value_unary kw_not = true
starts_value_unary _ = false

-- `parse_value_or` and the `parse_value_and` in it, over `parse_value_unary`.
abbrev pub value_or_of : Parser RawValueExpr → Parser RawValueExpr
value_or_of unary = or_of join_value_or (and_of starts_value_unary join_value_and unary)

unfoldable pub group_unbalanced : Span → Diagnostic
group_unbalanced =
    diag_error "lang/unbalanced-paren" (lit "missing closing `)` in field group" ∷ [])

-- By the kind of the token at the cursor; `s` is the state at it and `after` the state behind it.
unfoldable pub value_unary_kind :
    Env
    → RawField
    → Parser RawValueExpr
    → ParserState
    → ParserState
    → Span
    → TokenKind
    → Outcome (RawValueExpr × ParserState)
value_unary_kind env field unary s after span kw_not =
    (do
      enter env span
      inner ← unary
      leave
      pure (RawValueExpr.not inner (merge span (value_expr_span inner))))
      after
value_unary_kind env field unary s after span l_paren =
    (do
      enter env span
      inner ← value_or_of unary
      leave
      close_paren group_unbalanced env
      pure inner)
      after
value_unary_kind env field unary s after span _ =
    (do v ← parse_value env field CmpOp.eq; pure (RawValueExpr.value v)) s

unfoldable pub value_unary_at :
    Env
    → RawField
    → Parser RawValueExpr
    → ParserState
    → List Token
    → Outcome (RawValueExpr × ParserState)
value_unary_at env field unary s [] =
    (do v ← parse_value env field CmpOp.eq; pure (RawValueExpr.value v)) s
value_unary_at env field unary s (t ∷ ts) =
    value_unary_kind env field unary s (record s { tokens = ts }) t.span t.kind

-- `parse_value_unary`
unfoldable pub parse_value_unary : Env → RawField → ℕ → Parser RawValueExpr
parse_value_unary env field zero s = out_of_fuel
parse_value_unary env field (suc fuel) s =
    value_unary_at env field (parse_value_unary env field fuel) s s.tokens

-- `parse_value_or`
unfoldable pub parse_value_or : Env → RawField → Parser RawValueExpr
parse_value_or env field s = value_or_of (parse_value_unary env field (suc (length s.tokens))) s
