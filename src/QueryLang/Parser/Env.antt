-- ===== src/QueryLang/Parser/Env.antt =====
-- The cursor, the nesting depth and the closing parenthesis of the parser
-- (crates/logscope-query-lang/src/parse.rs).
use log_scope.Prelude.{◌+◌, ◌-◌, List, [], ◌∷◌, ltb, if◌then◌else◌}
use log_scope.QueryLang.Diag.{Span, lit, number, Diagnostic, diag_error, LangLimits}
use log_scope.QueryLang.Token.{Token}
use log_scope.QueryLang.Parser.Results.{Outcome, ok, err, ParserState, Parser}
use log_scope.QueryLang.Parser.Loops.{is_r_paren}

-- The parser's fields that do not change.
pub record Env : Type 0 where
  pub limits : LangLimits
  pub end_span : Span

-- `Parser::here`
unfoldable pub here : Env → List Token → Span
here env [] = env.end_span
here env (t ∷ ts) = t.span

unfoldable pub too_deep : Env → Span → Diagnostic
too_deep env span =
    diag_error "lang/too-deep"
      (lit "query nesting exceeds " ∷ number env.limits.max_depth ∷ lit " levels" ∷ []) span

-- `Parser::enter`
unfoldable pub enter : Env → Span → Parser (Unit {0})
unfolding too_deep
enter env span s =
    if ltb env.limits.max_depth (s.depth + 1)
    then err (too_deep env span)
    else ok (tt, record s { depth = s.depth + 1 })

-- `Parser::leave`
unfoldable pub leave : Parser (Unit {0})
leave s = ok (tt, record s { depth = s.depth - 1 })

unfoldable pub close_paren_at :
    (Span → Diagnostic) → Env → ParserState → List Token → Outcome (Span × ParserState)
close_paren_at missing env s [] = err (missing env.end_span)
close_paren_at missing env s (t ∷ ts) =
    if is_r_paren t.kind then ok (t.span, record s { tokens = ts }) else err (missing t.span)

-- The match on `)` behind a group, which `bump`s it.
unfoldable pub close_paren : (Span → Diagnostic) → Env → Parser Span
unfolding close_paren_at
close_paren missing env s = close_paren_at missing env s s.tokens
