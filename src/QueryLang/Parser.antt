-- ===== src/QueryLang/Parser.antt =====
-- The recursive-descent parser of crates/logscope-query-lang/src/parse.rs. The parser's `tokens`
-- and `pos` are the tokens that are left. The expression grammar and the value grammar have the
-- same two loops, which are written once, over the parser of one item. Each loop takes a unit of
-- fuel for each token left, and so does the recursion of the unary parsers.
pub mod Results
pub mod Loops
pub mod Env
pub mod Values
pub mod Exprs
pub mod Grammar
pub mod Meets
pub mod SoundLoops
pub mod SoundValues
pub mod SoundGroups
pub mod SoundExprs
pub mod SoundQuery
pub mod CompleteLoops
pub mod CompleteOr
pub mod CompleteValues
pub mod CompleteGroups
pub mod CompleteExprs
pub mod Exact
use log_scope.Prelude.{ℕ, Option, none, some, List, [], ◌∷◌}
use log_scope.Text.{Text, u32, utf8_len, utf16_len}
use log_scope.QueryLang.Diag.{Span, Diagnostic, diag_error, with_expected, LangLimits}
use log_scope.QueryLang.Token.{Token}
use log_scope.QueryLang.Ast.{RawExpr}
use Results.{Outcome, ok, err, out_of_fuel, ParserState, Parser}
use Exprs.{parse_or, unexpected}

-- The query ends where the expression does.
unfoldable pub finish_query : RawExpr → List Token → Outcome RawExpr
unfolding unexpected
finish_query e [] = ok e
finish_query e (t ∷ ts) = err (unexpected t.kind t.span "AND, OR, or end of query")

abbrev pub then_finish : Outcome (RawExpr × ParserState) → Outcome RawExpr
then_finish (ok (e, s)) = finish_query e s.tokens
then_finish (err d) = err d
then_finish out_of_fuel = out_of_fuel

-- `parse_query`
unfoldable pub parse_query : Env.Env → List Token → Outcome RawExpr
parse_query env tokens = then_finish (parse_or env (record { tokens = tokens; depth = 0 }))

pub record ParseOutcome : Type 0 where
  pub ast : Option RawExpr
  pub diagnostics : List Diagnostic

-- The parser's `end_span`, behind the last character.
unfoldable pub end_span : Text → Span
end_span text = record {
  start = u32 (utf8_len text);
  end = u32 (utf8_len text);
  start_utf16 = u32 (utf16_len text);
  end_utf16 = u32 (utf16_len text);
}

-- What `parse` makes of the result of `parse_query`; running out of fuel stands apart.
unfoldable pub parse_outcome : Outcome RawExpr → Option ParseOutcome
parse_outcome (ok e) = some (record { ast = some e; diagnostics = [] })
parse_outcome (err d) = some (record { ast = none; diagnostics = d ∷ [] })
parse_outcome out_of_fuel = none

-- `parse`
unfoldable pub parse : List Token → Text → LangLimits → Option ParseOutcome
unfolding parse_query parse_outcome end_span
parse [] text limits = some (record { ast = none; diagnostics = [] })
parse (t ∷ ts) text limits =
    parse_outcome (parse_query (record { limits = limits; end_span = end_span text }) (t ∷ ts))
