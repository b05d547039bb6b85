-- ===== src/QueryLang/Analysis.antt =====
-- `analyze` (crates/logscope-query-lang/src/lib.rs): the lexer, the parser and the resolver in a row.
pub mod Exact
mod Tests
use log_scope.Prelude.{
  Bool, true, false, ◌||◌, List, [], ◌∷◌, ◌++◌, Option, none, some, if◌then◌else◌,
}
use log_scope.Text.{Text}
use log_scope.QueryLang.Diag.{Diagnostic, is_error, LangLimits}
use log_scope.QueryLang.Token.{Token, HighlightSpan, highlight}
use log_scope.QueryLang.Lexer.{lex}
use log_scope.QueryLang.Parser.{ParseOutcome, parse}
use log_scope.QueryLang.Resolve.Typed.{CatalogView, ResolvedQuery}
use log_scope.QueryLang.Resolve.Engine.{Engine}
use log_scope.QueryLang.Resolve.Exprs.{ResolveResult, ok, err, resolve}

pub record Analysis (F : Type 0) : Type 0 where
  pub tokens : List Token
  pub highlights : List HighlightSpan
  pub diagnostics : List Diagnostic
  pub resolved : Option (ResolvedQuery F)

-- `diagnostics.iter().any(Diagnostic::is_error)`
abbrev pub any_error : List Diagnostic → Bool
any_error [] = false
any_error (d ∷ ds) = is_error d || any_error ds

module _ {F : Type 0} where
  abbrev stopped : List Token → List Diagnostic → Analysis F
  stopped tokens diagnostics = record {
    tokens = tokens;
    highlights = highlight tokens;
    diagnostics = diagnostics;
    resolved = none;
  }

  -- The match on the result of `resolve`.
  unfoldable pub analysis_of : List Token → List Diagnostic → ResolveResult F → Analysis F
  analysis_of tokens diagnostics (ok q) = record {
    tokens = tokens;
    highlights = highlight tokens;
    diagnostics = diagnostics ++ q.warnings;
    resolved = some q;
  }
  analysis_of tokens diagnostics (err errors) = stopped tokens (diagnostics ++ errors)

module _ {F : Type 0} (catalog : CatalogView) (x : Engine F) (limits : LangLimits) where
  -- What follows the parser; running out of its fuel stands apart.
  unfoldable pub analyze_parsed :
      List Token → List Diagnostic → Option ParseOutcome → Option (Analysis F)
  unfolding analysis_of
  analyze_parsed tokens diagnostics none = none
  analyze_parsed tokens diagnostics (some parsed) =
      let all = diagnostics ++ parsed.diagnostics in
      if any_error all
      then some (stopped tokens all)
      else some (analysis_of tokens all (resolve catalog x limits parsed.ast))

  -- What follows the lexer.
  unfoldable pub analyze_tokens : Text → List Token × List Diagnostic → Option (Analysis F)
  unfolding analyze_parsed
  analyze_tokens text (tokens, diagnostics) =
      if any_error diagnostics
      then some (stopped tokens diagnostics)
      else analyze_parsed tokens diagnostics (parse tokens text limits)

  unfoldable pub analyze : Text → Option (Analysis F)
  unfolding analyze_tokens
  analyze text = analyze_tokens text (lex text limits)
