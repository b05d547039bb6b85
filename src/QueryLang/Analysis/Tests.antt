-- ===== src/QueryLang/Analysis/Tests.antt =====
-- A run of `analyze`, and its theorem at it.
use log_scope.Prelude.{ℕ, ◌≡◌, some}
use log_scope.Text.{Text, codes}
use log_scope.QueryLang.Diag.{default_limits}
use log_scope.QueryLang.Lexer.{lex}
use log_scope.QueryLang.Resolve.Samples.{one_attr, plain_engine}
use log_scope.QueryLang.Analysis.{Analysis, analyze}
use log_scope.QueryLang.Analysis.Exact.{Shows, Analysed, analyze-Analysed}

abbrev query : Text
query = codes "severity:error AND NOT host:web-*"

analyze-Analysed_example :
    (a : Analysis ℕ) × (analyze one_attr plain_engine default_limits query ≡ some a)
    × Shows (lex query default_limits).0 a
    × Analysed one_attr plain_engine default_limits
        (lex query default_limits).0
        (lex query default_limits).1
        a
analyze-Analysed_example = analyze-Analysed one_attr plain_engine default_limits query
