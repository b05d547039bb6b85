-- ===== src/QueryLang/Parser/Exact.antt =====
-- `parse` accepts exactly the grammar, and always returns.
use log_scope.Prelude.{
  ℕ, ◌≡◌, ◌↔◌, ◌∙◌, refl, sym, true, List, [], ◌∷◌, ◌++◌, none, some, append-nil, arith, subst,
}
use log_scope.Text.{Text}
use log_scope.QueryLang.Diag.{Diagnostic, is_error, LangLimits}
use log_scope.QueryLang.Token.{Token, starts_cmp_op}
use log_scope.QueryLang.Ast.{RawExpr}
use log_scope.QueryLang.Parser.Results.{Outcome, ok, err, out_of_fuel, ParserState}
use log_scope.QueryLang.Parser.Env.{Env}
use log_scope.QueryLang.Parser.Exprs.{starts_unary}
use log_scope.QueryLang.Parser.Grammar.{QueryForm}
use log_scope.QueryLang.Parser.Meets.{Meets, met, refused, Meets-ok, Meets-err, Meets-total, Reads}
use log_scope.QueryLang.Parser.SoundQuery.{parse_or-Reads}
use log_scope.QueryLang.Parser.CompleteLoops.{state, EndsOr}
use log_scope.QueryLang.Parser.CompleteExprs.{parse_or-eq}
use log_scope.QueryLang.Parser.{
  finish_query, then_finish, parse_query, ParseOutcome, end_span, parse_outcome, parse,
}

-- What a query that was read leaves is the whole of it.
finish_query-Meets :
    (k : ℕ) (ts us : List Token) (e : RawExpr) (rest : List Token)
    → ts ≡ us ++ rest
    → QueryForm k us e
    → Meets (QueryForm k ts) (finish_query e rest)
unfolding finish_query
finish_query-Meets k ts us e [] split f =
    met (subst (λ l. QueryForm k l e) (sym (split ∙ append-nil us)) f)
finish_query-Meets k ts us e (t ∷ rest) split f = refused refl

then_finish-Meets :
    (k : ℕ) (ts : List Token) (d : ℕ) {o : Outcome (RawExpr × ParserState)}
    → Meets (Reads (QueryForm k) ts d) o
    → Meets (QueryForm k ts) (then_finish o)
then_finish-Meets k ts d (met {a = a} r) =
    finish_query-Meets k ts r.taken a.0 a.1.tokens r.splits r.form
then_finish-Meets k ts d (refused h) = refused h

pub parse_query-Meets :
    (env : Env) (ts : List Token) → Meets (QueryForm env.limits.max_depth ts) (parse_query env ts)
unfolding parse_query
parse_query-Meets env ts =
    then_finish-Meets env.limits.max_depth ts 0
      (parse_or-Reads env (state ts 0) env.limits.max_depth (omega arith))

nil-EndsOr : EndsOr starts_unary []
unfolding starts_cmp_op
nil-EndsOr = record { ends_and = record { no_cmp = refl; no_and = refl }; no_or = refl }

pub parse_query_complete :
    (env : Env) (ts : List Token) (e : RawExpr)
    → QueryForm env.limits.max_depth ts e
    → parse_query env ts ≡ ok e
unfolding parse_query finish_query
parse_query_complete env ts e f = rw (
    rw (append-nil ts) at
      (parse_or-eq env env.limits.max_depth 0 ts [] e (omega arith) f nil-EndsOr))

-- A token list is parsed to a tree exactly when the grammar derives it, the nesting included.
pub parse_query_iff :
    (env : Env) (ts : List Token) (e : RawExpr)
    → (parse_query env ts ≡ ok e) ↔ QueryForm env.limits.max_depth ts e
parse_query_iff env ts e =
    (λ h. Meets-ok (parse_query-Meets env ts) h, parse_query_complete env ts e)

-- What `parse` may return: no tree and nothing said for no tokens, and otherwise a tree that the
-- grammar derives, or no tree and one diagnostic where the grammar derives none.
pub data Parsed (limits : LangLimits) (ts : List Token) (o : ParseOutcome) : Type 0 where
  empty_query : ts ≡ [] → o.ast ≡ none → o.diagnostics ≡ [] → Parsed limits ts o
  accepted :
      (e : RawExpr)
      → QueryForm limits.max_depth ts e
      → o.ast ≡ some e
      → o.diagnostics ≡ []
      → Parsed limits ts o
  rejected :
      (d : Diagnostic)
      → is_error d ≡ true
      → ((e : RawExpr) → ¬ QueryForm limits.max_depth ts e)
      → o.ast ≡ none
      → o.diagnostics ≡ d ∷ []
      → Parsed limits ts o

parse_outcome-Parsed :
    (env : Env) (ts : List Token) (o : Outcome RawExpr)
    → parse_query env ts ≡ o
    → (r : ParseOutcome) × (parse_outcome o ≡ some r) × Parsed env.limits ts r
unfolding parse_outcome
parse_outcome-Parsed env ts (ok e) h =
    (_, refl, accepted e ((parse_query_iff env ts e).0 h) refl refl)
parse_outcome-Parsed env ts (err d) h = (
  _,
  refl,
  rejected d (Meets-err (parse_query-Meets env ts) h)
      (λ e f. cc (h, parse_query_complete env ts e f)) refl refl,
)
parse_outcome-Parsed env ts out_of_fuel h = absurd (Meets-total (parse_query-Meets env ts) h)

-- For every token list `parse` returns, with the tree that the grammar derives or with exactly one
-- diagnostic where it derives none.
pub parse-Parsed :
    (ts : List Token) (text : Text) (limits : LangLimits)
    → (r : ParseOutcome) × (parse ts text limits ≡ some r) × Parsed limits ts r
unfolding parse
parse-Parsed [] text limits = (_, refl, empty_query refl refl refl)
parse-Parsed (t ∷ ts) text limits =
    parse_outcome-Parsed (record { limits = limits; end_span = end_span text }) (t ∷ ts) _ refl
