-- ===== src/QueryLang/Analysis/Exact.antt =====
-- What `analyze` returns for every query text.
use log_scope.Prelude.{
  ◌≡◌, refl, ap, ◌∙◌, inl, inr, true, false, Bool-cases, ◌||◌, List, [], ◌∷◌, ◌++◌, Option, none,
  some, append-nil, ◌≤◌, arith,
}
use log_scope.Text.{Text}
use log_scope.QueryLang.Diag.{Diagnostic, LangLimits}
use log_scope.QueryLang.Ast.{RawExpr}
use log_scope.QueryLang.Token.{Token, highlight}
use log_scope.QueryLang.Lexer.{lex}
use log_scope.QueryLang.Parser.Grammar.{QueryForm}
use log_scope.QueryLang.Parser.Exact.{Parsed, parse-Parsed}
use log_scope.QueryLang.Parser.{ParseOutcome}
use log_scope.QueryLang.Resolve.Typed.{CatalogView, ResolvedQuery}
use log_scope.QueryLang.Resolve.Engine.{Engine}
use log_scope.QueryLang.Resolve.Exprs.{ResolveResult, err, resolve}
use log_scope.QueryLang.Resolve.Meaning.{Means, leaves}
use log_scope.QueryLang.Resolve.Outcome.{Warnings, Resolved, resolve-Resolved}
use log_scope.QueryLang.Analysis.{
  Analysis, any_error, analysis_of, analyze_parsed, analyze_tokens, analyze,
}

any_error-append : (ds es : List Diagnostic) → any_error (ds ++ es) ≡ (any_error ds || any_error es)
any_error-append [] es = refl
any_error-append (d ∷ ds) es = ground (arith, any_error-append ds es)

Warnings-any_error : (ds : List Diagnostic) → Warnings ds → any_error ds ≡ false
Warnings-any_error [] h = refl
Warnings-any_error (d ∷ ds) (h, hs) = rw (h, Warnings-any_error ds hs) refl

-- The tokens are the lexer's, and highlighted.
abbrev pub Shows : {F : Type 0} → List Token → Analysis F → Type 0
Shows tokens a = (a.tokens ≡ tokens) × (a.highlights ≡ highlight tokens)

module _ {F : Type 0} (catalog : CatalogView) (x : Engine F) (limits : LangLimits) where
  -- The typed query that an error-free token list gives: all records for no tokens, or what the
  -- tree of the grammar means.
  pub data Query (tokens : List Token) (q : ResolvedQuery F) : Type 0 where
    all_records : tokens ≡ [] → q.expr ≡ none → Query tokens q
    tree :
        (e : RawExpr)
        → QueryForm limits.max_depth tokens e
        → leaves e ≤ limits.max_clauses
        → ((r : _) × (q.expr ≡ some r) × Means catalog x limits e r)
        → Query tokens q

  -- Why there is no query: the lexer's error, a token list that the grammar does not derive, or
  -- the resolver's errors on its tree.
  pub data Reason (tokens : List Token) (lexed : List Diagnostic) : Type 0 where
    by_lexer : any_error lexed ≡ true → Reason tokens lexed
    by_parser : ((e : RawExpr) → ¬ QueryForm limits.max_depth tokens e) → Reason tokens lexed
    by_resolver :
        (e : RawExpr)
        → QueryForm limits.max_depth tokens e
        → (errors : List Diagnostic) → resolve catalog x limits (some e) ≡ err errors
        → Reason tokens lexed

  pub data Analysed (tokens : List Token) (lexed : List Diagnostic) (a : Analysis F) : Type 0 where
    accepted :
        (q : ResolvedQuery F)
        → a.resolved ≡ some q
        → any_error a.diagnostics ≡ false
        → Query tokens q
        → Analysed tokens lexed a
    rejected :
        a.resolved ≡ none
        → any_error a.diagnostics ≡ true
        → Reason tokens lexed
        → Analysed tokens lexed a

  module _ (tokens : List Token) (lexed : List Diagnostic) (clean : any_error lexed ≡ false) where
    quiet : (ds : List Diagnostic) → any_error (lexed ++ ds) ≡ any_error ds
    quiet ds = any_error-append lexed ds ∙ ap (λ b. b || any_error ds) clean

    analysis_of-empty :
        (r : ResolveResult F)
        → tokens ≡ []
        → Resolved catalog x limits none r
        → Shows tokens (analysis_of tokens lexed r)
          × Analysed tokens lexed (analysis_of tokens lexed r)
    unfolding analysis_of
    analysis_of-empty _ empty (Resolved.everything {q} all _ ws) = (
      (refl, refl),
      accepted q refl (quiet q.warnings ∙ Warnings-any_error q.warnings ws) (all_records empty all),
    )

    analysis_of-tree :
        (e : RawExpr) (r : ResolveResult F)
        → QueryForm limits.max_depth tokens e
        → resolve catalog x limits (some e) ≡ r
        → Resolved catalog x limits (some e) r
        → Shows tokens (analysis_of tokens lexed r)
          × Analysed tokens lexed (analysis_of tokens lexed r)
    unfolding analysis_of
    analysis_of-tree e _ form is (Resolved.typed {q} same _ means few ws) = (
      (refl, refl),
      accepted q refl (quiet q.warnings ∙ Warnings-any_error q.warnings ws)
          (tree e form few (_, same, means)),
    )
    analysis_of-tree e _ form is (Resolved.refused {d} {ds} (h, hs)) = (
      (refl, refl),
      rejected refl (quiet (d ∷ ds) ∙ ap (λ b. b || any_error ds) h)
          (by_resolver e form (d ∷ ds) is),
    )

    analyze_parsed-Analysed :
        (o : Option ParseOutcome) (r : ParseOutcome)
        → o ≡ some r
        → Parsed limits tokens r
        → (a : Analysis F) × (analyze_parsed catalog x limits tokens lexed o ≡ some a)
          × Shows tokens a
          × Analysed tokens lexed a
    unfolding analyze_parsed
    analyze_parsed-Analysed o r is (Parsed.empty_query empty no_tree none_said) =
        rw (is, none_said, append-nil lexed, clean, no_tree)
          (let (shows, analysed) =
              analysis_of-empty _ empty (resolve-Resolved catalog x limits none) in
            (_, refl, shows, analysed))
    analyze_parsed-Analysed o r is (Parsed.accepted e form tree_is none_said) =
        rw (is, none_said, append-nil lexed, clean, tree_is)
          (let (shows, analysed) =
              analysis_of-tree e _ form refl (resolve-Resolved catalog x limits (some e)) in
            (_, refl, shows, analysed))
    analyze_parsed-Analysed o r is (Parsed.rejected d bad no_form no_tree said) =
        let found : any_error (lexed ++ d ∷ []) ≡ true =
          quiet (d ∷ []) ∙ ap (λ b. b || false) bad in
        rw (is, said, found) (_, refl, (refl, refl), rejected refl found (by_parser no_form))

-- For every text `analyze` returns, with the lexer's tokens and their highlights. There is a typed
-- query exactly when no diagnostic is an error, and it is what the grammar's tree of the tokens
-- means against the catalog.
pub analyze-Analysed :
    {F : Type 0} (catalog : CatalogView) (x : Engine F) (limits : LangLimits) (text : Text)
    → (a : Analysis F) × (analyze catalog x limits text ≡ some a)
      × Shows (lex text limits).0 a
      × Analysed catalog x limits (lex text limits).0 (lex text limits).1 a
unfolding analyze analyze_tokens
analyze-Analysed catalog x limits text = elim (Bool-cases (any_error (lex text limits).1)) [
  | inl e ↦ rw e (_, refl, (refl, refl), rejected refl e (by_lexer e))
  | inr e ↦
      let (r, is, parsed) = parse-Parsed (lex text limits).0 text limits in
      rw e (analyze_parsed-Analysed catalog x limits _ _ e _ r is parsed)
]
