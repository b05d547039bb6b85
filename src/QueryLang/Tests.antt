-- ===== src/QueryLang/Tests.antt =====
-- Runs of the query language on small queries, and its theorems at concrete inputs.
use log_scope.Prelude.{
  ℕ, ◌≡◌, ◌↔◌, ◌++◌, refl, true, false, List, [], ◌∷◌, some, arith, map, length,
}
use log_scope.Text.{Text, codes, is_whitespace, len_utf8, utf8_len, utf16_len, text_eq}
use log_scope.QueryLang.Diag.{Span, default_limits, merge}
use log_scope.QueryLang.Token.{TokenKind, Token, word, colon, HighlightSpan, field, highlight}
use log_scope.QueryLang.Ast.{RawExpr, CmpOp, value_span, expr_span}
use log_scope.QueryLang.Lexer.Scan.{origin, scan_word, is_word_char}
use log_scope.QueryLang.Lexer.Spans.{Spaced, lex-Spaced, lex_loop-consumes}
use log_scope.QueryLang.Lexer.Words.{has_wildcard, scan_word-source}
use log_scope.QueryLang.Lexer.{lex, lex_loop, lex_start, unescape_word}
use log_scope.QueryLang.Highlight.{FieldAt, highlight-FieldAt, highlight-span}
use log_scope.QueryLang.Parser.Results.{ok}
use log_scope.QueryLang.Parser.Grammar.{QueryForm}
use log_scope.QueryLang.Parser.Exact.{Parsed, parse_query_iff, parse-Parsed}
use log_scope.QueryLang.Parser.Loops.{and_of, or_of}
use log_scope.QueryLang.Parser.Env.{Env, enter, leave}
use log_scope.QueryLang.Parser.Exprs.{
  parse_or, parse_unary, unary_at, unary_kind, parse_not, parse_predicate_or_term, join_or,
  join_and,
}
use log_scope.QueryLang.Parser.{ParseOutcome, end_span, finish_query, parse_query, parse}
use log_scope.QueryLang.Format.RoundTrip.{value_kind, token_of, lex-format_value}
use log_scope.QueryLang.Format.Predicate.{value_tree, parse-format_predicate}
use log_scope.QueryLang.Format.{bare_safe, format_value, format_predicate}

abbrev query : Text
query = codes "a\\*b:/x\\/y/i AND NOT \"q\\n\""

abbrev query_tokens : List Token
query_tokens = (lex query default_limits).0

abbrev kinds : Text → List TokenKind
kinds text = map (λ (t : Token). t.kind) (lex text default_limits).0

token_sequence :
    kinds query
    ≡ word (codes "a\\*b") false
      ∷ colon
      ∷ TokenKind.regex (codes "x/y") true
      ∷ TokenKind.kw_and
      ∷ TokenKind.kw_not
      ∷ TokenKind.quoted (codes "q\n")
      ∷ []
unfolding lex
token_sequence = refl

-- White space does not end a regex position, and a keyword in other case is a word.
spaced_regex :
    kinds (codes "m: /a/ or")
    ≡ word (codes "m") false
      ∷ colon
      ∷ TokenKind.regex (codes "a") false
      ∷ word (codes "or") false
      ∷ []
unfolding lex
spaced_regex = refl

-- A field name with a space is written as it stands, and does not read back as one field.
field_with_space :
    kinds (format_predicate (codes "a b") (codes "c"))
    ≡ word (codes "a") false ∷ word (codes "b") false ∷ colon ∷ word (codes "c") false ∷ []
unfolding lex format_predicate
field_with_space = refl

abbrev tests_env : Env
tests_env = record { limits = default_limits; end_span = end_span query }

abbrev span_of : ℕ → ℕ → Span
span_of a b = record { start = a; end = b; start_utf16 = a; end_utf16 = b }

-- NOT a
abbrev not_tokens : List Token
not_tokens =
    token_of TokenKind.kw_not (span_of 0 3) ∷ token_of (word (codes "a") false) (span_of 4 5) ∷ []

abbrev not_tree : RawExpr
not_tree = RawExpr.not (RawExpr.term (codes "a") false (span_of 4 5)) (span_of 0 5)

not_tree_parsed : parse_query tests_env not_tokens ≡ ok not_tree
unfolding parse_query finish_query parse_or parse_unary unary_at unary_kind parse_not enter leave
    parse_predicate_or_term or_of and_of join_or join_and expr_span merge text_eq
not_tree_parsed = refl

lex-Spaced_example :
    Spaced origin
      (lex query default_limits).0
      (record { byte = utf8_len query; utf16 = utf16_len query })
lex-Spaced_example = lex-Spaced query default_limits (unfold utf8_len len_utf8 in omega arith)

lex_loop-consumes_example : (lex_loop default_limits (length query) (lex_start query)).chars ≡ []
lex_loop-consumes_example =
    lex_loop-consumes default_limits (length query) (lex_start query) (omega arith)

abbrev word_source : Text
word_source = codes "a\\*b*\\:c (d"

scan_word-source_example :
    (used : Text) × (word_source
      ≡ used ++ (scan_word origin word_source origin [] false false []).chars)
    × (unescape_word (scan_word origin word_source origin [] false false []).out
        ≡ unescape_word used)
    × ((scan_word origin word_source origin [] false false []).wildcard ≡ has_wildcard used)
    × (has_wildcard (scan_word origin word_source origin [] false false []).out ≡ has_wildcard used)
scan_word-source_example =
    scan_word-source word_source origin (unfold scan_word is_word_char is_whitespace in refl)

parse_query_iff_example :
    (parse_query tests_env not_tokens ≡ ok not_tree) ↔ QueryForm 32 not_tokens not_tree
parse_query_iff_example = parse_query_iff tests_env not_tokens not_tree

parse-Parsed_example :
    (r : ParseOutcome) × (parse query_tokens query default_limits ≡ some r)
    × Parsed default_limits query_tokens r
parse-Parsed_example = parse-Parsed query_tokens query default_limits

abbrev hostile : Text
hostile = codes "x\" OR level:debug NOT \\"

lex-format_value_example :
    (s : Span) × (lex (format_value hostile) default_limits
      ≡ (token_of (value_kind hostile) s ∷ [], []))
lex-format_value_example =
    lex-format_value hostile default_limits
      (unfold utf8_len len_utf8 format_value is_whitespace text_eq in omega arith) (omega arith)

parse-format_predicate_example :
    (a b c : Span) × (lex (format_predicate (codes "service.name") hostile) default_limits ≡ (
      token_of (word (codes "service.name") false) a
          ∷ token_of colon b
          ∷ token_of (value_kind hostile) c
          ∷ [],
      [],
    ))
    × (parse
          (lex (format_predicate (codes "service.name") hostile) default_limits).0
          (format_predicate (codes "service.name") hostile)
          default_limits
        ≡ some (record {
          ast = some (
              RawExpr.cmp
                (record { text = codes "service.name"; span = a })
                CmpOp.eq
                (value_tree hostile c)
                (merge a (value_span (value_tree hostile c))));
          diagnostics = [];
        }))
parse-format_predicate_example =
    parse-format_predicate (codes "service.name") hostile default_limits
      (unfold bare_safe is_whitespace text_eq in refl)
      (unfold utf8_len len_utf8 format_predicate is_whitespace text_eq in omega arith) (omega arith)

abbrev first_highlight : HighlightSpan
first_highlight = record {
  kind = field;
  span = record { start = 0; end = 4; start_utf16 = 0; end_utf16 = 4 };
}

highlight-FieldAt_example : (first_highlight.kind ≡ field) ↔ FieldAt query_tokens 0
highlight-FieldAt_example =
    highlight-FieldAt query_tokens 0 first_highlight (unfold lex highlight in refl)

highlight-span_example :
    map (λ (h : HighlightSpan). h.span) (highlight query_tokens)
    ≡ map (λ (t : Token). t.span) query_tokens
highlight-span_example = highlight-span query_tokens
