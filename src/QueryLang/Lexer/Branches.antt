-- ===== src/QueryLang/Lexer/Branches.antt =====
-- The branches of the lexer's token match (crates/logscope-query-lang/src/lex.rs).
use log_scope.Prelude.{
  ℕ, Bool, false, not, ◌&&◌, List, [], ◌∷◌, ◌++◌, ltb, ◌==◌, if◌then◌else◌, length,
}
use log_scope.Text.{Text, codes, text_eq}
use log_scope.QueryLang.Diag.{Diagnostic, diag_error, with_hint, lit, number, LangLimits}
use log_scope.QueryLang.Token.{TokenKind, Token, word, quoted, regex, ne, kw_and, kw_or, kw_not}
use log_scope.QueryLang.Lexer.Scan.{
  Pos, bump, span_from, scan_quoted, Pattern, scan_regex, Flags, scan_flags, Word, scan_word,
}

-- The variables of the outer loop.
pub record LexState : Type 0 where
  pub chars : Text
  pub pos : Pos
  pub tokens : List Token
  pub diags : List Diagnostic
  pub regex_position : Bool

-- A token whose text ends at the cursor (`rest`, `p`), with the diagnostics found inside it.
unfoldable pub push_token : LexState → Pos → TokenKind → List Diagnostic → Text → Pos → LexState
unfolding span_from
push_token s start k ds rest p = record s {
  chars = rest;
  pos = p;
  tokens = s.tokens ++ record { kind = k; span = span_from start p } ∷ [];
  diags = s.diags ++ ds;
}

-- A token of one character, after which a regex literal may start or not.
unfoldable pub lex_single : LexState → ℕ → Text → TokenKind → Bool → LexState
unfolding push_token bump
lex_single s c cs k regex_next =
    push_token (record s { regex_position = regex_next }) s.pos k [] cs (bump c s.pos)

-- `>` and `<`, with or without `=` behind them.
unfoldable pub lex_angle : LexState → ℕ → Text → TokenKind → TokenKind → LexState
unfolding push_token bump
lex_angle s c [] plain with_eq = push_token s s.pos plain [] [] (bump c s.pos)
lex_angle s c (d ∷ cs) plain with_eq =
    if d == b'='
    then push_token s s.pos with_eq [] cs (bump d (bump c s.pos))
    else push_token s s.pos plain [] (d ∷ cs) (bump c s.pos)

-- `!`, which is only valid as part of `!=`.
unfoldable pub bare_bang : LexState → ℕ → Text → LexState
unfolding bump span_from
bare_bang s c cs = record s {
  chars = cs;
  pos = bump c s.pos;
  diags =
      s.diags
      ++ (with_hint
            (diag_error "lang/unexpected-char" (lit "`!` is only valid as part of `!=`" ∷ [])
              (span_from s.pos (bump c s.pos)))
            "use `NOT` to negate an expression"
          ∷ []);
}

unfoldable pub lex_bang : LexState → ℕ → Text → LexState
unfolding push_token bump bare_bang
lex_bang s c [] = bare_bang s c []
lex_bang s c (d ∷ cs) =
    if d == b'='
    then push_token s s.pos ne [] cs (bump d (bump c s.pos))
    else bare_bang s c (d ∷ cs)

unfoldable pub unterminated_string : Pos → Pos → Diagnostic
unfolding span_from
unterminated_string start p =
    with_hint
      (diag_error "lang/unterminated-string" (lit "string is missing its closing `\"`" ∷ [])
        (span_from start p))
      "add a closing double quote"

-- A string literal, from behind its opening quote.
unfoldable pub lex_quoted : LexState → ℕ → Text → LexState
unfolding push_token bump scan_quoted unterminated_string
lex_quoted s c cs =
    let r = scan_quoted s.pos cs (bump c s.pos) [] [] in
    push_token s s.pos (quoted r.out)
      (r.diags ++ (if r.terminated then [] else unterminated_string s.pos r.pos ∷ [])) r.chars r.pos

unfoldable pub unterminated_regex : Pos → Pos → Diagnostic
unfolding span_from
unterminated_regex start p =
    with_hint
      (diag_error "lang/unterminated-regex" (lit "regex is missing its closing `/`" ∷ [])
        (span_from start p))
      "close the pattern with `/`, e.g. message:/timeout/"

unfoldable pub regex_too_long : LangLimits → Pos → Pos → Diagnostic
unfolding span_from
regex_too_long limits start p =
    diag_error "lang/regex-too-long"
      (lit "regex pattern exceeds " ∷ number limits.max_regex_chars ∷ lit " characters" ∷ [])
      (span_from start p)

-- The flags behind a closed pattern.
unfoldable pub regex_flags : Pos → Pattern → Flags
unfolding scan_flags unterminated_regex
regex_flags start r = if r.terminated then scan_flags start r.chars r.pos false [] else record {
  chars = r.chars;
  pos = r.pos;
  ci = false;
  diags = unterminated_regex start r.pos ∷ [];
}

-- A regex literal, from behind its opening slash.
unfoldable pub lex_regex : LangLimits → LexState → ℕ → Text → LexState
unfolding push_token bump scan_regex regex_flags regex_too_long
lex_regex limits s c cs =
    let r = scan_regex cs (bump c s.pos) [] in
    let f = regex_flags s.pos r in
    push_token s s.pos (regex r.pattern f.ci)
      (f.diags
        ++ (if ltb limits.max_regex_chars (length r.pattern)
            then regex_too_long limits s.pos f.pos ∷ []
            else []))
      f.chars f.pos

-- `AND`, `OR` and `NOT` are keywords only as exact words with no escape.
unfoldable pub word_kind : Word → TokenKind
word_kind w =
    if text_eq w.out (codes "AND") && not w.had_escape
    then kw_and
    else if text_eq w.out (codes "OR") && not w.had_escape
    then kw_or
    else if text_eq w.out (codes "NOT") && not w.had_escape
    then kw_not
    else word w.out w.wildcard

unfoldable pub lex_word : LexState → ℕ → Text → LexState
unfolding push_token scan_word word_kind
lex_word s c cs =
    let w = scan_word s.pos (c ∷ cs) s.pos [] false false [] in
    push_token s s.pos (word_kind w) w.diags w.chars w.pos
