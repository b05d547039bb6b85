-- ===== src/QueryLang/Lexer.antt =====
-- The lexer of crates/logscope-query-lang/src/lex.rs. A cursor is the characters that are left
-- with the byte and UTF-16 counters, which are `u32` and wrap. Each `while` loop over the cursor
-- is a function by recursion on those characters. The outer loop takes fuel: one unit for each
-- character is enough.
pub mod Scan
pub mod Branches
pub mod Reach
pub mod Steps
pub mod Spans
pub mod Words
use log_scope.QueryLang.Lexer.Branches.{
  LexState, push_token, lex_single, lex_angle, bare_bang, lex_bang, unterminated_string, lex_quoted,
  unterminated_regex, regex_too_long, regex_flags, lex_regex, word_kind, lex_word,
}
use log_scope.Prelude.{
  ℕ, zero, suc, ◌+◌, ◌≤◌, String, Bool, true, false, not, ◌&&◌, ◌||◌, Option, none, some, List, [],
  ◌∷◌, ◌++◌, ltb, ◌==◌, if◌then◌else◌, length, last,
}
use log_scope.Text.{
  Text, codes, u32, is_whitespace, is_ascii_alphabetic, len_utf8, len_utf16, utf8_len, utf16_len,
  text_eq,
}
use log_scope.QueryLang.Diag.{
  Span, default_span, Diagnostic, diag_error, with_expected, with_hint, lit, number, char,
  LangLimits,
}
use log_scope.QueryLang.Token.{
  TokenKind, Token, word, quoted, regex, l_paren, r_paren, colon, eq, ne, gt, ge, lt, le, kw_and,
  kw_or, kw_not,
}
use log_scope.QueryLang.Lexer.Scan.{
  Pos, origin, bump, span_from, is_word_char, Scanned, scan_quoted, Pattern, scan_regex, Flags,
  scan_flags, Word, scan_word,
}

-- One token, from its first character `c`. `prev` is whether the previous token allows a regex.
unfoldable pub lex_token : LangLimits → Bool → LexState → ℕ → Text → LexState
lex_token limits prev s c cs =
    if c == b'('
    then lex_single s c cs l_paren false
    else if c == b')'
    then lex_single s c cs r_paren false
    else if c == b':'
    then lex_single s c cs colon true
    else if c == b'='
    then lex_single s c cs eq true
    else if c == b'!'
    then lex_bang s c cs
    else if c == b'>'
    then lex_angle s c cs gt ge
    else if c == b'<'
    then lex_angle s c cs lt le
    else if c == b'"'
    then lex_quoted s c cs
    else if c == b'/' && prev
    then lex_regex limits s c cs
    else lex_word s c cs

-- One round of the outer loop: white space is skipped and does not end a regex position.
unfoldable pub lex_step : LangLimits → LexState → ℕ → Text → LexState
unfolding bump
lex_step limits s c cs =
    if is_whitespace c
    then record s { chars = cs; pos = bump c s.pos }
    else lex_token limits s.regex_position (record s { regex_position = false }) c cs

unfoldable pub lex_loop : LangLimits → ℕ → LexState → LexState
lex_loop limits zero s = s
lex_loop limits (suc fuel) s = elim s.chars [
  | [] ↦ s
  | c ∷ cs ↦ lex_loop limits fuel (lex_step limits s c cs)
]

abbrev pub lex_start : Text → LexState
lex_start text = record {
  chars = text;
  pos = origin;
  tokens = [];
  diags = [];
  regex_position = false;
}

abbrev token_span : Option Token → Span
token_span none = default_span
token_span (some t) = t.span

unfoldable pub too_many_tokens : LangLimits → List Token → Diagnostic
too_many_tokens limits tokens =
    diag_error "lang/too-many-tokens"
      (lit "query has "
        ∷ number (length tokens)
        ∷ lit " tokens; the maximum is "
        ∷ number limits.max_tokens
        ∷ [])
      (token_span (last tokens))

unfoldable pub query_too_long : LangLimits → Text → Diagnostic
query_too_long limits text =
    with_hint
      (diag_error "lang/query-too-long"
        (lit "query is "
          ∷ number (utf8_len text)
          ∷ lit " bytes; the maximum is "
          ∷ number limits.max_text_bytes
          ∷ lit " bytes"
          ∷ [])
        (record {
          start = 0;
          end = u32 (utf8_len text);
          start_utf16 = 0;
          end_utf16 = u32 (utf16_len text);
        }))
      "shorten the query or split it into saved searches"

-- What follows the outer loop.
unfoldable pub lex_finish : LangLimits → LexState → List Token × List Diagnostic
unfolding too_many_tokens
lex_finish limits s = (
  s.tokens,
  if ltb limits.max_tokens (length s.tokens)
      then s.diags ++ (too_many_tokens limits s.tokens ∷ [])
      else s.diags,
)

-- `lex`
unfoldable pub lex : Text → LangLimits → List Token × List Diagnostic
unfolding lex_loop lex_step lex_token lex_single lex_angle lex_bang lex_quoted lex_regex lex_word
    lex_finish query_too_long utf8_len is_whitespace is_word_char is_ascii_alphabetic len_utf8
    len_utf16 text_eq
lex text limits =
    if ltb limits.max_text_bytes (utf8_len text)
    then ([], query_too_long limits text ∷ [])
    else lex_finish limits (lex_loop limits (length text) (lex_start text))

-- `unescape_word`
unfoldable pub unescape_word : Text → Text
unescape_word [] = []
unescape_word (c ∷ []) = c ∷ []
unescape_word (c ∷ d ∷ cs) =
    let skip = d ∷ unescape_word cs in
    let keep = c ∷ unescape_word (d ∷ cs) in if c == b'\\' then skip else keep
