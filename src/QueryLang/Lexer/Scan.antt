-- ===== src/QueryLang/Lexer/Scan.antt =====
-- The cursor of crates/logscope-query-lang/src/lex.rs and the loops inside one token.
use log_scope.Prelude.{
  ℕ, ◌+◌, Bool, true, false, not, ◌&&◌, ◌||◌, List, [], ◌∷◌, ◌++◌, ◌==◌, if◌then◌else◌,
}
use log_scope.Text.{Text, u32, is_whitespace, is_ascii_alphabetic, len_utf8, len_utf16}
use log_scope.QueryLang.Diag.{Span, Diagnostic, diag_error, with_expected, lit, char}

-- `Cursor::pos`: the counters of the cursor.
pub record Pos : Type 0 where
  pub byte : ℕ
  pub utf16 : ℕ

abbrev pub origin : Pos
origin = record { byte = 0; utf16 = 0 }

-- `Cursor::bump`, on the counters.
unfoldable pub bump : ℕ → Pos → Pos
bump c p = record { byte = u32 (p.byte + len_utf8 c); utf16 = u32 (p.utf16 + len_utf16 c) }

-- `Cursor::span_from`
unfoldable pub span_from : Pos → Pos → Span
span_from start p = record {
  start = start.byte;
  end = p.byte;
  start_utf16 = start.utf16;
  end_utf16 = p.utf16;
}

unfoldable pub is_word_char : ℕ → Bool
is_word_char c =
    not (is_whitespace c)
    && not (
        c == b'('
        || c == b')'
        || c == b'"'
        || c == b':'
        || c == b'='
        || c == b'<'
        || c == b'>'
        || c == b'!')

-- What the loop over a string literal leaves.
pub record Scanned : Type 0 where
  pub chars : Text
  pub pos : Pos
  pub out : Text
  pub terminated : Bool
  pub diags : List Diagnostic

unfoldable pub invalid_escape : Pos → Pos → ℕ → Diagnostic
unfolding span_from
invalid_escape start p e =
    with_expected
      (diag_error "lang/invalid-escape"
        (lit "unsupported escape `\\" ∷ char e ∷ lit "` in string" ∷ []) (span_from start p))
      "one of \\\" \\\\ \\n \\t \\r"

-- The character that `\e` stands for in a string, and the diagnostics it gives.
unfoldable pub string_escape : Pos → Pos → ℕ → ℕ × List Diagnostic
unfolding invalid_escape
string_escape start p e =
    if e == b'"'
    then (b'"', [])
    else if e == b'\\'
    then (b'\\', [])
    else if e == b'n'
    then (b'\n', [])
    else if e == b't'
    then (b'\t', [])
    else if e == b'r'
    then (b'\r', [])
    else (e, invalid_escape start p e ∷ [])

-- `start` is where the token began; `p` is the position in front of the characters.
unfoldable pub scan_quoted : Pos → Text → Pos → Text → List Diagnostic → Scanned
unfolding bump string_escape
scan_quoted start [] p out ds = record {
  chars = [];
  pos = p;
  out = out;
  terminated = false;
  diags = ds;
}
scan_quoted start (c ∷ []) p out ds = record {
  chars = [];
  pos = bump c p;
  out = if c == b'"' || c == b'\\' then out else out ++ c ∷ [];
  terminated = c == b'"';
  diags = ds;
}
scan_quoted start (c ∷ d ∷ cs) p out ds =
    let closed : Scanned = record {
      chars = d ∷ cs;
      pos = bump c p;
      out = out;
      terminated = true;
      diags = ds;
    } in
    let p' = bump d (bump c p) in
    let (e, more) = string_escape start p' d in
    let escaped = scan_quoted start cs p' (out ++ e ∷ []) (ds ++ more) in
    let plain = scan_quoted start (d ∷ cs) (bump c p) (out ++ c ∷ []) ds in
    if c == b'"' then closed else if c == b'\\' then escaped else plain

-- What the loop over a regex pattern leaves.
pub record Pattern : Type 0 where
  pub chars : Text
  pub pos : Pos
  pub pattern : Text
  pub terminated : Bool

unfoldable pub scan_regex : Text → Pos → Text → Pattern
unfolding bump
scan_regex [] p out = record { chars = []; pos = p; pattern = out; terminated = false }
scan_regex (c ∷ []) p out = record {
  chars = [];
  pos = bump c p;
  pattern = if c == b'/' then out else out ++ c ∷ [];
  terminated = c == b'/';
}
scan_regex (c ∷ d ∷ cs) p out =
    let closed : Pattern = record {
      chars = d ∷ cs;
      pos = bump c p;
      pattern = out;
      terminated = true;
    } in
    let slash = scan_regex cs (bump d (bump c p)) (out ++ b'/' ∷ []) in
    let plain = scan_regex (d ∷ cs) (bump c p) (out ++ c ∷ []) in
    if c == b'/' then closed else if c == b'\\' && d == b'/' then slash else plain

-- What the loop over the flags of a regex leaves.
pub record Flags : Type 0 where
  pub chars : Text
  pub pos : Pos
  pub ci : Bool
  pub diags : List Diagnostic

unfoldable pub unsupported_flag : Pos → Pos → ℕ → Diagnostic
unfolding span_from
unsupported_flag start p flag =
    with_expected
      (diag_error "lang/unsupported-regex-flag"
        (lit "unsupported regex flag `" ∷ char flag ∷ lit "`" ∷ []) (span_from start p))
      "only the `i` (case-insensitive) flag"

unfoldable pub scan_flags : Pos → Text → Pos → Bool → List Diagnostic → Flags
unfolding bump unsupported_flag
scan_flags start [] p ci ds = record { chars = []; pos = p; ci = ci; diags = ds }
scan_flags start (c ∷ cs) p ci ds =
    let p' = bump c p in
    let rest =
      scan_flags start cs p' (ci || c == b'i')
        (if c == b'i' then ds else ds ++ unsupported_flag start p' c ∷ []) in
    if is_ascii_alphabetic c then rest else record { chars = c ∷ cs; pos = p; ci = ci; diags = ds }

-- What the loop over a bare word leaves.
pub record Word : Type 0 where
  pub chars : Text
  pub pos : Pos
  pub out : Text
  pub wildcard : Bool
  pub had_escape : Bool
  pub diags : List Diagnostic

unfoldable pub trailing_backslash : Pos → Pos → Diagnostic
unfolding span_from
trailing_backslash start p =
    diag_error "lang/trailing-backslash" (lit "query ends with a lone `\\`" ∷ [])
      (span_from start p)

-- Wildcard-relevant escapes keep their backslash inside the text of the token.
unfoldable pub word_escape : ℕ → Text
word_escape e = if e == b'*' || e == b'?' || e == b'\\' then b'\\' ∷ e ∷ [] else e ∷ []

unfoldable pub is_wildcard : ℕ → Bool
is_wildcard c = c == b'*' || c == b'?'

unfoldable pub scan_word : Pos → Text → Pos → Text → Bool → Bool → List Diagnostic → Word
unfolding bump word_escape is_wildcard trailing_backslash
scan_word start [] p out wild esc ds = record {
  chars = [];
  pos = p;
  out = out;
  wildcard = wild;
  had_escape = esc;
  diags = ds;
}
scan_word start (c ∷ []) p out wild esc ds =
    let stop : Word = record {
      chars = c ∷ [];
      pos = p;
      out = out;
      wildcard = wild;
      had_escape = esc;
      diags = ds;
    } in
    let p' = bump c p in
    let lone : Word = record {
      chars = [];
      pos = p';
      out = out;
      wildcard = wild;
      had_escape = true;
      diags = ds ++ trailing_backslash start p' ∷ [];
    } in
    let plain : Word = record {
      chars = [];
      pos = p';
      out = out ++ c ∷ [];
      wildcard = wild || is_wildcard c;
      had_escape = esc;
      diags = ds;
    } in
    if not (is_word_char c) then stop else if c == b'\\' then lone else plain
scan_word start (c ∷ d ∷ cs) p out wild esc ds =
    let stop : Word = record {
      chars = c ∷ d ∷ cs;
      pos = p;
      out = out;
      wildcard = wild;
      had_escape = esc;
      diags = ds;
    } in
    let escaped = scan_word start cs (bump d (bump c p)) (out ++ word_escape d) wild true ds in
    let plain =
      scan_word start (d ∷ cs) (bump c p) (out ++ c ∷ []) (wild || is_wildcard c) esc ds in
    if not (is_word_char c) then stop else if c == b'\\' then escaped else plain
