-- ===== src/QueryLang/Format.antt =====
-- Programmatic query building (crates/logscope-query-lang/src/lib.rs).
pub mod Scanning
pub mod RoundTrip
pub mod Predicate
use log_scope.Prelude.{
  ℕ, Bool, true, false, not, ◌&&◌, ◌||◌, List, [], ◌∷◌, ◌++◌, ◌==◌, if◌then◌else◌, all,
}
use log_scope.Text.{Text, codes, is_whitespace, text_eq}

-- The characters that may stand in a value without quotes.
unfoldable pub is_bare_char : ℕ → Bool
is_bare_char c =
    not (is_whitespace c)
    && not (
        c == b'('
        || c == b')'
        || c == b'"'
        || c == b':'
        || c == b'='
        || c == b'<'
        || c == b'>'
        || c == b'!'
        || c == b'*'
        || c == b'?'
        || c == b'\\'
        || c == b'/')

unfoldable pub is_keyword : Text → Bool
is_keyword t = text_eq t (codes "AND") || text_eq t (codes "OR") || text_eq t (codes "NOT")

unfoldable pub bare_safe : Text → Bool
unfolding is_bare_char is_keyword
bare_safe value = not (text_eq value []) && all is_bare_char value && not (is_keyword value)

-- What a quoted value holds for one character.
unfoldable pub quote_char : ℕ → Text
quote_char c =
    if c == b'"'
    then codes "\\\""
    else if c == b'\\'
    then codes "\\\\"
    else if c == b'\n'
    then codes "\\n"
    else if c == b'\t'
    then codes "\\t"
    else if c == b'\r'
    then codes "\\r"
    else c ∷ []

unfoldable pub quote_body : Text → Text
unfolding quote_char
quote_body [] = []
quote_body (c ∷ cs) = quote_char c ++ quote_body cs

-- `format_value`
unfoldable pub format_value : Text → Text
unfolding bare_safe quote_body
format_value value = if bare_safe value then value else b'"' ∷ (quote_body value ++ b'"' ∷ [])

-- `format_field`
unfoldable pub format_field : Text → Text
format_field field = field

-- `format_predicate`
unfoldable pub format_predicate : Text → Text → Text
unfolding format_field format_value
format_predicate field value = format_field field ++ b':' ∷ format_value value
