-- ===== src/QueryLang/Resolve/Wildcard.antt =====
-- The translation of wildcard values (crates/logscope-query-lang/src/resolve.rs).
use log_scope.Prelude.{ℕ, Bool, not, ◌&&◌, ◌||◌, [], ◌∷◌, ◌++◌, ltb, leb, ◌==◌, if◌then◌else◌}
use log_scope.Text.{Text, codes, is_ascii_alphabetic}

-- `char::is_ascii_alphanumeric`
unfoldable pub is_ascii_alphanumeric : ℕ → Bool
is_ascii_alphanumeric c = is_ascii_alphabetic c || (leb b'0' c && leb c b'9')

-- The characters that `push_escaped` pushes as they are; `char::is_ascii` is a code below 128.
unfoldable pub is_plain : ℕ → Bool
is_plain c = is_ascii_alphanumeric c || c == b'_' || not (ltb c 128)

-- What `push_escaped` pushes.
unfoldable pub escaped : ℕ → Text
escaped c = if is_plain c then c ∷ [] else b'\\' ∷ c ∷ []

-- The loop of `wildcard_to_regex`.
unfoldable pub wildcard_body : Text → Text
wildcard_body [] = []
wildcard_body (c ∷ []) =
    if c == b'*'
    then codes ".*"
    else if c == b'?'
    then codes "."
    else if c == b'\\'
    then codes "\\\\"
    else escaped c
wildcard_body (c ∷ next ∷ cs) =
    let rest = wildcard_body (next ∷ cs) in
    let after = wildcard_body cs in
    if c == b'*'
    then codes ".*" ++ rest
    else if c == b'?'
    then codes "." ++ rest
    else if c == b'\\'
    then escaped next ++ after
    else escaped c ++ rest

unfoldable pub wildcard_to_regex : Text → Text
wildcard_to_regex glob = codes "^" ++ wildcard_body glob ++ codes "$"
