-- ===== src/Query/Tokens.antt =====
-- Free text and JSON paths in compiled queries (crates/logscope-query/src/compile.rs). Which
-- characters are alphanumeric is a parameter: Unicode's tables say it.
use log_scope.Prelude.{ℕ, Bool, not, ◌||◌, List, [], ◌∷◌, ◌++◌, map, ltb, ◌==◌, if◌then◌else◌}
use log_scope.Text.{Text, codes}
use log_scope.QueryLang.Resolve.Wildcard.{is_ascii_alphanumeric}

-- A token that ends is kept when it has a character.
abbrev pub pushed : Text → List Text → List Text
pushed [] rest = rest
pushed (c ∷ cs) rest = (c ∷ cs) ∷ rest

module _ (is_alphanumeric : ℕ → Bool) where
  -- The loop of `text_tokens`, with the characters of the token at hand.
  unfoldable pub tokens_loop : Text → Text → List Text
  tokens_loop cur [] = pushed cur []
  tokens_loop cur (c ∷ cs) =
      let longer = tokens_loop (cur ++ c ∷ []) cs in
      let ended = pushed cur (tokens_loop [] cs) in if is_alphanumeric c then longer else ended

  unfoldable pub text_tokens : Text → List Text
  unfolding tokens_loop
  text_tokens t = tokens_loop [] t

unfoldable pub regex_escape_token : Text → Text
regex_escape_token [] = []
regex_escape_token (c ∷ cs) =
    let rest = regex_escape_token cs in
    if is_ascii_alphanumeric c || not (ltb c 128) then c ∷ rest else b'\\' ∷ c ∷ rest

-- `slice.join(sep)`
unfoldable pub joined : Text → List Text → Text
joined sep [] = []
joined sep (t ∷ []) = t
joined sep (t ∷ u ∷ ts) = t ++ (sep ++ joined sep (u ∷ ts))

unfoldable pub tokens_to_regex : List Text → Text
unfolding joined regex_escape_token
tokens_to_regex tokens =
    codes "(?i)"
    ++ (codes "(^|[^\\p{L}\\p{N}])"
        ++ (joined (codes "[^\\p{L}\\p{N}]+") (map regex_escape_token tokens)
            ++ codes "([^\\p{L}\\p{N}]|$)"))

-- `replace('"', "\"\"")`
unfoldable pub doubled_quotes : Text → Text
doubled_quotes [] = []
doubled_quotes (c ∷ cs) =
    let rest = doubled_quotes cs in if c == b'"' then b'"' ∷ b'"' ∷ rest else c ∷ rest

unfoldable pub tokens_to_fts_expr : List Text → Text
unfolding doubled_quotes joined
tokens_to_fts_expr tokens = codes "\"" ++ (doubled_quotes (joined (codes " ") tokens) ++ codes "\"")

-- The characters of one segment of a path.
unfoldable pub segment_body : Text → Text
segment_body [] = []
segment_body (c ∷ cs) =
    let rest = segment_body cs in
    if c == b'"'
    then codes "\\\"" ++ rest
    else if c == b'\\'
    then codes "\\\\" ++ rest
    else c ∷ rest

abbrev pub path_segment : Text → Text → Text
path_segment seg leaf = codes ".\"" ++ (segment_body seg ++ (codes "\"." ++ leaf))

-- The loop of `attr_path_with_leaf`.
unfoldable pub path_body : List Text → Text → Text
unfolding segment_body
path_body [] leaf = []
path_body (seg ∷ []) leaf = path_segment seg leaf
path_body (seg ∷ next ∷ segs) leaf = path_segment seg (codes "v") ++ path_body (next ∷ segs) leaf

unfoldable pub attr_path_with_leaf : List Text → Text → Text
unfolding path_body
attr_path_with_leaf path leaf = codes "$" ++ path_body path leaf

unfoldable pub attr_value_path : List Text → Text
unfolding attr_path_with_leaf
attr_value_path path = attr_path_with_leaf path (codes "v")

unfoldable pub attr_tag_path : List Text → Text
unfolding attr_path_with_leaf
attr_tag_path path = attr_path_with_leaf path (codes "t")

unfoldable pub apply_ci : Text → Bool → Text
apply_ci pattern ci = if ci then codes "(?i)" ++ pattern else pattern
