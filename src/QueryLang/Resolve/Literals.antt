-- ===== src/QueryLang/Resolve/Literals.antt =====
-- What the resolver takes from `str`: prefixes, words and numbers.
use log_scope.Prelude.{
  ℕ, ◌+◌, ◌-◌, ◌*◌, ◌^◌, Bool, true, false, ◌&&◌, List, [], ◌∷◌, ◌++◌, all, Option, none, some, ltb,
  leb, ◌==◌, if◌then◌else◌,
}
use log_scope.Prelude.Int.{ℤ, pos, negsuc}
use log_scope.Text.{Text, is_whitespace}

-- `str::strip_prefix`
unfoldable pub strip_prefix : Text → Text → Option Text
strip_prefix [] t = some t
strip_prefix (c ∷ cs) [] = none
strip_prefix (c ∷ cs) (d ∷ ds) = let rest = strip_prefix cs ds in if c == d then rest else none

abbrev pub is_some : {A : Type 0} → Option A → Bool
is_some none = false
is_some (some a) = true

-- `str::starts_with` on a text
unfoldable pub starts_with : Text → Text → Bool
unfolding strip_prefix
starts_with p t = is_some (strip_prefix p t)

-- Whether the text has a character at all, and starts with one of two.
unfoldable pub starts_with_one_of : ℕ → ℕ → Text → Bool
starts_with_one_of a b [] = false
starts_with_one_of a b (c ∷ cs) = if c == a then true else c == b

-- `trim().is_empty()`
unfoldable pub is_blank : Text → Bool
is_blank t = all is_whitespace t

-- A word that ends is kept when it has a character.
abbrev flush : Text → List Text → List Text
flush [] rest = rest
flush (c ∷ cs) rest = (c ∷ cs) ∷ rest

-- `str::split_whitespace`, with the characters of the word at hand.
unfoldable pub split_words : Text → Text → List Text
split_words word [] = flush word []
split_words word (c ∷ cs) =
    let ended = flush word (split_words [] cs) in
    let longer = split_words (word ++ c ∷ []) cs in if is_whitespace c then ended else longer

-- `split_whitespace().nth(1).is_some()`
abbrev has_second : List Text → Bool
has_second (a ∷ b ∷ rest) = true
has_second _ = false

unfoldable pub is_multi : Text → Bool
unfolding split_words
is_multi t = has_second (split_words [] t)

-- `char::to_ascii_lowercase`
unfoldable pub to_ascii_lowercase : ℕ → ℕ
to_ascii_lowercase c = if leb b'A' c && leb c b'Z' then c + 32 else c

unfoldable pub digits : ℕ → Text → Option ℕ
digits acc [] = some acc
digits acc (c ∷ cs) =
    let rest = digits (acc * 10 + (c - b'0')) cs in if leb b'0' c && leb c b'9' then rest else none

-- The digits behind a sign: there is one at least.
unfoldable pub parse_digits : Text → Option ℕ
unfolding digits
parse_digits [] = none
parse_digits (c ∷ cs) = digits 0 (c ∷ cs)

abbrev positive : ℕ → Option ℕ → Option ℤ
positive bound none = none
positive bound (some n) = if ltb n bound then some (pos n) else none

abbrev negated : ℕ → ℕ → Option ℤ
negated bound n =
    if n == 0 then some (pos 0) else if leb n bound then some (negsuc (n - 1)) else none

abbrev negative : ℕ → Option ℕ → Option ℤ
negative bound none = none
negative bound (some n) = negated bound n

-- `str::parse` for a signed integer type whose smallest number is `- bound`.
unfoldable pub parse_signed : ℕ → Text → Option ℤ
unfolding parse_digits
parse_signed bound [] = none
parse_signed bound (c ∷ cs) =
    if c == b'-'
    then negative bound (parse_digits cs)
    else if c == b'+'
    then positive bound (parse_digits cs)
    else positive bound (parse_digits (c ∷ cs))

-- `str::parse::<i64>`
unfoldable pub parse_i64 : Text → Option ℤ
unfolding parse_signed
parse_i64 t = parse_signed (2 ^ 63) t
