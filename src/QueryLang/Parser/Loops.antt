-- ===== src/QueryLang/Parser/Loops.antt =====
-- The loops of `parse_or` and `parse_and`, and of `parse_value_or` and `parse_value_and`, over the
-- parser of one item (crates/logscope-query-lang/src/parse.rs). A loop returns the items that the
-- program pushes behind the first one.
use log_scope.Prelude.{ℕ, zero, suc, Bool, true, false, List, [], ◌∷◌, if◌then◌else◌, length}
use log_scope.QueryLang.Token.{TokenKind, Token, kw_and, kw_or, r_paren}
use log_scope.QueryLang.Parser.Results.{Outcome, ok, out_of_fuel, ParserState, Parser, pure, ◌>>=◌}

unfoldable pub is_kw_and : TokenKind → Bool
is_kw_and kw_and = true
is_kw_and _ = false

unfoldable pub is_kw_or : TokenKind → Bool
is_kw_or kw_or = true
is_kw_or _ = false

unfoldable pub is_r_paren : TokenKind → Bool
is_r_paren r_paren = true
is_r_paren _ = false

module _ {A : Type 0} where
  -- One more item by `p`, and those that `more` finds behind it.
  abbrev pub item_then : Parser A → Parser (List A) → Parser (List A)
  item_then p more = do x ← p; xs ← more; pure (x ∷ xs)

  unfoldable pub and_next :
      (TokenKind → Bool)
      → Parser A
      → Parser (List A)
      → ParserState
      → List Token
      → Outcome (List A × ParserState)
  and_next starts p more s [] = ok ([], s)
  and_next starts p more s (t ∷ ts) =
      if is_kw_and t.kind
      then item_then p more (record s { tokens = ts })
      else if starts t.kind
      then item_then p more s
      else ok ([], s)

  unfoldable pub and_loop : ℕ → (TokenKind → Bool) → Parser A → Parser (List A)
  unfolding and_next is_kw_and
  and_loop zero starts p s = out_of_fuel
  and_loop (suc fuel) starts p s = and_next starts p (and_loop fuel starts p) s s.tokens

  unfoldable pub or_next :
      Parser A → Parser (List A) → ParserState → List Token → Outcome (List A × ParserState)
  or_next p more s [] = ok ([], s)
  or_next p more s (t ∷ ts) =
      if is_kw_or t.kind then item_then p more (record s { tokens = ts }) else ok ([], s)

  unfoldable pub or_loop : ℕ → Parser A → Parser (List A)
  unfolding or_next is_kw_or
  or_loop zero p s = out_of_fuel
  or_loop (suc fuel) p s = or_next p (or_loop fuel p) s s.tokens

  -- Items joined by `AND` or by standing side by side.
  unfoldable pub and_of : (TokenKind → Bool) → (A → List A → A) → Parser A → Parser A
  unfolding and_loop
  and_of starts join p s =
      (do x ← p; xs ← (λ u. and_loop (suc (length u.tokens)) starts p u); pure (join x xs)) s

  -- Items joined by `OR`.
  unfoldable pub or_of : (A → List A → A) → Parser A → Parser A
  unfolding or_loop
  or_of join p s = (do x ← p; xs ← (λ u. or_loop (suc (length u.tokens)) p u); pure (join x xs)) s
