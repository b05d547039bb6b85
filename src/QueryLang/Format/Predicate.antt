-- ===== src/QueryLang/Format/Predicate.antt =====
-- A formatted predicate is parsed to one comparison of the field with the value.
use log_scope.Prelude.{
  ℕ, ◌≤◌, ◌≡◌, ◌≢◌, refl, ap, true, false, List, [], ◌∷◌, inl, inr, if◌then◌else◌, Bool-cases,
  append-nil, some,
}
use log_scope.Text.{Text, codes, is_whitespace, text_eq, utf8_len}
use log_scope.QueryLang.Diag.{Span, LangLimits, merge}
use log_scope.QueryLang.Token.{Token, word, colon, is_cmp_op}
use log_scope.QueryLang.Ast.{RawValue, CmpOp, RawExpr, value_span}
use log_scope.QueryLang.Lexer.{lex}
use log_scope.QueryLang.Parser.Exprs.{cmp_op, join_and, join_or}
use log_scope.QueryLang.Parser.Grammar.{
  ValueForm, word_value_form, quoted_value, Leaf, QueryForm, chain, AndTail, OrTail,
}
use log_scope.QueryLang.Parser.SoundExprs.{UnaryForm-leaf}
use log_scope.QueryLang.Parser.Exact.{parse_query_complete}
use log_scope.QueryLang.Parser.{end_span, parse_outcome, parse}
use log_scope.QueryLang.Format.RoundTrip.{value_kind, token_of, lex-format_predicate}
use log_scope.QueryLang.Format.{is_bare_char, bare_safe, format_predicate}

-- The syntax tree of a formatted value.
abbrev pub value_tree : Text → Span → RawValue
value_tree v s = if bare_safe v then RawValue.word v false s else RawValue.quoted v s

bare_safe-ne_nil : (v : Text) → bare_safe v ≡ true → v ≢ []
unfolding bare_safe text_eq
bare_safe-ne_nil v h e = cc (ap bare_safe e)

bare_safe-ne_star : (v : Text) → bare_safe v ≡ true → v ≢ codes "*"
unfolding bare_safe is_bare_char is_whitespace text_eq
bare_safe-ne_star v h e = cc (ap bare_safe e)

value_kind-ValueForm :
    (v : Text) (s : Span) → ValueForm CmpOp.eq (token_of (value_kind v) s ∷ []) (value_tree v s)
value_kind-ValueForm v s = elim (Bool-cases (bare_safe v)) [
  | inl h ↦ rw h (
      word_value_form (token_of (word v false) s) v false refl (bare_safe-ne_star v h)
        (bare_safe-ne_nil v h) refl refl)
  | inr h ↦ rw h (quoted_value _ v refl refl refl)
]

-- A leaf alone is a query.
Leaf-QueryForm : (k : ℕ) (ts : List Token) (e : RawExpr) → Leaf ts e → QueryForm k ts e
unfolding join_and join_or
Leaf-QueryForm k ts e h =
    chain ts [] e [] (chain ts [] e [] (UnaryForm-leaf k h) AndTail.done (rw append-nil) refl)
      OrTail.done (rw append-nil) refl

-- Lexing and parsing a formatted predicate over a bare field gives one comparison for equality of
-- that field with exactly that value, and no diagnostic, whatever the value holds. The limits
-- allow the predicate's bytes and three tokens.
pub parse-format_predicate :
    (f v : Text) (limits : LangLimits)
    → bare_safe f ≡ true
    → utf8_len (format_predicate f v) ≤ limits.max_text_bytes
    → 3 ≤ limits.max_tokens
    → (a b c : Span) × (lex (format_predicate f v) limits
        ≡ (token_of (word f false) a ∷ token_of colon b ∷ token_of (value_kind v) c ∷ [], []))
      × (parse (lex (format_predicate f v) limits).0 (format_predicate f v) limits
          ≡ some (record {
            ast = some (
                RawExpr.cmp
                  (record { text = f; span = a })
                  CmpOp.eq
                  (value_tree v c)
                  (merge a (value_span (value_tree v c))));
            diagnostics = [];
          }))
unfolding parse parse_outcome cmp_op is_cmp_op
parse-format_predicate f v limits h short few =
    let (a, b, c, lexed) = lex-format_predicate f v limits h short few in
    (
      a,
      b,
      c,
      lexed,
      rw lexed (
          rw (
            parse_query_complete
              (record { limits = limits; end_span = end_span (format_predicate f v) })
              (token_of (word f false) a ∷ token_of colon b ∷ token_of (value_kind v) c ∷ []) _
              (Leaf-QueryForm limits.max_depth _ _ (
                Leaf.cmp (token_of (word f false) a) (token_of colon b) f false _ _ refl refl
                  (value_kind-ValueForm v c) refl refl)))),
    )
