-- ===== src/QueryLang/Token.antt =====
-- Tokens and editor highlighting (crates/logscope-query-lang/src/lex.rs).
use log_scope.Prelude.{Bool, true, false, List, [], ◌∷◌, if◌then◌else◌}
use log_scope.Text.{Text}
use log_scope.QueryLang.Diag.{Span, Message, lit, text}

pub data TokenKind : Type 0 where
  word : Text → Bool → TokenKind
  quoted : Text → TokenKind
  regex : Text → Bool → TokenKind
  l_paren r_paren colon eq ne gt ge lt le kw_and kw_or kw_not : TokenKind

pub record Token : Type 0 where
  pub kind : TokenKind
  pub span : Span

-- `TokenKind::is_cmp_op`
unfoldable pub is_cmp_op : TokenKind → Bool
is_cmp_op colon = true
is_cmp_op eq = true
is_cmp_op ne = true
is_cmp_op gt = true
is_cmp_op ge = true
is_cmp_op lt = true
is_cmp_op le = true
is_cmp_op _ = false

-- `TokenKind::describe`
unfoldable pub describe : TokenKind → Message
describe (word t wildcard) = lit "word `" ∷ text t ∷ lit "`" ∷ []
describe (quoted t) = lit "quoted string" ∷ []
describe (regex p ci) = lit "regex" ∷ []
describe l_paren = lit "`(`" ∷ []
describe r_paren = lit "`)`" ∷ []
describe colon = lit "`:`" ∷ []
describe eq = lit "`=`" ∷ []
describe ne = lit "`!=`" ∷ []
describe gt = lit "`>`" ∷ []
describe ge = lit "`>=`" ∷ []
describe lt = lit "`<`" ∷ []
describe le = lit "`<=`" ∷ []
describe kw_and = lit "`AND`" ∷ []
describe kw_or = lit "`OR`" ∷ []
describe kw_not = lit "`NOT`" ∷ []

pub data HighlightKind : Type 0 where
  field term keyword string regex operator paren : HighlightKind

pub record HighlightSpan : Type 0 where
  pub kind : HighlightKind
  pub span : Span

-- `tokens.get(i + 1).is_some_and(|n| n.kind.is_cmp_op())`, of the tokens behind the `i`-th.
unfoldable pub starts_cmp_op : List Token → Bool
unfolding is_cmp_op
starts_cmp_op [] = false
starts_cmp_op (t ∷ ts) = is_cmp_op t.kind

unfoldable pub highlight_kind : TokenKind → List Token → HighlightKind
unfolding starts_cmp_op
highlight_kind (word t wildcard) next = if starts_cmp_op next then field else term
highlight_kind (quoted t) next = string
highlight_kind (TokenKind.regex p ci) next = HighlightKind.regex
highlight_kind kw_and next = keyword
highlight_kind kw_or next = keyword
highlight_kind kw_not next = keyword
highlight_kind l_paren next = paren
highlight_kind r_paren next = paren
highlight_kind _ next = operator

-- `highlight`
unfoldable pub highlight : List Token → List HighlightSpan
unfolding highlight_kind
highlight [] = []
highlight (t ∷ ts) = record { kind = highlight_kind t.kind ts; span = t.span } ∷ highlight ts
