-- ===== src/QueryLang/Highlight.antt =====
-- Editor highlighting follows the tokens (crates/logscope-query-lang/src/lex.rs).
use log_scope.Prelude.{
  ℕ, zero, suc, ◌≡◌, ◌↔◌, refl, ap, sym, ◌∙◌, Bool, true, List, [], ◌∷◌, Option, some, none, map,
  arith, get_elem?,
}
use log_scope.Text.{Text}
use log_scope.QueryLang.Token.{
  TokenKind, Token, word, is_cmp_op, HighlightKind, HighlightSpan, field, highlight_kind, highlight,
}

-- The `i`-th token is a word, and the next one is a comparison operator.
pub record FieldAt (ts : List Token) (i : ℕ) : Type 0 where
  pub t : Token
  pub o : Token
  pub name : Text
  pub wildcard : Bool
  pub here : get_elem? ts i ≡ some t
  pub is_word : t.kind ≡ word name wildcard
  pub there : get_elem? ts (suc i) ≡ some o
  pub is_op : is_cmp_op o.kind ≡ true

field→FieldAt :
    (t : Token) (k : TokenKind) (ts : List Token)
    → t.kind ≡ k
    → highlight_kind k ts ≡ field
    → FieldAt (t ∷ ts) 0
unfolding highlight_kind
field→FieldAt t (word x w) [] e h = absurd (ground arith)
field→FieldAt t (word x w) (o ∷ ts) e h = record {
  t = t;
  o = o;
  name = x;
  wildcard = w;
  here = refl;
  is_word = e;
  there = refl;
  is_op = ground arith;
}
field→FieldAt t _ ts e h = absurd (ground arith)

FieldAt→field :
    (t : Token) (k : TokenKind) (ts : List Token)
    → t.kind ≡ k
    → FieldAt (t ∷ ts) 0
    → highlight_kind k ts ≡ field
unfolding highlight_kind
FieldAt→field t (word x w) [] e h = absurd (ground (arith, h.there))
FieldAt→field t (word x w) (o ∷ ts) e h = ground (arith, h.there, h.is_op)
FieldAt→field t _ ts e h = absurd (ground (arith, h.here, h.is_word))

-- The kind of an optional highlight, `field` where there is none.
abbrev kind_of : Option HighlightSpan → HighlightKind
kind_of none = field
kind_of (some h) = h.kind

FieldAt-suc : (t : Token) (ts : List Token) (i : ℕ) → FieldAt ts i ↔ FieldAt (t ∷ ts) (suc i)
FieldAt-suc t ts i = (
  λ h. record {
    t = h.t;
    o = h.o;
    name = h.name;
    wildcard = h.wildcard;
    here = h.here;
    is_word = h.is_word;
    there = h.there;
    is_op = h.is_op;
  },
  λ h. record {
    t = h.t;
    o = h.o;
    name = h.name;
    wildcard = h.wildcard;
    here = h.here;
    is_word = h.is_word;
    there = h.there;
    is_op = h.is_op;
  },
)

-- A highlight is a field exactly where its token is a word directly before a comparison operator.
pub highlight-FieldAt :
    (ts : List Token) (i : ℕ) (h : HighlightSpan)
    → get_elem? (highlight ts) i ≡ some h
    → (h.kind ≡ field) ↔ FieldAt ts i
unfolding highlight
highlight-FieldAt [] i h e = absurd (ground arith)
highlight-FieldAt (t ∷ ts) zero h e =
    let is : highlight_kind t.kind ts ≡ h.kind = ap kind_of e in
    (λ k. field→FieldAt t t.kind ts refl (is ∙ k), λ f. sym is ∙ FieldAt→field t t.kind ts refl f)
highlight-FieldAt (t ∷ ts) (suc i) h e =
    let rest = highlight-FieldAt ts i h e in
    let shift = FieldAt-suc t ts i in (λ k. shift.0 (rest.0 k), λ f. rest.1 (shift.1 f))

-- There is one highlight for each token, with the token's span.
pub highlight-span :
    (ts : List Token)
    → map (λ (h : HighlightSpan). h.span) (highlight ts) ≡ map (λ (t : Token). t.span) ts
unfolding highlight
highlight-span [] = refl
highlight-span (t ∷ ts) = ap (◌∷◌ t.span) (highlight-span ts)
