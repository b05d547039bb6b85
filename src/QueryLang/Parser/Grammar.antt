-- ===== src/QueryLang/Parser/Grammar.antt =====
-- The query grammar as relations between token lists and syntax trees, with no parser state: what
-- crates/logscope-query-lang/src/parse.rs accepts. A number bounds the nesting.
use log_scope.Prelude.{ℕ, zero, suc, ◌≡◌, ◌≢◌, ◌⊎◌, Bool, true, List, [], ◌∷◌, ◌++◌}
use log_scope.Text.{Text, codes}
use log_scope.QueryLang.Diag.{merge}
use log_scope.QueryLang.Token.{
  Token, word, quoted, regex, l_paren, r_paren, kw_and, kw_or, kw_not, is_cmp_op,
}
use log_scope.QueryLang.Ast.{
  RawValue, CmpOp, RawValueExpr, RawExpr, value_span, expr_span, value_expr_span,
}
use log_scope.QueryLang.Parser.Values.{join_value_and, join_value_or}
use log_scope.QueryLang.Parser.Exprs.{join_and, join_or, cmp_op}

abbrev pub Form : Type 0 → Type 1
Form A = List Token → A → Type 0

module _ {A : Type 0} where
  -- Items behind the first one, each after an `AND` or with nothing in between.
  pub data AndTail (P : Form A) : List Token → List A → Type 0 where
    done : AndTail P [] []
    joined :
        {ws vs : List Token} {ys : List A} (t : Token) (us : List Token) (y : A)
        → t.kind ≡ kw_and
        → P us y
        → AndTail P vs ys
        → ws ≡ t ∷ (us ++ vs)
        → AndTail P ws (y ∷ ys)
    adjacent :
        {ws vs : List Token} {ys : List A} (us : List Token) (y : A)
        → P us y
        → AndTail P vs ys
        → ws ≡ us ++ vs
        → AndTail P ws (y ∷ ys)

  -- Items behind the first one, each after an `OR`.
  pub data OrTail (P : Form A) : List Token → List A → Type 0 where
    done : OrTail P [] []
    joined :
        {ws vs : List Token} {ys : List A} (t : Token) (us : List Token) (y : A)
        → t.kind ≡ kw_or
        → P us y
        → OrTail P vs ys
        → ws ≡ t ∷ (us ++ vs)
        → OrTail P ws (y ∷ ys)

  -- A first item and a tail, joined into one tree.
  pub data Chain (P : Form A) (Tail : List Token → List A → Type 0) (join : A → List A → A)
      (ts : List Token) (e : A) : Type 0 where
    chain :
        (us vs : List Token) (x : A) (xs : List A)
        → P us x
        → Tail vs xs
        → ts ≡ us ++ vs
        → e ≡ join x xs
        → Chain P Tail join ts e

  abbrev pub AndForm : (A → List A → A) → Form A → Form A
  AndForm join P = Chain P (AndTail P) join

  abbrev pub OrForm : (A → List A → A) → Form A → Form A
  OrForm join P = Chain P (OrTail P) join

-- The value behind an operator: `*` and regexes only behind `:` and `=`.
pub data ValueForm (op : CmpOp) (ts : List Token) (v : RawValue) : Type 0 where
  star_value :
      (t : Token) (w : Bool)
      → t.kind ≡ word (codes "*") w
      → op ≡ CmpOp.eq
      → ts ≡ t ∷ []
      → v ≡ RawValue.star t.span
      → ValueForm op ts v
  word_value_form :
      (t : Token) (x : Text) (w : Bool)
      → t.kind ≡ word x w
      → x ≢ codes "*"
      → x ≢ []
      → ts ≡ t ∷ []
      → v ≡ RawValue.word x w t.span
      → ValueForm op ts v
  quoted_value :
      (t : Token) (x : Text)
      → t.kind ≡ quoted x
      → ts ≡ t ∷ []
      → v ≡ RawValue.quoted x t.span
      → ValueForm op ts v
  regex_value_form :
      (t : Token) (x : Text) (ci : Bool)
      → t.kind ≡ regex x ci
      → op ≡ CmpOp.eq
      → ts ≡ t ∷ []
      → v ≡ RawValue.regex x ci t.span
      → ValueForm op ts v

-- `NOT` and parentheses in a value group, over the forms of one level less.
pub data ValueNest (P : Form RawValueExpr) (ts : List Token) (e : RawValueExpr) : Type 0 where
  negated :
      (t : Token) (us : List Token) (x : RawValueExpr)
      → t.kind ≡ kw_not
      → P us x
      → ts ≡ t ∷ us
      → e ≡ RawValueExpr.not x (merge t.span (value_expr_span x))
      → ValueNest P ts e
  grouped :
      (t t' : Token) (us : List Token)
      → t.kind ≡ l_paren
      → t'.kind ≡ r_paren
      → OrForm join_value_or (AndForm join_value_and P) us e
      → ts ≡ t ∷ (us ++ t' ∷ [])
      → ValueNest P ts e

pub data ValueLeaf (ts : List Token) (e : RawValueExpr) : Type 0 where
  leaf : (v : RawValue) → ValueForm CmpOp.eq ts v → e ≡ RawValueExpr.value v → ValueLeaf ts e

abbrev pub ValueUnaryForm : ℕ → Form RawValueExpr
ValueUnaryForm zero ts e = ValueLeaf ts e
ValueUnaryForm (suc k) ts e = ValueLeaf ts e ⊎ ValueNest (ValueUnaryForm k) ts e

abbrev pub ValueOrForm : ℕ → Form RawValueExpr
ValueOrForm k = OrForm join_value_or (AndForm join_value_and (ValueUnaryForm k))

-- Terms, phrases and comparisons.
pub data Leaf (ts : List Token) (e : RawExpr) : Type 0 where
  term :
      (t : Token) (x : Text) (w : Bool)
      → t.kind ≡ word x w
      → x ≢ []
      → ts ≡ t ∷ []
      → e ≡ RawExpr.term x w t.span
      → Leaf ts e
  phrase :
      (t : Token) (x : Text)
      → t.kind ≡ quoted x
      → ts ≡ t ∷ []
      → e ≡ RawExpr.phrase x t.span
      → Leaf ts e
  cmp :
      (t o : Token) (x : Text) (w : Bool) (us : List Token) (v : RawValue)
      → t.kind ≡ word x w
      → is_cmp_op o.kind ≡ true
      → ValueForm (cmp_op o.kind) us v
      → ts ≡ t ∷ o ∷ us
      → e
        ≡ RawExpr.cmp
            (record { text = x; span = t.span })
            (cmp_op o.kind)
            v
            (merge t.span (value_span v))
      → Leaf ts e

-- `NOT`, parentheses and value groups, with `k` levels left inside.
pub data Nest (k : ℕ) (P : Form RawExpr) (ts : List Token) (e : RawExpr) : Type 0 where
  negated :
      (t : Token) (us : List Token) (x : RawExpr)
      → t.kind ≡ kw_not
      → P us x
      → ts ≡ t ∷ us
      → e ≡ RawExpr.not x (merge t.span (expr_span x))
      → Nest k P ts e
  parenthesised :
      (t t' : Token) (us : List Token)
      → t.kind ≡ l_paren
      → t'.kind ≡ r_paren
      → OrForm join_or (AndForm join_and P) us e
      → ts ≡ t ∷ (us ++ t' ∷ [])
      → Nest k P ts e
  group :
      (t o open_t close_t : Token) (x : Text) (w : Bool) (us : List Token) (v : RawValueExpr)
      → t.kind ≡ word x w
      → is_cmp_op o.kind ≡ true
      → cmp_op o.kind ≡ CmpOp.eq
      → open_t.kind ≡ l_paren
      → close_t.kind ≡ r_paren
      → ValueOrForm k us v
      → ts ≡ t ∷ o ∷ open_t ∷ (us ++ close_t ∷ [])
      → e ≡ RawExpr.group (record { text = x; span = t.span }) v (merge t.span close_t.span)
      → Nest k P ts e

abbrev pub UnaryForm : ℕ → Form RawExpr
UnaryForm zero ts e = Leaf ts e
UnaryForm (suc k) ts e = Leaf ts e ⊎ Nest k (UnaryForm k) ts e

-- A whole query with at most `k` levels of nesting.
abbrev pub QueryForm : ℕ → Form RawExpr
QueryForm k = OrForm join_or (AndForm join_and (UnaryForm k))
