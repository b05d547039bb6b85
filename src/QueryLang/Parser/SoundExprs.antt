-- ===== src/QueryLang/Parser/SoundExprs.antt =====
-- Predicates and expressions keep within their fuel and follow the grammar.
use log_scope.Prelude.{
  ℕ, zero, suc, ◌+◌, ◌-◌, ◌<◌, ◌≡◌, ◌≢◌, ◌∙◌, refl, sym, ap, Bool, true, List, [], ◌∷◌, ◌++◌, inl,
  inr, append_assoc, length, arith,
}
use log_scope.Text.{Text, text_eq}
use log_scope.QueryLang.Token.{TokenKind, Token, word, l_paren, is_cmp_op}
use log_scope.QueryLang.Ast.{CmpOp, RawExpr, RawField}
use log_scope.QueryLang.Parser.Results.{ok, ParserState, Parser}
use log_scope.QueryLang.Parser.Env.{Env, leave}
use log_scope.QueryLang.Parser.Values.{op_is_eq, group_unbalanced}
use log_scope.QueryLang.Parser.Exprs.{
  cmp_op, parse_group, parse_comparison, is_l_paren, predicate_at, parse_predicate, join_and,
  join_or, starts_unary, parse_predicate_or_term, or_over, group_op,
}
use log_scope.QueryLang.Parser.Grammar.{Form, Leaf, Nest, UnaryForm, QueryForm}
use log_scope.QueryLang.Parser.Meets.{Meets, met, refused, Meets-bind, Meets-if, Reads}
use log_scope.QueryLang.Parser.SoundLoops.{Sound, and_of-Sound, or_of-Sound}
use log_scope.QueryLang.Parser.SoundValues.{
  op_is_eq→eq, ne_of_text_eq, parse_value-Reads, close_paren-Closed, enter-Entered,
}
use log_scope.QueryLang.Parser.SoundGroups.{parse_value_or-Reads}

pub UnaryForm-leaf : (k : ℕ) {us : List Token} {e : RawExpr} → Leaf us e → UnaryForm k us e
UnaryForm-leaf zero h = h
UnaryForm-leaf (suc k) h = inl h

Leaf-nonempty : (us : List Token) (e : RawExpr) → Leaf us e → 0 < length us
Leaf-nonempty us e (Leaf.term t x w a b s _) = rw s (omega arith)
Leaf-nonempty us e (Leaf.phrase t x a s _) = rw s (omega arith)
Leaf-nonempty us e (Leaf.cmp t o x w vs v a b c s _) = rw s (omega arith)

Nest-nonempty :
    (k : ℕ) (P : Form RawExpr) (us : List Token) (e : RawExpr) → Nest k P us e → 0 < length us
Nest-nonempty k P us e (Nest.negated t vs x a f s _) = rw s (omega arith)
Nest-nonempty k P us e (Nest.parenthesised t t' vs a b f s) = rw s (omega arith)
Nest-nonempty k P us e (Nest.group t o a b x w vs v h1 h2 h3 h4 h5 f s _) = rw s (omega arith)

pub UnaryForm_nonempty : (k : ℕ) (us : List Token) (e : RawExpr) → UnaryForm k us e → 0 < length us
UnaryForm_nonempty zero us e h = Leaf-nonempty us e h
UnaryForm_nonempty (suc k) us e (inl h) = Leaf-nonempty us e h
UnaryForm_nonempty (suc k) us e (inr h) = Nest-nonempty k (UnaryForm k) us e h

abbrev pub SoundBelow : Env → ℕ → Parser RawExpr → Type 0
SoundBelow env n unary = (k d : ℕ) → d + k ≡ env.limits.max_depth → Sound (UnaryForm k) n d unary

pub or_over-Sound :
    (env : Env) (n k d : ℕ) (unary : Parser RawExpr)
    → SoundBelow env n unary
    → d + k ≡ env.limits.max_depth
    → Sound (QueryForm k) n d (or_over unary)
or_over-Sound env n k d unary sound e =
    or_of-Sound _ n d _ (and_of-Sound _ n d unary (sound k d e) starts_unary join_and) join_or

is_l_paren→eq : (k : TokenKind) → is_l_paren k ≡ true → k ≡ l_paren
unfolding is_l_paren
is_l_paren→eq l_paren h = refl
is_l_paren→eq _ h = cc

-- A word `t` and an operator `o` behind it were taken.
module _ (env : Env) (t o : Token) (x : Text) (w : Bool) (is_word : t.kind ≡ word x w)
    (is_op : is_cmp_op o.kind ≡ true) where
  abbrev the_field : RawField
  the_field = record { text = x; span = t.span }

  comparison-Reads :
      (k : ℕ) (s : ParserState) (ts : List Token)
      → s.tokens ≡ ts
      → Meets
          (Reads (UnaryForm k) (t ∷ o ∷ ts) s.depth)
          (parse_comparison env the_field (cmp_op o.kind) s)
  unfolding parse_comparison
  comparison-Reads k s ts e =
      Meets-bind _ (parse_value-Reads env the_field (cmp_op o.kind) s) λ v u r. met (record {
        taken = t ∷ o ∷ r.taken;
        splits = ap (λ (l : List Token). t ∷ o ∷ l) (sym e ∙ r.splits);
        form = UnaryForm-leaf k (Leaf.cmp t o x w r.taken v is_word is_op r.form refl refl);
        depth = r.depth;
      })

  group-Reads :
      (k : ℕ) (p : Token) (s : ParserState)
      → p.kind ≡ l_paren
      → cmp_op o.kind ≡ CmpOp.eq
      → s.depth + k ≡ env.limits.max_depth
      → Meets
          (Reads (UnaryForm k) (t ∷ o ∷ p ∷ s.tokens) s.depth)
          (parse_group env the_field p.span s)
  unfolding parse_group leave group_unbalanced
  group-Reads zero p s is_open is_eq e =
      Meets-bind _ (enter-Entered env p.span s) λ _ u en. absurd (omega (arith, en.within))
  group-Reads (suc k) p s is_open is_eq e = Meets-bind _ (enter-Entered env p.span s) λ _ u en.
      Meets-bind _ (parse_value_or-Reads env the_field k u (omega (arith, en.depth))) λ v u' r.
        Meets-bind _ (close_paren-Closed _ env (record u' { depth = u'.depth - 1 }) λ at. refl)
          λ close w' c. met (record {
            taken = t ∷ o ∷ p ∷ (r.taken ++ c.token ∷ []);
            splits = simp (← en.tokens, r.splits, c.splits, append_assoc);
            form = inr (
                Nest.group t o p c.token x w r.taken v is_word is_op is_eq is_open c.is_close r.form
                  refl (rw c.span));
            depth = omega (arith, r.depth, c.depth, en.depth);
          })

  predicate_at-Reads :
      (k : ℕ) (s : ParserState) (ts : List Token)
      → s.tokens ≡ ts
      → s.depth + k ≡ env.limits.max_depth
      → Meets
          (Reads (UnaryForm k) (t ∷ o ∷ ts) s.depth)
          (predicate_at env the_field (cmp_op o.kind) o.span s ts)
  unfolding predicate_at group_op
  predicate_at-Reads k s [] e d = comparison-Reads k s [] e
  predicate_at-Reads k s (p ∷ ts) e d =
      Meets-if (is_l_paren p.kind)
        (λ h.
          Meets-if (op_is_eq (cmp_op o.kind))
            (λ q.
              group-Reads k p (record s { tokens = ts }) (is_l_paren→eq p.kind h) (op_is_eq→eq _ q)
                d)
            λ _. refused refl)
        λ _. comparison-Reads k s (p ∷ ts) e

  pub parse_predicate-Reads :
      (k : ℕ) (s : ParserState)
      → s.depth + k ≡ env.limits.max_depth
      → Meets (Reads (UnaryForm k) (t ∷ o ∷ s.tokens) s.depth) (parse_predicate env the_field o s)
  unfolding parse_predicate
  parse_predicate-Reads k s d = predicate_at-Reads k s s.tokens refl d

term-Reads :
    (k : ℕ) (t : Token) (x : Text) (w : Bool) (s : ParserState) (ts : List Token)
    → t.kind ≡ word x w
    → x ≢ []
    → s.tokens ≡ ts
    → Meets (Reads (UnaryForm k) (t ∷ ts) s.depth) (ok (RawExpr.term x w t.span, s))
term-Reads k t x w s ts is_word ne e = met (record {
  taken = t ∷ [];
  splits = rw e;
  form = UnaryForm-leaf k (Leaf.term t x w is_word ne refl refl);
  depth = refl;
})

pub predicate_or_term-Reads :
    (env : Env) (k : ℕ) (t : Token) (x : Text) (w : Bool) (s : ParserState) (ts : List Token)
    → t.kind ≡ word x w
    → s.tokens ≡ ts
    → s.depth + k ≡ env.limits.max_depth
    → Meets (Reads (UnaryForm k) (t ∷ ts) s.depth) (parse_predicate_or_term env t x w s ts)
unfolding parse_predicate_or_term
predicate_or_term-Reads env k t x w s [] is_word e d =
    Meets-if (text_eq x []) (λ _. refused refl)
      λ h. term-Reads k t x w s [] is_word (ne_of_text_eq x [] h) e
predicate_or_term-Reads env k t x w s (n ∷ ts) is_word e d =
    Meets-if (is_cmp_op n.kind)
      (λ is_op. parse_predicate-Reads env t n x w is_word is_op k (record s { tokens = ts }) d)
      λ _.
        Meets-if (text_eq x []) (λ _. refused refl)
          λ h. term-Reads k t x w s (n ∷ ts) is_word (ne_of_text_eq x [] h) e
