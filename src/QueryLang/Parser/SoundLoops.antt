-- ===== src/QueryLang/Parser/SoundLoops.antt =====
-- The loops of the parser keep within their fuel and take what the grammar's chains describe.
use log_scope.Prelude.{
  ℕ, zero, suc, ◌<◌, ◌≡◌, refl, ap, Bool, true, List, [], ◌∷◌, ◌++◌, append_assoc, length, arith,
  length-append,
}
use log_scope.QueryLang.Token.{TokenKind, Token, kw_and, kw_or}
use log_scope.QueryLang.Parser.Results.{ok, ParserState, Parser, pure, ◌>>=◌}
use log_scope.QueryLang.Parser.Loops.{
  is_kw_and, is_kw_or, item_then, and_next, and_loop, or_next, or_loop, and_of, or_of,
}
use log_scope.QueryLang.Parser.Grammar.{
  Form, AndTail, done, joined, adjacent, OrTail, Chain, chain, AndForm, OrForm,
}
use log_scope.QueryLang.Parser.Meets.{Meets, met, Meets-bind, Meets-if, Reads, length-Reads}

is_kw_and→eq : (k : TokenKind) → is_kw_and k ≡ true → k ≡ kw_and
unfolding is_kw_and
is_kw_and→eq kw_and h = refl
is_kw_and→eq _ h = cc

is_kw_or→eq : (k : TokenKind) → is_kw_or k ≡ true → k ≡ kw_or
unfolding is_kw_or
is_kw_or→eq kw_or h = refl
is_kw_or→eq _ h = cc

-- `p` reads a `P`, which is never empty, off any input of less than `n` tokens at depth `d`.
pub record Sound {A : Type 0} (P : Form A) (n d : ℕ) (p : Parser A) : Type 0 where
  pub reads :
      (s : ParserState) → length s.tokens < n → s.depth ≡ d → Meets (Reads P s.tokens d) (p s)
  pub nonempty : (us : List Token) (x : A) → P us x → 0 < length us

module _ {A : Type 0} (P : Form A) (n d : ℕ) (p : Parser A) (sound : Sound P n d p) where
  -- One item and the tail behind it, where `front` tokens were taken before.
  item_then-Sound :
      (T : List Token → List A → Type 0) (more : Parser (List A)) (s : ParserState)
      → length s.tokens < n
      → s.depth ≡ d
      → ((u : ParserState)
          → length u.tokens < length s.tokens
          → u.depth ≡ d
          → Meets (Reads T u.tokens d) (more u))
      → (ws front : List Token) → ws ≡ front ++ s.tokens
      → ((us : List Token) (y : A) (vs : List Token) (ys : List A)
          → P us y
          → T vs ys
          → T (front ++ (us ++ vs)) (y ∷ ys))
      → Meets (Reads T ws d) (item_then p more s)
  item_then-Sound T more s fits at_d next ws front split build =
      Meets-bind _ (sound.reads s fits at_d) λ x u r.
        Meets-bind _
          (next u (omega (arith, length-Reads r, sound.nonempty r.taken x r.form)) r.depth)
          λ xs v q. met (record {
            taken = front ++ (r.taken ++ q.taken);
            splits = simp (split, r.splits, q.splits, append_assoc);
            form = build r.taken x q.taken xs r.form q.form;
            depth = q.depth;
          })

  -- A tail that ends here.
  stop-Sound :
      (T : List Token → List A → Type 0) (s : ParserState) (ws : List Token)
      → ws ≡ s.tokens
      → s.depth ≡ d
      → T [] []
      → Meets (Reads T ws d) (ok ([], s))
  stop-Sound T s ws e at_d h = met (record { taken = []; splits = e; form = h; depth = at_d })

  and_next-Sound :
      (starts : TokenKind → Bool) (more : Parser (List A)) (s : ParserState) (ts : List Token)
      → s.tokens ≡ ts
      → length ts < n
      → s.depth ≡ d
      → ((u : ParserState)
          → length u.tokens < length ts
          → u.depth ≡ d
          → Meets (Reads (AndTail P) u.tokens d) (more u))
      → Meets (Reads (AndTail P) s.tokens d) (and_next starts p more s ts)
  unfolding and_next
  and_next-Sound starts more s [] e fits at_d next =
      stop-Sound (AndTail P) s s.tokens refl at_d done
  and_next-Sound starts more s (t ∷ ts) e fits at_d next =
      Meets-if (is_kw_and t.kind)
        (λ k.
          item_then-Sound (AndTail P) more (record s { tokens = ts }) (omega arith) at_d
            (λ u h. next u (omega arith)) s.tokens (t ∷ []) e
            λ us y vs ys py rest. joined t us y (is_kw_and→eq t.kind k) py rest refl)
        λ _.
          Meets-if (starts t.kind)
            (λ _.
              item_then-Sound (AndTail P) more s (omega (arith, ap length e)) at_d
                (λ u h. next u (omega (arith, ap length e))) s.tokens [] refl
                λ us y vs ys py rest. adjacent us y py rest refl)
            λ _. stop-Sound (AndTail P) s s.tokens refl at_d done

  and_loop-Sound :
      (starts : TokenKind → Bool) (fuel : ℕ) (s : ParserState)
      → length s.tokens < fuel
      → length s.tokens < n
      → s.depth ≡ d
      → Meets (Reads (AndTail P) s.tokens d) (and_loop fuel starts p s)
  unfolding and_loop
  and_loop-Sound starts zero s g fits at_d = absurd (omega arith)
  and_loop-Sound starts (suc fuel) s g fits at_d =
      and_next-Sound starts (and_loop fuel starts p) s s.tokens refl fits at_d
        λ u h. and_loop-Sound starts fuel u (omega arith) (omega arith)

  or_next-Sound :
      (more : Parser (List A)) (s : ParserState) (ts : List Token)
      → s.tokens ≡ ts
      → length ts < n
      → s.depth ≡ d
      → ((u : ParserState)
          → length u.tokens < length ts
          → u.depth ≡ d
          → Meets (Reads (OrTail P) u.tokens d) (more u))
      → Meets (Reads (OrTail P) s.tokens d) (or_next p more s ts)
  unfolding or_next
  or_next-Sound more s [] e fits at_d next = stop-Sound (OrTail P) s s.tokens refl at_d OrTail.done
  or_next-Sound more s (t ∷ ts) e fits at_d next =
      Meets-if (is_kw_or t.kind)
        (λ k.
          item_then-Sound (OrTail P) more (record s { tokens = ts }) (omega arith) at_d
            (λ u h. next u (omega arith)) s.tokens (t ∷ []) e
            λ us y vs ys py rest. OrTail.joined t us y (is_kw_or→eq t.kind k) py rest refl)
        λ _. stop-Sound (OrTail P) s s.tokens refl at_d OrTail.done

  or_loop-Sound :
      (fuel : ℕ) (s : ParserState)
      → length s.tokens < fuel
      → length s.tokens < n
      → s.depth ≡ d
      → Meets (Reads (OrTail P) s.tokens d) (or_loop fuel p s)
  unfolding or_loop
  or_loop-Sound zero s g fits at_d = absurd (omega arith)
  or_loop-Sound (suc fuel) s g fits at_d =
      or_next-Sound (or_loop fuel p) s s.tokens refl fits at_d
        λ u h. or_loop-Sound fuel u (omega arith) (omega arith)

  -- A first item and the tail that `tail` reads.
  Chain-Sound :
      (T : List Token → List A → Type 0) (join : A → List A → A) (tail : Parser (List A))
      → ((u : ParserState)
          → length u.tokens < n
          → u.depth ≡ d
          → Meets (Reads T u.tokens d) (tail u))
      → (s : ParserState) → length s.tokens < n
      → s.depth ≡ d
      → Meets (Reads (Chain P T join) s.tokens d) ((do x ← p; xs ← tail; pure (join x xs)) s)
  Chain-Sound T join tail next s fits at_d = Meets-bind _ (sound.reads s fits at_d) λ x u r.
      Meets-bind _ (next u (omega (arith, length-Reads r)) r.depth) λ xs v q. met (record {
        taken = r.taken ++ q.taken;
        splits = simp (r.splits, q.splits, append_assoc);
        form = chain r.taken q.taken x xs r.form q.form refl refl;
        depth = q.depth;
      })

  Chain-nonempty :
      (T : List Token → List A → Type 0) (join : A → List A → A) (us : List Token) (x : A)
      → Chain P T join us x
      → 0 < length us
  Chain-nonempty T join us x (chain ts vs y ys py tail e _) =
      omega (arith, sound.nonempty ts y py, ap length e, length-append ts vs)

  pub and_of-Sound :
      (starts : TokenKind → Bool) (join : A → List A → A)
      → Sound (AndForm join P) n d (and_of starts join p)
  and_of-Sound starts join = record {
    reads =
        unfold and_of in
        Chain-Sound (AndTail P) join _
          (λ u. and_loop-Sound starts (suc (length u.tokens)) u (omega arith));
    nonempty = Chain-nonempty (AndTail P) join;
  }

  pub or_of-Sound : (join : A → List A → A) → Sound (OrForm join P) n d (or_of join p)
  or_of-Sound join = record {
    reads =
        unfold or_of in
        Chain-Sound (OrTail P) join _ (λ u. or_loop-Sound (suc (length u.tokens)) u (omega arith));
    nonempty = Chain-nonempty (OrTail P) join;
  }
