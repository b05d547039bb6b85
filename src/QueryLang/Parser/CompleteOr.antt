-- ===== src/QueryLang/Parser/CompleteOr.antt =====
-- The loop over `OR` reads back every chain of the grammar, in front of what ends it.
use log_scope.Prelude.{
  ℕ, zero, suc, ◌<◌, ◌≡◌, ◌∙◌, refl, ap, Bool, List, [], ◌∷◌, ◌++◌, append_assoc, length, arith,
  length-append,
}
use log_scope.QueryLang.Token.{TokenKind, Token, kw_or, starts_cmp_op}
use log_scope.QueryLang.Parser.Results.{ok, ParserState, Parser}
use log_scope.QueryLang.Parser.Loops.{is_kw_and, is_kw_or, or_next, or_loop, and_of, or_of}
use log_scope.QueryLang.Parser.Grammar.{Form, OrTail, chain, AndForm, OrForm}
use log_scope.QueryLang.Parser.CompleteLoops.{state, EndsAnd, EndsOr, Starter, Complete, and_of-eq}

kw_or-EndsAnd :
    (starts : TokenKind → Bool)
    → Starter starts
    → (t : Token) (ts : List Token) → t.kind ≡ kw_or
    → EndsAnd starts (t ∷ ts)
unfolding is_kw_and starts_cmp_op
kw_or-EndsAnd starts st t ts k = record { no_cmp = rw k; no_and = rw k st.no_or }

module _ {A : Type 0} (starts : TokenKind → Bool) (st : Starter starts) where
  OrTail-EndsAnd :
      (Q : Form A) {ts : List Token} {xs : List A} (rest : List Token)
      → OrTail Q ts xs
      → EndsAnd starts rest
      → EndsAnd starts (ts ++ rest)
  OrTail-EndsAnd Q rest OrTail.done h = h
  OrTail-EndsAnd Q rest (OrTail.joined t us y k qy tail e) h = rw e (kw_or-EndsAnd starts st t _ k)

  -- `q` reads every `Q` back where an `AND` chain may end.
  record CompleteAnd (Q : Form A) (n d : ℕ) (q : Parser A) : Type 0 where
    reads :
        (us rest : List Token) (x : A)
        → Q us x
        → EndsAnd starts rest
        → length (us ++ rest) < n
        → q (state (us ++ rest) d) ≡ ok (x, state rest d)

  module _ (Q : Form A) (n d : ℕ) (q : Parser A) (complete : CompleteAnd Q n d q) where
    or_next-eq_stop :
        (more : Parser (List A)) (rest : List Token)
        → EndsOr starts rest
        → or_next q more (state rest d) rest ≡ ok ([], state rest d)
    unfolding or_next
    or_next-eq_stop more [] h = refl
    or_next-eq_stop more (t ∷ rest) h = rw h.no_or

    or_next-eq_joined :
        (more : Parser (List A)) (t : Token) (us rest : List Token) (x : A) (xs : List A)
        (v : ParserState)
        → t.kind ≡ kw_or
        → Q us x
        → EndsAnd starts rest
        → length (us ++ rest) < n
        → more (state rest d) ≡ ok (xs, v)
        → or_next q more (state (t ∷ (us ++ rest)) d) (t ∷ (us ++ rest)) ≡ ok (x ∷ xs, v)
    unfolding or_next is_kw_or
    or_next-eq_joined more t us rest x xs v k qx ends fits e =
        rw k (rw (complete.reads us rest x qx ends fits) (rw e))

    or_loop-eq :
        (rest : List Token) (fuel : ℕ) (ts : List Token) (xs : List A)
        → OrTail Q ts xs
        → EndsOr starts rest
        → length (ts ++ rest) < fuel
        → length (ts ++ rest) < n
        → or_loop fuel q (state (ts ++ rest) d) ≡ ok (xs, state rest d)
    unfolding or_loop
    or_loop-eq rest zero ts xs h ends g fits = absurd (omega arith)
    or_loop-eq rest (suc fuel) ts xs OrTail.done ends g fits = or_next-eq_stop _ rest ends
    or_loop-eq rest (suc fuel) ts xs (OrTail.joined {vs = vs} {ys = ys} t us y k qy tail e) ends g
          fits =
        let len = ap length (ap (λ l. l ++ rest) e ∙ ap (◌∷◌ t) (append_assoc us vs rest)) in
        let len' = length-append us (vs ++ rest) in
        rw (e, append_assoc us vs rest)
          (or_next-eq_joined (or_loop fuel q) t us (vs ++ rest) y ys (state rest d) k qy
            (OrTail-EndsAnd Q rest tail ends.ends_and) (omega arith)
            (or_loop-eq rest fuel vs ys tail ends (omega arith) (omega arith)))

    or_of_chain :
        (join : A → List A → A) (ts rest : List Token) (x : A)
        → OrForm join Q ts x
        → EndsOr starts rest
        → length (ts ++ rest) < n
        → or_of join q (state (ts ++ rest) d) ≡ ok (x, state rest d)
    unfolding or_of
    or_of_chain join ts rest x (chain us vs y ys qy tail e j) ends fits =
        let len = ap length (ap (λ l. l ++ rest) e ∙ append_assoc us vs rest) in
        let len' = length-append us (vs ++ rest) in
        rw (e, append_assoc us vs rest)
          (rw
            (complete.reads us (vs ++ rest) y qy (OrTail-EndsAnd Q rest tail ends.ends_and)
              (omega arith))
            (rw
              (or_loop-eq rest (suc (length (vs ++ rest))) vs ys tail ends (omega arith)
                (omega arith))
              (rw j)))

  -- Both loops together, over a parser `p` of one item.
  pub or_of-eq :
      (P : Form A) (n d : ℕ) (p : Parser A)
      → Complete starts P n d p
      → (join_and join_or : A → List A → A) (ts rest : List Token) (x : A)
      → OrForm join_or (AndForm join_and P) ts x
      → EndsOr starts rest
      → length (ts ++ rest) < n
      → or_of join_or (and_of starts join_and p) (state (ts ++ rest) d) ≡ ok (x, state rest d)
  or_of-eq P n d p c join_and join_or ts rest x =
      or_of_chain (AndForm join_and P) n d (and_of starts join_and p)
        (record { reads = and_of-eq starts st P n d p c join_and }) join_or ts rest x
