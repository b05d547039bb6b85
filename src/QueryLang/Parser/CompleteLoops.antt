-- ===== src/QueryLang/Parser/CompleteLoops.antt =====
-- The loops of the parser read back every chain of the grammar, in front of what ends it.
use log_scope.Prelude.{
  ℕ, zero, suc, ◌<◌, ◌≡◌, ◌∙◌, refl, ap, Bool, true, false, ◌||◌, List, [], ◌∷◌, ◌++◌, append_assoc,
  length, arith, length-append,
}
use log_scope.QueryLang.Token.{TokenKind, Token, kw_and, kw_or, is_cmp_op, starts_cmp_op}
use log_scope.QueryLang.Parser.Results.{ok, ParserState, Parser}
use log_scope.QueryLang.Parser.Loops.{is_kw_and, is_kw_or, item_then, and_next, and_loop, and_of}
use log_scope.QueryLang.Parser.Grammar.{Form, AndTail, done, joined, adjacent, chain, AndForm}

abbrev pub state : List Token → ℕ → ParserState
state ts d = record { tokens = ts; depth = d }

-- What may follow an `AND` chain, and an `OR` chain.
abbrev pub continues_and : (TokenKind → Bool) → List Token → Bool
continues_and starts [] = false
continues_and starts (t ∷ ts) = is_kw_and t.kind || starts t.kind

abbrev pub continues_or : List Token → Bool
continues_or [] = false
continues_or (t ∷ ts) = is_kw_or t.kind

pub record EndsAnd (starts : TokenKind → Bool) (rest : List Token) : Type 0 where
  pub no_cmp : starts_cmp_op rest ≡ false
  pub no_and : continues_and starts rest ≡ false

pub record EndsOr (starts : TokenKind → Bool) (rest : List Token) : Type 0 where
  pub ends_and : EndsAnd starts rest
  pub no_or : continues_or rest ≡ false

-- The tokens that begin an item are neither operators nor connectives.
pub record Starter (starts : TokenKind → Bool) : Type 0 where
  pub no_cmp : (k : TokenKind) → starts k ≡ true → is_cmp_op k ≡ false
  pub no_and : (k : TokenKind) → starts k ≡ true → is_kw_and k ≡ false
  pub no_or : starts kw_or ≡ false

abbrev pub Begins : (TokenKind → Bool) → List Token → Type 0
Begins starts [] = ⊥
Begins starts (t ∷ ts) = starts t.kind ≡ true

-- `p` reads every `P` back at depth `d`, from less than `n` tokens, unless an operator follows.
pub record Complete {A : Type 0} (starts : TokenKind → Bool) (P : Form A) (n d : ℕ) (p : Parser A)
    : Type 0 where
  pub reads :
      (us rest : List Token) (x : A)
      → P us x
      → starts_cmp_op rest ≡ false
      → length (us ++ rest) < n
      → p (state (us ++ rest) d) ≡ ok (x, state rest d)
  pub begins : (us : List Token) (x : A) → P us x → Begins starts us

module _ {A : Type 0} (starts : TokenKind → Bool) (st : Starter starts) (P : Form A) (n d : ℕ)
    (p : Parser A) (complete : Complete starts P n d p) where
  Begins-no_cmp : (us rest : List Token) → Begins starts us → starts_cmp_op (us ++ rest) ≡ false
  unfolding starts_cmp_op
  Begins-no_cmp [] rest b = absurd b
  Begins-no_cmp (t ∷ us) rest b = st.no_cmp t.kind b

  Begins-pos : (us : List Token) → Begins starts us → 0 < length us
  Begins-pos [] b = absurd b
  Begins-pos (t ∷ us) b = omega arith

  -- No operator stands behind an item of a chain.
  AndTail-no_cmp :
      {ts : List Token} {xs : List A} (rest : List Token)
      → AndTail P ts xs
      → starts_cmp_op rest ≡ false
      → starts_cmp_op (ts ++ rest) ≡ false
  AndTail-no_cmp rest done h = h
  AndTail-no_cmp rest (joined t us y k py tail e) h = rw e (unfold starts_cmp_op in rw k)
  AndTail-no_cmp rest (adjacent {vs = vs} us y py tail e) h =
      rw (e, append_assoc us vs rest) (Begins-no_cmp us (vs ++ rest) (complete.begins us y py))

  item_then-eq :
      (more : Parser (List A)) (s u v : ParserState) (x : A) (xs : List A)
      → p s ≡ ok (x, u)
      → more u ≡ ok (xs, v)
      → item_then p more s ≡ ok (x ∷ xs, v)
  item_then-eq more s u v x xs e f = rw e (rw f)

  and_next-eq_stop :
      (more : Parser (List A)) (rest : List Token)
      → EndsAnd starts rest
      → and_next starts p more (state rest d) rest ≡ ok ([], state rest d)
  unfolding and_next
  and_next-eq_stop more [] h = refl
  and_next-eq_stop more (t ∷ rest) h = ground (arith, h.no_and)

  and_next-eq_joined :
      (more : Parser (List A)) (t : Token) (us rest : List Token) (x : A) (xs : List A)
      (v : ParserState)
      → t.kind ≡ kw_and
      → P us x
      → starts_cmp_op rest ≡ false
      → length (us ++ rest) < n
      → more (state rest d) ≡ ok (xs, v)
      → and_next starts p more (state (t ∷ (us ++ rest)) d) (t ∷ (us ++ rest)) ≡ ok (x ∷ xs, v)
  unfolding and_next is_kw_and
  and_next-eq_joined more t us rest x xs v k px no_cmp fits e = rw k (
      item_then-eq more (state (us ++ rest) d) (state rest d) v x xs
        (complete.reads us rest x px no_cmp fits) e)

  and_next-eq_adjacent :
      (more : Parser (List A)) (us rest : List Token) (x : A) (xs : List A) (v : ParserState)
      → P us x
      → starts_cmp_op rest ≡ false
      → length (us ++ rest) < n
      → more (state rest d) ≡ ok (xs, v)
      → and_next starts p more (state (us ++ rest) d) (us ++ rest) ≡ ok (x ∷ xs, v)
  unfolding and_next
  and_next-eq_adjacent more [] rest x xs v px no_cmp fits e = absurd (complete.begins [] x px)
  and_next-eq_adjacent more (t ∷ us) rest x xs v px no_cmp fits e =
      let b = complete.begins (t ∷ us) x px in
      rw (st.no_and t.kind b, b)
        (item_then-eq more (state (t ∷ (us ++ rest)) d) (state rest d) v x xs
          (complete.reads (t ∷ us) rest x px no_cmp fits) e)

  and_loop-eq :
      (rest : List Token) (fuel : ℕ) (ts : List Token) (xs : List A)
      → AndTail P ts xs
      → EndsAnd starts rest
      → length (ts ++ rest) < fuel
      → length (ts ++ rest) < n
      → and_loop fuel starts p (state (ts ++ rest) d) ≡ ok (xs, state rest d)
  unfolding and_loop
  and_loop-eq rest zero ts xs h ends g fits = absurd (omega arith)
  and_loop-eq rest (suc fuel) ts xs done ends g fits = and_next-eq_stop _ rest ends
  and_loop-eq rest (suc fuel) ts xs (joined {vs = vs} {ys = ys} t us y k py tail e) ends g fits =
      let len = ap length (ap (λ l. l ++ rest) e ∙ ap (◌∷◌ t) (append_assoc us vs rest)) in
      let len' = length-append us (vs ++ rest) in
      rw (e, append_assoc us vs rest)
        (and_next-eq_joined (and_loop fuel starts p) t us (vs ++ rest) y ys (state rest d) k py
          (AndTail-no_cmp rest tail ends.no_cmp) (omega arith)
          (and_loop-eq rest fuel vs ys tail ends (omega arith) (omega arith)))
  and_loop-eq rest (suc fuel) ts xs (adjacent {vs = vs} {ys = ys} us y py tail e) ends g fits =
      let len = ap length (ap (λ l. l ++ rest) e ∙ append_assoc us vs rest) in
      let len' = length-append us (vs ++ rest) in
      let pos = Begins-pos us (complete.begins us y py) in
      rw (e, append_assoc us vs rest)
        (and_next-eq_adjacent (and_loop fuel starts p) us (vs ++ rest) y ys (state rest d) py
          (AndTail-no_cmp rest tail ends.no_cmp) (omega arith)
          (and_loop-eq rest fuel vs ys tail ends (omega arith) (omega arith)))

  pub and_of-eq :
      (join : A → List A → A) (ts rest : List Token) (x : A)
      → AndForm join P ts x
      → EndsAnd starts rest
      → length (ts ++ rest) < n
      → and_of starts join p (state (ts ++ rest) d) ≡ ok (x, state rest d)
  unfolding and_of
  and_of-eq join ts rest x (chain us vs y ys py tail e j) ends fits =
      let len = ap length (ap (λ l. l ++ rest) e ∙ append_assoc us vs rest) in
      let len' = length-append us (vs ++ rest) in
      rw (e, append_assoc us vs rest)
        (rw
          (complete.reads us (vs ++ rest) y py (AndTail-no_cmp rest tail ends.no_cmp) (omega arith))
          (rw
            (and_loop-eq rest (suc (length (vs ++ rest))) vs ys tail ends (omega arith)
              (omega arith))
            (rw j)))

  pub AndForm-Begins :
      (join : A → List A → A) (ts : List Token) (x : A) → AndForm join P ts x → Begins starts ts
  AndForm-Begins join ts x (chain us vs y ys py tail e j) =
      rw e (front us (complete.begins us y py))
    where
      front : (us : List Token) → Begins starts us → Begins starts (us ++ vs)
      front [] b = absurd b
      front (t ∷ us) b = b
