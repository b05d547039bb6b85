-- ===== src/QueryLang/Lexer/Spans.antt =====
-- The lexer reads its whole input, and its tokens lie in it in order.
use log_scope.Prelude.{
  ℕ, zero, suc, ◌≤◌, ◌<◌, ◌^◌, ◌≡◌, refl, ap, List, [], ◌∷◌, ◌++◌, inl, inr, arith, ltb, Bool-cases,
  length, List-cases, subst,
}
use log_scope.Text.{Text, utf8_len, utf16_len, utf16_len-le-utf8_len}
use log_scope.QueryLang.Diag.{LangLimits}
use log_scope.QueryLang.Token.{TokenKind, Token}
use log_scope.QueryLang.Lexer.Scan.{Pos, origin, bump, span_from}
use log_scope.QueryLang.Lexer.Reach.{length-Reach, At, At-bump, bump-lt, At-Reach}
use log_scope.QueryLang.Lexer.Steps.{Stepped, spanned, lex_step-Stepped}
use log_scope.QueryLang.Lexer.Branches.{LexState}
use log_scope.QueryLang.Lexer.{lex_step, lex_loop, lex_start, lex_finish, lex}

pub lex_loop-nil :
    (limits : LangLimits) (fuel : ℕ) (s : LexState) → s.chars ≡ [] → lex_loop limits fuel s ≡ s
unfolding lex_loop
lex_loop-nil limits zero s e = refl
lex_loop-nil limits (suc fuel) s e = simp (e, lex_loop)

pub lex_loop-cons :
    (limits : LangLimits) (fuel : ℕ) (s : LexState) (c : ℕ) (cs : Text)
    → s.chars ≡ c ∷ cs
    → lex_loop limits (suc fuel) s ≡ lex_loop limits fuel (lex_step limits s c cs)
unfolding lex_loop
lex_loop-cons limits fuel s c cs e = simp (e, lex_loop)

-- The loop ends by its own test: with a unit of fuel for each character, none is left.
pub lex_loop-consumes :
    (limits : LangLimits) (fuel : ℕ) (s : LexState)
    → length s.chars ≤ fuel
    → (lex_loop limits fuel s).chars ≡ []
lex_loop-consumes limits zero s h = unfold lex_loop in ground arith
lex_loop-consumes limits (suc fuel) s h = elim (List-cases s.chars) [
  | inl e ↦ rw (lex_loop-nil limits (suc fuel) s e) e
  | inr (c, cs, e) ↦ rw (lex_loop-cons limits fuel s c cs e) (
      lex_loop-consumes limits fuel (lex_step limits s c cs)
        (omega (arith, ap length e, length-Reach (lex_step-Stepped limits s c cs).reach)))
]

-- An invariant of one round is an invariant of the loop.
pub lex_loop_inv {ℓ} :
    (limits : LangLimits) (P : LexState → Type ℓ)
    → ((s : LexState) (c : ℕ) (cs : Text) → s.chars ≡ c ∷ cs → P s → P (lex_step limits s c cs))
    → (fuel : ℕ) (s : LexState) → P s
    → P (lex_loop limits fuel s)
lex_loop_inv limits P keep zero s h = unfold lex_loop in h
lex_loop_inv limits P keep (suc fuel) s h = elim (List-cases s.chars) [
  | inl e ↦ rw (lex_loop-nil limits (suc fuel) s e) h
  | inr (c, cs, e) ↦
      rw (lex_loop-cons limits fuel s c cs e)
        (lex_loop_inv limits P keep fuel (lex_step limits s c cs) (keep s c cs e h))
]

-- Tokens in order between two positions, in both units, none of them empty.
abbrev pub Spaced : Pos → List Token → Pos → Type 0
Spaced lo [] hi = (lo.byte ≤ hi.byte) × (lo.utf16 ≤ hi.utf16)
Spaced lo (t ∷ ts) hi =
    (lo.byte ≤ t.span.start)
    × (lo.utf16 ≤ t.span.start_utf16)
    × (t.span.start < t.span.end)
    × (t.span.start_utf16 < t.span.end_utf16)
    × Spaced (record { byte = t.span.end; utf16 = t.span.end_utf16 }) ts hi

Spaced-le :
    (lo : Pos) (ts : List Token) (hi hi' : Pos)
    → Spaced lo ts hi
    → hi.byte ≤ hi'.byte
    → hi.utf16 ≤ hi'.utf16
    → Spaced lo ts hi'
Spaced-le lo [] hi hi' h b u = omega arith
Spaced-le lo (t ∷ ts) hi hi' (a, b, c, d, h) p q = (a, b, c, d, Spaced-le _ ts hi hi' h p q)

Spaced-push :
    (lo : Pos) (ts : List Token) (p q : Pos) (k : TokenKind)
    → Spaced lo ts p
    → p.byte < q.byte
    → p.utf16 < q.utf16
    → Spaced lo (ts ++ spanned k p q ∷ []) q
unfolding span_from
Spaced-push lo [] p q k h b u = omega arith
Spaced-push lo (t ∷ ts) p q k (a1, a2, a3, a4, h) b u =
    (a1, a2, a3, a4, Spaced-push _ ts p q k h b u)

module _ (limits : LangLimits) (n8 n16 : ℕ) (small : n8 < 2 ^ 32) (small16 : n16 < 2 ^ 32) where
  record InOrder (s : LexState) : Type 0 where
    at : At n8 n16 s.chars s.pos
    spaced : Spaced origin s.tokens s.pos

  InOrder-Stepped :
      (s : LexState) (c : ℕ) (cs : Text) (s' : LexState)
      → s.chars ≡ c ∷ cs
      → Stepped s c cs s'
      → InOrder s
      → InOrder s'
  InOrder-Stepped s c cs s' e st inv =
      let before : At n8 n16 (c ∷ cs) s.pos = subst (λ t. At n8 n16 t s.pos) e inv.at in
      let (after, b, u) =
        At-Reach n8 n16 small small16 cs (bump c s.pos) st.reach
          (At-bump n8 n16 small small16 c cs s.pos before) in
      let (lt8, lt16) = bump-lt n8 n16 small small16 c cs s.pos before in
      record {
        at = after;
        spaced = elim st.tokens [
          | inl same ↦
              rw same
                (Spaced-le origin s.tokens s.pos s'.pos inv.spaced (omega arith) (omega arith))
          | inr (k, more) ↦
              rw more
                (Spaced-push origin s.tokens s.pos s'.pos k inv.spaced (omega arith) (omega arith))
        ];
      }

  lex_loop-InOrder : (fuel : ℕ) (s : LexState) → InOrder s → InOrder (lex_loop limits fuel s)
  lex_loop-InOrder =
      lex_loop_inv limits InOrder λ s c cs e.
        InOrder-Stepped s c cs (lex_step limits s c cs) e (lex_step-Stepped limits s c cs)

-- Where the loop ends, and the position there.
lex_loop-end :
    (text : Text) (limits : LangLimits)
    → utf8_len text < 2 ^ 32
    → Spaced origin
        (lex_loop limits (length text) (lex_start text)).tokens
        (record { byte = utf8_len text; utf16 = utf16_len text })
lex_loop-end text limits h =
    let n8 = utf8_len text in
    let n16 = utf16_len text in
    let s = lex_loop limits (length text) (lex_start text) in
    let inv : InOrder limits n8 n16 h (omega (arith, utf16_len-le-utf8_len text)) s =
      lex_loop-InOrder limits n8 n16 h (omega (arith, utf16_len-le-utf8_len text)) (length text)
        (lex_start text)
        (record {
          at = record { bytes = omega arith; units = omega arith };
          spaced = omega arith;
        }) in
    let all_read = lex_loop-consumes limits (length text) (lex_start text) (omega arith) in
    let at_end : At n8 n16 [] s.pos = subst (λ t. At n8 n16 t s.pos) all_read inv.at in
    Spaced-le origin s.tokens s.pos _ inv.spaced (unfold utf8_len in omega (arith, at_end.bytes))
      (unfold utf16_len in omega (arith, at_end.units))

-- The tokens of a text whose length fits a `u32` lie in the text, in order, apart and not empty,
-- counted in bytes and in UTF-16 units.
pub lex-Spaced :
    (text : Text) (limits : LangLimits)
    → utf8_len text < 2 ^ 32
    → Spaced origin (lex text limits).0 (record { byte = utf8_len text; utf16 = utf16_len text })
lex-Spaced text limits h = elim (Bool-cases (ltb limits.max_text_bytes (utf8_len text))) [
  | inl long ↦ unfold lex in rw long (omega arith)
  | inr short ↦ unfold lex lex_finish in rw short (lex_loop-end text limits h)
]
