-- ===== src/QueryLang/Format/Scanning.antt =====
-- How the lexer's loops read what the serializer writes.
use log_scope.Prelude.{
  ℕ, ◌≡◌, ◌∙◌, refl, ap, Bool, true, false, ◌||◌, List, [], ◌∷◌, ◌++◌, ◌==◌, if◌then◌else◌, ==_iff,
  all, append_assoc, append-nil, arith,
}
use log_scope.Text.{Text, is_whitespace}
use log_scope.QueryLang.Diag.{Diagnostic, LangLimits}
use log_scope.QueryLang.Token.{word, quoted, colon}
use log_scope.QueryLang.Lexer.Scan.{
  Pos, bump, is_word_char, is_wildcard, Scanned, scan_quoted, string_escape, Word, scan_word,
}
use log_scope.QueryLang.Lexer.Branches.{
  LexState, push_token, lex_single, unterminated_string, lex_quoted, word_kind, lex_word,
}
use log_scope.QueryLang.Lexer.{lex_token, lex_step}
use log_scope.QueryLang.Format.{is_bare_char, is_keyword, bare_safe, quote_char, quote_body}

-- The position behind a text.
pub bumps : Text → Pos → Pos
bumps [] p = p
bumps (c ∷ cs) p = bumps cs (bump c p)

pub bumps-append : (s t : Text) (p : Pos) → bumps (s ++ t) p ≡ bumps t (bumps s p)
unfolding bumps
bumps-append [] t p = refl
bumps-append (c ∷ s) t p = bumps-append s t (bump c p)

-- Where a word ends.
abbrev pub EndsWord : Text → Type 0
EndsWord [] = Unit
EndsWord (c ∷ cs) = is_word_char c ≡ false

scan_word-stop :
    (start : Pos) (rest : Text) (p : Pos) (out : Text) (wild esc : Bool) (ds : List Diagnostic)
    → EndsWord rest
    → scan_word start rest p out wild esc ds
      ≡ record { chars = rest; pos = p; out = out; wildcard = wild; had_escape = esc; diags = ds }
unfolding scan_word
scan_word-stop start [] p out wild esc ds h = refl
scan_word-stop start (c ∷ []) p out wild esc ds h = rw h
scan_word-stop start (c ∷ d ∷ cs) p out wild esc ds h = rw h

scan_word-plain :
    (start : Pos) (c : ℕ) (cs : Text) (p : Pos) (out : Text) (wild esc : Bool)
    (ds : List Diagnostic)
    → is_word_char c ≡ true
    → (c == b'\\') ≡ false
    → scan_word start (c ∷ cs) p out wild esc ds
      ≡ scan_word start cs (bump c p) (out ++ c ∷ []) (wild || is_wildcard c) esc ds
unfolding scan_word
scan_word-plain start c [] p out wild esc ds h k = rw (h, k)
scan_word-plain start c (d ∷ cs) p out wild esc ds h k = rw (h, k)

bare_char_word : (c : ℕ) → is_bare_char c ≡ true → is_word_char c ≡ true
unfolding is_bare_char is_word_char
bare_char_word c h = ground arith

bare_char_no_escape : (c : ℕ) → is_bare_char c ≡ true → (c == b'\\') ≡ false
unfolding is_bare_char
bare_char_no_escape c h = ground arith

bare_char_no_wildcard : (c : ℕ) → is_bare_char c ≡ true → is_wildcard c ≡ false
unfolding is_bare_char is_wildcard
bare_char_no_wildcard c h = ground arith

-- Bare characters are read as they stand.
scan_word-bare :
    (start : Pos) (w rest : Text) (p : Pos) (out : Text) (ds : List Diagnostic)
    → all is_bare_char w ≡ true
    → EndsWord rest
    → scan_word start (w ++ rest) p out false false ds ≡ record {
      chars = rest;
      pos = bumps w p;
      out = out ++ w;
      wildcard = false;
      had_escape = false;
      diags = ds;
    }
unfolding bumps
scan_word-bare start [] rest p out ds h ends =
    rw append-nil (scan_word-stop start rest p out false false ds ends)
scan_word-bare start (c ∷ w) rest p out ds h ends =
    let bare : is_bare_char c ≡ true = ground arith in
    scan_word-plain start c (w ++ rest) p out false false ds (bare_char_word c bare)
      (bare_char_no_escape c bare)
    ∙ rw (bare_char_no_wildcard c bare) (
        scan_word-bare start w rest (bump c p) (out ++ c ∷ []) ds (ground arith) ends
        ∙ rw append_assoc)

word_kind-bare : (w : Word) → is_keyword w.out ≡ false → word_kind w ≡ word w.out w.wildcard
unfolding word_kind is_keyword
word_kind-bare w h = ground arith

pub bare_safe-all : (w : Text) → bare_safe w ≡ true → all is_bare_char w ≡ true
unfolding bare_safe
bare_safe-all w h = ground arith

pub bare_safe-no_keyword : (w : Text) → bare_safe w ≡ true → is_keyword w ≡ false
unfolding bare_safe
bare_safe-no_keyword w h = ground arith

abbrev push_word : LexState → Word → LexState
push_word s w = push_token s s.pos (word_kind w) w.diags w.chars w.pos

abbrev bare_word : Text → Text → Pos → Word
bare_word w rest p = record {
  chars = rest;
  pos = p;
  out = w;
  wildcard = false;
  had_escape = false;
  diags = [];
}

pub lex_word-bare :
    (s : LexState) (c : ℕ) (w rest : Text)
    → bare_safe (c ∷ w) ≡ true
    → EndsWord rest
    → lex_word s c (w ++ rest)
      ≡ push_token s s.pos (word (c ∷ w) false) [] rest (bumps (c ∷ w) s.pos)
unfolding lex_word
lex_word-bare s c w rest h ends =
    ap (push_word s) (scan_word-bare s.pos (c ∷ w) rest s.pos [] [] (bare_safe-all (c ∷ w) h) ends)
    ∙ ap (λ k. push_token s s.pos k [] rest (bumps (c ∷ w) s.pos))
        (word_kind-bare (bare_word (c ∷ w) rest (bumps (c ∷ w) s.pos))
          (bare_safe-no_keyword (c ∷ w) h))

-- A bare character opens a word.
pub lex_step-bare :
    (limits : LangLimits) (s : LexState) (c : ℕ) (cs : Text)
    → is_bare_char c ≡ true
    → lex_step limits s c cs ≡ lex_word (record s { regex_position = false }) c cs
unfolding lex_step lex_token is_bare_char
lex_step-bare limits s c cs h = ground arith

scan_quoted-plain :
    (start : Pos) (c : ℕ) (cs : Text) (p : Pos) (out : Text) (ds : List Diagnostic)
    → (c == b'"') ≡ false
    → (c == b'\\') ≡ false
    → scan_quoted start (c ∷ cs) p out ds ≡ scan_quoted start cs (bump c p) (out ++ c ∷ []) ds
unfolding scan_quoted
scan_quoted-plain start c [] p out ds h k = rw (h, k)
scan_quoted-plain start c (d ∷ cs) p out ds h k = rw (h, k)

-- The escape that stands for a character.
scan_quoted-escape :
    (start : Pos) (e c : ℕ) (cs : Text) (p : Pos) (out : Text) (ds : List Diagnostic)
    → ((q : Pos) → string_escape start q e ≡ (c, []))
    → scan_quoted start (b'\\' ∷ e ∷ cs) p out ds
      ≡ scan_quoted start cs (bump e (bump b'\\' p)) (out ++ c ∷ []) ds
unfolding scan_quoted
scan_quoted-escape start e c cs p out ds h = rw (h (bump e (bump b'\\' p)), append-nil)

-- Inside a string literal, `chunk` is read as the character `c`.
abbrev QuotesTo : Text → ℕ → Type 0
QuotesTo chunk c =
    (start : Pos) (cs : Text) (p : Pos) (out : Text) (ds : List Diagnostic)
    → scan_quoted start (chunk ++ cs) p out ds
      ≡ scan_quoted start cs (bumps chunk p) (out ++ c ∷ []) ds

QuotesTo-if :
    (b : Bool) (x y : Text) (c : ℕ)
    → (b ≡ true → QuotesTo x c)
    → (b ≡ false → QuotesTo y c)
    → QuotesTo (if b then x else y) c
QuotesTo-if true x y c hx hy = hx refl
QuotesTo-if false x y c hx hy = hy refl

QuotesTo-escape :
    (e k c : ℕ)
    → ((start q : Pos) → string_escape start q e ≡ (k, []))
    → (c == k) ≡ true
    → QuotesTo (b'\\' ∷ e ∷ []) c
unfolding bumps
QuotesTo-escape e k c h is start cs p out ds =
    rw ((==_iff c k).0 is) (scan_quoted-escape start e k cs p out ds (h start))

quote_char-QuotesTo : (c : ℕ) → QuotesTo (quote_char c) c
unfolding quote_char string_escape bumps
quote_char-QuotesTo c =
    QuotesTo-if (c == b'"') _ _ c (QuotesTo-escape b'"' b'"' c (λ start q. refl)) λ h.
      QuotesTo-if (c == b'\\') _ _ c (QuotesTo-escape b'\\' b'\\' c (λ start q. refl)) λ k.
        QuotesTo-if (c == b'\n') _ _ c (QuotesTo-escape b'n' b'\n' c (λ start q. refl)) λ _.
          QuotesTo-if (c == b'\t') _ _ c (QuotesTo-escape b't' b'\t' c (λ start q. refl)) λ _.
            QuotesTo-if (c == b'\r') _ _ c (QuotesTo-escape b'r' b'\r' c (λ start q. refl))
              λ _. λ start cs p out ds. scan_quoted-plain start c cs p out ds h k

scan_quoted-close :
    (start : Pos) (p : Pos) (out : Text) (ds : List Diagnostic)
    → scan_quoted start (b'"' ∷ []) p out ds
      ≡ record { chars = []; pos = bump b'"' p; out = out; terminated = true; diags = ds }
unfolding scan_quoted
scan_quoted-close start p out ds = refl

-- The body of a quoted value is read back whole.
scan_quoted-quote_body :
    (start : Pos) (v : Text) (p : Pos) (out : Text) (ds : List Diagnostic)
    → scan_quoted start (quote_body v ++ b'"' ∷ []) p out ds ≡ record {
      chars = [];
      pos = bump b'"' (bumps (quote_body v) p);
      out = out ++ v;
      terminated = true;
      diags = ds;
    }
unfolding quote_body
scan_quoted-quote_body start [] p out ds =
    rw append-nil (unfold bumps in scan_quoted-close start p out ds)
scan_quoted-quote_body start (c ∷ v) p out ds = rw append_assoc (
    quote_char-QuotesTo c start (quote_body v ++ b'"' ∷ []) p out ds
    ∙ scan_quoted-quote_body start v (bumps (quote_char c) p) (out ++ c ∷ []) ds
    ∙ simp (append_assoc, bumps-append))

abbrev push_quoted : LexState → Scanned → LexState
push_quoted s r =
    push_token s s.pos (quoted r.out)
      (r.diags ++ (if r.terminated then [] else unterminated_string s.pos r.pos ∷ [])) r.chars r.pos

pub lex_quoted-quote_body :
    (s : LexState) (v : Text)
    → lex_quoted s b'"' (quote_body v ++ b'"' ∷ [])
      ≡ push_token s s.pos (quoted v) [] [] (bump b'"' (bumps (quote_body v) (bump b'"' s.pos)))
unfolding lex_quoted
lex_quoted-quote_body s v =
    ap (push_quoted s) (scan_quoted-quote_body s.pos v (bump b'"' s.pos) [] [])

pub lex_step-quote :
    (limits : LangLimits) (s : LexState) (cs : Text)
    → lex_step limits s b'"' cs ≡ lex_quoted (record s { regex_position = false }) b'"' cs
unfolding lex_step lex_token is_whitespace
lex_step-quote limits s cs = refl

pub lex_step-colon :
    (limits : LangLimits) (s : LexState) (cs : Text)
    → lex_step limits s b':' cs
      ≡ lex_single (record s { regex_position = false }) b':' cs colon true
unfolding lex_step lex_token is_whitespace
lex_step-colon limits s cs = refl
