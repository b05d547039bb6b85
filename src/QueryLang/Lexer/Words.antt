-- ===== src/QueryLang/Lexer/Words.antt =====
-- What a bare word keeps of the source: the text that `unescape_word` gives, and the wildcard flag.
use log_scope.Prelude.{
  ℕ, ◌≡◌, ◌≢◌, ◌∙◌, refl, sym, ap, Bool, true, false, not, ◌||◌, List, [], ◌∷◌, ◌++◌, inl, inr,
  ◌==◌, if◌then◌else◌, if_both, Bool-cases, append_assoc, append-nil, arith,
}
use log_scope.Text.{Text}
use log_scope.QueryLang.Diag.{Diagnostic}
use log_scope.QueryLang.Lexer.Scan.{Pos, is_word_char, is_wildcard, word_escape, Word, scan_word}
use log_scope.QueryLang.Lexer.{unescape_word}

-- Whether a text has a `*` or `?` with no backslash before it.
unfoldable pub has_wildcard : Text → Bool
has_wildcard [] = false
has_wildcard (c ∷ []) = is_wildcard c
has_wildcard (c ∷ d ∷ cs) =
    let after = has_wildcard cs in
    let more = is_wildcard c || has_wildcard (d ∷ cs) in if c == b'\\' then after else more

unescape_word-plain :
    (c : ℕ) (t : Text) → (c == b'\\') ≡ false → unescape_word (c ∷ t) ≡ c ∷ unescape_word t
unfolding unescape_word
unescape_word-plain c [] h = refl
unescape_word-plain c (d ∷ t) h = rw h

has_wildcard-plain :
    (c : ℕ) (t : Text)
    → (c == b'\\') ≡ false
    → has_wildcard (c ∷ t) ≡ (is_wildcard c || has_wildcard t)
unfolding has_wildcard
has_wildcard-plain c [] h = ground arith
has_wildcard-plain c (d ∷ t) h = rw h

-- The scan of a word from `cs`, after `out` and the flag `wild`.
record Kept (cs out : Text) (wild : Bool) (w : Word) : Type 0 where
  used : Text
  kept : Text
  splits : cs ≡ used ++ w.chars
  out_is : w.out ≡ out ++ kept
  unescaped : (x : Text) → unescape_word (kept ++ x) ≡ unescape_word used ++ unescape_word x
  wild_is : w.wildcard ≡ (wild || has_wildcard used)
  wildcards : (x : Text) → has_wildcard (kept ++ x) ≡ (has_wildcard used || has_wildcard x)

or_false : (b : Bool) → (b || false) ≡ b
or_false b = ground arith

Kept-stop :
    (cs out : Text) (wild : Bool) (w : Word)
    → cs ≡ w.chars
    → w.out ≡ out
    → w.wildcard ≡ wild
    → Kept cs out wild w
unfolding unescape_word has_wildcard
Kept-stop cs out wild w e f g = record {
  used = [];
  kept = [];
  splits = e;
  out_is = f ∙ sym (append-nil out);
  unescaped = λ x. refl;
  wild_is = g ∙ sym (or_false wild);
  wildcards = λ x. refl;
}

Kept-plain :
    (c : ℕ) (cs out : Text) (wild : Bool) (w : Word)
    → (c == b'\\') ≡ false
    → Kept cs (out ++ c ∷ []) (wild || is_wildcard c) w
    → Kept (c ∷ cs) out wild w
Kept-plain c cs out wild w h k = record {
  used = c ∷ k.used;
  kept = c ∷ k.kept;
  splits = ap (◌∷◌ c) k.splits;
  out_is = k.out_is ∙ append_assoc out (c ∷ []) k.kept;
  unescaped = λ x.
      unescape_word-plain c (k.kept ++ x) h
      ∙ ap (◌∷◌ c) (k.unescaped x)
      ∙ ap (λ t. t ++ unescape_word x) (sym (unescape_word-plain c k.used h));
  wild_is = ground (arith, k.wild_is, has_wildcard-plain c k.used h);
  wildcards = λ x.
      ground
        (arith, has_wildcard-plain c (k.kept ++ x) h, k.wildcards x, has_wildcard-plain c k.used h);
}

unescape_word-escape : (d : ℕ) (t : Text) → unescape_word (word_escape d ++ t) ≡ d ∷ unescape_word t
unfolding word_escape
unescape_word-escape d t = elim (Bool-cases (d == b'*' || d == b'?' || d == b'\\')) [
  | inl h ↦ rw h (unfold unescape_word in refl)
  | inr h ↦ rw h (unescape_word-plain d t (ground arith))
]

not_wildcard : (d : ℕ) → (d == b'*' || d == b'?' || d == b'\\') ≡ false → is_wildcard d ≡ false
unfolding is_wildcard
not_wildcard d h = ground arith

has_wildcard-escape : (d : ℕ) (t : Text) → has_wildcard (word_escape d ++ t) ≡ has_wildcard t
unfolding word_escape
has_wildcard-escape d t = elim (Bool-cases (d == b'*' || d == b'?' || d == b'\\')) [
  | inl h ↦ rw h (unfold has_wildcard in refl)
  | inr h ↦
      rw h
        (has_wildcard-plain d t (ground arith) ∙ ap (λ b. b || has_wildcard t) (not_wildcard d h))
]

Kept-escape :
    (c d : ℕ) (cs out : Text) (wild : Bool) (w : Word)
    → (c == b'\\') ≡ true
    → Kept cs (out ++ word_escape d) wild w
    → Kept (c ∷ d ∷ cs) out wild w
unfolding unescape_word has_wildcard
Kept-escape c d cs out wild w h k = record {
  used = c ∷ d ∷ k.used;
  kept = word_escape d ++ k.kept;
  splits = ap (λ (t : Text). c ∷ d ∷ t) k.splits;
  out_is = k.out_is ∙ append_assoc out (word_escape d) k.kept;
  unescaped = λ x.
      ap unescape_word (append_assoc (word_escape d) k.kept x)
      ∙ unescape_word-escape d (k.kept ++ x)
      ∙ rw h (ap (◌∷◌ d) (k.unescaped x));
  wild_is = rw h k.wild_is;
  wildcards = λ x.
      ap has_wildcard (append_assoc (word_escape d) k.kept x)
      ∙ has_wildcard-escape d (k.kept ++ x)
      ∙ rw h (k.wildcards x);
}

snoc_ne_nil : (ds : List Diagnostic) (d : Diagnostic) → ds ++ d ∷ [] ≢ []
snoc_ne_nil [] d = cc
snoc_ne_nil (x ∷ ds) d = cc

-- The scan reported nothing, and kept the word.
abbrev KeptIfClean : Text → Text → Bool → Word → Type 0
KeptIfClean cs out wild w = w.diags ≡ [] → Kept cs out wild w

scan_word-Kept :
    (start : Pos) (cs : Text) (p : Pos) (out : Text) (wild esc : Bool) (ds : List Diagnostic)
    → KeptIfClean cs out wild (scan_word start cs p out wild esc ds)
unfolding scan_word
scan_word-Kept start [] p out wild esc ds = λ _. Kept-stop [] out wild _ refl refl refl
scan_word-Kept start (c ∷ []) p out wild esc ds =
    if_both (KeptIfClean (c ∷ []) out wild) (not (is_word_char c))
      (λ _ _. Kept-stop (c ∷ []) out wild _ refl refl refl)
      λ _.
        if_both (KeptIfClean (c ∷ []) out wild) (c == b'\\') (λ _ e. absurd (snoc_ne_nil ds _ e))
          λ h _.
            Kept-plain c [] out wild _ h
              (Kept-stop [] (out ++ c ∷ []) (wild || is_wildcard c) _ refl refl refl)
scan_word-Kept start (c ∷ d ∷ cs) p out wild esc ds =
    if_both (KeptIfClean (c ∷ d ∷ cs) out wild) (not (is_word_char c))
      (λ _ _. Kept-stop (c ∷ d ∷ cs) out wild _ refl refl refl)
      λ _.
        if_both (KeptIfClean (c ∷ d ∷ cs) out wild) (c == b'\\')
          (λ h e.
            Kept-escape c d cs out wild _ h
              (scan_word-Kept start cs _ (out ++ word_escape d) wild true ds e))
          λ h e.
            Kept-plain c (d ∷ cs) out wild _ h
              (scan_word-Kept start (d ∷ cs) _ (out ++ c ∷ []) (wild || is_wildcard c) esc ds e)

-- A bare word that is scanned with nothing reported takes a front part of the source. Unescaping
-- the token's text gives that part unescaped, and the flag says whether it has an unescaped
-- wildcard, which can also be read off the token's text.
pub scan_word-source :
    (src : Text) (p : Pos)
    → (scan_word p src p [] false false []).diags ≡ []
    → (used : Text) × (src ≡ used ++ (scan_word p src p [] false false []).chars)
      × (unescape_word (scan_word p src p [] false false []).out ≡ unescape_word used)
      × ((scan_word p src p [] false false []).wildcard ≡ has_wildcard used)
      × (has_wildcard (scan_word p src p [] false false []).out ≡ has_wildcard used)
scan_word-source src p e =
    let k = scan_word-Kept p src p [] false false [] e in
    (
      k.used,
      k.splits,
      ap unescape_word (k.out_is ∙ sym (append-nil k.kept))
          ∙ k.unescaped []
          ∙ (unfold unescape_word in append-nil (unescape_word k.used)),
      k.wild_is,
      ap has_wildcard (k.out_is ∙ sym (append-nil k.kept))
          ∙ k.wildcards []
          ∙ (unfold has_wildcard in or_false (has_wildcard k.used)),
    )
