-- ===== src/Normalize/Severity/Names.antt =====
-- The names of the query language's levels as severity texts.
use log_scope.Prelude.{
  ℕ, ◌≤◌, ◌≡◌, ◌∙◌, ◌^◌, refl, sym, ap, subst, ◌&&◌, [], ◌∷◌, map, none, some, leb, false, ◌==◌,
  arith,
}
use log_scope.Text.{Text, codes, text_eq}
use log_scope.QueryLang.Resolve.Fields.{is_one_of}
use log_scope.QueryLang.Resolve.Levels.{
  SeverityLevel, trace, debug, info, warn, error, fatal, level_name, band, to_ascii_uppercase,
  InBand,
}
use log_scope.QueryLang.Resolve.Literals.{parse_signed, parse_digits, digits}
use log_scope.Normalize.Epoch.{trim}
use log_scope.Normalize.Severity.{
  severity_names, first_arm, map_token, map_trimmed, map_severity_text,
}

first : Text → ℕ
first [] = 0
first (c ∷ cs) = c

-- A character whose upper case is a letter starts no number.
letter-Bool :
    (c : ℕ)
    → 65 ≤ to_ascii_uppercase c
    → ((c == b'-') ≡ false) × ((c == b'+') ≡ false) × ((leb b'0' c && leb c b'9') ≡ false)
unfolding to_ascii_uppercase
letter-Bool c h = (ground arith, ground arith, ground arith)

letter-no_number :
    (bound c : ℕ) (cs : Text) → 65 ≤ to_ascii_uppercase c → parse_signed bound (c ∷ cs) ≡ none
unfolding parse_signed parse_digits digits
letter-no_number bound c cs h =
    let (no_minus, no_plus, no_digit) = letter-Bool c h in rw (no_minus, no_plus, no_digit) refl

named :
    (l : SeverityLevel)
    → (n : ℕ) × (first_arm (codes (level_name l)) severity_names ≡ some n) × InBand n l
unfolding first_arm is_one_of text_eq level_name band
named trace = (1, refl, omega arith)
named debug = (5, refl, omega arith)
named info = (9, refl, omega arith)
named warn = (13, refl, omega arith)
named error = (17, refl, omega arith)
named fatal = (21, refl, omega arith)

letter_of :
    (c : ℕ) (cs : Text) {d : ℕ} {ds : Text}
    → map to_ascii_uppercase (c ∷ cs) ≡ d ∷ ds
    → 65 ≤ d
    → 65 ≤ to_ascii_uppercase c
unfolding first
letter_of c cs h le = subst (λ u. 65 ≤ u) (ap first (sym h)) le

-- The name of a level starts with a letter.
name-letter :
    (l : SeverityLevel) (c : ℕ) (cs : Text)
    → map to_ascii_uppercase (c ∷ cs) ≡ codes (level_name l)
    → 65 ≤ to_ascii_uppercase c
unfolding level_name
name-letter trace c cs h = letter_of c cs h (omega arith)
name-letter debug c cs h = letter_of c cs h (omega arith)
name-letter info c cs h = letter_of c cs h (omega arith)
name-letter warn c cs h = letter_of c cs h (omega arith)
name-letter error c cs h = letter_of c cs h (omega arith)
name-letter fatal c cs h = letter_of c cs h (omega arith)

some_name : (l : SeverityLevel) → codes (level_name l) ≡ [] → ⊥
unfolding level_name
some_name trace h = cc h
some_name debug h = cc h
some_name info h = cc h
some_name warn h = cc h
some_name error h = cc h
some_name fatal h = cc h

map_trimmed-named :
    (l : SeverityLevel) (n : ℕ) (token : Text)
    → map to_ascii_uppercase token ≡ codes (level_name l)
    → first_arm (codes (level_name l)) severity_names ≡ some n
    → map_trimmed token ≡ some n
unfolding map_token
map_trimmed-named l n [] h is = absurd (some_name l (sym h))
map_trimmed-named l n (c ∷ cs) h is =
    ap (map_token (c ∷ cs)) (letter-no_number (2 ^ 31) c cs (name-letter l c cs h))
    ∙ ap (λ u. first_arm u severity_names) h
    ∙ is

-- The name of a level of the query language, in any letter case and with any white space around it,
-- is mapped to a number in the band of that level.
pub map_severity_text-level_name :
    (l : SeverityLevel) (text : Text)
    → map to_ascii_uppercase (trim text) ≡ codes (level_name l)
    → (n : ℕ) × (map_severity_text text ≡ some n) × InBand n l
unfolding map_severity_text
map_severity_text-level_name l text h =
    let (n, is, in_band) = named l in (n, map_trimmed-named l n (trim text) h is, in_band)
