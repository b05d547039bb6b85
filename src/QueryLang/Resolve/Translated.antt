-- ===== src/QueryLang/Resolve/Translated.antt =====
-- The regex that a wildcard value is translated to has the meaning of the value.
use log_scope.Prelude.{
  ℕ, ◌≡◌, ◌≢◌, ◌≤◌, ◌<◌, ◌⊎◌, All, arith, refl, true, false, List, [], ◌∷◌, ◌++◌, ◌==◌, ==_iff,
  if◌then◌else◌, Bool-cases, inl, inr, append_assoc,
}
use log_scope.Text.{Text, codes, is_ascii_alphabetic}
use log_scope.QueryLang.Resolve.Wildcard.{
  is_ascii_alphanumeric, is_plain, escaped, wildcard_body, wildcard_to_regex,
}

pub data GlobItem : Type 0 where
  any_run any_one : GlobItem
  literal : ℕ → GlobItem

-- What a wildcard value means: `*` is any run and `?` any one character, newlines left out, and the
-- character behind a backslash is itself.
unfoldable pub glob_items : Text → List GlobItem
glob_items [] = []
glob_items (c ∷ []) =
    if c == b'*' then any_run ∷ [] else if c == b'?' then any_one ∷ [] else literal c ∷ []
glob_items (c ∷ next ∷ cs) =
    let rest = glob_items (next ∷ cs) in
    let after = glob_items cs in
    if c == b'*'
    then any_run ∷ rest
    else if c == b'?'
    then any_one ∷ rest
    else if c == b'\\'
    then literal next ∷ after
    else literal c ∷ rest

-- The characters that are operators of a regex, each in some place.
abbrev regex_operators : Text
regex_operators = codes "\\.+*?()|[]{}^$"

-- A letter, a digit or `_`: behind a backslash it is a class or an assertion, not itself.
abbrev IsWordChar : ℕ → Type 0
IsWordChar c =
    ((b'0' ≤ c) × (c ≤ b'9')) ⊎ ((b'A' ≤ c) × (c ≤ b'Z')) ⊎ ((b'a' ≤ c) × (c ≤ b'z')) ⊎ (c ≡ b'_')

-- The regexes that are one item after another up to the end of the text, with what they match: `.*`
-- is any run and `.` any character, newlines left out; a backslash and an ASCII character that is no
-- letter, digit or `_` is that character, and so is a character that is no operator. The relation
-- knows nothing of the translation.
pub data Reads : Text → List GlobItem → Type 0 where
  at_end : Reads (codes "$") []
  run : {r : Text} {is : List GlobItem} → Reads r is → Reads (codes ".*" ++ r) (any_run ∷ is)
  one : {r : Text} {is : List GlobItem} → Reads r is → Reads (codes "." ++ r) (any_one ∷ is)
  escape :
      {r : Text} {is : List GlobItem} (c : ℕ)
      → c < 128
      → ¬ IsWordChar c
      → Reads r is
      → Reads (b'\\' ∷ c ∷ r) (literal c ∷ is)
  plain :
      {r : Text} {is : List GlobItem} (c : ℕ)
      → All (λ o. c ≢ o) regex_operators
      → Reads r is
      → Reads (c ∷ r) (literal c ∷ is)

plain-no_operator : (c : ℕ) → is_plain c ≡ true → All (λ o. c ≢ o) regex_operators
unfolding is_plain is_ascii_alphanumeric is_ascii_alphabetic
plain-no_operator c h = ground arith

escaped-ascii : (c : ℕ) → is_plain c ≡ false → (c < 128) × ¬ IsWordChar c
unfolding is_plain is_ascii_alphanumeric is_ascii_alphabetic
escaped-ascii c h = (ground arith, λ w. ground arith)

escaped-Reads :
    (c : ℕ) {r : Text} {is : List GlobItem} → Reads r is → Reads (escaped c ++ r) (literal c ∷ is)
unfolding escaped
escaped-Reads c h = elim (Bool-cases (is_plain c)) [
  | inl e ↦ rw e (plain c (plain-no_operator c e) h)
  | inr e ↦ let (ascii, no_word) = escaped-ascii c e in rw e (escape c ascii no_word h)
]

wildcard_body-Reads : (glob : Text) → Reads (wildcard_body glob ++ codes "$") (glob_items glob)
unfolding wildcard_body glob_items
wildcard_body-Reads [] = at_end
wildcard_body-Reads (c ∷ []) = elim (Bool-cases (c == b'*')) [
  | inl e ↦ rw e (run at_end)
  | inr e ↦ elim (Bool-cases (c == b'?')) [
    | inl f ↦ rw (e, f) (one at_end)
    | inr f ↦ elim (Bool-cases (c == b'\\')) [
      | inl g ↦
          rw (e, f, g, (==_iff c b'\\').0 g) (escape b'\\' (omega arith) (λ w. omega arith) at_end)
      | inr g ↦ rw (e, f, g) (escaped-Reads c at_end)
    ]
  ]
]
wildcard_body-Reads (c ∷ next ∷ cs) =
    let rest = wildcard_body-Reads (next ∷ cs) in
    let after = wildcard_body-Reads cs in
    elim (Bool-cases (c == b'*')) [
      | inl e ↦ rw e (run rest)
      | inr e ↦ elim (Bool-cases (c == b'?')) [
        | inl f ↦ rw (e, f) (one rest)
        | inr f ↦ elim (Bool-cases (c == b'\\')) [
          | inl g ↦
              rw (e, f, g, append_assoc (escaped next) (wildcard_body cs) (codes "$"))
                (escaped-Reads next after)
          | inr g ↦
              rw (e, f, g, append_assoc (escaped c) (wildcard_body (next ∷ cs)) (codes "$"))
                (escaped-Reads c rest)
        ]
      ]
    ]

-- The regex of a wildcard value is anchored and reads, item for item, as the value: any run or any
-- one character, newlines left out, or one literal character.
pub wildcard_to_regex-Reads :
    (glob : Text)
    → (body : Text) × (wildcard_to_regex glob ≡ b'^' ∷ body) × Reads body (glob_items glob)
unfolding wildcard_to_regex
wildcard_to_regex-Reads glob = (wildcard_body glob ++ codes "$", refl, wildcard_body-Reads glob)
