-- ===== src/QueryLang/Resolve/Levels.antt =====
-- The severity levels of crates/logscope-query-lang/src/resolve.rs and their OTLP number bands.
use log_scope.Prelude.{
  ℕ, ◌-◌, ◌≤◌, ◌≡◌, refl, ap, ◌∙◌, String, ◌&&◌, [], ◌∷◌, map, Option, none, some, arith, leb,
  if◌then◌else◌,
}
use log_scope.Text.{Text, codes, text_eq}
use log_scope.QueryLang.Resolve.Fields.{is_one_of}

pub data SeverityLevel : Type 0 where
  trace debug info warn error fatal : SeverityLevel

-- `char::to_ascii_uppercase`
unfoldable pub to_ascii_uppercase : ℕ → ℕ
to_ascii_uppercase c = if leb b'a' c && leb c b'z' then c - 32 else c

-- The match of `SeverityLevel::parse`, on the text in upper case.
unfoldable pub upper_level : Text → Option SeverityLevel
upper_level t =
    if is_one_of t ("TRACE" ∷ [])
    then some trace
    else if is_one_of t ("DEBUG" ∷ [])
    then some debug
    else if is_one_of t ("INFO" ∷ [])
    then some info
    else if is_one_of t ("WARN" ∷ "WARNING" ∷ [])
    then some warn
    else if is_one_of t ("ERROR" ∷ "ERR" ∷ [])
    then some error
    else if is_one_of t ("FATAL" ∷ "CRITICAL" ∷ [])
    then some fatal
    else none

-- `SeverityLevel::parse`
unfoldable pub parse_level : Text → Option SeverityLevel
parse_level t = upper_level (map to_ascii_uppercase t)

-- `SeverityLevel::band`: the numbers are small and not negative.
unfoldable pub band : SeverityLevel → ℕ × ℕ
band trace = (1, 4)
band debug = (5, 8)
band info = (9, 12)
band warn = (13, 16)
band error = (17, 20)
band fatal = (21, 24)

-- `SeverityLevel::name`
unfoldable pub level_name : SeverityLevel → String
level_name trace = "TRACE"
level_name debug = "DEBUG"
level_name info = "INFO"
level_name warn = "WARN"
level_name error = "ERROR"
level_name fatal = "FATAL"

upper_level-level_name : (l : SeverityLevel) → upper_level (codes (level_name l)) ≡ some l
unfolding upper_level level_name is_one_of text_eq
upper_level-level_name trace = refl
upper_level-level_name debug = refl
upper_level-level_name info = refl
upper_level-level_name warn = refl
upper_level-level_name error = refl
upper_level-level_name fatal = refl

-- A level is read from its name in any letter case.
pub parse_level-level_name :
    (l : SeverityLevel) (t : Text)
    → map to_ascii_uppercase t ≡ codes (level_name l)
    → parse_level t ≡ some l
unfolding parse_level
parse_level-level_name l t h = ap upper_level h ∙ upper_level-level_name l

abbrev pub InBand : ℕ → SeverityLevel → Type 0
InBand n l = ((band l).0 ≤ n) × (n ≤ (band l).1)

-- The level whose band the number is in.
level_of : ℕ → SeverityLevel
level_of n =
    if leb n 4
    then trace
    else if leb n 8
    then debug
    else if leb n 12
    then info
    else if leb n 16
    then warn
    else if leb n 20
    then error
    else fatal

level_of-InBand : (n : ℕ) (l : SeverityLevel) → InBand n l → l ≡ level_of n
unfolding level_of band
level_of-InBand n trace h = ground arith
level_of-InBand n debug h = ground arith
level_of-InBand n info h = ground arith
level_of-InBand n warn h = ground arith
level_of-InBand n error h = ground arith
level_of-InBand n fatal h = ground arith

InBand-level_of : (n : ℕ) → 1 ≤ n → n ≤ 24 → InBand n (level_of n)
unfolding level_of band
InBand-level_of n lo hi = ground arith

-- Every OTLP severity number from 1 to 24 is in the band of exactly one level.
pub InBand-unique :
    (n : ℕ)
    → 1 ≤ n
    → n ≤ 24
    → (l : SeverityLevel) × InBand n l × ((k : SeverityLevel) → InBand n k → k ≡ l)
InBand-unique n lo hi = (level_of n, InBand-level_of n lo hi, level_of-InBand n)
