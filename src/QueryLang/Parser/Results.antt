-- ===== src/QueryLang/Parser/Results.antt =====
-- The parser's state and results. `out_of_fuel` has no counterpart in the program.
use log_scope.Prelude.{ℕ, List}
use log_scope.QueryLang.Diag.{Diagnostic}
use log_scope.QueryLang.Token.{Token}

pub data Outcome {ℓ} (A : Type ℓ) : Type ℓ where
  ok : A → Outcome A
  err : Diagnostic → Outcome A
  out_of_fuel : Outcome A

pub record ParserState : Type 0 where
  pub tokens : List Token
  pub depth : ℕ

abbrev pub Parser : Type 0 → Type 0
Parser A = ParserState → Outcome (A × ParserState)

module _ {A B : Type 0} where
  abbrev pub bind : Outcome (A × ParserState) → (A → Parser B) → Outcome (B × ParserState)
  bind (ok r) f = f r.0 r.1
  bind (err d) f = err d
  bind out_of_fuel f = out_of_fuel

  infixl 5 ◌>>=◌ ◌>>◌
  abbrev pub ◌>>=◌ : Parser A → (A → Parser B) → Parser B
  ◌>>=◌ p f s = bind (p s) f

  abbrev pub ◌>>◌ : Parser A → Parser B → Parser B
  p >> q = p >>= λ _. q

abbrev pub pure : {A : Type 0} → A → Parser A
pure a s = ok (a, s)

abbrev pub fail : {A : Type 0} → Diagnostic → Parser A
fail d s = err d
