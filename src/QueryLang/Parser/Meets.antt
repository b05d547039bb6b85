-- ===== src/QueryLang/Parser/Meets.antt =====
-- Postconditions on a run of the parser: it ended within its fuel, and `Q` holds of what it
-- returned, if it did.
use log_scope.Prelude.{
  ℕ, ◌+◌, ◌≡◌, ◌≢◌, refl, Bool, true, false, List, ◌++◌, length, if◌then◌else◌, length-append,
  subst,
}
use log_scope.QueryLang.Diag.{Diagnostic, is_error}
use log_scope.QueryLang.Token.{Token}
use log_scope.QueryLang.Parser.Results.{Outcome, ok, err, out_of_fuel, ParserState, Parser, bind}
use log_scope.QueryLang.Parser.Grammar.{Form}

pub data Meets {ℓ κ} {A : Type ℓ} (Q : A → Type κ) : Outcome A → Type (ℓ ⊔ κ) where
  met : {a : A} → Q a → Meets Q (ok a)
  refused : {d : Diagnostic} → is_error d ≡ true → Meets Q (err d)

pub Meets-ok {ℓ κ} :
    {A : Type ℓ} {Q : A → Type κ} {o : Outcome A} {a : A} → Meets Q o → o ≡ ok a → Q a
Meets-ok {Q = Q} (met h) e = subst Q (cc) h
Meets-ok (refused h) e = cc

pub Meets-err {ℓ κ} :
    {A : Type ℓ} {Q : A → Type κ} {o : Outcome A} {d : Diagnostic}
    → Meets Q o
    → o ≡ err d
    → is_error d ≡ true
Meets-err (met h) e = cc
Meets-err (refused {d = c} h) e = cc (h, e)

pub Meets-total {ℓ κ} : {A : Type ℓ} {Q : A → Type κ} {o : Outcome A} → Meets Q o → o ≢ out_of_fuel
Meets-total (met h) = cc
Meets-total (refused h) = cc

module _ {A B : Type 0} where
  pub Meets-bind :
      {Q : A × ParserState → Type 0} {R : B × ParserState → Type 0} {o : Outcome (A × ParserState)}
      (f : A → Parser B)
      → Meets Q o
      → ((a : A) (s : ParserState) → Q (a, s) → Meets R (f a s))
      → Meets R (bind o f)
  Meets-bind f (met {a} h) k = k a.0 a.1 h
  Meets-bind f (refused h) k = refused h

pub Meets-if {ℓ κ} :
    {A : Type ℓ} {Q : A → Type κ} (b : Bool) {x y : Outcome A}
    → (b ≡ true → Meets Q x)
    → (b ≡ false → Meets Q y)
    → Meets Q (if b then x else y)
Meets-if true hx hy = hx refl
Meets-if false hx hy = hy refl

-- The parser took `taken` off the front of `ts` for its result, at the same depth.
pub record Reads {A : Type 0} (P : Form A) (ts : List Token) (d : ℕ) (r : A × ParserState)
    : Type 0 where
  pub taken : List Token
  pub splits : ts ≡ taken ++ r.1.tokens
  pub form : P taken r.0
  pub depth : r.1.depth ≡ d

pub length-Reads :
    {A : Type 0} {P : Form A} {ts : List Token} {d : ℕ} {r : A × ParserState} (h : Reads P ts d r)
    → length ts ≡ length h.taken + length r.1.tokens
length-Reads {r = r} h = rw h.splits (length-append h.taken r.1.tokens)
