-- ===== src/QueryLang/Resolve/Notes.antt =====
-- The fields of `Resolver` that change, and functions that change them and may return `None`
-- (crates/logscope-query-lang/src/resolve.rs).
use log_scope.Prelude.{ℕ, ◌+◌, Bool, true, false, Option, none, some, List, [], ◌∷◌, ◌++◌}
use log_scope.QueryLang.Diag.{Diagnostic}

pub record Notes : Type 0 where
  pub errors : List Diagnostic
  pub warnings : List Diagnostic
  pub clauses : ℕ

abbrev pub Resolving : Type 0 → Type 0
Resolving A = Notes → Option A × Notes

module _ {A B : Type 0} where
  abbrev pub and_then : Option A × Notes → (A → Resolving B) → Option B × Notes
  and_then (none, n) f = (none, n)
  and_then (some a, n) f = f a n

  infixl 5 ◌>>=◌ ◌>>◌
  abbrev pub ◌>>=◌ : Resolving A → (A → Resolving B) → Resolving B
  ◌>>=◌ m f n = and_then (m n) f

  abbrev pub ◌>>◌ : Resolving A → Resolving B → Resolving B
  m >> k = m >>= λ _. k

abbrev pub pure : {A : Type 0} → A → Resolving A
pure a n = (some a, n)

-- `Resolver::err`
abbrev pub fail : {A : Type 0} → Diagnostic → Resolving A
fail d n = (none, record n { errors = n.errors ++ d ∷ [] })

abbrev pub warn : Diagnostic → Resolving (Unit {0})
warn d n = (some tt, record n { warnings = n.warnings ++ d ∷ [] })

-- `self.clauses += 1`
abbrev pub count_clause : Resolving (Unit {0})
count_clause n = (some tt, record n { clauses = n.clauses + 1 })

-- An `if` with no `else`.
abbrev pub when : Bool → Resolving (Unit {0}) → Resolving (Unit {0})
when true m = m
when false m = pure tt
