-- ===== src/QueryLang/Resolve/Ensures.antt =====
-- Postconditions on a run of the resolver: it returned what `Q` holds of and reported no error, or it
-- returned nothing and reported at least one.
use log_scope.Prelude.{
  ◌≡◌, refl, ap, ◌∙◌, Bool, true, false, Option, none, some, List, [], ◌∷◌, ◌++◌, if◌then◌else◌,
  All, All-append,
}
use log_scope.QueryLang.Diag.{Diagnostic, is_error}
use log_scope.QueryLang.Resolve.Notes.{Notes, Resolving, and_then, fail, warn, when}

-- What is reported as an error is one, and what is reported as a warning is none.
abbrev pub Tidy : Notes → Type 0
Tidy n = All (λ d. is_error d ≡ true) n.errors × All (λ d. is_error d ≡ false) n.warnings

-- The errors and the clause count are as they were.
abbrev pub Same : Notes → Notes → Type 0
Same n n' = (n'.errors ≡ n.errors) × (n'.clauses ≡ n.clauses) × (Tidy n → Tidy n')

-- Errors were added behind those that were there, and the clause count is as it was.
abbrev pub Longer : Notes → Notes → Type 0
Longer n n' =
    (d : Diagnostic) × (ds : List Diagnostic) × (n'.errors ≡ n.errors ++ d ∷ ds)
    × (n'.clauses ≡ n.clauses)
    × (Tidy n → Tidy n')

pub data Ensures {A : Type 0} (Q : A → Type 0) (n : Notes) : Option A × Notes → Type 0 where
  passes : {a : A} {n' : Notes} → Q a → Same n n' → Ensures Q n (some a, n')
  stops : {n' : Notes} → Longer n n' → Ensures Q n (none, n')

pub Longer-from : (n m n' : Notes) → Same n m → Longer m n' → Longer n n'
Longer-from n m n' (e, c, t) (d, ds, h, k, u) =
    (d, ds, h ∙ ap (λ es. es ++ d ∷ ds) e, k ∙ c, λ tidy. u (t tidy))

pub Ensures-from :
    {A : Type 0} {Q : A → Type 0} (n m : Notes) {r : Option A × Notes}
    → Same n m
    → Ensures Q m r
    → Ensures Q n r
Ensures-from n m (e, c, t) (passes h (e', c', u)) = passes h (e' ∙ e, c' ∙ c, λ tidy. u (t tidy))
Ensures-from n m s (stops {n'} l) = stops (Longer-from n m n' s l)

pub Ensures-bind :
    {A B : Type 0} {P : A → Type 0} {Q : B → Type 0} {n : Notes} {r : Option A × Notes}
    (f : A → Resolving B)
    → Ensures P n r
    → ((a : A) (m : Notes) → P a → Ensures Q m (f a m))
    → Ensures Q n (and_then r f)
Ensures-bind {n} f (passes {a} {n'} h e) k = Ensures-from n n' e (k a n' h)
Ensures-bind f (stops l) k = stops l

pub Ensures-map :
    {A : Type 0} {P Q : A → Type 0} {n : Notes} {r : Option A × Notes}
    → ((a : A) → P a → Q a)
    → Ensures P n r
    → Ensures Q n r
Ensures-map f (passes {a} h e) = passes (f a h) e
Ensures-map f (stops l) = stops l

pub Ensures-if :
    {A : Type 0} {Q : A → Type 0} (n : Notes) (b : Bool) (x y : Resolving A)
    → (b ≡ true → Ensures Q n (x n))
    → (b ≡ false → Ensures Q n (y n))
    → Ensures Q n ((if b then x else y) n)
Ensures-if n true x y hx hy = hx refl
Ensures-if n false x y hx hy = hy refl

-- Nothing is asked of the result.
abbrev pub Any : {A : Type 0} → A → Type 0
Any a = Unit

pub Ensures-fail :
    {A : Type 0} {Q : A → Type 0} (d : Diagnostic) (n : Notes)
    → is_error d ≡ true
    → Ensures Q n (fail d n)
Ensures-fail d n h =
    stops (d, [], refl, refl, λ (es, ws). (All-append _ n.errors (d ∷ []) es (h, tt), ws))

pub Ensures-warn-when :
    (b : Bool) (d : Diagnostic) (n : Notes) → is_error d ≡ false → Ensures Any n (when b (warn d) n)
Ensures-warn-when true d n h =
    passes tt (refl, refl, λ (es, ws). (es, All-append _ n.warnings (d ∷ []) ws (h, tt)))
Ensures-warn-when false d n h = passes tt (refl, refl, λ t. t)
