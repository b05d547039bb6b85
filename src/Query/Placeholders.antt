-- ===== src/Query/Placeholders.antt =====
-- Compiled queries bind one parameter for each placeholder of their SQL.
use log_scope.Prelude.{
  ℕ, ◌+◌, ◌≡◌, ◌∙◌, refl, sym, ap, String, Bool-cases, ◌&&◌, inl, inr, append_assoc, List, [], ◌∷◌,
  ◌++◌, Option, none, some, length, length-append, arith, ◌==◌, if◌then◌else◌,
}
use log_scope.Text.{Text, codes}
use log_scope.QueryLang.Ast.{CmpOp}
use log_scope.QueryLang.Resolve.Fields.{CanonicalField}
use log_scope.QueryLang.Resolve.Typed.{TypedScalar, AttrScalar}
use log_scope.Query.Sql.{
  SqlPiece, fixed, count, Sql, Value, CompiledFilter, Compiling, ok, err, panicked, push, then_emit,
}
use log_scope.Query.Leaves.{canon_column, cmp_sql, canon_cmp_sql, attr_lhs, is_severity_text}
use log_scope.QueryLang.Resolve.Checks.{is_eq}
use log_scope.Query.Compile.{reached, emit_canon_cmp, emit_attr_cmp}

-- The question marks of a text, of a piece and of SQL.
abbrev pub marks : Text → ℕ
marks [] = 0
marks (c ∷ cs) = (if c == b'?' then 1 else 0) + marks cs

abbrev pub piece_marks : SqlPiece → ℕ
piece_marks (fixed s) = marks (codes s)
piece_marks (count n) = 0

abbrev pub placeholders : Sql → ℕ
placeholders [] = 0
placeholders (p ∷ ps) = piece_marks p + placeholders ps

pub placeholders-append : (s t : Sql) → placeholders (s ++ t) ≡ placeholders s + placeholders t
placeholders-append [] t = omega arith
placeholders-append (p ∷ ps) t = omega (arith, placeholders-append ps t)

-- The step added as many placeholders as parameters.
abbrev pub Paired : {F : Type 0} → CompiledFilter F → CompiledFilter F → Type 0
Paired c c' =
    placeholders c'.where_sql + length c.params ≡ placeholders c.where_sql + length c'.params

pub data Binds {F E : Type 0} (c : CompiledFilter F) : Compiling F E → Type 0 where
  emitted : {c' : CompiledFilter F} → Paired c c' → Binds c (ok c')
  refused : {e : E} → Binds c (err e)
  stopped : Binds c panicked

module _ {F E : Type 0} where
  -- A step that pushes SQL with one placeholder for each of its parameters.
  pub Binds-leaf :
      (s : Sql) (vs : List (Value F)) (c c' : CompiledFilter F)
      → placeholders s ≡ length vs
      → c'.where_sql ≡ c.where_sql ++ s
      → c'.params ≡ c.params ++ vs
      → Binds {E = E} c (ok c')
  Binds-leaf s vs c c' h sql params = emitted (
      rw (sql, params)
        (omega (arith, placeholders-append c.where_sql s, length-append c.params vs, h)))

  pub reached-Binds :
      {A : Type 0} (o : Option A) (f : A → Compiling F E) (c : CompiledFilter F)
      → ((a : A) → o ≡ some a → Binds c (f a))
      → Binds c (reached o f)
  reached-Binds none f c h = stopped
  reached-Binds (some a) f c h = h a refl

  pub Binds-then :
      {c : CompiledFilter F} {r : Compiling F E} (f : CompiledFilter F → Compiling F E)
      → Binds c r
      → ((c' : CompiledFilter F) → Binds c' (f c'))
      → Binds c (then_emit r f)
  Binds-then {c} f (emitted {c'} h) k = after (k c')
    where
      after : {r : Compiling F E} → Binds c' r → Binds c r
      after (emitted h') = emitted (omega (arith, h, h'))
      after refused = refused
      after stopped = stopped
  Binds-then f refused k = refused
  Binds-then f stopped k = stopped

  pub Binds-push :
      (s : Sql) {c : CompiledFilter F} {r : Compiling F E}
      → placeholders s ≡ 0
      → Binds (push s c) r
      → Binds c r
  Binds-push s {c} h (emitted p) = emitted (omega (arith, h, p, placeholders-append c.where_sql s))
  Binds-push s h refused = refused
  Binds-push s h stopped = stopped

  pub Binds-close :
      (s : Sql) (c : CompiledFilter F) → placeholders s ≡ 0 → Binds {E = E} c (ok (push s c))
  Binds-close s c h = emitted (omega (arith, h, placeholders-append c.where_sql s))

abbrev word_marks : Option String → ℕ
word_marks none = 0
word_marks (some s) = marks (codes s)

pub canon_column-marks : (f : CanonicalField) → word_marks (canon_column f) ≡ 0
unfolding canon_column
canon_column-marks CanonicalField.timestamp = refl
canon_column-marks _ = refl

cmp_sql-marks : (op : CmpOp) → word_marks (cmp_sql op) ≡ 0
unfolding cmp_sql
cmp_sql-marks CmpOp.eq = refl
cmp_sql-marks _ = refl

pub no_marks :
    (o : Option String) (s : String) → word_marks o ≡ 0 → o ≡ some s → marks (codes s) ≡ 0
no_marks o s h e = sym (ap word_marks e) ∙ h

attr_lhs-marks : (ty : AttrScalar) → placeholders (attr_lhs ty) ≡ 1
attr_lhs-marks AttrScalar.str = refl
attr_lhs-marks AttrScalar.int = refl
attr_lhs-marks AttrScalar.double = refl
attr_lhs-marks AttrScalar.bool = refl

canon_cmp_sql-marks :
    (f : CanonicalField) (op : CmpOp) (col sql_op : String)
    → marks (codes col) ≡ 0
    → marks (codes sql_op) ≡ 0
    → placeholders (canon_cmp_sql f op col sql_op) ≡ 1
canon_cmp_sql-marks f op col sql_op h k = elim (Bool-cases (is_severity_text f && is_eq op)) [
  | inl e ↦ rw e refl
  | inr e ↦ rw e (rw (h, k) refl)
]

module _ {F E : Type 0} where
  pub emit_canon_cmp-Binds :
      (f : CanonicalField) (op : CmpOp) (v : TypedScalar F) (c : CompiledFilter F)
      → Binds {E = E} c (emit_canon_cmp f op v c)
  unfolding emit_canon_cmp
  emit_canon_cmp-Binds f op v c = reached-Binds (canon_column f) _ c λ col is_col.
      reached-Binds (cmp_sql op) _ c λ sql_op is_op.
        Binds-leaf (canon_cmp_sql f op col sql_op) (_ ∷ []) c _
          (canon_cmp_sql-marks f op col sql_op
            (no_marks (canon_column f) col (canon_column-marks f) is_col)
            (no_marks (cmp_sql op) sql_op (cmp_sql-marks op) is_op))
          refl refl

  pub emit_attr_cmp-Binds :
      (path : List Text) (ty : AttrScalar) (op : CmpOp) (v : TypedScalar F) (c : CompiledFilter F)
      → Binds {E = E} c (emit_attr_cmp path ty op v c)
  unfolding emit_attr_cmp
  emit_attr_cmp-Binds path ty op v c = reached-Binds (cmp_sql op) _ c λ sql_op is_op.
      Binds-leaf _ (_ ∷ _ ∷ []) c _
        (let word = no_marks (cmp_sql op) sql_op (cmp_sql-marks op) is_op in
          ap (λ (k : ℕ). 0 + k)
            (placeholders-append (attr_lhs ty) (fixed " " ∷ fixed sql_op ∷ fixed " ?, false)" ∷ []))
          ∙ omega (arith, attr_lhs-marks ty, word))
        refl (append_assoc c.params _ _)
