-- ===== src/Query/Sql.antt =====
-- The state of the query compiler and what it makes (crates/logscope-query/src/compile.rs). A string
-- that `format!` or `push_str` builds is the list of its pieces: a literal of the program, or a
-- number.
use log_scope.Prelude.{ℕ, String, List, [], ◌∷◌, ◌++◌, Bool, Option}
use log_scope.Prelude.Int.{ℤ}
use log_scope.Text.{Text}

pub data SqlPiece : Type 0 where
  fixed : String → SqlPiece
  count : ℕ → SqlPiece

abbrev pub Sql : Type 0
Sql = List SqlPiece

-- What the compiler uses of `duckdb::types::Value`.
pub data Value (F : Type 0) : Type 0 where
  text : Text → Value F
  big_int : ℤ → Value F
  int : ℕ → Value F
  double : F → Value F
  boolean : Bool → Value F

pub data TextExecMode : Type 0 where
  fts_index regex_scan : TextExecMode

-- The fields of `Compiler` that change, which are those of `CompiledFilter` in the end.
pub record CompiledFilter (F : Type 0) : Type 0 where
  pub where_sql : Sql
  pub params : List (Value F)
  pub temp_tables : List (Sql × List Text)
  pub text_modes : List TextExecMode

-- A step of the compiler: it goes on, reports an error of the index, or reaches `unreachable!`.
pub data Compiling (F E : Type 0) : Type 0 where
  ok : CompiledFilter F → Compiling F E
  err : E → Compiling F E
  panicked : Compiling F E

-- `Result<T, StoreError>`
pub data Found (E A : Type 0) : Type 0 where
  found : A → Found E A
  failed : E → Found E A

-- `FtsIndex` over the selected datasets (crates/logscope-store/src/fts.rs): the hits of an
-- expression counted up to a bound, and the ids of the records that it hits up to a bound.
pub record FtsIndex (E : Type 0) : Type 0 where
  pub count_logs_expr : Text → ℕ → Found E ℕ
  pub search_logs_expr : Text → ℕ → Found E (List Text)

-- `FtsContext`, with the tokenizer's characters.
pub record FtsContext (E : Type 0) : Type 0 where
  pub index : Option (FtsIndex E)
  pub is_alphanumeric : ℕ → Bool

module _ {F : Type 0} where
  abbrev pub push : Sql → CompiledFilter F → CompiledFilter F
  push s c = record c { where_sql = c.where_sql ++ s }

  abbrev pub param : Value F → CompiledFilter F → CompiledFilter F
  param v c = record c { params = c.params ++ v ∷ [] }

  abbrev pub mode : TextExecMode → CompiledFilter F → CompiledFilter F
  mode m c = record c { text_modes = c.text_modes ++ m ∷ [] }

  abbrev pub then_emit :
      {E : Type 0} → Compiling F E → (CompiledFilter F → Compiling F E) → Compiling F E
  then_emit (ok c) f = f c
  then_emit (err e) f = err e
  then_emit panicked f = panicked
