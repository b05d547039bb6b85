-- ===== src/QueryLang/Ast.antt =====
-- The raw syntax tree (crates/logscope-query-lang/src/ast.rs). `Vec<RawExpr>` inside an expression
-- is the type `RawExprs` of its block.
use log_scope.Prelude.{String, Bool, List, [], ◌∷◌}
use log_scope.Text.{Text}
use log_scope.QueryLang.Diag.{Span}

pub data RawValue : Type 0 where
  word : Text → Bool → Span → RawValue
  quoted : Text → Span → RawValue
  regex : Text → Bool → Span → RawValue
  star : Span → RawValue

-- `RawValue::span`
unfoldable pub value_span : RawValue → Span
value_span (word t w s) = s
value_span (quoted t s) = s
value_span (regex p ci s) = s
value_span (star s) = s

pub data CmpOp : Type 0 where
  eq ne gt ge lt le : CmpOp

-- `CmpOp::describe`
unfoldable pub describe_op : CmpOp → String
describe_op eq = "="
describe_op ne = "!="
describe_op gt = ">"
describe_op ge = ">="
describe_op lt = "<"
describe_op le = "<="

mutual
  pub data RawValueExpr : Type 0 where
    value : RawValue → RawValueExpr
    not : RawValueExpr → Span → RawValueExpr
    and : RawValueExprs → Span → RawValueExpr
    or : RawValueExprs → Span → RawValueExpr

  pub data RawValueExprs : Type 0 where
    nil : RawValueExprs
    cons : RawValueExpr → RawValueExprs → RawValueExprs

pub record RawField : Type 0 where
  pub text : Text
  pub span : Span

mutual
  pub data RawExpr : Type 0 where
    term : Text → Bool → Span → RawExpr
    phrase : Text → Span → RawExpr
    cmp : RawField → CmpOp → RawValue → Span → RawExpr
    group : RawField → RawValueExpr → Span → RawExpr
    not : RawExpr → Span → RawExpr
    and : RawExprs → Span → RawExpr
    or : RawExprs → Span → RawExpr

  pub data RawExprs : Type 0 where
    nil : RawExprs
    cons : RawExpr → RawExprs → RawExprs

-- `RawExpr::span`
unfoldable pub expr_span : RawExpr → Span
expr_span (RawExpr.term t w s) = s
expr_span (RawExpr.phrase t s) = s
expr_span (RawExpr.cmp f o v s) = s
expr_span (RawExpr.group f e s) = s
expr_span (RawExpr.not e s) = s
expr_span (RawExpr.and es s) = s
expr_span (RawExpr.or es s) = s

-- `value_expr_span` of parse.rs
unfoldable pub value_expr_span : RawValueExpr → Span
unfolding value_span
value_expr_span (RawValueExpr.value v) = value_span v
value_expr_span (RawValueExpr.not e s) = s
value_expr_span (RawValueExpr.and es s) = s
value_expr_span (RawValueExpr.or es s) = s

-- A `Vec` as the list inside an expression.
unfoldable pub expr_items : List RawExpr → RawExprs
expr_items [] = RawExprs.nil
expr_items (e ∷ es) = RawExprs.cons e (expr_items es)

unfoldable pub value_items : List RawValueExpr → RawValueExprs
value_items [] = RawValueExprs.nil
value_items (e ∷ es) = RawValueExprs.cons e (value_items es)
