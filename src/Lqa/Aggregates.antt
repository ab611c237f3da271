-- ===== src/Lqa/Aggregates.antt =====
-- Aggregates nested in a projected expression (crates/polygraph/src/lqa/lower.rs): the test for
-- them, and their extraction into fresh variables.
pub mod Extract
pub mod Fresh
pub mod Keys
use Prim.Native.String.{◌++◌}
use rs_polygraph.Base.{ℕ, suc, ◌+◌, String, Bool, true, false, ◌||◌, ◌&&◌}
use rs_polygraph.Base.Decimal.{to_string}
use rs_polygraph.Lqa.Syntax
use rs_polygraph.Lqa.Syntax.{Expr, Exprs, OptExpr, Branches, AggItems}
use rs_polygraph.Lqa.Syntax.Build.{var}

unfoldable mutual
  pub expr_contains_aggregate : Expr → Bool
  expr_contains_aggregate (Expr.aggregate _ _ _) = true
  expr_contains_aggregate (Expr.add a b) = expr_contains_aggregate a || expr_contains_aggregate b
  expr_contains_aggregate (Expr.sub a b) = expr_contains_aggregate a || expr_contains_aggregate b
  expr_contains_aggregate (Expr.mul a b) = expr_contains_aggregate a || expr_contains_aggregate b
  expr_contains_aggregate (Expr.div a b) = expr_contains_aggregate a || expr_contains_aggregate b
  expr_contains_aggregate (Expr.modulo a b) = expr_contains_aggregate a || expr_contains_aggregate b
  expr_contains_aggregate (Expr.pow a b) = expr_contains_aggregate a || expr_contains_aggregate b
  expr_contains_aggregate (Expr.and a b) = expr_contains_aggregate a || expr_contains_aggregate b
  expr_contains_aggregate (Expr.or a b) = expr_contains_aggregate a || expr_contains_aggregate b
  expr_contains_aggregate (Expr.xor a b) = expr_contains_aggregate a || expr_contains_aggregate b
  expr_contains_aggregate (Expr.comparison _ a b) =
      expr_contains_aggregate a || expr_contains_aggregate b
  expr_contains_aggregate (Expr.unary _ e) = expr_contains_aggregate e
  expr_contains_aggregate (Expr.not e) = expr_contains_aggregate e
  expr_contains_aggregate (Expr.is_null e) = expr_contains_aggregate e
  expr_contains_aggregate (Expr.is_not_null e) = expr_contains_aggregate e
  expr_contains_aggregate (Expr.property e _) = expr_contains_aggregate e
  expr_contains_aggregate (Expr.function_call _ _ args) = any_contains_aggregate args
  expr_contains_aggregate (Expr.list_of items) = any_contains_aggregate items
  expr_contains_aggregate (Expr.case_searched branches else_expr) =
      branches_contain_aggregate branches || option_contains_aggregate else_expr
  expr_contains_aggregate (Expr.list_comprehension _ list predicate projection) =
      expr_contains_aggregate list
      || (option_contains_aggregate predicate || option_contains_aggregate projection)
  expr_contains_aggregate _ = false

  pub any_contains_aggregate : Exprs → Bool
  any_contains_aggregate Syntax.nil = false
  any_contains_aggregate (Syntax.cons e rest) =
      expr_contains_aggregate e || any_contains_aggregate rest

  pub option_contains_aggregate : OptExpr → Bool
  option_contains_aggregate Syntax.absent = false
  option_contains_aggregate (Syntax.present e) = expr_contains_aggregate e

  pub branches_contain_aggregate : Branches → Bool
  branches_contain_aggregate Syntax.no_branch = false
  branches_contain_aggregate (Syntax.branch w t rest) =
      (expr_contains_aggregate w || expr_contains_aggregate t) || branches_contain_aggregate rest

-- the two `&mut` arguments of `extract_nested_aggregates`
pub record Extraction : Type 0 where
  pub aggs : AggItems
  pub counter : ℕ

abbrev pub M : Type 0 → Type 0
M A = Extraction → A × Extraction

abbrev pub pure : {A : Type 0} → A → M A
pure a s = (a, s)

infixl 5 ◌>>=◌
abbrev pub ◌>>=◌ : {A B : Type 0} → M A → (A → M B) → M B
◌>>=◌ m f s = let (a, s') = m s in f a s'

-- `aggs.push(AggItem { expr, alias })`
unfoldable pub push : AggItems → Expr → String → AggItems
push Syntax.no_agg e alias = Syntax.agg e alias Syntax.no_agg
push (Syntax.agg e' alias' rest) e alias = Syntax.agg e' alias' (push rest e alias)

abbrev pub agg_name : ℕ → String
agg_name n = "_agg_ex_" ++ to_string n

unfoldable pub extract_aggregate : Expr → M Expr
extract_aggregate e s = (
  var (agg_name s.counter),
  record { aggs = push s.aggs e (agg_name s.counter); counter = suc s.counter },
)

unfoldable mutual
  pub extract_nested_aggregates : Expr → M Expr
  extract_nested_aggregates (Expr.aggregate kind d arg) =
      extract_aggregate (Expr.aggregate kind d arg)
  extract_nested_aggregates (Expr.add a b) = do
    a' ← extract_nested_aggregates a
    b' ← extract_nested_aggregates b
    pure (Expr.add a' b')
  extract_nested_aggregates (Expr.sub a b) = do
    a' ← extract_nested_aggregates a
    b' ← extract_nested_aggregates b
    pure (Expr.sub a' b')
  extract_nested_aggregates (Expr.mul a b) = do
    a' ← extract_nested_aggregates a
    b' ← extract_nested_aggregates b
    pure (Expr.mul a' b')
  extract_nested_aggregates (Expr.div a b) = do
    a' ← extract_nested_aggregates a
    b' ← extract_nested_aggregates b
    pure (Expr.div a' b')
  extract_nested_aggregates (Expr.modulo a b) = do
    a' ← extract_nested_aggregates a
    b' ← extract_nested_aggregates b
    pure (Expr.modulo a' b')
  extract_nested_aggregates (Expr.pow a b) = do
    a' ← extract_nested_aggregates a
    b' ← extract_nested_aggregates b
    pure (Expr.pow a' b')
  extract_nested_aggregates (Expr.unary op e) = do
    e' ← extract_nested_aggregates e
    pure (Expr.unary op e')
  extract_nested_aggregates (Expr.not e) = do e' ← extract_nested_aggregates e; pure (Expr.not e')
  extract_nested_aggregates (Expr.function_call name d args) = do
    args' ← extract_from_list args
    pure (Expr.function_call name d args')
  extract_nested_aggregates (Expr.list_comprehension variable list predicate projection) = do
    list' ← extract_nested_aggregates list
    predicate' ← extract_from_option predicate
    projection' ← extract_from_option projection
    pure (Expr.list_comprehension variable list' predicate' projection')
  extract_nested_aggregates e = pure e

  pub extract_from_list : Exprs → M Exprs
  extract_from_list Syntax.nil = pure Syntax.nil
  extract_from_list (Syntax.cons e rest) = do
    e' ← extract_nested_aggregates e
    rest' ← extract_from_list rest
    pure (Syntax.cons e' rest')

  pub extract_from_option : OptExpr → M OptExpr
  extract_from_option Syntax.absent = pure Syntax.absent
  extract_from_option (Syntax.present e) = do
    e' ← extract_nested_aggregates e
    pure (Syntax.present e')
