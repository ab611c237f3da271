-- ===== src/Translator/Aggregation.antt =====
-- Aggregates and free terms of expressions (crates/polygraph/src/translator/cypher/mod.rs).
use rs_polygraph.Base.{Bool, true, false, not, ◌||◌, List, [], ◌∷◌, ◌++◌}
use rs_polygraph.Base.Any.{any}
use rs_polygraph.Ast
use rs_polygraph.Ast.{Expression, OptExpression, Expressions, MapLiteral, AggregateExpr}
use rs_polygraph.Ast.Equality.{same_expression}

-- `expressions` and the pairs' values share the recursion of the expressions that hold them.
unfoldable mutual
  pub expr_contains_aggregate : Expression → Bool
  expr_contains_aggregate (Ast.aggregate _) = true
  expr_contains_aggregate (Ast.or a b) = expr_contains_aggregate a || expr_contains_aggregate b
  expr_contains_aggregate (Ast.and a b) = expr_contains_aggregate a || expr_contains_aggregate b
  expr_contains_aggregate (Ast.xor a b) = expr_contains_aggregate a || expr_contains_aggregate b
  expr_contains_aggregate (Ast.add a b) = expr_contains_aggregate a || expr_contains_aggregate b
  expr_contains_aggregate (Ast.subtract a b) =
      expr_contains_aggregate a || expr_contains_aggregate b
  expr_contains_aggregate (Ast.multiply a b) =
      expr_contains_aggregate a || expr_contains_aggregate b
  expr_contains_aggregate (Ast.divide a b) = expr_contains_aggregate a || expr_contains_aggregate b
  expr_contains_aggregate (Ast.modulo a b) = expr_contains_aggregate a || expr_contains_aggregate b
  expr_contains_aggregate (Ast.power a b) = expr_contains_aggregate a || expr_contains_aggregate b
  expr_contains_aggregate (Ast.comparison a _ b) =
      expr_contains_aggregate a || expr_contains_aggregate b
  expr_contains_aggregate (Ast.not e) = expr_contains_aggregate e
  expr_contains_aggregate (Ast.negate e) = expr_contains_aggregate e
  expr_contains_aggregate (Ast.is_null e) = expr_contains_aggregate e
  expr_contains_aggregate (Ast.is_not_null e) = expr_contains_aggregate e
  expr_contains_aggregate (Ast.property e _) = expr_contains_aggregate e
  expr_contains_aggregate (Ast.list_of es) = any_contains_aggregate es
  expr_contains_aggregate (Ast.map_of ps) = map_contains_aggregate ps
  expr_contains_aggregate (Ast.function_call _ _ es) = any_contains_aggregate es
  expr_contains_aggregate (Ast.list_comprehension _ l p j) =
      expr_contains_aggregate l || opt_contains_aggregate p || opt_contains_aggregate j
  expr_contains_aggregate _ = false

  pub any_contains_aggregate : Expressions → Bool
  any_contains_aggregate Ast.nil = false
  any_contains_aggregate (Ast.cons e es) = expr_contains_aggregate e || any_contains_aggregate es

  pub map_contains_aggregate : MapLiteral → Bool
  map_contains_aggregate Ast.no_pair = false
  map_contains_aggregate (Ast.pair _ e es) = expr_contains_aggregate e || map_contains_aggregate es

  pub opt_contains_aggregate : OptExpression → Bool
  opt_contains_aggregate Ast.absent = false
  opt_contains_aggregate (Ast.present e) = expr_contains_aggregate e

unfoldable mutual
  pub expr_has_free_var_outside_agg : Expression → Bool
  expr_has_free_var_outside_agg (Ast.variable _) = true
  expr_has_free_var_outside_agg (Ast.property e _) = expr_has_free_var_outside_agg e
  expr_has_free_var_outside_agg (Ast.aggregate _) = false
  expr_has_free_var_outside_agg (Ast.or a b) =
      expr_has_free_var_outside_agg a || expr_has_free_var_outside_agg b
  expr_has_free_var_outside_agg (Ast.and a b) =
      expr_has_free_var_outside_agg a || expr_has_free_var_outside_agg b
  expr_has_free_var_outside_agg (Ast.xor a b) =
      expr_has_free_var_outside_agg a || expr_has_free_var_outside_agg b
  expr_has_free_var_outside_agg (Ast.add a b) =
      expr_has_free_var_outside_agg a || expr_has_free_var_outside_agg b
  expr_has_free_var_outside_agg (Ast.subtract a b) =
      expr_has_free_var_outside_agg a || expr_has_free_var_outside_agg b
  expr_has_free_var_outside_agg (Ast.multiply a b) =
      expr_has_free_var_outside_agg a || expr_has_free_var_outside_agg b
  expr_has_free_var_outside_agg (Ast.divide a b) =
      expr_has_free_var_outside_agg a || expr_has_free_var_outside_agg b
  expr_has_free_var_outside_agg (Ast.modulo a b) =
      expr_has_free_var_outside_agg a || expr_has_free_var_outside_agg b
  expr_has_free_var_outside_agg (Ast.power a b) =
      expr_has_free_var_outside_agg a || expr_has_free_var_outside_agg b
  expr_has_free_var_outside_agg (Ast.comparison a _ b) =
      expr_has_free_var_outside_agg a || expr_has_free_var_outside_agg b
  expr_has_free_var_outside_agg (Ast.not e) = expr_has_free_var_outside_agg e
  expr_has_free_var_outside_agg (Ast.negate e) = expr_has_free_var_outside_agg e
  expr_has_free_var_outside_agg (Ast.is_null e) = expr_has_free_var_outside_agg e
  expr_has_free_var_outside_agg (Ast.is_not_null e) = expr_has_free_var_outside_agg e
  expr_has_free_var_outside_agg (Ast.function_call _ _ es) = any_has_free_var_outside_agg es
  expr_has_free_var_outside_agg (Ast.label_check _ _) = true
  expr_has_free_var_outside_agg _ = false

  pub any_has_free_var_outside_agg : Expressions → Bool
  any_has_free_var_outside_agg Ast.nil = false
  any_has_free_var_outside_agg (Ast.cons e es) =
      expr_has_free_var_outside_agg e || any_has_free_var_outside_agg es

unfoldable pub agg_has_nested_aggregate : AggregateExpr → Bool
unfolding expr_contains_aggregate
agg_has_nested_aggregate (Ast.count _ e) = opt_contains_aggregate e
agg_has_nested_aggregate (Ast.sum _ e) = expr_contains_aggregate e
agg_has_nested_aggregate (Ast.avg _ e) = expr_contains_aggregate e
agg_has_nested_aggregate (Ast.min _ e) = expr_contains_aggregate e
agg_has_nested_aggregate (Ast.max _ e) = expr_contains_aggregate e
agg_has_nested_aggregate (Ast.collect _ e) = expr_contains_aggregate e

unfoldable mutual
  pub atomic_free_terms : Expression → List Expression
  atomic_free_terms (Ast.aggregate _) = []
  atomic_free_terms (Ast.variable v) = Ast.variable v ∷ []
  atomic_free_terms (Ast.property e k) = Ast.property e k ∷ []
  atomic_free_terms (Ast.or a b) = atomic_free_terms a ++ atomic_free_terms b
  atomic_free_terms (Ast.and a b) = atomic_free_terms a ++ atomic_free_terms b
  atomic_free_terms (Ast.add a b) = atomic_free_terms a ++ atomic_free_terms b
  atomic_free_terms (Ast.subtract a b) = atomic_free_terms a ++ atomic_free_terms b
  atomic_free_terms (Ast.multiply a b) = atomic_free_terms a ++ atomic_free_terms b
  atomic_free_terms (Ast.divide a b) = atomic_free_terms a ++ atomic_free_terms b
  atomic_free_terms (Ast.modulo a b) = atomic_free_terms a ++ atomic_free_terms b
  atomic_free_terms (Ast.power a b) = atomic_free_terms a ++ atomic_free_terms b
  atomic_free_terms (Ast.comparison a _ b) = atomic_free_terms a ++ atomic_free_terms b
  atomic_free_terms (Ast.not e) = atomic_free_terms e
  atomic_free_terms (Ast.negate e) = atomic_free_terms e
  atomic_free_terms (Ast.is_null e) = atomic_free_terms e
  atomic_free_terms (Ast.is_not_null e) = atomic_free_terms e
  atomic_free_terms (Ast.function_call _ _ es) = all_atomic_free_terms es
  atomic_free_terms _ = []

  pub all_atomic_free_terms : Expressions → List Expression
  all_atomic_free_terms Ast.nil = []
  all_atomic_free_terms (Ast.cons e es) = atomic_free_terms e ++ all_atomic_free_terms es

-- `terms.contains(&e)`
unfoldable pub contains_expression : List Expression → Expression → Bool
unfolding same_expression
contains_expression terms e = any (λ t. same_expression t e) terms

unfoldable pub is_ambiguous_aggregation : Expression → List Expression → Bool
unfolding atomic_free_terms contains_expression
is_ambiguous_aggregation e [] = true
is_ambiguous_aggregation e (t ∷ ts) =
    any (λ term. not (contains_expression (t ∷ ts) term)) (atomic_free_terms e)
