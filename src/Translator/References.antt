-- ===== src/Translator/References.antt =====
-- The searches of expressions for variables and properties
-- (crates/polygraph/src/translator/cypher/util.rs).
pub mod Nulls
pub mod Relations
use rs_polygraph.Base.{String, Bool, true, false, ◌&&◌, ◌||◌, List}
use rs_polygraph.Base.Eq.{◌==◌, string_eq}
use rs_polygraph.Base.Names.{has, eq_ignore_ascii_case}
use rs_polygraph.Ast
use rs_polygraph.Ast.{Expression, OptExpression, Expressions, MapLiteral, AggregateExpr, Whens}

unfoldable mutual
  pub expr_references_var : Expression → String → Bool
  expr_references_var (Ast.variable v) x = v == x
  expr_references_var (Ast.property base _) x = expr_references_var base x
  expr_references_var (Ast.or a b) x = expr_references_var a x || expr_references_var b x
  expr_references_var (Ast.and a b) x = expr_references_var a x || expr_references_var b x
  expr_references_var (Ast.xor a b) x = expr_references_var a x || expr_references_var b x
  expr_references_var (Ast.add a b) x = expr_references_var a x || expr_references_var b x
  expr_references_var (Ast.subtract a b) x = expr_references_var a x || expr_references_var b x
  expr_references_var (Ast.multiply a b) x = expr_references_var a x || expr_references_var b x
  expr_references_var (Ast.divide a b) x = expr_references_var a x || expr_references_var b x
  expr_references_var (Ast.modulo a b) x = expr_references_var a x || expr_references_var b x
  expr_references_var (Ast.power a b) x = expr_references_var a x || expr_references_var b x
  expr_references_var (Ast.comparison a _ b) x = expr_references_var a x || expr_references_var b x
  expr_references_var (Ast.not e) x = expr_references_var e x
  expr_references_var (Ast.negate e) x = expr_references_var e x
  expr_references_var (Ast.is_null e) x = expr_references_var e x
  expr_references_var (Ast.is_not_null e) x = expr_references_var e x
  expr_references_var (Ast.list_of es) x = any_references_var es x
  expr_references_var (Ast.map_of ps) x = map_references_var ps x
  expr_references_var (Ast.function_call _ _ es) x = any_references_var es x
  expr_references_var (Ast.aggregate a) x = agg_references_var a x
  expr_references_var _ x = false

  pub any_references_var : Expressions → String → Bool
  any_references_var Ast.nil x = false
  any_references_var (Ast.cons e es) x = expr_references_var e x || any_references_var es x

  pub map_references_var : MapLiteral → String → Bool
  map_references_var Ast.no_pair x = false
  map_references_var (Ast.pair _ e es) x = expr_references_var e x || map_references_var es x

  pub opt_references_var : OptExpression → String → Bool
  opt_references_var Ast.absent x = false
  opt_references_var (Ast.present e) x = expr_references_var e x

  pub agg_references_var : AggregateExpr → String → Bool
  agg_references_var (Ast.count _ e) x = opt_references_var e x
  agg_references_var (Ast.sum _ e) x = expr_references_var e x
  agg_references_var (Ast.avg _ e) x = expr_references_var e x
  agg_references_var (Ast.min _ e) x = expr_references_var e x
  agg_references_var (Ast.max _ e) x = expr_references_var e x
  agg_references_var (Ast.collect _ e) x = expr_references_var e x

abbrev pub is_named : Expression → String → Bool
is_named (Ast.variable v) x = v == x
is_named _ x = false

unfoldable mutual
  pub expr_references_prop : Expression → String → String → Bool
  expr_references_prop (Ast.property base k) x key =
      (k == key && is_named base x) || expr_references_prop base x key
  expr_references_prop (Ast.or a b) x key =
      expr_references_prop a x key || expr_references_prop b x key
  expr_references_prop (Ast.and a b) x key =
      expr_references_prop a x key || expr_references_prop b x key
  expr_references_prop (Ast.xor a b) x key =
      expr_references_prop a x key || expr_references_prop b x key
  expr_references_prop (Ast.add a b) x key =
      expr_references_prop a x key || expr_references_prop b x key
  expr_references_prop (Ast.subtract a b) x key =
      expr_references_prop a x key || expr_references_prop b x key
  expr_references_prop (Ast.multiply a b) x key =
      expr_references_prop a x key || expr_references_prop b x key
  expr_references_prop (Ast.divide a b) x key =
      expr_references_prop a x key || expr_references_prop b x key
  expr_references_prop (Ast.modulo a b) x key =
      expr_references_prop a x key || expr_references_prop b x key
  expr_references_prop (Ast.power a b) x key =
      expr_references_prop a x key || expr_references_prop b x key
  expr_references_prop (Ast.comparison a _ b) x key =
      expr_references_prop a x key || expr_references_prop b x key
  expr_references_prop (Ast.not e) x key = expr_references_prop e x key
  expr_references_prop (Ast.negate e) x key = expr_references_prop e x key
  expr_references_prop (Ast.is_null e) x key = expr_references_prop e x key
  expr_references_prop (Ast.is_not_null e) x key = expr_references_prop e x key
  expr_references_prop (Ast.list_of es) x key = any_references_prop es x key
  expr_references_prop (Ast.map_of ps) x key = map_references_prop ps x key
  expr_references_prop (Ast.function_call _ _ es) x key = any_references_prop es x key
  expr_references_prop _ x key = false

  pub any_references_prop : Expressions → String → String → Bool
  any_references_prop Ast.nil x key = false
  any_references_prop (Ast.cons e es) x key =
      expr_references_prop e x key || any_references_prop es x key

  pub map_references_prop : MapLiteral → String → String → Bool
  map_references_prop Ast.no_pair x key = false
  map_references_prop (Ast.pair _ e es) x key =
      expr_references_prop e x key || map_references_prop es x key

unfoldable pub predicate_uses_numeric_arithmetic : Expression → String → Bool
unfolding expr_references_var
predicate_uses_numeric_arithmetic (Ast.modulo a b) x =
    expr_references_var a x
    || expr_references_var b x
    || predicate_uses_numeric_arithmetic a x
    || predicate_uses_numeric_arithmetic b x
predicate_uses_numeric_arithmetic (Ast.multiply a b) x =
    expr_references_var a x
    || expr_references_var b x
    || predicate_uses_numeric_arithmetic a x
    || predicate_uses_numeric_arithmetic b x
predicate_uses_numeric_arithmetic (Ast.divide a b) x =
    expr_references_var a x
    || expr_references_var b x
    || predicate_uses_numeric_arithmetic a x
    || predicate_uses_numeric_arithmetic b x
predicate_uses_numeric_arithmetic (Ast.subtract a b) x =
    expr_references_var a x
    || expr_references_var b x
    || predicate_uses_numeric_arithmetic a x
    || predicate_uses_numeric_arithmetic b x
predicate_uses_numeric_arithmetic (Ast.power a b) x =
    expr_references_var a x
    || expr_references_var b x
    || predicate_uses_numeric_arithmetic a x
    || predicate_uses_numeric_arithmetic b x
predicate_uses_numeric_arithmetic (Ast.negate e) x =
    expr_references_var e x || predicate_uses_numeric_arithmetic e x
predicate_uses_numeric_arithmetic (Ast.comparison a _ b) x =
    predicate_uses_numeric_arithmetic a x || predicate_uses_numeric_arithmetic b x
predicate_uses_numeric_arithmetic (Ast.or a b) x =
    predicate_uses_numeric_arithmetic a x || predicate_uses_numeric_arithmetic b x
predicate_uses_numeric_arithmetic (Ast.and a b) x =
    predicate_uses_numeric_arithmetic a x || predicate_uses_numeric_arithmetic b x
predicate_uses_numeric_arithmetic (Ast.xor a b) x =
    predicate_uses_numeric_arithmetic a x || predicate_uses_numeric_arithmetic b x
predicate_uses_numeric_arithmetic _ x = false
