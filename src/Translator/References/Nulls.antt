-- ===== src/Translator/References/Nulls.antt =====
-- The searches of expressions for nulls, nullable variables and deleted entities
-- (crates/polygraph/src/translator/cypher/util.rs).
use rs_polygraph.Base.{String, Bool, true, false, ◌&&◌, ◌||◌, List}
use rs_polygraph.Base.Eq.{string_eq}
use rs_polygraph.Base.Names.{has, eq_ignore_ascii_case}
use rs_polygraph.Ast
use rs_polygraph.Ast.{Expression, OptExpression, Expressions, MapLiteral, AggregateExpr, Whens}

unfoldable mutual
  pub cypher_expr_contains_null : Expression → Bool
  cypher_expr_contains_null (Ast.literal Ast.null) = true
  cypher_expr_contains_null (Ast.or a b) =
      cypher_expr_contains_null a || cypher_expr_contains_null b
  cypher_expr_contains_null (Ast.and a b) =
      cypher_expr_contains_null a || cypher_expr_contains_null b
  cypher_expr_contains_null (Ast.xor a b) =
      cypher_expr_contains_null a || cypher_expr_contains_null b
  cypher_expr_contains_null (Ast.add a b) =
      cypher_expr_contains_null a || cypher_expr_contains_null b
  cypher_expr_contains_null (Ast.subtract a b) =
      cypher_expr_contains_null a || cypher_expr_contains_null b
  cypher_expr_contains_null (Ast.multiply a b) =
      cypher_expr_contains_null a || cypher_expr_contains_null b
  cypher_expr_contains_null (Ast.divide a b) =
      cypher_expr_contains_null a || cypher_expr_contains_null b
  cypher_expr_contains_null (Ast.modulo a b) =
      cypher_expr_contains_null a || cypher_expr_contains_null b
  cypher_expr_contains_null (Ast.power a b) =
      cypher_expr_contains_null a || cypher_expr_contains_null b
  cypher_expr_contains_null (Ast.comparison a _ b) =
      cypher_expr_contains_null a || cypher_expr_contains_null b
  cypher_expr_contains_null (Ast.not e) = cypher_expr_contains_null e
  cypher_expr_contains_null (Ast.negate e) = cypher_expr_contains_null e
  cypher_expr_contains_null (Ast.is_null e) = cypher_expr_contains_null e
  cypher_expr_contains_null (Ast.is_not_null e) = cypher_expr_contains_null e
  cypher_expr_contains_null (Ast.list_of es) = any_contains_null es
  cypher_expr_contains_null (Ast.function_call _ _ es) = any_contains_null es
  cypher_expr_contains_null _ = false

  pub any_contains_null : Expressions → Bool
  any_contains_null Ast.nil = false
  any_contains_null (Ast.cons e es) = cypher_expr_contains_null e || any_contains_null es

unfoldable mutual
  pub expr_uses_nullable : Expression → List String → Bool
  expr_uses_nullable (Ast.variable v) names = has v names
  expr_uses_nullable (Ast.property base _) names = expr_uses_nullable base names
  expr_uses_nullable (Ast.or a b) names = expr_uses_nullable a names || expr_uses_nullable b names
  expr_uses_nullable (Ast.and a b) names = expr_uses_nullable a names || expr_uses_nullable b names
  expr_uses_nullable (Ast.xor a b) names = expr_uses_nullable a names || expr_uses_nullable b names
  expr_uses_nullable (Ast.add a b) names = expr_uses_nullable a names || expr_uses_nullable b names
  expr_uses_nullable (Ast.subtract a b) names =
      expr_uses_nullable a names || expr_uses_nullable b names
  expr_uses_nullable (Ast.multiply a b) names =
      expr_uses_nullable a names || expr_uses_nullable b names
  expr_uses_nullable (Ast.divide a b) names =
      expr_uses_nullable a names || expr_uses_nullable b names
  expr_uses_nullable (Ast.modulo a b) names =
      expr_uses_nullable a names || expr_uses_nullable b names
  expr_uses_nullable (Ast.power a b) names =
      expr_uses_nullable a names || expr_uses_nullable b names
  expr_uses_nullable (Ast.comparison a _ b) names =
      expr_uses_nullable a names || expr_uses_nullable b names
  expr_uses_nullable (Ast.subscript a b) names =
      expr_uses_nullable a names || expr_uses_nullable b names
  expr_uses_nullable (Ast.not e) names = expr_uses_nullable e names
  expr_uses_nullable (Ast.negate e) names = expr_uses_nullable e names
  expr_uses_nullable (Ast.is_null e) names = expr_uses_nullable e names
  expr_uses_nullable (Ast.is_not_null e) names = expr_uses_nullable e names
  expr_uses_nullable (Ast.function_call _ _ es) names = any_uses_nullable es names
  expr_uses_nullable (Ast.list_of es) names = any_uses_nullable es names
  expr_uses_nullable (Ast.label_check v _) names = has v names
  expr_uses_nullable (Ast.case_expression operand whens otherwise) names =
      opt_uses_nullable operand names
      || whens_use_nullable whens names
      || opt_uses_nullable otherwise names
  expr_uses_nullable (Ast.quantifier_expr _ _ l p) names =
      expr_uses_nullable l names || opt_uses_nullable p names
  expr_uses_nullable (Ast.list_slice l start end) names =
      expr_uses_nullable l names || opt_uses_nullable start names || opt_uses_nullable end names
  expr_uses_nullable (Ast.list_comprehension _ l p j) names =
      expr_uses_nullable l names || opt_uses_nullable p names || opt_uses_nullable j names
  expr_uses_nullable (Ast.pattern_comprehension _ _ p j) names =
      opt_uses_nullable p names || expr_uses_nullable j names
  expr_uses_nullable _ names = false

  pub any_uses_nullable : Expressions → List String → Bool
  any_uses_nullable Ast.nil names = false
  any_uses_nullable (Ast.cons e es) names = expr_uses_nullable e names || any_uses_nullable es names

  pub opt_uses_nullable : OptExpression → List String → Bool
  opt_uses_nullable Ast.absent names = false
  opt_uses_nullable (Ast.present e) names = expr_uses_nullable e names

  pub whens_use_nullable : Whens → List String → Bool
  whens_use_nullable Ast.no_when names = false
  whens_use_nullable (Ast.when_then w t ws) names =
      expr_uses_nullable w names || expr_uses_nullable t names || whens_use_nullable ws names

-- The functions that read a deleted entity. The source compares the lower-cased name; names are
-- taken to be ASCII here.
abbrev is_unsafe_fn : String → Bool
is_unsafe_fn name =
    eq_ignore_ascii_case name "labels"
    || eq_ignore_ascii_case name "id"
    || eq_ignore_ascii_case name "elementid"
    || eq_ignore_ascii_case name "properties"
    || eq_ignore_ascii_case name "keys"

-- whether the first argument is a deleted variable
abbrev is_deleted_argument : Expressions → List String → Bool
is_deleted_argument (Ast.cons (Ast.variable v) _) deleted = has v deleted
is_deleted_argument _ deleted = false

unfoldable mutual
  pub expr_accesses_deleted_prop : Expression → List String → Bool
  expr_accesses_deleted_prop (Ast.property (Ast.variable v) _) deleted = has v deleted
  expr_accesses_deleted_prop (Ast.property base _) deleted = expr_accesses_deleted_prop base deleted
  expr_accesses_deleted_prop (Ast.function_call name _ args) deleted =
      (is_unsafe_fn name && is_deleted_argument args deleted) || any_accesses_deleted args deleted
  expr_accesses_deleted_prop (Ast.or a b) deleted =
      expr_accesses_deleted_prop a deleted || expr_accesses_deleted_prop b deleted
  expr_accesses_deleted_prop (Ast.and a b) deleted =
      expr_accesses_deleted_prop a deleted || expr_accesses_deleted_prop b deleted
  expr_accesses_deleted_prop (Ast.xor a b) deleted =
      expr_accesses_deleted_prop a deleted || expr_accesses_deleted_prop b deleted
  expr_accesses_deleted_prop (Ast.add a b) deleted =
      expr_accesses_deleted_prop a deleted || expr_accesses_deleted_prop b deleted
  expr_accesses_deleted_prop (Ast.subtract a b) deleted =
      expr_accesses_deleted_prop a deleted || expr_accesses_deleted_prop b deleted
  expr_accesses_deleted_prop (Ast.multiply a b) deleted =
      expr_accesses_deleted_prop a deleted || expr_accesses_deleted_prop b deleted
  expr_accesses_deleted_prop (Ast.divide a b) deleted =
      expr_accesses_deleted_prop a deleted || expr_accesses_deleted_prop b deleted
  expr_accesses_deleted_prop (Ast.modulo a b) deleted =
      expr_accesses_deleted_prop a deleted || expr_accesses_deleted_prop b deleted
  expr_accesses_deleted_prop (Ast.power a b) deleted =
      expr_accesses_deleted_prop a deleted || expr_accesses_deleted_prop b deleted
  expr_accesses_deleted_prop (Ast.comparison a _ b) deleted =
      expr_accesses_deleted_prop a deleted || expr_accesses_deleted_prop b deleted
  expr_accesses_deleted_prop (Ast.not e) deleted = expr_accesses_deleted_prop e deleted
  expr_accesses_deleted_prop (Ast.negate e) deleted = expr_accesses_deleted_prop e deleted
  expr_accesses_deleted_prop (Ast.is_null e) deleted = expr_accesses_deleted_prop e deleted
  expr_accesses_deleted_prop (Ast.is_not_null e) deleted = expr_accesses_deleted_prop e deleted
  expr_accesses_deleted_prop (Ast.list_of es) deleted = any_accesses_deleted es deleted
  expr_accesses_deleted_prop (Ast.map_of ps) deleted = map_accesses_deleted ps deleted
  expr_accesses_deleted_prop (Ast.aggregate a) deleted = agg_accesses_deleted a deleted
  expr_accesses_deleted_prop _ deleted = false

  pub any_accesses_deleted : Expressions → List String → Bool
  any_accesses_deleted Ast.nil deleted = false
  any_accesses_deleted (Ast.cons e es) deleted =
      expr_accesses_deleted_prop e deleted || any_accesses_deleted es deleted

  pub map_accesses_deleted : MapLiteral → List String → Bool
  map_accesses_deleted Ast.no_pair deleted = false
  map_accesses_deleted (Ast.pair _ e es) deleted =
      expr_accesses_deleted_prop e deleted || map_accesses_deleted es deleted

  pub opt_accesses_deleted : OptExpression → List String → Bool
  opt_accesses_deleted Ast.absent deleted = false
  opt_accesses_deleted (Ast.present e) deleted = expr_accesses_deleted_prop e deleted

  pub agg_accesses_deleted : AggregateExpr → List String → Bool
  agg_accesses_deleted (Ast.count _ e) deleted = opt_accesses_deleted e deleted
  agg_accesses_deleted (Ast.sum _ e) deleted = expr_accesses_deleted_prop e deleted
  agg_accesses_deleted (Ast.avg _ e) deleted = expr_accesses_deleted_prop e deleted
  agg_accesses_deleted (Ast.min _ e) deleted = expr_accesses_deleted_prop e deleted
  agg_accesses_deleted (Ast.max _ e) deleted = expr_accesses_deleted_prop e deleted
  agg_accesses_deleted (Ast.collect _ e) deleted = expr_accesses_deleted_prop e deleted
