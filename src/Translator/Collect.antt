-- ===== src/Translator/Collect.antt =====
-- The variables that the checks of crates/polygraph/src/translator/cypher/semantics.rs collect from
-- an expression, in their order. A vector that is filled in place is the list that is returned.
pub mod Occurs
use rs_polygraph.Base.{String, List, [], ◌∷◌, ◌++◌}
use rs_polygraph.Ast
use rs_polygraph.Ast.{Expression, Expressions, MapLiteral, OptMapLiteral}

-- of an `ORDER BY` of `WITH`
unfoldable mutual
  pub collect_free_vars_ob : Expression → List String
  collect_free_vars_ob (Ast.variable v) = v ∷ []
  collect_free_vars_ob (Ast.property base _) = collect_free_vars_ob base
  collect_free_vars_ob (Ast.or a b) = collect_free_vars_ob a ++ collect_free_vars_ob b
  collect_free_vars_ob (Ast.and a b) = collect_free_vars_ob a ++ collect_free_vars_ob b
  collect_free_vars_ob (Ast.xor a b) = collect_free_vars_ob a ++ collect_free_vars_ob b
  collect_free_vars_ob (Ast.add a b) = collect_free_vars_ob a ++ collect_free_vars_ob b
  collect_free_vars_ob (Ast.subtract a b) = collect_free_vars_ob a ++ collect_free_vars_ob b
  collect_free_vars_ob (Ast.multiply a b) = collect_free_vars_ob a ++ collect_free_vars_ob b
  collect_free_vars_ob (Ast.divide a b) = collect_free_vars_ob a ++ collect_free_vars_ob b
  collect_free_vars_ob (Ast.modulo a b) = collect_free_vars_ob a ++ collect_free_vars_ob b
  collect_free_vars_ob (Ast.power a b) = collect_free_vars_ob a ++ collect_free_vars_ob b
  collect_free_vars_ob (Ast.comparison a _ b) = collect_free_vars_ob a ++ collect_free_vars_ob b
  collect_free_vars_ob (Ast.not e) = collect_free_vars_ob e
  collect_free_vars_ob (Ast.negate e) = collect_free_vars_ob e
  collect_free_vars_ob (Ast.is_null e) = collect_free_vars_ob e
  collect_free_vars_ob (Ast.is_not_null e) = collect_free_vars_ob e
  collect_free_vars_ob (Ast.function_call _ _ args) = all_free_vars_ob args
  collect_free_vars_ob (Ast.aggregate _) = []
  collect_free_vars_ob _ = []

  pub all_free_vars_ob : Expressions → List String
  all_free_vars_ob Ast.nil = []
  all_free_vars_ob (Ast.cons e es) = collect_free_vars_ob e ++ all_free_vars_ob es

-- of a projected expression of `RETURN`
unfoldable mutual
  pub collect_free_vars : Expression → List String
  collect_free_vars (Ast.variable v) = v ∷ []
  collect_free_vars (Ast.property base _) = collect_free_vars base
  collect_free_vars (Ast.or a b) = collect_free_vars a ++ collect_free_vars b
  collect_free_vars (Ast.and a b) = collect_free_vars a ++ collect_free_vars b
  collect_free_vars (Ast.xor a b) = collect_free_vars a ++ collect_free_vars b
  collect_free_vars (Ast.add a b) = collect_free_vars a ++ collect_free_vars b
  collect_free_vars (Ast.subtract a b) = collect_free_vars a ++ collect_free_vars b
  collect_free_vars (Ast.multiply a b) = collect_free_vars a ++ collect_free_vars b
  collect_free_vars (Ast.divide a b) = collect_free_vars a ++ collect_free_vars b
  collect_free_vars (Ast.modulo a b) = collect_free_vars a ++ collect_free_vars b
  collect_free_vars (Ast.power a b) = collect_free_vars a ++ collect_free_vars b
  collect_free_vars (Ast.comparison a _ b) = collect_free_vars a ++ collect_free_vars b
  collect_free_vars (Ast.not e) = collect_free_vars e
  collect_free_vars (Ast.negate e) = collect_free_vars e
  collect_free_vars (Ast.is_null e) = collect_free_vars e
  collect_free_vars (Ast.is_not_null e) = collect_free_vars e
  collect_free_vars (Ast.function_call _ _ args) = all_free_vars args
  collect_free_vars (Ast.aggregate _) = []
  collect_free_vars (Ast.map_of pairs) = map_free_vars pairs
  collect_free_vars (Ast.label_check v _) = v ∷ []
  collect_free_vars _ = []

  pub all_free_vars : Expressions → List String
  all_free_vars Ast.nil = []
  all_free_vars (Ast.cons e es) = collect_free_vars e ++ all_free_vars es

  pub map_free_vars : MapLiteral → List String
  map_free_vars Ast.no_pair = []
  map_free_vars (Ast.pair _ e es) = collect_free_vars e ++ map_free_vars es

-- of the right-hand side of a `SET`
unfoldable mutual
  pub collect_set_rhs_vars : Expression → List String
  collect_set_rhs_vars (Ast.variable v) = v ∷ []
  collect_set_rhs_vars (Ast.property base _) = collect_set_rhs_vars base
  collect_set_rhs_vars (Ast.add a b) = collect_set_rhs_vars a ++ collect_set_rhs_vars b
  collect_set_rhs_vars (Ast.subtract a b) = collect_set_rhs_vars a ++ collect_set_rhs_vars b
  collect_set_rhs_vars (Ast.multiply a b) = collect_set_rhs_vars a ++ collect_set_rhs_vars b
  collect_set_rhs_vars (Ast.divide a b) = collect_set_rhs_vars a ++ collect_set_rhs_vars b
  collect_set_rhs_vars (Ast.comparison a _ b) = collect_set_rhs_vars a ++ collect_set_rhs_vars b
  collect_set_rhs_vars (Ast.not e) = collect_set_rhs_vars e
  collect_set_rhs_vars (Ast.negate e) = collect_set_rhs_vars e
  collect_set_rhs_vars (Ast.is_null e) = collect_set_rhs_vars e
  collect_set_rhs_vars (Ast.is_not_null e) = collect_set_rhs_vars e
  collect_set_rhs_vars (Ast.function_call _ _ args) = all_set_rhs_vars args
  collect_set_rhs_vars _ = []

  pub all_set_rhs_vars : Expressions → List String
  all_set_rhs_vars Ast.nil = []
  all_set_rhs_vars (Ast.cons e es) = collect_set_rhs_vars e ++ all_set_rhs_vars es

-- of a property in a `CREATE`
unfoldable mutual
  pub collect_create_expr_vars : Expression → List String
  collect_create_expr_vars (Ast.variable v) = v ∷ []
  collect_create_expr_vars (Ast.property base _) = collect_create_expr_vars base
  collect_create_expr_vars (Ast.add a b) = collect_create_expr_vars a ++ collect_create_expr_vars b
  collect_create_expr_vars (Ast.subtract a b) =
      collect_create_expr_vars a ++ collect_create_expr_vars b
  collect_create_expr_vars (Ast.multiply a b) =
      collect_create_expr_vars a ++ collect_create_expr_vars b
  collect_create_expr_vars (Ast.divide a b) =
      collect_create_expr_vars a ++ collect_create_expr_vars b
  collect_create_expr_vars (Ast.function_call _ _ args) = all_create_expr_vars args
  collect_create_expr_vars _ = []

  pub all_create_expr_vars : Expressions → List String
  all_create_expr_vars Ast.nil = []
  all_create_expr_vars (Ast.cons e es) = collect_create_expr_vars e ++ all_create_expr_vars es

-- `collect_prop_vars` on the pairs and on the optional map
unfoldable pub map_prop_vars : MapLiteral → List String
unfolding collect_create_expr_vars
map_prop_vars Ast.no_pair = []
map_prop_vars (Ast.pair _ e m) = collect_create_expr_vars e ++ map_prop_vars m

unfoldable pub collect_prop_vars : OptMapLiteral → List String
unfolding map_prop_vars
collect_prop_vars Ast.no_map = []
collect_prop_vars (Ast.some_map m) = map_prop_vars m

-- of the right-hand side of a `SET` of a `MERGE`
unfoldable pub collect_merge_action_vars : Expression → List String
collect_merge_action_vars (Ast.variable v) = v ∷ []
collect_merge_action_vars (Ast.property base _) = collect_merge_action_vars base
collect_merge_action_vars (Ast.add a b) = collect_merge_action_vars a ++ collect_merge_action_vars b
collect_merge_action_vars (Ast.subtract a b) =
    collect_merge_action_vars a ++ collect_merge_action_vars b
collect_merge_action_vars (Ast.multiply a b) =
    collect_merge_action_vars a ++ collect_merge_action_vars b
collect_merge_action_vars (Ast.divide a b) =
    collect_merge_action_vars a ++ collect_merge_action_vars b
collect_merge_action_vars _ = []
