-- ===== src/Translator/Opaque.antt =====
-- The lists whose elements are not known before a query runs: `expr_contains_rand`,
-- `clause_expr_is_opaque` and `collect_nonempty_vars`
-- (crates/polygraph/src/translator/cypher/mod.rs). A hash set of names is a list of names, in the
-- order of insertion.
pub mod Nonempty
mod Examples
use rs_polygraph.Base.{String, Bool, true, false, ◌&&◌, ◌||◌, List, ◌∷◌, if◌then◌else◌}
use rs_polygraph.Base.Int.{ℤ, pos, eq_ℤ}
use rs_polygraph.Base.Names.{has, eq_ignore_ascii_case}
use rs_polygraph.Ast
use rs_polygraph.Ast.{Expression, OptExpression, Expressions, Whens, CompOp}

unfoldable mutual
  pub expr_contains_rand : Expression → Bool
  expr_contains_rand (Ast.function_call name _ es) =
      eq_ignore_ascii_case name "rand" || any_contains_rand es
  expr_contains_rand (Ast.or a b) = expr_contains_rand a || expr_contains_rand b
  expr_contains_rand (Ast.and a b) = expr_contains_rand a || expr_contains_rand b
  expr_contains_rand (Ast.add a b) = expr_contains_rand a || expr_contains_rand b
  expr_contains_rand (Ast.subtract a b) = expr_contains_rand a || expr_contains_rand b
  expr_contains_rand (Ast.multiply a b) = expr_contains_rand a || expr_contains_rand b
  expr_contains_rand (Ast.comparison a _ b) = expr_contains_rand a || expr_contains_rand b
  expr_contains_rand (Ast.not e) = expr_contains_rand e
  expr_contains_rand (Ast.negate e) = expr_contains_rand e
  expr_contains_rand (Ast.is_null e) = expr_contains_rand e
  expr_contains_rand (Ast.is_not_null e) = expr_contains_rand e
  expr_contains_rand (Ast.list_of es) = any_contains_rand es
  expr_contains_rand (Ast.list_comprehension _ list predicate projection) =
      expr_contains_rand list || opt_contains_rand predicate || opt_contains_rand projection
  expr_contains_rand (Ast.case_expression operand whens else_expr) =
      opt_contains_rand operand || whens_contain_rand whens || opt_contains_rand else_expr
  expr_contains_rand _ = false

  pub any_contains_rand : Expressions → Bool
  any_contains_rand Ast.nil = false
  any_contains_rand (Ast.cons e es) = expr_contains_rand e || any_contains_rand es

  pub opt_contains_rand : OptExpression → Bool
  opt_contains_rand Ast.absent = false
  opt_contains_rand (Ast.present e) = expr_contains_rand e

  pub whens_contain_rand : Whens → Bool
  whens_contain_rand Ast.no_when = false
  whens_contain_rand (Ast.when_then w t ws) =
      (expr_contains_rand w || expr_contains_rand t) || whens_contain_rand ws

-- `matches!(e, Expression::Variable(v) if opaque_vars.contains(v))`
abbrev pub is_opaque_var : Expression → List String → Bool
is_opaque_var (Ast.variable v) opaque = has v opaque
is_opaque_var _ opaque = false

abbrev pub is_var : Expression → Bool
is_var (Ast.variable _) = true
is_var _ = false

unfoldable mutual
  pub clause_expr_is_opaque : Expression → List String → Bool
  clause_expr_is_opaque (Ast.list_comprehension _ list (Ast.present p) _) opaque =
      is_var list && expr_contains_rand p
  clause_expr_is_opaque (Ast.add a b) opaque =
      (clause_expr_is_opaque a opaque || is_opaque_var a opaque)
      || (clause_expr_is_opaque b opaque || is_opaque_var b opaque)
  clause_expr_is_opaque (Ast.case_expression _ whens else_expr) opaque =
      whens_are_opaque whens opaque || opt_is_opaque else_expr opaque
  clause_expr_is_opaque (Ast.variable v) opaque = has v opaque
  clause_expr_is_opaque (Ast.function_call name _ args) opaque =
      (eq_ignore_ascii_case name "coalesce" || eq_ignore_ascii_case name "reverse")
      && any_is_opaque args opaque
  clause_expr_is_opaque _ opaque = false

  pub whens_are_opaque : Whens → List String → Bool
  whens_are_opaque Ast.no_when opaque = false
  whens_are_opaque (Ast.when_then _ t ws) opaque =
      (clause_expr_is_opaque t opaque || is_opaque_var t opaque) || whens_are_opaque ws opaque

  pub opt_is_opaque : OptExpression → List String → Bool
  opt_is_opaque Ast.absent opaque = false
  opt_is_opaque (Ast.present e) opaque = clause_expr_is_opaque e opaque || is_opaque_var e opaque

  pub any_is_opaque : Expressions → List String → Bool
  any_is_opaque Ast.nil opaque = false
  any_is_opaque (Ast.cons e es) opaque =
      (clause_expr_is_opaque e opaque || is_opaque_var e opaque) || any_is_opaque es opaque

abbrev pub is_integer : ℤ → Expression → Bool
is_integer n (Ast.literal (Ast.integer m)) = eq_ℤ m n
is_integer n _ = false

-- `> 0` and `>= 1`
abbrev pub asks_nonempty : CompOp → Expression → Bool
asks_nonempty Ast.gt rhs = is_integer (pos 0) rhs
asks_nonempty Ast.ge rhs = is_integer (pos 1) rhs
asks_nonempty _ rhs = false

unfoldable pub collect_nonempty_vars : Expression → List String → List String
collect_nonempty_vars
      (Ast.comparison (Ast.function_call name _ (Ast.cons (Ast.variable v) _)) op rhs) nonempty =
    if eq_ignore_ascii_case name "size" && asks_nonempty op rhs then v ∷ nonempty else nonempty
collect_nonempty_vars (Ast.and a b) nonempty =
    collect_nonempty_vars b (collect_nonempty_vars a nonempty)
collect_nonempty_vars _ nonempty = nonempty
