-- ===== src/Translator/Substitution.antt =====
-- `substitute_var_in_expr` (crates/polygraph/src/translator/cypher/util.rs), which expands a quantifier
-- over a list of literals.
pub mod Meaning
pub mod Correct
use rs_polygraph.Base.{String, Bool, if◌then◌else◌}
use rs_polygraph.Base.Eq.{◌==◌, string_eq}
use rs_polygraph.Ast
use rs_polygraph.Ast.{Expression, OptExpression, Expressions, Whens}

-- The recursive calls stand before the tests of a shadowing variable, since both branches compute.
unfoldable mutual
  pub substitute_var_in_expr : Expression → String → Expression → Expression
  substitute_var_in_expr (Ast.variable v) x r = if v == x then r else Ast.variable v
  substitute_var_in_expr (Ast.not e) x r = Ast.not (substitute_var_in_expr e x r)
  substitute_var_in_expr (Ast.negate e) x r = Ast.negate (substitute_var_in_expr e x r)
  substitute_var_in_expr (Ast.is_null e) x r = Ast.is_null (substitute_var_in_expr e x r)
  substitute_var_in_expr (Ast.is_not_null e) x r = Ast.is_not_null (substitute_var_in_expr e x r)
  substitute_var_in_expr (Ast.or a b) x r =
      Ast.or (substitute_var_in_expr a x r) (substitute_var_in_expr b x r)
  substitute_var_in_expr (Ast.and a b) x r =
      Ast.and (substitute_var_in_expr a x r) (substitute_var_in_expr b x r)
  substitute_var_in_expr (Ast.xor a b) x r =
      Ast.xor (substitute_var_in_expr a x r) (substitute_var_in_expr b x r)
  substitute_var_in_expr (Ast.add a b) x r =
      Ast.add (substitute_var_in_expr a x r) (substitute_var_in_expr b x r)
  substitute_var_in_expr (Ast.subtract a b) x r =
      Ast.subtract (substitute_var_in_expr a x r) (substitute_var_in_expr b x r)
  substitute_var_in_expr (Ast.multiply a b) x r =
      Ast.multiply (substitute_var_in_expr a x r) (substitute_var_in_expr b x r)
  substitute_var_in_expr (Ast.divide a b) x r =
      Ast.divide (substitute_var_in_expr a x r) (substitute_var_in_expr b x r)
  substitute_var_in_expr (Ast.modulo a b) x r =
      Ast.modulo (substitute_var_in_expr a x r) (substitute_var_in_expr b x r)
  substitute_var_in_expr (Ast.power a b) x r =
      Ast.power (substitute_var_in_expr a x r) (substitute_var_in_expr b x r)
  substitute_var_in_expr (Ast.subscript a b) x r =
      Ast.subscript (substitute_var_in_expr a x r) (substitute_var_in_expr b x r)
  substitute_var_in_expr (Ast.comparison a op b) x r =
      Ast.comparison (substitute_var_in_expr a x r) op (substitute_var_in_expr b x r)
  substitute_var_in_expr (Ast.property base key) x r =
      Ast.property (substitute_var_in_expr base x r) key
  substitute_var_in_expr (Ast.list_slice l start end) x r =
      Ast.list_slice (substitute_var_in_expr l x r) (substitute_opt start x r)
        (substitute_opt end x r)
  substitute_var_in_expr (Ast.function_call name distinct args) x r =
      Ast.function_call name distinct (substitute_all args x r)
  substitute_var_in_expr (Ast.list_of es) x r = Ast.list_of (substitute_all es x r)
  substitute_var_in_expr (Ast.quantifier_expr kind y l p) x r =
      let l' = substitute_var_in_expr l x r in
      let p' = substitute_opt p x r in
      if y == x then Ast.quantifier_expr kind y l p else Ast.quantifier_expr kind y l' p'
  substitute_var_in_expr (Ast.list_comprehension y l p j) x r =
      let l' = substitute_var_in_expr l x r in
      let p' = substitute_opt p x r in
      let j' = substitute_opt j x r in
      if y == x then Ast.list_comprehension y l p j else Ast.list_comprehension y l' p' j'
  substitute_var_in_expr (Ast.case_expression operand whens otherwise) x r =
      Ast.case_expression (substitute_opt operand x r) (substitute_whens whens x r)
        (substitute_opt otherwise x r)
  substitute_var_in_expr e x r = e

  pub substitute_opt : OptExpression → String → Expression → OptExpression
  substitute_opt Ast.absent x r = Ast.absent
  substitute_opt (Ast.present e) x r = Ast.present (substitute_var_in_expr e x r)

  pub substitute_all : Expressions → String → Expression → Expressions
  substitute_all Ast.nil x r = Ast.nil
  substitute_all (Ast.cons e es) x r =
      Ast.cons (substitute_var_in_expr e x r) (substitute_all es x r)

  pub substitute_whens : Whens → String → Expression → Whens
  substitute_whens Ast.no_when x r = Ast.no_when
  substitute_whens (Ast.when_then w t ws) x r =
      Ast.when_then (substitute_var_in_expr w x r) (substitute_var_in_expr t x r)
        (substitute_whens ws x r)
