-- ===== src/Translator/Substitution/Meaning.antt =====
-- Substitution keeps the meaning of an expression
-- (crates/polygraph/src/translator/cypher/util.rs). The meaning is any one in which an operator acts
-- on the values of its operands and a bound variable ranges over values.
use rs_polygraph.Base.{String, Bool, true, Option, none, some, List, [], ◌∷◌, ◌≡◌, if◌then◌else◌}
use rs_polygraph.Base.Eq.{◌==◌, string_eq}
use rs_polygraph.Ast
use rs_polygraph.Ast.{
  Literal, CompOp, QuantifierKind, Expression, OptExpression, Expressions, Whens,
}
use rs_polygraph.Translator.Substitution.{substitute_var_in_expr}

-- the operators that act on the values of their operands
pub data Operator : Type 0 where
  not negate is_null is_not_null : Operator
  or xor and add subtract multiply divide modulo power subscript list_of : Operator
  comparison : CompOp → Operator
  property : String → Operator
  function_call : String → Bool → Operator

-- A meaning: what literals and operators are, how a bound variable's body is used, and what the
-- expressions are that substitution leaves alone.
pub record Algebra : Type 1 where
  pub Value : Type 0
  pub constant : Literal → Value
  pub operate : Operator → List Value → Value
  pub slice : Value → Option Value → Option Value → Value
  pub choose : Option Value → List (Value × Value) → Option Value → Value
  pub quantify : QuantifierKind → Value → Option (Value → Value) → Value
  pub comprehend : Value → Option (Value → Value) → Option (Value → Value) → Value
  pub other : Expression → (String → Value) → Value

module _ (m : Algebra) where
  abbrev pub Environment : Type 0
  Environment = String → m.Value

  -- `env` with `x` bound to `a`
  unfoldable pub assign : String → m.Value → Environment → Environment
  assign x a env y = if y == x then a else env y

  unfoldable mutual
    pub meaning : Expression → Environment → m.Value
    meaning (Ast.variable v) env = env v
    meaning (Ast.literal l) env = m.constant l
    meaning (Ast.not e) env = m.operate not (meaning e env ∷ [])
    meaning (Ast.negate e) env = m.operate negate (meaning e env ∷ [])
    meaning (Ast.is_null e) env = m.operate is_null (meaning e env ∷ [])
    meaning (Ast.is_not_null e) env = m.operate is_not_null (meaning e env ∷ [])
    meaning (Ast.or a b) env = m.operate or (meaning a env ∷ meaning b env ∷ [])
    meaning (Ast.and a b) env = m.operate and (meaning a env ∷ meaning b env ∷ [])
    meaning (Ast.xor a b) env = m.operate xor (meaning a env ∷ meaning b env ∷ [])
    meaning (Ast.add a b) env = m.operate add (meaning a env ∷ meaning b env ∷ [])
    meaning (Ast.subtract a b) env = m.operate subtract (meaning a env ∷ meaning b env ∷ [])
    meaning (Ast.multiply a b) env = m.operate multiply (meaning a env ∷ meaning b env ∷ [])
    meaning (Ast.divide a b) env = m.operate divide (meaning a env ∷ meaning b env ∷ [])
    meaning (Ast.modulo a b) env = m.operate modulo (meaning a env ∷ meaning b env ∷ [])
    meaning (Ast.power a b) env = m.operate power (meaning a env ∷ meaning b env ∷ [])
    meaning (Ast.subscript a b) env = m.operate subscript (meaning a env ∷ meaning b env ∷ [])
    meaning (Ast.comparison a op b) env =
        m.operate (comparison op) (meaning a env ∷ meaning b env ∷ [])
    meaning (Ast.property base key) env = m.operate (property key) (meaning base env ∷ [])
    meaning (Ast.function_call name distinct args) env =
        m.operate (function_call name distinct) (meanings args env)
    meaning (Ast.list_of es) env = m.operate list_of (meanings es env)
    meaning (Ast.list_slice l start end) env =
        m.slice (meaning l env) (opt_meaning start env) (opt_meaning end env)
    meaning (Ast.case_expression operand whens otherwise) env =
        m.choose (opt_meaning operand env) (when_meanings whens env) (opt_meaning otherwise env)
    meaning (Ast.quantifier_expr kind y l p) env =
        m.quantify kind (meaning l env) (body_meaning p y env)
    meaning (Ast.list_comprehension y l p j) env =
        m.comprehend (meaning l env) (body_meaning p y env) (body_meaning j y env)
    meaning e env = m.other e env

    pub opt_meaning : OptExpression → Environment → Option m.Value
    opt_meaning Ast.absent env = none
    opt_meaning (Ast.present e) env = some (meaning e env)

    pub body_meaning : OptExpression → String → Environment → Option (m.Value → m.Value)
    body_meaning Ast.absent y env = none
    body_meaning (Ast.present e) y env = some (λ a. meaning e (assign y a env))

    pub meanings : Expressions → Environment → List m.Value
    meanings Ast.nil env = []
    meanings (Ast.cons e es) env = meaning e env ∷ meanings es env

    pub when_meanings : Whens → Environment → List (m.Value × m.Value)
    when_meanings Ast.no_when env = []
    when_meanings (Ast.when_then w t ws) env = (meaning w env, meaning t env) ∷ when_meanings ws env

  module _ (x : String) (r : Expression) where
    -- The condition: what is left alone does not depend on `x`, and neither does the list of a
    -- binder that shadows `x`.
    unfoldable mutual
      unfolding assign meaning substitute_var_in_expr

      pub Substitutable : m.Value → Expression → Type 0
      Substitutable a (Ast.variable v) = Unit
      Substitutable a (Ast.literal l) = Unit
      Substitutable a (Ast.not e) = Substitutable a e
      Substitutable a (Ast.negate e) = Substitutable a e
      Substitutable a (Ast.is_null e) = Substitutable a e
      Substitutable a (Ast.is_not_null e) = Substitutable a e
      Substitutable c (Ast.or a b) = Substitutable c a × Substitutable c b
      Substitutable c (Ast.and a b) = Substitutable c a × Substitutable c b
      Substitutable c (Ast.xor a b) = Substitutable c a × Substitutable c b
      Substitutable c (Ast.add a b) = Substitutable c a × Substitutable c b
      Substitutable c (Ast.subtract a b) = Substitutable c a × Substitutable c b
      Substitutable c (Ast.multiply a b) = Substitutable c a × Substitutable c b
      Substitutable c (Ast.divide a b) = Substitutable c a × Substitutable c b
      Substitutable c (Ast.modulo a b) = Substitutable c a × Substitutable c b
      Substitutable c (Ast.power a b) = Substitutable c a × Substitutable c b
      Substitutable c (Ast.subscript a b) = Substitutable c a × Substitutable c b
      Substitutable c (Ast.comparison a op b) = Substitutable c a × Substitutable c b
      Substitutable a (Ast.property base key) = Substitutable a base
      Substitutable a (Ast.function_call name distinct args) = AllSubstitutable a args
      Substitutable a (Ast.list_of es) = AllSubstitutable a es
      Substitutable a (Ast.list_slice l start end) =
          Substitutable a l × OptSubstitutable a start × OptSubstitutable a end
      Substitutable a (Ast.case_expression operand whens otherwise) =
          OptSubstitutable a operand × WhensSubstitutable a whens × OptSubstitutable a otherwise
      Substitutable a (Ast.quantifier_expr kind y l p) =
          Substitutable a l
          × OptSubstitutable a p
          × (y == x ≡ true → substitute_var_in_expr l x r ≡ l)
      Substitutable a (Ast.list_comprehension y l p j) =
          Substitutable a l
          × OptSubstitutable a p
          × OptSubstitutable a j
          × (y == x ≡ true → substitute_var_in_expr l x r ≡ l)
      Substitutable a e = (env : Environment) → m.other e env ≡ m.other e (assign x a env)

      pub OptSubstitutable : m.Value → OptExpression → Type 0
      OptSubstitutable a Ast.absent = Unit
      OptSubstitutable a (Ast.present e) = Substitutable a e

      pub AllSubstitutable : m.Value → Expressions → Type 0
      AllSubstitutable a Ast.nil = Unit
      AllSubstitutable a (Ast.cons e es) = Substitutable a e × AllSubstitutable a es

      pub WhensSubstitutable : m.Value → Whens → Type 0
      WhensSubstitutable a Ast.no_when = Unit
      WhensSubstitutable a (Ast.when_then w t ws) =
          Substitutable a w × Substitutable a t × WhensSubstitutable a ws
