-- ===== src/Translator/Collect/Occurs.antt =====
-- Where a variable occurs in an expression, as far as the checks of
-- crates/polygraph/src/translator/cypher/semantics.rs look.
use mathlib.Core.List.{Memᴰ}
use mathlib.Core.Path.{subst}
use rs_polygraph.Base.{String, List, [], ◌∷◌, ◌++◌, sym, All}
use rs_polygraph.Ast
use rs_polygraph.Ast.{Expression, Expressions, MapLiteral}
use rs_polygraph.Ast.Views.{expressions, map_values}
use rs_polygraph.Translator.Collect.{collect_free_vars, all_free_vars, map_free_vars}

-- The operands of operators, arguments of functions, and values of maps. The parts of lists,
-- subscripts, slices, CASE, comprehensions, quantifiers, subqueries and aggregates are not among them.
abbrev pub operands : Expression → List Expression
operands (Ast.property base _) = base ∷ []
operands (Ast.or a b) = a ∷ b ∷ []
operands (Ast.and a b) = a ∷ b ∷ []
operands (Ast.xor a b) = a ∷ b ∷ []
operands (Ast.add a b) = a ∷ b ∷ []
operands (Ast.subtract a b) = a ∷ b ∷ []
operands (Ast.multiply a b) = a ∷ b ∷ []
operands (Ast.divide a b) = a ∷ b ∷ []
operands (Ast.modulo a b) = a ∷ b ∷ []
operands (Ast.power a b) = a ∷ b ∷ []
operands (Ast.comparison a _ b) = a ∷ b ∷ []
operands (Ast.not e) = e ∷ []
operands (Ast.negate e) = e ∷ []
operands (Ast.is_null e) = e ∷ []
operands (Ast.is_not_null e) = e ∷ []
operands (Ast.function_call _ _ args) = expressions args
operands (Ast.map_of pairs) = map_values pairs
operands _ = []

pub data Occurs (x : String) : Expression → Type 0 where
  here : Occurs x (Ast.variable x)
  labelled : (labels : List String) → Occurs x (Ast.label_check x labels)
  below : {a e : Expression} → Memᴰ a (operands e) → Occurs x a → Occurs x e

All-Mem : {A : Type 0} (P : A → Type 0) {a : A} {xs : List A} → All P xs → Memᴰ a xs → P a
All-Mem P h (Memᴰ.head e) = subst P (sym e) h.0
All-Mem P h (Memᴰ.tail m) = All-Mem P h.1 m

module _ (P : String → Type 0) where
  All_left : (xs ys : List String) → All P (xs ++ ys) → All P xs
  All_left [] ys h = tt
  All_left (x ∷ xs) ys h = (h.0, All_left xs ys h.1)

  All_right : (xs ys : List String) → All P (xs ++ ys) → All P ys
  All_right [] ys h = h
  All_right (x ∷ xs) ys h = All_right xs ys h.1

  abbrev Collected : Expression → Type 0
  Collected e = All P (collect_free_vars e)

  two :
      (a b : Expression)
      → All P (collect_free_vars a ++ collect_free_vars b)
      → All Collected (a ∷ b ∷ [])
  two a b h = (All_left (collect_free_vars a) _ h, (All_right (collect_free_vars a) _ h, tt))

  arguments : (es : Expressions) → All P (all_free_vars es) → All Collected (expressions es)
  unfolding all_free_vars
  arguments Ast.nil h = tt
  arguments (Ast.cons e es) h =
      (All_left (collect_free_vars e) _ h, arguments es (All_right (collect_free_vars e) _ h))

  entries : (m : MapLiteral) → All P (map_free_vars m) → All Collected (map_values m)
  unfolding map_free_vars
  entries Ast.no_pair h = tt
  entries (Ast.pair _ e m) h =
      (All_left (collect_free_vars e) _ h, entries m (All_right (collect_free_vars e) _ h))

  operands-Collected : (e : Expression) → Collected e → All Collected (operands e)
  unfolding collect_free_vars
  operands-Collected (Ast.property base _) h = (h, tt)
  operands-Collected (Ast.or a b) h = two a b h
  operands-Collected (Ast.and a b) h = two a b h
  operands-Collected (Ast.xor a b) h = two a b h
  operands-Collected (Ast.add a b) h = two a b h
  operands-Collected (Ast.subtract a b) h = two a b h
  operands-Collected (Ast.multiply a b) h = two a b h
  operands-Collected (Ast.divide a b) h = two a b h
  operands-Collected (Ast.modulo a b) h = two a b h
  operands-Collected (Ast.power a b) h = two a b h
  operands-Collected (Ast.comparison a _ b) h = two a b h
  operands-Collected (Ast.not e) h = (h, tt)
  operands-Collected (Ast.negate e) h = (h, tt)
  operands-Collected (Ast.is_null e) h = (h, tt)
  operands-Collected (Ast.is_not_null e) h = (h, tt)
  operands-Collected (Ast.function_call _ _ args) h = arguments args h
  operands-Collected (Ast.map_of pairs) h = entries pairs h
  operands-Collected _ h = tt

  -- what holds of the collected variables holds of one that occurs
  pub Occurs-collect_free_vars :
      {x : String} {e : Expression} → Occurs x e → All P (collect_free_vars e) → P x
  unfolding collect_free_vars
  Occurs-collect_free_vars here h = h.0
  Occurs-collect_free_vars (labelled labels) h = h.0
  Occurs-collect_free_vars (below {a} {e} m o) h =
      Occurs-collect_free_vars o (All-Mem Collected (operands-Collected e h) m)
