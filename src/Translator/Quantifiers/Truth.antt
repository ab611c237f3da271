-- ===== src/Translator/Quantifiers/Truth.antt =====
-- The truth of quantifiers over list variables, of comparisons of `size` and of the keys of
-- `quantifier_canonical` (crates/polygraph/src/translator/cypher/mod.rs). Predicates are never null
-- here.
use rs_polygraph.Base.{
  ℕ, String, Bool, true, false, not, Option, none, some, List, if◌then◌else◌, nat_beq, ltb,
}
use rs_polygraph.Base.Int.{ℤ, pos, eq_ℤ, ltb_ℤ}
use rs_polygraph.Base.Eq.{string_eq}
use rs_polygraph.Base.Any.{any}
use rs_polygraph.Base.Names.{eq_ignore_ascii_case}
use rs_polygraph.Ast
use rs_polygraph.Ast.{Expression, OptExpression, CompOp, QuantifierKind}
use rs_polygraph.Translator.Quantifiers.{
  get_literal_int, sized_variable, KeyKind, none_of, some_of, one_of, Key,
}
use rs_polygraph.Translator.Quantifiers.Counting.{count, every_holds}

abbrev pub xor : Bool → Bool → Bool
xor true b = not b
xor false b = b

-- how many elements the key speaks of
abbrev pub kind_truth : KeyKind → ℕ → Bool
kind_truth none_of n = nat_beq n 0
kind_truth some_of n = ltb 0 n
kind_truth one_of n = nat_beq n 1

-- the kinds of quantifiers
abbrev pub quantify : {A : Type 0} → QuantifierKind → (A → Bool) → List A → Bool
quantify Ast.no_one f xs = not (any f xs)
quantify Ast.any f xs = any f xs
quantify Ast.all f xs = every_holds f xs
quantify Ast.single f xs = nat_beq (count f xs) 1

abbrev pub compare : CompOp → ℤ → ℤ → Option Bool
compare Ast.eq a b = some (eq_ℤ a b)
compare Ast.gt a b = some (ltb_ℤ b a)
compare _ a b = none

-- the value of the right side of a comparison, given its literal or else the size of its list
abbrev pub number_of : Option ℤ → Option ℕ → Option ℤ
number_of (some n) size = some n
number_of none (some n) = some (pos n)
number_of none none = none

abbrev pub not_opt : Option Bool → Option Bool
not_opt none = none
not_opt (some b) = some (not b)

abbrev pub compare_opt : CompOp → ℕ → Option ℤ → Option Bool
compare_opt op n none = none
compare_opt op n (some m) = compare op (pos n) m

-- the elements of the list variables, and when a predicate about a variable holds of an element
pub record Reading : Type 1 where
  pub Element : Type 0
  pub elements : String → List Element
  pub holds : String → Expression → Element → Bool

-- the variable that the quantifier or the comprehension binds
unfoldable pub bound_of : Expression → String
bound_of (Ast.quantifier_expr _ x _ _) = x
bound_of (Ast.not e) = bound_of e
bound_of
      (Ast.comparison (Ast.function_call _ _ (Ast.cons (Ast.list_comprehension x _ _ _) _)) _ _) =
    x
bound_of _ = ""

module _ (r : Reading) where
  -- a predicate that is left out holds
  abbrev pub passes : String → OptExpression → r.Element → Bool
  passes x Ast.absent a = true
  passes x (Ast.present p) a = r.holds x p a

  abbrev pub size_of : Option String → Option ℕ
  size_of none = none
  size_of (some u) = some (count (λ a. true) (r.elements u))

  -- the value of an integer literal or of `size(u)`
  abbrev pub number : Expression → Option ℤ
  number e = number_of (get_literal_int e) (size_of (sized_variable e))

  -- whether a quantifier, a comparison of `size`, or a negation of these is true
  unfoldable pub truth : Expression → Option Bool
  truth (Ast.quantifier_expr kind x (Ast.variable v) p) =
      some (quantify kind (passes x p) (r.elements v))
  truth (Ast.not e) = not_opt (truth e)
  truth
        (Ast.comparison
          (Ast.function_call name _ (Ast.cons (Ast.list_comprehension x (Ast.variable v) p _) _))
          op
          rhs) =
      if eq_ignore_ascii_case name "size"
      then compare_opt op (count (passes x p) (r.elements v)) (number rhs)
      else none
  truth _ = none

  -- whether a base predicate, negated or not, holds
  abbrev pub signed : String → Bool × Expression → r.Element → Bool
  signed x (negated, base) a = xor negated (r.holds x base a)

  -- what a key says when its predicate is about `x`
  abbrev pub key_truth : String → Key → Bool
  key_truth x k = kind_truth k.kind (count (signed x (k.negated, k.base)) (r.elements k.list_var))
