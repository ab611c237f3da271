-- ===== src/Translator/Quantifiers/Examples.antt =====
-- The keys of quantifiers at concrete expressions.
use rs_polygraph.Base.{ℕ, String, Bool, true, false, not, some, List, [], ◌∷◌, ◌≡◌, refl, nat_beq}
use rs_polygraph.Base.Names.{eq_ignore_ascii_case, has}
use rs_polygraph.Ast
use rs_polygraph.Ast.{Expression}
use rs_polygraph.Translator.Quantifiers.{
  some_of, none_of, Key, quantifier_canonical, get_literal_int, strip_not_chain, sized_variable,
}
use rs_polygraph.Translator.Quantifiers.Truth.{Reading, truth, bound_of, key_truth}
use rs_polygraph.Translator.Quantifiers.Sound.{quantifier_canonical-truth}

abbrev numbers : String → List ℕ
numbers v = 1 ∷ 2 ∷ []

-- every variable is true of 1 alone
abbrev is_one : String → Expression → ℕ → Bool
is_one x (Ast.literal (Ast.boolean b)) a = b
is_one x (Ast.not e) a = not (is_one x e a)
is_one x e a = nat_beq a 1

abbrev example : Reading
example = record { Element = ℕ; elements = numbers; holds = is_one }

-- `NOT all(x IN l WHERE NOT x)`
abbrev not_all : Expression
not_all =
    Ast.not (
      Ast.quantifier_expr Ast.all "x" (Ast.variable "l") (Ast.present (Ast.not (Ast.variable "x"))))

abbrev not_all_key : Key
not_all_key = record { list_var = "l"; kind = some_of; base = Ast.variable "x"; negated = false }

quantifier_canonical-truth_example :
    truth example not_all ≡ some (key_truth example (bound_of not_all) not_all_key)
unfolding quantifier_canonical strip_not_chain has
quantifier_canonical-truth_example =
    quantifier_canonical-truth example (λ x e a. refl) (λ x a. refl) not_all ("l" ∷ []) not_all_key
      refl

-- `size([x IN l WHERE x]) = size(l)` says `all`
size_of_all :
    quantifier_canonical
      (Ast.comparison
        (Ast.function_call "size" false (
          Ast.cons
            (Ast.list_comprehension "x"
              (Ast.variable "l")
              (Ast.present (Ast.variable "x"))
              Ast.absent)
            Ast.nil))
        Ast.eq
        (Ast.function_call "SIZE" false (Ast.cons (Ast.variable "l") Ast.nil)))
      ("l" ∷ [])
    ≡ some (record { list_var = "l"; kind = none_of; base = Ast.variable "x"; negated = true })
unfolding quantifier_canonical strip_not_chain sized_variable get_literal_int eq_ignore_ascii_case
    has
size_of_all = refl

-- quantifiers that bind different variables have one key
key_of_renamed :
    quantifier_canonical
      (Ast.quantifier_expr Ast.any "x" (Ast.variable "l") (Ast.present (Ast.variable "y")))
      ("l" ∷ [])
    ≡ quantifier_canonical
        (Ast.quantifier_expr Ast.any "y" (Ast.variable "l") (Ast.present (Ast.variable "y")))
        ("l" ∷ [])
unfolding quantifier_canonical
key_of_renamed = refl
