-- ===== src/Translator/Opaque/Examples.antt =====
-- Conditions and opaque lists at concrete expressions.
use rs_polygraph.Base.{ℕ, String, Bool, true, false, ◌&&◌, [], ◌∷◌, ◌≡◌, refl, arith, ltb}
use rs_polygraph.Base.Int.{pos, ltb_ℤ, leb_ℤ}
use rs_polygraph.Base.Names.{has, eq_ignore_ascii_case}
use rs_polygraph.Ast
use rs_polygraph.Ast.{Expression, CompOp}
use rs_polygraph.Translator.Opaque.{
  expr_contains_rand, clause_expr_is_opaque, collect_nonempty_vars,
}
use rs_polygraph.Translator.Opaque.Nonempty.{size_compared, collect_nonempty_vars-AllNonempty}

-- every list has two elements
abbrev two : String → ℕ
two v = 2

-- comparisons of a list's size are read, all else holds
abbrev met : Expression → Bool
met (Ast.and a b) = met a && met b
met
      (Ast.comparison
        (Ast.function_call _ _ (Ast.cons (Ast.variable _) _))
        Ast.gt
        (Ast.literal (Ast.integer n))) =
    ltb_ℤ n (pos 2)
met
      (Ast.comparison
        (Ast.function_call _ _ (Ast.cons (Ast.variable _) _))
        Ast.ge
        (Ast.literal (Ast.integer n))) =
    leb_ℤ n (pos 2)
met _ = true

abbrev long_enough : Expression
long_enough =
    Ast.and (size_compared "SIZE" false "l" Ast.nil Ast.ge (pos 1))
      (size_compared "size" false "k" Ast.nil Ast.gt (pos 1))

collect_nonempty_vars-AllNonempty_example : ltb 0 (two "l") ≡ true
unfolding collect_nonempty_vars eq_ignore_ascii_case has
collect_nonempty_vars-AllNonempty_example =
    collect_nonempty_vars-AllNonempty two met (λ a b h. ground (arith, h))
      (λ name d v args n e h. h) (λ name d v args n e h. h) long_enough [] refl
      (λ x h. ground (arith, h)) "l" refl

-- `size(k) > 1` is not collected
collected : collect_nonempty_vars long_enough [] ≡ "l" ∷ []
unfolding collect_nonempty_vars eq_ignore_ascii_case
collected = refl

abbrev random : Expression
random = Ast.function_call "rand" false Ast.nil

-- `[x IN l WHERE rand() > …]` is opaque, and a quotient of `rand()` is not seen
opaque_comprehension :
    clause_expr_is_opaque
      (Ast.list_comprehension "x"
        (Ast.variable "l")
        (Ast.present (Ast.comparison random Ast.gt (Ast.variable "x")))
        Ast.absent)
      []
    ≡ true
unfolding clause_expr_is_opaque expr_contains_rand eq_ignore_ascii_case
opaque_comprehension = refl

quotient_not_seen :
    expr_contains_rand (Ast.divide random (Ast.literal (Ast.integer (pos 2)))) ≡ false
unfolding expr_contains_rand
quotient_not_seen = refl
