-- ===== src/Lqa/Lower/Cases.antt =====
-- The lowering of a simple CASE (crates/polygraph/src/lqa/lower.rs) against the desugaring of
-- crates/polygraph/src/lqa/normalize.rs.
use rs_polygraph.Lqa.Lower.Outcomes.{Outcome, ok, err, panicked, overflowed, bind_cong, bind_assoc}
use rs_polygraph.Base.{Bool, ◌≡◌, refl, sym, ◌∙◌}
use rs_polygraph.Lqa.Lower.Outcomes
use rs_polygraph.Ast
use rs_polygraph.Ast.{Expression, OptExpression, Whens}
use rs_polygraph.Lqa.Syntax
use rs_polygraph.Lqa.Syntax.{Expr, Branches, CmpOp}
use rs_polygraph.Lqa.Normalize.{searched_branches, simple_case_to_searched}
use rs_polygraph.Lqa.Lower.State.{AstLowerer, pure, ◌>>=◌}
use rs_polygraph.Lqa.Lower.Folding.{Texts}
use rs_polygraph.Lqa.Lower.Queries.{lower_expr, lower_opt, lower_whens, lower_simple_whens}

module _ (t : Texts) (same_expr : Expr → Expr → Bool) where
  -- the branches of a simple CASE, desugared after they are lowered
  whens_searched :
      (x : Expr) (ws : Whens) (s : AstLowerer)
      → lower_simple_whens t same_expr x ws s
        ≡ Outcomes.◌>>=◌ (lower_whens t same_expr ws s) (λ r. ok (searched_branches x r.0, r.1))
  unfolding lower_simple_whens lower_whens searched_branches
  whens_searched x Ast.no_when s = refl
  whens_searched x (Ast.when_then w r ws) s =
      bind_cong (lower_expr t same_expr w s) (λ a.
        bind_cong (lower_expr t same_expr r a.1) (λ b.
          rw (whens_searched x ws b.1) (branches_cong (lower_whens t same_expr ws b.1) a.0 b.0))
        ∙ sym (bind_assoc (lower_expr t same_expr r a.1) _ _))
      ∙ sym (bind_assoc (lower_expr t same_expr w s) _ _)
    where
      branches_cong :
          (q : Outcome (Branches × AstLowerer)) (a b : Expr)
          → Outcomes.◌>>=◌ {B = Branches × AstLowerer}
              (Outcomes.◌>>=◌ {B = Branches × AstLowerer} q
                (λ p. ok (searched_branches x p.0, p.1)))
              (λ p. ok (Syntax.branch (Expr.comparison CmpOp.eq x a) b p.0, p.1))
            ≡ Outcomes.◌>>=◌ {B = Branches × AstLowerer}
                (Outcomes.◌>>=◌ {B = Branches × AstLowerer} q
                  (λ p. ok (Syntax.branch a b p.0, p.1)))
                (λ p. ok (searched_branches x p.0, p.1))
      branches_cong (ok p) a b = refl
      branches_cong (err e) a b = refl
      branches_cong panicked a b = refl
      branches_cong overflowed a b = refl

  -- A simple CASE is lowered to what the desugaring makes of its lowered subject and branches.
  pub lower_expr-simple_case :
      (subject : Expression) (ws : Whens) (else_expr : OptExpression) (s : AstLowerer)
      → lower_expr t same_expr (Ast.case_expression (Ast.present subject) ws else_expr) s
        ≡ (do
          x ← lower_expr t same_expr subject
          bs ← lower_whens t same_expr ws
          e ← lower_opt t same_expr else_expr
          pure (simple_case_to_searched x bs e))
            s
  unfolding lower_expr simple_case_to_searched
  lower_expr-simple_case subject ws else_expr s =
      bind_cong (lower_expr t same_expr subject s)
        (λ r. rw (whens_searched r.0 ws r.1) (bind_assoc (lower_whens t same_expr ws r.1) _ _))
