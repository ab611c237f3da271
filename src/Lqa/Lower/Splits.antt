-- ===== src/Lqa/Lower/Splits.antt =====
-- `lower_query`, `lower_clauses` and `lower_pipeline` of crates/polygraph/src/lqa/lower.rs: the query is
-- cut at its UNIONs, and then each arm is lowered by itself.
use rs_polygraph.Base.{ℕ, zero, suc, ◌-◌, Bool, some, List, [], ◌∷◌}
use rs_polygraph.Ast
use rs_polygraph.Ast.{Clause}
use rs_polygraph.Lqa.Syntax.{Expr, Op}
use rs_polygraph.Lqa.Lower.State.{Lowering, pure, ◌>>=◌}
use rs_polygraph.Lqa.Lower.Terms.{unite}
use rs_polygraph.Lqa.Lower.Folding.{Texts}
use rs_polygraph.Lqa.Lower.Queries.{lower_clause}

-- `(index, all)` of the UNIONs, the first clause at `i`
unfoldable pub cut_positions : ℕ → List Clause → List (ℕ × Bool)
cut_positions i [] = []
cut_positions i (Ast.union all ∷ cs) = (i, all) ∷ cut_positions (suc i) cs
cut_positions i (c ∷ cs) = cut_positions (suc i) cs

-- `&clauses[i..]`
unfoldable pub drop : ℕ → List Clause → List Clause
drop zero cs = cs
drop (suc i) [] = []
drop (suc i) (c ∷ cs) = drop i cs

-- `&clauses[..n]`
unfoldable pub take : ℕ → List Clause → List Clause
take zero cs = []
take (suc n) [] = []
take (suc n) (c ∷ cs) = c ∷ take n cs

-- the first arm, and the others, each with the `all` of the UNION before it
pub record Arms : Type 0 where
  pub first : List Clause
  pub others : List (Bool × List Clause)

-- the arm before an arm
abbrev pub cut : List Clause → Bool → Arms → Arms
cut arm all a = record { first = arm; others = (all, a.first) ∷ a.others }

-- the loop over the positions, the last arm from `prev` on
unfoldable pub arms_at : List Clause → ℕ → List (ℕ × Bool) → Arms
unfolding take drop
arms_at clauses prev [] = record { first = drop prev clauses; others = [] }
arms_at clauses prev ((i, all) ∷ cuts) =
    cut (take (i - prev) (drop prev clauses)) all (arms_at clauses (suc i) cuts)

module _ (t : Texts) (same_expr : Expr → Expr → Bool) where
  -- from an operator on, in place of `Op::Unit`
  unfoldable pub lower_pipeline : Op → List Clause → Lowering Op
  unfolding lower_clause
  lower_pipeline op [] = pure op
  lower_pipeline op (c ∷ cs) = do op' ← lower_clause t same_expr op c; lower_pipeline op' cs

  -- `result`, and the arms left
  unfoldable pub unite_arms : Op → List (Bool × List Clause) → Lowering Op
  unfolding lower_pipeline unite
  unite_arms result [] = pure result
  unite_arms result ((all, arm) ∷ arms) = do
    right ← lower_pipeline Op.unit arm
    unite_arms (unite (some (result, all)) right) arms

  unfoldable pub lower_cuts : List Clause → List (ℕ × Bool) → Lowering Op
  unfolding lower_pipeline unite_arms arms_at
  lower_cuts clauses [] = lower_pipeline Op.unit clauses
  lower_cuts clauses (c ∷ cuts) = do
    op ← lower_pipeline Op.unit (arms_at clauses 0 (c ∷ cuts)).first
    unite_arms op (arms_at clauses 0 (c ∷ cuts)).others

  unfoldable pub lower_clauses : List Clause → Lowering Op
  unfolding lower_cuts cut_positions
  lower_clauses clauses = lower_cuts clauses (cut_positions 0 clauses)

  unfoldable pub lower_query : Ast.CypherQuery → Lowering Op
  unfolding lower_clauses
  lower_query q = lower_clauses q.clauses
